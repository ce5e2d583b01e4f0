-- ===== src/Purge/Pool/Report.antt =====
-- When `Run` of internal/purge/purge.go reports no error.
use limewire_purge.Prelude.{◌≡◌, ◌↔◌, Option, none, arith}
use limewire_purge.Errors.{Err}
use limewire_purge.Purge.Handle.{Tally, finish}
use limewire_purge.Purge.Handle.Report.{AllWell}
use limewire_purge.Purge.Pool.{run_error}

run_error_sound :
    (t : Tally) (claim_error cut : Option Err)
    → run_error t claim_error cut ≡ none
    → AllWell t claim_error cut
unfolding run_error finish
run_error_sound t claim_error cut e = ground (arith, e)

run_error_complete :
    (t : Tally) (claim_error cut : Option Err)
    → AllWell t claim_error cut
    → run_error t claim_error cut ≡ none
unfolding run_error finish
run_error_complete t claim_error cut well = ground (arith, well)

-- `Run` reports no error exactly when the run was neither halted nor stopped nor cut short, the feed
-- returned none, no object failed, and every result is in the progress table; that it leaves the
-- feed's error out behind a halt or a stop hides nothing.
pub run_error-none_iff :
    (t : Tally) (claim_error cut : Option Err)
    → (run_error t claim_error cut ≡ none) ↔ AllWell t claim_error cut
run_error-none_iff t claim_error cut =
    (run_error_sound t claim_error cut, run_error_complete t claim_error cut)
