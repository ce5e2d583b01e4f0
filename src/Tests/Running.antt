-- ===== src/Tests/Running.antt =====
-- A run of one worker over two objects.
use limewire_purge.Prelude.{
  ℕ, ◌+◌, ◌*◌, ◌≤◌, ◌≡◌, ◌⊎◌, refl, subst, true, false, List, [], ◌∷◌, Option, none, pos, All, ltb,
  if◌then◌else◌, Bool-cases, arith, some,
}
use limewire_purge.Errors.{Err, Result, ok}
use limewire_purge.Purge.Env.{Claimed}
use limewire_purge.Purge.Pool.{
  Feed, ended, Pool, asks, claims, sends, takes, starts, returns, start_of_run, next, Allowed,
  Reach, here, there, Finished, workers,
}
use limewire_purge.Purge.Pool.Once.{count, Above}
use limewire_purge.Progress.Tables.{ScanRow, TaskObject, VerifyStatus}
use limewire_purge.Progress.Session.{Db, check_lock, query, pure, ◌>>=◌, ◌>>◌}
use limewire_purge.Progress.Rows.{select, sort_by, insert_by, exists}
use limewire_purge.Progress.Purging.{claim_subtask, wants_purge}
use limewire_purge.Commands.Adapter.{claim, to_claimed}
use limewire_purge.Commands.Adapter.Ascending.{FromDatabase, sent_once-FromDatabase}
use limewire_purge.Purge.Pool.Stops.{none_started}
use limewire_purge.Purge.Pool.Whole.{unstopped_complete}
use limewire_purge.Purge.Pool.Moves.{CanMove, moves_or_Finished}
use limewire_purge.Purge.Pool.Ends.{own_events, own_events-bounded}

abbrev object : ℕ → Claimed
object oid = record { oid = oid; payload_size = 7; status = "SEALED"; version = pos 0 }

abbrev left_behind : ℕ → List Claimed
left_behind after =
    if ltb after 3 then object 3 ∷ object 5 ∷ [] else if ltb after 5 then object 5 ∷ [] else []

abbrev Answers : ℕ → ℕ → Result (List Claimed) → Type 0
Answers after limit answer = answer ≡ ok (left_behind after)

abbrev after_ask : Pool
after_ask = record {
  feed = Feed.asking;
  after = 0;
  channel = [];
  checking = [];
  working = [];
  handled = [];
  dropped = [];
  stopped = false;
  halted = false;
}

abbrev after_answer : Pool
after_answer = record after_ask { feed = Feed.sending (object 3 ∷ object 5 ∷ []) }

abbrev after_send : Pool
after_send = record after_ask {
  feed = Feed.sending (object 5 ∷ []);
  after = 3;
  channel = object 3 ∷ [];
}

abbrev after_take : Pool
after_take = record after_send { channel = []; checking = object 3 ∷ [] }

abbrev after_start : Pool
after_start = record after_take { checking = []; working = object 3 ∷ [] }

abbrev after_stop : Pool
after_stop = record after_start { stopped = true }

abbrev after_return : Pool
after_return = record after_stop { working = []; handled = object 3 ∷ [] }

started : Reach 1 Answers start_of_run after_start
unfolding start_of_run next Allowed
started =
    there after_take after_start (starts [] (object 3) [])
      (there after_send after_take (takes (object 3) [])
        (there after_answer after_send (sends (object 3) (object 5 ∷ []))
          (there after_ask after_answer (claims (ok (object 3 ∷ object 5 ∷ [])))
            (there start_of_run after_ask asks (here start_of_run refl) (refl, refl) refl)
            (refl, refl) refl)
          (refl, omega arith) refl)
        (refl, omega arith) refl)
      (refl, refl) refl

returned : Reach 1 Answers after_stop after_return
unfolding next Allowed
returned = there after_stop after_return (returns [] (object 3) []) (here after_stop refl) refl refl

left_behind-above :
    (after : ℕ) (rows : List Claimed)
    → left_behind after ≡ rows
    → Above after rows × All (λ c. c.oid ≤ 5) rows
left_behind-above after rows e =
    subst (λ z. Above after z × All (λ c. c.oid ≤ 5) z) e
      (by_cases (Bool-cases (ltb after 3)) (Bool-cases (ltb after 5)))
  where
    by_cases :
        (ltb after 3 ≡ true) ⊎ (ltb after 3 ≡ false)
        → (ltb after 5 ≡ true) ⊎ (ltb after 5 ≡ false)
        → Above after (left_behind after) × All (λ c. c.oid ≤ 5) (left_behind after)
    by_cases h k = ground (arith, h, k)

answers_above :
    (after limit : ℕ) (rows : List Claimed)
    → Answers after limit (ok rows)
    → Above after rows × All (λ c. c.oid ≤ 5) rows
answers_above after limit rows said = left_behind-above after rows (ground (arith, said))

-- The same run over a database with two listed objects of the task 1.
abbrev listed : ℕ → ScanRow
listed oid = record { object_id = oid; payload_size = 7; status = "SEALED"; version = pos 0 }

abbrev assigned : ℕ → TaskObject
assigned oid = record {
  task_id = 1;
  object_id = oid;
  deferred = false;
  verify_generation = 0;
  verify_status = VerifyStatus.pending;
}

abbrev database : Db
database = record {
  tables = record {
    meta = none;
    scan_objects = listed 5 ∷ listed 3 ∷ [];
    progress = [];
    tasks = [];
    objects = assigned 3 ∷ assigned 5 ∷ [];
    events = [];
    next_task = 2;
  };
  lock = some (record { id = 9; lost = none });
  owner = some 9;
  interrupted = false;
  script = [];
}

claimed : (claim 1 0 4 database).0 ≡ ok (object 3 ∷ object 5 ∷ [])
unfolding claim to_claimed claim_subtask wants_purge check_lock query pure ◌>>=◌ ◌>>◌ select sort_by
    insert_by exists
claimed = refl

started-FromDatabase : Reach 1 (FromDatabase 1) start_of_run after_start
unfolding start_of_run next Allowed
started-FromDatabase =
    there after_take after_start (starts [] (object 3) [])
      (there after_send after_take (takes (object 3) [])
        (there after_answer after_send (sends (object 3) (object 5 ∷ []))
          (there after_ask after_answer (claims (ok (object 3 ∷ object 5 ∷ [])))
            (there start_of_run after_ask asks (here start_of_run refl) (refl, refl) refl)
            (refl, (database, ((omega arith, tt), (tt, tt)), claimed)) refl)
          (refl, omega arith) refl)
        (refl, omega arith) refl)
      (refl, refl) refl

sent_once-FromDatabase_example :
    count 3 after_start.channel
      + count 3 after_start.checking
      + count 3 after_start.working
      + count 3 after_start.handled
      + count 3 after_start.dropped
    ≤ 1
sent_once-FromDatabase_example = sent_once-FromDatabase 1 1 after_start 3 started-FromDatabase

none_started_example :
    count 5 after_return.working + count 5 after_return.handled
    ≡ count 5 after_stop.working + count 5 after_stop.handled
none_started_example = none_started 1 Answers after_stop after_return 5 refl returned

unstopped_complete_example :
    (after_start.dropped ≡ [])
    × ((o : Option Err)
        → after_start.feed ≡ ended o
        → (o ≡ none) × Answers after_start.after 4 (ok []))
unstopped_complete_example = unstopped_complete 1 Answers after_start started refl

moves_or_Finished_example : Finished after_stop ⊎ CanMove (workers (pos 0)) Answers after_stop
moves_or_Finished_example =
    moves_or_Finished Answers (λ after limit. (ok (left_behind after), refl)) (pos 0) after_stop

own_events-bounded_example :
    own_events 1 Answers 5 answers_above start_of_run after_start started ≤ 8 * 5 + 4
own_events-bounded_example = own_events-bounded 1 Answers 5 answers_above after_start started
