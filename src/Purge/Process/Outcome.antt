-- ===== src/Purge/Process/Outcome.antt =====
-- What an attempt without an error proves (internal/purge/purge.go, ProcessOne).
use limewire_purge.Prelude.{
  ℕ, ◌≡◌, refl, inl, inr, Bool, true, false, Option, none, some, Option-cases, Bytes, Step, Yields,
  Yields->>=, arith,
}
use limewire_purge.Errors.{Err, Result, ok, err}
use limewire_purge.Pieceop.{prefixes}
use limewire_purge.Purge.Env.{ObjectHead, Claimed, Options, Env, wait}
use limewire_purge.Purge.Clear.{Cleared, clear_prefix}
use limewire_purge.Purge.Clear.Empty.{SeenEmpty, clear_prefix-SeenEmpty}
use limewire_purge.Purge.Process.{
  Attempt, no_attempt, unless_failed, after_empty, ask_empty, recheck, recheck_both, after_cleared,
  clear_second, clear_both, after_head, ask_chain, process_one, add_cleared, fail_with,
}
use limewire_purge.Purge.Process.Identity.{SameIdentity, identity_diff-nil_iff}

module _ {κ} {W : Type 0} (E : Env W) (opt : Options) (wet : opt.dry_run ≡ false)
    (X : W → Type κ) where
  -- An attempt without an error leaves a world in X.
  abbrev Clean : Option Attempt × W → Type κ
  Clean r = (res : Attempt) → r.0 ≡ some res → res.error ≡ none → X r.1

  fail_with-Clean : (res : Attempt) (e : Err) (w : W) → Clean (fail_with E opt res e w)
  unfolding fail_with
  fail_with-Clean res e w res' same clean = absurd (ground (arith, same, clean))

  unless_failed-Clean :
      (error : Option Err) (res : Attempt) (next : Step W Attempt) (w : W)
      → Clean (next w)
      → Clean (unless_failed E opt error res next w)
  unfolding unless_failed
  unless_failed-Clean (some e) res next w h = fail_with-Clean res e w
  unless_failed-Clean none res next w h = h

  recheck-Clean :
      (prefix : Bytes) (res : Attempt) (next : Step W Attempt) (w : W)
      → ((w' : W) → E.is_empty prefix (wait E w).1 ≡ (ok true, w') → Clean (next w'))
      → Clean (recheck E opt prefix res next w)
  unfolding recheck ask_empty
  recheck-Clean prefix res next w h =
      unless_failed-Clean _ res (ask_empty E opt prefix res next) _ (answered _ _ refl)
    where
      answered :
          (answer : Result Bool) (w' : W)
          → E.is_empty prefix (wait E w).1 ≡ (answer, w')
          → Clean (after_empty E opt res next answer w')
      answered (err e) w' asked = unfold after_empty in fail_with-Clean res _ w'
      answered (ok false) w' asked = unfold after_empty in fail_with-Clean res _ w'
      answered (ok true) w' asked = unfold after_empty in h w' asked

  recheck_both-Clean :
      (oid : ℕ) (res : Attempt) (w : W)
      → ((between w' : W)
          → E.is_empty (prefixes oid).0 (wait E w).1 ≡ (ok true, between)
          → E.is_empty (prefixes oid).1 (wait E between).1 ≡ (ok true, w')
          → X w')
      → Clean (recheck_both E opt oid res w)
  unfolding recheck_both
  recheck_both-Clean oid res w h = simp wet (
      recheck-Clean (prefixes oid).0 res _ w
        λ between e. recheck-Clean (prefixes oid).1 res _ between λ w' e' _ _ _. h between w' e e')

  after_cleared-Clean :
      (first : Bool) (res : Attempt) (next : Attempt → Step W Attempt) (c : Cleared) (w : W)
      → (c.error ≡ none → (res : Attempt) → Clean (next res w))
      → Clean (after_cleared E opt first res next c w)
  unfolding after_cleared add_cleared
  after_cleared-Clean first res next c w h res' same clean = elim (Option-cases c.error) [
    | inl none_left ↦ ground (arith, h none_left (add_cleared first res c) res')
    | inr (e, failed) ↦ absurd (ground (arith, failed, same, clean))
  ]

-- The clearing of a prefix, begun in one world, ended in the other, and its last call was a listing
-- of the prefix that found nothing.
pub record Clearing {W : Type 0} (E : Env W) (opt : Options) (oid : ℕ) (prefix : Bytes) (fuel : ℕ)
    (begun ended : W) : Type 0 where
  pub ran : (clear_prefix E opt oid prefix fuel begun).1 ≡ ended
  pub listed : SeenEmpty E opt oid prefix ended

module _ {W : Type 0} (E : Env W) (opt : Options) (fuel oid : ℕ) where
  -- From `begun` on, both prefixes were cleared, and then each was asked about once more: nothing
  -- came between these calls but the waits of the limiter.
  pub record BothEmpty (begun w : W) : Type 0 where
    pub first_ended : W
    pub first : Clearing E opt oid (prefixes oid).0 fuel begun first_ended
    pub second_ended : W
    pub second : Clearing E opt oid (prefixes oid).1 fuel first_ended second_ended
    pub between : W
    pub first_empty : E.is_empty (prefixes oid).0 (wait E second_ended).1 ≡ (ok true, between)
    pub second_empty : E.is_empty (prefixes oid).1 (wait E between).1 ≡ (ok true, w)

module _ {W : Type 0} (E : Env W) (opt : Options) (wet : opt.dry_run ≡ false) (fuel oid : ℕ) where
  clear_prefix-Clearing :
      (prefix : Bytes) (w : W)
      → Yields
          (λ c w'. c.error ≡ none → Clearing E opt oid prefix fuel w w')
          (clear_prefix E opt oid prefix fuel w)
  clear_prefix-Clearing prefix w c e clean = record {
    ran = refl;
    listed = clear_prefix-SeenEmpty E opt oid prefix fuel w c wet e clean;
  }

  clear_second-Clean :
      (begun first_ended : W) (res : Attempt)
      → Clearing E opt oid (prefixes oid).0 fuel begun first_ended
      → Clean E opt wet
          (BothEmpty E opt fuel oid begun)
          (clear_second E opt fuel oid res first_ended)
  unfolding clear_second
  clear_second-Clean begun first_ended res first =
      Yields->>= (λ c w'. c.error ≡ none → Clearing E opt oid (prefixes oid).1 fuel first_ended w')
        (λ a w'. a.error ≡ none → BothEmpty E opt fuel oid begun w')
        (clear_prefix E opt oid (prefixes oid).1 fuel)
        (after_cleared E opt false res (recheck_both E opt oid)) first_ended
        (clear_prefix-Clearing (prefixes oid).1 first_ended)
        λ c second_ended second.
          after_cleared-Clean E opt wet (BothEmpty E opt fuel oid begun) false res
            (recheck_both E opt oid) c second_ended
            λ clean res'.
              recheck_both-Clean E opt wet (BothEmpty E opt fuel oid begun) oid res' second_ended
                λ between w' e e'. record {
                  first_ended = first_ended;
                  first = first;
                  second_ended = second_ended;
                  second = second clean;
                  between = between;
                  first_empty = e;
                  second_empty = e';
                }

  clear_both-Clean :
      (w : W) → Clean E opt wet (BothEmpty E opt fuel oid w) (clear_both E opt fuel oid w)
  unfolding clear_both
  clear_both-Clean w =
      Yields->>= (λ c w'. c.error ≡ none → Clearing E opt oid (prefixes oid).0 fuel w w')
        (λ a w'. a.error ≡ none → BothEmpty E opt fuel oid w w')
        (clear_prefix E opt oid (prefixes oid).0 fuel)
        (after_cleared E opt true no_attempt (clear_second E opt fuel oid)) w
        (clear_prefix-Clearing (prefixes oid).0 w)
        λ c first_ended first.
          after_cleared-Clean E opt wet (BothEmpty E opt fuel oid w) true no_attempt
            (clear_second E opt fuel oid) c first_ended
            λ clean res'. clear_second-Clean w first_ended res' (first clean)

module _ {W : Type 0} (E : Env W) (opt : Options) (c : Claimed) (fuel : ℕ) where
  -- From the attempt's start to `w`: the chain was asked behind the check of the session and confirmed
  -- the object's identity; from its answer on, both prefixes were cleared, each up to an empty listing,
  -- and were then found empty once more.
  pub record Verified (start w : W) : Type 0 where
    pub head : ObjectHead
    pub confirmed : W
    pub answered : E.head_object c.oid (E.check start).1 ≡ (ok head, confirmed)
    pub identity : SameIdentity c head opt.bucket
    pub emptied : BothEmpty E opt fuel c.oid confirmed w

  after_head-Verified :
      (wet : opt.dry_run ≡ false) (start : W) (answer : Result ObjectHead) (w : W)
      → E.head_object c.oid (E.check start).1 ≡ (answer, w)
      → Clean E opt wet (Verified start) (after_head E opt fuel c answer w)
  unfolding after_head
  after_head-Verified wet start (err e) w said res same clean =
      fail_with-Clean E opt wet (Verified start) no_attempt _ w res same clean
  after_head-Verified wet start (ok h) w said res same clean =
      ground (arith, (identity_diff-nil_iff c h opt.bucket).0, confirmed)
    where
      confirmed :
          SameIdentity c h opt.bucket
          → (clear_both E opt fuel c.oid w).0 ≡ some res
          → Verified start (clear_both E opt fuel c.oid w).1
      confirmed identity same' = record {
        head = h;
        confirmed = w;
        answered = said;
        identity = identity;
        emptied = clear_both-Clean E opt wet fuel c.oid w res same' clean;
      }

  -- A real attempt that returns without an error deleted only behind an answer of the chain that
  -- confirmed the object's identity; then the clearing of each prefix, the second begun where the first
  -- ended, ended on an empty listing of it; and from there to the end, the attempt only waited and asked
  -- about each prefix once more, answered both times that it is empty.
  pub process_one-Verified :
      (w : W) (res : Attempt)
      → opt.dry_run ≡ false
      → (process_one E opt fuel c w).0 ≡ some res
      → res.error ≡ none
      → Verified w (process_one E opt fuel c w).1
  unfolding process_one ask_chain
  process_one-Verified w res wet =
      unless_failed-Clean E opt wet (Verified w) _ no_attempt (ask_chain E opt fuel c) _
        (after_head-Verified wet w _ _ refl) res
