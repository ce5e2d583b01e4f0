-- ===== src/Purge/Process.antt =====
-- `ProcessOne` and `identityDiff` of internal/purge/purge.go: the chain check, both prefixes, and the
-- read-only re-check of one object.
pub mod Identity
pub mod Keeps
pub mod Outcome
use text.Mathlib.Text.{◌==◌ as str_eq}
use limewire_purge.Prelude.{
  ℕ, ◌≡◌, refl, Bool, true, false, not, List, [], ◌∷◌, ◌++◌, Option, none, some, Bytes, String,
  ◌==◌, if◌then◌else◌, int_eq, Step, ◌>>=◌, pure, call,
}
use limewire_purge.Errors.{Err, safety, wrapped, message, Result, ok, err}
use limewire_purge.Pieceop.{prefixes}
use limewire_purge.Purge.Env.{ObjectHead, Claimed, Options, Env, u64_add, wait}
use limewire_purge.Purge.Clear.{Cleared, clear_prefix}

-- `Result`: what one attempt produced, its keys split by prefix.
pub record Attempt : Type 0 where
  pub keys : ℕ
  pub bytes : ℕ
  pub s_keys : ℕ
  pub e_keys : ℕ
  pub error : Option Err

pub data Difference : Type 0 where
  object_id in_bucket status version payload : Difference

abbrev note : Bool → Difference → List Difference
note true d = d ∷ []
note false d = []

unfoldable pub identity_diff : Claimed → ObjectHead → String → List Difference
identity_diff c h bucket =
    note (not (h.id == c.oid)) object_id
    ++ (note (not (str_eq h.bucket bucket)) in_bucket
        ++ (note (not (str_eq h.status c.status)) status
            ++ (note (not (int_eq h.version c.version)) version
                ++ note (not (h.payload_size == c.payload_size)) payload)))

abbrev pub no_attempt : Attempt
no_attempt = record { keys = 0; bytes = 0; s_keys = 0; e_keys = 0; error = none }

-- The counters of one prefix, added to the attempt; the flag says which prefix it is.
add_cleared : Bool → Attempt → Cleared → Attempt
add_cleared first res c = record {
  keys = u64_add res.keys c.keys;
  bytes = u64_add res.bytes c.bytes;
  s_keys = if first then u64_add res.s_keys c.keys else res.s_keys;
  e_keys = if first then res.e_keys else u64_add res.e_keys c.keys;
  error = elim c.error [ some e ↦ some (wrapped "prefix" e) | none ↦ res.error ];
}

module _ {W : Type 0} (E : Env W) (opt : Options) where
  fail_with : Attempt → Err → Step W Attempt
  fail_with res e = pure (record res { error = some e })

  -- `if err != nil { res.Err = err; return res }`
  unless_failed : Option Err → Attempt → Step W Attempt → Step W Attempt
  unfolding fail_with
  unless_failed (some e) res next = fail_with res e
  unless_failed none res next = next

  after_empty : Attempt → Step W Attempt → Result Bool → Step W Attempt
  unfolding fail_with
  after_empty res next (err e) = fail_with res (wrapped "re-check" e)
  after_empty res next (ok false) = fail_with res (message "re-check: residue")
  after_empty res next (ok true) = next

  ask_empty : Bytes → Attempt → Step W Attempt → Step W Attempt
  unfolding after_empty
  ask_empty prefix res next = do answer ← call (E.is_empty prefix); after_empty res next answer

  -- The re-check of one prefix.
  recheck : Bytes → Attempt → Step W Attempt → Step W Attempt
  unfolding unless_failed ask_empty
  recheck prefix res next = do
    interrupted ← call (wait E)
    unless_failed interrupted res (ask_empty prefix res next)

  recheck_both : ℕ → Attempt → Step W Attempt
  unfolding recheck
  recheck_both oid res =
      if opt.dry_run
      then pure res
      else recheck (prefixes oid).0 res (recheck (prefixes oid).1 res (pure res))

  -- An error of a prefix ends the attempt, with what was counted so far.
  after_cleared : Bool → Attempt → (Attempt → Step W Attempt) → Cleared → Step W Attempt
  unfolding add_cleared
  after_cleared first res next c = elim c.error [
    | some e ↦ pure (add_cleared first res c)
    | none ↦ next (add_cleared first res c)
  ]

  clear_second : ℕ → ℕ → Attempt → Step W Attempt
  unfolding after_cleared recheck_both
  clear_second fuel oid res = do
    c ← clear_prefix E opt oid (prefixes oid).1 fuel
    after_cleared false res (recheck_both oid) c

  clear_both : ℕ → ℕ → Step W Attempt
  unfolding after_cleared clear_second
  clear_both fuel oid = do
    c ← clear_prefix E opt oid (prefixes oid).0 fuel
    after_cleared true no_attempt (clear_second fuel oid) c

  -- Nothing is deleted unless the chain confirms the full identity.
  after_head : ℕ → Claimed → Result ObjectHead → Step W Attempt
  unfolding fail_with clear_both
  after_head fuel c (err e) = fail_with no_attempt (wrapped "chain check" e)
  after_head fuel c (ok h) = elim (identity_diff c h opt.bucket) [
    | [] ↦ clear_both fuel c.oid
    | d ∷ more ↦ fail_with no_attempt (safety (message "chain identity check failed"))
  ]

  ask_chain : ℕ → Claimed → Step W Attempt
  unfolding after_head
  ask_chain fuel c = do answer ← call (E.head_object c.oid); after_head fuel c answer

  unfoldable pub process_one : ℕ → Claimed → Step W Attempt
  unfolding unless_failed ask_chain
  process_one fuel c = do lost ← call E.check; unless_failed lost no_attempt (ask_chain fuel c)
