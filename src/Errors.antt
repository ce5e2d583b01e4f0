-- ===== src/Errors.antt =====
-- Go's `error` values, as far as the code looks at them with `errors.Is`; the other texts are kept
-- short or left out. `nil` is the missing error.
use limewire_purge.Prelude.{Bool, true, false, ◌||◌, Option, none, some, String}

pub data Err : Type 0 where
  -- sentinels: sql.ErrNoRows, the context's error, deadline.ErrTimeout, progress.Err…,
  -- s3store.ErrUnsafeKeys
  no_rows cancelled timed_out no_current_task no_verify_task no_unassigned empty_scan : Err
  unsafe_keys : Err
  -- fmt.Errorf("%w: …", ErrSafety, cause)
  safety : Err → Err
  -- fmt.Errorf("…: %w", cause)
  wrapped : String → Err → Err
  -- errors.Join(…)
  joined : Err → Err → Err
  -- errors.New(…)
  message : String → Err
  -- an error of code outside the repository
  external : String → Err

pub data Result {ℓ} (A : Type ℓ) : Type ℓ where
  ok : A → Result A
  err : Err → Result A

-- `errors.Is(e, ErrSafety)`
abbrev pub is_safety : Err → Bool
is_safety (safety e) = true
is_safety (wrapped text e) = is_safety e
is_safety (joined d e) = is_safety d || is_safety e
is_safety _ = false

-- `errors.Is(e, s3store.ErrUnsafeKeys)`
abbrev pub is_unsafe_keys : Err → Bool
is_unsafe_keys unsafe_keys = true
is_unsafe_keys (safety e) = is_unsafe_keys e
is_unsafe_keys (wrapped text e) = is_unsafe_keys e
is_unsafe_keys (joined d e) = is_unsafe_keys d || is_unsafe_keys e
is_unsafe_keys _ = false

-- `errors.Join(d, e)`: missing errors are left out.
abbrev pub join : Option Err → Option Err → Option Err
join none e = e
join (some d) none = some d
join (some d) (some e) = some (joined d e)
