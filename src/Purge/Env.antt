-- ===== src/Purge/Env.antt =====
-- internal/purge/purge.go: the interfaces through which the purge loop meets the world (ObjectStore,
-- Chain, Progress, Check, OnSafety, the rate limiter, the context and the clock), the options, and
-- what one object attempt returns. A world `W` is whatever the calls read and change.
use limewire_purge.Prelude.{
  ℕ, ◌+◌, ◌-◌, ◌%◌, ◌^◌, Bool, Option, none, some, List, Bytes, String, ℤ, pos, negsuc,
}
use limewire_purge.Errors.{Err, Result}
use limewire_purge.Purge.SizeCheck.{SizeCheck}

-- s3store.Object: `Size` is an int64.
pub record Object : Type 0 where
  pub key : Bytes
  pub size : ℤ

-- What `Delete` returns: the keys confirmed deleted, the keys refused, and the request's own error.
pub record Deletion : Type 0 where
  pub deleted : List Bytes
  pub failed : List Bytes
  pub error : Option Err

-- What the chain says about one object right now.
pub record ObjectHead : Type 0 where
  pub id : ℕ
  pub bucket : String
  pub status : String
  pub version : ℤ
  pub payload_size : ℕ

-- One object handed to a worker, with the snapshot that scan recorded.
pub record Claimed : Type 0 where
  pub oid : ℕ
  pub payload_size : ℕ
  pub status : String
  pub version : ℤ

pub record Options : Type 0 where
  pub bucket : String
  pub concurrency : ℕ
  pub max_retry : ℕ
  pub dry_run : Bool
  pub retry_failed : Bool
  pub data_chunks : ℕ
  pub segment_size : ℕ

-- What a preview has seen: keys and bytes of the object, and keys that are not its pieces.
pub record Preview : Type 0 where
  pub keys : ℕ
  pub bytes : ℕ
  pub rejected : List Bytes

-- The methods. A missing error is `none`; every call may change the world.
pub record Env (W : Type 0) : Type 0 where
  -- ctx.Err(), r.Check(ctx) (`none` where Check is nil), and r.lim.Wait(ctx)
  pub context_error : W → Option Err × W
  pub check : W → Option Err × W
  pub rate_wait : W → Option Err × W
  -- select { case <-ctx.Done(); case <-time.After(d) }, in milliseconds
  pub sleep : ℕ → W → Option Err × W
  pub list_keys : Bytes → ℕ → W → Result (List Object) × W
  -- the callback is called for each page, and ends the listing by an error
  pub list_all :
      Bytes
      → (List Object → Preview → W → (Option Err × Preview) × W)
      → Preview
      → W
      → (Option Err × Preview) × W
  pub is_empty : Bytes → W → Result Bool × W
  pub delete_keys : ℕ → List Bytes → W → Deletion × W
  pub head_object : ℕ → W → Result ObjectHead × W
  pub claim : ℕ → ℕ → Bool → W → Result (List Claimed) × W
  pub done : ℕ → ℕ → ℕ → SizeCheck → W → Option Err × W
  pub fail : ℕ → ℕ → ℕ → Err → W → Option Err × W
  -- r.haltCancel
  pub cancel : W → Unit {0} × W
  -- `none` where OnSafety is nil
  pub on_safety : ℕ → Err → W → Option Err × W

-- uint64(n) of an int64.
abbrev pub u64_of_int : ℤ → ℕ
u64_of_int (pos n) = n % 2 ^ 64
u64_of_int (negsuc n) = 2 ^ 64 - (n + 1)

abbrev pub u64_add : ℕ → ℕ → ℕ
u64_add a b = (a + b) % 2 ^ 64

-- `if err := first; err != nil { return err }; return next`
abbrev pub unless_error : {W : Type 0} → Option Err × W → (W → Option Err × W) → Option Err × W
unless_error (none, w) next = next w
unless_error (some e, w) next = (some e, w)

-- `r.wait`: the context, the lock check and the rate limiter, in this order.
unfoldable pub wait : {W : Type 0} → Env W → W → Option Err × W
wait E w = unless_error (E.context_error w) λ w'. unless_error (E.check w') E.rate_wait
