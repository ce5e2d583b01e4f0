-- ===== src/Purge/Clear.antt =====
-- `clearPrefix` of internal/purge/purge.go: list a prefix from its start and delete what is there,
-- until a listing comes back empty. The loop runs on fuel, one unit a round. A map that is read with
-- 0 for a missing key is a function.
pub mod Safety
pub mod Empty
pub mod Ends
use limewire_purge.Prelude.{
  ℕ, zero, suc, ◌+◌, ◌-◌, ◌*◌, ◌%◌, ◌^◌, ◌≡◌, refl, Bool, true, false, not, ◌&&◌, ◌||◌, List, [],
  ◌∷◌, ◌++◌, Option, none, some, Bytes, bytes_eq, ltb, ◌==◌, if◌then◌else◌, length, ℤ, pos, negsuc,
  Step, ◌>>=◌, ◌>>◌, pure, call, out_of_fuel,
}
use limewire_purge.Errors.{Err, safety, wrapped, message, Result, ok, err, is_unsafe_keys}
use limewire_purge.Pieceop.{is_piece_of, keep_only}
use limewire_purge.Purge.Env.{Object, Deletion, Options, Preview, Env, u64_of_int, u64_add, wait}

pub record Cleared : Type 0 where
  pub keys : ℕ
  pub bytes : ℕ
  pub error : Option Err

-- The variables of the loop: totals, failures per piece, consecutive list failures.
pub record Round : Type 0 where
  pub keys : ℕ
  pub bytes : ℕ
  pub fails : Bytes → ℕ
  pub list_fails : ℕ

abbrev pub contains : List Bytes → Bytes → Bool
contains [] k = false
contains (x ∷ xs) k = bytes_eq x k || contains xs k

abbrev pub assign : (Bytes → ℕ) → Bytes → ℕ → Bytes → ℕ
assign m k v j = if bytes_eq j k then v else m j

abbrev pub keys_of : List Object → List Bytes
keys_of [] = []
keys_of (o ∷ objs) = o.key ∷ keys_of objs

-- The map `size`: the last object of a key decides, and a key that was not listed reads 0.
size_of : List Object → Bytes → ℕ
size_of [] k = 0
size_of (o ∷ objs) k =
    if contains (keys_of objs) k
    then size_of objs k
    else if bytes_eq o.key k
    then u64_of_int o.size
    else 0

abbrev unknown_keys : Err
unknown_keys = safety (message "keys are not well-formed pieces of the object")

-- `backoff`: 500 ms doubled n times, n capped at 6 and the time at 30 s.
unfoldable pub backoff_ms : ℕ → ℕ
backoff_ms n = let d = 2 ^ (if ltb 6 n then 6 else n) * 500 in if ltb 30000 d then 30000 else d

-- `for _, k := range deleted`: count the key and its size, and forget its failures.
count_deleted : (Bytes → ℕ) → List Bytes → Round → Round
count_deleted size [] s = s
count_deleted size (k ∷ deleted) s = count_deleted size deleted (record s {
  keys = u64_add s.keys 1;
  bytes = u64_add s.bytes (size k);
  fails = assign s.fails k 0;
})

-- The keys of the map `reason`: with a request error every key of the batch that was not deleted,
-- otherwise the keys that the response refused.
undeleted : List Bytes → List Bytes → List Bytes
undeleted deleted [] = []
undeleted deleted (k ∷ batch) =
    if contains deleted k then undeleted deleted batch else k ∷ undeleted deleted batch

reasons : List Bytes → Deletion → List Bytes
unfolding undeleted
reasons batch d = elim d.error [ some e ↦ undeleted d.deleted batch | none ↦ d.failed ]

pub record Blame : Type 0 where
  pub fails : Bytes → ℕ
  pub worst : ℕ
  pub stuck : List Bytes

-- The loop over the batch that counts the failures.
blame : ℕ → List Bytes → List Bytes → Blame → Blame
blame max_retry reason [] b = b
blame max_retry reason (k ∷ batch) b =
    let n = b.fails k + 1 in
    blame max_retry reason batch (
      if contains reason k
      then record {
        fails = assign b.fails k n;
        worst = if ltb b.worst n then n else b.worst;
        stuck = if ltb max_retry n then b.stuck ++ k ∷ [] else b.stuck;
      }
      else b)

abbrev start : Round
start = record { keys = 0; bytes = 0; fails = λ k. 0; list_fails = 0 }

stopped : Round → Err → Cleared
stopped s e = record { keys = s.keys; bytes = s.bytes; error = some e }

cleared : Round → Cleared
cleared s = record { keys = s.keys; bytes = s.bytes; error = none }

-- `if err != nil { return keys, bytes, err }`
unless_stopped : {W : Type 0} → Option Err → Round → Step W Cleared → Step W Cleared
unless_stopped (some e) s next = pure (stopped s e)
unless_stopped none s next = next

module _ {W : Type 0} (E : Env W) (opt : Options) (oid : ℕ) (prefix : Bytes) where
  abbrev Again : Type 0
  Again = Round → Step W Cleared

  -- `if err := backoff(n); err != nil { return … }; continue`
  retry_after : Again → ℕ → Round → Step W Cleared
  unfolding unless_stopped
  retry_after again n s = do
    interrupted ← call (E.sleep (backoff_ms n))
    unless_stopped interrupted s (again s)

  -- The listing failed.
  list_failed : Again → Round → Err → Step W Cleared
  unfolding retry_after
  list_failed again s e =
      let s' = record s { list_fails = s.list_fails + 1 } in
      if ltb opt.max_retry s'.list_fails
      then pure (stopped s' (wrapped "list failed after retries" e))
      else retry_after again s'.list_fails s'

  -- Some keys of the batch are left: each counts one failure.
  after_failures : Again → List Bytes → List Bytes → Round → Step W Cleared
  unfolding retry_after
  after_failures again batch reason s =
      let b =
        blame opt.max_retry reason batch (record { fails = s.fails; worst = 0; stuck = [] }) in
      elim b.stuck [
        | k ∷ more ↦
            pure (
              stopped (record s { fails = b.fails }) (message "pieces still failing after retries"))
        | [] ↦ retry_after again b.worst (record s { fails = b.fails })
      ]

  -- The request was sent: count, and see what failed.
  after_request : Again → List Object → List Bytes → Round → Deletion → Step W Cleared
  unfolding after_failures
  after_request again objs batch s d =
      let s' = count_deleted (size_of objs) d.deleted s in
      elim (reasons batch d) [ [] ↦ again s' | k ∷ more ↦ after_failures again batch (k ∷ more) s' ]

  -- A batch that the deletion entry refuses is a safety violation.
  after_delete : Again → List Object → List Bytes → Round → Deletion → Step W Cleared
  unfolding after_request
  after_delete again objs batch s d = elim d.error [
    | none ↦ after_request again objs batch s d
    | some e ↦
        if is_unsafe_keys e then pure (stopped s (safety e)) else after_request again objs batch s d
  ]

  send_batch : Again → List Object → List Bytes → Round → Step W Cleared
  unfolding after_delete
  send_batch again objs batch s = do
    d ← call (E.delete_keys oid batch)
    after_delete again objs batch s d

  -- A listing that shows keys: all of them must be pieces of the object before any is deleted.
  delete_listed : Again → List Object → Round → Step W Cleared
  unfolding send_batch unless_stopped
  delete_listed again objs s =
      let (batch, rejected) = keep_only (keys_of objs) oid in
      elim rejected [
        | k ∷ more ↦ pure (stopped s unknown_keys)
        | [] ↦ (do
          interrupted ← call (wait E)
          unless_stopped interrupted s (send_batch again objs batch s))
      ]

  -- The listing succeeded.
  listed : Again → Round → List Object → Step W Cleared
  unfolding delete_listed
  listed again s [] = pure (cleared s)
  listed again s (o ∷ objs) = delete_listed again (o ∷ objs) (record s { list_fails = 0 })

  after_listing : Again → Round → Result (List Object) → Step W Cleared
  unfolding listed list_failed
  after_listing again s (err e) = list_failed again s e
  after_listing again s (ok objs) = listed again s objs

  list_prefix : Again → Round → Step W Cleared
  unfolding after_listing
  list_prefix again s = do listing ← call (E.list_keys prefix 1000); after_listing again s listing

  one_round : Again → Round → Step W Cleared
  unfolding list_prefix unless_stopped
  one_round again s = do
    interrupted ← call (wait E)
    unless_stopped interrupted s (list_prefix again s)

  rounds : ℕ → Round → Step W Cleared
  unfolding one_round
  rounds zero s = out_of_fuel
  rounds (suc fuel) s = one_round (rounds fuel) s

  -- The callback of a preview.
  count_page : List Object → Preview → Preview
  count_page [] p = p
  count_page (o ∷ objs) p = count_page objs (
      if is_piece_of oid o.key
      then record p { keys = u64_add p.keys 1; bytes = u64_add p.bytes (u64_of_int o.size) }
      else record p { rejected = p.rejected ++ o.key ∷ [] })

  preview_page : List Object → Preview → W → (Option Err × Preview) × W
  unfolding count_page
  preview_page objs p w = let (interrupted, w') = wait E w in ((interrupted, count_page objs p), w')

  preview : Step W Cleared
  unfolding preview_page
  preview = do
    (error, p) ←
        call (E.list_all prefix preview_page (record { keys = 0; bytes = 0; rejected = [] }))
    pure (record {
      keys = p.keys;
      bytes = p.bytes;
      error = elim error [
        | some e ↦ some e
        | none ↦ elim p.rejected [ [] ↦ none | k ∷ more ↦ some unknown_keys ]
      ];
    })

  unfoldable pub clear_prefix : ℕ → Step W Cleared
  unfolding rounds preview stopped cleared count_deleted size_of reasons blame
  clear_prefix fuel = if opt.dry_run then preview else rounds fuel start
