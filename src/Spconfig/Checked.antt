-- ===== src/Spconfig/Checked.antt =====
-- What a configuration that loads satisfies (internal/spconfig/spconfig.go, Load).
use limewire_purge.Prelude.{
  ◌≡◌, ◌≢◌, ◌⊎◌, inl, inr, refl, subst, Bool, true, false, ◌||◌, [], ◌∷◌, Option, Bytes, codes,
  bytes_eq, bytes_eq-eq, if◌then◌else◌,
}
use limewire_purge.Errors.{message, Result, ok, err}
use limewire_purge.Spconfig.{Config, override, is_sharded, check_store, load}

pub record Checked (c : Config) : Type 0 where
  pub not_sharded : is_sharded c.shards ≡ false
  pub known_store : (c.storage ≡ []) ⊎ (c.storage ≡ codes "s3") ⊎ (c.storage ≡ codes "minio")
  pub chain_named : c.chain_id ≢ []

ok_injective : {c d : Config} → ok c ≡ ok d → c ≡ d
ok_injective e = cc

named : (b : Bytes) → (if bytes_eq b [] then codes "greenfield_9000-121" else b) ≢ []
unfolding bytes_eq
named [] e = cc
named (c ∷ s) e = cc

or_cases : (a b : Bool) → (a || b) ≡ true → (a ≡ true) ⊎ (b ≡ true)
or_cases true b e = inl refl
or_cases false b e = inr e

one_of :
    (s : Bytes)
    → (bytes_eq s [] || (bytes_eq s (codes "s3") || bytes_eq s (codes "minio"))) ≡ true
    → (s ≡ []) ⊎ (s ≡ codes "s3") ⊎ (s ≡ codes "minio")
one_of s e = elim (or_cases _ _ e) [
  | inl h ↦ inl (bytes_eq-eq s [] h)
  | inr h ↦ elim (or_cases (bytes_eq s (codes "s3")) _ h) [
    | inl k ↦ inr (inl (bytes_eq-eq s (codes "s3") k))
    | inr k ↦ inr (inr (bytes_eq-eq s (codes "minio") k))
  ]
]

check_store-Checked : (c d : Config) → c.chain_id ≢ [] → check_store c ≡ ok d → Checked d
unfolding check_store
check_store-Checked c d h e =
    by_tests (is_sharded c.shards)
      (bytes_eq c.storage []
        || (bytes_eq c.storage (codes "s3") || bytes_eq c.storage (codes "minio")))
      refl refl e
  where
    by_tests :
        (sharded known : Bool)
        → is_sharded c.shards ≡ sharded
        → (bytes_eq c.storage []
            || (bytes_eq c.storage (codes "s3") || bytes_eq c.storage (codes "minio")))
          ≡ known
        → (if sharded
            then err (message "sharded piece stores are not supported by this tool")
            else if known
            then ok c
            else err (message "only s3 / minio are supported"))
          ≡ ok d
        → Checked d
    by_tests true known s k e = absurd (cc)
    by_tests false false s k e = absurd (cc)
    by_tests false true s k e =
        subst Checked (ok_injective e)
          (record { not_sharded = s; known_store = one_of c.storage k; chain_named = h })

-- A configuration that loads is of an unsharded store of a known kind, and names its chain.
pub load-Checked :
    (lookup : Bytes → Option Bytes) (file : Result Config) (c : Config)
    → load lookup file ≡ ok c
    → Checked c
unfolding load override
load-Checked lookup (err x) c e = absurd (cc)
load-Checked lookup (ok file) c e =
    check_store-Checked (override lookup file) c (named file.chain_id) e
