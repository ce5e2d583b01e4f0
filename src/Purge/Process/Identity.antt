-- ===== src/Purge/Process/Identity.antt =====
-- What `identityDiff` compares (internal/purge/purge.go).
use text.Mathlib.TextEquality.{eq_iff}
use limewire_purge.Prelude.{◌≡◌, ◌↔◌, [], String, int_eq_iff, arith}
use limewire_purge.Purge.Env.{ObjectHead, Claimed}
use limewire_purge.Purge.Process.{identity_diff}

-- The chain and the snapshot agree on the object, in the bucket of the run.
pub record SameIdentity (c : Claimed) (h : ObjectHead) (bucket : String) : Type 0 where
  pub same_id : h.id ≡ c.oid
  pub same_bucket : h.bucket ≡ bucket
  pub same_status : h.status ≡ c.status
  pub same_version : h.version ≡ c.version
  pub same_payload : h.payload_size ≡ c.payload_size

identity_diff_sound :
    (c : Claimed) (h : ObjectHead) (bucket : String)
    → identity_diff c h bucket ≡ []
    → SameIdentity c h bucket
unfolding identity_diff
identity_diff_sound c h bucket e =
    ground (arith, eq_iff h.bucket bucket, eq_iff h.status c.status, int_eq_iff h.version c.version)

identity_diff_complete :
    (c : Claimed) (h : ObjectHead) (bucket : String)
    → SameIdentity c h bucket
    → identity_diff c h bucket ≡ []
unfolding identity_diff
identity_diff_complete c h bucket s =
    ground (arith, eq_iff h.bucket bucket, eq_iff h.status c.status, int_eq_iff h.version c.version)

-- No difference is reported exactly when id, bucket, status, version and payload size all agree.
pub identity_diff-nil_iff :
    (c : Claimed) (h : ObjectHead) (bucket : String)
    → (identity_diff c h bucket ≡ []) ↔ SameIdentity c h bucket
identity_diff-nil_iff c h bucket =
    (identity_diff_sound c h bucket, identity_diff_complete c h bucket)
