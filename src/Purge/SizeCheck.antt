-- ===== src/Purge/SizeCheck.antt =====
-- internal/purge/sizecheck.go: the bytes that this provider should have held for an object. The
-- arithmetic is that of uint64.
pub mod Shards
use limewire_purge.Prelude.{
  ℕ, zero, suc, ◌+◌, ◌-◌, ◌/◌, ◌%◌, ◌^◌, ◌≡◌, refl, Bool, true, false, ◌&&◌, ◌||◌, ltb, ◌==◌,
  if◌then◌else◌,
}

pub data Role : Type 0 where
  primary secondary nothing mixed : Role

pub record SizeCheck : Type 0 where
  pub role : Role
  pub expected : ℕ
  pub known : Bool

-- One round: a segment, or the rest of the payload if that is shorter.
segment_of : ℕ → ℕ → ℕ
segment_of segment_size payload = if ltb payload segment_size then payload else segment_size

shard : ℕ → ℕ → ℕ
shard seg k = ((seg + k + 2 ^ 64 - 1) % 2 ^ 64) / k

-- `for payload > 0`: each round takes at least one byte off, so the payload is enough fuel.
sum_shards : ℕ → ℕ → ℕ → ℕ → ℕ → ℕ
unfolding segment_of shard
sum_shards zero payload segment_size k total = total
sum_shards (suc fuel) payload segment_size k total =
    let seg = segment_of segment_size payload in
    let rest = sum_shards fuel (payload - seg) segment_size k ((total + shard seg k) % 2 ^ 64) in
    if ltb 0 payload then rest else total

unfoldable pub expected_secondary_bytes : ℕ → ℕ → ℕ → ℕ
unfolding sum_shards
expected_secondary_bytes payload segment_size data_chunks =
    if segment_size == 0 || data_chunks == 0
    then 0
    else sum_shards payload payload segment_size data_chunks 0

-- `checkSize`: the role shows from the prefixes that held data.
unfoldable pub check_size : (s_keys e_keys data_chunks segment_size payload : ℕ) → SizeCheck
check_size s_keys e_keys data_chunks segment_size payload =
    if ltb 0 s_keys && ltb 0 e_keys
    then record { role = mixed; expected = 0; known = false }
    else if ltb 0 s_keys
    then record { role = primary; expected = payload; known = true }
    else if ltb 0 e_keys
    then if data_chunks == 0 || segment_size == 0
      then record { role = secondary; expected = 0; known = false }
      else record {
        role = secondary;
        expected = expected_secondary_bytes payload segment_size data_chunks;
        known = true;
      }
    else record { role = nothing; expected = 0; known = false }
