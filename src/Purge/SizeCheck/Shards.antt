-- ===== src/Purge/SizeCheck/Shards.antt =====
-- The loop over the segments computes the closed form (internal/purge/sizecheck.go).
use native.Mathlib.Nat.{
  mod-eq_of_lt, mod-eq-sub-mod, div-eq_of_lt, div-eq-sub-div, zero-mul, zero-add,
}
use limewire_purge.Prelude.{
  ℕ, zero, suc, ◌+◌, ◌-◌, ◌*◌, ◌/◌, ◌%◌, ◌^◌, ◌≤◌, ◌<◌, ◌≡◌, arith, ltb, inl, inr, Bool-cases,
  ltb→lt,
}
use limewire_purge.Purge.SizeCheck.{segment_of, shard, sum_shards, expected_secondary_bytes}

-- Rounded up.
abbrev pub ceil_div : ℕ → ℕ → ℕ
ceil_div n k = (n + k - 1) / k

-- Every whole segment gives one full shard, and the remainder one more.
abbrev pub shards_total : ℕ → ℕ → ℕ → ℕ
shards_total payload segment_size k =
    (payload / segment_size) * ceil_div segment_size k + ceil_div (payload % segment_size) k

shard-ceil_div : (seg k : ℕ) → 0 < k → seg + k ≤ 2 ^ 64 → shard seg k ≡ ceil_div seg k
unfolding shard
shard-ceil_div seg k hk fits =
    let e : (seg + k + 2 ^ 64 - 1) % 2 ^ 64 ≡ seg + k - 1 = omega arith in rw e

ceil_div-le : (n k : ℕ) → 0 < k → ceil_div n k ≤ n
ceil_div-le n k hk = grind arith

ceil_div_zero : (k : ℕ) → 0 < k → ceil_div 0 k ≡ 0
ceil_div_zero k hk = grind arith

shards_total_short : (payload S k : ℕ) → payload < S → shards_total payload S k ≡ ceil_div payload k
shards_total_short payload S k h = rw (div-eq_of_lt h, mod-eq_of_lt h, zero-mul, zero-add)

shards_total_step :
    (payload S k : ℕ)
    → 0 < S
    → S ≤ payload
    → shards_total payload S k ≡ ceil_div S k + shards_total (payload - S) S k
shards_total_step payload S k hs h = rw (div-eq-sub-div hs h, mod-eq-sub-mod h) (omega arith)

shards_total-le :
    (fuel payload S k : ℕ) → payload ≤ fuel → 0 < S → 0 < k → shards_total payload S k ≤ payload
shards_total-le zero payload S k le hs hk =
    omega (arith, shards_total_short payload S k (omega arith), ceil_div-le payload k hk)
shards_total-le (suc fuel) payload S k le hs hk = elim (Bool-cases (ltb payload S)) [
  | inl short ↦
      omega (arith, shards_total_short payload S k (ltb→lt _ _ short), ceil_div-le payload k hk)
  | inr long ↦
      let h : S ≤ payload = ground (arith, long) in
      omega (
        arith,
        shards_total_step payload S k hs h,
        ceil_div-le S k hk,
        shards_total-le fuel (payload - S) S k (omega arith) hs hk,
      )
]

module _ (S k : ℕ) (hs : 0 < S) (hk : 0 < k) (fits : S + k ≤ 2 ^ 64) where
  sum_shards-shards_total :
      (fuel payload total : ℕ)
      → payload ≤ fuel
      → total + shards_total payload S k < 2 ^ 64
      → sum_shards fuel payload S k total ≡ total + shards_total payload S k
  unfolding sum_shards segment_of
  sum_shards-shards_total zero payload total le bound =
      omega (arith, shards_total_short payload S k (omega arith), ceil_div-le payload k hk)
  sum_shards-shards_total (suc fuel) payload total le bound = elim (Bool-cases (ltb payload S)) [
    | inl short ↦
        let h : payload < S = ltb→lt _ _ short in
        ground (
          arith,
          shards_total_short payload S k h,
          shards_total_short (payload - payload) S k (omega arith),
          ceil_div-le payload k hk,
          ceil_div-le (payload - payload) k hk,
          shard-ceil_div payload k hk,
          sum_shards-shards_total fuel (payload - payload) (total + ceil_div payload k),
        )
    | inr long ↦
        let h : S ≤ payload = ground (arith, long) in
        ground (
          arith,
          shards_total_step payload S k hs h,
          shard-ceil_div S k hk,
          sum_shards-shards_total fuel (payload - S) (total + ceil_div S k),
        )
  ]

-- What a secondary provider holds, for a payload of uint64, at least one data chunk and a nonempty
-- segment size whose rounding does not wrap around: the loop ends and adds up, with no overflow, one
-- rounded-up shard for every whole segment and one for the remainder.
pub expected_secondary_bytes-shards_total :
    (payload segment_size data_chunks : ℕ)
    → payload < 2 ^ 64
    → 0 < segment_size
    → 0 < data_chunks
    → segment_size + data_chunks ≤ 2 ^ 64
    → expected_secondary_bytes payload segment_size data_chunks
      ≡ shards_total payload segment_size data_chunks
unfolding expected_secondary_bytes
expected_secondary_bytes-shards_total payload S k hp hs hk fits = ground (
  arith,
  shards_total-le payload payload S k (omega arith) hs hk,
  sum_shards-shards_total S k hs hk fits payload payload 0 (omega arith),
)
