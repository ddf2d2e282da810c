-- ===== src/Advice/CpuLimits.antt =====
-- cpu_throttle.go: the CPU values advised fit together.
use cigar.Prelude.{
  ℕ, ◌+◌, ◌*◌, ◌/◌, ◌%◌, ◌^◌, ◌≤◌, ◌<◌, ◌≡◌, refl, false, ◌⊎◌, inl, inr, ◌++◌, arith, Bool-cases,
}
use cigar.Prelude.Int.{ℤ, pos, ◌≤ℤ◌, ◌+ℤ◌, wrap64, quot, times, ltb_ℤ}
use cigar.Text.{codes}
use cigar.Text.Decimal.{format_int}
use cigar.Float.{Float}
use cigar.Advice.{to_millis, millicores}
use cigar.Advice.Cpu.{
  next_hundred, not_positive, suggested_cpu_limit_millis, suggested_cpu_limit,
  suggested_cpu_request,
}

-- The next whole number of hundreds, for a count of millicores below 2^63 - 99.
next_hundred_bounds :
    (m : ℕ)
    → m + 99 < 2 ^ 63
    → (k : ℕ) × (next_hundred (pos m) ≡ pos k) × (k % 100 ≡ 0) × (m ≤ k) × (k < m + 100)
unfolding next_hundred wrap64 quot times ◌+ℤ◌
next_hundred_bounds m fits =
    ((m + 99) / 100 * 100, ground arith, omega arith, omega arith, omega arith)

not_above : (a b : ℤ) → ltb_ℤ a b ≡ false → b ≤ℤ a
not_above a b h = ground (arith, h)

-- The request advised is the limit advised, or a number of millicores that is not above it.
suggested_cpu_request_clamped :
    (F : Type 0) ⦃fl : Float F⦄ (request limit : F)
    → (suggested_cpu_request F request limit ≡ suggested_cpu_limit F limit)
      ⊎ ((m : ℤ) × (suggested_cpu_request F request limit ≡ format_int m ++ codes "m")
          × (m ≤ℤ suggested_cpu_limit_millis F limit))
unfolding suggested_cpu_request millicores
suggested_cpu_request_clamped F request limit = elim (Bool-cases (not_positive F request)) [
  | inl unset ↦ rw (unset) (inl refl)
  | inr set ↦ elim (Bool-cases (ltb_ℤ (suggested_cpu_limit_millis F limit) (to_millis F request))) [
    | inl above ↦ rw (set, above) (inr (suggested_cpu_limit_millis F limit, refl, omega arith))
    | inr below ↦
        rw (set, below)
          (inr (
            to_millis F request,
            refl,
            not_above (suggested_cpu_limit_millis F limit) (to_millis F request) below,
          ))
  ]
]
