-- ===== src/Report/Bytes.antt =====
-- report.go: `humanBytes`, a byte count with IEC units. The index into "KMGTPE" is checked at run
-- time, so a count is printed or the program panics, which is `none`.
use cigar.Prelude.{
  ℕ, zero, suc, ◌+◌, ◌*◌, ◌/◌, ◌^◌, ◌≤◌, ◌<◌, ◌≡◌, ◌%◌, refl, Option, none, some, ◌∷◌, ◌++◌, arith,
  ltb, if◌then◌else◌, ◌>>=◌, get_elem?, Bool-cases, inl, inr,
}
use cigar.Text.{Text, codes}
use cigar.Text.Decimal.{format_nat}
use cigar.Float.{Float}

abbrev pub unit : ℕ
unit = 1024

-- `for v := n / unit; v >= unit; v /= unit { div *= unit; exp++ }`, on `uint64`; the fuel bounds the
-- rounds, and `none` is for the model alone.
unfoldable pub scale : ℕ → ℕ → ℕ → ℕ → Option (ℕ × ℕ)
scale zero v div exp = none
scale (suc fuel) v div exp =
    let rest = scale fuel (v / unit) (div * unit % 2 ^ 64) (exp + 1) in
    if ltb v unit then some (div, exp) else rest

-- Six rounds at most: `scale_total`.
abbrev pub scale_fuel : ℕ
scale_fuel = 6

module _ (F : Type 0) ⦃fl : Float F⦄ where
  unfoldable pub human_bytes : ℕ → Option Text
  unfolding scale
  human_bytes n = if ltb n unit then some (format_nat n ++ codes " B") else (do
    (div, exp) ← scale scale_fuel (n / unit) unit 0
    letter ← get_elem? (codes "KMGTPE") exp
    some
        (fl.format1 (fl.div (fl.of_uint n) (fl.of_uint div)) ++ (codes " " ++ letter ∷ codes "iB")))

abbrev Scaled : ℕ → Option (ℕ × ℕ) → Type 0
Scaled n r =
    (div : ℕ) × (exp : ℕ) × (r ≡ some (div, exp))
    × (exp < 6)
    × (div ≡ 1024 ^ (exp + 1))
    × (div ≤ n)
    × (n < div * 1024)

scale-next :
    (n fuel v div exp : ℕ)
    → (v < unit → Scaled n (some (div, exp)))
    → (unit ≤ v → Scaled n (scale fuel (v / unit) (div * unit % 2 ^ 64) (exp + 1)))
    → Scaled n (scale (suc fuel) v div exp)
unfolding scale
scale-next n fuel v div exp stop next = elim (Bool-cases (ltb v unit)) [
  | inl small ↦ rw (small, scale) (stop (ground arith))
  | inr large ↦ rw (large, scale) (next (ground arith))
]

-- For every `uint64` the loop ends within its fuel; the unit is a power of 1024 that no product
-- wraps around, the count is at least one unit and less than 1024, and the letter exists.
pub scale_total :
    (n : ℕ)
    → unit ≤ n
    → n < 2 ^ 64
    → (div : ℕ) × (exp : ℕ) × (scale scale_fuel (n / unit) unit 0 ≡ some (div, exp))
      × (exp < 6)
      × (div ≡ 1024 ^ (exp + 1))
      × (div ≤ n)
      × (n < div * 1024)
unfolding scale
scale_total n h fits =
    scale-next n 5 (n / unit) unit 0
      (λ s. (unit ^ 1, 0, refl, omega arith, refl, omega arith, omega arith))
      (λ h1.
        scale-next n 4 ((n / unit) / unit) (unit ^ 2) 1
          (λ s. (unit ^ 2, 1, refl, omega arith, refl, omega arith, omega arith))
          (λ h2.
            scale-next n 3 (((n / unit) / unit) / unit) (unit ^ 3) 2
              (λ s. (unit ^ 3, 2, refl, omega arith, refl, omega arith, omega arith))
              (λ h3.
                scale-next n 2 ((((n / unit) / unit) / unit) / unit) (unit ^ 4) 3
                  (λ s. (unit ^ 4, 3, refl, omega arith, refl, omega arith, omega arith))
                  (λ h4.
                    scale-next n 1 (((((n / unit) / unit) / unit) / unit) / unit) (unit ^ 5) 4
                      (λ s. (unit ^ 5, 4, refl, omega arith, refl, omega arith, omega arith))
                      (λ h5.
                        scale-next n 0 ((((((n / unit) / unit) / unit) / unit) / unit) / unit)
                          (unit ^ 6) 5
                          (λ s. (unit ^ 6, 5, refl, omega arith, refl, omega arith, omega arith))
                          (λ h6. absurd (omega arith)))))))
