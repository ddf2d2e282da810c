-- ===== src/Chart/Values.antt =====
-- internal/chart/markdown.go: the labels of the axes. The index into "KMGTP" is checked at run time, so
-- a value has a label or the program panics, which is `none`.
use cigar.Prelude.{
  ℕ, zero, suc, ◌+◌, ◌-◌, ◌/◌, ◌%◌, ◌^◌, ◌≤◌, ◌≡◌, refl, Option, none, some, ◌∷◌, ◌++◌, arith, ltb,
  ◌==◌, min, if◌then◌else◌, get_elem?, ◌>>=◌, Bool-cases, inl, inr,
}
use cigar.Prelude.Int.{pos, negsuc, ◌-ℤ◌}
use cigar.Text.{Text, codes}
use cigar.Text.Decimal.{format_nat, format_int}
use cigar.Time.{Duration, second, minute, hour}
use cigar.Float.{Float}
use cigar.Report.Format.{round_second}
use cigar.Chart.{ValueUnit, unit_none, unit_bytes, unit_bytes_per_sec, unit_cores}

-- `d.Round(time.Second)` below zero, as a magnitude.
abbrev round_magnitude : ℕ → ℕ
round_magnitude d =
    let r = d % second in if ltb (r + r) second then d - r else min (d + second - r) (2 ^ 63)

-- `humanDuration` of a rounded duration that is not negative.
unfoldable pub compact : ℕ → Text
compact d =
    if ltb d minute
    then format_nat (d / second) ++ codes "s"
    else if ltb d hour
    then if d % minute / second == 0
      then format_nat (d / minute) ++ codes "m"
      else format_nat (d / minute) ++ codes "m" ++ format_nat (d % minute / second) ++ codes "s"
    else if d % hour / minute == 0
    then format_nat (d / hour) ++ codes "h"
    else format_nat (d / hour) ++ codes "h" ++ format_nat (d % hour / minute) ++ codes "m"

unfoldable pub human_duration : Duration → Text
unfolding compact round_second ◌-ℤ◌
human_duration (pos n) = compact (round_second n)
human_duration (negsuc n) =
    format_int (pos 0 -ℤ pos (round_magnitude (suc n) / second)) ++ codes "s"

module _ (F : Type 0) ⦃fl : Float F⦄ where
  abbrev kilo : F
  kilo = fl.of_uint 1024

  unfoldable pub format_cores : F → Text
  format_cores v =
      if fl.lt (fl.abs v) (fl.of_uint 1)
      then format_int (fl.to_int (fl.round (fl.mul v (fl.of_uint 1000)))) ++ codes "m"
      else fl.format3g v

  -- `for n := …; n >= unit && exp < 4; n /= unit { div *= unit; exp++ }`, with the rounds that are
  -- left to the bound of `exp`.
  unfoldable pub scale_float : ℕ → F → F → ℕ → F × ℕ
  scale_float zero n div exp = (div, exp)
  scale_float (suc left) n div exp =
      let rest = scale_float left (fl.div n kilo) (fl.mul div kilo) (exp + 1) in
      if fl.le kilo n then rest else (div, exp)

  abbrev scaled : F → F × ℕ → Option Text
  scaled v (div, exp) = do
    letter ← get_elem? (codes "KMGTP") exp
    some (fl.format1 (fl.div v div) ++ codes " " ++ letter ∷ codes "iB")

  -- `humanBytesF`.
  unfoldable pub human_bytes_float : F → Option Text
  unfolding scale_float
  human_bytes_float v =
      if fl.lt (fl.abs v) kilo
      then some (fl.format0 v ++ codes " B")
      else scaled v (scale_float 4 (fl.div (fl.abs v) kilo) kilo 0)

  abbrev per_second : Option Text → Option Text
  per_second none = none
  per_second (some s) = some (s ++ codes "/s")

  unfoldable pub format_value : F → ValueUnit → Option Text
  unfolding human_bytes_float format_cores
  format_value v unit_bytes = human_bytes_float v
  format_value v unit_bytes_per_sec = per_second (human_bytes_float v)
  format_value v unit_cores = some (format_cores v)
  format_value v unit_none = some (fl.format3g v)

  scale_float-le : (left : ℕ) (n div : F) (exp : ℕ) → (scale_float left n div exp).1 ≤ exp + left
  unfolding scale_float
  scale_float-le zero n div exp = omega arith
  scale_float-le (suc left) n div exp =
      ground (arith, scale_float-le left (fl.div n kilo) (fl.mul div kilo) (exp + 1))

  scaled-total : (v div : F) (exp : ℕ) → exp ≤ 4 → (s : Text) × (scaled v (div, exp) ≡ some s)
  scaled-total v div zero h = (_, refl)
  scaled-total v div (suc zero) h = (_, refl)
  scaled-total v div (suc (suc zero)) h = (_, refl)
  scaled-total v div (suc (suc (suc zero))) h = (_, refl)
  scaled-total v div (suc (suc (suc (suc zero)))) h = (_, refl)
  scaled-total v div (suc (suc (suc (suc (suc e))))) h = absurd (omega arith)

  human_bytes_float-total : (v : F) → (s : Text) × (human_bytes_float v ≡ some s)
  unfolding human_bytes_float
  human_bytes_float-total v = elim (Bool-cases (fl.lt (fl.abs v) kilo)) [
    | inl small ↦ (fl.format0 v ++ codes " B", rw (small) refl)
    | inr large ↦
        let p : F × ℕ = scale_float 4 (fl.div (fl.abs v) kilo) kilo 0 in
        let (s, e) = scaled-total v p.0 p.1 (scale_float-le 4 (fl.div (fl.abs v) kilo) kilo 0) in
        (s, rw (large) e)
  ]

  -- Every value has a label: the letter exists whatever the float operations give.
  pub format_value-total : (v : F) (u : ValueUnit) → (s : Text) × (format_value v u ≡ some s)
  unfolding format_value
  format_value-total v unit_bytes = human_bytes_float-total v
  format_value-total v unit_bytes_per_sec =
      let (s, e) = human_bytes_float-total v in (s ++ codes "/s", rw (e) refl)
  format_value-total v unit_cores = (_, refl)
  format_value-total v unit_none = (_, refl)
