-- ===== src/Report/Format.antt =====
-- report.go: the values of the report's cells.
use cigar.Prelude.{
  ℕ, ◌+◌, ◌-◌, ◌/◌, ◌%◌, ◌^◌, ◌≤◌, ◌<◌, ◌≡◌, ◌&&◌, ◌++◌, Option, some, arith, ltb, ◌==◌,
  if◌then◌else◌, min,
}
use cigar.Text.{Text, codes, warning_sign}
use cigar.Text.Decimal.{format_nat, format_int}
use cigar.Time.{second, minute, hour}
use cigar.Float.{Float}
use cigar.Report.Bytes.{human_bytes}

-- `d.Round(time.Second)` on a count of nanoseconds that is not negative: half a second is rounded
-- up, and a result beyond `int64` is the largest one.
unfoldable pub round_second : ℕ → ℕ
round_second d =
    let r = d % second in if ltb (r + r) second then d - r else min (d + second - r) (2 ^ 63 - 1)

-- `%02d`.
abbrev pub two_digits : ℕ → Text
two_digits n = if ltb n 10 then codes "0" ++ format_nat n else format_nat n

unfoldable pub human_duration : ℕ → Text
unfolding round_second
human_duration ns =
    let d = round_second ns in
    if ltb d minute
    then format_nat (d / second) ++ codes "s"
    else if ltb d hour
    then format_nat (d / minute) ++ codes "m " ++ two_digits (d % minute / second) ++ codes "s"
    else format_nat (d / hour) ++ codes "h " ++ two_digits (d % hour / minute) ++ codes "m"

abbrev pub dash : Text
dash = codes "—"

module _ (F : Type 0) ⦃fl : Float F⦄ where
  unfoldable pub cores : F → Text
  cores c =
      if fl.eq c (fl.of_uint 0)
      then dash
      else format_int (fl.to_int (fl.add (fl.mul c (fl.of_uint 1000)) fl.half)) ++ codes "m"

  unfoldable pub opt_bytes : ℕ → Option Text
  opt_bytes n = if n == 0 then some dash else human_bytes F n

  unfoldable pub throttle : F → F → Text
  throttle ratio warn =
      let pct = fl.format0 (fl.mul ratio (fl.of_uint 100)) ++ codes "%" in
      if fl.lt (fl.of_uint 0) warn && fl.le warn ratio
      then codes "**" ++ pct ++ codes "** " ++ warning_sign
      else pct

  unfoldable pub cpu_time : F → Text
  cpu_time s = fl.format1 s ++ codes " s"

-- The rounded span is a whole number of seconds, at most half a second away from the measured one.
round_second_near :
    (d : ℕ)
    → d + second < 2 ^ 63
    → (round_second d % second ≡ 0)
      × (round_second d + round_second d ≤ d + d + second)
      × (d + d ≤ round_second d + round_second d + second)
unfolding round_second
round_second_near d fits = ground arith
