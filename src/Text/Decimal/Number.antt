-- ===== src/Text/Decimal/Number.antt =====
-- What `ParseInt` returns for a row of digits.
use cigar.Prelude.{ℕ, ◌+◌, ◌-◌, ◌*◌, ◌^◌, ◌≤◌, ◌<◌, ◌≡◌, ◌≢◌, false, [], ◌∷◌, arith, min}
use cigar.Prelude.Int.{pos}
use cigar.Text.{Text}
use cigar.Text.Decimal.{scan, bounded, parse_int}
use cigar.Text.Decimal.RoundTrip.{AreDigits, parse_int-digits}

-- The number that is written behind one with the value `n`, in decimal.
abbrev pub number_from : ℕ → Text → ℕ
number_from n [] = n
number_from n (c ∷ s) = number_from (n * 10 + (c - b'0')) s

-- That number, or the largest `int64`.
abbrev pub capped : Text → ℕ
capped s = min (number_from 0 s) (2 ^ 63 - 1)

le-number_from : (n : ℕ) (s : Text) → n ≤ number_from n s
le-number_from n [] = omega arith
le-number_from n (c ∷ s) = ground (arith, le-number_from (n * 10 + (c - b'0')) s)

scan-number_from :
    (s : Text) (n : ℕ)
    → AreDigits s
    → n < 2 ^ 64
    → (bounded false (scan s n)).int ≡ pos (min (number_from n s) (2 ^ 63 - 1))
unfolding scan
scan-number_from [] n h fits = ground arith
scan-number_from (c ∷ s) n (hc, h) fits =
    ground
      (arith, scan-number_from s (n * 10 + (c - b'0')) h, le-number_from (n * 10 + (c - b'0')) s)

pub parse_int-capped : (s : Text) → s ≢ [] → AreDigits s → (parse_int s).int ≡ pos (capped s)
parse_int-capped s ne h = rw (parse_int-digits s ne h) (scan-number_from s 0 h (omega arith))
