-- ===== src/Text/Decimal/RoundTrip.antt =====
-- What is printed by `%d` is read back by `ParseInt`.
use cigar.Prelude.{
  ℕ, zero, suc, ◌+◌, ◌/◌, ◌%◌, ◌^◌, ◌<◌, ◌≡◌, ◌≢◌, refl, true, false, [], ◌∷◌, arith, All,
}
use cigar.Prelude.Int.{pos}
use cigar.Text.{Text, is_digit}
use cigar.Text.Decimal.{scan, bounded, parse_int, digits, format_nat}

abbrev pub AreDigits : Text → Type 0
AreDigits = All λ c. is_digit c ≡ true

digits-AreDigits : (f n : ℕ) (out : Text) → AreDigits out → AreDigits (digits f n out)
unfolding digits
digits-AreDigits zero n out h = h
digits-AreDigits (suc f) n out h =
    ground (arith, digits-AreDigits f (n / 10) ((b'0' + n % 10) ∷ out))

pub format_nat-AreDigits : (n : ℕ) → AreDigits (format_nat n)
unfolding format_nat
format_nat-AreDigits n = digits-AreDigits (suc n) n [] tt

-- Reading the digits of `n` comes to the value `n` before what follows them.
scan-digits : (f n : ℕ) (out : Text) → n < f → n < 2 ^ 64 → scan (digits f n out) 0 ≡ scan out n
unfolding digits scan
scan-digits zero n out h fits = absurd (omega arith)
scan-digits (suc f) n out h fits = ground (arith, scan-digits f (n / 10) ((b'0' + n % 10) ∷ out))

digits-ne-nil : (f n : ℕ) (out : Text) → out ≢ [] → digits f n out ≢ []
unfolding digits
digits-ne-nil zero n out h = h
digits-ne-nil (suc f) n out h = ground (arith, digits-ne-nil f (n / 10) ((b'0' + n % 10) ∷ out))

pub format_nat-ne-nil : (n : ℕ) → format_nat n ≢ []
unfolding format_nat digits
format_nat-ne-nil n = ground (arith, digits-ne-nil n (n / 10) ((b'0' + n % 10) ∷ []))

pub parse_int-digits : (s : Text) → s ≢ [] → AreDigits s → parse_int s ≡ bounded false (scan s 0)
unfolding parse_int
parse_int-digits [] ne h = absurd (ne refl)
parse_int-digits (c ∷ s) ne h = ground arith

pub parse_int-format_nat :
    (n : ℕ) → n < 2 ^ 63 → parse_int (format_nat n) ≡ record { int = pos n; valid = true }
parse_int-format_nat n h =
    rw (parse_int-digits (format_nat n) (format_nat-ne-nil n) (format_nat-AreDigits n))
      (unfold format_nat scan in ground (arith, scan-digits (suc n) n []))
