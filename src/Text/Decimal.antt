-- ===== src/Text/Decimal.antt =====
-- `strconv.ParseInt(s, 10, 64)` and the decimal print of `%d`.
pub mod Number
pub mod Range
pub mod RoundTrip
use cigar.Prelude.{
  ℕ, zero, suc, ◌+◌, ◌-◌, ◌*◌, ◌/◌, ◌%◌, ◌^◌, Bool, true, false, not, ◌||◌, ◌&&◌, Option, none,
  some, [], ◌∷◌, ltb, leb, ◌==◌, if◌then◌else◌,
}
use cigar.Prelude.Int.{ℤ, pos, negsuc, sub_ℕ}
use cigar.Text.{Text, is_digit}

-- The value that `ParseUint` returns, or which of its errors.
pub data Unsigned : Type 0 where
  value : ℕ → Unsigned
  syntax : Unsigned
  range : Unsigned

-- The loop of `ParseUint` behind a value `n`: it stops at the first code point that is no digit, or
-- at the first value over 2^64 - 1.
unfoldable pub scan : Text → ℕ → Unsigned
scan [] n = value n
scan (c ∷ s) n =
    let m = n * 10 + (c - b'0') in
    if not (is_digit c) then syntax else if leb (2 ^ 64) m then range else scan s m

unfoldable pub parse_uint : Text → Unsigned
unfolding scan
parse_uint [] = syntax
parse_uint (c ∷ s) = scan (c ∷ s) 0

-- `ParseInt` returns a value beside its error: the nearest `int64` on a range error, else zero.
pub record ParsedInt : Type 0 where
  pub int : ℤ
  pub valid : Bool

abbrev pub bounded : Bool → Unsigned → ParsedInt
bounded neg syntax = record { int = pos 0; valid = false }
bounded neg range = record {
  int = if neg then negsuc (2 ^ 63 - 1) else pos (2 ^ 63 - 1);
  valid = false;
}
bounded neg (value n) =
    if not neg && leb (2 ^ 63) n
    then record { int = pos (2 ^ 63 - 1); valid = false }
    else if neg && leb (2 ^ 63 + 1) n
    then record { int = negsuc (2 ^ 63 - 1); valid = false }
    else record { int = if neg then sub_ℕ 0 n else pos n; valid = true }

unfoldable pub parse_int : Text → ParsedInt
unfolding parse_uint
parse_int [] = bounded false (parse_uint [])
parse_int (c ∷ s) =
    if c == b'-'
    then bounded true (parse_uint s)
    else if c == b'+'
    then bounded false (parse_uint s)
    else bounded false (parse_uint (c ∷ s))

-- The digits of `n` in front of `out`; the fuel is above `n`.
unfoldable pub digits : ℕ → ℕ → Text → Text
digits zero n out = out
digits (suc f) n out =
    let more = digits f (n / 10) ((b'0' + n % 10) ∷ out) in
    if leb n 9 then (b'0' + n) ∷ out else more

unfoldable pub format_nat : ℕ → Text
unfolding digits
format_nat n = digits (suc n) n []

unfoldable pub format_int : ℤ → Text
unfolding format_nat
format_int (pos n) = format_nat n
format_int (negsuc n) = b'-' ∷ format_nat (suc n)
