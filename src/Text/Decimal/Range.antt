-- ===== src/Text/Decimal/Range.antt =====
-- What `ParseInt` returns is an `int64`, whatever the text.
use cigar.Prelude.{Bool, true, false, [], ◌∷◌, arith}
use cigar.Prelude.Int.{IsInt64}
use cigar.Text.{Text}
use cigar.Text.Decimal.{Unsigned, value, syntax, range, bounded, parse_uint, parse_int}

bounded-IsInt64 : (neg : Bool) (u : Unsigned) → IsInt64 (bounded neg u).int
bounded-IsInt64 true (value n) = ground arith
bounded-IsInt64 false (value n) = ground arith
bounded-IsInt64 true syntax = omega arith
bounded-IsInt64 false syntax = omega arith
bounded-IsInt64 true range = omega arith
bounded-IsInt64 false range = omega arith

pub parse_int-IsInt64 : (s : Text) → IsInt64 (parse_int s).int
unfolding parse_int
parse_int-IsInt64 [] = bounded-IsInt64 false (parse_uint [])
parse_int-IsInt64 (c ∷ s) = ground (
  arith,
  bounded-IsInt64 true (parse_uint s),
  bounded-IsInt64 false (parse_uint s),
  bounded-IsInt64 false (parse_uint (c ∷ s)),
)
