-- ===== src/Float.antt =====
-- The `float64` of Go as an interface: the constants, operations and comparisons that the program
-- uses, with the conversions and the formats of `fmt`. The rules that a theorem needs are a record of
-- their own.
use cigar.Prelude.{ℕ, Bool, Option}
use cigar.Prelude.Int.{ℤ}
use cigar.Text.{Text}

pub record Float (F : Type 0) : Type 0 where
  -- `float64(n)` of an unsigned integer; a whole constant of the source is one, too.
  pub of_uint : ℕ → F
  -- `float64(n)` of an `int64`.
  pub of_int : ℤ → F
  pub half : F
  -- `math.Inf(1)` and `math.Inf(-1)`.
  pub inf : F
  pub neg_inf : F
  pub add : F → F → F
  pub sub : F → F → F
  pub mul : F → F → F
  pub div : F → F → F
  -- `math.Abs`, `math.Min`, `math.Max`, `math.Round`.
  pub abs : F → F
  pub min : F → F → F
  pub max : F → F → F
  pub round : F → F
  pub lt : F → F → Bool
  pub le : F → F → Bool
  pub eq : F → F → Bool
  -- `int64(x)` and `uint64(x)`.
  pub to_int : F → ℤ
  pub to_uint : F → ℕ
  -- `%.0f`, `%.1f` and `%.3g`.
  pub format0 : F → Text
  pub format1 : F → Text
  pub format3g : F → Text
  -- `strconv.ParseFloat`, `none` where it fails.
  pub parse : Text → Option F
