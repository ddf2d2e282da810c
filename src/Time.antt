-- ===== src/Time.antt =====
-- What the program uses of Go's `time`: an instant is the number of nanoseconds since the zero time,
-- a duration an `int64` of nanoseconds.
use cigar.Prelude.{ℕ, ◌*◌, ◌-◌, ◌^◌, Bool, leb, ◌==◌, if◌then◌else◌}
use cigar.Prelude.Int.{ℤ, pos, negsuc, sub_ℕ}

abbrev pub Time : Type 0
Time = ℕ

abbrev pub Duration : Type 0
Duration = ℤ

abbrev pub is_zero : Time → Bool
is_zero t = t == 0

abbrev pub second : ℕ
second = 1_000_000_000

abbrev pub minute : ℕ
minute = 60 * second

abbrev pub hour : ℕ
hour = 60 * minute

-- The nearest `int64`.
abbrev pub saturate : ℤ → Duration
saturate (pos n) = if leb (2 ^ 63) n then pos (2 ^ 63 - 1) else pos n
saturate (negsuc n) = if leb (2 ^ 63) n then negsuc (2 ^ 63 - 1) else negsuc n

-- `t.Sub(u)`.
unfoldable pub sub : Time → Time → Duration
sub t u = saturate (sub_ℕ t u)
