-- ===== src/Correlate/Trace.antt =====
-- internal/correlate/trace.go: the pod that a job's trace names. The two regular expressions are
-- matched by hand; a line of 1 MiB or more in UTF-8 stops the scanner with an error.
use cigar.Prelude.{
  ℕ, zero, suc, ◌+◌, ◌^◌, Bool, not, ◌&&◌, ◌||◌, Option, none, some, List, [], ◌∷◌, ltb, leb, ◌==◌,
  if◌then◌else◌, ◌>>=◌, length,
}
use cigar.Prelude.Result.{Result, ok, err}
use cigar.Text.{Text, codes, is_digit, within, re_space, span, some_span, strip_prefix, split_lines}

-- The length of a match of `\x1b\[[0-9;]*[a-zA-Z]` behind its first two code points.
abbrev pub letter_end : ℕ → Text → Option ℕ
letter_end n [] = none
letter_end n (c ∷ s) = if within b'a' b'z' c || within b'A' b'Z' c then some (n + 1) else none

abbrev pub color_length : Text → Option ℕ
color_length s =
    let (params, rest) = span (λ c. is_digit c || c == b';') s in letter_end (length params) rest

abbrev pub escape_length : Text → Option ℕ
escape_length (esc ∷ bracket ∷ s) = if esc == 0x1b && bracket == b'[' then color_length s else none
escape_length _ = none

-- `ansiRE.ReplaceAllString(line, "")`, with the number of code points still to drop.
unfoldable pub strip_colors : ℕ → Text → Text
strip_colors k [] = []
strip_colors (suc k) (c ∷ s) = strip_colors k s
strip_colors zero (c ∷ s) = elim (escape_length (c ∷ s)) [
  | some n ↦ strip_colors (n + 1) s
  | none ↦ c ∷ strip_colors zero s
]

abbrev pub not_space : ℕ → Bool
not_space c = not (re_space c)

-- `Running on (\S+) via ` at the start of a text.
unfoldable pub match_runner : Text → Option Text
match_runner s = do
  a ← strip_prefix (codes "Running on ") s
  (pod, b) ← some_span not_space a
  rest ← strip_prefix (codes " via ") b
  some pod

-- The leftmost match.
unfoldable pub find_runner : Text → Option Text
find_runner [] = none
find_runner (c ∷ s) = elim (match_runner (c ∷ s)) [ some pod ↦ some pod | none ↦ find_runner s ]

abbrev pub utf8_length : ℕ → ℕ
utf8_length c = if ltb c 0x80 then 1 else if ltb c 0x800 then 2 else if ltb c 0x10000 then 3 else 4

abbrev pub byte_length : Text → ℕ
byte_length [] = 0
byte_length (c ∷ s) = utf8_length c + byte_length s

-- `bufio.ScanLines` drops one carriage return at the end of a line.
abbrev pub drop_cr : Text → Text
drop_cr [] = []
drop_cr (c ∷ []) = if c == b'\r' then [] else c ∷ []
drop_cr (c ∷ d ∷ s) = c ∷ drop_cr (d ∷ s)

pub data TraceError (E : Type 0) : Type 0 where
  fetch_failed : E → TraceError E
  line_too_long : TraceError E

abbrev pub first_pod :
    {E : Type 0}
    → Option Text
    → Result (TraceError E) (Option Text)
    → Result (TraceError E) (Option Text)
first_pod (some pod) rest = ok (some pod)
first_pod none rest = rest

-- The loop over the lines. The empty line behind a last line end, which the scanner leaves out, has
-- no match.
unfoldable pub scan_lines : {E : Type 0} → List Text → Result (TraceError E) (Option Text)
scan_lines [] = ok none
scan_lines (l ∷ lines) =
    let rest = scan_lines lines in
    if leb (2 ^ 20) (byte_length l)
    then err line_too_long
    else first_pod (find_runner (strip_colors zero (drop_cr l))) rest

-- `PodForJob`, on what `JobTrace` returned.
unfoldable pub trace_pod : {E : Type 0} → Result E Text → Result (TraceError E) (Option Text)
unfolding scan_lines
trace_pod (err e) = err (fetch_failed e)
trace_pod (ok trace) = scan_lines (split_lines trace)
