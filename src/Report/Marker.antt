-- ===== src/Report/Marker.antt =====
-- internal/report/marker.go: the signed marker at the top of a report note.
-- HMAC-SHA256 is a parameter; its hexadecimal print, the pattern of the marker and the search for it
-- are modelled.
pub mod Search
pub mod Signed
use cigar.Prelude.{
  ℕ, ◌+◌, ◌-◌, ◌/◌, ◌%◌, ◌<◌, ◌≡◌, Bool, ◌||◌, Option, none, some, List, [], ◌∷◌, ◌++◌, ltb,
  if◌then◌else◌, ◌>>=◌, length, All,
}
use cigar.Prelude.Int.{ℤ}
use cigar.Text.{Text, codes, text_eq, is_empty, within, is_digit, strip_prefix, some_span}
use cigar.Text.Decimal.{parse_int, format_int}
use cigar.Crypto.{Hmac, hex}

abbrev pub marker_prefix : Text
marker_prefix = codes "<!-- ci-resources-bot"

-- `Marker` of report.go.
abbrev pub marker : Text
marker = codes "<!-- ci-resources-bot -->"

abbrev pub is_hex : ℕ → Bool
is_hex c = is_digit c || within b'a' b'f' c

abbrev pub Groups : Type 0
Groups = Text × Text × Text

-- A match of `<lead>(\d+)<mid>(\d+)<sep>([0-9a-f]+)<tail>` at the start of a text.
unfoldable pub match_here : (lead mid sep tail : Text) → Text → Option Groups
match_here lead mid sep tail s = do
  a ← strip_prefix lead s
  (p, b) ← some_span is_digit a
  c ← strip_prefix mid b
  (m, d) ← some_span is_digit c
  e ← strip_prefix sep d
  (sig, f) ← some_span is_hex e
  rest ← strip_prefix tail f
  some (p, m, sig)

-- `FindStringSubmatch`: the leftmost match.
unfoldable pub find_match : (lead mid sep tail : Text) → Text → Option Groups
find_match lead mid sep tail [] = match_here lead mid sep tail []
find_match lead mid sep tail (c ∷ s) = elim (match_here lead mid sep tail (c ∷ s)) [
  | some g ↦ some g
  | none ↦ find_match lead mid sep tail s
]

abbrev pub lead_text : Text
lead_text = codes "<!-- ci-resources-bot p="

abbrev pub mid_text : Text
mid_text = codes " m="

abbrev pub sep_text : Text
sep_text = codes " sig="

abbrev pub tail_text : Text
tail_text = codes " -->"

module _ (h : Hmac) where
  pub marker_signature : ℤ → ℤ → Text → Text
  marker_signature p m key =
      hex (h.sum key (codes "p=" ++ (format_int p ++ (codes ";m=" ++ format_int m))))

  unfoldable pub signed_marker : ℤ → ℤ → Text → Text
  signed_marker p m key =
      lead_text
      ++ (format_int p
          ++ (mid_text ++ (format_int m ++ (sep_text ++ (marker_signature p m key ++ tail_text)))))

  -- The identifiers of a match, if its signature is theirs. An identifier over the range of an
  -- `int64` is read as the largest one, the error being dropped.
  pub verify : Text → Groups → Option (ℤ × ℤ)
  verify key (ds, es, sig) =
      let p = (parse_int ds).int in
      let m = (parse_int es).int in
      if text_eq sig (marker_signature p m key) then some (p, m) else none

  pub parse_signed_marker : Text → Text → Option (ℤ × ℤ)
  parse_signed_marker body key =
      find_match lead_text mid_text sep_text tail_text body >>= verify key
