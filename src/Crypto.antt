-- ===== src/Crypto.antt =====
-- What the program uses of Go's `crypto/hmac`, `encoding/hex` and `encoding/base64`. The digest
-- itself is a parameter; the two encodings are written out. A byte is a number below 256.
pub mod Base64
mod Tests
use cigar.Prelude.{
  ℕ, ◌+◌, ◌-◌, ◌*◌, ◌/◌, ◌%◌, ◌<◌, ◌≡◌, Bool, ◌||◌, ◌&&◌, Option, none, some, List, [], ◌∷◌, ◌++◌,
  ltb, ◌==◌, not, if◌then◌else◌, ◌>>=◌, length, All, filter,
}
use cigar.Text.{Text, within}

-- `hmac.New(sha256.New, key)` over a message: 32 bytes.
pub record Hmac : Type 0 where
  pub sum : Text → Text → Text
  pub sum_length : (key message : Text) → length (sum key message) ≡ 32
  pub sum_bytes : (key message : Text) → All (λ b. b < 256) (sum key message)

abbrev pub hex_digit : ℕ → ℕ
hex_digit d = if ltb d 10 then b'0' + d else b'a' + (d - 10)

-- `hex.EncodeToString`.
unfoldable pub hex : Text → Text
hex [] = []
hex (b ∷ bs) = hex_digit (b / 16) ∷ hex_digit (b % 16) ∷ hex bs

-- The standard alphabet: the symbol of a 6-bit value.
unfoldable pub symbol : ℕ → ℕ
symbol v =
    if ltb v 26
    then b'A' + v
    else if ltb v 52
    then b'a' + (v - 26)
    else if ltb v 62
    then b'0' + (v - 52)
    else if v == 62
    then b'+'
    else b'/'

unfoldable pub symbol_value : ℕ → Option ℕ
symbol_value c =
    if within b'A' b'Z' c
    then some (c - b'A')
    else if within b'a' b'z' c
    then some (c - b'a' + 26)
    else if within b'0' b'9' c
    then some (c - b'0' + 52)
    else if c == b'+'
    then some 62
    else if c == b'/'
    then some 63
    else none

-- `base64.StdEncoding.EncodeToString`.
unfoldable pub encode : Text → Text
encode [] = []
encode (a ∷ []) = symbol (a / 4) ∷ symbol (a % 4 * 16) ∷ b'=' ∷ b'=' ∷ []
encode (a ∷ b ∷ []) =
    symbol (a / 4) ∷ symbol (a % 4 * 16 + b / 16) ∷ symbol (b % 16 * 4) ∷ b'=' ∷ []
encode (a ∷ b ∷ c ∷ s) =
    symbol (a / 4)
    ∷ symbol (a % 4 * 16 + b / 16)
    ∷ symbol (b % 16 * 4 + c / 64)
    ∷ symbol (c % 64)
    ∷ encode s

abbrev pub cons_bytes : Text → Option Text → Option Text
cons_bytes bs none = none
cons_bytes bs (some rest) = some (bs ++ rest)

abbrev pub at_end : Text → Text → Option Text
at_end [] bs = some bs
at_end (c ∷ s) bs = none

-- One quantum of four symbols, with what stands behind it decoded and as written.
unfoldable pub quantum : (a b c d : ℕ) → Text → Option Text → Option Text
quantum a b c d s rest = do
  x ← symbol_value a
  y ← symbol_value b
  if d == b'='
      then if c == b'='
        then at_end s ((x * 4 + y / 16) ∷ [])
        else (do z ← symbol_value c; at_end s ((x * 4 + y / 16) ∷ (y % 16 * 16 + z / 4) ∷ []))
      else (do
        z ← symbol_value c
        w ← symbol_value d
        cons_bytes ((x * 4 + y / 16) ∷ (y % 16 * 16 + z / 4) ∷ (z % 4 * 64 + w) ∷ []) rest)

unfoldable pub quanta : Text → Option Text
quanta [] = some []
quanta (a ∷ b ∷ c ∷ d ∷ s) = quantum a b c d s (quanta s)
quanta _ = none

-- `base64.StdEncoding.DecodeString`: line ends are skipped.
unfoldable pub decode : Text → Option Text
decode s = quanta (filter (λ c. not (c == b'\r' || c == b'\n')) s)
