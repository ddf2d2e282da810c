-- ===== src/Crypto/Base64.antt =====
-- Decoding what was encoded.
use cigar.Prelude.{
  false, ℕ, ◌+◌, ◌*◌, ◌/◌, ◌%◌, ◌<◌, ◌≡◌, refl, true, not, ◌||◌, some, [], ◌∷◌, arith, ◌==◌, All,
  filter,
}
use cigar.Text.{Text}
use cigar.Crypto.{symbol, symbol_value, encode, quantum, quanta, decode}

symbol_value-symbol : (v : ℕ) → v < 64 → symbol_value (symbol v) ≡ some v
unfolding symbol symbol_value
symbol_value-symbol v h = ground arith

symbol_ne : (v : ℕ) → v < 64 → (symbol v == b'=') ≡ false
unfolding symbol
symbol_ne v h = ground arith

abbrev AreSymbols : Text → Type 0
AreSymbols = All λ c. not (c == b'\r' || c == b'\n') ≡ true

filter-AreSymbols : (s : Text) → AreSymbols s → filter (λ c. not (c == b'\r' || c == b'\n')) s ≡ s
filter-AreSymbols [] h = refl
filter-AreSymbols (c ∷ s) h = ground (arith, filter-AreSymbols s)

symbol_is : (v : ℕ) → v < 64 → not (symbol v == b'\r' || symbol v == b'\n') ≡ true
unfolding symbol
symbol_is v h = ground arith

abbrev pub AreBytes : Text → Type 0
AreBytes = All λ b. b < 256

encode-AreSymbols : (bs : Text) → AreBytes bs → AreSymbols (encode bs)
unfolding encode
encode-AreSymbols [] h = tt
encode-AreSymbols (a ∷ []) h =
    (symbol_is (a / 4) (omega arith), (symbol_is (a % 4 * 16) (omega arith), (refl, (refl, tt))))
encode-AreSymbols (a ∷ b ∷ []) h = (
  symbol_is (a / 4) (omega arith),
  (
    symbol_is (a % 4 * 16 + b / 16) (omega arith),
    (symbol_is (b % 16 * 4) (omega arith), (refl, tt)),
  ),
)
encode-AreSymbols (a ∷ b ∷ c ∷ s) h = (
  symbol_is (a / 4) (omega arith),
  (
    symbol_is (a % 4 * 16 + b / 16) (omega arith),
    (
      symbol_is (b % 16 * 4 + c / 64) (omega arith),
      (symbol_is (c % 64) (omega arith), encode-AreSymbols s h.1.1.1),
    ),
  ),
)

quantum_one :
    (x y : ℕ)
    → x < 64
    → y < 64
    → quantum (symbol x) (symbol y) b'=' b'=' [] (some []) ≡ some ((x * 4 + y / 16) ∷ [])
unfolding quantum
quantum_one x y hx hy = rw (symbol_value-symbol x hx, symbol_value-symbol y hy)

quantum_two :
    (x y z : ℕ)
    → x < 64
    → y < 64
    → z < 64
    → quantum (symbol x) (symbol y) (symbol z) b'=' [] (some [])
      ≡ some ((x * 4 + y / 16) ∷ (y % 16 * 16 + z / 4) ∷ [])
unfolding quantum
quantum_two x y z hx hy hz =
    rw
      (symbol_value-symbol x hx, symbol_value-symbol y hy, symbol_ne z hz, symbol_value-symbol z hz)

quantum_three :
    (x y z w : ℕ) (s rest : Text)
    → x < 64
    → y < 64
    → z < 64
    → w < 64
    → quantum (symbol x) (symbol y) (symbol z) (symbol w) s (some rest)
      ≡ some ((x * 4 + y / 16) ∷ (y % 16 * 16 + z / 4) ∷ (z % 4 * 64 + w) ∷ rest)
unfolding quantum
quantum_three x y z w s rest hx hy hz hw = rw (
  symbol_value-symbol x hx,
  symbol_value-symbol y hy,
  symbol_ne w hw,
  symbol_value-symbol z hz,
  symbol_value-symbol w hw,
)

quanta-encode : (bs : Text) → AreBytes bs → quanta (encode bs) ≡ some bs
unfolding encode quanta
quanta-encode [] h = refl
quanta-encode (a ∷ []) h = ground (arith, quantum_one (a / 4) (a % 4 * 16))
quanta-encode (a ∷ b ∷ []) h =
    ground (arith, quantum_two (a / 4) (a % 4 * 16 + b / 16) (b % 16 * 4))
quanta-encode (a ∷ b ∷ c ∷ s) h = rw (quanta-encode s h.1.1.1) (
    ground (
      arith,
      quantum_three (a / 4) (a % 4 * 16 + b / 16) (b % 16 * 4 + c / 64) (c % 64) (encode s) s,
    ))

-- Every row of bytes is read back from its base64 print.
pub decode-encode : (bs : Text) → All (λ b. b < 256) bs → decode (encode bs) ≡ some bs
unfolding decode
decode-encode bs h =
    rw (filter-AreSymbols (encode bs) (encode-AreSymbols bs h)) (quanta-encode bs h)
