-- ===== src/Webhook/Auth/Sound.antt =====
-- Which requests are authentic.
use cigar.Prelude.{
  ℕ, ◌^◌, ◌<◌, ◌≡◌, ◌≢◌, ◌↔◌, ◌⊎◌, ◌+◌, refl, Bool, true, false, List, [], ◌∷◌, arith, any, not,
  ◌||◌, if◌then◌else◌,
}
use cigar.Prelude.Int.{ℤ, pos, neg_part}
use cigar.Text.{Text, codes, text_eq, text_eq_iff, is_empty, fields}
use cigar.Text.Decimal.{parse_int}
use cigar.Text.Decimal.Range.{parse_int-IsInt64}
use cigar.Crypto.{Hmac}
use cigar.Webhook.Auth.{Request, authenticate, expected_signature, secret_auth, signing_token_auth}
use cigar.Webhook.Auth.Fresh.{IsFresh, is_skewed_iff}

abbrev pub Has : Text → List Text → Type 0
Has x [] = ⊥
Has x (y ∷ ys) = (y ≡ x) ⊎ Has x ys

any_iff-Has : (x : Text) (ys : List Text) → (any (λ y. text_eq y x) ys ≡ true) ↔ Has x ys
any_iff-Has x [] = ground arith
any_iff-Has x (y ∷ ys) = ground (arith, text_eq_iff y x, any_iff-Has x ys)

is_empty_iff : (s : Text) → (is_empty s ≡ false) ↔ (s ≢ [])
is_empty_iff [] = ground arith
is_empty_iff (c ∷ s) = ground arith

-- What the code accepts as a timestamp.
abbrev pub Passes : ℕ → ℕ → Text → Type 0
Passes tolerance now ts_str =
    let ts = (parse_int ts_str).int in IsFresh tolerance now ts ⊎ (now + neg_part ts ≡ 2 ^ 63)

-- The row of early returns, over any tests and what they stand for.
gates :
    {e1 e2 e3 valid skewed found : Bool} {A B C D E : Type 0}
    → (e1 ≡ false) ↔ A
    → (e2 ≡ false) ↔ B
    → (e3 ≡ false) ↔ C
    → (skewed ≡ false) ↔ D
    → (found ≡ true) ↔ E
    → ((if e1 || e2 || e3
          then false
          else if not valid
          then false
          else if skewed
          then false
          else found)
        ≡ true)
      ↔ (A × B × C × (valid ≡ true) × D × E)
gates {e1 = false} {e2 = false} {e3 = false} {valid = true} {skewed = false} a b c d e =
    (λ h. (a.0 refl, b.0 refl, c.0 refl, refl, d.0 refl, e.0 h), λ h. e.1 h.5)
gates {e1 = true} a b c d e = (λ h. cc, λ h. cc (a.1 h.0))
gates {e1 = false} {e2 = true} a b c d e = (λ h. cc, λ h. cc (b.1 h.1))
gates {e1 = false} {e2 = false} {e3 = true} a b c d e = (λ h. cc, λ h. cc (c.1 h.2))
gates {e1 = false} {e2 = false} {e3 = false} {valid = false} a b c d e = (λ h. cc, λ h. cc h.3)
gates {e1 = false} {e2 = false} {e3 = false} {valid = true} {skewed = true} a b c d e =
    (λ h. cc, λ h. cc (d.1 h.4))

module _ (h : Hmac) where
  abbrev pub IsSigned : Text → ℕ → ℕ → Request → Type 0
  IsSigned key tolerance now c =
      let id = c.header (codes "webhook-id") in
      let ts_str = c.header (codes "webhook-timestamp") in
      let sig_header = c.header (codes "webhook-signature") in
      (id ≢ [])
      × (ts_str ≢ [])
      × (sig_header ≢ [])
      × ((parse_int ts_str).valid ≡ true)
      × Passes tolerance now ts_str
      × Has (expected_signature h key id ts_str c.body) (fields sig_header)

  -- A signed request is accepted exactly when its three headers are there, its timestamp is an
  -- `int64` within the tolerance of the clock (or 2^63 seconds before it, where the difference
  -- wraps around), and one of its signatures is the HMAC of its id, timestamp and body.
  pub authenticate-IsSigned_iff :
      (key : Text) (tolerance now : ℕ) (c : Request)
      → tolerance < 2 ^ 62
      → now < 2 ^ 62
      → (authenticate h (signing_token_auth key tolerance) (pos now) c ≡ true)
        ↔ IsSigned key tolerance now c
  unfolding authenticate
  authenticate-IsSigned_iff key tolerance now c ht hn =
      let id = c.header (codes "webhook-id") in
      let ts_str = c.header (codes "webhook-timestamp") in
      let sig_header = c.header (codes "webhook-signature") in
      gates (is_empty_iff id) (is_empty_iff ts_str) (is_empty_iff sig_header)
        (is_skewed_iff tolerance now (parse_int ts_str).int ht hn (parse_int-IsInt64 ts_str))
        (any_iff-Has (expected_signature h key id ts_str c.body) (fields sig_header))

  -- A request with the shared secret is accepted exactly when the secret is set and the token
  -- header is that secret.
  authenticate_secret_iff :
      (secret : Text) (now : ℤ) (c : Request)
      → (authenticate h (secret_auth secret) now c ≡ true)
        ↔ ((secret ≢ []) × (c.header (codes "X-Gitlab-Token") ≡ secret))
  unfolding authenticate
  authenticate_secret_iff [] now c = ground arith
  authenticate_secret_iff (b ∷ secret) now c =
      ground (arith, text_eq_iff (c.header (codes "X-Gitlab-Token")) (b ∷ secret))
