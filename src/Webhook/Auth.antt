-- ===== src/Webhook/Auth.antt =====
-- internal/webhook/auth.go. A request shows its headers, with the empty text for one that is absent,
-- and its body; the clock is an argument. The comparison in constant time is an equality.
pub mod Fresh
pub mod Sound
mod Tests
use cigar.Prelude.{
  ℕ, ◌≡◌, Bool, true, false, not, ◌&&◌, ◌||◌, Option, none, some, List, [], ◌∷◌, ◌++◌,
  if◌then◌else◌, any,
}
use cigar.Prelude.Int.{ℤ, pos, ltb_ℤ, sub64, neg64}
use cigar.Prelude.Result.{Result, ok, err}
use cigar.Text.{Text, codes, text_eq, is_empty, strip_prefix, fields}
use cigar.Text.Decimal.{parse_int}
use cigar.Crypto.{Hmac, encode, decode}

pub record Request : Type 0 where
  pub header : Text → Text
  pub body : Text

-- `DefaultTimestampTolerance`, in seconds.
abbrev pub default_timestamp_tolerance : ℕ
default_timestamp_tolerance = 300

-- The two implementations of `Authenticator`; the tolerance is in whole seconds.
pub data Authenticator : Type 0 where
  secret_auth : Text → Authenticator
  signing_token_auth : Text → ℕ → Authenticator

pub data TokenError : Type 0 where
  bad_encoding empty_key : TokenError

-- `strings.TrimPrefix`.
unfoldable pub trim_prefix : Text → Text → Text
trim_prefix p s = elim (strip_prefix p s) [ none ↦ s | some rest ↦ rest ]

abbrev pub token_key : ℕ → Option Text → Result TokenError Authenticator
token_key tolerance none = err bad_encoding
token_key tolerance (some []) = err empty_key
token_key tolerance (some (b ∷ key)) = ok (signing_token_auth (b ∷ key) tolerance)

unfoldable pub new_signing_token_auth : Text → ℕ → Result TokenError Authenticator
unfolding trim_prefix
new_signing_token_auth token tolerance =
    token_key tolerance (decode (trim_prefix (codes "whsec_") token))

-- The skew test, on `int64`: `true` if the request is turned away.
unfoldable pub is_skewed : ℕ → ℤ → ℤ → Bool
is_skewed tolerance now ts =
    let skew = sub64 now ts in ltb_ℤ (pos tolerance) skew || ltb_ℤ (pos tolerance) (neg64 skew)

unfoldable pub authenticate_secret : Text → Request → Bool
authenticate_secret secret c =
    if is_empty secret then false else text_eq (c.header (codes "X-Gitlab-Token")) secret

module _ (h : Hmac) where
  -- The signature that an authentic request carries.
  unfoldable pub expected_signature : Text → Text → Text → Text → Text
  expected_signature key id ts body =
      codes "v1," ++ encode (h.sum key (id ++ (codes "." ++ (ts ++ (codes "." ++ body)))))

  unfoldable pub authenticate_signed : Text → ℕ → ℤ → Request → Bool
  authenticate_signed key tolerance now c =
      let id = c.header (codes "webhook-id") in
      let ts_str = c.header (codes "webhook-timestamp") in
      let sig_header = c.header (codes "webhook-signature") in
      let ts = parse_int ts_str in
      let expected = expected_signature key id ts_str c.body in
      if is_empty id || is_empty ts_str || is_empty sig_header
      then false
      else if not ts.valid
      then false
      else if is_skewed tolerance now ts.int
      then false
      else any (λ entry. text_eq entry expected) (fields sig_header)

  unfoldable pub authenticate : Authenticator → ℤ → Request → Bool
  unfolding authenticate_secret authenticate_signed
  authenticate (secret_auth secret) now c = authenticate_secret secret c
  authenticate (signing_token_auth key tolerance) now c = authenticate_signed key tolerance now c

unfoldable pub auth_name : Authenticator → Text
auth_name (secret_auth secret) = codes "secret"
auth_name (signing_token_auth key tolerance) = codes "signing_token"
