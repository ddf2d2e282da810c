-- ===== src/Webhook/Auth/Tests.antt =====
-- Deliveries with a signature and with a secret.
use cigar.Prelude.{◌-◌, ◌^◌, ◌≡◌, refl, inl, inr, true, false, ◌++◌, arith, if◌then◌else◌}
use cigar.Prelude.Int.{pos, negsuc}
use cigar.Text.{codes, text_eq, fields, is_space}
use cigar.Text.Decimal.{parse_int, parse_uint, scan}
use cigar.Crypto.{encode, symbol}
use cigar.Webhook.Auth.{expected_signature, Request, authenticate, is_skewed, signing_token_auth}
use cigar.Webhook.Auth.Fresh.{is_skewed_iff}
use cigar.Webhook.Auth.Sound.{authenticate-IsSigned_iff}
use cigar.Fixtures.{toy_hmac}

abbrev signed_request : Request
unfolding expected_signature
signed_request = record {
  header = λ name.
      if text_eq name (codes "webhook-id")
      then codes "msg_1"
      else if text_eq name (codes "webhook-timestamp")
      then codes "900"
      else codes "v1,old "
        ++ expected_signature toy_hmac (codes "key") (codes "msg_1") (codes "900") (codes "{}");
  body = codes "{}";
}

authenticate-IsSigned_iff_example :
    authenticate toy_hmac (signing_token_auth (codes "key") 300) (pos 1000) signed_request ≡ true
unfolding signed_request expected_signature text_eq encode symbol fields is_space parse_int
    parse_uint scan
authenticate-IsSigned_iff_example =
    (authenticate-IsSigned_iff toy_hmac (codes "key") 300 1000 signed_request (omega arith)
        (omega arith)).1
      ((λ e. cc), (λ e. cc), (λ e. cc), refl, inl (omega arith, omega arith), inr (inl refl))

-- A timestamp 2^63 seconds before the clock is let through.
least_timestamp_passes : is_skewed 300 (pos 1000) (negsuc (2 ^ 63 - 1001)) ≡ false
least_timestamp_passes =
    (is_skewed_iff 300 1000 (negsuc (2 ^ 63 - 1001)) (omega arith) (omega arith)
        (omega arith, omega arith)).1
      (inr (omega arith))

abbrev token_request : Request
token_request = record { header = λ name. codes "s3cret"; body = codes "{}" }
