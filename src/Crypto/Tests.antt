-- ===== src/Crypto/Tests.antt =====
-- Base64 of a few bytes.
use cigar.Prelude.{◌≡◌, some, arith}
use cigar.Text.{codes}
use cigar.Crypto.{encode, decode}
use cigar.Crypto.Base64.{decode-encode}

decode-encode_example : decode (encode (codes "key1")) ≡ some (codes "key1")
decode-encode_example =
    decode-encode (codes "key1") (omega arith, (omega arith, (omega arith, (omega arith, tt))))
