-- ===== src/Report/Marker/Signed.antt =====
-- Signing and verifying: what the bot signs it accepts, and what it accepts carries a signature of
-- exactly the identifiers that it returns.
use cigar.Prelude.{
  ℕ, ◌^◌, ◌<◌, ◌≡◌, ◌≢◌, refl, true, some, [], ◌∷◌, ◌++◌, arith, length, All, append_assoc,
  bind-eq-some, ap, ◌∙◌,
}
use cigar.Prelude.Int.{ℤ, pos}
use cigar.Text.{Text, text_eq_iff, is_digit}
use cigar.Text.Decimal.{format_int, parse_int}
use cigar.Text.Decimal.RoundTrip.{format_nat-AreDigits, format_nat-ne-nil, parse_int-format_nat}
use cigar.Report.Marker.{
  is_hex, marker_signature, signed_marker, parse_signed_marker, verify, Groups, lead_text, mid_text,
  sep_text, tail_text, find_match,
}
use cigar.Crypto.{Hmac, hex}
use cigar.Text.Decimal.Number.{capped, parse_int-capped}
use cigar.Report.Marker.Search.{
  Numeral, written, match_here-written, find_match-written, find_match_sound,
}

hex-is_hex : (bs : Text) → All (λ b. b < 256) bs → All (λ c. is_hex c ≡ true) (hex bs)
unfolding hex
hex-is_hex [] h = tt
hex-is_hex (b ∷ bs) (hb, h) = (ground arith, (ground arith, hex-is_hex bs h))

hex-ne-nil : (bs : Text) → length bs ≡ 32 → hex bs ≢ []
unfolding hex
hex-ne-nil [] h = absurd (omega arith)
hex-ne-nil (b ∷ bs) h = cc

regroup :
    (l a m b s g t rest : Text)
    → (l ++ (a ++ (m ++ (b ++ (s ++ (g ++ t)))))) ++ rest
      ≡ l ++ (a ++ (m ++ (b ++ (s ++ (g ++ (t ++ rest))))))
regroup l a m b s g t rest = simp append_assoc

module _ (h : Hmac) where
  signature_groups :
      (p m : ℤ) (key : Text)
      → (marker_signature h p m key ≢ []) × All (λ c. is_hex c ≡ true) (marker_signature h p m key)
  unfolding marker_signature
  signature_groups p m key = (hex-ne-nil _ (h.sum_length key _), hex-is_hex _ (h.sum_bytes key _))

  number_groups :
      (n : ℕ) → (format_int (pos n) ≢ []) × All (λ c. is_digit c ≡ true) (format_int (pos n))
  unfolding format_int
  number_groups n = (format_nat-ne-nil n, format_nat-AreDigits n)

  signed_marker-written :
      (p m : ℤ) (key rest : Text)
      → signed_marker h p m key ++ rest
        ≡ written lead_text mid_text sep_text tail_text
            (format_int p)
            (format_int m)
            (marker_signature h p m key)
            rest
  unfolding signed_marker
  signed_marker-written p m key rest =
      regroup lead_text (format_int p) mid_text (format_int m) sep_text (marker_signature h p m key)
        tail_text rest

  pub verify-signed :
      (p m : ℕ) (key : Text)
      → p < 2 ^ 63
      → m < 2 ^ 63
      → verify h key
          (format_int (pos p), format_int (pos m), marker_signature h (pos p) (pos m) key)
        ≡ some (pos p, pos m)
  unfolding verify format_int
  verify-signed p m key hp hm = ground (
    arith,
    parse_int-format_nat p hp,
    parse_int-format_nat m hm,
    text_eq_iff (marker_signature h (pos p) (pos m) key) (marker_signature h (pos p) (pos m) key),
  )

  find_match-signed :
      (p m : ℕ) (key rest : Text)
      → find_match lead_text mid_text sep_text tail_text
          (signed_marker h (pos p) (pos m) key ++ rest)
        ≡ some (format_int (pos p), format_int (pos m), marker_signature h (pos p) (pos m) key)
  find_match-signed p m key rest = rw (signed_marker-written (pos p) (pos m) key rest) (
      find_match-written lead_text mid_text sep_text tail_text _ _ _ _ (
        match_here-written lead_text mid_text sep_text tail_text (format_int (pos p))
          (format_int (pos m)) (marker_signature h (pos p) (pos m) key) rest refl refl refl
          (number_groups p) (number_groups m) (signature_groups (pos p) (pos m) key)))

  verify_sound :
      (key : Text) (g : Groups) (p m : ℤ)
      → verify h key g ≡ some (p, m)
      → (p ≡ (parse_int g.0).int) × (m ≡ (parse_int g.1).int) × (g.2 ≡ marker_signature h p m key)
  unfolding verify
  verify_sound key (ds, es, sig) p m e =
      ground (arith, text_eq_iff sig (marker_signature h (parse_int ds).int (parse_int es).int key))

  -- A marker that the bot signed is accepted with its identifiers, whatever follows it in the note.
  pub parse_signed_marker-signed :
      (p m : ℕ) (key rest : Text)
      → p < 2 ^ 63
      → m < 2 ^ 63
      → parse_signed_marker h (signed_marker h (pos p) (pos m) key ++ rest) key
        ≡ some (pos p, pos m)
  unfolding parse_signed_marker
  parse_signed_marker-signed p m key rest hp hm =
      rw (find_match-signed p m key rest) (verify-signed p m key hp hm)

  -- An accepted note holds a marker whose signature is the HMAC, under the same key, of exactly the
  -- two identifiers that are returned. Each is written in that marker in decimal digits: it is the
  -- number of these digits, or 2^63 - 1 if the number is over that.
  pub parse_signed_marker_sound :
      (body key : Text) {p m : ℤ}
      → parse_signed_marker h body key ≡ some (p, m)
      → (before : Text) × (ds : Text) × (es : Text) × (rest : Text) × (body
          ≡ before
            ++ written lead_text mid_text sep_text tail_text ds es
                (marker_signature h p m key)
                rest)
        × Numeral ds
        × Numeral es
        × (p ≡ pos (capped ds))
        × (m ≡ pos (capped es))
  unfolding parse_signed_marker
  parse_signed_marker_sound body key {p} {m} e =
      let (g, found, checked) =
        bind-eq-some (find_match lead_text mid_text sep_text tail_text body) (verify h key) e in
      let (before, rest, at, ds, es') =
        find_match_sound lead_text mid_text sep_text tail_text body g.0 g.1 g.2 found in
      let (ep, em, es) = verify_sound key g p m checked in
      let signed =
        ap
          (λ (sig : Text). before ++ written lead_text mid_text sep_text tail_text g.0 g.1 sig rest)
          es in
      (
        before,
        g.0,
        g.1,
        rest,
        at ∙ signed,
        ds,
        es',
        ep ∙ parse_int-capped g.0 ds.0 ds.1,
        em ∙ parse_int-capped g.1 es'.0 es'.1,
      )
