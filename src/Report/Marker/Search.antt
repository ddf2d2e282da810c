-- ===== src/Report/Marker/Search.antt =====
-- Where the pattern of the marker matches.
use cigar.Prelude.{
  ◌≡◌, ◌≢◌, true, some, [], ◌∷◌, ◌++◌, arith, Option-cases, All, bind-eq-some, inl, inr, ap, ◌∙◌,
  subst,
}
use cigar.Text.{Text, is_digit, strip_prefix, some_span}
use cigar.Text.Search.{
  strip_prefix-append, strip_prefix_sound, Stops, some_span-append, some_span_sound,
  some_span-ne-nil,
}
use mathlib.Core.Option.{some-injective}
use cigar.Report.Marker.{Groups, is_hex, match_here, find_match}

-- A row of digits that is not empty.
abbrev pub Numeral : Text → Type 0
Numeral ds = (ds ≢ []) × All (λ c. is_digit c ≡ true) ds

same_groups : (x y : Groups) → some x ≡ some y → (x.0 ≡ y.0) × (x.1 ≡ y.1)
same_groups x y h =
    let e = some-injective x y h in (ap (λ (g : Groups). g.0) e, ap (λ (g : Groups). g.1) e)

some_span-Numeral : (s ds rest : Text) → some_span is_digit s ≡ some (ds, rest) → Numeral ds
some_span-Numeral s ds rest h =
    (some_span-ne-nil is_digit s ds rest h, (some_span_sound is_digit s ds rest h).1)

module _ (lead mid sep tail : Text) where
  -- What the pattern of the marker describes.
  abbrev pub written : Text → Text → Text → Text → Text
  written ds es sig rest = lead ++ (ds ++ (mid ++ (es ++ (sep ++ (sig ++ (tail ++ rest))))))

  -- The three literal pieces end the group in front of them.
  pub match_here-written :
      (ds es sig rest : Text)
      → Stops is_digit (mid ++ (es ++ (sep ++ (sig ++ (tail ++ rest)))))
      → Stops is_digit (sep ++ (sig ++ (tail ++ rest)))
      → Stops is_hex (tail ++ rest)
      → Numeral ds
      → Numeral es
      → (sig ≢ []) × All (λ c. is_hex c ≡ true) sig
      → match_here lead mid sep tail (written ds es sig rest) ≡ some (ds, es, sig)
  unfolding match_here
  match_here-written ds es sig rest s1 s2 s3 d e g = rw (
    strip_prefix-append,
    some_span-append is_digit ds _ d.0 d.1 s1,
    strip_prefix-append,
    some_span-append is_digit es _ e.0 e.1 s2,
    strip_prefix-append,
    some_span-append is_hex sig _ g.0 g.1 s3,
    strip_prefix-append,
  )

  match_here_sound :
      (s ds es sig : Text)
      → match_here lead mid sep tail s ≡ some (ds, es, sig)
      → (rest : Text) × (s ≡ written ds es sig rest) × Numeral ds × Numeral es
  unfolding match_here
  match_here_sound s ds es sig h =
      let (a, e1, h1) = bind-eq-some (strip_prefix lead s) _ h in
      let (p, e2, h2) = bind-eq-some (some_span is_digit a) _ h1 in
      let (c, e3, h3) = bind-eq-some (strip_prefix mid p.1) _ h2 in
      let (m, e4, h4) = bind-eq-some (some_span is_digit c) _ h3 in
      let (e, e5, h5) = bind-eq-some (strip_prefix sep m.1) _ h4 in
      let (g, e6, h6) = bind-eq-some (some_span is_hex e) _ h5 in
      let (rest, e7, h7) = bind-eq-some (strip_prefix tail g.1) _ h6 in
      let (same_ds, same_es) = same_groups (p.0, m.0, g.0) (ds, es, sig) h7 in
      (
        rest,
        ground (
          arith,
          strip_prefix_sound lead s a e1,
          some_span_sound is_digit a p.0 p.1 e2,
          strip_prefix_sound mid p.1 c e3,
          some_span_sound is_digit c m.0 m.1 e4,
          strip_prefix_sound sep m.1 e e5,
          some_span_sound is_hex e g.0 g.1 e6,
          strip_prefix_sound tail g.1 rest e7,
        ),
        subst Numeral same_ds (some_span-Numeral a p.0 p.1 e2),
        subst Numeral same_es (some_span-Numeral c m.0 m.1 e4),
      )

  pub find_match-written :
      (s ds es sig : Text)
      → match_here lead mid sep tail s ≡ some (ds, es, sig)
      → find_match lead mid sep tail s ≡ some (ds, es, sig)
  unfolding find_match
  find_match-written [] ds es sig h = h
  find_match-written (c ∷ s) ds es sig h = rw (h, find_match)

  pub find_match_sound :
      (s ds es sig : Text)
      → find_match lead mid sep tail s ≡ some (ds, es, sig)
      → (before : Text) × (rest : Text) × (s ≡ before ++ written ds es sig rest)
        × Numeral ds
        × Numeral es
  unfolding find_match
  find_match_sound [] ds es sig h =
      let (rest, e, d, m) = match_here_sound [] ds es sig h in ([], rest, e, d, m)
  find_match_sound (c ∷ s) ds es sig h =
      elim (Option-cases (match_here lead mid sep tail (c ∷ s))) [
        | inl e ↦
            let (before, rest, f, d, m) = find_match_sound s ds es sig (rw (e, find_match) at h) in
            (c ∷ before, rest, ap (◌∷◌ c) f, d, m)
        | inr (g, e) ↦
            let (rest, f, d, m) =
              match_here_sound (c ∷ s) ds es sig (e ∙ (rw (e, find_match) at h)) in
            ([], rest, f, d, m)
      ]
