-- ===== src/Text/Search.antt =====
-- Prefixes, substrings and spans: what a text still shows when something stands around it.
use cigar.Prelude.{ℕ, ◌≡◌, ◌≢◌, refl, Bool, true, false, some, [], ◌∷◌, ◌++◌, arith, All}
use cigar.Text.{Text, starts_with, strip_prefix, contains, span, some_span}

pub starts_with-append : (p s : Text) → starts_with p (p ++ s) ≡ true
unfolding starts_with
starts_with-append [] s = refl
starts_with-append (a ∷ p) s = ground (arith, starts_with-append p s)

pub strip_prefix-append : (p s : Text) → strip_prefix p (p ++ s) ≡ some s
unfolding strip_prefix
strip_prefix-append [] s = refl
strip_prefix-append (a ∷ p) s = ground (arith, strip_prefix-append p s)

pub strip_prefix_sound : (p s rest : Text) → strip_prefix p s ≡ some rest → s ≡ p ++ rest
unfolding strip_prefix
strip_prefix_sound [] s rest h = ground arith
strip_prefix_sound (a ∷ p) [] rest h = ground arith
strip_prefix_sound (a ∷ p) (b ∷ s) rest h = ground (arith, strip_prefix_sound p s rest)

pub starts_with-append_right :
    (p s t : Text) → starts_with p s ≡ true → starts_with p (s ++ t) ≡ true
unfolding starts_with
starts_with-append_right [] s t h = refl
starts_with-append_right (a ∷ p) [] t h = ground arith
starts_with-append_right (a ∷ p) (b ∷ s) t h = ground (arith, starts_with-append_right p s t)

contains-of_starts : (p s : Text) → starts_with p s ≡ true → contains s p ≡ true
unfolding contains
contains-of_starts p [] h = h
contains-of_starts p (c ∷ s) h = rw h

pub contains-append_right : (p s t : Text) → contains s p ≡ true → contains (s ++ t) p ≡ true
unfolding contains
contains-append_right p [] t h = contains-of_starts p t (starts_with-append_right p [] t h)
contains-append_right p (c ∷ s) t h =
    ground (arith, starts_with-append_right p (c ∷ s) t, contains-append_right p s t)

pub contains-append_left : (p s t : Text) → contains s p ≡ true → contains (t ++ s) p ≡ true
unfolding contains
contains-append_left p s [] h = h
contains-append_left p s (c ∷ t) h = ground (arith, contains-append_left p s t)

-- A text that begins with `p` and has anything behind it contains `p`.
pub contains_prefix : (p s : Text) → contains (p ++ s) p ≡ true
contains_prefix p s = contains-of_starts p (p ++ s) (starts_with-append p s)

-- A span stops where the next code point does not pass.
abbrev pub Stops : (ℕ → Bool) → Text → Type 0
Stops p [] = Unit
Stops p (c ∷ s) = p c ≡ false

pub span-append :
    (p : ℕ → Bool) (word rest : Text)
    → All (λ c. p c ≡ true) word
    → Stops p rest
    → span p (word ++ rest) ≡ (word, rest)
unfolding span
span-append p [] [] h st = refl
span-append p [] (c ∷ rest) h st = ground arith
span-append p (c ∷ word) rest (hc, h) st = rw (span-append p word rest h st, hc)

pub span_sound :
    (p : ℕ → Bool) (s : Text)
    → (s ≡ (span p s).0 ++ (span p s).1) × All (λ c. p c ≡ true) (span p s).0 × Stops p (span p s).1
unfolding span
span_sound p [] = (refl, tt, tt)
span_sound p (c ∷ s) = ground (arith, span_sound p s)

pub some_span-append :
    (p : ℕ → Bool) (word rest : Text)
    → word ≢ []
    → All (λ c. p c ≡ true) word
    → Stops p rest
    → some_span p (word ++ rest) ≡ some (word, rest)
some_span-append p [] rest ne h st = absurd (ne refl)
some_span-append p (c ∷ word) rest ne h st = rw (span-append p (c ∷ word) rest h st)

pub some_span_sound :
    (p : ℕ → Bool) (s word rest : Text)
    → some_span p s ≡ some (word, rest)
    → (s ≡ word ++ rest) × All (λ c. p c ≡ true) word
some_span_sound p s word rest h = ground (arith, span_sound p s)

pub some_span-ne-nil :
    (p : ℕ → Bool) (s word rest : Text) → some_span p s ≡ some (word, rest) → word ≢ []
some_span-ne-nil p s word rest h e = ground (arith, h, e)
