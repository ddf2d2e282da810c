-- ===== src/Command/Words.antt =====
-- The pieces of a command line: words under `(?i)`, the white space between them, and names.
use cigar.Prelude.{
  ℕ, ◌≡◌, ◌≢◌, refl, true, false, none, some, [], ◌∷◌, ◌++◌, arith, any, All, Option-cases, inl,
  inr, subst, bind-eq-some, ap, ◌∙◌,
}
use cigar.Text.{Text, re_space, some_span, span}
use cigar.Text.Search.{Stops, some_span-append, some_span_sound}
use cigar.Command.{fold_case, fold_text, match_word, whole_name, gap_name}

-- White space that separates two words.
abbrev pub IsGap : Text → Type 0
IsGap sp = (sp ≢ []) × All (λ c. re_space c ≡ true) sp

abbrev pub NoSpace : Text → Type 0
NoSpace = All λ c. re_space c ≡ false

-- One word: what `\S+` takes.
abbrev pub IsName : Text → Type 0
IsName name = (name ≢ []) × NoSpace name

pub match_word-append : (p w s : Text) → fold_text w ≡ p → match_word p (w ++ s) ≡ some (w, s)
unfolding match_word
match_word-append [] [] s h = refl
match_word-append [] (b ∷ w) s h = cc
match_word-append (a ∷ p) [] s h = cc
match_word-append (a ∷ p) (b ∷ w) s h = ground (arith, match_word-append p w s)

pub match_word_sound :
    (p s m rest : Text) → match_word p s ≡ some (m, rest) → (s ≡ m ++ rest) × (fold_text m ≡ p)
unfolding match_word
match_word_sound [] s m rest h = ground arith
match_word_sound (a ∷ p) [] m rest h = cc
match_word_sound (a ∷ p) (b ∷ s) m rest h = elim (Option-cases (match_word p s)) [
  | inl e ↦ ground arith
  | inr ((m', rest'), e) ↦ ground (arith, match_word_sound p s m' rest' e)
]

-- A word whose first letter is another one does not match.
pub match_word_ne :
    (a : ℕ) (p : Text) (b : ℕ) (s : Text) → fold_case b ≢ a → match_word (a ∷ p) (b ∷ s) ≡ none
unfolding match_word
match_word_ne a p b s h = ground arith

any_space : (s : Text) → NoSpace s → any re_space s ≡ false
any_space [] h = refl
any_space (c ∷ s) h = ground (arith, any_space s)

no_space : (s : Text) → any re_space s ≡ false → NoSpace s
no_space [] h = tt
no_space (c ∷ s) h = ground (arith, no_space s)

pub whole_name-IsName : (name : Text) → IsName name → whole_name name ≡ some name
unfolding whole_name
whole_name-IsName [] h = absurd (h.0 refl)
whole_name-IsName (c ∷ s) h = ground (arith, any_space (c ∷ s))

pub whole_name_sound : (s name : Text) → whole_name s ≡ some name → (s ≡ name) × IsName name
unfolding whole_name
whole_name_sound [] name h = cc
whole_name_sound (c ∷ s) name h = ground (arith, no_space (c ∷ s))

pub Stops-IsName : (name : Text) → NoSpace name → Stops re_space name
Stops-IsName [] h = tt
Stops-IsName (c ∷ s) h = h.0

NoSpace-suffix : (a b : Text) → NoSpace (a ++ b) → NoSpace b
NoSpace-suffix [] b h = h
NoSpace-suffix (c ∷ a) b h = NoSpace-suffix a b h.1

some_span-NoSpace : (s : Text) → NoSpace s → some_span re_space s ≡ none
unfolding span
some_span-NoSpace [] h = refl
some_span-NoSpace (c ∷ s) h = ground arith

-- A name that happens to begin with the word is not the word with something behind it.
pub no_gap_in_name :
    (p name m rest : Text)
    → NoSpace name
    → match_word p name ≡ some (m, rest)
    → gap_name rest ≡ none
unfolding gap_name
no_gap_in_name p name m rest h e =
    let separate = subst NoSpace (match_word_sound p name m rest e).0 h in
    rw (some_span-NoSpace rest (NoSpace-suffix m rest separate))

pub gap-append :
    (sp rest : Text)
    → IsGap sp
    → Stops re_space rest
    → some_span re_space (sp ++ rest) ≡ some (sp, rest)
gap-append sp rest h st = some_span-append re_space sp rest h.0 h.1 st

pub gap_name-written : (sp name : Text) → IsGap sp → IsName name → gap_name (sp ++ name) ≡ some name
unfolding gap_name
gap_name-written sp name hs hn =
    rw (gap-append sp name hs (Stops-IsName name hn.1)) (whole_name-IsName name hn)

pub IsGap-sound :
    (s sp rest : Text) → some_span re_space s ≡ some (sp, rest) → (s ≡ sp ++ rest) × IsGap sp
IsGap-sound s sp rest h =
    let (e, all) = some_span_sound re_space s sp rest h in (e, ((λ empty. ground arith), all))

pub gap_name_sound :
    (s name : Text)
    → gap_name s ≡ some name
    → (sp : Text) × (s ≡ sp ++ name) × IsGap sp × IsName name
unfolding gap_name
gap_name_sound s name h =
    let ((sp, b), e, h') = bind-eq-some (some_span re_space s) (λ x. whole_name x.1) h in
    let (split, gap) = IsGap-sound s sp b e in
    let (same, named) = whole_name_sound b name h' in (sp, split ∙ ap (◌++◌ sp) same, gap, named)
