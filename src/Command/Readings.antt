-- ===== src/Command/Readings.antt =====
-- command.go: what `matchDetails` and `matchAdvise` read is spelled as the grammar has it.
use mathlib.Core.Option.{some-injective}
use cigar.Prelude.{
  ◌≡◌, refl, sym, ap, ◌∙◌, none, some, [], ◌∷◌, ◌++◌, Option-cases, inl, inr, bind-eq-some,
  if◌then◌else◌, append-nil, subst,
}
use cigar.Text.{Text, codes, re_space, some_span, is_empty}
use cigar.Command.{
  TargetType, target_job, target_pod, fold_text, match_word, first_some, gap_name, whole_name,
  match_target, match_plain, match_details, match_job, match_argument, match_advise,
  details_command, advise_command,
}
use cigar.Command.Words.{
  IsGap, IsName, match_word_sound, whole_name_sound, gap_name_sound, IsGap-sound,
}
use cigar.Command.Grammar.{
  Spells, details, details_of, advise_all, advise, advise_job, target_word, resolve_target-word,
  resolve_target-nil,
}

match_either_sound :
    (s t rest : Text)
    → first_some (match_word (codes "job") s) (match_word (codes "pod") s) ≡ some (t, rest)
    → (k : TargetType) × (s ≡ t ++ rest) × (fold_text t ≡ target_word k)
match_either_sound s t rest h = elim (Option-cases (match_word (codes "job") s)) [
  | inl e ↦
      let (split, word) = match_word_sound (codes "pod") s t rest (rw e at h) in
      (target_pod, split, word)
  | inr (m, e) ↦
      let (split, word) = match_word_sound (codes "job") s t rest (e ∙ (rw e at h)) in
      (target_job, split, word)
]

abbrev IsTarget : Text → Text × Text → Type 0
IsTarget s (t, name) =
    (k : TargetType) × (sp : Text) × (s ≡ t ++ (sp ++ name))
    × (fold_text t ≡ target_word k)
    × IsGap sp
    × IsName name

match_target_sound : (s : Text) (m : Text × Text) → match_target s ≡ some m → IsTarget s m
unfolding match_target
match_target_sound s m h =
    let (word, e1, h1) =
      bind-eq-some (first_some (match_word (codes "job") s) (match_word (codes "pod") s)) _ h in
    let (n, e2, h2) = bind-eq-some (gap_name word.1) _ h1 in
    let (k, split, folded) = match_either_sound s word.0 word.1 e1 in
    let (sp, split', gap, named) = gap_name_sound word.1 n e2 in
    let joined = split ∙ ap (λ (x : Text). word.0 ++ x) split' in
    subst (IsTarget s) (some-injective _ _ h2) (k, sp, joined, folded, gap, named)

match_plain_sound : (s : Text) (m : Text × Text) → match_plain s ≡ some m → (m ≡ ([], s)) × IsName s
unfolding match_plain
match_plain_sound s m h =
    let (n, e, h') = bind-eq-some (whole_name s) _ h in
    let (same, named) = whole_name_sound s n e in
    (
      sym (some-injective _ _ h') ∙ ap (λ (x : Text). ([], x)) (sym same),
      subst IsName (sym same) named,
    )

pub match_details_sound :
    (line : Text) (m : Text × Text) → match_details line ≡ some m → Spells line (details_command m)
unfolding match_details
match_details_sound line m h =
    let (word, e1, h1) = bind-eq-some (match_word (codes "details") line) _ h in
    let (gap, e2, h2) = bind-eq-some (some_span re_space word.1) _ h1 in
    let (split, folded) = match_word_sound (codes "details") line word.0 word.1 e1 in
    let (split', gapped) = IsGap-sound word.1 gap.0 gap.1 e2 in
    let joined = split ∙ ap (λ (x : Text). word.0 ++ x) split' in
    elim (Option-cases (match_target gap.1)) [
      | inl e ↦
          let (same, named) = match_plain_sound gap.1 m (rw e at h2) in
          rw same
            (details word.0 gap.0 gap.1 joined folded gapped named (rw (resolve_target-nil gap.1)))
      | inr (m', e) ↦
          let chosen : m' ≡ m = some-injective _ _ (rw e at h2) in
          let (k, sp, split2, folded2, gapped2, named) = match_target_sound gap.1 m' e in
          subst (λ (x : Text × Text). Spells line (details_command x)) chosen
            (details_of word.0 gap.0 m'.0 sp m'.1 k
              (joined ∙ ap (λ (x : Text). word.0 ++ (gap.0 ++ x)) split2) folded gapped folded2
              gapped2 named (rw (resolve_target-word k m'.0 m'.1 folded2)))
    ]

match_job_sound :
    (s name : Text)
    → match_job s ≡ some name
    → (t : Text) × (sp : Text) × (s ≡ t ++ (sp ++ name))
      × (fold_text t ≡ codes "job")
      × IsGap sp
      × IsName name
unfolding match_job
match_job_sound s name h =
    let (word, e1, h1) = bind-eq-some (match_word (codes "job") s) _ h in
    let (split, folded) = match_word_sound (codes "job") s word.0 word.1 e1 in
    let (sp, split', gap, named) = gap_name_sound word.1 name h1 in
    (word.0, sp, split ∙ ap (λ (x : Text). word.0 ++ x) split', folded, gap, named)

-- `advise` with a name behind it.
argument_sound :
    (line w a name : Text)
    → line ≡ w ++ a
    → fold_text w ≡ codes "advise"
    → match_argument a ≡ some name
    → Spells line (advise_command name)
unfolding match_argument
argument_sound line w a name split folded h =
    let (gap, e, h') = bind-eq-some (some_span re_space a) _ h in
    let (split', gapped) = IsGap-sound a gap.0 gap.1 e in
    let joined = split ∙ ap (λ (x : Text). w ++ x) split' in
    elim (Option-cases (match_job gap.1)) [
      | inl e' ↦
          let (same, named) = whole_name_sound gap.1 name (rw e' at h') in
          advise w gap.0 name (joined ∙ ap (λ (x : Text). w ++ (gap.0 ++ x)) same) folded gapped
            named refl
      | inr (n, e') ↦
          let chosen : match_job gap.1 ≡ some name = e' ∙ (rw e' at h') in
          let (t, sp, split2, folded2, gapped2, named) = match_job_sound gap.1 name chosen in
          advise_job w gap.0 t sp name (joined ∙ ap (λ (x : Text). w ++ (gap.0 ++ x)) split2) folded
            gapped folded2 gapped2 named refl
    ]

alone :
    (w a : Text) {name : Text}
    → (if is_empty a then some [] else none) ≡ some name
    → (w ++ a ≡ w) × (name ≡ [])
alone w [] h = (append-nil w, sym (some-injective _ _ h))
alone w (c ∷ a) h = cc

pub match_advise_sound :
    (line name : Text) → match_advise line ≡ some name → Spells line (advise_command name)
unfolding match_advise
match_advise_sound line name h =
    let (word, e, h') = bind-eq-some (match_word (codes "advise") line) _ h in
    let (split, folded) = match_word_sound (codes "advise") line word.0 word.1 e in
    elim (Option-cases (match_argument word.1)) [
      | inl e' ↦
          let (whole, no_name) = alone word.0 word.1 (rw e' at h') in
          advise_all (ap fold_text (split ∙ whole) ∙ folded) (ap advise_command no_name)
      | inr (n, e') ↦ argument_sound line word.0 word.1 name split folded (e' ∙ (rw e' at h'))
    ]
