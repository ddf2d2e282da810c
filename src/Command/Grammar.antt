-- ===== src/Command/Grammar.antt =====
-- What a command line is: `parse_line` decides the relation `Spells`.
use cigar.Prelude.{
  ℕ, ◌≡◌, ◌≢◌, refl, false, none, some, [], ◌∷◌, ◌++◌, arith, Option-cases, inl, inr, append-nil,
}
use cigar.Text.{Text, codes, re_space, some_span, text_eq, to_lower, lower, span}
use cigar.Text.Search.{Stops}
use cigar.Command.{
  Command, Kind, TargetType, target_job, target_pod, fold_case, fold_text, match_word, first_some,
  whole_name, match_help, match_target, match_plain, match_details, match_job, match_argument,
  match_advise, auto_target, resolve_target, advise_command, help_command,
}
use cigar.Command.Words.{
  IsGap, IsName, match_word-append, match_word_ne, no_gap_in_name, gap-append, gap_name-written,
}

abbrev pub target_word : TargetType → Text
target_word target_job = codes "job"
target_word target_pod = codes "pod"

-- A line and the command that it spells, in any mix of capitals.
pub data Spells (line : Text) (c : Command) : Type 0 where
  help : fold_text line ≡ codes "help" → c ≡ help_command → Spells line c
  details :
      (w sp name : Text)
      → line ≡ w ++ (sp ++ name)
      → fold_text w ≡ codes "details"
      → IsGap sp
      → IsName name
      → c ≡ record { kind = Kind.kind_details; target = auto_target name; name = name }
      → Spells line c
  details_of :
      (w sp t sp' name : Text) (k : TargetType)
      → line ≡ w ++ (sp ++ (t ++ (sp' ++ name)))
      → fold_text w ≡ codes "details"
      → IsGap sp
      → fold_text t ≡ target_word k
      → IsGap sp'
      → IsName name
      → c ≡ record { kind = Kind.kind_details; target = k; name = name }
      → Spells line c
  advise_all : fold_text line ≡ codes "advise" → c ≡ advise_command [] → Spells line c
  advise :
      (w sp name : Text)
      → line ≡ w ++ (sp ++ name)
      → fold_text w ≡ codes "advise"
      → IsGap sp
      → IsName name
      → c ≡ advise_command name
      → Spells line c
  advise_job :
      (w sp t sp' name : Text)
      → line ≡ w ++ (sp ++ (t ++ (sp' ++ name)))
      → fold_text w ≡ codes "advise"
      → IsGap sp
      → fold_text t ≡ codes "job"
      → IsGap sp'
      → IsName name
      → c ≡ advise_command name
      → Spells line c

-- The word in front of a target ends the white space before it.
pub Stops-word :
    (k : TargetType) (t rest : Text) → fold_text t ≡ target_word k → Stops re_space (t ++ rest)
unfolding fold_case re_space
Stops-word target_job [] rest h = cc
Stops-word target_pod [] rest h = cc
Stops-word target_job (c ∷ t) rest h = ground arith
Stops-word target_pod (c ∷ t) rest h = ground arith

job_ne_pod :
    (t rest : Text) → fold_text t ≡ codes "pod" → match_word (codes "job") (t ++ rest) ≡ none
job_ne_pod [] rest h = cc
job_ne_pod (c ∷ t) rest h = match_word_ne b'j' (codes "ob") c (t ++ rest) (ground arith)

match_target-word :
    (k : TargetType) (t rest : Text)
    → fold_text t ≡ target_word k
    → first_some (match_word (codes "job") (t ++ rest)) (match_word (codes "pod") (t ++ rest))
      ≡ some (t, rest)
match_target-word target_job t rest h = rw (match_word-append (codes "job") t rest h)
match_target-word target_pod t rest h =
    rw (job_ne_pod t rest h, match_word-append (codes "pod") t rest h)

pub match_target-written :
    (k : TargetType) (t sp name : Text)
    → fold_text t ≡ target_word k
    → IsGap sp
    → IsName name
    → match_target (t ++ (sp ++ name)) ≡ some (t, name)
unfolding match_target
match_target-written k t sp name ht hs hn =
    rw (match_target-word k t (sp ++ name) ht, gap_name-written sp name hs hn)

some_span_nil : some_span re_space [] ≡ none
unfolding span
some_span_nil = refl

pub match_target-name : (name : Text) → IsName name → match_target name ≡ none
unfolding match_target
match_target-name name h = elim (Option-cases (match_word (codes "job") name)) [
  | inl e ↦ elim (Option-cases (match_word (codes "pod") name)) [
    | inl e' ↦ rw (e, e')
    | inr ((t, rest), e') ↦ rw (e, e', no_gap_in_name (codes "pod") name t rest h.1 e')
  ]
  | inr ((t, rest), e) ↦ rw (e, no_gap_in_name (codes "job") name t rest h.1 e)
]

pub match_job-written :
    (t sp name : Text)
    → fold_text t ≡ codes "job"
    → IsGap sp
    → IsName name
    → match_job (t ++ (sp ++ name)) ≡ some name
unfolding match_job
match_job-written t sp name ht hs hn =
    rw (match_word-append (codes "job") t (sp ++ name) ht, gap_name-written sp name hs hn)

pub match_job-name : (name : Text) → IsName name → match_job name ≡ none
unfolding match_job
match_job-name name h = elim (Option-cases (match_word (codes "job") name)) [
  | inl e ↦ rw e
  | inr ((t, rest), e) ↦ rw (e, no_gap_in_name (codes "job") name t rest h.1 e)
]

to_lower-word :
    (k : TargetType) (t : Text) → fold_text t ≡ target_word k → to_lower t ≡ target_word k
unfolding fold_case lower
to_lower-word target_job (a ∷ b ∷ c ∷ []) h = ground arith
to_lower-word target_pod (a ∷ b ∷ c ∷ []) h = ground arith
to_lower-word target_job _ h = cc
to_lower-word target_pod _ h = cc

pub resolve_target-word :
    (k : TargetType) (t name : Text) → fold_text t ≡ target_word k → resolve_target t name ≡ k
unfolding resolve_target text_eq
resolve_target-word target_job t name h = rw (to_lower-word target_job t h)
resolve_target-word target_pod t name h = rw (to_lower-word target_pod t h)

pub resolve_target-nil : (name : Text) → resolve_target [] name ≡ auto_target name
unfolding resolve_target text_eq
resolve_target-nil name = refl

pub not_help :
    (a : ℕ) (p w rest : Text) → fold_text w ≡ a ∷ p → a ≢ b'h' → match_help (w ++ rest) ≡ false
unfolding match_help text_eq
not_help a p [] rest h ne = cc
not_help a p (c ∷ w) rest h ne = ground arith

pub not_details : (p w rest : Text) → fold_text w ≡ b'a' ∷ p → match_details (w ++ rest) ≡ none
unfolding match_details
not_details p [] rest h = cc
not_details p (c ∷ w) rest h = rw (match_word_ne b'd' (codes "etails") c (w ++ rest) (ground arith))

pub match_details-written :
    (w sp b : Text)
    → fold_text w ≡ codes "details"
    → IsGap sp
    → Stops re_space b
    → match_details (w ++ (sp ++ b)) ≡ first_some (match_target b) (match_plain b)
unfolding match_details
match_details-written w sp b hw hs st =
    rw (match_word-append (codes "details") w (sp ++ b) hw, gap-append sp b hs st)

pub match_advise-written :
    (w sp b name : Text)
    → fold_text w ≡ codes "advise"
    → IsGap sp
    → Stops re_space b
    → first_some (match_job b) (whole_name b) ≡ some name
    → match_advise (w ++ (sp ++ b)) ≡ some name
unfolding match_advise match_argument
match_advise-written w sp b name hw hs st h =
    rw (match_word-append (codes "advise") w (sp ++ b) hw, gap-append sp b hs st, h)

pub match_advise_whole : (w : Text) → fold_text w ≡ codes "advise" → match_advise w ≡ some []
unfolding match_advise match_argument
match_advise_whole w hw =
    let whole : match_word (codes "advise") w ≡ some (w, []) =
      rw append-nil at (match_word-append (codes "advise") w [] hw) in
    rw (whole, some_span_nil)
