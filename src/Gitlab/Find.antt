-- ===== src/Gitlab/Find.antt =====
-- internal/gitlab/find.go.
use cigar.Prelude.{
  ◌≡◌, ◌≢◌, ◌↔◌, refl, Bool, true, false, Option, none, some, List, [], ◌∷◌, arith, if◌then◌else◌,
  find, inl, inr, ◌⊎◌, All,
}
use cigar.Prelude.Int.{ℤ, eqb_ℤ}
use cigar.Text.{Text, text_eq, is_empty}
use cigar.Text.Decimal.{parse_int}
use cigar.Gitlab.{Job}

abbrev pub has_id : ℤ → Job → Bool
has_id id j = eqb_ℤ j.id id

abbrev pub has_name : Text → Job → Bool
has_name sel j = text_eq j.name sel

abbrev pub or_else : Option Job → Option Job → Option Job
or_else (some j) _ = some j
or_else none r = r

-- `FindJob`: by the number that the selector spells, if it spells one, then by the exact name.
unfoldable pub find_job : List Job → Text → Option Job
find_job jobs sel =
    if is_empty sel
    then none
    else or_else (if (parse_int sel).valid then find (has_id (parse_int sel).int) jobs else none)
        (find (has_name sel) jobs)

-- `j` is the first job of the list that passes.
abbrev pub First : (Job → Bool) → Job → List Job → Type 0
First p j [] = ⊥
First p j (i ∷ jobs) = ((p i ≡ true) × (i ≡ j)) ⊎ ((p i ≡ false) × First p j jobs)

abbrev pub NoneOf : (Job → Bool) → List Job → Type 0
NoneOf p = All λ j. p j ≡ false

find-eq-some_iff :
    (p : Job → Bool) (jobs : List Job) (j : Job) → (find p jobs ≡ some j) ↔ First p j jobs
find-eq-some_iff p [] j = ground arith
find-eq-some_iff p (i ∷ jobs) j = ground (arith, find-eq-some_iff p jobs j)

find-eq-none_iff : (p : Job → Bool) (jobs : List Job) → (find p jobs ≡ none) ↔ NoneOf p jobs
find-eq-none_iff p [] = ground arith
find-eq-none_iff p (i ∷ jobs) = ground (arith, find-eq-none_iff p jobs)

-- What a selector stands for: the first job with the number that it spells, or, if it spells none
-- or no job has it, the first job of that name.
abbrev pub Selects : List Job → Text → Job → Type 0
Selects jobs sel j =
    let n = parse_int sel in
    (sel ≢ [])
    × (((n.valid ≡ true) × First (has_id n.int) j jobs)
        ⊎ (((n.valid ≡ false) ⊎ NoneOf (has_id n.int) jobs) × First (has_name sel) j jobs))

true_ne_false : true ≢ false
true_ne_false e = cc

or_else_iff :
    (j : Job) (o r : Option Job) {A N B : Type 0}
    → (o ≡ some j) ↔ A
    → (o ≡ none) ↔ N
    → (r ≡ some j) ↔ B
    → (or_else o r ≡ some j) ↔ (A ⊎ N × B)
or_else_iff j none r a n b =
    (λ h. inr (n.0 refl, b.0 h), λ h. elim h [ inl x ↦ cc (a.1 x) | inr x ↦ b.1 x.1 ])
or_else_iff j (some i) r a n b =
    (λ h. inl (a.0 h), λ h. elim h [ inl x ↦ a.1 x | inr x ↦ cc (n.1 x.0) ])

chosen_iff :
    (jobs : List Job) (sel : Text) (j : Job) (valid : Bool) (id : ℤ)
    → (or_else (if valid then find (has_id id) jobs else none) (find (has_name sel) jobs) ≡ some j)
      ↔ (((valid ≡ true) × First (has_id id) j jobs)
          ⊎ (((valid ≡ false) ⊎ NoneOf (has_id id) jobs) × First (has_name sel) j jobs))
chosen_iff jobs sel j false id = ground (arith, find-eq-some_iff (has_name sel) jobs j)
chosen_iff jobs sel j true id =
    let (to, from) =
      or_else_iff j (find (has_id id) jobs) (find (has_name sel) jobs)
        (find-eq-some_iff (has_id id) jobs j) (find-eq-none_iff (has_id id) jobs)
        (find-eq-some_iff (has_name sel) jobs j) in
    (
      λ h. elim (to h) [ inl a ↦ inl (refl, a) | inr b ↦ inr (inr b.0, b.1) ],
      λ h. elim h [
        | inl a ↦ from (inl a.1)
        | inr b ↦ elim b.0 [ inl bad ↦ absurd (true_ne_false bad) | inr n ↦ from (inr (n, b.1)) ]
      ],
    )

-- `FindJob` returns a job exactly when the selector stands for it.
find_job_iff :
    (jobs : List Job) (sel : Text) (j : Job) → (find_job jobs sel ≡ some j) ↔ Selects jobs sel j
unfolding find_job
find_job_iff jobs [] j = ground arith
find_job_iff jobs (c ∷ s) j =
    let n = parse_int (c ∷ s) in
    let (to, from) = chosen_iff jobs (c ∷ s) j n.valid n.int in
    (λ h. ((λ e. cc), to h), λ h. from h.1)
