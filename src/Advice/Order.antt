-- ===== src/Advice/Order.antt =====
-- render.go: the sections of the rendered advice hold every advice once.
use cigar.Prelude.{
  ℕ, ◌+◌, ◌≡◌, refl, ◌∙◌, Bool, true, false, not, ◌&&◌, List, [], ◌∷◌, map, arith, if◌then◌else◌,
}
use cigar.Text.{Text, text_eq, text_eq_iff, is_empty}
use cigar.Advice.{Advice, listed}
use cigar.Advice.Render.{about, order_from, job_order}

-- No name stands twice.
abbrev pub Distinct : List Text → Type 0
Distinct [] = Unit
Distinct (n ∷ names) = (listed names n ≡ false) × Distinct names

abbrev jobs_of : List Advice → List Text
jobs_of all = map (λ a. a.job) all

-- A name that is in the order: of a job, not seen before, and not the pipeline's empty one.
listed-order_from :
    (seen : List Text) (all : List Advice) (n : Text)
    → listed (order_from seen all) n
      ≡ (listed (jobs_of all) n && (not (is_empty n) && not (listed seen n)))
unfolding order_from
listed-order_from seen [] n = refl
listed-order_from seen (a ∷ all) n = ground (
  arith,
  listed-order_from seen all n,
  listed-order_from (a.job ∷ seen) all n,
  text_eq_iff n a.job,
)

order_from-Distinct : (seen : List Text) (all : List Advice) → Distinct (order_from seen all)
unfolding order_from
order_from-Distinct seen [] = tt
order_from-Distinct seen (a ∷ all) = ground (
  arith,
  order_from-Distinct seen all,
  order_from-Distinct (a.job ∷ seen) all,
  listed-order_from (a.job ∷ seen) all a.job,
  text_eq_iff a.job a.job,
)

-- How many pass a test.
abbrev pub count : (Advice → Bool) → List Advice → ℕ
count p [] = 0
count p (a ∷ all) = if p a then count p all + 1 else count p all

-- How many pass a test in the sections of these jobs.
abbrev pub count_sections : (Advice → Bool) → List Advice → List Text → ℕ
count_sections p all [] = 0
count_sections p all (job ∷ jobs) = count p (about job all) + count_sections p all jobs

count-about :
    (p : Advice → Bool) (job : Text) (all : List Advice)
    → count p (about job all) ≡ count (λ a. text_eq a.job job && p a) all
count-about p job [] = refl
count-about p job (a ∷ all) = ground (arith, count-about p job all)

count-split :
    (p : Advice → Bool) (job : Text) (jobs : List Text) (all : List Advice)
    → listed jobs job ≡ false
    → count (λ a. text_eq a.job job && p a) all + count (λ a. listed jobs a.job && p a) all
      ≡ count (λ a. listed (job ∷ jobs) a.job && p a) all
count-split p job jobs [] h = refl
count-split p job jobs (a ∷ all) h =
    ground (arith, count-split p job jobs all h, text_eq_iff a.job job)

count_sections-Distinct :
    (p : Advice → Bool) (jobs : List Text) (all : List Advice)
    → Distinct jobs
    → count_sections p all jobs ≡ count (λ a. listed jobs a.job && p a) all
count_sections-Distinct p [] [] d = refl
count_sections-Distinct p [] (a ∷ all) d = count_sections-Distinct p [] all tt
count_sections-Distinct p (job ∷ jobs) all (new, d) =
    rw (count-about p job all, count_sections-Distinct p jobs all d)
      (count-split p job jobs all new)

count-cong :
    (p q : Advice → Bool) (all : List Advice)
    → ((a : Advice) → listed (jobs_of all) a.job ≡ true → p a ≡ q a)
    → count p all ≡ count q all
count-cong p q [] h = refl
count-cong p q (a ∷ all) h =
    let here : listed (jobs_of (a ∷ all)) a.job ≡ true = ground (arith, text_eq_iff a.job a.job) in
    let rest = count-cong p q all (λ b e. h b (ground (arith, e))) in rw (h a here, rest) refl

in_sections :
    (all : List Advice) (n : Text)
    → listed (jobs_of all) n ≡ true
    → listed ([] ∷ job_order all) n ≡ true
unfolding job_order
in_sections all [] e = ground (arith, text_eq_iff [] [])
in_sections all (c ∷ n) e = rw (listed-order_from [] all (c ∷ n), e) (ground arith)

-- The sections that `Render` writes, the pipeline's and one for each job of `jobOrder`, hold every
-- advice exactly once; no two are about the same job.
pub job_order-Distinct :
    (all : List Advice)
    → Distinct ([] ∷ job_order all)
      × ((p : Advice → Bool) → count_sections p all ([] ∷ job_order all) ≡ count p all)
unfolding job_order
job_order-Distinct all =
    let d : Distinct ([] ∷ order_from [] all) =
      (ground (arith, listed-order_from [] all []), order_from-Distinct [] all) in
    (
      d,
      λ p.
          count_sections-Distinct p ([] ∷ order_from [] all) all d
          ∙ count-cong _ p all (λ a e. rw (in_sections all a.job e) refl),
    )
