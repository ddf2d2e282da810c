-- ===== src/Reporter/Laziness.antt =====
-- advise.go: `Advise` fetches few traces, and its advice is that of all of them.
use cigar.Prelude.{
  ◌≡◌, refl, sym, ap, Bool, false, not, ◌&&◌, List, [], ◌∷◌, ◌++◌, map, filter, All, Bool-cases,
  inl, inr, if◌then◌else◌,
}
use cigar.Prelude.Int.{ℤ}
use cigar.Prelude.Result.{Result, ok, err}
use cigar.Text.{Text}
use cigar.Gitlab.{Job}
use cigar.Advice.{Advice, Engine, Facts, needs_trace, analyze}
use cigar.Advice.Lazy.{Honest, analyze-Lazy}
use cigar.Reporter.{Reporter, did_not_run, facts_of, with_trace, advise_jobs}

module _ {E F : Type 0} (r : Reporter E F) where
  -- The advice with every trace fetched.
  pub eager : Engine F → ℤ → List Job → List Advice
  eager eng project [] = []
  eager eng project (j ∷ jobs) =
      let rest = eager eng project jobs in
      if did_not_run j
      then rest
      else analyze eng (with_trace r (facts_of r project j) (r.gitlab.job_trace project j.id))
        ++ rest

  -- A job that ran and whose facts make a rule ask for the trace.
  abbrev pub wants : Engine F → ℤ → Job → Bool
  wants eng project j = not (did_not_run j) && needs_trace eng (facts_of r project j)

  quiet-Eager :
      (eng : Engine F) (f : Facts F) (t : Result E Text)
      → All (Honest eng.th) eng.rules
      → needs_trace eng f ≡ false
      → analyze eng f ≡ analyze eng (with_trace r f t)
  quiet-Eager eng f (err e) h n = refl
  quiet-Eager eng f (ok t) h n = sym (analyze-Lazy eng f t h n)

  -- With rules that look at the trace only where they ask for it, the advice of `Advise` is the
  -- advice with every trace fetched, while it fetches only those of the jobs that ran and for
  -- which a rule asks.
  pub advise_jobs-Eager :
      (eng : Engine F) (project : ℤ) (jobs : List Job)
      → All (Honest eng.th) eng.rules
      → ((advise_jobs r eng project jobs).1 ≡ eager eng project jobs)
        × ((advise_jobs r eng project jobs).0 ≡ map (λ j. j.id) (filter (wants eng project) jobs))
  unfolding advise_jobs eager
  advise_jobs-Eager eng project [] h = (refl, refl)
  advise_jobs-Eager eng project (j ∷ jobs) h =
      let (a, b) = advise_jobs-Eager eng project jobs h in
      elim (Bool-cases (did_not_run j)) [
        | inl idle ↦ rw (idle, a, b) (refl, refl)
        | inr busy ↦ elim (Bool-cases (needs_trace eng (facts_of r project j))) [
          | inl asks ↦ rw (busy, asks, a, b) (refl, refl)
          | inr quiet ↦
              rw (busy, quiet, a, b)
                (
                  ap (λ o. o ++ eager eng project jobs)
                      (quiet-Eager eng (facts_of r project j) (r.gitlab.job_trace project j.id) h
                        quiet),
                  refl,
                )
        ]
      ]
