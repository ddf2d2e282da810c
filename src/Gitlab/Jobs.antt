-- ===== src/Gitlab/Jobs.antt =====
-- internal/gitlab/gitlab.go: `PipelineJobs`.
use cigar.Prelude.{
  ℕ, zero, suc, ◌<◌, ◌≡◌, Option, none, some, List, [], ◌++◌, map, map-append, arith, ◌==◌,
  if◌then◌else◌, append_assoc,
}
use cigar.Prelude.Int.{ℤ}
use cigar.Prelude.Result.{Result, ok, err}
use cigar.Text.{Text}
use cigar.Time.{Time}
use cigar.Gitlab.{Job}
use cigar.Gitlab.Paging.{Page, Pages, last, more}

-- A job as the API lists it; the times are pointers.
pub record ApiJob : Type 0 where
  pub id : ℤ
  pub stage : Text
  pub name : Text
  pub started_at : Option Time
  pub finished_at : Option Time

abbrev pub time_or_zero : Option Time → Time
time_or_zero none = 0
time_or_zero (some t) = t

abbrev pub job_of : ApiJob → Job
job_of j = record {
  id = j.id;
  stage = j.stage;
  name = j.name;
  started_at = time_or_zero j.started_at;
  finished_at = time_or_zero j.finished_at;
}

-- Why a loop over pages gives nothing: the API failed, or, in the model alone, the fuel ran out.
pub data ListError (E : Type 0) : Type 0 where
  api_error : E → ListError E
  out_of_fuel : ListError E

module _ {E : Type 0} (fetch : ℕ → Result E (Page ApiJob)) where
  -- The loop of `PipelineJobs`, with the jobs of the pages before.
  pub jobs_from : ℕ → ℕ → List Job → Result (ListError E) (List Job)
  jobs_from zero page jobs = err out_of_fuel
  jobs_from (suc fuel) page jobs = elim (fetch page) [
    | err e ↦ err (api_error e)
    | ok p ↦
        let jobs' = jobs ++ map job_of p.items in
        let rest = jobs_from fuel p.next_page jobs' in if p.next_page == 0 then ok jobs' else rest
  ]

  unfoldable pub pipeline_jobs : ℕ → Result (ListError E) (List Job)
  unfolding jobs_from
  pipeline_jobs fuel = jobs_from fuel 0 []

  jobs_from-Pages :
      (fuel page n : ℕ) (items : List ApiJob) (jobs : List Job)
      → n < fuel
      → Pages fetch page n items
      → jobs_from fuel page jobs ≡ ok (jobs ++ map job_of items)
  unfolding jobs_from
  jobs_from-Pages zero page n items jobs h p = absurd (omega arith)
  jobs_from-Pages (suc fuel) page n items jobs h (last xs e same) = ground arith
  jobs_from-Pages (suc fuel) page n items jobs h (more {n = k} {rest = rest} xs next e ne ps same) =
      ground (
        arith,
        jobs_from-Pages fuel next k rest (jobs ++ map job_of xs),
        map-append job_of xs rest,
        append_assoc jobs (map job_of xs) (map job_of rest),
      )

  -- With fuel for all its pages `PipelineJobs` returns every job that the pages hold, in their
  -- order, with the zero time where a job has not started or finished.
  pub pipeline_jobs-Pages :
      (fuel n : ℕ) (items : List ApiJob)
      → n < fuel
      → Pages fetch 0 n items
      → pipeline_jobs fuel ≡ ok (map job_of items)
  unfolding pipeline_jobs
  pipeline_jobs-Pages fuel n items h p = jobs_from-Pages fuel 0 n items [] h p
