-- ===== src/Cli/Printing.antt =====
-- run.go: what `printJobDetails` prints.
use cigar.Prelude.{
  ◌≡◌, ◌≢◌, refl, true, false, ◌⊎◌, inl, inr, Option, none, some, List, ◌∷◌, Bool-cases, arith,
}
use cigar.Prelude.Int.{ℤ}
use cigar.Prelude.Result.{Result, ok, err}
use cigar.Text.{Text, codes}
use cigar.Float.{Float}
use cigar.Metrics.{JobUsage, SeriesSource}
use cigar.Chart.{Renderers}
use cigar.Gitlab.{Job}
use cigar.Gitlab.Find.{find_job}
use cigar.Report.Render.{render}
use cigar.Reporter.{Reporter, ran}
use cigar.Cli.Charts.{Charted, pod_charts-Charted}
use cigar.Cli.Run.{
  CliError, no_match, panicked, list_failed, correlate_failed, usage_failed, Output, fails, println,
  pod_charts, usage_of_pod, usage_of, measure, job_data, print_body, print_measured, print_job,
  print_listed, print_job_details,
}

-- A job with both its times.
abbrev pub Ran : Job → Type 0
Ran j = (j.started_at ≢ 0) × (j.finished_at ≢ 0)

ran-cases : (j : Job) → ((ran j ≡ true) × Ran j) ⊎ ((ran j ≡ false) × ¬ Ran j)
ran-cases j = elim (Bool-cases (ran j)) [
  | inl e ↦ inl (e, (λ z. ground arith, λ z. ground arith))
  | inr e ↦ inr (e, λ (a, b). ground arith)
]

module _ {E F : Type 0} ⦃fl : Float F⦄ (r : Renderers E F) (rep : Reporter E F)
    (series : Option (SeriesSource E F)) (warn : F) (project_id pipeline_id : ℤ) where
  -- The pod of a job and the usage of it, or the error that the search ends with.
  pub data Measured (j : Job)
      : Result (CliError E) (Option Text × Option (JobUsage F)) → Type 0 where
    not_run : ¬ Ran j → Measured j (ok (none, none))
    no_search :
        {e : E}
        → Ran j
        → rep.resolver.pod_for_job project_id j.id j.started_at j.finished_at ≡ err e
        → Measured j (err (correlate_failed e))
    not_found :
        Ran j
        → rep.resolver.pod_for_job project_id j.id j.started_at j.finished_at ≡ ok none
        → Measured j (ok (none, none))
    no_query :
        {pod : Text} {e : E}
        → Ran j
        → rep.resolver.pod_for_job project_id j.id j.started_at j.finished_at ≡ ok (some pod)
        → rep.metrics.pod_usage pod j.started_at j.finished_at ≡ err e
        → Measured j (err (usage_failed e))
    measured :
        {pod : Text} {usage : Option (JobUsage F)}
        → Ran j
        → rep.resolver.pod_for_job project_id j.id j.started_at j.finished_at ≡ ok (some pod)
        → rep.metrics.pod_usage pod j.started_at j.finished_at ≡ ok usage
        → Measured j (ok (some pod, usage))

  usage_of_pod-Measured :
      (j : Job) (pod : Text) (u : Result E (Option (JobUsage F)))
      → Ran j
      → rep.resolver.pod_for_job project_id j.id j.started_at j.finished_at ≡ ok (some pod)
      → rep.metrics.pod_usage pod j.started_at j.finished_at ≡ u
      → Measured j (usage_of_pod r rep series warn j pod u)
  usage_of_pod-Measured j pod (err e) times found asked = no_query times found asked
  usage_of_pod-Measured j pod (ok usage) times found asked = measured times found asked

  usage_of-Measured :
      (j : Job) (p : Result E (Option Text))
      → Ran j
      → rep.resolver.pod_for_job project_id j.id j.started_at j.finished_at ≡ p
      → Measured j (usage_of r rep series warn j p)
  usage_of-Measured j (err e) times found = no_search times found
  usage_of-Measured j (ok none) times found = not_found times found
  usage_of-Measured j (ok (some pod)) times found = usage_of_pod-Measured j pod _ times found refl

  measure-Measured : (j : Job) → Measured j (measure r rep series warn project_id j)
  unfolding measure
  measure-Measured j = elim (ran-cases j) [
    | inl (e, times) ↦ rw e (usage_of-Measured j _ times refl)
    | inr (e, never) ↦ rw e (not_run never)
  ]

  -- What the command does for a selector of a job.
  pub data Shows (sel : Text) : Output E → Type 0 where
    not_listed :
        {e : E}
        → rep.gitlab.pipeline_jobs project_id pipeline_id ≡ err e
        → Shows sel (fails (list_failed e))
    not_matched :
        {jobs : List Job}
        → rep.gitlab.pipeline_jobs project_id pipeline_id ≡ ok jobs
        → find_job jobs sel ≡ none
        → Shows sel (fails (no_match sel))
    not_measured :
        {jobs : List Job} {j : Job} {e : CliError E}
        → rep.gitlab.pipeline_jobs project_id pipeline_id ≡ ok jobs
        → find_job jobs sel ≡ some j
        → Measured j (err e)
        → Shows sel (fails e)
    not_printable :
        {jobs : List Job} {j : Job} {pod : Option Text} {usage : Option (JobUsage F)}
        → rep.gitlab.pipeline_jobs project_id pipeline_id ≡ ok jobs
        → find_job jobs sel ≡ some j
        → Measured j (ok (pod, usage))
        → render F (job_data r rep series warn pipeline_id j usage) ≡ none
        → Shows sel (fails (panicked (codes "render")))
    shown :
        {jobs : List Job} {j : Job} {pod : Option Text} {usage : Option (JobUsage F)} {body : Text}
        {charts : List Text} {error : Option (CliError E)}
        → rep.gitlab.pipeline_jobs project_id pipeline_id ≡ ok jobs
        → find_job jobs sel ≡ some j
        → Measured j (ok (pod, usage))
        → render F (job_data r rep series warn pipeline_id j usage) ≡ some body
        → Charted r rep series warn j pod charts error
        → Shows sel (record { printed = println body ∷ charts; error = error })

  module _ (sel : Text) (jobs : List Job)
      (listed : rep.gitlab.pipeline_jobs project_id pipeline_id ≡ ok jobs) where
    print_body-Shows :
        (j : Job) (pod : Option Text) (usage : Option (JobUsage F)) (body : Option Text)
        → find_job jobs sel ≡ some j
        → Measured j (ok (pod, usage))
        → render F (job_data r rep series warn pipeline_id j usage) ≡ body
        → Shows sel (print_body r rep series warn body (pod_charts r rep series warn j pod series))
    print_body-Shows j pod usage none found m made = not_printable listed found m made
    print_body-Shows j pod usage (some body) found m made =
        shown listed found m made (pod_charts-Charted r rep series warn j pod series refl)

    print_measured-Shows :
        (j : Job) (m : Result (CliError E) (Option Text × Option (JobUsage F)))
        → find_job jobs sel ≡ some j
        → Measured j m
        → Shows sel (print_measured r rep series warn pipeline_id j m)
    print_measured-Shows j (err e) found m = not_measured listed found m
    print_measured-Shows j (ok (pod, usage)) found m = print_body-Shows j pod usage _ found m refl

    print_job-Shows :
        (j : Option Job)
        → find_job jobs sel ≡ j
        → Shows sel (print_job r rep series warn project_id pipeline_id sel j)
    print_job-Shows none found = not_matched listed found
    print_job-Shows (some j) found = print_measured-Shows j _ found (measure-Measured j)

  print_listed-Shows :
      (sel : Text) (l : Result E (List Job))
      → rep.gitlab.pipeline_jobs project_id pipeline_id ≡ l
      → Shows sel (print_listed r rep series warn project_id pipeline_id sel l)
  print_listed-Shows sel (err e) listed = not_listed listed
  print_listed-Shows sel (ok jobs) listed = print_job-Shows sel jobs listed _ refl

  -- The command fails and prints nothing where the jobs cannot be listed, none is the selector's, the
  -- search of its pod or of its usage fails, or its report cannot be printed. Else it prints the
  -- report of the job with the usage of its pod, if it ran and has one, and behind it: nothing where
  -- the pod is unknown or empty, or there is no source of series or no point in them; the error of
  -- that source; or the charts of processor, memory and network in this order, each with a line end,
  -- up to the first that cannot be rendered, whose error ends the command.
  pub print_job_details-Shows :
      (sel : Text) → Shows sel (print_job_details r rep series warn project_id pipeline_id sel)
  unfolding print_job_details
  print_job_details-Shows sel = print_listed-Shows sel _ refl
