-- ===== src/Command/Handler/Targets.antt =====
-- handler.go: `resolveTarget`, the pod of a target and its window.
use cigar.Prelude.{not, Option, none, some, List, [], ◌∷◌, if◌then◌else◌}
use cigar.Prelude.Int.{ℤ}
use cigar.Prelude.Result.{Result, ok, err}
use cigar.Text.{Text, text_eq}
use cigar.Time.{Time}
use cigar.Gitlab.{Job}
use cigar.Reporter.{did_not_run}
use cigar.Command.{Command, target_job, target_pod}
use cigar.Command.Handler.{Handler, HandleError, list_failed, resolve_failed, span_failed}

module _ {E F : Type 0} (h : Handler E F) where
  -- `resolveTarget`: the pod and its window, `none` where the target is not in the report.
  abbrev pub Target : Type 0
  Target = Result (HandleError E) (Option (Text × Time × Time))

  abbrev pod_of : ℤ → Job → Result E (Option Text)
  pod_of project_id j = h.resolver.pod_for_job project_id j.id j.started_at j.finished_at

  abbrev job_window : Job → Result E (Option Text) → Target
  job_window j (err e) = err (resolve_failed e)
  job_window j (ok none) = ok none
  job_window j (ok (some p)) = ok (some (p, j.started_at, j.finished_at))

  unfoldable pub find_job_target : ℤ → Text → List Job → Target
  find_job_target project_id name [] = ok none
  find_job_target project_id name (j ∷ jobs) =
      let rest = find_job_target project_id name jobs in
      if not (text_eq j.name name)
      then rest
      else if did_not_run j
      then ok none
      else job_window j (pod_of project_id j)

  abbrev pod_window : Job → Text → Result E (Option (Time × Time)) → Target
  pod_window j p (err e) = err (span_failed e)
  pod_window j p (ok none) = ok (some (p, j.started_at, j.finished_at))
  pod_window j p (ok (some (s, e))) = ok (some (p, s, e))

  abbrev pod_or_rest : Text → Job → Target → Result E (Option Text) → Target
  pod_or_rest name j rest (err e) = err (resolve_failed e)
  pod_or_rest name j rest (ok none) = rest
  pod_or_rest name j rest (ok (some p)) =
      if text_eq p name then pod_window j p (h.series.pod_active_span p) else rest

  unfoldable pub find_pod_target : ℤ → Text → List Job → Target
  find_pod_target project_id name [] = ok none
  find_pod_target project_id name (j ∷ jobs) =
      let rest = find_pod_target project_id name jobs in
      if did_not_run j then rest else pod_or_rest name j rest (pod_of project_id j)

  abbrev target_among : ℤ → Command → Result E (List Job) → Target
  target_among project_id cmd (err e) = err (list_failed e)
  target_among project_id cmd (ok jobs) = elim cmd.target [
    | target_job ↦ find_job_target project_id cmd.name jobs
    | target_pod ↦ find_pod_target project_id cmd.name jobs
  ]

  unfoldable pub resolve_pod : ℤ → ℤ → Command → Target
  unfolding find_job_target find_pod_target
  resolve_pod project_id pipeline_id cmd =
      target_among project_id cmd (h.gitlab.pipeline_jobs project_id pipeline_id)
