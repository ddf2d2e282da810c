-- ===== src/Reporter.antt =====
-- internal/reporter: a pipeline's report (reporter.go) and its advice (advise.go). GitLab, the pod
-- resolver and the metrics are the interfaces of the source. What is logged is left out.
pub mod Laziness
pub mod Posting
mod Tests
use cigar.Prelude.{
  ℕ, ◌+◌, Bool, true, false, not, ◌&&◌, ◌||◌, Option, none, some, List, [], ◌∷◌, ◌++◌, map,
  if◌then◌else◌,
}
use cigar.Prelude.Int.{ℤ, pos, eqb_ℤ}
use cigar.Prelude.Result.{Result, ok, err, ◌>>=◌}
use cigar.Text.{Text, is_empty}
use cigar.Time.{Time, is_zero, sub}
use cigar.Crypto.{Hmac}
use cigar.Float.{Float}
use cigar.Metrics.{JobUsage, Source}
use cigar.Correlate.{Resolver}
use cigar.Gitlab.{Job}
use cigar.Gitlab.Client.{Client}
use cigar.Gitlab.Find.{find_job}
use cigar.Report.{Data, JobReport}
use cigar.Report.Marker.{marker_prefix, signed_marker}
use cigar.Report.Render.{render}
use cigar.Advice.{Advice, Engine, Facts, needs_trace, analyze}

pub record Reporter (E F : Type 0) : Type 0 where
  pub gitlab : Client E
  pub resolver : Resolver E
  pub metrics : Source E F
  pub throttle_warn_ratio : F
  pub signing_key : Text

abbrev pub did_not_run : Job → Bool
did_not_run j = is_zero j.started_at || is_zero j.finished_at

abbrev pub ran : Job → Bool
ran j = not (is_zero j.started_at) && not (is_zero j.finished_at)

-- A call of `UpsertNote`.
pub record Post : Type 0 where
  pub project_id : ℤ
  pub mr_iid : ℤ
  pub marker : Text
  pub body : Text

-- The errors, by the step that they come from; `job_not_found` wraps `ErrJobNotFound`.
pub data ReportError (E : Type 0) : Type 0 where
  resolve_failed list_failed upsert_failed : E → ReportError E
  job_not_found : Text → ReportError E
  panicked : ReportError E

-- What `ProcessPipeline` asks to be written, and what it returns.
pub record Outcome (E : Type 0) : Type 0 where
  pub posts : List Post
  pub result : Result (ReportError E) Bool

module _ {E F : Type 0} (r : Reporter E F) where
  abbrev pub measured : Result E (Option (JobUsage F)) → Option (JobUsage F)
  measured (err e) = none
  measured (ok usage) = usage

  abbrev pub pod_usage_of : Job → Result E (Option Text) → Option (JobUsage F)
  pod_usage_of j (err e) = none
  pod_usage_of j (ok none) = none
  pod_usage_of j (ok (some pod)) = measured (r.metrics.pod_usage pod j.started_at j.finished_at)

  unfoldable pub job_usage : ℤ → Job → Option (JobUsage F)
  job_usage project_id j =
      if did_not_run j
      then none
      else pod_usage_of j (r.resolver.pod_for_job project_id j.id j.started_at j.finished_at)

  abbrev pub report_of : ℤ → Job → JobReport F
  report_of project_id j = record {
    stage = j.stage;
    name = j.name;
    usage = job_usage project_id j;
    started_at = j.started_at;
    finished_at = j.finished_at;
  }

abbrev pub count_ran : List Job → ℕ
count_ran [] = 0
count_ran (j ∷ jobs) = if ran j then count_ran jobs + 1 else count_ran jobs

abbrev pub listed_or : {E A : Type 0} → Result E A → Result (ReportError E) A
listed_or (ok a) = ok a
listed_or (err e) = err (list_failed e)

module _ {E F : Type 0} (r : Reporter E F) where
  abbrev pub data_of : ℤ → ℤ → List Job → Data F
  data_of project_id pipeline_id jobs = record {
    pipeline_id = pipeline_id;
    status = [];
    jobs = map (report_of r project_id) jobs;
    throttle_warn_ratio = r.throttle_warn_ratio;
    ran_jobs = count_ran jobs;
    note_marker = [];
  }

  unfoldable pub build : ℤ → ℤ → Result (ReportError E) (Data F)
  build project_id pipeline_id = do
    jobs ← listed_or (r.gitlab.pipeline_jobs project_id pipeline_id)
    ok (data_of project_id pipeline_id jobs)

module _ {E F : Type 0} ⦃fl : Float F⦄ (h : Hmac) (r : Reporter E F) where
  -- `data` with the status and the marker of the note.
  abbrev pub prepared : ℤ → ℤ → Text → Data F → Data F
  prepared pipeline_id mr_iid status d = record {
    pipeline_id = d.pipeline_id;
    status = status;
    jobs = d.jobs;
    throttle_warn_ratio = d.throttle_warn_ratio;
    ran_jobs = d.ran_jobs;
    note_marker =
        if is_empty r.signing_key
        then d.note_marker
        else signed_marker h pipeline_id mr_iid r.signing_key;
  }

  abbrev pub failed : ReportError E → Outcome E
  failed e = record { posts = []; result = err e }

  abbrev pub upserted : Option E → Result (ReportError E) Bool
  upserted none = ok true
  upserted (some e) = err (upsert_failed e)

  abbrev pub post_body : ℤ → ℤ → Option Text → Outcome E
  post_body project_id mr_iid none = failed panicked
  post_body project_id mr_iid (some body) = record {
    posts =
        record { project_id = project_id; mr_iid = mr_iid; marker = marker_prefix; body = body }
        ∷ [];
    result = upserted (r.gitlab.upsert_note project_id mr_iid marker_prefix body);
  }

  abbrev pub post_data : ℤ → ℤ → ℤ → Text → Result (ReportError E) (Data F) → Outcome E
  post_data project_id pipeline_id mr_iid status (err e) = failed e
  post_data project_id pipeline_id mr_iid status (ok d) =
      post_body project_id mr_iid (render F (prepared pipeline_id mr_iid status d))

  unfoldable pub post_report : ℤ → ℤ → ℤ → Text → Outcome E
  unfolding build
  post_report project_id pipeline_id mr_iid status =
      post_data project_id pipeline_id mr_iid status (build r project_id pipeline_id)

  abbrev pub post_resolved : ℤ → ℤ → Text → Result E (Option ℤ) → Outcome E
  post_resolved project_id pipeline_id status (err e) = failed (resolve_failed e)
  post_resolved project_id pipeline_id status (ok none) = record { posts = []; result = ok false }
  post_resolved project_id pipeline_id status (ok (some iid)) =
      post_report project_id pipeline_id iid status

  unfoldable pub process_pipeline : ℤ → ℤ → ℤ → Text → Text → Outcome E
  unfolding post_report
  process_pipeline project_id pipeline_id mr_iid ref status =
      if eqb_ℤ mr_iid (pos 0)
      then post_resolved project_id pipeline_id status
          (r.gitlab.merge_request_for_branch project_id ref)
      else post_report project_id pipeline_id mr_iid status

module _ {E F : Type 0} (r : Reporter E F) where
  abbrev pub facts_of : ℤ → Job → Facts F
  facts_of project_id j = record {
    stage = j.stage;
    name = j.name;
    duration = sub j.finished_at j.started_at;
    usage = job_usage r project_id j;
    trace = [];
  }

  -- `f` with the trace, where it could be read.
  abbrev pub with_trace : Facts F → Result E Text → Facts F
  with_trace f (err e) = f
  with_trace f (ok t) = record {
    stage = f.stage;
    name = f.name;
    duration = f.duration;
    usage = f.usage;
    trace = t;
  }

  abbrev pub job_facts : Engine F → ℤ → Job → Facts F
  job_facts eng project_id j =
      let f = facts_of project_id j in
      if needs_trace eng f then with_trace f (r.gitlab.job_trace project_id j.id) else f

  -- The loop of `Advise`: the jobs whose trace was fetched, and the advice.
  unfoldable pub advise_jobs : Engine F → ℤ → List Job → List ℤ × List Advice
  advise_jobs eng project_id [] = ([], [])
  advise_jobs eng project_id (j ∷ jobs) =
      let (ids, out) = advise_jobs eng project_id jobs in
      if did_not_run j then (ids, out) else (
        if needs_trace eng (facts_of project_id j) then j.id ∷ ids else ids,
        analyze eng (job_facts eng project_id j) ++ out,
      )

  abbrev pub one_job : Text → Option Job → Result (ReportError E) (List Job)
  one_job sel none = err (job_not_found sel)
  one_job sel (some j) = ok (j ∷ [])

  abbrev pub filtered : Text → List Job → Result (ReportError E) (List Job)
  filtered sel jobs = if is_empty sel then ok jobs else one_job sel (find_job jobs sel)

  unfoldable pub advise : ℤ → ℤ → Text → Engine F → Result (ReportError E) (List ℤ × List Advice)
  unfolding advise_jobs
  advise project_id pipeline_id sel eng = do
    all ← listed_or (r.gitlab.pipeline_jobs project_id pipeline_id)
    jobs ← filtered sel all
    ok (advise_jobs eng project_id jobs)
