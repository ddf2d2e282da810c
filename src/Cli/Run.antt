-- ===== src/Cli/Run.antt =====
-- cmd/bot/run.go and cmd/bot/advise.go: what the two commands print for a pipeline.
use cigar.Prelude.{ℕ, Option, none, some, List, [], ◌∷◌, ◌++◌, map, if◌then◌else◌}
use cigar.Prelude.Int.{ℤ}
use cigar.Prelude.Result.{Result, ok, err}
use cigar.Text.{Text, codes, is_empty}
use cigar.Text.Decimal.{parse_int}
use cigar.Float.{Float}
use cigar.Config.{Config, LoadError}
use cigar.Metrics.{JobUsage, PodSeries, Line, SeriesSource, empty}
use cigar.Chart.{
  Series, ValueUnit, unit_cores, unit_bytes, unit_bytes_per_sec, markdown, Renderers, render_chart,
}
use cigar.Gitlab.{Job}
use cigar.Gitlab.Find.{find_job}
use cigar.Report.{Data}
use cigar.Report.Render.{render}
use cigar.Reporter.{Reporter, ReportError, ran, build, advise}
use cigar.Advice.{Advice, Engine}
use cigar.Advice.Render.{render_advice}
use cigar.Startup.{Outside, StartError, new_reporter, new_advice_engine, advice_of}

-- The errors of the commands, by the step that they come from.
pub data CliError (E : Type 0) : Type 0 where
  invalid_id unknown_rule no_match panicked : Text → CliError E
  load_failed : LoadError → CliError E
  start_failed : StartError E → CliError E
  report_failed : ReportError E → CliError E
  list_failed correlate_failed usage_failed series_failed : E → CliError E
  render_failed : Text → E → CliError E

-- What is printed, and the error that ends the command.
pub record Output (E : Type 0) : Type 0 where
  pub printed : List Text
  pub error : Option (CliError E)

abbrev pub fails : {E : Type 0} → CliError E → Output E
fails e = record { printed = []; error = some e }

abbrev pub prints : {E : Type 0} → List Text → Output E → Output E
prints texts o = record { printed = texts ++ o.printed; error = o.error }

abbrev pub done : {E : Type 0} → Output E
done = record { printed = []; error = none }

-- `fmt.Fprintln`.
abbrev pub println : Text → Text
println s = s ++ codes "\n"

abbrev pub line_to_series : {F : Type 0} → Line F → Series F
line_to_series l = record {
  label = l.label;
  points = map (λ p. record { x = p.t; y = p.v }) l.points;
}

pub record RunChart (F : Type 0) : Type 0 where
  pub title : Text
  pub unit : ValueUnit
  pub lines : List (Series F)

abbrev pub run_charts : {F : Type 0} → PodSeries F → List (RunChart F)
run_charts s =
    record { title = codes "CPU (cores)"; unit = unit_cores; lines = line_to_series s.cpu ∷ [] }
    ∷ record {
      title = codes "Memory (bytes)";
      unit = unit_bytes;
      lines = line_to_series s.memory ∷ [];
    }
    ∷ record {
      title = codes "Network TX (bytes/s)";
      unit = unit_bytes_per_sec;
      lines = line_to_series s.net_tx ∷ [];
    }
    ∷ []

module _ {E F : Type 0} ⦃fl : Float F⦄ (r : Renderers E F) (rep : Reporter E F)
    (series : Option (SeriesSource E F)) (warn : F) where
  abbrev pub chart_result : RunChart F → Result E (List ℕ) → Output E → Output E
  chart_result c (err e) rest = fails (render_failed c.title e)
  chart_result c (ok md) rest = prints (md ∷ codes "\n" ∷ []) rest

  -- The loop over the charts.
  unfoldable pub print_charts : List (RunChart F) → Output E
  print_charts [] = done
  print_charts (c ∷ cs) =
      chart_result c (render_chart r markdown c.title c.unit c.lines) (print_charts cs)

  abbrev pub series_result : Result E (PodSeries F) → Output E
  series_result (err e) = fails (series_failed e)
  series_result (ok s) = if empty s then done else print_charts (run_charts s)

  -- The charts of a pod, where the source of metrics has series.
  abbrev pub pod_charts : Job → Option Text → Option (SeriesSource E F) → Output E
  pod_charts j none ss = done
  pod_charts j (some pod) none = done
  pod_charts j (some pod) (some ss) =
      if is_empty pod then done else series_result (ss.pod_series pod j.started_at j.finished_at)

  -- The pod of a job that ran, with its usage.
  abbrev pub usage_of_pod :
      Job
      → Text
      → Result E (Option (JobUsage F))
      → Result (CliError E) (Option Text × Option (JobUsage F))
  usage_of_pod j pod (err e) = err (usage_failed e)
  usage_of_pod j pod (ok usage) = ok (some pod, usage)

  abbrev pub usage_of :
      Job → Result E (Option Text) → Result (CliError E) (Option Text × Option (JobUsage F))
  usage_of j (err e) = err (correlate_failed e)
  usage_of j (ok none) = ok (none, none)
  usage_of j (ok (some pod)) =
      usage_of_pod j pod (rep.metrics.pod_usage pod j.started_at j.finished_at)

  unfoldable pub measure : ℤ → Job → Result (CliError E) (Option Text × Option (JobUsage F))
  measure project_id j =
      if ran j
      then usage_of j (rep.resolver.pod_for_job project_id j.id j.started_at j.finished_at)
      else ok (none, none)

  -- A report of the one job.
  abbrev pub job_data : ℤ → Job → Option (JobUsage F) → Data F
  job_data pipeline_id j usage = record {
    pipeline_id = pipeline_id;
    status = codes "job: " ++ j.name;
    jobs =
        record { stage = j.stage; name = j.name; usage = usage; started_at = 0; finished_at = 0 }
        ∷ [];
    throttle_warn_ratio = warn;
    ran_jobs = 1;
    note_marker = [];
  }

  abbrev pub print_body : Option Text → Output E → Output E
  print_body none rest = fails (panicked (codes "render"))
  print_body (some body) rest = prints (println body ∷ []) rest

  abbrev pub print_measured :
      ℤ → Job → Result (CliError E) (Option Text × Option (JobUsage F)) → Output E
  print_measured pipeline_id j (err e) = fails e
  print_measured pipeline_id j (ok (pod, usage)) =
      print_body (render F (job_data pipeline_id j usage)) (pod_charts j pod series)

  abbrev pub print_job : ℤ → ℤ → Text → Option Job → Output E
  print_job project_id pipeline_id sel none = fails (no_match sel)
  print_job project_id pipeline_id sel (some j) =
      print_measured pipeline_id j (measure project_id j)

  abbrev pub print_listed : ℤ → ℤ → Text → Result E (List Job) → Output E
  print_listed project_id pipeline_id sel (err e) = fails (list_failed e)
  print_listed project_id pipeline_id sel (ok jobs) =
      print_job project_id pipeline_id sel (find_job jobs sel)

  -- `printJobDetails`.
  unfoldable pub print_job_details : ℤ → ℤ → Text → Output E
  unfolding measure print_charts
  print_job_details project_id pipeline_id sel =
      print_listed project_id pipeline_id sel (rep.gitlab.pipeline_jobs project_id pipeline_id)

  abbrev pub print_data : Result (ReportError E) (Data F) → Output E
  print_data (err e) = fails (report_failed e)
  print_data (ok d) = print_body (render F d) done

  -- `run` with the pipeline's number and the reporter at hand.
  unfoldable pub run_pipeline : ℤ → ℤ → Text → Output E
  unfolding print_job_details
  run_pipeline project_id pipeline_id job =
      if is_empty job
      then print_data (build rep project_id pipeline_id)
      else print_job_details project_id pipeline_id job

module _ {E F : Type 0} ⦃fl : Float F⦄ (o : Outside E F) (r : Renderers E F)
    (loaded : Result LoadError (Config F)) (series : Reporter E F → Option (SeriesSource E F)) where
  abbrev pub with_reporter :
      Config F → (Reporter E F → Output E) → Result (StartError E) (Reporter E F) → Output E
  with_reporter cfg k (err e) = fails (start_failed e)
  with_reporter cfg k (ok rep) = k rep

  abbrev pub with_config :
      (Config F → Reporter E F → Output E) → Result LoadError (Config F) → Output E
  with_config k (err e) = fails (load_failed e)
  with_config k (ok cfg) = with_reporter cfg (k cfg) (new_reporter o cfg)

  -- `run <pipeline-id>`.
  unfoldable pub run : (project_id : ℤ) → (job arg : Text) → Output E
  unfolding run_pipeline
  run project_id job arg =
      if (parse_int arg).valid
      then with_config
          (λ cfg rep.
            run_pipeline r rep (series rep) cfg.throttle_warn_ratio project_id (parse_int arg).int
              job)
          loaded
      else fails (invalid_id arg)

  abbrev pub print_advice : ℤ → Result (ReportError E) (List Advice) → Output E
  print_advice pipeline_id (err e) = fails (report_failed e)
  print_advice pipeline_id (ok all) = prints (println (render_advice pipeline_id all) ∷ []) done

  abbrev pub with_engine : Result Text (Engine F) → (Engine F → Output E) → Output E
  with_engine (err n) k = fails (unknown_rule n)
  with_engine (ok eng) k = k eng

  -- `advise <pipeline-id>`.
  unfoldable pub run_advise : (project_id : ℤ) → (job arg : Text) → Output E
  run_advise project_id job arg =
      if (parse_int arg).valid
      then with_config
          (λ cfg rep. with_engine (new_advice_engine o cfg) (λ eng.
            print_advice (parse_int arg).int
              (advice_of o (advise rep project_id (parse_int arg).int job eng))))
          loaded
      else fails (invalid_id arg)
