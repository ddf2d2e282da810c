-- ===== src/Startup.antt =====
-- cmd/bot/deps.go and the beginning of `serve` in cmd/bot/serve.go: what is built from the
-- configuration, and what stops the program before it listens. The clients of GitLab and of Prometheus
-- are arguments; the loggers, the queue and the listening servers are left out.
pub mod Loaded
pub mod Serving
pub mod Minimal
mod Tests
use cigar.Prelude.{Bool, true, false, ◌&&◌, Option, none, some, List, [], if◌then◌else◌}
use cigar.Prelude.Int.{ℤ}
use cigar.Prelude.Result.{Result, ok, err, ◌>>=◌}
use cigar.Text.{Text, codes, text_eq, is_empty}
use cigar.Time.{Time, Duration}
use cigar.Float.{Float}
use cigar.Config.{Config}
use cigar.Gitlab.Client.{Client}
use cigar.Correlate.{Resolver}
use cigar.Correlate.Prom as PodProm
use cigar.Correlate.Prom.{prom_pod}
use cigar.Correlate.Trace.{TraceError, trace_pod}
use cigar.Metrics.{Source, SeriesSource}
use cigar.Metrics.Prom as UsageProm
use cigar.Metrics.Prom.{pod_usage}
use cigar.Metrics.Prom.Range.{RangeAnswer, RangeError, pod_series, pod_active_span}
use cigar.Chart.{Format, parse_format}
use cigar.Advice.{Advice, Engine, Thresholds, new_engine}
use cigar.Advice.Registry.{built_in}
use cigar.Reporter.{Reporter, ReportError, advise}
use cigar.Command.Handler.{Handler}
use cigar.Webhook.Auth.{Authenticator}
use cigar.Worker.{ConfigError, build_authenticator}

-- The answers of a Prometheus server.
pub record PromApi (E F : Type 0) : Type 0 where
  pub pods : Text → Time → Result E PodProm.Answer
  pub instant : Text → Time → Result E (UsageProm.Answer F)
  pub range : Text → Time → Time → Duration → Result E (RangeAnswer F)

-- What the program reaches: the constructors of the two clients, `%q` on a pod's name, the clock, and
-- how errors are wrapped.
pub record Outside (E F : Type 0) : Type 0 where
  pub new_gitlab : (url token : Text) → Result E (Client E)
  pub new_prometheus : (url : Text) → Result E (PromApi E F)
  pub quote : Text → Text
  pub now : Time
  pub wrap_trace : TraceError E → E
  pub wrap_pod : PodProm.QueryError E → E
  pub wrap_usage : UsageProm.QueryError E → E
  pub wrap_range : RangeError E → E

pub data StartError (E : Type 0) : Type 0 where
  client_failed prometheus_failed no_bot_user : E → StartError E
  unknown_resolver unknown_format unknown_rule : Text → StartError E
  no_signing_key : StartError E
  bad_auth : ConfigError → StartError E

abbrev pub or_error : {E X A : Type 0} → (X → E) → Result X A → Result E A
or_error wrap (ok a) = ok a
or_error wrap (err x) = err (wrap x)

abbrev pub usage_or_error : {E X A : Type 0} → (X → E) → Result X A → Result E (Option A)
usage_or_error wrap (ok a) = ok (some a)
usage_or_error wrap (err x) = err (wrap x)

-- What the server runs with.
pub record Served (E F : Type 0) : Type 0 where
  pub reporter : Reporter E F
  pub handler : Option (Handler E F)
  pub auth : Authenticator

module _ {E F : Type 0} ⦃fl : Float F⦄ (o : Outside E F) where
  -- `NewTraceResolver` and `NewPromResolver`.
  abbrev pub trace_resolver : Client E → Resolver E
  trace_resolver gl = record {
    pod_for_job = λ project_id job_id started finished.
        or_error o.wrap_trace (trace_pod (gl.job_trace project_id job_id));
  }

  abbrev pub prom_resolver : PromApi E F → Duration → Resolver E
  prom_resolver api scrape = record {
    pod_for_job = λ project_id job_id started finished.
        or_error o.wrap_pod (prom_pod api.pods scrape job_id started finished);
  }

  -- A `PromSource` in its two roles.
  abbrev pub prom_source : PromApi E F → Duration → Source E F
  prom_source api scrape = record {
    pod_usage = λ pod start end.
        usage_or_error o.wrap_usage (pod_usage api.instant o.quote scrape pod start end);
  }

  abbrev pub prom_series : PromApi E F → Duration → SeriesSource E F
  prom_series api scrape = record {
    pod_series =
        λ pod start end. or_error o.wrap_range (pod_series api.range o.quote scrape pod start end);
    pod_active_span =
        λ pod. or_error o.wrap_range (pod_active_span api.range o.quote scrape o.now pod);
  }

  -- The switch on the resolver.
  unfoldable pub choose_resolver : Config F → Client E → Result (StartError E) (Resolver E)
  choose_resolver cfg gl =
      if text_eq cfg.pod_resolver (codes "trace")
      then ok (trace_resolver gl)
      else if text_eq cfg.pod_resolver (codes "prometheus")
      then (do
        api ← or_error prometheus_failed (o.new_prometheus cfg.prometheus_url)
        ok (prom_resolver api cfg.scrape_interval))
      else err (unknown_resolver cfg.pod_resolver)

  unfoldable pub new_reporter : Config F → Result (StartError E) (Reporter E F)
  new_reporter cfg = do
    gl ← or_error client_failed (o.new_gitlab cfg.gitlab_url cfg.gitlab_token)
    resolver ← choose_resolver cfg gl
    api ← or_error prometheus_failed (o.new_prometheus cfg.prometheus_url)
    ok (record {
      gitlab = gl;
      resolver = resolver;
      metrics = prom_source api cfg.scrape_interval;
      throttle_warn_ratio = cfg.throttle_warn_ratio;
      signing_key = cfg.commands_signing_key;
    })

  -- `newAdviceEngine`.
  unfoldable pub new_advice_engine : Config F → Result Text (Engine F)
  new_advice_engine cfg =
      new_engine (built_in F)
        (record {
          throttle_warn_ratio = cfg.throttle_warn_ratio;
          long_job = cfg.long_job_duration;
          memory_pressure_ratio = cfg.memory_pressure_ratio;
        })
        []

  abbrev pub advice_of :
      Result (ReportError E) (List ℤ × List Advice) → Result (ReportError E) (List Advice)
  advice_of (ok (ids, all)) = ok all
  advice_of (err e) = err e

  -- `reporterAdvisor`.
  abbrev pub advisor : Reporter E F → Engine F → ℤ → ℤ → Text → Result (ReportError E) (List Advice)
  advisor rep eng project_id pipeline_id filter =
      advice_of (advise rep project_id pipeline_id filter eng)

  unfoldable pub new_command_handler : Config F → Reporter E F → Result (StartError E) (Handler E F)
  new_command_handler cfg rep = do
    gl ← or_error client_failed (o.new_gitlab cfg.gitlab_url cfg.gitlab_token)
    bot ← or_error no_bot_user gl.current_user
    resolver ← choose_resolver cfg gl
    api ← or_error prometheus_failed (o.new_prometheus cfg.prometheus_url)
    format ← or_error unknown_format (parse_format cfg.chart_format)
    eng ← or_error unknown_rule (new_advice_engine cfg)
    ok (record {
      gitlab = gl;
      resolver = resolver;
      series = prom_series api cfg.scrape_interval;
      advisor = some (advisor rep eng);
      signing_key = cfg.commands_signing_key;
      bot_user_id = bot;
      chart_format = format;
      counts = true;
    })

  -- `serve` as far as it can fail before it listens.
  unfoldable pub handler_if : Config F → Reporter E F → Result (StartError E) (Option (Handler E F))
  handler_if cfg rep =
      if cfg.commands_enabled && is_empty cfg.commands_signing_key
      then err no_signing_key
      else if cfg.commands_enabled
      then (do h ← new_command_handler cfg rep; ok (some h))
      else ok none

  unfoldable pub start : Config F → Result (StartError E) (Served E F)
  start cfg = do
    rep ← new_reporter cfg
    handler ← handler_if cfg rep
    auth ←
        or_error bad_auth
          (build_authenticator cfg.auth_method cfg.webhook_secret cfg.webhook_signing_token)
    ok (record { reporter = rep; handler = handler; auth = auth })
