-- ===== src/Startup/Minimal.antt =====
-- config.go and deps.go: the deployment that sets the least, three values besides the defaults.
use cigar.Prelude.{
  ◌≡◌, ◌≢◌, refl, Bool, true, false, Option, none, some, [], ◌∷◌, inl, inr, if◌then◌else◌,
}
use cigar.Prelude.Result.{ok}
use cigar.Text.{Text, codes, text_eq, is_empty, trim_space, lower}
use cigar.Time.{Duration}
use cigar.Float.{Float}
use cigar.Config.{Config, parse_go_bool, settings, auth_method_of, read_config, load}
use cigar.Config.Accepts.{Ratio, Positive, Accepted, Reads, load_iff}
use cigar.Config.Resolve.Documented.{same_key, or_text, last_of}
use cigar.Gitlab.Client.{Client}
use cigar.Startup.{Outside, PromApi, Served, choose_resolver, new_reporter, handler_if, start}
use cigar.Webhook.Auth.{secret_auth}
use cigar.Worker.{build_authenticator}

-- The settings of the table with their defaults, but for the URL of Prometheus.
abbrev pub minimal : Text → Text → Text
minimal url key =
    if text_eq key (codes "prometheus.url")
    then url
    else or_text (last_of (λ s. some s.default) settings key) []

-- The defaults as the parsers of Go read them.
pub record Understood {F : Type 0} ⦃fl : Float F⦄ (parse_go_duration : Text → Option Duration)
    (throttle pressure : F) (scrape long : Duration) : Type 0 where
  pub throttle_in : Ratio true (codes "0.25") throttle
  pub pressure_in : Ratio false (codes "0.9") pressure
  pub scrape_in : Positive parse_go_duration (codes "30s") scrape
  pub long_in : Positive parse_go_duration (codes "10m") long

is_empty-false : (s : Text) → s ≢ [] → is_empty s ≡ false
is_empty-false [] h = absurd (h refl)
is_empty-false (c ∷ s) h = refl

module _ {F : Type 0} ⦃fl : Float F⦄ (parse_go_duration : Text → Option Duration)
    (env : Text → Text) (url : Text) (throttle pressure : F) (scrape long : Duration) where
  abbrev pub minimal_config : Config F
  minimal_config =
      read_config parse_go_duration (minimal url) env throttle pressure scrape long false

  minimal-Reads :
      Understood parse_go_duration throttle pressure scrape long
      → Reads parse_go_duration (minimal url) env minimal_config
  unfolding text_eq last_of parse_go_bool trim_space auth_method_of same_key lower
  minimal-Reads u = record {
    throttle = u.throttle_in;
    pressure = u.pressure_in;
    scrape = u.scrape_in;
    long = u.long_in;
    enabled = refl;
    secret = refl;
    signing_token = refl;
    token = refl;
    signing_key = refl;
    gitlab = refl;
    prometheus = refl;
    resolver = refl;
    listen = refl;
    ops = refl;
    format = refl;
    method = refl;
  }

  minimal-Accepted : url ≢ [] → env (codes "GITLAB_TOKEN") ≢ [] → Accepted minimal_config
  unfolding text_eq last_of auth_method_of trim_space same_key lower
  minimal-Accepted given token = record {
    auth_method = inl refl;
    pod_resolver = inr (inl refl);
    chart_format = inl refl;
    gitlab_token = token;
    prometheus_url = given;
  }

  minimal-start :
      {E : Type 0} (o : Outside E F) (gl : Client E) (api : PromApi E F)
      → o.new_gitlab (codes "https://gitlab.com") (env (codes "GITLAB_TOKEN")) ≡ ok gl
      → o.new_prometheus url ≡ ok api
      → env (codes "WEBHOOK_SECRET") ≢ []
      → (served : Served E F) × (start o minimal_config ≡ ok served)
        × (served.handler ≡ none)
        × (served.auth ≡ secret_auth (env (codes "WEBHOOK_SECRET")))
  unfolding start new_reporter choose_resolver handler_if build_authenticator text_eq last_of
      auth_method_of trim_space same_key lower
  minimal-start o gl api e1 e2 secret = rw (e1, e2, is_empty-false _ secret) (_, refl, refl, refl)

  -- A deployment that sets the URL of Prometheus and, in the environment, the token of GitLab and the
  -- webhook's secret, and leaves every other setting at its default, is accepted and starts: it serves
  -- without commands, and authenticates deliveries by the secret; where the numbers and durations
  -- among the defaults are read as values in their ranges, and the clients of GitLab and of Prometheus
  -- can be made.
  pub minimal-serves :
      {E : Type 0} (token_first : Bool) (o : Outside E F) (gl : Client E) (api : PromApi E F)
      → Understood parse_go_duration throttle pressure scrape long
      → o.new_gitlab (codes "https://gitlab.com") (env (codes "GITLAB_TOKEN")) ≡ ok gl
      → o.new_prometheus url ≡ ok api
      → url ≢ []
      → env (codes "GITLAB_TOKEN") ≢ []
      → env (codes "WEBHOOK_SECRET") ≢ []
      → (cfg : Config F) × (served : Served E F) × (load parse_go_duration
            (minimal url)
            env
            token_first
          ≡ ok cfg)
        × (start o cfg ≡ ok served)
        × (served.handler ≡ none)
        × (served.auth ≡ secret_auth (env (codes "WEBHOOK_SECRET")))
  minimal-serves token_first o gl api u e1 e2 given token secret =
      let (served, starts, silent, auth) = minimal-start o gl api e1 e2 secret in
      (
        minimal_config,
        served,
        (load_iff parse_go_duration (minimal url) env token_first minimal_config).1
            (minimal-Reads u, minimal-Accepted given token),
        starts,
        silent,
        auth,
      )
