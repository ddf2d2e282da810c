-- ===== src/Config.antt =====
-- internal/config/config.go: `Load` and what it validates. The layers of viper are an argument, the
-- function from a key to its value; so are the environment, `time.ParseDuration`, and the order in
-- which the map of required settings is gone through. `strconv.ParseFloat` is in Float.
mod Keys
pub mod Resolve
pub mod Accepts
mod Tests
use cigar.Prelude.{
  ℕ, Bool, true, false, not, ◌&&◌, ◌||◌, Option, none, some, List, [], ◌∷◌, if◌then◌else◌, find,
  any,
}
use cigar.Prelude.Int.{pos, leb_ℤ}
use cigar.Prelude.Result.{Result, ok, err, ◌>>=◌}
use cigar.Text.{Text, codes, text_eq, is_empty, to_lower, trim_space}
use cigar.Time.{Duration}
use cigar.Float.{Float}
pub use Keys.{Setting, settings}
unfoldable pub use Keys.{env_name, flag_name}

pub record Config (F : Type 0) : Type 0 where
  pub webhook_secret : Text
  pub webhook_signing_token : Text
  pub auth_method : Text
  pub gitlab_url : Text
  pub gitlab_token : Text
  pub prometheus_url : Text
  pub throttle_warn_ratio : F
  pub long_job_duration : Duration
  pub memory_pressure_ratio : F
  pub scrape_interval : Duration
  pub listen_addr : Text
  pub ops_addr : Text
  pub pod_resolver : Text
  pub commands_enabled : Bool
  pub commands_signing_key : Text
  pub chart_format : Text

-- The errors, with the values that their messages show.
pub data LoadError : Type 0 where
  bad_ratio : (label range raw : Text) → LoadError
  bad_duration bad_bool : (label raw : Text) → LoadError
  bad_auth_method bad_pod_resolver bad_chart_format : Text → LoadError
  missing : (name : Text) → LoadError

abbrev pub one_of : List Text → Text → Bool
one_of names s = any (λ n. text_eq n s) names

abbrev pub valid_auth_methods : List Text
valid_auth_methods = codes "secret" ∷ codes "signing_token" ∷ []

abbrev pub valid_pod_resolvers : List Text
valid_pod_resolvers = codes "prometheus" ∷ codes "trace" ∷ []

abbrev pub valid_chart_formats : List Text
valid_chart_formats = codes "png" ∷ codes "svg" ∷ codes "markdown" ∷ codes "md" ∷ []

-- `authMethod`.
unfoldable pub auth_method_of : Text → Text
auth_method_of raw = let m = to_lower (trim_space raw) in if is_empty m then codes "secret" else m

-- `strconv.ParseBool`.
unfoldable pub parse_go_bool : Text → Option Bool
parse_go_bool s =
    if one_of (codes "1" ∷ codes "t" ∷ codes "T" ∷ codes "true" ∷ codes "TRUE" ∷ codes "True" ∷ [])
      s
    then some true
    else if one_of
        (codes "0" ∷ codes "f" ∷ codes "F" ∷ codes "false" ∷ codes "FALSE" ∷ codes "False" ∷ []) s
    then some false
    else none

abbrev pub bool_or : Text → Text → Option Bool → Result LoadError Bool
bool_or raw label none = err (bad_bool label raw)
bool_or raw label (some b) = ok b

unfoldable pub parse_bool : Text → Text → Result LoadError Bool
unfolding parse_go_bool
parse_bool raw label = if is_empty raw then ok false else bool_or raw label (parse_go_bool raw)

abbrev pub duration_or : Text → Text → Option Duration → Result LoadError Duration
duration_or raw label none = err (bad_duration label raw)
duration_or raw label (some d) = if leb_ℤ d (pos 0) then err (bad_duration label raw) else ok d

abbrev pub range_text : Bool → Text
range_text true = codes "[0,1]"
range_text false = codes "(0,1]"

module _ {F : Type 0} ⦃fl : Float F⦄ where
  -- The test on a ratio that has been read.
  abbrev pub is_invalid_ratio : Bool → F → Bool
  is_invalid_ratio allow_zero r =
      (fl.lt r (fl.of_uint 0) || fl.lt (fl.of_uint 1) r)
      || (not allow_zero && fl.le r (fl.of_uint 0))

  abbrev pub ratio_or : Text → Text → Bool → Option F → Result LoadError F
  ratio_or raw label allow_zero none = err (bad_ratio label (range_text allow_zero) raw)
  ratio_or raw label allow_zero (some r) =
      if is_invalid_ratio allow_zero r
      then err (bad_ratio label (range_text allow_zero) raw)
      else ok r

  unfoldable pub parse_ratio : Text → Text → Bool → Result LoadError F
  parse_ratio raw label allow_zero = ratio_or raw label allow_zero (fl.parse raw)

-- A check of the source's that returns its error.
abbrev pub require : Bool → LoadError → Result LoadError (Unit {0})
require true e = ok tt
require false e = err e

-- The two required values, in an order that the language leaves open.
abbrev pub required : Bool → Text → Text → List (Text × Text)
required token_first token url =
    if token_first
    then (codes "GITLAB_TOKEN", token) ∷ (codes "PROMETHEUS_URL", url) ∷ []
    else (codes "PROMETHEUS_URL", url) ∷ (codes "GITLAB_TOKEN", token) ∷ []

-- The loop over them.
abbrev pub require_all : List (Text × Text) → Result LoadError (Unit {0})
require_all [] = ok tt
require_all ((name, value) ∷ rest) = if is_empty value then err (missing name) else require_all rest

unfoldable pub parse_duration : (Text → Option Duration) → Text → Text → Result LoadError Duration
parse_duration parse_go_duration raw label = duration_or raw label (parse_go_duration raw)

-- The five values that `Load` parses, each with the label that its error bears.
module _ {F : Type 0} ⦃fl : Float F⦄ (get : Text → Text) where
  abbrev pub throttle_value : Result LoadError F
  throttle_value =
      parse_ratio (get (codes "report.throttle_warn_ratio")) (codes "REPORT_THROTTLE_WARN_RATIO")
        true

  abbrev pub pressure_value : Result LoadError F
  pressure_value =
      parse_ratio (get (codes "report.memory_pressure_ratio"))
        (codes "REPORT_MEMORY_PRESSURE_RATIO") false

module _ (parse_go_duration : Text → Option Duration) (get : Text → Text) where
  abbrev pub scrape_value : Result LoadError Duration
  scrape_value =
      parse_duration parse_go_duration (get (codes "prometheus.scrape_interval"))
        (codes "PROMETHEUS_SCRAPE_INTERVAL")

  abbrev pub long_value : Result LoadError Duration
  long_value =
      parse_duration parse_go_duration (get (codes "report.long_job_duration"))
        (codes "REPORT_LONG_JOB_DURATION")

abbrev pub enabled_value : (Text → Text) → Result LoadError Bool
enabled_value get = parse_bool (get (codes "commands.enabled")) (codes "COMMANDS_ENABLED")

-- The checks of `Load` on the configuration that it has read.
unfoldable pub checked : {F : Type 0} → Bool → Config F → Result LoadError (Config F)
checked token_first cfg = do
  _ ← require (one_of valid_auth_methods cfg.auth_method) (bad_auth_method cfg.auth_method)
  _ ← require (one_of valid_pod_resolvers cfg.pod_resolver) (bad_pod_resolver cfg.pod_resolver)
  _ ← require (one_of valid_chart_formats cfg.chart_format) (bad_chart_format cfg.chart_format)
  _ ← require_all (required token_first cfg.gitlab_token cfg.prometheus_url)
  ok cfg

module _ {F : Type 0} ⦃fl : Float F⦄ (parse_go_duration : Text → Option Duration)
    (get env : Text → Text) where
  -- The configuration with the five values that are parsed.
  abbrev pub read_config : F → F → Duration → Duration → Bool → Config F
  read_config throttle pressure scrape long enabled = record {
    webhook_secret = env (codes "WEBHOOK_SECRET");
    webhook_signing_token = env (codes "WEBHOOK_SIGNING_TOKEN");
    auth_method = auth_method_of (get (codes "webhook.auth_method"));
    gitlab_url = get (codes "gitlab.url");
    gitlab_token = env (codes "GITLAB_TOKEN");
    prometheus_url = get (codes "prometheus.url");
    throttle_warn_ratio = throttle;
    long_job_duration = long;
    memory_pressure_ratio = pressure;
    scrape_interval = scrape;
    listen_addr = get (codes "server.listen_addr");
    ops_addr = get (codes "server.ops_addr");
    pod_resolver = get (codes "pod_resolver");
    commands_enabled = enabled;
    commands_signing_key = env (codes "COMMANDS_SIGNING_KEY");
    chart_format = to_lower (get (codes "commands.chart_format"));
  }

  unfoldable pub load : Bool → Result LoadError (Config F)
  load token_first = do
    throttle ← throttle_value get
    pressure ← pressure_value get
    scrape ← scrape_value parse_go_duration get
    long ← long_value parse_go_duration get
    enabled ← enabled_value get
    checked token_first (read_config throttle pressure scrape long enabled)
