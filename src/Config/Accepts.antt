-- ===== src/Config/Accepts.antt =====
-- config.go: which settings `Load` accepts, and what it makes of them.
use cigar.Prelude.{
  ◌≡◌, ◌≢◌, if◌then◌else◌, ◌↔◌, ◌⊎◌, refl, sym, subst, Bool, true, false, Option, some, List, [],
  ◌∷◌, arith,
}
use cigar.Prelude.Int.{pos, ◌<ℤ◌}
use cigar.Prelude.Result.{Result, ok, err, ◌>>=◌}
use cigar.Text.{Text, codes, to_lower, trim_space, is_empty, text_eq_iff}
use cigar.Time.{Duration}
use cigar.Float.{Float}
use cigar.Config.{
  Config, LoadError, parse_ratio, parse_duration, parse_bool, parse_go_bool, one_of,
  valid_auth_methods, valid_pod_resolvers, valid_chart_formats, required, require, require_all,
  checked, throttle_value, pressure_value, scrape_value, long_value, enabled_value, read_config,
  auth_method_of, load,
}

chain-eq-ok :
    {X A B C D G R : Type 0} (a : Result X A) (b : Result X B) (c : Result X C) (d : Result X D)
    (g : Result X G) (k : A → B → C → D → G → Result X R) {r : R}
    → (do x ← a; y ← b; z ← c; u ← d; v ← g; k x y z u v) ≡ ok r
    → (x : A) × (y : B) × (z : C) × (u : D) × (v : G) × (a ≡ ok x)
      × (b ≡ ok y)
      × (c ≡ ok z)
      × (d ≡ ok u)
      × (g ≡ ok v)
      × (k x y z u v ≡ ok r)
chain-eq-ok (ok x) (ok y) (ok z) (ok u) (ok v) k h =
    (x, y, z, u, v, refl, refl, refl, refl, refl, h)
chain-eq-ok (err e) b c d g k h = cc
chain-eq-ok (ok x) (err e) c d g k h = cc
chain-eq-ok (ok x) (ok y) (err e) d g k h = cc
chain-eq-ok (ok x) (ok y) (ok z) (err e) g k h = cc
chain-eq-ok (ok x) (ok y) (ok z) (ok u) (err e) k h = cc

-- A duration is above zero.
abbrev pub Positive : (Text → Option Duration) → Text → Duration → Type 0
Positive parse raw d = (parse raw ≡ some d) × (pos 0 <ℤ d)

parse_duration_iff :
    (parse : Text → Option Duration) (raw label : Text) (d : Duration)
    → (parse_duration parse raw label ≡ ok d) ↔ Positive parse raw d
unfolding parse_duration
parse_duration_iff parse raw label d = ground arith

-- A switch is a word that `ParseBool` takes, or nothing, for false.
abbrev Switch : Text → Bool → Type 0
Switch [] b = b ≡ false
Switch (c ∷ s) b = parse_go_bool (c ∷ s) ≡ some b

parse_bool_iff : (raw label : Text) (b : Bool) → (parse_bool raw label ≡ ok b) ↔ Switch raw b
unfolding parse_bool
parse_bool_iff [] label b = ground arith
parse_bool_iff (c ∷ s) label b = ground arith

-- One of the words of a row.
abbrev OneOf : List Text → Text → Type 0
OneOf [] s = ⊥
OneOf (n ∷ names) s = (s ≡ n) ⊎ OneOf names s

one_of_iff : (names : List Text) (s : Text) → (one_of names s ≡ true) ↔ OneOf names s
one_of_iff [] s = ground arith
one_of_iff (n ∷ names) s = ground (arith, one_of_iff names s, text_eq_iff n s)

require_all_iff :
    (token_first : Bool) (token url : Text)
    → (require_all (required token_first token url) ≡ ok tt) ↔ ((token ≢ []) × (url ≢ []))
require_all_iff true [] u = ground arith
require_all_iff true (c ∷ t) [] = ground arith
require_all_iff true (c ∷ t) (d ∷ u) = ground arith
require_all_iff false t [] = ground arith
require_all_iff false [] (d ∷ u) = ground arith
require_all_iff false (c ∷ t) (d ∷ u) = ground arith

-- What the settings have to be for the configuration to be made of them.
pub record Accepted {F : Type 0} (cfg : Config F) : Type 0 where
  pub auth_method : OneOf (codes "secret" ∷ codes "signing_token" ∷ []) cfg.auth_method
  pub pod_resolver : OneOf (codes "prometheus" ∷ codes "trace" ∷ []) cfg.pod_resolver
  pub chart_format :
      OneOf (codes "png" ∷ codes "svg" ∷ codes "markdown" ∷ codes "md" ∷ []) cfg.chart_format
  pub gitlab_token : cfg.gitlab_token ≢ []
  pub prometheus_url : cfg.prometheus_url ≢ []

requires-eq-ok :
    {A : Type 0} (b c d : Bool) (x y z : LoadError) (m : Result LoadError (Unit {0})) (v w : A)
    → (do _ ← require b x; _ ← require c y; _ ← require d z; _ ← m; ok v) ≡ ok w
    → (b ≡ true) × (c ≡ true) × (d ≡ true) × (m ≡ ok tt) × (w ≡ v)
requires-eq-ok true true true x y z (ok u) v w h = (refl, refl, refl, refl, cc)
requires-eq-ok true true true x y z (err e) v w h = cc
requires-eq-ok true true false x y z m v w h = cc
requires-eq-ok true false d x y z m v w h = cc
requires-eq-ok false c d x y z m v w h = cc

checked_iff :
    {F : Type 0} (token_first : Bool) (cfg cfg' : Config F)
    → (checked token_first cfg ≡ ok cfg') ↔ ((cfg' ≡ cfg) × Accepted cfg)
unfolding checked
checked_iff token_first cfg cfg' =
    let m = one_of_iff valid_auth_methods cfg.auth_method in
    let r = one_of_iff valid_pod_resolvers cfg.pod_resolver in
    let f = one_of_iff valid_chart_formats cfg.chart_format in
    let p = require_all_iff token_first cfg.gitlab_token cfg.prometheus_url in
    (
      λ h.
          let (a, b, c, d, e) = requires-eq-ok _ _ _ _ _ _ _ cfg cfg' h in
          (
            e,
            record {
              auth_method = m.0 a;
              pod_resolver = r.0 b;
              chart_format = f.0 c;
              gitlab_token = (p.0 d).0;
              prometheus_url = (p.0 d).1;
            },
          ),
      λ (e, a).
          rw
            (
              m.1 a.auth_method,
              r.1 a.pod_resolver,
              f.1 a.chart_format,
              p.1 (a.gitlab_token, a.prometheus_url),
              e,
            )
            refl,
    )

module _ {F : Type 0} ⦃fl : Float F⦄ where
  -- A ratio compares neither below 0 nor above 1, nor at most 0 where 0 is not allowed; NaN passes.
  abbrev pub Ratio : Bool → Text → F → Type 0
  Ratio allow_zero raw r =
      (fl.parse raw ≡ some r)
      × (fl.lt r (fl.of_uint 0) ≡ false)
      × (fl.lt (fl.of_uint 1) r ≡ false)
      × (allow_zero ≡ false → fl.le r (fl.of_uint 0) ≡ false)

  parse_ratio_iff :
      (raw label : Text) (allow_zero : Bool) (r : F)
      → (parse_ratio raw label allow_zero ≡ ok r) ↔ Ratio allow_zero raw r
  unfolding parse_ratio
  parse_ratio_iff raw label true r = ground arith
  parse_ratio_iff raw label false r = ground arith

  module _ (parse_go_duration : Text → Option Duration) (get env : Text → Text) where
    -- The values that the configuration has of the settings, each read as the setting wants it.
    pub record Reads (cfg : Config F) : Type 0 where
      pub throttle : Ratio true (get (codes "report.throttle_warn_ratio")) cfg.throttle_warn_ratio
      pub pressure :
          Ratio false (get (codes "report.memory_pressure_ratio")) cfg.memory_pressure_ratio
      pub scrape :
          Positive parse_go_duration (get (codes "prometheus.scrape_interval")) cfg.scrape_interval
      pub long :
          Positive parse_go_duration (get (codes "report.long_job_duration")) cfg.long_job_duration
      pub enabled : Switch (get (codes "commands.enabled")) cfg.commands_enabled
      pub secret : cfg.webhook_secret ≡ env (codes "WEBHOOK_SECRET")
      pub signing_token : cfg.webhook_signing_token ≡ env (codes "WEBHOOK_SIGNING_TOKEN")
      pub token : cfg.gitlab_token ≡ env (codes "GITLAB_TOKEN")
      pub signing_key : cfg.commands_signing_key ≡ env (codes "COMMANDS_SIGNING_KEY")
      pub gitlab : cfg.gitlab_url ≡ get (codes "gitlab.url")
      pub prometheus : cfg.prometheus_url ≡ get (codes "prometheus.url")
      pub resolver : cfg.pod_resolver ≡ get (codes "pod_resolver")
      pub listen : cfg.listen_addr ≡ get (codes "server.listen_addr")
      pub ops : cfg.ops_addr ≡ get (codes "server.ops_addr")
      pub format : cfg.chart_format ≡ to_lower (get (codes "commands.chart_format"))
      pub method :
          let m = to_lower (trim_space (get (codes "webhook.auth_method"))) in
          cfg.auth_method ≡ (if is_empty m then codes "secret" else m)

    -- Then the configuration is the one that `Load` makes of the five values that it parses.
    read-Reads :
        (cfg : Config F)
        → Reads cfg
        → cfg
          ≡ read_config parse_go_duration get env cfg.throttle_warn_ratio cfg.memory_pressure_ratio
              cfg.scrape_interval cfg.long_job_duration cfg.commands_enabled
    unfolding auth_method_of
    read-Reads cfg r = cc

    -- `Load` returns a configuration exactly when its two ratios, two durations and the switch are
    -- read from their settings, the other values are those of their settings and variables, with the
    -- method and the format in small letters and `secret` as the method where none is given, the
    -- method, the resolver and the format are known ones, and the token and the URL of Prometheus are
    -- set, in whatever order the two are looked at. The durations are above zero; the ratios compare
    -- neither below 0 nor above 1, nor the second at most 0: NaN, which compares with nothing, passes.
    pub load_iff :
        (token_first : Bool) (cfg : Config F)
        → (load parse_go_duration get env token_first ≡ ok cfg) ↔ (Reads cfg × Accepted cfg)
    unfolding load auth_method_of
    load_iff token_first cfg = (
      λ h.
          let (t, p, s, l, b, et, ep, es, el, eb, ec) =
            chain-eq-ok (throttle_value get) (pressure_value get)
              (scrape_value parse_go_duration get) (long_value parse_go_duration get)
              (enabled_value get)
              (λ x y z u v. checked token_first (read_config parse_go_duration get env x y z u v))
              h in
          let (same, a) =
            (checked_iff token_first (read_config parse_go_duration get env t p s l b) cfg).0 ec in
          (
            subst Reads (sym same) (record {
              throttle = (parse_ratio_iff _ _ true t).0 et;
              pressure = (parse_ratio_iff _ _ false p).0 ep;
              scrape = (parse_duration_iff _ _ _ s).0 es;
              long = (parse_duration_iff _ _ _ l).0 el;
              enabled = (parse_bool_iff _ _ b).0 eb;
              secret = refl;
              signing_token = refl;
              token = refl;
              signing_key = refl;
              gitlab = refl;
              prometheus = refl;
              resolver = refl;
              listen = refl;
              ops = refl;
              format = refl;
              method = refl;
            }),
            subst Accepted (sym same) a,
          ),
      λ (r, a).
          let et : throttle_value get ≡ ok cfg.throttle_warn_ratio =
            (parse_ratio_iff _ _ true _).1 r.throttle in
          let ep : pressure_value get ≡ ok cfg.memory_pressure_ratio =
            (parse_ratio_iff _ _ false _).1 r.pressure in
          let es : scrape_value parse_go_duration get ≡ ok cfg.scrape_interval =
            (parse_duration_iff _ _ _ _).1 r.scrape in
          let el : long_value parse_go_duration get ≡ ok cfg.long_job_duration =
            (parse_duration_iff _ _ _ _).1 r.long in
          let eb : enabled_value get ≡ ok cfg.commands_enabled =
            (parse_bool_iff _ _ _).1 r.enabled in
          rw (et, ep, es, el, eb)
            ((checked_iff token_first _ cfg).1
              (read-Reads cfg r, subst Accepted (read-Reads cfg r) a)),
    )
