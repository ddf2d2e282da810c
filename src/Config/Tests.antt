-- ===== src/Config/Tests.antt =====
-- Examples for the configuration: its derived names, and the environment of one deployment.
use cigar.Prelude.{◌≡◌, ◌↔◌, refl, true, ℕ}
use cigar.Prelude.Result.{ok, err}
use cigar.Text.{codes, text_eq, trim_space, lower}
use cigar.Text.Decimal.{parse_int}
use cigar.Config.{
  missing, env_name, flag_name, load, parse_ratio, parse_duration, parse_bool, parse_go_bool,
  checked, auth_method_of,
}
use cigar.Config.Accepts.{Reads, Accepted, load_iff}
use cigar.Fixtures.{whole, a_setting, a_secret, seconds_only, a_config}

env_name_example :
    env_name (codes "report.throttle_warn_ratio") ≡ codes "REPORT_THROTTLE_WARN_RATIO"
unfolding env_name
env_name_example = refl

flag_name_example : flag_name (codes "webhook.auth_method") ≡ codes "webhook-auth-method"
unfolding flag_name
flag_name_example = refl

auth_method_default : auth_method_of (codes "  ") ≡ codes "secret"
unfolding auth_method_of trim_space
auth_method_default = refl

load_test : load seconds_only a_setting a_secret true ≡ ok a_config
unfolding load parse_ratio parse_duration parse_bool parse_go_bool checked auth_method_of text_eq
    trim_space lower parse_int
load_test = refl

load_test_missing :
    load {F = ℕ} seconds_only a_setting (λ name. codes "") true
    ≡ err (missing (codes "GITLAB_TOKEN"))
unfolding load parse_ratio parse_duration parse_bool parse_go_bool checked auth_method_of text_eq
    trim_space lower parse_int
load_test_missing = refl

load_iff_example :
    (load seconds_only a_setting a_secret true ≡ ok a_config)
    ↔ (Reads seconds_only a_setting a_secret a_config × Accepted a_config)
load_iff_example = load_iff seconds_only a_setting a_secret true a_config
