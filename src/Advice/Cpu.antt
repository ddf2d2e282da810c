-- ===== src/Advice/Cpu.antt =====
-- internal/advice/cpu_throttle.go.
use cigar.Prelude.{Bool, Option, none, some, List, [], ◌∷◌, ◌++◌, if◌then◌else◌}
use cigar.Prelude.Int.{ℤ, pos, ◌+ℤ◌, wrap64, quot, times, ltb_ℤ}
use cigar.Text.{Text, codes, warning_sign}
use cigar.Text.Decimal.{format_int}
use cigar.Float.{Float}
use cigar.Metrics.{JobUsage}
use cigar.Advice.{Facts, Thresholds, Advice, Rule, throttled, to_millis, millicores}

-- `((m + 99) / 100) * 100` on `int64`.
unfoldable pub next_hundred : ℤ → ℤ
next_hundred m = times (quot (wrap64 (m +ℤ pos 99)) 100) 100

-- `%q` on a text without a character to escape.
abbrev pub quoted : Text → Text
quoted s = codes "\"" ++ s ++ codes "\""

module _ (F : Type 0) ⦃fl : Float F⦄ where
  abbrev pub not_positive : F → Bool
  not_positive c = fl.le c (fl.of_uint 0)

  abbrev pub positive : F → Bool
  positive c = fl.lt (fl.of_uint 0) c

  unfoldable pub suggested_cpu_limit_millis : F → ℤ
  unfolding next_hundred
  suggested_cpu_limit_millis limit =
      if not_positive limit
      then pos 1000
      else next_hundred
          (fl.to_int (fl.add (fl.mul (fl.mul limit (fl.of_uint 2)) (fl.of_uint 1000)) fl.half))

  unfoldable pub suggested_cpu_limit : F → Text
  suggested_cpu_limit limit =
      if not_positive limit
      then codes "1"
      else format_int (suggested_cpu_limit_millis limit) ++ codes "m"

  unfoldable pub suggested_cpu_request : F → F → Text
  suggested_cpu_request request limit =
      if not_positive request
      then suggested_cpu_limit limit
      else if ltb_ℤ (suggested_cpu_limit_millis limit) (to_millis F request)
      then format_int (suggested_cpu_limit_millis limit) ++ codes "m"
      else millicores F request

  unfoldable pub throttle_body : JobUsage F → Text
  throttle_body u =
      codes "This job spent **"
      ++ fl.format0 (fl.mul u.throttled_ratio (fl.of_uint 100))
      ++ codes "%** of its CPU periods throttled"
      ++ (if positive u.cpu_limit_cores
          then codes ", against a limit of " ++ millicores F u.cpu_limit_cores
          else codes " (no CPU limit series was found for this pod)")
      ++ codes
          ". The runner had less CPU than the job asked for, so wall-clock time is inflated.\n\n"
      ++ codes "Raise the allowance with GitLab CI variables, on the job or on the project:\n\n"
      ++ codes "```yaml\nvariables:\n"
      ++ codes "  KUBERNETES_CPU_REQUEST: "
      ++ quoted (suggested_cpu_request u.cpu_request_cores u.cpu_limit_cores)
      ++ codes "\n"
      ++ codes "  KUBERNETES_CPU_LIMIT: "
      ++ quoted (suggested_cpu_limit u.cpu_limit_cores)
      ++ codes "\n"
      ++ codes "```\n"

  abbrev advise_throttle : Text → Option (JobUsage F) → List Advice
  advise_throttle job none = []
  advise_throttle job (some u) =
      record {
        job = job;
        rule = codes "cpu-throttle";
        title = warning_sign ++ codes " CPU throttling";
        body = throttle_body u;
      }
      ∷ []

  unfoldable pub check_cpu : Facts F → Thresholds F → List Advice
  check_cpu f t = if throttled f t then advise_throttle f.name f.usage else []

  abbrev pub cpu_throttle : Rule F
  cpu_throttle = record { name = codes "cpu-throttle"; check = check_cpu; wants_trace = none }
