-- ===== src/Advice/Memory.antt =====
-- internal/advice/memory_pressure.go. Byte counts are `uint64`.
use cigar.Prelude.{
  ℕ, ◌+◌, ◌-◌, ◌*◌, ◌/◌, ◌%◌, ◌^◌, ◌||◌, Option, none, some, List, [], ◌∷◌, ◌++◌, if◌then◌else◌,
  min, ◌==◌,
}
use cigar.Text.{Text, codes}
use cigar.Text.Decimal.{format_nat}
use cigar.Float.{Float}
use cigar.Metrics.{JobUsage}
use cigar.Advice.{Facts, Thresholds, Advice, Rule}
use cigar.Advice.Cpu.{quoted, not_positive}

abbrev pub step : ℕ
step = 128 * 1024 * 1024

unfoldable pub suggested_memory_bytes : ℕ → ℕ
suggested_memory_bytes peak =
    let want = (peak * 3 % 2 ^ 64) / 2 in ((want + step - 1) % 2 ^ 64 / step * step) % 2 ^ 64

unfoldable pub suggested_request_bytes : ℕ → ℕ → ℕ → ℕ
suggested_request_bytes request peak limit = min (if request == 0 then peak else request) limit

abbrev pub mebibytes : ℕ → Text
mebibytes n = format_nat (n / (1024 * 1024)) ++ codes "Mi"

module _ (F : Type 0) ⦃fl : Float F⦄ where
  unfoldable pub pressure_body : JobUsage F → F → Text
  unfolding suggested_memory_bytes suggested_request_bytes
  pressure_body u ratio =
      let limit = suggested_memory_bytes u.peak_memory_bytes in
      codes "Peak working set reached **"
      ++ mebibytes u.peak_memory_bytes
      ++ codes " of the "
      ++ mebibytes u.memory_limit_bytes
      ++ codes " limit ("
      ++ fl.format0 (fl.mul ratio (fl.of_uint 100))
      ++ codes
          "%)**. A job this close to its limit gets OOMKilled the moment a build step allocates a little more — and an OOMKill looks like a flaky failure, not a resource problem.\n\n"
      ++ codes "Raise the ceiling with GitLab CI variables:\n\n"
      ++ codes "```yaml\nvariables:\n"
      ++ codes "  KUBERNETES_MEMORY_REQUEST: "
      ++ quoted
          (mebibytes (suggested_request_bytes u.memory_request_bytes u.peak_memory_bytes limit))
      ++ codes "\n"
      ++ codes "  KUBERNETES_MEMORY_LIMIT: "
      ++ quoted (mebibytes limit)
      ++ codes "\n"
      ++ codes "```\n"

  abbrev pub ratio_of : JobUsage F → F
  ratio_of u = fl.div (fl.of_uint u.peak_memory_bytes) (fl.of_uint u.memory_limit_bytes)

  abbrev advise_pressure : Text → Thresholds F → Option (JobUsage F) → List Advice
  advise_pressure job t none = []
  advise_pressure job t (some u) =
      if u.memory_limit_bytes == 0 || not_positive F t.memory_pressure_ratio
      then []
      else if fl.lt (ratio_of u) t.memory_pressure_ratio
      then []
      else record {
        job = job;
        rule = codes "memory-pressure";
        title = codes "🧠 Memory near the limit";
        body = pressure_body u (ratio_of u);
      }
        ∷ []

  unfoldable pub check_memory : Facts F → Thresholds F → List Advice
  check_memory f t = advise_pressure f.name t f.usage

  abbrev pub memory_pressure : Rule F
  memory_pressure = record {
    name = codes "memory-pressure";
    check = check_memory;
    wants_trace = none;
  }
