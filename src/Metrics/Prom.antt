-- ===== src/Metrics/Prom.antt =====
-- internal/metrics/prom.go: the usage of a pod from Prometheus. The answers to queries are an argument;
-- so is `%q` on the pod's name, which depends on Unicode's table of printable characters. The timing of
-- queries is left out.
pub mod Points
pub mod Span
pub mod Range
use cigar.Prelude.{
  ℕ, ◌+◌, ◌*◌, Bool, true, false, Option, none, some, List, [], ◌∷◌, ◌++◌, if◌then◌else◌,
}
use cigar.Prelude.Int.{ℤ, pos, ◌+ℤ◌, wrap64, quot, times, leb_ℤ, ltb_ℤ}
use cigar.Prelude.Result.{Result, ok, err, ◌>>=◌}
use cigar.Text.{Text, codes}
use cigar.Text.Decimal.{format_int}
use cigar.Time.{Time, Duration, sub, second, hour}
use cigar.Float.{Float}
use cigar.Metrics.{JobUsage, Point}

-- The answer to an instant query: the values of a vector, or another type of value.
pub data Answer (F : Type 0) : Type 0 where
  vector : List F → Answer F
  other : Text → Answer F

pub data QueryError (E : Type 0) : Type 0 where
  query_failed : Text → E → QueryError E
  unexpected_type : Text → Text → QueryError E
  invalid_window : Time → Time → QueryError E

module _ {E F : Type 0} (ask : Text → Time → Result E (Answer F)) where
  abbrev first_value : Text → Result E (Answer F) → Result (QueryError E) (Option F)
  first_value query (err e) = err (query_failed query e)
  first_value query (ok (other type)) = err (unexpected_type query type)
  first_value query (ok (vector [])) = ok none
  first_value query (ok (vector (v ∷ vs))) = ok (some v)

  -- The first sample, `none` where the query matched no series.
  unfoldable pub scalar : Text → Time → Result (QueryError E) (Option F)
  scalar query ts = first_value query (ask query ts)

-- `%dms`.
abbrev pub millis : Duration → Text
millis d = format_int (quot d 1_000_000) ++ codes "ms"

abbrev pub container_selector : Text → Text
container_selector quoted = codes "pod=" ++ quoted ++ codes ",container!=\"\",container!=\"POD\""

abbrev pub pod_selector : Text → Text
pod_selector quoted = codes "pod=" ++ quoted

-- `sum(<f>(<metric>{<selector>}[<window>]))`
abbrev pub sum_over : Text → Text → Text → Text → Text
sum_over f metric selector window =
    codes "sum("
    ++ f
    ++ codes "("
    ++ metric
    ++ codes "{"
    ++ selector
    ++ codes "}["
    ++ window
    ++ codes "]))"

module _ {E F : Type 0} ⦃fl : Float F⦄ (ask : Text → Time → Result E (Answer F)) where
  -- A field that stays at its zero where the series is absent.
  abbrev pub count_of : Option F → ℕ
  count_of none = 0
  count_of (some v) = fl.to_uint v

  abbrev pub amount_of : Option F → F
  amount_of none = fl.of_uint 0
  amount_of (some v) = v

  abbrev pub ratio_of : Option F → Option F → F
  ratio_of throttled none = fl.of_uint 0
  ratio_of throttled (some periods) =
      if fl.lt (fl.of_uint 0) periods then fl.div (amount_of throttled) periods else fl.of_uint 0

  unfoldable pub query_usage :
      (low : Bool) → (csel psel window : Text) → Time → Result (QueryError E) (JobUsage F)
  unfolding scalar
  query_usage low csel psel window end = do
    memory ←
        scalar ask
          (sum_over (codes "max_over_time") (codes "container_memory_working_set_bytes") csel
            window)
          end
    cpu ←
        scalar ask
          (sum_over (codes "increase") (codes "container_cpu_usage_seconds_total") csel window) end
    rx ←
        scalar ask
          (sum_over (codes "increase") (codes "container_network_receive_bytes_total") psel window)
          end
    tx ←
        scalar ask
          (sum_over (codes "increase") (codes "container_network_transmit_bytes_total") psel window)
          end
    read ←
        scalar ask
          (sum_over (codes "increase") (codes "container_fs_reads_bytes_total") csel window) end
    write ←
        scalar ask
          (sum_over (codes "increase") (codes "container_fs_writes_bytes_total") csel window) end
    cpu_request ←
        scalar ask
          (sum_over (codes "max_over_time") (codes "kube_pod_container_resource_requests")
            (psel ++ codes ",resource=\"cpu\"") window)
          end
    cpu_limit ←
        scalar ask
          (sum_over (codes "max_over_time") (codes "kube_pod_container_resource_limits")
            (psel ++ codes ",resource=\"cpu\"") window)
          end
    memory_request ←
        scalar ask
          (sum_over (codes "max_over_time") (codes "kube_pod_container_resource_requests")
            (psel ++ codes ",resource=\"memory\"") window)
          end
    memory_limit ←
        scalar ask
          (sum_over (codes "max_over_time") (codes "kube_pod_container_resource_limits")
            (psel ++ codes ",resource=\"memory\"") window)
          end
    throttled ←
        scalar ask
          (sum_over (codes "increase") (codes "container_cpu_cfs_throttled_periods_total") csel
            window)
          end
    periods ←
        scalar ask
          (sum_over (codes "increase") (codes "container_cpu_cfs_periods_total") csel window) end
    ok (record {
      cpu_seconds = amount_of cpu;
      peak_memory_bytes = count_of memory;
      throttled_ratio = ratio_of throttled periods;
      network_rx_bytes = count_of rx;
      network_tx_bytes = count_of tx;
      disk_read_bytes = count_of read;
      disk_write_bytes = count_of write;
      cpu_request_cores = amount_of cpu_request;
      cpu_limit_cores = amount_of cpu_limit;
      memory_request_bytes = count_of memory_request;
      memory_limit_bytes = count_of memory_limit;
      low_confidence = low;
    })

  -- `PodUsage`.
  unfoldable pub pod_usage :
      (quote : Text → Text) → Duration → Text → Time → Time → Result (QueryError E) (JobUsage F)
  unfolding query_usage
  pod_usage quote scrape pod start end =
      let dur = sub end start in
      if leb_ℤ dur (pos 0)
      then err (invalid_window start end)
      else query_usage (ltb_ℤ dur (wrap64 (times scrape 2))) (container_selector (quote pod))
          (pod_selector (quote pod)) (millis (wrap64 (dur +ℤ scrape))) end
