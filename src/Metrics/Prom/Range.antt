-- ===== src/Metrics/Prom/Range.antt =====
-- internal/metrics/prom.go: the time series of a pod. The server's answers to range queries are an
-- argument, and so is `%q`. The clock is at least six hours after the zero time.
use cigar.Prelude.{◌*◌, ◌-◌, ◌++◌, Option, none, some, List, [], ◌∷◌, if◌then◌else◌}
use cigar.Prelude.Int.{pos, wrap64, quot, times, ltb_ℤ}
use cigar.Prelude.Result.{Result, ok, err, ◌>>=◌}
use cigar.Text.{Text, codes}
use cigar.Time.{Time, Duration, sub, second, hour}
use cigar.Metrics.{Point, PodSeries}
use cigar.Metrics.Prom.{millis, container_selector, pod_selector}

-- The answer to a range query: the streams of a matrix, or another type of value.
pub data RangeAnswer (F : Type 0) : Type 0 where
  matrix : List (List (Point F)) → RangeAnswer F
  other : Text → RangeAnswer F

pub data RangeError (E : Type 0) : Type 0 where
  range_failed : Text → E → RangeError E
  range_type : Text → Text → RangeError E

abbrev pub max_duration : Duration → Duration → Duration
max_duration d e = if ltb_ℤ d e then e else d

-- `seriesStep`.
abbrev pub series_step : Duration → Duration
series_step window = max_duration (quot window 120) (pos second)

-- `rangeVector`.
abbrev range_vector : Duration → Duration → Text
range_vector step scrape = millis (max_duration step (wrap64 (times scrape 4)))

abbrev pub memory_query : Text → Text
memory_query selector = codes "sum(container_memory_working_set_bytes{" ++ selector ++ codes "})"

-- `sum(rate(<metric>{<selector>}[<range>]))`
abbrev rate_query : Text → Text → Text → Text
rate_query metric selector range =
    codes "sum(rate(" ++ metric ++ codes "{" ++ selector ++ codes "}[" ++ range ++ codes "]))"

abbrev pub last_time : {F : Type 0} → Point F → List (Point F) → Time
last_time p [] = p.t
last_time p (q ∷ ps) = last_time q ps

abbrev pub span_of : {F : Type 0} → List (Point F) → Option (Time × Time)
span_of [] = none
span_of (p ∷ ps) = some (p.t, last_time p ps)

module _ {E F : Type 0} (ask : Text → Time → Time → Duration → Result E (RangeAnswer F)) where
  abbrev pub points_of : Text → Result E (RangeAnswer F) → Result (RangeError E) (List (Point F))
  points_of query (err e) = err (range_failed query e)
  points_of query (ok (other type)) = err (range_type query type)
  points_of query (ok (matrix [])) = ok []
  points_of query (ok (matrix (ps ∷ streams))) = ok ps

  -- `rangePoints`.
  unfoldable pub range_points :
      Text → Time → Time → Duration → Result (RangeError E) (List (Point F))
  range_points query start end step = points_of query (ask query start end step)

  -- `PodSeries`.
  unfoldable pub pod_series :
      (quote : Text → Text) → Duration → Text → Time → Time → Result (RangeError E) (PodSeries F)
  unfolding range_points
  pod_series quote scrape pod start end =
      let step = series_step (sub end start) in
      let range = range_vector step scrape in
      do
        cpu ←
            range_points
              (rate_query (codes "container_cpu_usage_seconds_total")
                (container_selector (quote pod)) range)
              start end step
        memory ← range_points (memory_query (container_selector (quote pod))) start end step
        net_tx ←
            range_points
              (rate_query (codes "container_network_transmit_bytes_total")
                (pod_selector (quote pod)) range)
              start end step
        ok (record {
          cpu = record { label = codes "cpu"; points = cpu };
          memory = record { label = codes "memory"; points = memory };
          net_tx = record { label = codes "tx"; points = net_tx };
        })

  -- `PodActiveSpan`.
  unfoldable pub pod_active_span :
      (quote : Text → Text) → Duration → Time → Text → Result (RangeError E) (Option (Time × Time))
  unfolding range_points
  pod_active_span quote scrape now pod = do
    points ←
        range_points (memory_query (container_selector (quote pod))) (now - 6 * hour) now scrape
    ok (span_of points)
