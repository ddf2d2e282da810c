-- ===== src/Metrics.antt =====
-- internal/metrics: the usage of one job's pod (source.go) and its time series (series.go).
pub mod Prom
mod Tests
use cigar.Prelude.Result.{Result}
use cigar.Prelude.{Option, ℕ, Bool, ◌&&◌, ◌==◌, List, length}
use cigar.Text.{Text}
use cigar.Time.{Time}

-- Byte counts are `uint64`; 0 stands for a series that is absent.
pub record JobUsage (F : Type 0) : Type 0 where
  pub cpu_seconds : F
  pub peak_memory_bytes : ℕ
  pub throttled_ratio : F
  pub network_rx_bytes : ℕ
  pub network_tx_bytes : ℕ
  pub disk_read_bytes : ℕ
  pub disk_write_bytes : ℕ
  pub cpu_request_cores : F
  pub cpu_limit_cores : F
  pub memory_request_bytes : ℕ
  pub memory_limit_bytes : ℕ
  pub low_confidence : Bool

-- `Point`, `Line` and `PodSeries` of series.go.
pub record Point (F : Type 0) : Type 0 where
  pub t : Time
  pub v : F

pub record Line (F : Type 0) : Type 0 where
  pub label : Text
  pub points : List (Point F)

pub record PodSeries (F : Type 0) : Type 0 where
  pub cpu : Line F
  pub memory : Line F
  pub net_tx : Line F

abbrev pub no_points : {F : Type 0} → Line F → Bool
no_points l = length l.points == 0

-- `PodSeries.Empty`.
unfoldable pub empty : {F : Type 0} → PodSeries F → Bool
empty s = no_points s.cpu && no_points s.memory && no_points s.net_tx

-- The interfaces `Source` and `SeriesSource`; `ok == false` of a span is `none`.
pub record Source (E F : Type 0) : Type 0 where
  pub pod_usage : (pod : Text) → (start end : Time) → Result E (Option (JobUsage F))

pub record SeriesSource (E F : Type 0) : Type 0 where
  pub pod_series : (pod : Text) → (start end : Time) → Result E (PodSeries F)
  pub pod_active_span : (pod : Text) → Result E (Option (Time × Time))
