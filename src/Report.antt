-- ===== src/Report.antt =====
-- internal/report: the report note. `Data` and its aggregates are here, the formats in Format, the
-- markdown body in Render, the signed marker in Marker.
pub mod Bytes
pub mod Format
pub mod Marker
pub mod Render
pub mod Sums
pub mod WallClock
mod Tests
use cigar.Prelude.{
  ℕ, ◌+◌, ◌-◌, ◌%◌, ◌^◌, Bool, true, false, not, ◌||◌, ◌&&◌, Option, none, some, List, [], ◌∷◌, ltb,
  leb, if◌then◌else◌, is_some, any, min,
}
use cigar.Prelude.Int.{ℤ}
use cigar.Text.{Text}
use cigar.Time.{Time, is_zero}
use cigar.Float.{Float}
use cigar.Metrics.{JobUsage}

pub record JobReport (F : Type 0) : Type 0 where
  pub stage : Text
  pub name : Text
  pub usage : Option (JobUsage F)
  pub started_at : Time
  pub finished_at : Time

pub record Data (F : Type 0) : Type 0 where
  pub pipeline_id : ℤ
  pub status : Text
  pub jobs : List (JobReport F)
  pub throttle_warn_ratio : F
  pub ran_jobs : ℕ
  pub note_marker : Text

-- Byte totals are sums on `uint64`.
pub record Totals (F : Type 0) : Type 0 where
  pub cpu_seconds : F
  pub total_mem_bytes : ℕ
  pub peak_mem_bytes : ℕ
  pub net_rx_bytes : ℕ
  pub net_tx_bytes : ℕ
  pub disk_read_bytes : ℕ
  pub disk_write_bytes : ℕ

abbrev pub add64 : ℕ → ℕ → ℕ
add64 a b = (a + b) % 2 ^ 64

module _ {F : Type 0} where
  unfoldable pub has_usage : List (JobReport F) → Bool
  has_usage jobs = any (λ j. is_some j.usage) jobs

module _ {F : Type 0} ⦃fl : Float F⦄ where
  abbrev pub add_usage : Totals F → Option (JobUsage F) → Totals F
  add_usage t none = t
  add_usage t (some u) = record {
    cpu_seconds = fl.add t.cpu_seconds u.cpu_seconds;
    total_mem_bytes = add64 t.total_mem_bytes u.peak_memory_bytes;
    peak_mem_bytes =
        if ltb t.peak_mem_bytes u.peak_memory_bytes then u.peak_memory_bytes else t.peak_mem_bytes;
    net_rx_bytes = add64 t.net_rx_bytes u.network_rx_bytes;
    net_tx_bytes = add64 t.net_tx_bytes u.network_tx_bytes;
    disk_read_bytes = add64 t.disk_read_bytes u.disk_read_bytes;
    disk_write_bytes = add64 t.disk_write_bytes u.disk_write_bytes;
  }

  unfoldable pub totals_from : Totals F → List (JobReport F) → Totals F
  totals_from t [] = t
  totals_from t (j ∷ jobs) = totals_from (add_usage t j.usage) jobs

  abbrev pub no_totals : Totals F
  no_totals = record {
    cpu_seconds = fl.of_uint 0;
    total_mem_bytes = 0;
    peak_mem_bytes = 0;
    net_rx_bytes = 0;
    net_tx_bytes = 0;
    disk_read_bytes = 0;
    disk_write_bytes = 0;
  }

  unfoldable pub totals : List (JobReport F) → Totals F
  unfolding totals_from
  totals = totals_from no_totals

module _ {F : Type 0} where
  abbrev pub never_ran : JobReport F → Bool
  never_ran j = is_zero j.started_at || is_zero j.finished_at

  abbrev pub earlier : Time → JobReport F → Time
  earlier start j = if is_zero start || ltb j.started_at start then j.started_at else start

  abbrev pub later : Time → JobReport F → Time
  later end j = if ltb end j.finished_at then j.finished_at else end

  -- The loop of `wallClock`, from the bounds so far.
  unfoldable pub span_from : Time → Time → List (JobReport F) → Time × Time
  span_from start end [] = (start, end)
  span_from start end (j ∷ jobs) =
      let skip = never_ran j in
      span_from (if skip then start else earlier start j) (if skip then end else later end j) jobs

  -- `wallClock`; a positive number of nanoseconds, with the saturation of `Sub`.
  unfoldable pub wall_clock : List (JobReport F) → Option ℕ
  unfolding span_from
  wall_clock jobs =
      let (start, end) = span_from 0 0 jobs in
      if is_zero start || leb end start then none else some (min (end - start) (2 ^ 63 - 1))
