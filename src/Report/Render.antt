-- ===== src/Report/Render.antt =====
-- report.go: `Render`, the markdown body of the note, and `row`, one job's line of its table. A byte
-- count that `humanBytes` has no letter for is a panic, `none` here.
pub mod Total
use cigar.Prelude.{
  ℕ, ◌^◌, ◌≤◌, ◌<◌, ◌≡◌, refl, Bool, true, false, not, ◌&&◌, Option, none, some, List, [], ◌∷◌,
  ◌++◌, map, ltb, if◌then◌else◌, ◌>>=◌,
}
use cigar.Text.{Text, codes, warning_sign, is_empty}
use cigar.Text.Decimal.{format_nat, format_int}
use cigar.Float.{Float}
use cigar.Metrics.{JobUsage}
use cigar.Report.{Data, JobReport, Totals, has_usage, totals, wall_clock}
use cigar.Report.Marker.{marker}
use cigar.Report.Bytes.{human_bytes}
use cigar.Report.Format.{human_duration, cores, opt_bytes, throttle, cpu_time}

abbrev pub no_data_notice : Text
no_data_notice =
    codes "> "
    ++ warning_sign
    ++ codes
        " **No resource data available.** None of this pipeline's jobs could be correlated to a runner pod, so no CPU or memory metrics were collected.\n>\n> This usually means the jobs did not run on the Kubernetes runner, or the runner pod could not be identified from the job trace.\n"

abbrev pub details_head : Text
details_head =
    codes
      "\n### Details\n\n| Stage : Job | CPU time | Peak memory | Mem req / limit | CPU req / limit | Throttled | Network RX / TX | Disk R / W |\n|---|---|---|---|---|---|---|---|\n"

module _ (F : Type 0) ⦃fl : Float F⦄ where
  unfoldable pub usage_row : Text → JobUsage F → F → Option Text
  usage_row name u warn = do
    peak ← human_bytes F u.peak_memory_bytes
    request ← opt_bytes F u.memory_request_bytes
    limit ← opt_bytes F u.memory_limit_bytes
    rx ← human_bytes F u.network_rx_bytes
    tx ← human_bytes F u.network_tx_bytes
    read ← opt_bytes F u.disk_read_bytes
    write ← opt_bytes F u.disk_write_bytes
    some (
        (codes "| "
          ++ name
          ++ codes " | "
          ++ cpu_time F u.cpu_seconds
          ++ codes " | "
          ++ peak
          ++ codes " | "
          ++ request
          ++ codes " / "
          ++ limit
          ++ codes " | "
          ++ cores F u.cpu_request_cores
          ++ codes " / "
          ++ cores F u.cpu_limit_cores
          ++ codes " | "
          ++ throttle F u.throttled_ratio warn
          ++ codes " | "
          ++ rx
          ++ codes " / "
          ++ tx
          ++ codes " | "
          ++ read
          ++ codes " / "
          ++ write
          ++ codes " |\n"))

  abbrev row_of : Text → Option (JobUsage F) → F → Option Text
  row_of name none warn = some ((codes "| " ++ name ++ codes " | _no data_ | | | | | | |\n"))
  row_of name (some u) warn = usage_row name u warn

  unfoldable pub row : JobReport F → F → Option Text
  row j warn = row_of ((j.stage ++ codes " : " ++ j.name)) j.usage warn

  unfoldable pub rows : List (JobReport F) → F → Option Text
  rows [] warn = some []
  rows (j ∷ jobs) warn = do line ← row j warn; rest ← rows jobs warn; some (line ++ rest)

  abbrev duration_row : Option ℕ → Text
  duration_row none = []
  duration_row (some d) = (codes "| Pipeline duration | " ++ human_duration d ++ codes " |\n")

  unfoldable pub summary : Totals F → Option ℕ → Option Text
  summary t span = do
    total ← human_bytes F t.total_mem_bytes
    peak ← human_bytes F t.peak_mem_bytes
    rx ← human_bytes F t.net_rx_bytes
    tx ← human_bytes F t.net_tx_bytes
    read ← human_bytes F t.disk_read_bytes
    write ← human_bytes F t.disk_write_bytes
    some (
        (codes "### Summary\n\n| Resource | Total |\n|---|---|\n"
          ++ duration_row span
          ++ codes "| CPU time | "
          ++ cpu_time F t.cpu_seconds
          ++ codes " |\n"
          ++ codes "| Total memory (sum of peaks) | "
          ++ total
          ++ codes " |\n"
          ++ codes "| Peak memory (max working set) | "
          ++ peak
          ++ codes " |\n"
          ++ codes "| Network RX | "
          ++ rx
          ++ codes " |\n"
          ++ codes "| Network TX | "
          ++ tx
          ++ codes " |\n"
          ++ codes "| Disk read | "
          ++ read
          ++ codes " |\n"
          ++ codes "| Disk write | "
          ++ write
          ++ codes " |\n"))

  abbrev pub note_marker_of : Data F → Text
  note_marker_of d = if is_empty d.note_marker then marker else d.note_marker

  abbrev pub heading : Data F → Text
  heading d =
      (codes "\n\n"
        ++ codes "## Pipeline #"
        ++ format_int d.pipeline_id
        ++ codes " resource report — "
        ++ d.status
        ++ codes "\n\n")

  abbrev pub no_data : Data F → Bool
  no_data d = ltb 0 d.ran_jobs && not (has_usage d.jobs)

  unfoldable pub tables : Data F → Option Text
  tables d = do
    s ← summary (totals d.jobs) (wall_clock d.jobs)
    lines ← rows d.jobs d.throttle_warn_ratio
    some ((s ++ details_head ++ lines))

  unfoldable pub render : Data F → Option Text
  render d = do
    rest ← (if no_data d then some no_data_notice else tables d)
    some (note_marker_of d ++ heading d ++ rest)
