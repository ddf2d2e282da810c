-- ===== src/Report/Tests.antt =====
-- A report of two jobs, and its marker.
use cigar.Prelude.{ℕ, ◌≤◌, ◌≡◌, ◌≢◌, ◌↔◌, false, none, some, List, [], ◌∷◌, ◌++◌, arith}
use cigar.Prelude.Int.{pos}
use cigar.Text.{Text, codes}
use cigar.Report.{Data, JobReport, has_usage, wall_clock}
use cigar.Report.Marker.{
  lead_text, mid_text, sep_text, tail_text, marker_signature, signed_marker, parse_signed_marker,
}
use cigar.Report.Marker.Search.{written}
use cigar.Report.Marker.Search.{Numeral}
use cigar.Text.Decimal.Number.{capped}
use cigar.Report.Marker.Signed.{parse_signed_marker-signed, parse_signed_marker_sound}
use cigar.Report.Render.{render, note_marker_of, heading, tables, no_data_notice}
use cigar.Report.Render.Total.{render_total}
use cigar.Report.WallClock.{ran, wall_span, wall_clock-wall_span}
use cigar.Fixtures.{toy_hmac, whole, a_usage}

abbrev some_jobs : List (JobReport ℕ)
some_jobs =
    record {
      stage = codes "build";
      name = codes "compile";
      usage = some a_usage;
      started_at = 1000000000;
      finished_at = 61000000000;
    }
    ∷ record {
      stage = codes "deploy";
      name = codes "ship";
      usage = none;
      started_at = 0;
      finished_at = 0;
    }
    ∷ []

abbrev some_data : Data ℕ
some_data = record {
  pipeline_id = pos 12;
  status = codes "success";
  jobs = some_jobs;
  throttle_warn_ratio = 1;
  ran_jobs = 1;
  note_marker = [];
}

parse_signed_marker-signed_example :
    parse_signed_marker toy_hmac
      (signed_marker toy_hmac (pos 12) (pos 7) (codes "key") ++ codes "\n\nreport")
      (codes "key")
    ≡ some (pos 12, pos 7)
parse_signed_marker-signed_example =
    parse_signed_marker-signed toy_hmac 12 7 (codes "key") (codes "\n\nreport") (omega arith)
      (omega arith)

abbrev note_body : Text
note_body = signed_marker toy_hmac (pos 12) (pos 7) (codes "key") ++ codes "\n\nreport"

parse_signed_marker_sound_example :
    (before : Text) × (ds : Text) × (es : Text) × (rest : Text) × (note_body
      ≡ before
        ++ written lead_text mid_text sep_text tail_text ds es
            (marker_signature toy_hmac (pos 12) (pos 7) (codes "key"))
            rest)
    × Numeral ds
    × Numeral es
    × (pos 12 ≡ pos (capped ds))
    × (pos 7 ≡ pos (capped es))
parse_signed_marker_sound_example =
    parse_signed_marker_sound toy_hmac note_body (codes "key") parse_signed_marker-signed_example

wall_clock-wall_span_example : wall_clock some_jobs ≡ wall_span (ran some_jobs)
wall_clock-wall_span_example = wall_clock-wall_span some_jobs

render_total_example :
    (rest : Text) × (render ℕ some_data
      ≡ some (note_marker_of ℕ some_data ++ heading ℕ some_data ++ rest))
    × ((rest ≡ no_data_notice) ↔ (1 ≤ 1 × has_usage some_jobs ≡ false))
    × (rest ≢ no_data_notice → tables ℕ some_data ≡ some rest)
render_total_example = render_total ℕ some_data (
  (omega arith, omega arith, omega arith, omega arith, omega arith, omega arith, omega arith),
  (tt, tt),
)
