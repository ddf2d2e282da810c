-- ===== src/Report/Render/Total.antt =====
-- report.go: `Render` on byte counts of 64 bits.
use cigar.Prelude.{
  ◌≢◌, ◌==◌, ℕ, zero, suc, ◌^◌, ◌≤◌, ◌<◌, ◌≡◌, refl, ◌↔◌, false, Option, none, some, List, [], ◌∷◌,
  ◌++◌, arith, ltb, Bool-cases, inl, inr, All, get_elem?,
}
use cigar.Text.{Text, codes}
use cigar.Float.{Float}
use cigar.Metrics.{JobUsage}
use cigar.Report.{
  Data, JobReport, Totals, add_usage, has_usage, totals, totals_from, no_totals, wall_clock,
}
use cigar.Report.Bytes.{unit, scale_total, human_bytes}
use cigar.Report.Format.{opt_bytes}
use cigar.Report.Render.{
  row, row_of, rows, usage_row, summary, tables, no_data, no_data_notice, note_marker_of, heading,
  render,
}

abbrev pub Printed : Option Text → Type 0
Printed o = (t : Text) × (o ≡ some t)

letter-of : (e : ℕ) → e < 6 → (l : ℕ) × (get_elem? (codes "KMGTPE") e ≡ some l)
letter-of zero h = (b'K', refl)
letter-of (suc zero) h = (b'M', refl)
letter-of (suc (suc zero)) h = (b'G', refl)
letter-of (suc (suc (suc zero))) h = (b'T', refl)
letter-of (suc (suc (suc (suc zero)))) h = (b'P', refl)
letter-of (suc (suc (suc (suc (suc zero))))) h = (b'E', refl)
letter-of (suc (suc (suc (suc (suc (suc e)))))) h = absurd (omega arith)

module _ (F : Type 0) ⦃fl : Float F⦄ where
  human_bytes_total : (n : ℕ) → n < 2 ^ 64 → Printed (human_bytes F n)
  unfolding human_bytes
  human_bytes_total n h = elim (Bool-cases (ltb n unit)) [
    | inl small ↦ rw (small, human_bytes) (_, refl)
    | inr large ↦
        let (div, exp, e, le6, _, _, _) = scale_total n (ground arith) h in
        let (l, el) = letter-of exp le6 in rw (large, e, el, human_bytes) (_, refl)
  ]

  opt_bytes_total : (n : ℕ) → n < 2 ^ 64 → Printed (opt_bytes F n)
  unfolding opt_bytes
  opt_bytes_total n h = elim (Bool-cases (n == 0)) [
    | inl z ↦ rw (z, opt_bytes) (_, refl)
    | inr nz ↦ rw (nz, opt_bytes) (human_bytes_total n h)
  ]

  -- Every byte count is a `uint64`.
  abbrev FitsUint64 : JobUsage F → Type 0
  FitsUint64 u =
      (u.peak_memory_bytes < 2 ^ 64)
      × (u.memory_request_bytes < 2 ^ 64)
      × (u.memory_limit_bytes < 2 ^ 64)
      × (u.network_rx_bytes < 2 ^ 64)
      × (u.network_tx_bytes < 2 ^ 64)
      × (u.disk_read_bytes < 2 ^ 64)
      × (u.disk_write_bytes < 2 ^ 64)

  abbrev pub UsageFits : Option (JobUsage F) → Type 0
  UsageFits none = Unit
  UsageFits (some u) = FitsUint64 u

  abbrev pub JobFits : JobReport F → Type 0
  JobFits j = UsageFits j.usage

  usage_row_total :
      (name : Text) (u : JobUsage F) (warn : F) → FitsUint64 u → Printed (usage_row F name u warn)
  unfolding usage_row
  usage_row_total name u warn (a, b, c, d, e, f, g) =
      rw
        (
          (human_bytes_total _ a).1,
          (opt_bytes_total _ b).1,
          (opt_bytes_total _ c).1,
          (human_bytes_total _ d).1,
          (human_bytes_total _ e).1,
          (opt_bytes_total _ f).1,
          (opt_bytes_total _ g).1,
        )
        (_, refl)

  row_of_total :
      (name : Text) (o : Option (JobUsage F)) (warn : F)
      → UsageFits o
      → Printed (row_of F name o warn)
  row_of_total name none warn h = (_, refl)
  row_of_total name (some u) warn h = usage_row_total name u warn h

  rows_total :
      (jobs : List (JobReport F)) (warn : F) → All JobFits jobs → Printed (rows F jobs warn)
  unfolding rows row
  rows_total [] warn h = (_, refl)
  rows_total (j ∷ jobs) warn (hj, h) =
      rw ((row_of_total _ j.usage warn hj).1, (rows_total jobs warn h).1) (_, refl)

  TotalsFit : Totals F → Type 0
  TotalsFit t =
      (t.total_mem_bytes < 2 ^ 64)
      × (t.peak_mem_bytes < 2 ^ 64)
      × (t.net_rx_bytes < 2 ^ 64)
      × (t.net_tx_bytes < 2 ^ 64)
      × (t.disk_read_bytes < 2 ^ 64)
      × (t.disk_write_bytes < 2 ^ 64)

  add_usage-Fits :
      (t : Totals F) (o : Option (JobUsage F))
      → TotalsFit t
      → UsageFits o
      → TotalsFit (add_usage t o)
  unfolding TotalsFit
  add_usage-Fits t none h _ = h
  add_usage-Fits t (some u) h hu = ground arith

  totals_from-Fits :
      (t : Totals F) (jobs : List (JobReport F))
      → TotalsFit t
      → All JobFits jobs
      → TotalsFit (totals_from t jobs)
  unfolding totals_from
  totals_from-Fits t [] h _ = h
  totals_from-Fits t (j ∷ jobs) h (hj, hs) =
      totals_from-Fits (add_usage t j.usage) jobs (add_usage-Fits t j.usage h hj) hs

  summary_total :
      (t : Totals F) (span : Option ℕ)
      → TotalsFit t
      → (s : Text) × (summary F t span ≡ some (b'#' ∷ s))
  unfolding summary TotalsFit
  summary_total t span (a, b, c, d, e, f) =
      rw
        (
          (human_bytes_total _ a).1,
          (human_bytes_total _ b).1,
          (human_bytes_total _ c).1,
          (human_bytes_total _ d).1,
          (human_bytes_total _ e).1,
          (human_bytes_total _ f).1,
        )
        (_, refl)

  tables_total : (d : Data F) → All JobFits d.jobs → (s : Text) × (tables F d ≡ some (b'#' ∷ s))
  unfolding tables TotalsFit totals
  tables_total d h =
      rw
        (
          (summary_total (totals d.jobs) (wall_clock d.jobs)
              (totals_from-Fits no_totals d.jobs (ground arith) h)).1,
          (rows_total d.jobs d.throttle_warn_ratio h).1,
        )
        (_, refl)

  -- On byte counts of 64 bits `Render` returns a body: the data's marker, the heading, and the
  -- tables; or the notice in their place, which stands there exactly where a job ran and none has
  -- usage.
  pub render_total :
      (d : Data F)
      → All JobFits d.jobs
      → (rest : Text) × (render F d ≡ some (note_marker_of F d ++ heading F d ++ rest))
        × ((rest ≡ no_data_notice) ↔ (1 ≤ d.ran_jobs × has_usage d.jobs ≡ false))
        × (rest ≢ no_data_notice → tables F d ≡ some rest)
  unfolding render
  render_total d h = elim (Bool-cases (no_data F d)) [
    | inl absent ↦
        rw (absent, render)
          (no_data_notice, refl, (λ _. ground arith, λ _. refl), λ n. absurd (n refl))
    | inr present ↦
        let (s, e) = tables_total d h in
        rw (present, e, render) (b'#' ∷ s, refl, (λ q. ground arith, λ q. ground arith), λ _. refl)
  ]
