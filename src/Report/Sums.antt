-- ===== src/Report/Sums.antt =====
-- What the loop of `totals` adds up.
use cigar.Prelude.{ℕ, ◌+◌, ◌%◌, ◌^◌, ◌<◌, ◌≡◌, refl, Option, none, some, List, [], ◌∷◌, arith, max}
use cigar.Float.{Float}
use cigar.Metrics.{JobUsage}
use cigar.Report.{JobReport, Totals, add_usage, totals_from, no_totals, totals}

module _ {F : Type 0} where
  abbrev pub measure : (JobUsage F → ℕ) → Option (JobUsage F) → ℕ
  measure f none = 0
  measure f (some u) = f u

  -- The sum and the maximum over the jobs that have usage.
  abbrev pub sum_of : (JobUsage F → ℕ) → List (JobReport F) → ℕ
  sum_of f [] = 0
  sum_of f (j ∷ jobs) = measure f j.usage + sum_of f jobs

  abbrev pub max_of : (JobUsage F → ℕ) → List (JobReport F) → ℕ
  max_of f [] = 0
  max_of f (j ∷ jobs) = max (measure f j.usage) (max_of f jobs)

  abbrev pub peak : JobUsage F → ℕ
  peak u = u.peak_memory_bytes

module _ {F : Type 0} ⦃fl : Float F⦄ where
  -- Totals that continue `t` over these jobs.
  pub record Continues (t t' : Totals F) (jobs : List (JobReport F)) : Type 0 where
    pub memory : t'.total_mem_bytes ≡ (t.total_mem_bytes + sum_of peak jobs) % 2 ^ 64
    pub peak_memory : t'.peak_mem_bytes ≡ max t.peak_mem_bytes (max_of peak jobs)
    pub network_rx :
        t'.net_rx_bytes ≡ (t.net_rx_bytes + sum_of (λ u. u.network_rx_bytes) jobs) % 2 ^ 64
    pub network_tx :
        t'.net_tx_bytes ≡ (t.net_tx_bytes + sum_of (λ u. u.network_tx_bytes) jobs) % 2 ^ 64
    pub disk_read :
        t'.disk_read_bytes ≡ (t.disk_read_bytes + sum_of (λ u. u.disk_read_bytes) jobs) % 2 ^ 64
    pub disk_write :
        t'.disk_write_bytes ≡ (t.disk_write_bytes + sum_of (λ u. u.disk_write_bytes) jobs) % 2 ^ 64

  pub record Fits64 (t : Totals F) : Type 0 where
    pub memory : t.total_mem_bytes < 2 ^ 64
    pub network_rx : t.net_rx_bytes < 2 ^ 64
    pub network_tx : t.net_tx_bytes < 2 ^ 64
    pub disk_read : t.disk_read_bytes < 2 ^ 64
    pub disk_write : t.disk_write_bytes < 2 ^ 64

  Continues-nil : (t : Totals F) → Fits64 t → Continues t t []
  Continues-nil t f = omega arith

  add_usage-Fits64 : (t : Totals F) (o : Option (JobUsage F)) → Fits64 t → Fits64 (add_usage t o)
  add_usage-Fits64 t none f = f
  add_usage-Fits64 t (some u) f = omega arith

  Continues-cons :
      (t t' : Totals F) (j : JobReport F) (jobs : List (JobReport F)) (o : Option (JobUsage F))
      → j.usage ≡ o
      → Continues (add_usage t o) t' jobs
      → Continues t t' (j ∷ jobs)
  Continues-cons t t' j jobs none e c = ground arith
  Continues-cons t t' j jobs (some u) e c = ground arith

  totals_from-Continues :
      (t : Totals F) (jobs : List (JobReport F)) → Fits64 t → Continues t (totals_from t jobs) jobs
  unfolding totals_from
  totals_from-Continues t [] f = Continues-nil t f
  totals_from-Continues t (j ∷ jobs) f =
      Continues-cons t _ j jobs j.usage refl
        (totals_from-Continues (add_usage t j.usage) jobs (add_usage-Fits64 t j.usage f))

  -- Each total is the sum over the jobs with usage, as a `uint64`, and the peak is their maximum;
  -- jobs without usage count for nothing.
  totals-Continues : (jobs : List (JobReport F)) → Continues no_totals (totals jobs) jobs
  unfolding totals
  totals-Continues jobs = totals_from-Continues no_totals jobs (omega arith)
