-- ===== src/Metrics/Tests.antt =====
-- Examples for the series of a pod.
use cigar.Prelude.{ℕ, [], ◌∷◌, ◌≡◌, ◌≤◌, arith, length}
use cigar.Prelude.Int.{pos}
use cigar.Prelude.Result.{Result, ok}
use cigar.Text.{Text, codes}
use cigar.Time.{Time, Duration}
use cigar.Metrics.{Point, PodSeries}
use cigar.Metrics.Prom.Range.{RangeAnswer, matrix, pod_series, pod_active_span}
use cigar.Metrics.Prom.Span.{Spanned, pod_active_span_bounds}
use cigar.Metrics.Prom.Points.{InWindow, Series, pod_series_bounds}

abbrev at_two : Point ℕ
at_two = record { t = 2_000_000_000; v = 10 }

abbrev at_three : Point ℕ
at_three = record { t = 3_000_000_000; v = 4 }

abbrev two_samples : Text → Time → Time → Duration → Result Text (RangeAnswer ℕ)
two_samples query start end step = ok (matrix ((at_two ∷ at_three ∷ []) ∷ []))

two_samples-InWindow : InWindow two_samples 2_000_000_000 9_000_000_000
two_samples-InWindow query ps streams e =
    let same : at_two ∷ at_three ∷ [] ≡ ps = cc in rw (← same) (omega arith)

pod_series_bounds_example :
    Series two_samples 2_000_000_000 9_000_000_000
      (λ (s : PodSeries ℕ).
        (length s.cpu.points ≤ 121)
        × (length s.memory.points ≤ 121)
        × (length s.net_tx.points ≤ 121))
      (pod_series two_samples
        (λ t. t)
        (pos 15_000_000_000)
        (codes "runner-1")
        2_000_000_000
        9_000_000_000)
pod_series_bounds_example =
    pod_series_bounds two_samples 2_000_000_000 9_000_000_000 two_samples-InWindow (omega arith)
      (omega arith) (λ t. t) (pos 15_000_000_000) (codes "runner-1")

pod_active_span_bounds_example :
    Spanned two_samples
      (λ t. t)
      (pos 15_000_000_000)
      30_000_000_000_000
      (codes "runner-1")
      (pod_active_span two_samples
        (λ t. t)
        (pos 15_000_000_000)
        30_000_000_000_000
        (codes "runner-1"))
pod_active_span_bounds_example =
    pod_active_span_bounds two_samples (λ t. t) (pos 15_000_000_000) 30_000_000_000_000
      (codes "runner-1") (omega arith, tt)
