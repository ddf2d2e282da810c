-- ===== src/Metrics/Prom/Points.antt =====
-- prom.go: how many points the series of a pod have.
use cigar.Prelude.{
  ℕ, ◌+◌, ◌*◌, ◌/◌, ◌-◌, ◌^◌, ◌≤◌, ◌<◌, ◌≡◌, refl, List, [], ◌∷◌, length, max, arith,
}
use cigar.Prelude.Int.{pos, quot}
use cigar.Prelude.Result.{Result, ok, err, ◌>>=◌}
use cigar.Text.{Text}
use cigar.Time.{Time, Duration, sub, second}
use cigar.Metrics.{Point, PodSeries}
use cigar.Metrics.Prom.Range.{
  RangeAnswer, matrix, other, RangeError, range_failed, range_type, series_step, points_of,
  range_points, pod_series,
}

-- The step of a range query over a window, in nanoseconds.
abbrev pub step_of : Time → Time → ℕ
step_of start end = max ((end - start) / 120) second

sub-pos :
    (start end : Time) → end - start < 2 ^ 63 → start ≤ end → sub end start ≡ pos (end - start)
unfolding sub
sub-pos start end room le = ground arith

series_step-step_of :
    (start end : Time)
    → end - start < 2 ^ 63
    → start ≤ end
    → series_step (sub end start) ≡ pos (step_of start end)
unfolding quot
series_step-step_of start end room le = rw (sub-pos start end room le) (ground arith)

-- A row of samples with one step between two of them that does not leave the window.
step_of-121 : (w n m : ℕ) → second ≤ m → w / 120 ≤ m → n * m ≤ w + m → n ≤ 121
step_of-121 w n m least long h = grind arith

module _ {E F : Type 0} (ask : Text → Time → Time → Duration → Result E (RangeAnswer F))
    (start end : Time) where
  -- The samples of each answer are one step apart and none is outside the window.
  abbrev pub InWindow : Type 0
  InWindow =
      (query : Text) (ps : List (Point F)) (streams : List (List (Point F)))
      → ask query start end (pos (step_of start end)) ≡ ok (matrix (ps ∷ streams))
      → length ps * step_of start end ≤ (end - start) + step_of start end

  -- A value with a property, or the server's error or its other type of answer to one query.
  pub data Series {A : Type 0} (P : A → Type 0) : Result (RangeError E) A → Type 0 where
    answered : (a : A) → P a → Series P (ok a)
    failed :
        (query : Text) (e : E)
        → ask query start end (pos (step_of start end)) ≡ err e
        → Series P (err (range_failed query e))
    odd :
        (query type : Text)
        → ask query start end (pos (step_of start end)) ≡ ok (other type)
        → Series P (err (range_type query type))

  bind-Series :
      {A B : Type 0} (P : A → Type 0) (Q : B → Type 0) (m : Result (RangeError E) A)
      (f : A → Result (RangeError E) B)
      → Series P m
      → ((a : A) → P a → Series Q (f a))
      → Series Q (m >>= f)
  bind-Series P Q m f (answered a h) k = k a h
  bind-Series P Q m f (failed query e asked) k = failed query e asked
  bind-Series P Q m f (odd query type asked) k = odd query type asked

  abbrev Short : List (Point F) → Type 0
  Short ps = length ps ≤ 121

  points_of-Series :
      (query : Text) (answer : Result E (RangeAnswer F))
      → InWindow
      → ask query start end (pos (step_of start end)) ≡ answer
      → Series Short (points_of ask query answer)
  points_of-Series query (err e) window asked = failed query e asked
  points_of-Series query (ok (other type)) window asked = odd query type asked
  points_of-Series query (ok (matrix [])) window asked = answered [] (omega arith)
  points_of-Series query (ok (matrix (ps ∷ streams))) window asked = answered ps (
      step_of-121 (end - start) (length ps) (step_of start end) (ground arith) (ground arith)
        (window query ps streams asked))

  range_points-Series :
      (query : Text)
      → InWindow
      → Series Short (range_points ask query start end (pos (step_of start end)))
  unfolding range_points
  range_points-Series query window = points_of-Series query _ window refl

  -- When the samples of an answer to a range query are one step apart and in the window, which is no
  -- longer than a duration can be, each of the three lines of a pod's series has at most 121 points; or
  -- the result is the error of a query that the server refused or answered with another type of value.
  pub pod_series_bounds :
      InWindow
      → end - start < 2 ^ 63
      → start ≤ end
      → (quote : Text → Text) (scrape : Duration) (pod : Text)
      → Series
          (λ (s : PodSeries F).
            (length s.cpu.points ≤ 121)
            × (length s.memory.points ≤ 121)
            × (length s.net_tx.points ≤ 121))
          (pod_series ask quote scrape pod start end)
  unfolding pod_series
  pod_series_bounds window room le quote scrape pod = rw (series_step-step_of start end room le) (
      bind-Series Short _ _ _ (range_points-Series _ window) (λ cpu c.
        bind-Series Short _ _ _ (range_points-Series _ window) (λ memory m.
          bind-Series Short _ _ _ (range_points-Series _ window)
            (λ net_tx n. answered _ (c, m, n)))))
