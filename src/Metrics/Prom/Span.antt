-- ===== src/Metrics/Prom/Span.antt =====
-- prom.go: the time in which a pod is active, as `PodActiveSpan` has it from the samples of its memory.
use cigar.Prelude.{
  ◌*◌, ◌-◌, ◌≤◌, ◌≡◌, refl, Option, none, some, List, [], ◌∷◌, All, arith, ◌⊎◌, inl, inr,
}
use cigar.Prelude.Result.{Result, ok, err, ◌>>=◌}
use cigar.Text.{Text}
use cigar.Time.{Time, Duration, hour}
use cigar.Metrics.{Point}
use cigar.Metrics.Prom.{container_selector}
use cigar.Metrics.Prom.Range.{
  RangeAnswer, matrix, other, RangeError, range_failed, range_type, memory_query, last_time,
  span_of, points_of, range_points, pod_active_span,
}

-- Each sample is no earlier than the one before it.
abbrev pub Ascending : {F : Type 0} → List (Point F) → Type 0
Ascending [] = Unit
Ascending (p ∷ []) = Unit
Ascending (p ∷ q ∷ ps) = (p.t ≤ q.t) × Ascending (q ∷ ps)

-- A sample is at the time.
abbrev pub At : {F : Type 0} → Time → List (Point F) → Type 0
At t [] = ⊥
At t (p ∷ ps) = (p.t ≡ t) ⊎ At t ps

abbrev pub Between : {F : Type 0} → Time → Time → List (Point F) → Type 0
Between a b ps = All (λ q. (a ≤ q.t) × (q.t ≤ b)) ps

Between-widen :
    {F : Type 0} (a b c : Time) (ps : List (Point F)) → a ≤ b → Between b c ps → Between a c ps
Between-widen a b c [] le h = tt
Between-widen a b c (q ∷ ps) le ((l, u), h) = ((omega arith, u), Between-widen a b c ps le h)

last_time-Between :
    {F : Type 0} (p : Point F) (ps : List (Point F))
    → Ascending (p ∷ ps)
    → (p.t ≤ last_time p ps) × Between p.t (last_time p ps) ps
last_time-Between p [] h = (omega arith, tt)
last_time-Between p (q ∷ ps) (le, h) =
    let rest = last_time-Between q ps h in
    (omega arith, ((le, rest.0), Between-widen p.t q.t (last_time q ps) ps le rest.1))

last_time-At : {F : Type 0} (p : Point F) (ps : List (Point F)) → At (last_time p ps) (p ∷ ps)
last_time-At p [] = inl refl
last_time-At p (q ∷ ps) = inr (last_time-At q ps)

module _ {E F : Type 0} (ask : Text → Time → Time → Duration → Result E (RangeAnswer F))
    (quote : Text → Text) (scrape : Duration) (now : Time) (pod : Text) where
  -- The server's answer for the memory of the pod in the six hours before the clock.
  abbrev pub memory_answer : Result E (RangeAnswer F)
  memory_answer = ask (memory_query (container_selector (quote pod))) (now - 6 * hour) now scrape

  -- The span of an answer: from the earliest to the latest of its samples, if it has any.
  pub data Spanned : Result (RangeError E) (Option (Time × Time)) → Type 0 where
    spanned :
        {ps : List (Point F)} {streams : List (List (Point F))} {a b : Time}
        → memory_answer ≡ ok (matrix (ps ∷ streams))
        → At a ps
        → At b ps
        → Between a b ps
        → Spanned (ok (some (a, b)))
    no_samples :
        {streams : List (List (Point F))}
        → memory_answer ≡ ok (matrix streams)
        → (streams ≡ []) ⊎ ((others : List (List (Point F))) × (streams ≡ [] ∷ others))
        → Spanned (ok none)
    failed :
        {e : E}
        → memory_answer ≡ err e
        → Spanned (err (range_failed (memory_query (container_selector (quote pod))) e))
    odd :
        {type : Text}
        → memory_answer ≡ ok (other type)
        → Spanned (err (range_type (memory_query (container_selector (quote pod))) type))

  -- The first stream of the answer, if any, is in the order of time.
  abbrev pub Ordered : Result E (RangeAnswer F) → Type 0
  Ordered (err e) = Unit
  Ordered (ok (other type)) = Unit
  Ordered (ok (matrix [])) = Unit
  Ordered (ok (matrix (ps ∷ streams))) = Ascending ps

  points_of-Spanned :
      (answer : Result E (RangeAnswer F))
      → Ordered answer
      → memory_answer ≡ answer
      → Spanned (
          points_of ask (memory_query (container_selector (quote pod))) answer >>= λ points.
          ok (span_of points))
  points_of-Spanned (err e) h asked = failed asked
  points_of-Spanned (ok (other type)) h asked = odd asked
  points_of-Spanned (ok (matrix [])) h asked = no_samples asked (inl refl)
  points_of-Spanned (ok (matrix ([] ∷ streams))) h asked = no_samples asked (inr (streams, refl))
  points_of-Spanned (ok (matrix ((p ∷ ps) ∷ streams))) h asked =
      let (le, rest) = last_time-Between p ps h in
      spanned asked (inl refl) (last_time-At p ps) ((omega arith, le), rest)

  -- Where the server's samples are in the order of time, the span of a pod goes from the time of one
  -- of its samples to that of another, and every sample lies in it; there is none where there are no
  -- samples in the six hours before the clock; and an error is the server's, or another type of answer.
  pub pod_active_span_bounds :
      Ordered memory_answer → Spanned (pod_active_span ask quote scrape now pod)
  unfolding pod_active_span range_points
  pod_active_span_bounds h = points_of-Spanned memory_answer h refl
