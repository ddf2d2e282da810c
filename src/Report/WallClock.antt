-- ===== src/Report/WallClock.antt =====
-- The wall-clock duration is the span from the earliest start to the latest finish.
use cigar.Prelude.{
  ℕ, ◌-◌, ◌^◌, ◌≡◌, ◌≢◌, refl, false, not, ◌||◌, Option, none, some, List, [], ◌∷◌, arith, leb,
  if◌then◌else◌, filter, min, max, Bool-cases, inl, inr,
}
use cigar.Time.{Time, is_zero}
use cigar.Report.{JobReport, never_ran, earlier, later, span_from, wall_clock}

max_zero : (t : Time) → max 0 t ≡ t
max_zero t = omega arith

is_zero-ne : (t : Time) → t ≢ 0 → is_zero t ≡ false
is_zero-ne t h = ground arith

abbrev length_of : Time → Time → Option ℕ
length_of start end =
    if is_zero start || leb end start then none else some (min (end - start) (2 ^ 63 - 1))

module _ {F : Type 0} where
  -- The jobs that ran, and the bounds of their windows.
  abbrev pub ran : List (JobReport F) → List (JobReport F)
  ran = filter (λ j. not (never_ran j))

  abbrev pub min_start : Time → List (JobReport F) → Time
  min_start t [] = t
  min_start t (j ∷ jobs) = min_start (min t j.started_at) jobs

  abbrev pub max_finish : Time → List (JobReport F) → Time
  max_finish t [] = t
  max_finish t (j ∷ jobs) = max_finish (max t j.finished_at) jobs

  -- The span of the jobs that ran, by the bounds of their windows.
  abbrev pub wall_span : List (JobReport F) → Option ℕ
  wall_span [] = none
  wall_span (j ∷ jobs) =
      let start = min_start j.started_at jobs in
      let end = max_finish j.finished_at jobs in
      if leb end start then none else some (min (end - start) (2 ^ 63 - 1))

  abbrev span_of : List (JobReport F) → Time × Time
  span_of [] = (0, 0)
  span_of (j ∷ jobs) = (min_start j.started_at jobs, max_finish j.finished_at jobs)

  earlier-min :
      (start : Time) (j : JobReport F) → start ≢ 0 → earlier start j ≡ min start j.started_at
  earlier-min start j h = ground arith

  later-max : (end : Time) (j : JobReport F) → later end j ≡ max end j.finished_at
  later-max end j = ground arith

  started : (j : JobReport F) → never_ran j ≡ false → j.started_at ≢ 0
  started j e = ground arith

  min_ne_zero :
      (start : Time) (j : JobReport F)
      → start ≢ 0
      → never_ran j ≡ false
      → min start j.started_at ≢ 0
  min_ne_zero start j h e = ground arith

  min_start_pos : (t : Time) (jobs : List (JobReport F)) → t ≢ 0 → min_start t (ran jobs) ≢ 0
  min_start_pos t [] h = h
  min_start_pos t (j ∷ jobs) h = elim (Bool-cases (never_ran j)) [
    | inl e ↦ rw e (min_start_pos t jobs h)
    | inr e ↦ rw e (min_start_pos (min t j.started_at) jobs (min_ne_zero t j h e))
  ]

  span_from-ran :
      (start end : Time) (jobs : List (JobReport F))
      → start ≢ 0
      → span_from start end jobs ≡ (min_start start (ran jobs), max_finish end (ran jobs))
  unfolding span_from
  span_from-ran start end [] h = refl
  span_from-ran start end (j ∷ jobs) h = elim (Bool-cases (never_ran j)) [
    | inl e ↦ rw e (span_from-ran start end jobs h)
    | inr e ↦ rw e (
        rw (earlier-min start j h, later-max end j)
          (span_from-ran (min start j.started_at) (max end j.finished_at) jobs
            (min_ne_zero start j h e)))
  ]

  span_from-start : (jobs : List (JobReport F)) → span_from 0 0 jobs ≡ span_of (ran jobs)
  unfolding span_from
  span_from-start [] = refl
  span_from-start (j ∷ jobs) = elim (Bool-cases (never_ran j)) [
    | inl e ↦ rw e (span_from-start jobs)
    | inr e ↦ rw e (
        rw (later-max 0 j, max_zero j.finished_at)
          (span_from-ran j.started_at j.finished_at jobs (started j e)))
  ]

  length_of-span :
      (jobs : List (JobReport F))
      → length_of (span_of (ran jobs)).0 (span_of (ran jobs)).1 ≡ wall_span (ran jobs)
  length_of-span [] = refl
  length_of-span (j ∷ jobs) = elim (Bool-cases (never_ran j)) [
    | inl e ↦ rw e (length_of-span jobs)
    | inr e ↦ rw e (rw (is_zero-ne _ (min_start_pos j.started_at jobs (started j e))))
  ]

  -- The loop over the jobs computes the span from the earliest start to the latest finish of the
  -- jobs that ran; it gives nothing if none ran or the span is not positive.
  pub wall_clock-wall_span : (jobs : List (JobReport F)) → wall_clock jobs ≡ wall_span (ran jobs)
  unfolding wall_clock
  wall_clock-wall_span jobs = rw (span_from-start jobs) (length_of-span jobs)
