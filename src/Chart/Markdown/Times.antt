-- ===== src/Chart/Markdown/Times.antt =====
-- markdown.go: the times on the axis are the first and the last of all the points.
use cigar.Prelude.{
  ◌≤◌, ◌≡◌, refl, sym, ap, ◌∙◌, Bool, true, false, List, [], ◌∷◌, ◌++◌, ltb, any, ◌==◌, arith, All,
  if◌then◌else◌, ◌⊎◌, inl,
}
use cigar.Time.{Time}
use cigar.Chart.{Point, Series}
use cigar.Chart.Markdown.{Span, is_some_points, span_step, span_points, span_series}

module _ {F : Type 0} where
  abbrev pub all_points : List (Series F) → List (Point F)
  all_points [] = []
  all_points (s ∷ series) = s.points ++ all_points series

  -- The least time from `t` on, and the greatest.
  abbrev pub least : Time → List (Point F) → Time
  least t [] = t
  least t (p ∷ ps) = least (if ltb p.x t then p.x else t) ps

  abbrev pub greatest : Time → List (Point F) → Time
  greatest t [] = t
  greatest t (p ∷ ps) = greatest (if ltb t p.x then p.x else t) ps

  folded : Span → List (Point F) → Span
  folded s ps = record { min_t = least s.min_t ps; max_t = greatest s.max_t ps }

  folded-append :
      (s : Span) (ps qs : List (Point F)) → folded s (ps ++ qs) ≡ folded (folded s ps) qs
  unfolding folded
  folded-append s [] qs = refl
  folded-append s (p ∷ ps) qs =
      folded-append
        (record {
          min_t = if ltb p.x s.min_t then p.x else s.min_t;
          max_t = if ltb s.max_t p.x then p.x else s.max_t;
        })
        ps qs

  span_points-folded :
      (have : Bool) (s : Span) (ps : List (Point F)) → span_points have false s ps ≡ folded s ps
  unfolding span_points folded
  span_points-folded true s [] = refl
  span_points-folded false s [] = refl
  span_points-folded true s (p ∷ ps) = span_points-folded true (span_step true false s p) ps
  span_points-folded false s (p ∷ ps) = span_points-folded false (span_step false false s p) ps

  span_points-seen : (s : Span) (ps : List (Point F)) → span_points true true s ps ≡ folded s ps
  unfolding span_points folded
  span_points-seen s [] = refl
  span_points-seen s (p ∷ ps) = span_points-folded true (span_step true true s p) ps

  span_series-seen :
      (s : Span) (series : List (Series F))
      → span_series true s series ≡ folded s (all_points series)
  unfolding span_series folded
  span_series-seen s [] = refl
  span_series-seen s (l ∷ ls) =
      span_series-seen (span_points true true s l.points) ls
      ∙ ap (λ t. folded t (all_points ls)) (span_points-seen s l.points)
      ∙ sym (folded-append s l.points (all_points ls))

  -- From the first point on: its time takes the place of the least one.
  abbrev opened : Span → Point F → Span
  opened s p = record { min_t = p.x; max_t = if ltb s.max_t p.x then p.x else s.max_t }

  head_eq : (q p : Point F) (qs ps : List (Point F)) → q ∷ qs ≡ p ∷ ps → (q ≡ p) × (qs ≡ ps)
  head_eq q p qs ps e = (cc, cc)

  series-first :
      (s : Span) (qs : List (Point F)) (ls : List (Series F)) (p : Point F) (ps : List (Point F))
      → (all_points ls ≡ p ∷ ps → span_series false s ls ≡ folded (opened s p) ps)
      → qs ++ all_points ls ≡ p ∷ ps
      → span_series (is_some_points qs) (span_points false true s qs) ls ≡ folded (opened s p) ps
  unfolding span_points
  series-first s [] ls p ps ih e = ih e
  series-first s (q ∷ qs) ls p ps ih e =
      let (same, rest) = head_eq q p (qs ++ all_points ls) ps e in
      span_series-seen (span_points false false (opened s q) qs) ls
      ∙ ap (λ t. folded t (all_points ls)) (span_points-folded false (opened s q) qs)
      ∙ sym (folded-append (opened s q) qs (all_points ls))
      ∙ ap (folded (opened s q)) rest
      ∙ ap (λ r. folded (opened s r) ps) same

  span_series-first :
      (s : Span) (series : List (Series F)) (p : Point F) (ps : List (Point F))
      → all_points series ≡ p ∷ ps
      → span_series false s series ≡ folded (opened s p) ps
  unfolding span_series
  span_series-first s [] p ps e = cc
  span_series-first s (l ∷ ls) p ps e =
      series-first s l.points ls p ps (span_series-first s ls p ps) e

  least-le :
      (t : Time) (ps : List (Point F))
      → (least t ps ≤ t)
        × All (λ p. least t ps ≤ p.x) ps
        × ((least t ps ≡ t) ⊎ (any (λ p. p.x == least t ps) ps ≡ true))
  least-le t [] = (omega arith, tt, inl refl)
  least-le t (p ∷ ps) = ground (arith, least-le (if ltb p.x t then p.x else t) ps)

  greatest-le :
      (t : Time) (ps : List (Point F))
      → (t ≤ greatest t ps)
        × All (λ p. p.x ≤ greatest t ps) ps
        × ((greatest t ps ≡ t) ⊎ (any (λ p. p.x == greatest t ps) ps ≡ true))
  greatest-le t [] = (omega arith, tt, inl refl)
  greatest-le t (p ∷ ps) = ground (arith, greatest-le (if ltb t p.x then p.x else t) ps)

  All-both :
      (P Q : Point F → Type 0) (ps : List (Point F)) → All P ps → All Q ps → All (λ p. P p × Q p) ps
  All-both P Q [] h k = tt
  All-both P Q (p ∷ ps) (h, hs) (k, ks) = ((h, k), All-both P Q ps hs ks)

  -- The times lie in the span, and both its ends are among them.
  abbrev pub Spans : List (Point F) → Span → Type 0
  Spans ps s =
      All (λ p. (s.min_t ≤ p.x) × (p.x ≤ s.max_t)) ps
      × (any (λ p. p.x == s.min_t) ps ≡ true)
      × (any (λ p. p.x == s.max_t) ps ≡ true)

  extremes-Span :
      (p : Point F) (ps : List (Point F))
      → Spans (p ∷ ps) (record { min_t = least p.x ps; max_t = greatest p.x ps })
  extremes-Span p ps =
      let (la, lb, lc) = least-le p.x ps in
      let (ga, gb, gc) = greatest-le p.x ps in
      (
        ((la, ga), All-both (λ q. least p.x ps ≤ q.x) (λ q. q.x ≤ greatest p.x ps) ps lb gb),
        ground (arith, lc),
        ground (arith, gc),
      )

  opened-extremes :
      (p : Point F) (ps : List (Point F))
      → folded (opened (record { min_t = 0; max_t = 0 }) p) ps
        ≡ record { min_t = least p.x ps; max_t = greatest p.x ps }
  unfolding folded
  opened-extremes p ps =
      let first : (if ltb 0 p.x then p.x else 0) ≡ p.x = ground arith in
      ap (λ t. record { min_t = least p.x ps; max_t = greatest t ps }) first

  -- The axis goes from the earliest time of all the points of all the series to the latest: every point
  -- lies between the two, and both are the time of a point. There has to be a point.
  span_series-Spans :
      (series : List (Series F)) (p : Point F) (ps : List (Point F))
      → all_points series ≡ p ∷ ps
      → Spans (all_points series) (span_series false (record { min_t = 0; max_t = 0 }) series)
  span_series-Spans series p ps e =
      let same =
        span_series-first (record { min_t = 0; max_t = 0 }) series p ps e ∙ opened-extremes p ps in
      rw (same, e) (extremes-Span p ps)
