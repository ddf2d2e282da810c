-- ===== src/Chart/Svg/Bounds.antt =====
-- chart.go: the scale of the SVG chart takes in every point.
use cigar.Prelude.{◌≡◌, true, false, Option, none, some, List, [], ◌∷◌, All, Bool-cases, inl, inr}
use cigar.Float.{Float}
use cigar.Chart.{Point, Series}
use cigar.Chart.Svg.{
  Box, minf, maxf, x_of, grow, grow_points, grow_series, end_of, opened, box_or_zero, bounds,
}

-- The order of the numbers among the values of `float64`: the rules that hold where no value is NaN.
pub record Ordered {F : Type 0} ⦃fl : Float F⦄ (IsNumber : F → Type 0) : Type 0 where
  pub lt_irrefl : (a : F) → IsNumber a → fl.lt a a ≡ false
  pub lt_asym : (a b : F) → IsNumber a → IsNumber b → fl.lt a b ≡ true → fl.lt b a ≡ false
  -- If b is not below a, and c is not below b, then c is not below a.
  pub le_trans :
      (a b c : F)
      → IsNumber a
      → IsNumber b
      → IsNumber c
      → fl.lt b a ≡ false
      → fl.lt c b ≡ false
      → fl.lt c a ≡ false
  pub eq_le : (a b : F) → IsNumber a → IsNumber b → fl.eq a b ≡ true → fl.lt a b ≡ false
  pub succ_le : (a : F) → IsNumber a → fl.lt (fl.add a (fl.of_uint 1)) a ≡ false
  pub succ_number : (a : F) → IsNumber a → IsNumber (fl.add a (fl.of_uint 1))

module _ {F : Type 0} ⦃fl : Float F⦄ (IsNumber : F → Type 0) (ord : Ordered IsNumber) where
  -- A value in the range between two others.
  abbrev pub InRange : F → F → F → Type 0
  InRange lo hi a =
      IsNumber lo × IsNumber hi × IsNumber a × (fl.lt a lo ≡ false) × (fl.lt hi a ≡ false)

  abbrev pub InBox : Box F → Point F → Type 0
  InBox b p = InRange b.min_x b.max_x (x_of p) × InRange b.min_y b.max_y p.y

  range-one : (a : F) → IsNumber a → InRange a a a
  range-one a n = (n, n, n, ord.lt_irrefl a n, ord.lt_irrefl a n)

  -- The new least value is below neither what the old one was not above of, nor the value taken in.
  minf-le :
      (lo a c : F)
      → IsNumber lo
      → IsNumber a
      → IsNumber c
      → fl.lt a lo ≡ false
      → IsNumber (minf lo c) × (fl.lt a (minf lo c) ≡ false) × (fl.lt c (minf lo c) ≡ false)
  unfolding minf
  minf-le lo a c nl na nc l = elim (Bool-cases (fl.lt lo c)) [
    | inl old ↦ rw (old) (nl, l, ord.lt_asym lo c nl nc old)
    | inr new ↦ rw (new) (nc, ord.le_trans c lo a nc nl na new l, ord.lt_irrefl c nc)
  ]

  maxf-le :
      (hi a c : F)
      → IsNumber hi
      → IsNumber a
      → IsNumber c
      → fl.lt hi a ≡ false
      → IsNumber (maxf hi c) × (fl.lt (maxf hi c) a ≡ false) × (fl.lt (maxf hi c) c ≡ false)
  unfolding maxf
  maxf-le hi a c nh na nc h = elim (Bool-cases (fl.lt c hi)) [
    | inl old ↦ rw (old) (nh, h, ord.lt_asym c hi nc nh old)
    | inr new ↦ rw (new) (nc, ord.le_trans a hi c na nh nc h new, ord.lt_irrefl c nc)
  ]

  range-grow :
      (lo hi a c : F)
      → IsNumber c
      → InRange lo hi a
      → InRange (minf lo c) (maxf hi c) a × InRange (minf lo c) (maxf hi c) c
  range-grow lo hi a c nc (nl, nh, na, l, h) =
      let (ml, la, lc) = minf-le lo a c nl na nc l in
      let (mh, ha, hc) = maxf-le hi a c nh na nc h in ((ml, mh, na, la, ha), (ml, mh, nc, lc, hc))

  range-end : (lo hi a : F) → InRange lo hi a → InRange lo (end_of lo hi) a
  range-end lo hi a (nl, nh, na, l, h) = elim (Bool-cases (fl.eq lo hi)) [
    | inl flat ↦
        let below = ord.le_trans a hi lo na nh nl h (ord.eq_le lo hi nl nh flat) in
        let next = ord.succ_number lo nl in
        rw (flat) (
          nl,
          next,
          na,
          l,
          ord.le_trans a lo (fl.add lo (fl.of_uint 1)) na nl next below (ord.succ_le lo nl),
        )
    | inr wide ↦ rw (wide) (nl, nh, na, l, h)
  ]

  -- A point whose coordinates are numbers.
  abbrev pub HasNumbers : Point F → Type 0
  HasNumbers p = IsNumber (x_of p) × IsNumber p.y

  -- A point that the loops have taken in.
  abbrev In : Option (Box F) → Point F → Type 0
  In none q = ⊥
  In (some b) q = InBox b q

  -- A box is there only once it has taken in a point.
  abbrev Held : Option (Box F) → Type 0
  Held none = Unit
  Held (some b) = (q : Point F) × InBox b q

  grow-In : (o : Option (Box F)) (p : Point F) → HasNumbers p → Held o → In (grow o p) p
  grow-In none p (nx, ny) held = (range-one (x_of p) nx, range-one p.y ny)
  grow-In (some b) p (nx, ny) (q, (hx, hy)) = (
    (range-grow b.min_x b.max_x (x_of q) (x_of p) nx hx).1,
    (range-grow b.min_y b.max_y q.y p.y ny hy).1,
  )

  grow-keeps : (o : Option (Box F)) (p q : Point F) → HasNumbers p → In o q → In (grow o p) q
  grow-keeps none p q n h = absurd h
  grow-keeps (some b) p q (nx, ny) (hx, hy) = (
    (range-grow b.min_x b.max_x (x_of q) (x_of p) nx hx).0,
    (range-grow b.min_y b.max_y q.y p.y ny hy).0,
  )

  In-Held : (o : Option (Box F)) (p : Point F) → In o p → Held o
  In-Held none p h = tt
  In-Held (some b) p h = (p, h)

  grow_points-keeps :
      (o : Option (Box F)) (ps : List (Point F)) (q : Point F)
      → All HasNumbers ps
      → In o q
      → In (grow_points o ps) q
  unfolding grow_points
  grow_points-keeps o [] q ns h = h
  grow_points-keeps o (p ∷ ps) q (n, ns) h =
      grow_points-keeps (grow o p) ps q ns (grow-keeps o p q n h)

  grow_points-In :
      (o : Option (Box F)) (ps : List (Point F))
      → All HasNumbers ps
      → Held o
      → All (In (grow_points o ps)) ps × Held (grow_points o ps)
  unfolding grow_points
  grow_points-In o [] ns held = (tt, held)
  grow_points-In o (p ∷ ps) (n, ns) held =
      let here = grow-In o p n held in
      let (rest, held') = grow_points-In (grow o p) ps ns (In-Held (grow o p) p here) in
      ((grow_points-keeps (grow o p) ps p ns here, rest), held')

  grow_series-keeps :
      (o : Option (Box F)) (series : List (Series F)) (q : Point F)
      → All (λ s. All HasNumbers s.points) series
      → In o q
      → In (grow_series o series) q
  unfolding grow_series
  grow_series-keeps o [] q ns h = h
  grow_series-keeps o (s ∷ series) q (n, ns) h =
      grow_series-keeps (grow_points o s.points) series q ns (grow_points-keeps o s.points q n h)

  All-map :
      (P Q : Point F → Type 0) (ps : List (Point F))
      → ((p : Point F) → P p → Q p)
      → All P ps
      → All Q ps
  All-map P Q [] f h = tt
  All-map P Q (p ∷ ps) f (h, hs) = (f p h, All-map P Q ps f hs)

  grow_series-In :
      (o : Option (Box F)) (series : List (Series F))
      → All (λ s. All HasNumbers s.points) series
      → Held o
      → All (λ s. All (In (grow_series o series)) s.points) series
  unfolding grow_series
  grow_series-In o [] ns held = tt
  grow_series-In o (s ∷ series) (n, ns) held =
      let (here, held') = grow_points-In o s.points n held in
      (
        All-map (In (grow_points o s.points)) (In (grow_series (grow_points o s.points) series))
            s.points (λ q. grow_series-keeps (grow_points o s.points) series q ns) here,
        grow_series-In (grow_points o s.points) series ns held',
      )

  opened-In : (o : Option (Box F)) (p : Point F) → In o p → InBox (opened (box_or_zero o)) p
  opened-In none p h = absurd h
  opened-In (some b) p (hx, hy) =
      (range-end b.min_x b.max_x (x_of p) hx, range-end b.min_y b.max_y p.y hy)

  All-series-map :
      (P Q : Point F → Type 0) (series : List (Series F))
      → ((p : Point F) → P p → Q p)
      → All (λ s. All P s.points) series
      → All (λ s. All Q s.points) series
  All-series-map P Q [] f h = tt
  All-series-map P Q (s ∷ series) f (h, hs) =
      (All-map P Q s.points f h, All-series-map P Q series f hs)

  -- Where every coordinate is a number, every point of every series lies in the box of `bounds`, also
  -- after a flat axis was given its height: none is left of, right of, above or below it.
  pub bounds-InBox :
      (series : List (Series F))
      → All (λ s. All HasNumbers s.points) series
      → All (λ s. All (InBox (bounds series)) s.points) series
  unfolding bounds
  bounds-InBox series ns =
      All-series-map (In (grow_series none series)) (InBox (bounds series)) series
        (opened-In (grow_series none series)) (grow_series-In none series ns tt)
