-- ===== src/Chart/Grid.antt =====
-- internal/chart/markdown.go: the grid of characters, whose indices are checked at run time; `none`
-- stands for the panic of an index out of range.
use cigar.Prelude.{
  ℕ, zero, suc, ◌+◌, ◌-◌, ◌<◌, ◌≤◌, ◌≡◌, refl, ap, Bool, true, false, Option, none, some, List, [],
  ◌∷◌, arith, ◌==◌, if◌then◌else◌, get_elem?, length, All, ◌>>=◌, min, max,
}
use cigar.Text.{Text}

abbrev pub Grid : Type 0
Grid = List Text

-- `xs[i] = v`.
unfoldable pub assign : {A : Type 0} → List A → ℕ → A → Option (List A)
assign [] i v = none
assign (x ∷ xs) zero v = some (v ∷ xs)
assign (x ∷ xs) (suc i) v = do ys ← assign xs i v; some (x ∷ ys)

-- `grid[r][x] = m`.
unfoldable pub put : Grid → ℕ → ℕ → ℕ → Option Grid
unfolding assign
put grid r x m = do row ← get_elem? grid r; row' ← assign row x m; assign grid r row'

-- `if grid[rr][x] == ' ' { grid[rr][x] = '|' }`.
abbrev pub put_bar : Grid → ℕ → ℕ → Option Grid
put_bar grid rr x = do
  row ← get_elem? grid rr
  c ← get_elem? row x
  if c == b' ' then put grid rr x b'|' else some grid

-- `for rr := lo; rr < hi; rr++`, with the rounds that are left.
unfoldable pub bars : ℕ → Grid → ℕ → ℕ → Option Grid
bars zero grid rr x = some grid
bars (suc left) grid rr x = do grid' ← put_bar grid rr x; bars left grid' (rr + 1) x

abbrev pub connect : Grid → ℕ → Option ℕ → ℕ → Option Grid
connect grid r none x = some grid
connect grid r (some prev) x = let lo = min r prev + 1 in bars (max r prev - lo) grid lo x

-- A column of one series: its row, and the row before, if there is one.
unfoldable pub draw : Grid → ℕ → ℕ → Option ℕ → ℕ → Option Grid
unfolding bars put
draw grid m r prev x = do grid' ← put grid r x m; connect grid' r prev x

-- The shape of the grid.
pub record Sized (rows cols : ℕ) (grid : Grid) : Type 0 where
  pub height : length grid ≡ rows
  pub widths : All (λ row. length row ≡ cols) grid

-- A step that neither panics nor changes the shape.
abbrev pub Keeps : ℕ → ℕ → Option Grid → Type 0
Keeps rows cols o = (g : Grid) × (o ≡ some g) × Sized rows cols g

assign-length :
    {A : Type 0} (xs : List A) (i : ℕ) (v : A)
    → i < length xs
    → (ys : List A) × (assign xs i v ≡ some ys) × (length ys ≡ length xs)
unfolding assign
assign-length [] i v h = absurd (omega arith)
assign-length (x ∷ xs) zero v h = (v ∷ xs, refl, refl)
assign-length (x ∷ xs) (suc i) v h =
    let (ys, e, l) = assign-length xs i v (omega arith) in (x ∷ ys, rw (e) refl, ap suc l)

assign-All :
    {A : Type 0} (P : A → Type 0) (xs : List A) (i : ℕ) (v : A)
    → i < length xs
    → P v
    → All P xs
    → (ys : List A) × (assign xs i v ≡ some ys) × (length ys ≡ length xs) × All P ys
unfolding assign
assign-All P [] i v h p ps = absurd (omega arith)
assign-All P (x ∷ xs) zero v h p (q, qs) = (v ∷ xs, refl, refl, (p, qs))
assign-All P (x ∷ xs) (suc i) v h p (q, qs) =
    let (ys, e, l, r) = assign-All P xs i v (omega arith) p qs in
    (x ∷ ys, rw (e) refl, ap suc l, (q, r))

get-All :
    {A : Type 0} (P : A → Type 0) (xs : List A) (i : ℕ)
    → i < length xs
    → All P xs
    → (x : A) × (get_elem? xs i ≡ some x) × P x
get-All P [] i h ps = absurd (omega arith)
get-All P (x ∷ xs) zero h (p, ps) = (x, refl, p)
get-All P (x ∷ xs) (suc i) h (p, ps) = get-All P xs i (omega arith) ps

Units : {A : Type 0} (xs : List A) → All (λ x. Unit {0}) xs
Units [] = tt
Units (x ∷ xs) = (tt, Units xs)

module _ (rows cols : ℕ) where
  put-Keeps :
      (grid : Grid) (r x m : ℕ)
      → r < rows
      → x < cols
      → Sized rows cols grid
      → Keeps rows cols (put grid r x m)
  unfolding put
  put-Keeps grid r x m hr hx s =
      let (row, e, w) =
        get-All (λ row. length row ≡ cols) grid r (omega (arith, s.height)) s.widths in
      let (row', e', l) = assign-length row x m (omega arith) in
      let (g, e'', h, ws) =
        assign-All (λ row. length row ≡ cols) grid r row' (omega (arith, s.height)) (omega arith)
          s.widths in
      (g, rw (e, e') e'', record { height = omega (arith, s.height); widths = ws })

  if-Keeps :
      (b : Bool) (m n : Option Grid)
      → Keeps rows cols m
      → Keeps rows cols n
      → Keeps rows cols (if b then m else n)
  if-Keeps true m n h k = h
  if-Keeps false m n h k = k

  put_bar-Keeps :
      (grid : Grid) (r x : ℕ)
      → r < rows
      → x < cols
      → Sized rows cols grid
      → Keeps rows cols (put_bar grid r x)
  put_bar-Keeps grid r x hr hx s =
      let (row, e, w) =
        get-All (λ row. length row ≡ cols) grid r (omega (arith, s.height)) s.widths in
      let (c, e', u) = get-All (λ c. Unit {0}) row x (omega arith) (Units row) in
      rw (e, e')
        (if-Keeps (c == b' ') (put grid r x b'|') (some grid) (put-Keeps grid r x b'|' hr hx s)
          (grid, refl, s))

  bars-Keeps :
      (left : ℕ) (grid : Grid) (rr x : ℕ)
      → rr + left ≤ rows
      → x < cols
      → Sized rows cols grid
      → Keeps rows cols (bars left grid rr x)
  unfolding bars
  bars-Keeps zero grid rr x h hx s = (grid, refl, s)
  bars-Keeps (suc left) grid rr x h hx s =
      let (g, e, s') = put_bar-Keeps grid rr x (omega arith) hx s in
      let (g', e', s'') = bars-Keeps left g (rr + 1) x (omega arith) hx s' in (g', rw (e) e', s'')

  connect-Keeps :
      (grid : Grid) (r : ℕ) (prev : Option ℕ) (x : ℕ)
      → r < rows
      → ((p : ℕ) → prev ≡ some p → p < rows)
      → x < cols
      → Sized rows cols grid
      → Keeps rows cols (connect grid r prev x)
  connect-Keeps grid r none x hr hp hx s = (grid, refl, s)
  connect-Keeps grid r (some p) x hr hp hx s =
      let below : p < rows = hp p refl in
      bars-Keeps (max r p - (min r p + 1)) grid (min r p + 1) x (omega arith) hx s

  -- A column of a series inside the grid is drawn without an index out of range, the bars that join it
  -- to the column before included.
  pub draw-Keeps :
      (grid : Grid) (m r : ℕ) (prev : Option ℕ) (x : ℕ)
      → r < rows
      → ((p : ℕ) → prev ≡ some p → p < rows)
      → x < cols
      → Sized rows cols grid
      → Keeps rows cols (draw grid m r prev x)
  unfolding draw
  draw-Keeps grid m r prev x hr hp hx s =
      let (g, e, s') = put-Keeps grid r x m hr hx s in rw (e) (connect-Keeps g r prev x hr hp hx s')
