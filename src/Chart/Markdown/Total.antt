-- ===== src/Chart/Markdown/Total.antt =====
-- markdown.go: `renderMarkdown` returns a chart for every series, with no index out of range.
use cigar.Prelude.{
  ℕ, zero, suc, ◌+◌, ◌<◌, ◌≤◌, ◌≡◌, refl, ap, sym, ◌∙◌, ◌⊎◌, any, map, true, false, Option, none,
  some, List, [], ◌∷◌, ◌++◌, arith, length, Bool-cases, inl, inr,
}
use cigar.Text.{Text, codes}
use cigar.Time.{Time}
use cigar.Float.{Float}
use cigar.Chart.{Point, Series, ValueUnit}
use cigar.Chart.Values.{format_value-total}
use cigar.Chart.Downsample.{downsample, downsample_some, length-downsample-le}
use cigar.Chart.Grid.{Grid, Sized, Keeps, draw-Keeps}
use cigar.Chart.Markdown.{
  md_rows, md_cols, is_some_points, copies, blank_grid, widest, columns, row_of, draw_columns,
  draw_all, marker_of, heightened, range_of, plot, render_markdown,
}

length-copies : (n c : ℕ) → length (copies n c) ≡ n
length-copies zero c = refl
length-copies (suc n) c = ap suc (length-copies n c)

blank_grid-Sized : (rows cols : ℕ) → Sized rows cols (blank_grid rows cols)
blank_grid-Sized zero cols = record { height = refl; widths = tt }
blank_grid-Sized (suc n) cols =
    let s = blank_grid-Sized n cols in
    record { height = ap suc s.height; widths = (length-copies cols b' ', s.widths) }

module _ {F : Type 0} ⦃fl : Float F⦄ where
  draw_columns-Keeps :
      (range : F × F) (m cols : ℕ) (grid : Grid) (prev : Option ℕ) (x : ℕ) (vs : List F)
      → ((p : ℕ) → prev ≡ some p → p < md_rows)
      → x + length vs ≤ cols
      → Sized md_rows cols grid
      → Keeps md_rows cols (draw_columns range m grid prev x vs)
  unfolding draw_columns
  draw_columns-Keeps range m cols grid prev x [] hp h s = (grid, refl, s)
  draw_columns-Keeps range m cols grid prev x (v ∷ vs) hp h s =
      let inside : row_of range v < md_rows = omega arith in
      let (g, e, s') =
        draw-Keeps md_rows cols grid m (row_of range v) prev x inside hp (omega arith) s in
      let (g', e', s'') =
        draw_columns-Keeps range m cols g (some (row_of range v)) (x + 1) vs
          (λ p q. ground (arith, q)) (omega arith) s' in
      (g', rw (e) e', s'')

  draw_all-Keeps :
      (range : F × F) (i cols : ℕ) (grid : Grid) (cs : List (List F))
      → widest cs ≤ cols
      → Sized md_rows cols grid
      → Keeps md_rows cols (draw_all range i grid cs)
  unfolding draw_all
  draw_all-Keeps range i cols grid [] h s = (grid, refl, s)
  draw_all-Keeps range i cols grid (c ∷ cs) h s =
      let (g, e, s') =
        draw_columns-Keeps range (marker_of i) cols grid none 0 c (λ p q. cc) (omega arith) s in
      let (g', e', s'') = draw_all-Keeps range (i + 1) cols g cs (omega arith) s' in
      (g', rw (e) e', s'')

  any-widest : (cs : List (List F)) → any is_some_points cs ≡ true → 0 < widest cs
  any-widest [] h = cc
  any-widest ([] ∷ cs) h = omega (arith, any-widest cs h)
  any-widest ((v ∷ vs) ∷ cs) h = omega arith

  widest-columns : (series : List (Series F)) → widest (columns series) ≤ md_cols
  widest-columns [] = omega arith
  widest-columns (s ∷ series) =
      omega (arith, length-downsample-le (map (λ p. p.y) s.points) md_cols, widest-columns series)

  some_of_length : (xs : List F) → 0 < length xs → is_some_points xs ≡ true
  some_of_length [] h = absurd (omega arith)
  some_of_length (x ∷ xs) h = refl

  -- A series has a column exactly if it has a point.
  column_of :
      (points : List (Point F))
      → is_some_points (downsample (map (λ p. p.y) points) md_cols) ≡ is_some_points points
  unfolding downsample
  column_of [] = refl
  column_of (p ∷ points) =
      some_of_length _
        (downsample_some (p.y ∷ map (λ p. p.y) points) md_cols (omega arith) (omega arith))

  any-columns :
      (series : List (Series F))
      → any is_some_points (columns series) ≡ any (λ s. is_some_points s.points) series
  any-columns [] = refl
  any-columns (s ∷ series) = rw (column_of s.points, any-columns series) refl

  -- The text of a chart: the notice, or the plot of a grid of eight rows.
  abbrev pub Shows : (Time → Text) → List (Series F) → Text → Type 0
  Shows clock series body =
      ((any (λ s. is_some_points s.points) series ≡ false) × (body ≡ codes "(no data)\n```\n"))
      ⊎ ((grid : Grid) × (top : Text) × (bottom : Text) × (any (λ s. is_some_points s.points) series
            ≡ true)
          × (0 < widest (columns series))
          × (widest (columns series) ≤ md_cols)
          × Sized md_rows (widest (columns series)) grid
          × (body ≡ plot clock grid top bottom (widest (columns series)) series))

  -- Whatever the series and the float operations are, the text chart is made: no row or column of the
  -- grid and no unit's letter is out of range. Under the title it says that there is no data exactly
  -- if no series has a point; or else it shows a grid of eight rows, each as wide as the longest of
  -- the series after they were cut to 67 columns.
  pub render_markdown-total :
      (clock : Time → Text) (title : Text) (unit : ValueUnit) (series : List (Series F))
      → (body : Text) × (render_markdown clock title unit series
          ≡ some (codes "**" ++ title ++ codes "**\n\n```\n" ++ body))
        × Shows clock series body
  unfolding render_markdown
  render_markdown-total clock title unit series =
      elim (Bool-cases (any is_some_points (columns series))) [
        | inl some_data ↦
            let range = heightened (range_of (columns series) (fl.inf, fl.neg_inf)) in
            let w = widest (columns series) in
            let (g, e, s) =
              draw_all-Keeps range 0 w (blank_grid md_rows w) (columns series) (omega arith)
                (blank_grid-Sized md_rows w) in
            let (top, et) = format_value-total F range.1 unit in
            let (bottom, eb) = format_value-total F range.0 unit in
            (
              plot clock g top bottom w series,
              rw (some_data, e, et, eb) refl,
              inr (
                g,
                top,
                bottom,
                sym (any-columns series) ∙ some_data,
                any-widest (columns series) some_data,
                widest-columns series,
                s,
                refl,
              ),
            )
        | inr no_data ↦ (
          codes "(no data)\n```\n",
          rw (no_data) refl,
          inl (sym (any-columns series) ∙ no_data, refl),
        )
      ]
