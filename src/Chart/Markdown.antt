-- ===== src/Chart/Markdown.antt =====
-- internal/chart/markdown.go: `renderMarkdown`, the line chart in text. The format of a time of day is
-- an argument, since it depends on the time zone; `none` stands for a panic.
pub mod Times
pub mod Total
use cigar.Prelude.{
  ℕ, zero, suc, ◌+◌, ◌-◌, ◌%◌, ◌==◌, ltb, Bool, true, false, not, ◌&&◌, ◌||◌, Option, none, some,
  List, [], ◌∷◌, ◌++◌, map, any, length, if◌then◌else◌, ◌>>=◌, min, max,
}
use cigar.Prelude.Int.{pos_part}
use cigar.Text.{Text, codes}
use cigar.Time.{Time, sub}
use cigar.Float.{Float}
use cigar.Correlate.Trace.{byte_length}
use cigar.Chart.{Point, Series, ValueUnit}
use cigar.Chart.Values.{format_value, human_duration}
use cigar.Chart.Downsample.{downsample}
use cigar.Chart.Grid.{Grid, draw}

abbrev pub md_rows : ℕ
md_rows = 8

abbrev pub md_cols : ℕ
md_cols = 67

-- `mdMarkers[i%len(mdMarkers)]`.
abbrev marker_at : ℕ → ℕ
marker_at zero = b'*'
marker_at (suc zero) = b'+'
marker_at (suc (suc zero)) = b'x'
marker_at (suc (suc (suc i))) = b'o'

abbrev pub marker_of : ℕ → ℕ
marker_of i = marker_at (i % 4)

abbrev pub copies : ℕ → ℕ → Text
copies zero c = []
copies (suc n) c = c ∷ copies n c

-- `%*s`.
abbrev pub pad_left : ℕ → Text → Text
pad_left w s = copies (w - length s) b' ' ++ s

-- The times that the loop over the points keeps.
pub record Span : Type 0 where
  pub min_t : Time
  pub max_t : Time

abbrev pub is_some_points : {A : Type 0} → List A → Bool
is_some_points [] = false
is_some_points (p ∷ ps) = true

module _ {F : Type 0} where
  -- One point: whether data was seen in an earlier series, and whether it is the first of its own.
  abbrev pub span_step : Bool → Bool → Span → Point F → Span
  span_step have first s p = record {
    min_t = if (not have && first) || ltb p.x s.min_t then p.x else s.min_t;
    max_t = if ltb s.max_t p.x then p.x else s.max_t;
  }

  unfoldable pub span_points : Bool → Bool → Span → List (Point F) → Span
  span_points have first s [] = s
  span_points have first s (p ∷ ps) = span_points have false (span_step have first s p) ps

  unfoldable pub span_series : Bool → Span → List (Series F) → Span
  unfolding span_points
  span_series have s [] = s
  span_series have s (l ∷ ls) =
      span_series (have || is_some_points l.points) (span_points have true s l.points) ls

  abbrev pub widest : List (List F) → ℕ
  widest [] = 0
  widest (c ∷ cs) = max (length c) (widest cs)

module _ {F : Type 0} ⦃fl : Float F⦄ where
  abbrev pub columns : List (Series F) → List (List F)
  columns series = map (λ s. downsample (map (λ p. p.y) s.points) md_cols) series

  -- The least and the greatest value, from the two infinities on.
  abbrev pub range_column : List F → F × F → F × F
  range_column [] acc = acc
  range_column (v ∷ vs) (lo, hi) = range_column vs (fl.min lo v, fl.max hi v)

  abbrev pub range_of : List (List F) → F × F → F × F
  range_of [] acc = acc
  range_of (c ∷ cs) acc = range_of cs (range_column c acc)

  abbrev pub heightened : F × F → F × F
  heightened (lo, hi) = if fl.eq lo hi then (lo, fl.add lo (fl.of_uint 1)) else (lo, hi)

  abbrev pub row_of : F × F → F → ℕ
  row_of (vmin, vmax) v =
      let share = fl.div (fl.sub vmax v) (fl.sub vmax vmin) in
      min (pos_part (fl.to_int (fl.round (fl.mul share (fl.of_uint (md_rows - 1)))))) (md_rows - 1)

  -- The columns of a series from `x` on, with the row before.
  unfoldable pub draw_columns : F × F → ℕ → Grid → Option ℕ → ℕ → List F → Option Grid
  unfolding draw
  draw_columns range m grid prev x [] = some grid
  draw_columns range m grid prev x (v ∷ vs) = do
    grid' ← draw grid m (row_of range v) prev x
    draw_columns range m grid' (some (row_of range v)) (x + 1) vs

  unfoldable pub draw_all : F × F → ℕ → Grid → List (List F) → Option Grid
  unfolding draw_columns
  draw_all range i grid [] = some grid
  draw_all range i grid (c ∷ cs) = do
    grid' ← draw_columns range (marker_of i) grid none 0 c
    draw_all range (i + 1) grid' cs

abbrev pub blank_grid : ℕ → ℕ → Grid
blank_grid zero width = []
blank_grid (suc n) width = copies width b' ' ∷ blank_grid n width

-- The rows with their labels, from row `r` on.
unfoldable pub labelled : ℕ → Text → Text → ℕ → Grid → Text
labelled gutter top bottom r [] = []
labelled gutter top bottom r (row ∷ rows) =
    pad_left gutter (if r == 0 then top else if r == md_rows - 1 then bottom else [])
    ++ codes " |"
    ++ row
    ++ codes "\n"
    ++ labelled gutter top bottom (r + 1) rows

abbrev pub legend_entry : {F : Type 0} → ℕ → Series F → Text
legend_entry i s = codes "`" ++ marker_of i ∷ codes "` " ++ s.label

abbrev pub legend_from : {F : Type 0} → ℕ → List (Series F) → Text
legend_from i [] = []
legend_from i (s ∷ []) = legend_entry i s
legend_from i (s ∷ t ∷ series) = legend_entry i s ++ codes " · " ++ legend_from (i + 1) (t ∷ series)

abbrev pub legend : {F : Type 0} → List (Series F) → Text
legend [] = []
legend (s ∷ []) = []
legend (s ∷ t ∷ series) = legend_from 0 (s ∷ t ∷ series) ++ codes "\n"

module _ (clock : Time → Text) where
  abbrev pub axis : ℕ → ℕ → Span → Text
  axis gutter width s =
      let start = clock s.min_t in
      let dur = human_duration (sub s.max_t s.min_t) in
      let gap = max (width - byte_length start - byte_length dur) 1 in
      pad_left gutter []
      ++ codes " +"
      ++ copies width b'-'
      ++ codes "\n"
      ++ pad_left (gutter + 2) []
      ++ start
      ++ copies gap b' '
      ++ dur
      ++ codes "\n```\n"

module _ {F : Type 0} ⦃fl : Float F⦄ (clock : Time → Text) where
  abbrev pub plot : Grid → Text → Text → ℕ → List (Series F) → Text
  plot grid top bottom width series =
      let gutter = max (byte_length top) (byte_length bottom) in
      labelled gutter top bottom 0 grid
      ++ axis clock gutter width (span_series false (record { min_t = 0; max_t = 0 }) series)
      ++ legend series

  -- The chart of the columns, of which one is not empty.
  abbrev pub chart_of : ValueUnit → List (Series F) → List (List F) → F × F → Option Text
  chart_of unit series cols range = do
    grid ← draw_all range 0 (blank_grid md_rows (widest cols)) cols
    top ← format_value F range.1 unit
    bottom ← format_value F range.0 unit
    some (plot grid top bottom (widest cols) series)

  unfoldable pub render_markdown : Text → ValueUnit → List (Series F) → Option Text
  unfolding downsample draw_all format_value labelled span_series human_duration
  render_markdown title unit series = do
    let cols = columns series
    body ←
        if any is_some_points cols
        then chart_of unit series cols (heightened (range_of cols (fl.inf, fl.neg_inf)))
        else some (codes "(no data)\n```\n")
    some (codes "**" ++ title ++ codes "**\n\n```\n" ++ body)
