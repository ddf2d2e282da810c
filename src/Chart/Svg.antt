-- ===== src/Chart/Svg.antt =====
-- internal/chart/chart.go: the SVG chart, its scale and its lines.
pub mod Bounds
use cigar.Prelude.{
  ℕ, zero, suc, ◌+◌, ◌*◌, ◌/◌, ◌%◌, ◌-◌, Option, none, some, List, [], ◌∷◌, ◌++◌, if◌then◌else◌,
}
use cigar.Prelude.Int.{ℤ, pos, ◌-ℤ◌}
use cigar.Text.{Text, codes}
use cigar.Text.Decimal.{format_nat}
use cigar.Time.{Time, second}
use cigar.Float.{Float}
use cigar.Chart.{Point, Series}

abbrev pub width : ℕ
width = 600

abbrev pub height : ℕ
height = 200

abbrev pad_x : ℕ
pad_x = 40

abbrev pad_y : ℕ
pad_y = 20

abbrev plot_w : ℕ
plot_w = width - 2 * pad_x

abbrev plot_h : ℕ
plot_h = height - 2 * pad_y

abbrev color_at : ℕ → Text
color_at zero = codes "#1f77b4"
color_at (suc zero) = codes "#d62728"
color_at (suc (suc zero)) = codes "#2ca02c"
color_at (suc (suc (suc i))) = codes "#9467bd"

-- `palette[i%len(palette)]`.
abbrev pub palette_of : ℕ → Text
palette_of i = color_at (i % 4)

-- `t.Unix()`: seconds since 1970; the zero time lies 62135596800 seconds before.
unfoldable pub unix : Time → ℤ
unfolding ◌-ℤ◌
unix t = pos (t / second) -ℤ pos 62_135_596_800

pub record Box (F : Type 0) : Type 0 where
  pub min_x : F
  pub max_x : F
  pub min_y : F
  pub max_y : F

module _ {F : Type 0} ⦃fl : Float F⦄ where
  unfoldable pub minf : F → F → F
  minf a b = if fl.lt a b then a else b

  unfoldable pub maxf : F → F → F
  maxf a b = if fl.lt b a then a else b

  abbrev pub x_of : Point F → F
  x_of p = fl.of_int (unix p.x)

  -- One point of the loops of `bounds`; `none` while `first` holds.
  abbrev pub grow : Option (Box F) → Point F → Option (Box F)
  grow none p = some (record { min_x = x_of p; max_x = x_of p; min_y = p.y; max_y = p.y })
  grow (some b) p = some (record {
    min_x = minf b.min_x (x_of p);
    max_x = maxf b.max_x (x_of p);
    min_y = minf b.min_y p.y;
    max_y = maxf b.max_y p.y;
  })

  unfoldable pub grow_points : Option (Box F) → List (Point F) → Option (Box F)
  unfolding minf maxf
  grow_points o [] = o
  grow_points o (p ∷ ps) = grow_points (grow o p) ps

  unfoldable pub grow_series : Option (Box F) → List (Series F) → Option (Box F)
  unfolding grow_points
  grow_series o [] = o
  grow_series o (s ∷ series) = grow_series (grow_points o s.points) series

  -- A flat axis is given a height of one.
  abbrev pub end_of : F → F → F
  end_of lo hi = if fl.eq lo hi then fl.add lo (fl.of_uint 1) else hi

  abbrev pub opened : Box F → Box F
  opened b = record {
    min_x = b.min_x;
    max_x = end_of b.min_x b.max_x;
    min_y = b.min_y;
    max_y = end_of b.min_y b.max_y;
  }

  abbrev zero_box : Box F
  zero_box = record {
    min_x = fl.of_uint 0;
    max_x = fl.of_uint 0;
    min_y = fl.of_uint 0;
    max_y = fl.of_uint 0;
  }

  abbrev pub box_or_zero : Option (Box F) → Box F
  box_or_zero none = zero_box
  box_or_zero (some b) = b

  unfoldable pub bounds : List (Series F) → Box F
  unfolding grow_series
  bounds series = opened (box_or_zero (grow_series none series))

  -- The place of a point in the picture.
  abbrev pub place_x : Box F → Point F → F
  place_x b p =
      fl.add (fl.of_uint pad_x)
        (fl.mul (fl.div (fl.sub (x_of p) b.min_x) (fl.sub b.max_x b.min_x)) (fl.of_uint plot_w))

  abbrev pub place_y : Box F → Point F → F
  place_y b p = fl.add (fl.of_uint pad_y) (
      fl.mul (fl.sub (fl.of_uint 1) (fl.div (fl.sub p.y b.min_y) (fl.sub b.max_y b.min_y)))
        (fl.of_uint plot_h))

  abbrev pub pair_text : Box F → Point F → Text
  pair_text b p = fl.format1 (place_x b p) ++ codes "," ++ fl.format1 (place_y b p)

  unfoldable pub project : Box F → List (Point F) → Text
  project b [] = []
  project b (p ∷ []) = pair_text b p
  project b (p ∷ q ∷ ps) = pair_text b p ++ codes " " ++ project b (q ∷ ps)

  -- The part of the template for each line.
  unfoldable pub svg_lines : Box F → ℕ → List (Series F) → Text
  unfolding project
  svg_lines b i [] = []
  svg_lines b i (s ∷ series) =
      codes "<polyline fill=\"none\" stroke=\""
      ++ palette_of i
      ++ codes "\" stroke-width=\"1.5\" points=\""
      ++ project b s.points
      ++ codes "\"/><text x=\"8\" y=\""
      ++ format_nat (28 + i * 14)
      ++ codes "\" fill=\""
      ++ palette_of i
      ++ codes "\">"
      ++ s.label
      ++ codes "</text>"
      ++ svg_lines b (i + 1) series

  -- `renderSVG`; the template is that of `text/template`, which escapes nothing.
  unfoldable pub render_svg : Text → List (Series F) → Text
  unfolding bounds svg_lines
  render_svg title series =
      codes "<svg xmlns=\"http://www.w3.org/2000/svg\" viewBox=\"0 0 600 200\" "
      ++ codes "width=\"600\" height=\"200\" font-family=\"sans-serif\" font-size=\"11\">"
      ++ codes "<rect x=\"0\" y=\"0\" width=\"600\" height=\"200\" fill=\"#ffffff\"/>"
      ++ codes "<text x=\"8\" y=\"14\" fill=\"#111111\">"
      ++ title
      ++ codes "</text>"
      ++ svg_lines (bounds series) 0 series
      ++ codes "</svg>"
