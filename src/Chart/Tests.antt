-- ===== src/Chart/Tests.antt =====
-- Examples for the charts, over whole numbers.
use cigar.Prelude.{
  ℕ, ◌≡◌, ◌⊎◌, ◌*◌, ◌+◌, ◌<◌, ◌≤◌, refl, some, List, [], ◌∷◌, ◌++◌, arith, All, length, map,
}
use cigar.Prelude.Int.{◌-ℤ◌}
use cigar.Text.{Text, codes}
use cigar.Text.Decimal.{format_nat, digits}
use cigar.Time.{Time, sub}
use cigar.Chart.{Series, Point, unit_none}
use cigar.Chart.Downsample.{downsample, mean, concat, downsample-buckets}
use cigar.Chart.Markdown.{render_markdown}
use cigar.Chart.Markdown.Total.{Shows, render_markdown-total}
use cigar.Prelude.Result.{Result, ok}
use cigar.Chart.Svg.{bounds, unix, minf, maxf}
use cigar.Chart.Png.{
  Rgba, Image, hex_color, set_pixel, in_picture, hex_pair, line_from, draw_line, draw_points,
  draw_series, picture, render_png,
}
use cigar.Chart.Png.Lines.{Neat, set_pixel-Painted, render_png-Neat}
use cigar.Chart.Svg.Bounds.{Ordered, InBox, bounds-InBox}
use cigar.Fixtures.{whole}

abbrev point : Time → ℕ → Point ℕ
point t v = record { x = t; y = v }

-- A peak in the middle.
abbrev peak : Series ℕ
peak = record {
  label = codes "cpu";
  points = point 5_000_000_000 0 ∷ point 65_000_000_000 7 ∷ point 125_000_000_000 0 ∷ [];
}

abbrev noon : Time → Text
noon t = codes "12:00 01/02"

peak_drawn :
    render_markdown noon (codes "CPU") unit_none (peak ∷ [])
    ≡ some (
        codes "**CPU**\n\n```\n"
        ++ codes "7 | * \n"
        ++ codes "  | ||\n"
        ++ codes "  | ||\n"
        ++ codes "  | ||\n"
        ++ codes "  | ||\n"
        ++ codes "  | ||\n"
        ++ codes "  | ||\n"
        ++ codes "0 |* *\n"
        ++ codes "  +---\n"
        ++ codes "   12:00 01/02 2m\n"
        ++ codes "```\n")
unfolding render_markdown format_nat digits sub
peak_drawn = refl

abbrev five : List ℕ
five = 1 ∷ 3 ∷ 10 ∷ 20 ∷ 30 ∷ []

halved : downsample five 2 ≡ 2 ∷ 20 ∷ []
unfolding downsample
halved = refl

downsample-buckets_example :
    ((5 ≤ 2) × (downsample five 2 ≡ five))
    ⊎ ((cut : List (List ℕ)) × (2 < 5)
        × (downsample five 2 ≡ map mean cut)
        × (length cut ≡ 2)
        × All (λ b. 0 < length b) cut
        × (concat cut ≡ five))
downsample-buckets_example = downsample-buckets five 2 (omega arith)

render_markdown-total_example :
    (body : Text) × (render_markdown noon (codes "CPU") unit_none (peak ∷ [])
      ≡ some (codes "**" ++ codes "CPU" ++ codes "**\n\n```\n" ++ body))
    × Shows noon (peak ∷ []) body
render_markdown-total_example = render_markdown-total noon (codes "CPU") unit_none (peak ∷ [])

-- Every whole number is a number.
abbrev IsWhole : ℕ → Type 0
IsWhole n = Unit

whole-Ordered : Ordered IsWhole
whole-Ordered = record {
  lt_irrefl = λ a n. ground arith;
  lt_asym = λ a b m n h. ground arith;
  le_trans = λ a b c l m n h k. ground arith;
  eq_le = λ a b m n h. ground arith;
  succ_le = λ a n. ground arith;
  succ_number = λ a n. tt;
}

bounds-InBox_example :
    All (λ s. All (InBox IsWhole whole-Ordered (bounds (peak ∷ []))) s.points) (peak ∷ [])
bounds-InBox_example =
    bounds-InBox IsWhole whole-Ordered (peak ∷ []) (((tt, tt), ((tt, tt), ((tt, tt), tt))), tt)

-- Two minutes of the year 1970.
abbrev late : Time → ℕ → Point ℕ
late t v = point ((62_135_596_800 + t) * 1_000_000_000) v

abbrev rising : Series ℕ
rising = record { label = codes "cpu"; points = late 0 0 ∷ late 60 3 ∷ late 120 9 ∷ [] }

-- A text as one dot, and an image as the red of one pixel.
abbrev dab : Image → ℕ → ℕ → Text → Rgba → Image
dab img x y s c = set_pixel img x y c

abbrev red_at_start : Image → Result Text (List ℕ)
red_at_start img = ok ((img 40 180).r ∷ [])

render_png-Neat_example :
    (img : Image) × (render_png dab red_at_start 600 (codes "CPU") (rising ∷ [])
      ≡ some (red_at_start img))
    × Neat img
unfolding bounds unix ◌-ℤ◌ minf maxf
render_png-Neat_example =
    render_png-Neat (λ n h. refl) 521 (omega arith) dab (λ img x y s c. set_pixel-Painted c img x y)
      red_at_start 600 (codes "CPU") (rising ∷ []) (omega arith) ((refl, (refl, tt)), tt)

-- The first line of the palette starts in the corner of the plot.
starts_blue : render_png dab red_at_start 600 (codes "CPU") (rising ∷ []) ≡ some (ok (0x1f ∷ []))
unfolding render_png picture draw_series draw_points draw_line line_from set_pixel in_picture
    hex_color hex_pair bounds unix ◌-ℤ◌ minf maxf
starts_blue = refl
