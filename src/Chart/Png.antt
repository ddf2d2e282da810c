-- ===== src/Chart/Png.antt =====
-- internal/chart/png.go: the chart as an image of 600 times 200 pixels. The text drawn with the font
-- of golang.org/x/image and the encoding as PNG are arguments.
pub mod Lines
use cigar.Prelude.{
  ℕ, zero, suc, ◌+◌, ◌*◌, ◌-◌, Bool, ◌&&◌, Option, none, some, List, [], ◌∷◌, if◌then◌else◌, ◌==◌,
  ltb, ◌>>=◌,
}
use cigar.Prelude.Int.{ℤ, pos, pos_part, leb_ℤ, ltb_ℤ}
use cigar.Prelude.Result.{Result, ok}
use cigar.Text.{Text, codes, within, is_digit}
use cigar.Float.{Float}
use cigar.Chart.{Point, Series}
use cigar.Chart.Svg.{Box, bounds, width, height, palette_of, place_x, place_y}

-- `color.RGBA`.
pub record Rgba : Type 0 where
  pub r : ℕ
  pub g : ℕ
  pub b : ℕ
  pub a : ℕ

-- `image.RGBA`, by the coordinates of a pixel.
abbrev pub Image : Type 0
Image = ℕ → ℕ → Rgba

abbrev pub white : Rgba
white = record { r = 255; g = 255; b = 255; a = 255 }

abbrev pub ink : Rgba
ink = record { r = 0x11; g = 0x11; b = 0x11; a = 0xff }

abbrev hex_digit : ℕ → Option ℕ
hex_digit c =
    if is_digit c
    then some (c - b'0')
    else if within b'a' b'f' c
    then some (c - b'a' + 10)
    else if within b'A' b'F' c
    then some (c - b'A' + 10)
    else none

-- `%02x` on two digits.
unfoldable pub hex_pair : Text → Option (ℕ × Text)
hex_pair (c ∷ d ∷ s) = do h ← hex_digit c; l ← hex_digit d; some (16 * h + l, s)
hex_pair _ = none

abbrev scan_blue : ℕ → ℕ → Option (ℕ × Text) → Rgba
scan_blue r g none = record { r = r; g = g; b = 0; a = 0xff }
scan_blue r g (some (b, s)) = record { r = r; g = g; b = b; a = 0xff }

abbrev scan_green : ℕ → Option (ℕ × Text) → Rgba
scan_green r none = record { r = r; g = 0; b = 0; a = 0xff }
scan_green r (some (g, s)) = scan_blue r g (hex_pair s)

abbrev scan_red : Option (ℕ × Text) → Rgba
scan_red none = record { r = 0; g = 0; b = 0; a = 0xff }
scan_red (some (r, s)) = scan_green r (hex_pair s)

-- `hexColor` on `#` and pairs of digits, as the palette has them; a scan that fails leaves zeros.
unfoldable pub hex_color : Text → Rgba
unfolding hex_pair
hex_color (c ∷ s) = if c == b'#' then scan_red (hex_pair s) else scan_red none
hex_color [] = scan_red none

-- `image.Pt(ix, iy).In(img.Bounds())`.
unfoldable pub in_picture : ℤ → ℤ → Bool
in_picture ix iy =
    leb_ℤ (pos 0) ix && ltb_ℤ ix (pos width) && leb_ℤ (pos 0) iy && ltb_ℤ iy (pos height)

abbrev pub set_rgba : Image → ℕ → ℕ → Rgba → Image
set_rgba img ix iy c = λ x y. if x == ix && y == iy then c else img x y

-- `draw.Draw` of white over the whole picture; what lies outside is never read.
abbrev pub blank : Image
blank = λ x y. white

module _ {F : Type 0} ⦃fl : Float F⦄ where
  -- `int(x+0.5)`.
  abbrev pub pixel : F → ℤ
  pixel x = fl.to_int (fl.add x fl.half)

  unfoldable pub set_pixel : Image → F → F → Rgba → Image
  set_pixel img x y c =
      if in_picture (pixel x) (pixel y)
      then set_rgba img (pos_part (pixel x)) (pos_part (pixel y)) c
      else img

  -- The body of the loop: the pixel, and the one below.
  abbrev pub dot : Image → F → F → Rgba → Image
  dot img x y c = set_pixel (set_pixel img x y c) x (fl.add y (fl.of_uint 1)) c

  -- `for i := 0.0; i <= steps; i++`, on fuel; `none` where it runs out.
  unfoldable pub line_from : ℕ → F → F → F → F → Rgba → Image → F → F → Option Image
  line_from zero i steps xi yi c img x y = none
  line_from (suc fuel) i steps xi yi c img x y =
      let rest =
        line_from fuel (fl.add i (fl.of_uint 1)) steps xi yi c (dot img x y c) (fl.add x xi)
          (fl.add y yi) in
      if fl.le i steps then rest else some img

  abbrev pub steps_of : F → F → F → F → F
  steps_of x0 y0 x1 y1 = fl.max (fl.abs (fl.sub x1 x0)) (fl.abs (fl.sub y1 y0))

  unfoldable pub draw_line : ℕ → Image → F → F → F → F → Rgba → Option Image
  draw_line fuel img x0 y0 x1 y1 c =
      let steps = steps_of x0 y0 x1 y1 in
      if fl.eq steps (fl.of_uint 0)
      then some (set_pixel img x0 y0 c)
      else line_from fuel (fl.of_uint 0) steps (fl.div (fl.sub x1 x0) steps)
          (fl.div (fl.sub y1 y0) steps) c img x0 y0

  -- The loop over the points, with the place of the point before.
  unfoldable pub draw_points :
      ℕ → Box F → Rgba → Image → Option (F × F) → List (Point F) → Option Image
  unfolding draw_line
  draw_points fuel b c img prev [] = some img
  draw_points fuel b c img none (p ∷ ps) =
      draw_points fuel b c img (some (place_x b p, place_y b p)) ps
  draw_points fuel b c img (some (px, py)) (p ∷ ps) = do
    img' ← draw_line fuel img px py (place_x b p) (place_y b p) c
    draw_points fuel b c img' (some (place_x b p, place_y b p)) ps

  module _ (draw_text : Image → ℕ → ℕ → Text → Rgba → Image) where
    -- The loop over the series, each with its label in the legend.
    unfoldable pub draw_series : ℕ → Box F → ℕ → Image → List (Series F) → Option Image
    draw_series fuel b i img [] = some img
    draw_series fuel b i img (s ∷ series) = do
      img' ← draw_points fuel b (hex_color (palette_of i)) img none s.points
      draw_series fuel b (i + 1) (draw_text img' 8 (28 + i * 14) s.label (hex_color (palette_of i)))
          series

    unfoldable pub picture : ℕ → Text → List (Series F) → Option Image
    picture fuel title series =
        draw_series fuel (bounds series) 0 (draw_text blank 8 14 title ink) series

    -- `renderPNG`.
    unfoldable pub render_png :
        {E : Type 0}
        → (Image → Result E (List ℕ))
        → ℕ
        → Text
        → List (Series F)
        → Option (Result E (List ℕ))
    render_png encode fuel title series = do img ← picture fuel title series; some (encode img)
