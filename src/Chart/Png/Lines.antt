-- ===== src/Chart/Png/Lines.antt =====
-- png.go: the loop of `drawLine` ends, and what is drawn stays in the picture and in its colours.
use cigar.Prelude.{
  ℕ, zero, suc, ◌+◌, ◌*◌, ◌^◌, ◌≤◌, ◌<◌, ◌≡◌, ◌⊎◌, inl, inr, refl, true, false, ◌&&◌, ◌==◌, Option,
  none, some, List, [], ◌∷◌, All, arith, Bool-cases,
}
use cigar.Prelude.Int.{ℤ, pos_part}
use cigar.Prelude.Result.{Result}
use cigar.Text.{Text}
use cigar.Float.{Float}
use cigar.Chart.{Point, Series}
use cigar.Chart.Svg.{Box, bounds, width, height, palette_of, place_x, place_y}
use cigar.Chart.Png.{
  Rgba, Image, white, ink, blank, hex_color, in_picture, set_rgba, pixel, set_pixel, dot, line_from,
  steps_of, draw_line, draw_points, draw_series, picture, render_png,
}

-- A pixel is as before, or it lies in the picture and has the colour.
abbrev pub Painted : Rgba → Image → Image → Type 0
Painted c before after =
    (x y : ℕ) → (after x y ≡ before x y) ⊎ ((after x y ≡ c) × (x < width) × (y < height))

-- The colours of the title and of the lines.
abbrev pub Coloured : Rgba → Type 0
Coloured c = (c ≡ ink) ⊎ ((i : ℕ) × (c ≡ hex_color (palette_of i)))

-- A pixel is white, or it lies in the picture and has one of the colours.
abbrev pub Neat : Image → Type 0
Neat img = (x y : ℕ) → (img x y ≡ white) ⊎ (Coloured (img x y) × (x < width) × (y < height))

Painted-refl : (c : Rgba) (img : Image) → Painted c img img
Painted-refl c img x y = inl refl

Painted-trans : (c : Rgba) (i j k : Image) → Painted c i j → Painted c j k → Painted c i k
Painted-trans c i j k p q x y = ground (arith, p x y, q x y)

Painted-Neat : (c : Rgba) (i j : Image) → Coloured c → Painted c i j → Neat i → Neat j
Painted-Neat c i j col p h x y = elim (p x y) [
  | inl same ↦ rw same (h x y)
  | inr (e, hx, hy) ↦ rw e (inr (col, hx, hy))
]

in_picture_lem :
    (ix iy : ℤ) → in_picture ix iy ≡ true → (pos_part ix < width) × (pos_part iy < height)
unfolding in_picture
in_picture_lem ix iy h = ground (arith, h)

set_rgba-Painted :
    (c : Rgba) (img : Image) (ix iy : ℕ)
    → ix < width
    → iy < height
    → Painted c img (set_rgba img ix iy c)
set_rgba-Painted c img ix iy hx hy x y = elim (Bool-cases (x == ix && y == iy)) [
  | inl here ↦ rw here (inr (refl, ground (arith, here, hx), ground (arith, here, hy)))
  | inr away ↦ rw away (inl refl)
]

-- What is drawn, when the drawing ends.
abbrev Paints : Rgba → Image → Option Image → Type 0
Paints c img o = (img' : Image) × (o ≡ some img') × Painted c img img'

module _ {F : Type 0} ⦃fl : Float F⦄ where
  pub set_pixel-Painted : (c : Rgba) (img : Image) (x y : F) → Painted c img (set_pixel img x y c)
  unfolding set_pixel
  set_pixel-Painted c img x y = elim (Bool-cases (in_picture (pixel x) (pixel y))) [
    | inl inside ↦
        let (hx, hy) = in_picture_lem (pixel x) (pixel y) inside in
        rw inside (set_rgba-Painted c img _ _ hx hy)
    | inr outside ↦ rw outside (Painted-refl c img)
  ]

  dot-Painted : (c : Rgba) (img : Image) (x y : F) → Painted c img (dot img x y c)
  dot-Painted c img x y =
      Painted-trans c img _ _ (set_pixel-Painted c img x y) (set_pixel-Painted c _ x _)

  module _
      (count_succ : (n : ℕ)
        → n < 2 ^ 53
        → fl.add (fl.of_uint n) (fl.of_uint 1) ≡ fl.of_uint (n + 1))
      (n : ℕ) (exact : n ≤ 2 ^ 53) where
    line_from-Paints :
        (fuel k left : ℕ) (steps xi yi : F) (c : Rgba) (img : Image) (x y : F)
        → k + left ≡ n
        → left < fuel
        → fl.le (fl.of_uint n) steps ≡ false
        → Paints c img (line_from fuel (fl.of_uint k) steps xi yi c img x y)
    unfolding line_from
    line_from-Paints zero k left steps xi yi c img x y e h stop = absurd (omega arith)
    line_from-Paints (suc fuel) k zero steps xi yi c img x y e h stop =
        let e' : k ≡ n = omega arith in rw (e', stop) (img, refl, Painted-refl c img)
    line_from-Paints (suc fuel) k (suc left) steps xi yi c img x y e h stop =
        elim (Bool-cases (fl.le (fl.of_uint k) steps)) [
          | inr over ↦ rw over (img, refl, Painted-refl c img)
          | inl on ↦
              let (img', done, p) =
                line_from-Paints fuel (k + 1) left steps xi yi c (dot img x y c) (fl.add x xi)
                  (fl.add y yi) (omega arith) (omega arith) stop in
              rw (on, count_succ k (omega arith))
                (img', done, Painted-trans c img _ img' (dot-Painted c img x y) p)
        ]

    draw_line-Paints :
        (fuel : ℕ) (img : Image) (x0 y0 x1 y1 : F) (c : Rgba)
        → n < fuel
        → fl.le (fl.of_uint n) (steps_of x0 y0 x1 y1) ≡ false
        → Paints c img (draw_line fuel img x0 y0 x1 y1 c)
    unfolding draw_line
    draw_line-Paints fuel img x0 y0 x1 y1 c h stop =
        elim (Bool-cases (fl.eq (steps_of x0 y0 x1 y1) (fl.of_uint 0))) [
          | inl point ↦ rw point (_, refl, set_pixel-Painted c img x0 y0)
          | inr line ↦ rw line (
              line_from-Paints fuel 0 n (steps_of x0 y0 x1 y1) _ _ c img x0 y0 (omega arith) h stop)
        ]

    -- Each line between two points has at most `n` steps.
    abbrev pub Short : Box F → Option (F × F) → List (Point F) → Type 0
    Short b prev [] = Unit
    Short b none (p ∷ ps) = Short b (some (place_x b p, place_y b p)) ps
    Short b (some (px, py)) (p ∷ ps) =
        (fl.le (fl.of_uint n) (steps_of px py (place_x b p) (place_y b p)) ≡ false)
        × Short b (some (place_x b p, place_y b p)) ps

    draw_points-Paints :
        (fuel : ℕ) (b : Box F) (c : Rgba) (img : Image) (prev : Option (F × F))
        (ps : List (Point F))
        → n < fuel
        → Short b prev ps
        → Paints c img (draw_points fuel b c img prev ps)
    unfolding draw_points
    draw_points-Paints fuel b c img prev [] h s = (img, refl, Painted-refl c img)
    draw_points-Paints fuel b c img none (p ∷ ps) h s = draw_points-Paints fuel b c img _ ps h s
    draw_points-Paints fuel b c img (some (px, py)) (p ∷ ps) h (stop, s) =
        let (img1, e1, p1) = draw_line-Paints fuel img px py _ _ c h stop in
        let (img2, e2, p2) = draw_points-Paints fuel b c img1 _ ps h s in
        rw (e1) (img2, e2, Painted-trans c img img1 img2 p1 p2)

    module _ (draw_text : Image → ℕ → ℕ → Text → Rgba → Image)
        (text_paints : (img : Image) (x y : ℕ) (s : Text) (c : Rgba)
          → Painted c img (draw_text img x y s c)) where
      draw_series-Neat :
          (fuel : ℕ) (b : Box F) (i : ℕ) (img : Image) (series : List (Series F))
          → n < fuel
          → All (λ s. Short b none s.points) series
          → Neat img
          → (img' : Image) × (draw_series draw_text fuel b i img series ≡ some img') × Neat img'
      unfolding draw_series
      draw_series-Neat fuel b i img [] h short neat = (img, refl, neat)
      draw_series-Neat fuel b i img (s ∷ series) h (hs, short) neat =
          let c = hex_color (palette_of i) in
          let (img1, e, p) = draw_points-Paints fuel b c img none s.points h hs in
          let text = text_paints img1 8 (28 + i * 14) s.label c in
          rw (e) (
            draw_series-Neat fuel b (i + 1) _ series h short
              (Painted-Neat c _ _ (inr (i, refl)) (Painted-trans c _ _ _ p text) neat))

      -- With fuel for the longest line `renderPNG` encodes an image in which every pixel is white,
      -- or has the colour of the title or of one of the lines and lies in the picture; where
      -- counting up to 2^53 is exact, no line has more than `n` steps, and the text drawn keeps to
      -- the picture and to its colour.
      pub render_png-Neat :
          {E : Type 0} (encode : Image → Result E (List ℕ)) (fuel : ℕ) (title : Text)
          (series : List (Series F))
          → n < fuel
          → All (λ s. Short (bounds series) none s.points) series
          → (img : Image) × (render_png draw_text encode fuel title series ≡ some (encode img))
            × Neat img
      unfolding render_png picture
      render_png-Neat encode fuel title series h short =
          let titled = text_paints blank 8 14 title ink in
          let (img, e, neat) =
            draw_series-Neat fuel (bounds series) 0 _ series h short
              (Painted-Neat ink _ _ (inl refl) titled (λ x y. inl refl)) in
          rw (e) (img, refl, neat)
