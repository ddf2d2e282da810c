-- ===== src/Chart/Builtin.antt =====
-- chart.go: the renderers that the program has.
use cigar.Prelude.{ℕ, Option, none, some, List}
use cigar.Prelude.Result.{Result, ok, err}
use cigar.Text.{Text}
use cigar.Time.{Time}
use cigar.Float.{Float}
use cigar.Chart.{Renderers}
use cigar.Chart.Markdown.{render_markdown}
use cigar.Chart.Png.{Rgba, Image, render_png}
use cigar.Chart.Svg.{render_svg}

-- A panic as an error.
abbrev pub or_panic : {E : Type 0} → E → Option Text → Result E (List ℕ)
or_panic e none = err e
or_panic e (some s) = ok s

-- Fuel that ran out as an error.
abbrev pub or_hang : {E : Type 0} → E → Option (Result E (List ℕ)) → Result E (List ℕ)
or_hang e none = err e
or_hang e (some r) = r

module _ {E F : Type 0} ⦃fl : Float F⦄ (clock : Time → Text)
    (draw_text : Image → ℕ → ℕ → Text → Rgba → Image) (encode : Image → Result E (List ℕ)) where
  abbrev pub renderers : (panic hang : E) → ℕ → Renderers E F
  renderers panic hang fuel = record {
    render_svg = λ title series. ok (render_svg title series);
    render_markdown = λ title unit series. or_panic panic (render_markdown clock title unit series);
    render_png = λ title series. or_hang hang (render_png draw_text encode fuel title series);
  }
