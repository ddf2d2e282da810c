-- ===== src/Chart.antt =====
-- internal/chart/chart.go: the formats and the dispatch on them, over an interface of the renderers.
pub mod Values
mod Tests
pub mod Downsample
pub mod Grid
pub mod Builtin
pub mod Markdown
pub mod Svg
pub mod Png
use cigar.Prelude.{ℕ, Bool, true, false, ◌||◌, List, if◌then◌else◌}
use cigar.Prelude.Result.{Result, ok, err}
use cigar.Text.{Text, codes, text_eq, is_empty, to_lower, trim_space}
use cigar.Time.{Time}

pub record Point (F : Type 0) : Type 0 where
  pub x : Time
  pub y : F

pub record Series (F : Type 0) : Type 0 where
  pub label : Text
  pub points : List (Point F)

pub data Format : Type 0 where
  png svg markdown : Format

-- `ParseFormat`; the error bears the text.
unfoldable pub parse_format : Text → Result Text Format
parse_format s =
    let name = to_lower (trim_space s) in
    if is_empty name || text_eq name (codes "png")
    then ok png
    else if text_eq name (codes "svg")
    then ok svg
    else if text_eq name (codes "markdown") || text_eq name (codes "md")
    then ok markdown
    else err s

unfoldable pub ext : Format → Text
ext svg = codes "svg"
ext markdown = codes "md"
ext png = codes "png"

abbrev pub inline : Format → Bool
inline markdown = true
inline _ = false

-- The type `Unit` of the source.
pub data ValueUnit : Type 0 where
  unit_none unit_bytes unit_bytes_per_sec unit_cores : ValueUnit

pub record Renderers (E F : Type 0) : Type 0 where
  pub render_svg : Text → List (Series F) → Result E (List ℕ)
  pub render_markdown : Text → ValueUnit → List (Series F) → Result E (List ℕ)
  pub render_png : Text → List (Series F) → Result E (List ℕ)

-- `Render`.
unfoldable pub render_chart :
    {E F : Type 0} → Renderers E F → Format → Text → ValueUnit → List (Series F) → Result E (List ℕ)
render_chart r svg title unit series = r.render_svg title series
render_chart r markdown title unit series = r.render_markdown title unit series
render_chart r png title unit series = r.render_png title series
