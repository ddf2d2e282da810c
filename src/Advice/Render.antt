-- ===== src/Advice/Render.antt =====
-- internal/advice/render.go.
use cigar.Prelude.{◌||◌, List, [], ◌∷◌, ◌++◌, if◌then◌else◌, ◌==◌, filter}
use cigar.Prelude.Int.{ℤ}
use cigar.Text.{Text, codes, text_eq, is_empty, trim_right}
use cigar.Text.Decimal.{format_int}
use cigar.Advice.{Advice, listed}

abbrev pub clean_message : Text
clean_message = codes "You are all good dude!"

-- The loop of `jobOrder`, from the names seen so far.
unfoldable pub order_from : List Text → List Advice → List Text
order_from seen [] = []
order_from seen (a ∷ all) =
    let skip = is_empty a.job || listed seen a.job in
    let rest = order_from (if skip then seen else a.job ∷ seen) all in
    if skip then rest else a.job ∷ rest

unfoldable pub job_order : List Advice → List Text
unfolding order_from
job_order all = order_from [] all

-- The advice about one job; the empty name is the pipeline's.
abbrev pub about : Text → List Advice → List Advice
about job all = filter (λ a. text_eq a.job job) all

unfoldable pub write_advice : Advice → Text
write_advice a =
    codes "**" ++ a.title ++ codes "**\n\n" ++ trim_right (λ c. c == b'\n') a.body ++ codes "\n\n"

abbrev pub write_all : List Advice → Text
write_all [] = []
write_all (a ∷ all) = write_advice a ++ write_all all

abbrev pub job_section : List Advice → Text → Text
job_section all job = codes "#### `" ++ job ++ codes "`\n\n" ++ write_all (about job all)

abbrev pub job_sections : List Advice → List Text → Text
job_sections all [] = []
job_sections all (job ∷ jobs) = job_section all job ++ job_sections all jobs

unfoldable pub render_advice : ℤ → List Advice → Text
unfolding job_order write_advice
render_advice pipeline_id [] = clean_message
render_advice pipeline_id (a ∷ all) =
    codes "### Advice for pipeline #"
    ++ format_int pipeline_id
    ++ codes "\n\n"
    ++ write_all (about [] (a ∷ all))
    ++ job_sections (a ∷ all) (job_order (a ∷ all))
