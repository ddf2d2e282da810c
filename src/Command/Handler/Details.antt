-- ===== src/Command/Handler/Details.antt =====
-- handler.go: `details`. The bytes of a chart that is embedded are its text.
use cigar.Prelude.{ℕ, none, some, List, [], ◌∷◌, ◌++◌, map, if◌then◌else◌}
use cigar.Prelude.Int.{ℤ}
use cigar.Prelude.Result.{Result, ok, err}
use cigar.Text.{Text, codes}
use cigar.Metrics.{Line, PodSeries, empty}
use cigar.Chart.{
  Series, ValueUnit, unit_bytes, unit_bytes_per_sec, unit_cores, Renderers, render_chart, ext,
  inline,
}
use cigar.Webhook.Event.{NoteEvent}
use cigar.Command.{Command}
use cigar.Command.Handler.{
  Handler, Act, uploaded, HandleError, series_failed, render_failed, upload_failed, Outcome, failed,
  after, not_part, reply,
}
use cigar.Command.Handler.Targets.{Target, resolve_pod}

abbrev pub to_chart : {F : Type 0} → Line F → Series F
to_chart l = record { label = l.label; points = map (λ p. record { x = p.t; y = p.v }) l.points }

pub record ChartSpec (F : Type 0) : Type 0 where
  pub base : Text
  pub title : Text
  pub unit : ValueUnit
  pub lines : List (Series F)

abbrev pub chart_specs : {F : Type 0} → PodSeries F → List (ChartSpec F)
chart_specs s =
    record {
      base = codes "cpu";
      title = codes "CPU (cores)";
      unit = unit_cores;
      lines = to_chart s.cpu ∷ [];
    }
    ∷ record {
      base = codes "memory";
      title = codes "Memory (bytes)";
      unit = unit_bytes;
      lines = to_chart s.memory ∷ [];
    }
    ∷ record {
      base = codes "network";
      title = codes "Network TX (bytes/s)";
      unit = unit_bytes_per_sec;
      lines = to_chart s.net_tx ∷ [];
    }
    ∷ []

module _ {E F : Type 0} (r : Renderers E F) (h : Handler E F) where
  abbrev pub filename_of : ChartSpec F → Text
  filename_of c = c.base ++ codes "." ++ ext h.chart_format

  -- One chart: what is uploaded, and the text of the reply.
  abbrev pub upload_result : ChartSpec F → Result E Text → Result (HandleError E) Text
  upload_result c (ok md) = ok md
  upload_result c (err e) = err (upload_failed (filename_of c) e)

  abbrev pub place_chart :
      NoteEvent → ChartSpec F → Result E (List ℕ) → List Act × Result (HandleError E) Text
  place_chart ev c (err e) = ([], err (render_failed c.base e))
  place_chart ev c (ok content) = if inline h.chart_format then ([], ok content) else (
    uploaded ev.project_id (filename_of c) content ∷ [],
    upload_result c (h.gitlab.upload_file ev.project_id (filename_of c) content),
  )

  abbrev pub finish_charts :
      NoteEvent → Text → List Act × Result (HandleError E) Text → (Text → Outcome E) → Outcome E
  finish_charts ev body (acts, err e) next = record { acts = acts; error = some e }
  finish_charts ev body (acts, ok md) next = after acts (next (body ++ md ++ codes "\n\n"))

  unfoldable pub chart_reply : NoteEvent → Text → List (ChartSpec F) → Outcome E
  chart_reply ev body [] = reply h ev body
  chart_reply ev body (c ∷ cs) =
      finish_charts ev body
        (place_chart ev c (render_chart r h.chart_format c.title c.unit c.lines))
        (λ b. chart_reply ev b cs)

  abbrev pub series_reply : NoteEvent → Command → Result E (PodSeries F) → Outcome E
  series_reply ev cmd (err e) = failed (series_failed e)
  series_reply ev cmd (ok s) =
      if empty s
      then reply h ev
          (codes "No metrics found for `" ++ cmd.name ++ codes "` in the report window.")
      else chart_reply ev (codes "### Resource usage for `" ++ cmd.name ++ codes "`\n\n")
          (chart_specs s)

  abbrev pub target_reply : NoteEvent → ℤ → Command → Target h → Outcome E
  target_reply ev pipeline_id cmd (err e) = failed e
  target_reply ev pipeline_id cmd (ok none) = reply h ev (not_part cmd.name pipeline_id)
  target_reply ev pipeline_id cmd (ok (some (pod, start, end))) =
      series_reply ev cmd (h.series.pod_series pod start end)

  unfoldable pub details : NoteEvent → ℤ → Command → Outcome E
  unfolding resolve_pod chart_reply
  details ev pipeline_id cmd =
      target_reply ev pipeline_id cmd (resolve_pod h ev.project_id pipeline_id cmd)
