-- ===== src/Command/Handler.antt =====
-- internal/command/handler.go: the handler of command notes; its state, the acts that it asks for, the
-- reply and the advice. GitLab, the resolver, the metrics and the advisor are the interfaces of the
-- source. Targets has `resolveTarget`, Details the charts, Execution `Handle`.
pub mod Authority
pub mod Details
pub mod Execution
pub mod Loop
pub mod Targets
mod Tests
use cigar.Prelude.{
  ℕ, Bool, true, false, not, ◌&&◌, ◌||◌, Option, none, some, List, [], ◌∷◌, ◌++◌, map,
  if◌then◌else◌,
}
use cigar.Prelude.Int.{ℤ, eqb_ℤ}
use cigar.Prelude.Result.{Result, ok, err}
use cigar.Text.{Text, codes, text_eq, contains}
use cigar.Text.Decimal.{format_int}
use cigar.Time.{Time}
use cigar.Crypto.{Hmac}
use cigar.Metrics.{Line, PodSeries, SeriesSource, empty}
use cigar.Correlate.{Resolver}
use cigar.Chart.{
  Point, Series, Format, ValueUnit, unit_bytes, unit_bytes_per_sec, unit_cores, Renderers,
  render_chart, ext, inline,
}
use cigar.Gitlab.{Job, Discussion}
use cigar.Gitlab.Client.{Client}
use cigar.Report.Marker.{marker, marker_prefix, parse_signed_marker}
use cigar.Reporter.{ReportError, job_not_found, did_not_run}
use cigar.Advice.{Advice}
use cigar.Advice.Render.{render_advice}
use cigar.Webhook.Event.{NoteEvent}
use cigar.Command.{
  Command, Kind, kind_help, kind_details, kind_advise, TargetType, target_job, target_pod,
  kind_label, parse, help_text,
}

-- Without an advisor the command is off; without metrics nothing is counted.
pub record Handler (E F : Type 0) : Type 0 where
  pub gitlab : Client E
  pub resolver : Resolver E
  pub series : SeriesSource E F
  pub advisor : Option (ℤ → ℤ → Text → Result (ReportError E) (List Advice))
  pub signing_key : Text
  pub bot_user_id : ℤ
  pub chart_format : Format
  pub counts : Bool

-- `RecordCommand`, `UploadFile` and `CreateDiscussionReply` with their arguments.
pub data Act : Type 0 where
  recorded : (project_id : ℤ) → (kind : Text) → Act
  uploaded : (project_id : ℤ) → (filename : Text) → (content : List ℕ) → Act
  replied : (project_id mr_iid : ℤ) → (discussion_id body : Text) → Act

pub data HandleError (E : Type 0) : Type 0 where
  authorize_failed list_failed resolve_failed span_failed series_failed reply_failed :
      E → HandleError E
  advice_failed : ReportError E → HandleError E
  render_failed upload_failed : Text → E → HandleError E

pub record Outcome (E : Type 0) : Type 0 where
  pub acts : List Act
  pub error : Option (HandleError E)

abbrev pub dropped : {E : Type 0} → Outcome E
dropped = record { acts = []; error = none }

abbrev pub failed : {E : Type 0} → HandleError E → Outcome E
failed e = record { acts = []; error = some e }

abbrev pub after : {E : Type 0} → List Act → Outcome E → Outcome E
after acts o = record { acts = acts ++ o.acts; error = o.error }

abbrev pub not_part : Text → ℤ → Text
not_part name pipeline_id =
    codes "`"
    ++ name
    ++ codes "` is not part of pipeline #"
    ++ format_int pipeline_id
    ++ codes "'s report."

abbrev pub tagged : Text → Text
tagged body = body ++ codes "\n\n" ++ marker

module _ {E F : Type 0} (h : Handler E F) where
  abbrev pub reply_error : Option E → Option (HandleError E)
  reply_error none = none
  reply_error (some e) = some (reply_failed e)

  unfoldable pub reply : NoteEvent → Text → Outcome E
  reply ev body = record {
    acts = replied ev.project_id ev.mr_iid ev.discussion_id (tagged body) ∷ [];
    error =
        reply_error
          (h.gitlab.create_discussion_reply ev.project_id ev.mr_iid ev.discussion_id (tagged body));
  }

  abbrev pub advised : NoteEvent → ℤ → Command → Result (ReportError E) (List Advice) → Outcome E
  advised ev pipeline_id cmd (ok all) = reply ev (render_advice pipeline_id all)
  advised ev pipeline_id cmd (err (job_not_found sel)) = reply ev (not_part cmd.name pipeline_id)
  advised ev pipeline_id cmd (err e) = failed (advice_failed e)

  abbrev pub advise_by :
      NoteEvent
      → ℤ
      → Command
      → Option (ℤ → ℤ → Text → Result (ReportError E) (List Advice))
      → Outcome E
  advise_by ev pipeline_id cmd none = reply ev (codes "Advice is not available on this instance.")
  advise_by ev pipeline_id cmd (some ask) =
      advised ev pipeline_id cmd (ask ev.project_id pipeline_id cmd.name)

  unfoldable pub advise_command : NoteEvent → ℤ → Command → Outcome E
  unfolding reply
  advise_command ev pipeline_id cmd = advise_by ev pipeline_id cmd h.advisor
