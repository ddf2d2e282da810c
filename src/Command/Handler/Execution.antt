-- ===== src/Command/Handler/Execution.antt =====
-- handler.go: `Handle`.
use cigar.Prelude.{Option, none, some, List, [], ◌∷◌, if◌then◌else◌}
use cigar.Prelude.Int.{ℤ, eqb_ℤ}
use cigar.Prelude.Result.{Result, ok, err}
use cigar.Text.{contains}
use cigar.Crypto.{Hmac}
use cigar.Chart.{Renderers}
use cigar.Gitlab.{Discussion}
use cigar.Report.Marker.{marker_prefix, parse_signed_marker}
use cigar.Webhook.Event.{NoteEvent}
use cigar.Command.{Command, kind_help, kind_details, kind_advise, kind_label, parse, help_text}
use cigar.Command.Handler.{
  Handler, Act, recorded, authorize_failed, Outcome, dropped, failed, after, reply, advise_command,
}
use cigar.Command.Handler.Details.{details}

module _ {E F : Type 0} (r : Renderers E F) (h : Handler E F) where
  unfoldable pub execute : NoteEvent → ℤ → Command → Outcome E
  unfolding details reply
  execute ev pipeline_id cmd = elim cmd.kind [
    | kind_help ↦ reply h ev help_text
    | kind_details ↦ details r h ev pipeline_id cmd
    | kind_advise ↦ advise_command h ev pipeline_id cmd
  ]

  abbrev pub count_command : NoteEvent → Command → List Act
  count_command ev cmd = if h.counts then recorded ev.project_id (kind_label cmd.kind) ∷ [] else []

  abbrev pub run_marked : NoteEvent → Command → Option (ℤ × ℤ) → Outcome E
  run_marked ev cmd none = dropped
  run_marked ev cmd (some (pipeline_id, mr)) =
      if eqb_ℤ mr ev.mr_iid
      then after (count_command ev cmd) (execute ev pipeline_id cmd)
      else dropped

  abbrev pub run_authorized : Hmac → NoteEvent → Command → Result E Discussion → Outcome E
  run_authorized mac ev cmd (err e) = failed (authorize_failed e)
  run_authorized mac ev cmd (ok disc) =
      if eqb_ℤ disc.root_note_author_id h.bot_user_id
      then run_marked ev cmd (parse_signed_marker mac disc.root_note_body h.signing_key)
      else dropped

  abbrev pub handle_parsed : Hmac → NoteEvent → Option Command → Outcome E
  handle_parsed mac ev none = dropped
  handle_parsed mac ev (some cmd) =
      if contains ev.body marker_prefix
      then dropped
      else run_authorized mac ev cmd
          (h.gitlab.merge_request_discussion ev.project_id ev.mr_iid ev.discussion_id)

  unfoldable pub handle_command : Hmac → NoteEvent → Outcome E
  unfolding execute parse
  handle_command mac ev = handle_parsed mac ev (parse ev.body)
