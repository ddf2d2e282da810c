-- ===== src/Command/Handler/Tests.antt =====
-- `help` in a report thread.
use cigar.Prelude.{ℕ, ◌≡◌, refl, ◌++◌}
use cigar.Prelude.Int.{pos}
use cigar.Text.{Text, codes}
use cigar.Gitlab.{Discussion}
use cigar.Report.Marker.{signed_marker}
use cigar.Webhook.Event.{NoteEvent}
use cigar.Command.{help_command}
use cigar.Command.Handler.{Handler, dropped, tagged}
use cigar.Command.Handler.Execution.{execute, handle_command}
use cigar.Command.Handler.Authority.{Outcomes, handle_command-Obeys}
use cigar.Command.Handler.Loop.{Answered, execute-Answered, handle_command-own}
use cigar.Fixtures.{toy_hmac, a_renderer, a_handler_in}

abbrev report_thread : Discussion
report_thread = record {
  root_note_author_id = pos 99;
  root_note_body = signed_marker toy_hmac (pos 12) (pos 7) (codes "key") ++ codes "\n\nreport";
}

abbrev a_handler : Handler Text ℕ
a_handler = a_handler_in report_thread

abbrev note_of : Text → NoteEvent
note_of body = record {
  project_id = pos 3;
  mr_iid = pos 7;
  note_id = pos 5;
  discussion_id = codes "d";
  author_id = pos 1;
  body = body;
}

handle_command-Obeys_example :
    Outcomes a_renderer a_handler toy_hmac
      (note_of (codes "Help"))
      (handle_command a_renderer a_handler toy_hmac (note_of (codes "Help")))
handle_command-Obeys_example =
    handle_command-Obeys a_renderer a_handler toy_hmac (note_of (codes "Help"))

execute-Answered_example :
    Answered (execute a_renderer a_handler (note_of (codes "Help")) (pos 12) help_command)
execute-Answered_example =
    execute-Answered a_renderer a_handler (note_of (codes "Help")) (pos 12) help_command

handle_command-own_example :
    handle_command a_renderer a_handler toy_hmac (note_of (tagged (codes "help"))) ≡ dropped
handle_command-own_example =
    handle_command-own a_renderer a_handler toy_hmac (note_of (tagged (codes "help")))
      (codes "help") refl
