-- ===== src/Worker/Tests.antt =====
-- A note delivered twice, and the authenticator of a deployment.
use cigar.Prelude.{ℕ, ◌≡◌, none, some, List, [], ◌∷◌, length}
use cigar.Prelude.Int.{ℤ, pos}
use cigar.Text.{Text, codes}
use cigar.Webhook.Event.{PipelineEvent, NoteEvent, Event, pipeline, note}
use cigar.Command.Handler.{Handler}
use cigar.Worker.{has_id, nothing, work}
use cigar.Worker.Once.{Once, AllHandled, handled_ids, note_ids, work-Once}
use cigar.Fixtures.{toy_hmac, whole, a_renderer, a_reporter, a_handler_in}

abbrev a_handler : Handler Text ℕ
a_handler = a_handler_in (record { root_note_author_id = pos 1; root_note_body = [] })

abbrev a_note : NoteEvent
a_note = record {
  project_id = pos 3;
  mr_iid = pos 7;
  note_id = pos 5;
  discussion_id = codes "d";
  author_id = pos 1;
  body = codes "help";
}

abbrev a_pipeline : PipelineEvent
a_pipeline = record {
  object_kind = codes "pipeline";
  id = pos 12;
  status = codes "success";
  branch = codes "main";
  project_id = pos 3;
  user = none;
  merge_request = none;
}

abbrev deliveries : List Event
deliveries = note a_note ∷ pipeline a_pipeline ∷ note a_note ∷ []

work-Once_example :
    let s = work toy_hmac a_renderer a_reporter (some a_handler) nothing deliveries in
    Once (handled_ids s.handled)
    × ((i : ℤ) → has_id (handled_ids s.handled) i ≡ has_id (note_ids deliveries) i)
    × AllHandled toy_hmac a_renderer a_reporter a_handler s.handled
    × (length s.reports ≡ 1)
work-Once_example = work-Once toy_hmac a_renderer a_reporter a_handler deliveries
