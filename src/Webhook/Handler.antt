-- ===== src/Webhook/Handler.antt =====
-- internal/webhook/handler.go: what a delivery to /webhook does to the queue and the metrics, and the
-- HTTP status that it is answered with. Logging is left out, and with it `projectPath`, which serves
-- a log line alone.
pub mod Spec
pub mod Work
mod Tests
use cigar.Prelude.{
  ℕ, Bool, true, false, not, ◌||◌, Option, none, some, List, [], ◌∷◌, ◌++◌, if◌then◌else◌, is_some,
}
use cigar.Prelude.Int.{ℤ, pos}
use cigar.Text.{Text, codes, text_eq}
use cigar.Command.{parse}
use cigar.Queue.{Queue, enqueue}
use cigar.Webhook.Auth.{Request}
use cigar.Webhook.Event.{PipelineEvent, NotePayload, NoteEvent, Event, pipeline, note, Json}

abbrev pub status_ok : ℕ
status_ok = 200

abbrev pub status_bad_request : ℕ
status_bad_request = 400

abbrev pub status_unauthorized : ℕ
status_unauthorized = 401

abbrev pub status_service_unavailable : ℕ
status_service_unavailable = 503

-- `terminalStatuses[status]`.
unfoldable pub is_terminal : Text → Bool
is_terminal status = text_eq status (codes "success") || text_eq status (codes "failed")

-- The fields of `handler`; `recording` is `rec != nil`.
pub record Handler : Type 0 where
  pub authentic : Request → Bool
  pub commands_enabled : Bool
  pub recording : Bool

-- What a delivery may change: the queue, and the calls of `RecordWebhook` and `RecordUser`.
pub record Service : Type 0 where
  pub queue : Queue Event
  pub deliveries : List (ℤ × ℕ)
  pub users : List ℤ

-- A handler's answer: the state, the project of the payload (0 until it is parsed), the status.
pub record Answer : Type 0 where
  pub service : Service
  pub project : ℤ
  pub status : ℕ

abbrev pub answer : Service → ℤ → ℕ → Answer
answer s project status = record { service = s; project = project; status = status }

abbrev pub record_user : Bool → Service → ℤ → Service
record_user recording s user = if recording then record s { users = s.users ++ user ∷ [] } else s

abbrev pub record_triggerer : Bool → Service → Option ℤ → Service
record_triggerer recording s none = s
record_triggerer recording s (some user) = record_user recording s user

-- `if !h.queue.Enqueue(...) { return 503 }; return 200`
unfoldable pub put : Service → ℤ → Event → Answer
put s project ev =
    let (q, done) = enqueue s.queue ev in
    if done
    then answer (record s { queue = q }) project status_ok
    else answer (record s { queue = q }) project status_service_unavailable

abbrev pub note_event : NotePayload → ℤ → NoteEvent
note_event p mr_iid = record {
  project_id = p.project_id;
  mr_iid = mr_iid;
  note_id = p.id;
  discussion_id = p.discussion_id;
  author_id = p.author_id;
  body = p.body;
}

abbrev pub answer_pipeline : Handler → Service → Option PipelineEvent → Answer
answer_pipeline h s none = answer s (pos 0) status_bad_request
answer_pipeline h s (some ev) =
    let s' = record_triggerer h.recording s ev.user in
    if not (is_terminal ev.status)
    then answer s' ev.project_id status_ok
    else put s' ev.project_id (pipeline ev)

abbrev pub answer_merge_request : Service → NotePayload → Option ℤ → Answer
answer_merge_request s p none = answer s p.project_id status_ok
answer_merge_request s p (some mr_iid) =
    if not (text_eq p.noteable_type (codes "MergeRequest"))
    then answer s p.project_id status_ok
    else if not (is_some (parse p.body))
    then answer s p.project_id status_ok
    else put s p.project_id (note (note_event p mr_iid))

abbrev pub answer_note : Handler → Service → Option NotePayload → Answer
answer_note h s none = answer s (pos 0) status_bad_request
answer_note h s (some p) =
    answer_merge_request (record_user h.recording s p.author_id) p p.merge_request

-- The deferred call, after the status is known.
abbrev pub record_webhook : Bool → Answer → Service
record_webhook recording a =
    if recording
    then record (a.service) { deliveries = a.service.deliveries ++ (a.project, a.status) ∷ [] }
    else a.service

module _ (json : Json) where
  unfoldable pub handle_pipeline : Handler → Service → Request → Answer
  unfolding put is_terminal
  handle_pipeline h s c = answer_pipeline h s (json.pipeline_event c.body)

  unfoldable pub handle_note : Handler → Service → Request → Answer
  unfolding put
  handle_note h s c = answer_note h s (json.note_payload c.body)

  -- `handle` before its deferred call.
  unfoldable pub dispatch : Handler → Service → Request → Answer
  unfolding handle_pipeline handle_note
  dispatch h s c =
      let event = c.header (codes "X-Gitlab-Event") in
      if not (h.authentic c)
      then answer s (pos 0) status_unauthorized
      else if text_eq event (codes "Pipeline Hook")
      then handle_pipeline h s c
      else if text_eq event (codes "Note Hook")
      then if not h.commands_enabled then answer s (pos 0) status_ok else handle_note h s c
      else answer s (pos 0) status_ok

  unfoldable pub handle : Handler → Service → Request → Service × ℕ
  unfolding dispatch
  handle h s c = let a = dispatch h s c in (record_webhook h.recording a, a.status)
