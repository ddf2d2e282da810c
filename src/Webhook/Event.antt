-- ===== src/Webhook/Event.antt =====
-- internal/webhook/handler.go and internal/command/command.go: the payloads of the two hooks as
-- `encoding/json` fills them, and the units of work that the handler passes to the worker.
use cigar.Prelude.{Option}
use cigar.Prelude.Int.{ℤ}
use cigar.Text.{Text}

-- A pointer that the payload leaves out is `none`; an id stands for a structure with that id alone.
pub record PipelineEvent : Type 0 where
  pub object_kind : Text
  pub id : ℤ
  pub status : Text
  pub branch : Text
  pub project_id : ℤ
  pub user : Option ℤ
  pub merge_request : Option ℤ

pub record NotePayload : Type 0 where
  pub id : ℤ
  pub body : Text
  pub noteable_type : Text
  pub discussion_id : Text
  pub author_id : ℤ
  pub project_id : ℤ
  pub merge_request : Option ℤ

pub record NoteEvent : Type 0 where
  pub project_id : ℤ
  pub mr_iid : ℤ
  pub note_id : ℤ
  pub discussion_id : Text
  pub author_id : ℤ
  pub body : Text

-- Exactly one of the two fields of `Event` is set.
pub data Event : Type 0 where
  pipeline : PipelineEvent → Event
  note : NoteEvent → Event

-- `json.Unmarshal` into the two payloads; `none` is its error.
pub record Json : Type 0 where
  pub pipeline_event : Text → Option PipelineEvent
  pub note_payload : Text → Option NotePayload
