-- ===== src/Worker.antt =====
-- cmd/bot/serve.go: the worker behind the queue, and the choice of the authenticator. Contexts with
-- their timeouts, and logging, are left out.
pub mod Once
mod Tests
use cigar.Prelude.{
  ℕ, Bool, true, false, ◌||◌, Option, none, some, List, [], ◌∷◌, ◌++◌, any, if◌then◌else◌,
}
use cigar.Prelude.Int.{ℤ, pos, eqb_ℤ}
use cigar.Prelude.Result.{Result, ok, err}
use cigar.Text.{Text, codes, text_eq, is_empty}
use cigar.Crypto.{Hmac}
use cigar.Float.{Float}
use cigar.Chart.{Renderers}
use cigar.Reporter
use cigar.Reporter.{Reporter, process_pipeline}
use cigar.Webhook.Auth.{
  Authenticator, TokenError, secret_auth, default_timestamp_tolerance, new_signing_token_auth,
}
use cigar.Webhook.Event.{PipelineEvent, NoteEvent, Event, pipeline, note}
use cigar.Command.Handler
use cigar.Command.Handler.Execution.{handle_command}

pub data ConfigError : Type 0 where
  no_secret no_signing_token : ConfigError
  bad_token : TokenError → ConfigError
  unknown_method : Text → ConfigError

abbrev pub token_or_error : Result TokenError Authenticator → Result ConfigError Authenticator
token_or_error (ok a) = ok a
token_or_error (err e) = err (bad_token e)

-- `buildAuthenticator`, on the method and the two credentials of the configuration.
unfoldable pub build_authenticator : Text → Text → Text → Result ConfigError Authenticator
build_authenticator method secret token =
    if text_eq method (codes "secret")
    then if is_empty secret then err no_secret else ok (secret_auth secret)
    else if text_eq method (codes "signing_token")
    then if is_empty token
      then err no_signing_token
      else token_or_error (new_signing_token_auth token default_timestamp_tolerance)
    else err (unknown_method method)

-- The number of the merge request, 0 where the event has none.
abbrev pub iid_or_zero : Option ℤ → ℤ
iid_or_zero none = pos 0
iid_or_zero (some iid) = iid

-- The table `seen`, and what was done so far, the newest first.
pub record Worked (E F : Type 0) : Type 0 where
  pub seen : List ℤ
  pub reports : List (cigar.Reporter.Outcome E)
  pub handled : List (NoteEvent × cigar.Command.Handler.Outcome E)

abbrev pub has_id : List ℤ → ℤ → Bool
has_id ids id = any (eqb_ℤ id) ids

abbrev pub nothing : {E F : Type 0} → Worked E F
nothing = record { seen = []; reports = []; handled = [] }

module _ {E F : Type 0} ⦃fl : Float F⦄ (h : Hmac) (r : Renderers E F) (rep : Reporter E F) where
  unfoldable pub process : Worked E F → PipelineEvent → Worked E F
  process s ev = record s {
    reports =
        process_pipeline h rep ev.project_id ev.id (iid_or_zero ev.merge_request) ev.branch
          ev.status
        ∷ s.reports;
  }

  unfoldable pub process_note :
      cigar.Command.Handler.Handler E F → Worked E F → NoteEvent → Worked E F
  process_note cmd s ev = if has_id s.seen ev.note_id then s else record s {
    seen = ev.note_id ∷ s.seen;
    handled = (ev, handle_command r cmd h ev) ∷ s.handled;
  }

  -- One event that the worker receives; without a handler notes are passed over.
  unfoldable pub work_one :
      Option (cigar.Command.Handler.Handler E F) → Worked E F → Event → Worked E F
  unfolding process process_note
  work_one cmd s (pipeline ev) = process s ev
  work_one none s (note ev) = s
  work_one (some cmd) s (note ev) = process_note cmd s ev

  -- The loop of `worker` over the events that the queue hands on.
  unfoldable pub work :
      Option (cigar.Command.Handler.Handler E F) → Worked E F → List Event → Worked E F
  unfolding work_one
  work cmd s [] = s
  work cmd s (ev ∷ events) = work cmd (work_one cmd s ev) events
