-- ===== src/Command/Handler/Authority.antt =====
-- handler.go: which notes are obeyed.
use cigar.Prelude.{◌≡◌, refl, false, Option, none, some, ◌⊎◌, inl, inr, Bool-cases, ap, ◌∙◌}
use cigar.Prelude.Int.{ℤ, eqb_ℤ, eqb_ℤ_iff}
use cigar.Prelude.Result.{Result, ok, err}
use cigar.Text.{contains}
use cigar.Crypto.{Hmac}
use cigar.Chart.{Renderers}
use cigar.Gitlab.{Discussion}
use cigar.Report.Marker.{marker_prefix, parse_signed_marker}
use cigar.Webhook.Event.{NoteEvent}
use cigar.Command.{Command, parse}
use cigar.Command.Handler.{Handler, Outcome, authorize_failed, dropped, failed, after}
use cigar.Command.Handler.Execution.{
  execute, count_command, run_marked, run_authorized, handle_parsed, handle_command,
}
use cigar.Command.Handler.Loop.{Answered, execute-Answered}

module _ {E F : Type 0} (r : Renderers E F) (h : Handler E F) (mac : Hmac) where
  abbrev pub discussion_of : NoteEvent → Result E Discussion
  discussion_of ev = h.gitlab.merge_request_discussion ev.project_id ev.mr_iid ev.discussion_id

  -- The note is a command, no note of the bot's, in a thread that the bot opened with a marker of
  -- its own signature for this merge request; then `p` is the pipeline of the marker.
  unfoldable pub Obeyed : NoteEvent → Command → ℤ → Type 0
  Obeyed ev cmd p =
      (parse ev.body ≡ some cmd)
      × (contains ev.body marker_prefix ≡ false)
      × ((disc : Discussion) × (discussion_of ev ≡ ok disc)
          × (disc.root_note_author_id ≡ h.bot_user_id)
          × (parse_signed_marker mac disc.root_note_body h.signing_key ≡ some (p, ev.mr_iid)))

  -- What comes of a note: its command is executed for the marker's pipeline, behind the count of
  -- commands, and gets one reply or an error; or nothing happens; or the discussion of a command
  -- could not be read, and the error is returned.
  pub Outcomes : NoteEvent → Outcome E → Type 0
  Outcomes ev o =
      ((cmd : Command) × (p : ℤ) × Obeyed ev cmd p
        × (o ≡ after (count_command r h ev cmd) (execute r h ev p cmd))
        × Answered (execute r h ev p cmd))
      ⊎ ((o ≡ dropped) ⊎ ((e : E) × (discussion_of ev ≡ err e) × (o ≡ failed (authorize_failed e))))

  run_marked-Obeys :
      (ev : NoteEvent) (cmd : Command) (disc : Discussion) (m : Option (ℤ × ℤ))
      → parse ev.body ≡ some cmd
      → contains ev.body marker_prefix ≡ false
      → discussion_of ev ≡ ok disc
      → disc.root_note_author_id ≡ h.bot_user_id
      → parse_signed_marker mac disc.root_note_body h.signing_key ≡ m
      → Outcomes ev (run_marked r h ev cmd m)
  unfolding Outcomes Obeyed
  run_marked-Obeys ev cmd disc none e1 e2 e3 e4 e5 = inr (inl refl)
  run_marked-Obeys ev cmd disc (some (p, mr)) e1 e2 e3 e4 e5 =
      elim (Bool-cases (eqb_ℤ mr ev.mr_iid)) [
        | inl same ↦ rw (same) (
            inl (
              cmd,
              p,
              (
                e1,
                e2,
                (disc, e3, e4, e5 ∙ ap (λ k. some (p, k)) ((eqb_ℤ_iff mr ev.mr_iid).0 same)),
              ),
              refl,
              execute-Answered r h ev p cmd,
            ))
        | inr other ↦ rw (other) (inr (inl refl))
      ]

  run_authorized-Obeys :
      (ev : NoteEvent) (cmd : Command) (d : Result E Discussion)
      → parse ev.body ≡ some cmd
      → contains ev.body marker_prefix ≡ false
      → discussion_of ev ≡ d
      → Outcomes ev (run_authorized r h mac ev cmd d)
  unfolding Outcomes
  run_authorized-Obeys ev cmd (err e) e1 e2 e3 = inr (inr (e, e3, refl))
  run_authorized-Obeys ev cmd (ok disc) e1 e2 e3 =
      elim (Bool-cases (eqb_ℤ disc.root_note_author_id h.bot_user_id)) [
        | inl bot ↦ rw (bot) (
            run_marked-Obeys ev cmd disc _ e1 e2 e3
              ((eqb_ℤ_iff disc.root_note_author_id h.bot_user_id).0 bot) refl)
        | inr other ↦ rw (other) (inr (inl refl))
      ]

  handle_parsed-Obeys :
      (ev : NoteEvent) (c : Option Command)
      → parse ev.body ≡ c
      → Outcomes ev (handle_parsed r h mac ev c)
  unfolding Outcomes
  handle_parsed-Obeys ev none e = inr (inl refl)
  handle_parsed-Obeys ev (some cmd) e = elim (Bool-cases (contains ev.body marker_prefix)) [
    | inl own ↦ rw (own) (inr (inl refl))
    | inr foreign ↦ rw (foreign) (run_authorized-Obeys ev cmd _ e foreign refl)
  ]

  -- A command is executed only for a note that is no note of the bot's, in a thread that the bot
  -- opened with a marker of its own signature for this merge request, and then on the pipeline of
  -- that marker, with one tagged reply or an error. Any other note is dropped, or, if the discussion
  -- could not be read, gets the error.
  pub handle_command-Obeys : (ev : NoteEvent) → Outcomes ev (handle_command r h mac ev)
  unfolding handle_command
  handle_command-Obeys ev = handle_parsed-Obeys ev (parse ev.body) refl

  -- A note that may be obeyed is: its command is counted and executed for the marker's pipeline.
  pub handle_command-Obeyed :
      (ev : NoteEvent) (cmd : Command) (p : ℤ)
      → Obeyed ev cmd p
      → handle_command r h mac ev ≡ after (count_command r h ev cmd) (execute r h ev p cmd)
  unfolding handle_command Obeyed
  handle_command-Obeyed ev cmd p (e1, e2, (disc, e3, e4, e5)) =
      rw
        (
          e1,
          e2,
          e3,
          (eqb_ℤ_iff disc.root_note_author_id h.bot_user_id).1 e4,
          e5,
          (eqb_ℤ_iff ev.mr_iid ev.mr_iid).1 refl,
          handle_command,
        )
        refl
