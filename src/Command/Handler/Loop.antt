-- ===== src/Command/Handler/Loop.antt =====
-- handler.go: how many replies a command gets, and what the handler makes of its own.
use cigar.Prelude.{
  ℕ, ◌≡◌, refl, ap, ◌∙◌, true, Option, none, some, List, [], ◌∷◌, ◌++◌, ◌⊎◌, inl, inr, Bool-cases,
}
use cigar.Prelude.Int.{ℤ}
use cigar.Prelude.Result.{Result, ok, err}
use cigar.Text.{Text, codes, contains}
use cigar.Text.Search.{contains_prefix, contains-append_left}
use cigar.Crypto.{Hmac}
use cigar.Metrics.{PodSeries, empty}
use cigar.Chart.{Renderers, inline}
use cigar.Advice.{Advice}
use cigar.Reporter.{
  ReportError, resolve_failed, list_failed, upsert_failed, job_not_found, panicked,
}
use cigar.Report.Marker.{marker, marker_prefix}
use cigar.Webhook.Event.{NoteEvent}
use cigar.Command.{Command, kind_help, kind_details, kind_advise, parse, help_text}
use cigar.Command.Handler.{
  Handler, Act, recorded, uploaded, replied, Outcome, HandleError, dropped, after, tagged, reply,
  advised, advise_by, advise_command,
}
use cigar.Command.Handler.Details.{
  ChartSpec, place_chart, finish_charts, chart_reply, series_reply, target_reply, details,
}
use cigar.Command.Handler.Targets.{resolve_pod, Target}
use cigar.Command.Handler.Execution.{execute, handle_parsed, handle_command}

-- The bodies of the replies among the acts.
abbrev pub replies : List Act → List Text
replies [] = []
replies (replied p m d body ∷ acts) = body ∷ replies acts
replies (recorded p k ∷ acts) = replies acts
replies (uploaded p f c ∷ acts) = replies acts

replies-append : (xs ys : List Act) → replies (xs ++ ys) ≡ replies xs ++ replies ys
replies-append [] ys = refl
replies-append (replied p m d body ∷ xs) ys = ap (λ l. body ∷ l) (replies-append xs ys)
replies-append (recorded p k ∷ xs) ys = replies-append xs ys
replies-append (uploaded p f c ∷ xs) ys = replies-append xs ys

-- One reply, which bears the marker; or none, and an error.
abbrev pub Answered : {E : Type 0} → Outcome E → Type 0
Answered {E} o =
    ((body : Text) × (replies o.acts ≡ tagged body ∷ []))
    ⊎ ((replies o.acts ≡ []) × ((e : HandleError E) × (o.error ≡ some e)))

after-Answered :
    {E : Type 0} (acts : List Act) (o : Outcome E)
    → replies acts ≡ []
    → Answered o
    → Answered (after acts o)
after-Answered acts o quiet a = rw (replies-append acts o.acts, quiet) a

module _ {E F : Type 0} (h : Handler E F) where
  reply-Answered : (ev : NoteEvent) (body : Text) → Answered (reply h ev body)
  unfolding reply
  reply-Answered ev body = inl (body, refl)

  advised-Answered :
      (ev : NoteEvent) (p : ℤ) (cmd : Command) (a : Result (ReportError E) (List Advice))
      → Answered (advised h ev p cmd a)
  advised-Answered ev p cmd (ok all) = reply-Answered ev _
  advised-Answered ev p cmd (err (job_not_found sel)) = reply-Answered ev _
  advised-Answered ev p cmd (err (resolve_failed e)) = inr (refl, (_, refl))
  advised-Answered ev p cmd (err (list_failed e)) = inr (refl, (_, refl))
  advised-Answered ev p cmd (err (upsert_failed e)) = inr (refl, (_, refl))
  advised-Answered ev p cmd (err panicked) = inr (refl, (_, refl))

  advise_by-Answered :
      (ev : NoteEvent) (p : ℤ) (cmd : Command)
      (o : Option (ℤ → ℤ → Text → Result (ReportError E) (List Advice)))
      → Answered (advise_by h ev p cmd o)
  advise_by-Answered ev p cmd none = reply-Answered ev _
  advise_by-Answered ev p cmd (some ask) = advised-Answered ev p cmd _

contains-tagged : (body : Text) → contains (tagged body) marker_prefix ≡ true
contains-tagged body =
    contains-append_left marker_prefix marker (body ++ codes "\n\n")
      (contains_prefix marker_prefix (codes " -->"))

module _ {E F : Type 0} (r : Renderers E F) (h : Handler E F) where
  finish_charts-Answered :
      (ev : NoteEvent) (body : Text) (res : List Act × Result (HandleError E) Text)
      (next : Text → Outcome E)
      → replies res.0 ≡ []
      → ((b : Text) → Answered (next b))
      → Answered (finish_charts r h ev body res next)
  finish_charts-Answered ev body (acts, err e) next quiet n = inr (quiet, (e, refl))
  finish_charts-Answered ev body (acts, ok md) next quiet n =
      after-Answered acts (next _) quiet (n _)

  place_chart-quiet :
      (ev : NoteEvent) (c : ChartSpec F) (res : Result E (List ℕ))
      → replies (place_chart r h ev c res).0 ≡ []
  place_chart-quiet ev c (err e) = refl
  place_chart-quiet ev c (ok content) = elim (Bool-cases (inline h.chart_format)) [
    | inl e ↦ rw (e) refl
    | inr e ↦ rw (e) refl
  ]

  chart_reply-Answered :
      (ev : NoteEvent) (body : Text) (cs : List (ChartSpec F))
      → Answered (chart_reply r h ev body cs)
  unfolding chart_reply
  chart_reply-Answered ev body [] = reply-Answered h ev body
  chart_reply-Answered ev body (c ∷ cs) =
      finish_charts-Answered ev body _ _ (place_chart-quiet ev c _)
        (λ b. chart_reply-Answered ev b cs)

  series_reply-Answered :
      (ev : NoteEvent) (cmd : Command) (s : Result E (PodSeries F))
      → Answered (series_reply r h ev cmd s)
  series_reply-Answered ev cmd (err e) = inr (refl, (_, refl))
  series_reply-Answered ev cmd (ok s) = elim (Bool-cases (empty s)) [
    | inl e ↦ rw (e) (reply-Answered h ev _)
    | inr e ↦ rw (e) (chart_reply-Answered ev _ _)
  ]

  target_reply-Answered :
      (ev : NoteEvent) (p : ℤ) (cmd : Command) (t : Target h)
      → Answered (target_reply r h ev p cmd t)
  target_reply-Answered ev p cmd (err e) = inr (refl, (_, refl))
  target_reply-Answered ev p cmd (ok none) = reply-Answered h ev _
  target_reply-Answered ev p cmd (ok (some (pod, start, end))) = series_reply-Answered ev cmd _

  -- Whatever the command, its execution posts one reply, which bears the marker, or none and
  -- returns an error.
  pub execute-Answered : (ev : NoteEvent) (p : ℤ) (cmd : Command) → Answered (execute r h ev p cmd)
  unfolding execute details advise_command
  execute-Answered ev p cmd =
      elim cmd.kind
        as (λ k. Answered (elim k [
          | kind_help ↦ reply h ev help_text
          | kind_details ↦ details r h ev p cmd
          | kind_advise ↦ advise_command h ev p cmd
        ])) [
          | kind_help ↦ reply-Answered h ev help_text
          | kind_details ↦ target_reply-Answered ev p cmd (resolve_pod h ev.project_id p cmd)
          | kind_advise ↦ advise_by-Answered h ev p cmd h.advisor
        ]

  own-dropped :
      (mac : Hmac) (ev : NoteEvent) (c : Option Command)
      → contains ev.body marker_prefix ≡ true
      → handle_parsed r h mac ev c ≡ dropped
  own-dropped mac ev none e = refl
  own-dropped mac ev (some cmd) e = rw (e) refl

  -- A note whose body is one of the handler's own replies is dropped: nothing is posted, uploaded or
  -- counted, and there is no error, whatever GitLab answers.
  pub handle_command-own :
      (mac : Hmac) (ev : NoteEvent) (body : Text)
      → ev.body ≡ tagged body
      → handle_command r h mac ev ≡ dropped
  unfolding handle_command
  handle_command-own mac ev body e =
      own-dropped mac ev (parse ev.body)
        (ap (λ b. contains b marker_prefix) e ∙ contains-tagged body)
