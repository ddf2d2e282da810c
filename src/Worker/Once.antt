-- ===== src/Worker/Once.antt =====
-- serve.go: a note that is delivered again is not handled again.
use cigar.Prelude.{
  ℕ, ◌+◌, ◌≡◌, refl, sym, ap, subst, ◌∙◌, false, ◌||◌, some, List, [], ◌∷◌, arith, Bool-cases, inl,
  inr, length,
}
use cigar.Prelude.Int.{ℤ, eqb_ℤ, eqb_ℤ_iff}
use cigar.Crypto.{Hmac}
use cigar.Float.{Float}
use cigar.Chart.{Renderers}
use cigar.Reporter.{Reporter}
use cigar.Webhook.Event.{NoteEvent, Event, pipeline, note}
use cigar.Command.Handler.{Handler, Outcome}
use cigar.Command.Handler.Execution.{handle_command}
use cigar.Worker.{Worked, has_id, nothing, process, process_note, work_one, work}

-- The identifiers of the notes among the events, and how many pipelines there are.
abbrev pub note_ids : List Event → List ℤ
note_ids [] = []
note_ids (pipeline ev ∷ events) = note_ids events
note_ids (note ev ∷ events) = ev.note_id ∷ note_ids events

abbrev pub pipelines : List Event → ℕ
pipelines [] = 0
pipelines (pipeline ev ∷ events) = pipelines events + 1
pipelines (note ev ∷ events) = pipelines events

abbrev pub Once : List ℤ → Type 0
Once [] = Unit
Once (i ∷ ids) = (has_id ids i ≡ false) × Once ids

abbrev pub handled_ids : {E : Type 0} → List (NoteEvent × Outcome E) → List ℤ
handled_ids [] = []
handled_ids ((ev, o) ∷ handled) = ev.note_id ∷ handled_ids handled

module _ {E F : Type 0} ⦃fl : Float F⦄ (h : Hmac) (r : Renderers E F) (rep : Reporter E F)
    (cmd : Handler E F) where
  -- Each outcome is that of its note.
  abbrev pub AllHandled : List (NoteEvent × Outcome E) → Type 0
  AllHandled [] = Unit
  AllHandled ((ev, o) ∷ handled) = (o ≡ handle_command r cmd h ev) × AllHandled handled

  pub record IsTidy (s : Worked E F) : Type 0 where
    pub table : s.seen ≡ handled_ids s.handled
    pub once : Once s.seen
    pub all : AllHandled s.handled

  work_one-IsTidy :
      (s : Worked E F) (ev : Event) → IsTidy s → IsTidy (work_one h r rep (some cmd) s ev)
  unfolding work_one process process_note
  work_one-IsTidy s (pipeline ev) v = record { table = v.table; once = v.once; all = v.all }
  work_one-IsTidy s (note ev) v = elim (Bool-cases (has_id s.seen ev.note_id)) [
    | inl e ↦ rw (e) v
    | inr e ↦ rw (e) (record {
      table = ap (λ l. ev.note_id ∷ l) v.table;
      once = (e, v.once);
      all = (refl, v.all);
    })
  ]

  -- What a run of the worker from `s` adds.
  pub record Adds (s s' : Worked E F) (events : List Event) : Type 0 where
    pub tidy : IsTidy s'
    pub ids : (i : ℤ) → has_id s'.seen i ≡ (has_id s.seen i || has_id (note_ids events) i)
    pub count : length s'.reports ≡ length s.reports + pipelines events

  note-ids :
      (s : Worked E F) (ev : NoteEvent) (i : ℤ)
      → has_id (process_note h r rep cmd s ev).seen i ≡ (has_id s.seen i || eqb_ℤ i ev.note_id)
  unfolding process_note
  note-ids s ev i = elim (Bool-cases (has_id s.seen ev.note_id)) [
    | inl e ↦ rw (e) (ground (arith, eqb_ℤ_iff i ev.note_id, e))
    | inr e ↦ rw (e) (ground arith)
  ]

  note-reports :
      (s : Worked E F) (ev : NoteEvent) → (process_note h r rep cmd s ev).reports ≡ s.reports
  unfolding process_note
  note-reports s ev = elim (Bool-cases (has_id s.seen ev.note_id)) [
    | inl e ↦ rw (e) refl
    | inr e ↦ rw (e) refl
  ]

  work-Adds :
      (s : Worked E F) (events : List Event)
      → IsTidy s
      → Adds s (work h r rep (some cmd) s events) events
  unfolding work process
  work-Adds s [] v = record { tidy = v; ids = λ i. ground arith; count = omega arith }
  work-Adds s (pipeline ev ∷ events) v =
      let a = work-Adds (process h r rep s ev) events (work_one-IsTidy s (pipeline ev) v) in
      record { tidy = a.tidy; ids = a.ids; count = omega (arith, a.count) }
  work-Adds s (note ev ∷ events) v =
      let a = work-Adds (process_note h r rep cmd s ev) events (work_one-IsTidy s (note ev) v) in
      record {
        tidy = a.tidy;
        ids = λ i. ground (arith, a.ids i, note-ids s ev i);
        count = a.count ∙ ap (λ l. length l + pipelines events) (note-reports s ev);
      }

  -- From an empty table the worker handles the notes whose identifiers it receives, each identifier
  -- once however often it is delivered, with the outcome of the command handler on a note of that
  -- identifier; and it makes one report for each pipeline event.
  pub work-Once :
      (events : List Event)
      → let s = work h r rep (some cmd) nothing events in
        Once (handled_ids s.handled)
        × ((i : ℤ) → has_id (handled_ids s.handled) i ≡ has_id (note_ids events) i)
        × AllHandled s.handled
        × (length s.reports ≡ pipelines events)
  work-Once events =
      let a = work-Adds nothing events (record { table = refl; once = tt; all = tt }) in
      let t = a.tidy.table in
      (
        subst Once t a.tidy.once,
        (λ i. ap (λ l. has_id l i) (sym t) ∙ a.ids i),
        a.tidy.all,
        omega (arith, a.count),
      )
