-- ===== src/Webhook/Handler/Work.antt =====
-- What the worker can rely on, and what a sender without the secret can reach.
use cigar.Prelude.{
  ℕ, ◌≡◌, ◌≢◌, ◌↔◌, Bool, true, false, not, ◌&&◌, Option, none, some, [], ◌∷◌, ◌++◌, arith,
  if◌then◌else◌, is_some, All, All-append, Bool-cases, inl, inr, ap,
}
use cigar.Prelude.Int.{ℤ, pos}
use cigar.Text.{codes, text_eq}
use cigar.Command.{parse}
use cigar.Queue.{Queue}
use cigar.Webhook.Auth.{Request}
use cigar.Webhook.Event.{PipelineEvent, NotePayload, Event, pipeline, note, Json}
use cigar.Webhook.Handler.{
  Handler, Service, Answer, is_terminal, handle, dispatch, put, answer_pipeline, answer_note,
  answer_merge_request, answer,
}
use cigar.Webhook.Handler.Spec.{
  work, work_of_pipeline, work_of_note, work_of_merge_request, Meets, handle-Meets,
}

-- An event that the worker acts on.
abbrev pub IsWork : Event → Type 0
IsWork (pipeline ev) = is_terminal ev.status ≡ true
IsWork (note n) = is_some (parse n.body) ≡ true

abbrev IfWork : Option Event → Type 0
IfWork none = Unit
IfWork (some ev) = IsWork ev

work_of_pipeline-IfWork : (o : Option PipelineEvent) → IfWork (work_of_pipeline o)
unfolding is_terminal
work_of_pipeline-IfWork none = tt
work_of_pipeline-IfWork (some ev) = elim (Bool-cases (is_terminal ev.status)) [
  | inl e ↦ rw e e
  | inr e ↦ rw e tt
]

work_of_merge_request-IfWork : (p : NotePayload) (o : Option ℤ) → IfWork (work_of_merge_request p o)
work_of_merge_request-IfWork p none = tt
work_of_merge_request-IfWork p (some iid) =
    elim (Bool-cases (text_eq p.noteable_type (codes "MergeRequest"))) [
      | inr e ↦ rw e tt
      | inl e ↦ elim (Bool-cases (is_some (parse p.body))) [
        | inr e' ↦ rw (e, e') tt
        | inl e' ↦ rw (e, e') e'
      ]
    ]

work_of_note-IfWork : (o : Option NotePayload) → IfWork (work_of_note o)
work_of_note-IfWork none = tt
work_of_note-IfWork (some p) = work_of_merge_request-IfWork p p.merge_request

choose-IfWork :
    (a p n b : Bool) (wp wn : Option Event)
    → IfWork wp
    → IfWork wn
    → IfWork (if not a then none else if p then wp else if n && b then wn else none)
choose-IfWork false p n b wp wn hp hn = tt
choose-IfWork true true n b wp wn hp hn = hp
choose-IfWork true false false b wp wn hp hn = tt
choose-IfWork true false true false wp wn hp hn = tt
choose-IfWork true false true true wp wn hp hn = hn

put_ne_401 : (s : Service) (project : ℤ) (ev : Event) → (put s project ev).status ≢ 401
unfolding put
put_ne_401 s project ev = ground arith

pipeline_ne_401 :
    (h : Handler) (s : Service) (o : Option PipelineEvent) → (answer_pipeline h s o).status ≢ 401
pipeline_ne_401 h s none = omega arith
pipeline_ne_401 h s (some ev) = elim (Bool-cases (is_terminal ev.status)) [
  | inl e ↦ rw e (put_ne_401 _ _ _)
  | inr e ↦ rw e (omega arith)
]

merge_request_ne_401 :
    (s : Service) (p : NotePayload) (o : Option ℤ) → (answer_merge_request s p o).status ≢ 401
merge_request_ne_401 s p none = omega arith
merge_request_ne_401 s p (some iid) =
    elim (Bool-cases (text_eq p.noteable_type (codes "MergeRequest"))) [
      | inr e ↦ rw e (omega arith)
      | inl e ↦ elim (Bool-cases (is_some (parse p.body))) [
        | inr e' ↦ rw (e, e') (omega arith)
        | inl e' ↦ rw (e, e') (put_ne_401 _ _ _)
      ]
    ]

note_ne_401 :
    (h : Handler) (s : Service) (o : Option NotePayload) → (answer_note h s o).status ≢ 401
note_ne_401 h s none = omega arith
note_ne_401 h s (some p) = merge_request_ne_401 _ p p.merge_request

-- The switch behind the authentication, over any tests.
switch_ne_401 :
    (s : Service) (p n b : Bool) (ap an : Answer)
    → ap.status ≢ 401
    → an.status ≢ 401
    → (if p
        then ap
        else if n
        then if not b then answer s (pos 0) 200 else an
        else answer s (pos 0) 200).status
      ≢ 401
switch_ne_401 s true n b ap an hp hn = hp
switch_ne_401 s false false b ap an hp hn = omega arith
switch_ne_401 s false true false ap an hp hn = omega arith
switch_ne_401 s false true true ap an hp hn = hn

module _ (json : Json) where
  work-IfWork : (h : Handler) (c : Request) → IfWork (work json h c)
  unfolding work
  work-IfWork h c =
      let event = c.header (codes "X-Gitlab-Event") in
      choose-IfWork (h.authentic c) (text_eq event (codes "Pipeline Hook"))
        (text_eq event (codes "Note Hook")) h.commands_enabled
        (work_of_pipeline (json.pipeline_event c.body)) (work_of_note (json.note_payload c.body))
        (work_of_pipeline-IfWork (json.pipeline_event c.body))
        (work_of_note-IfWork (json.note_payload c.body))

  met-AllWork :
      (q q' : Queue Event) (w : Option Event) (status : ℕ)
      → Meets q w q' status
      → IfWork w
      → All IsWork q.ch
      → All IsWork q'.ch
  met-AllWork q q' none status m i all = rw m.0 all
  met-AllWork q q' (some ev) status (inl (room, behind, ok)) i all =
      rw behind.ch (All-append IsWork q.ch (ev ∷ []) all (i, tt))
  met-AllWork q q' (some ev) status (inr (full, same, refused)) i all = rw same all

  -- The queue only ever holds pipelines in a terminal status and notes that parse as a command.
  pub handle-AllWork :
      (h : Handler) (s : Service) (c : Request)
      → All IsWork s.queue.ch
      → All IsWork (handle json h s c).0.queue.ch
  handle-AllWork h s c all =
      met-AllWork s.queue (handle json h s c).0.queue (work json h c) (handle json h s c).1
        (handle-Meets json h s c) (work-IfWork h c) all

  authentic_ne_401 :
      (h : Handler) (s : Service) (c : Request)
      → h.authentic c ≡ true
      → (dispatch json h s c).status ≢ 401
  unfolding dispatch
  authentic_ne_401 h s c e =
      let event = c.header (codes "X-Gitlab-Event") in
      rw e (
        switch_ne_401 s (text_eq event (codes "Pipeline Hook")) (text_eq event (codes "Note Hook"))
          h.commands_enabled (answer_pipeline h s (json.pipeline_event c.body))
          (answer_note h s (json.note_payload c.body))
          (pipeline_ne_401 h s (json.pipeline_event c.body))
          (note_ne_401 h s (json.note_payload c.body)))

  -- A delivery is answered 401 exactly when it is not authentic. It then changes neither the queue
  -- nor the users, and is recorded with no project, if deliveries are recorded.
  pub handle_unauthorized :
      (h : Handler) (s : Service) (c : Request)
      → ((handle json h s c).1 ≡ 401 ↔ h.authentic c ≡ false)
        × (h.authentic c ≡ false
            → (handle json h s c).0 ≡ (
                if h.recording
                then record s { deliveries = s.deliveries ++ (pos 0, 401) ∷ [] }
                else s))
  unfolding handle
  handle_unauthorized h s c = elim (Bool-cases (h.authentic c)) [
    | inl e ↦ ((λ r. absurd (authentic_ne_401 h s c e r), λ f. cc), λ f. cc)
    | inr e ↦ ((λ r. e, λ f. rw (e, dispatch)), λ f. rw (e, dispatch))
  ]
