-- ===== src/Webhook/Handler/Spec.antt =====
-- The handler against a description of the deliveries that it has work for.
use cigar.Prelude.{
  ℕ, ◌≡◌, ◌≢◌, ◌⊎◌, ◌<◌, ◌≤◌, refl, Bool, true, false, not, ◌&&◌, ◌||◌, [], ◌∷◌, ◌++◌, length,
  Option, none, some, arith, if◌then◌else◌, is_some, inl, inr, Bool-cases, subst, sym,
}
use cigar.Prelude.Int.{ℤ, pos}
use cigar.Text.{codes, text_eq}
use cigar.Command.{parse}
use cigar.Queue.{Queue, enqueue}
use cigar.Webhook.Auth.{Request}
use cigar.Webhook.Event.{PipelineEvent, NotePayload, Event, pipeline, note, Json}
use cigar.Webhook.Handler.{
  Handler, Service, Answer, is_terminal, handle, dispatch, note_event, put, answer_pipeline,
  answer_merge_request, answer_note, answer, record_user, record_triggerer, record_webhook,
}

abbrev pub work_of_pipeline : Option PipelineEvent → Option Event
work_of_pipeline none = none
work_of_pipeline (some ev) =
    if text_eq ev.status (codes "success") || text_eq ev.status (codes "failed")
    then some (pipeline ev)
    else none

abbrev pub work_of_merge_request : NotePayload → Option ℤ → Option Event
work_of_merge_request p none = none
work_of_merge_request p (some mr_iid) =
    if text_eq p.noteable_type (codes "MergeRequest") && is_some (parse p.body)
    then some (note (note_event p mr_iid))
    else none

abbrev pub work_of_note : Option NotePayload → Option Event
work_of_note none = none
work_of_note (some p) = work_of_merge_request p p.merge_request

-- The event is the last in the buffer, behind those that were there.
pub record Behind (q : Queue Event) (ev : Event) (q' : Queue Event) : Type 0 where
  pub ch : q'.ch ≡ q.ch ++ ev ∷ []
  pub size : q'.size ≡ q.size
  pub warn_at : q'.warn_at ≡ q.warn_at

-- The answer to a delivery with this work, to a queue.
abbrev pub Meets : Queue Event → Option Event → Queue Event → ℕ → Type 0
Meets q none q' status = (q' ≡ q) × (status ≢ 503)
Meets q (some ev) q' status =
    ((length q.ch < q.size) × Behind q ev q' × (status ≡ 200))
    ⊎ ((q.size ≤ length q.ch) × (q' ≡ q) × (status ≡ 503))

enqueue-Behind :
    (q : Queue Event) (ev : Event)
    → ((length q.ch < q.size) × Behind q ev (enqueue q ev).0 × ((enqueue q ev).1 ≡ true))
      ⊎ ((q.size ≤ length q.ch) × (enqueue q ev ≡ (q, false)))
unfolding enqueue
enqueue-Behind q ev = ground arith

abbrev AnswerMeets : Queue Event → Option Event → Answer → Type 0
AnswerMeets q w a = Meets q w a.service.queue a.status

put-Meets :
    (s s' : Service) (project : ℤ) (ev : Event)
    → s'.queue ≡ s.queue
    → AnswerMeets s.queue (some ev) (put s' project ev)
unfolding put
put-Meets s s' project ev e = rw e (ground (arith, enqueue-Behind s.queue ev))

record_user-queue :
    (recording : Bool) (s : Service) (user : ℤ) → (record_user recording s user).queue ≡ s.queue
record_user-queue true s user = refl
record_user-queue false s user = refl

record_triggerer-queue :
    (recording : Bool) (s : Service) (user : Option ℤ)
    → (record_triggerer recording s user).queue ≡ s.queue
record_triggerer-queue recording s none = refl
record_triggerer-queue recording s (some user) = record_user-queue recording s user

pipeline-Meets :
    (h : Handler) (s : Service) (o : Option PipelineEvent)
    → AnswerMeets s.queue (work_of_pipeline o) (answer_pipeline h s o)
unfolding is_terminal
pipeline-Meets h s none = (refl, omega arith)
pipeline-Meets h s (some ev) =
    let kept = record_triggerer-queue h.recording s ev.user in
    elim (Bool-cases (is_terminal ev.status)) [
      | inl e ↦ rw e (put-Meets s (record_triggerer h.recording s ev.user) ev.project_id _ kept)
      | inr e ↦ rw e (kept, omega arith)
    ]

merge_request-Meets :
    (s s' : Service) (p : NotePayload) (o : Option ℤ)
    → s'.queue ≡ s.queue
    → AnswerMeets s.queue (work_of_merge_request p o) (answer_merge_request s' p o)
merge_request-Meets s s' p none kept = (kept, omega arith)
merge_request-Meets s s' p (some iid) kept =
    elim (Bool-cases (text_eq p.noteable_type (codes "MergeRequest"))) [
      | inr e ↦ rw e (kept, omega arith)
      | inl e ↦ elim (Bool-cases (is_some (parse p.body))) [
        | inr e' ↦ rw (e, e') (kept, omega arith)
        | inl e' ↦ rw (e, e') (put-Meets s s' p.project_id (note (note_event p iid)) kept)
      ]
    ]

note-Meets :
    (h : Handler) (s : Service) (o : Option NotePayload)
    → AnswerMeets s.queue (work_of_note o) (answer_note h s o)
note-Meets h s none = (refl, omega arith)
note-Meets h s (some p) =
    merge_request-Meets s (record_user h.recording s p.author_id) p p.merge_request
      (record_user-queue h.recording s p.author_id)

-- The switch of `handle`, over any tests.
gates :
    (s : Service) (authentic is_pipeline is_note enabled : Bool) (wp wn : Option Event)
    (ap an : Answer)
    → AnswerMeets s.queue wp ap
    → AnswerMeets s.queue wn an
    → AnswerMeets s.queue
        (if not authentic
          then none
          else if is_pipeline
          then wp
          else if is_note && enabled
          then wn
          else none)
        (if not authentic
          then answer s (pos 0) 401
          else if is_pipeline
          then ap
          else if is_note
          then if not enabled then answer s (pos 0) 200 else an
          else answer s (pos 0) 200)
gates s false p n b wp wn ap an mp mn = (refl, omega arith)
gates s true true n b wp wn ap an mp mn = mp
gates s true false false b wp wn ap an mp mn = (refl, omega arith)
gates s true false true false wp wn ap an mp mn = (refl, omega arith)
gates s true false true true wp wn ap an mp mn = mn

record_webhook-queue :
    (recording : Bool) (a : Answer) → (record_webhook recording a).queue ≡ a.service.queue
record_webhook-queue true a = refl
record_webhook-queue false a = refl

module _ (json : Json) where
  -- The unit of work of a delivery, if it has one: a pipeline in a terminal status, or a command
  -- in a note on a merge request while commands are enabled.
  unfoldable pub work : Handler → Request → Option Event
  work h c =
      let event = c.header (codes "X-Gitlab-Event") in
      if not (h.authentic c)
      then none
      else if text_eq event (codes "Pipeline Hook")
      then work_of_pipeline (json.pipeline_event c.body)
      else if text_eq event (codes "Note Hook") && h.commands_enabled
      then work_of_note (json.note_payload c.body)
      else none

  dispatch-Meets :
      (h : Handler) (s : Service) (c : Request)
      → AnswerMeets s.queue (work h c) (dispatch json h s c)
  unfolding dispatch work
  dispatch-Meets h s c =
      let event = c.header (codes "X-Gitlab-Event") in
      let p = json.pipeline_event c.body in
      let n = json.note_payload c.body in
      gates s (h.authentic c) (text_eq event (codes "Pipeline Hook"))
        (text_eq event (codes "Note Hook")) h.commands_enabled (work_of_pipeline p) (work_of_note n)
        (answer_pipeline h s p) (answer_note h s n) (pipeline-Meets h s p) (note-Meets h s n)

  -- A delivery with work, to a queue with room, has it put behind all that is in the queue, whose
  -- capacity and threshold stay, and is answered 200; without room it leaves the queue as before and is
  -- answered 503. A delivery without work leaves the queue as before and is not answered 503.
  pub handle-Meets :
      (h : Handler) (s : Service) (c : Request)
      → Meets s.queue (work h c) (handle json h s c).0.queue (handle json h s c).1
  unfolding handle
  handle-Meets h s c =
      let a = dispatch json h s c in
      subst (λ (q : Queue Event). Meets s.queue (work h c) q a.status)
        (sym (record_webhook-queue h.recording a)) (dispatch-Meets h s c)
