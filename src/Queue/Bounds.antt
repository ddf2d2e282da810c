-- ===== src/Queue/Bounds.antt =====
-- The buffer never exceeds its capacity, and hands the events on in the order in which it took them.
use cigar.Prelude.{
  ℕ, ◌*◌, ◌≤◌, ◌<◌, ◌≡◌, ◌↔◌, refl, ◌⊎◌, true, false, none, some, List, [], ◌∷◌, ◌++◌, arith,
  if◌then◌else◌, length, length-append, append_assoc,
}
use cigar.Queue.{Queue, warn_at_of, new_queue, enqueue, receive, queue_warn_percent}

-- The threshold is the first depth that is at or above the percentage of the capacity.
warn_at_first :
    (size depth : ℕ) → (warn_at_of size ≤ depth) ↔ (size * queue_warn_percent ≤ depth * 100)
unfolding warn_at_of
warn_at_first size depth = (λ h. omega arith, λ h. omega arith)

-- What the handlers and the worker do with the queue.
pub data Op {ℓ} (A : Type ℓ) : Type ℓ where
  put : A → Op A
  take_one : Op A

-- A queue with the events that it has taken and handed on so far.
pub record Run {ℓ} (A : Type ℓ) : Type ℓ where
  pub queue : Queue A
  pub accepted : List A
  pub received : List A

module _ {A : Type 0} where
  -- `Enqueue` fails exactly when the buffer is full, and then changes nothing; else it puts the
  -- event last. The capacity and the threshold stay.
  pub enqueue_cases :
      (q : Queue A) (ev : A)
      → ((q.size ≤ length q.ch) × (enqueue q ev ≡ (q, false)))
        ⊎ ((length q.ch < q.size)
            × ((enqueue q ev).1 ≡ true)
            × ((enqueue q ev).0.ch ≡ q.ch ++ ev ∷ [])
            × ((enqueue q ev).0.size ≡ q.size)
            × ((enqueue q ev).0.warn_at ≡ q.warn_at))
  unfolding enqueue
  enqueue_cases q ev = ground arith

  unfoldable pub step : Run A → Op A → Run A
  step r (put ev) =
      let (q, done) = enqueue r.queue ev in
      record {
        queue = q;
        accepted = if done then r.accepted ++ ev ∷ [] else r.accepted;
        received = r.received;
      }
  step r take_one = elim (receive r.queue) [
    | none ↦ r
    | some (ev, q) ↦ record r { queue = q; received = r.received ++ ev ∷ [] }
  ]

  unfoldable pub run : Run A → List (Op A) → Run A
  run r [] = r
  run r (op ∷ ops) = run (step r op) ops

  abbrev pub start : ℕ → Run A
  start size = record { queue = new_queue size; accepted = []; received = [] }

  pub record IsOrderly (size : ℕ) (r : Run A) : Type 0 where
    pub same_size : r.queue.size ≡ size
    pub within : length r.queue.ch ≤ size
    pub in_order : r.accepted ≡ r.received ++ r.queue.ch

  put-IsOrderly :
      (size : ℕ) (r : Run A) (ev : A) → IsOrderly size r → IsOrderly size (step r (put ev))
  unfolding step enqueue
  put-IsOrderly size r ev v =
      ground
        (arith, length-append r.queue.ch (ev ∷ []), append_assoc r.received r.queue.ch (ev ∷ []))

  take-IsOrderly :
      (size : ℕ) (r : Run A) (ch : List A)
      → r.queue.ch ≡ ch
      → IsOrderly size r
      → IsOrderly size (step r take_one)
  unfolding step receive
  take-IsOrderly size r [] e v = ground arith
  take-IsOrderly size r (ev ∷ ch) e v = ground (arith, append_assoc r.received (ev ∷ []) ch)

  step-IsOrderly :
      (size : ℕ) (r : Run A) (op : Op A) → IsOrderly size r → IsOrderly size (step r op)
  step-IsOrderly size r (put ev) v = put-IsOrderly size r ev v
  step-IsOrderly size r take_one v = take-IsOrderly size r r.queue.ch refl v

  run_from-IsOrderly :
      (size : ℕ) (r : Run A) (ops : List (Op A)) → IsOrderly size r → IsOrderly size (run r ops)
  unfolding run
  run_from-IsOrderly size r [] v = v
  run_from-IsOrderly size r (op ∷ ops) v =
      run_from-IsOrderly size (step r op) ops (step-IsOrderly size r op v)

  -- Whatever is put and taken, the buffer holds at most its capacity, and what was received, with
  -- what is still in the buffer behind it, is what was accepted, in the same order.
  run-IsOrderly : (size : ℕ) (ops : List (Op A)) → IsOrderly size (run (start size) ops)
  unfolding new_queue
  run-IsOrderly size ops =
      run_from-IsOrderly size (start size) ops
        (record { same_size = refl; within = omega arith; in_order = refl })
