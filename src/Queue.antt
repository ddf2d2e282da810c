-- ===== src/Queue.antt =====
-- cmd/bot/serve.go, `queue`: the bounded buffer between the webhook handlers and the worker.
-- The buffered channel is the list of the events in it, oldest first; the warnings that `Enqueue`
-- logs are kept in `log`.
pub mod Bounds
pub mod Crossings
pub mod Interleaving
mod Tests
use cigar.Prelude.{
  ℕ, ◌+◌, ◌*◌, ◌/◌, Bool, true, false, Option, none, some, List, [], ◌∷◌, ◌++◌, ltb, leb,
  if◌then◌else◌, length,
}

abbrev pub queue_size : ℕ
queue_size = 128

abbrev pub queue_warn_percent : ℕ
queue_warn_percent = 80

-- The fields of "worker queue nearly full".
pub record Warning : Type 0 where
  pub depth : ℕ
  pub capacity : ℕ
  pub threshold : ℕ

pub record Queue {ℓ} (A : Type ℓ) : Type ℓ where
  pub ch : List A
  pub size : ℕ
  pub warn_at : ℕ
  pub warned : Bool
  pub log : List Warning

unfoldable pub warn_at_of : ℕ → ℕ
warn_at_of size = (size * queue_warn_percent + 99) / 100

unfoldable pub new_queue {ℓ} : {A : Type ℓ} → ℕ → Queue A
unfolding warn_at_of
new_queue size = record {
  ch = [];
  size = size;
  warn_at = warn_at_of size;
  warned = false;
  log = [];
}

module _ {ℓ} {A : Type ℓ} where
  abbrev pub warning : Queue A → ℕ → Warning
  warning q depth = record { depth = depth; capacity = q.size; threshold = q.warn_at }

  -- `if q.warned.CompareAndSwap(false, true) { q.log.Warn(...) }`
  unfoldable pub swap_warned : Queue A → ℕ → Queue A
  swap_warned q depth =
      if q.warned then q else record q { warned = true; log = q.log ++ warning q depth ∷ [] }

  -- The inner switch, on the depth that `len(q.ch)` showed.
  unfoldable pub note_depth : Queue A → ℕ → Queue A
  unfolding swap_warned
  note_depth q depth =
      if leb q.warn_at depth then swap_warned q depth else record q { warned = false }

  -- The send, which takes place if the buffer has room.
  unfoldable pub send : Queue A → A → Option (Queue A)
  send q ev = if ltb (length q.ch) q.size then some (record q { ch = q.ch ++ ev ∷ [] }) else none

  -- `Enqueue` with nothing between its steps.
  unfoldable pub enqueue : Queue A → A → Queue A × Bool
  unfolding send note_depth
  enqueue q ev = elim (send q ev) [
    | none ↦ (q, false)
    | some sent ↦ (note_depth sent (length sent.ch), true)
  ]

  abbrev pub rest_of : Queue A → List A → Option (A × Queue A)
  rest_of q [] = none
  rest_of q (ev ∷ ch) = some (ev, record q { ch = ch })

  -- `<-q.ch`; `none` while it would block.
  unfoldable pub receive : Queue A → Option (A × Queue A)
  receive q = rest_of q q.ch
