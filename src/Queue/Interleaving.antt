-- ===== src/Queue/Interleaving.antt =====
-- `Enqueue` called from many request handlers at once, beside the worker. The send, the reading of
-- the length and the compare-and-swap or store are single steps of a call; other calls and the
-- worker may run between them.
use cigar.Prelude.{
  ℕ, ◌+◌, ◌≤◌, ◌<◌, ◌≡◌, refl, Bool, true, false, List, [], ◌∷◌, ◌++◌, arith, length, length-append,
  append_assoc,
}
use cigar.Queue.{Queue, new_queue, note_depth}

-- How far a call of `Enqueue` has come.
pub data Call {ℓ} (A : Type ℓ) : Type ℓ where
  ready : A → Call A
  sent : Call A
  measured : ℕ → Call A
  ended : Bool → Call A

pub record World {ℓ} (A : Type ℓ) : Type ℓ where
  pub queue : Queue A
  pub calls : List (Call A)
  pub accepted : List A
  pub received : List A

module _ {A : Type 0} where
  pub data Step (w : World A) : World A → Type 0 where
    call : (ev : A) → Step w (record w { calls = w.calls ++ ready ev ∷ [] })
    send_room :
        (ev : A) (before after : List (Call A))
        → w.calls ≡ before ++ ready ev ∷ after
        → length w.queue.ch < w.queue.size
        → Step w (record w {
          queue = record (w.queue) { ch = w.queue.ch ++ ev ∷ [] };
          calls = before ++ sent ∷ after;
          accepted = w.accepted ++ ev ∷ [];
        })
    send_full :
        (ev : A) (before after : List (Call A))
        → w.calls ≡ before ++ ready ev ∷ after
        → w.queue.size ≤ length w.queue.ch
        → Step w (record w { calls = before ++ ended false ∷ after })
    measure :
        (before after : List (Call A))
        → w.calls ≡ before ++ sent ∷ after
        → Step w (record w { calls = before ++ measured (length w.queue.ch) ∷ after })
    note :
        (d : ℕ) (before after : List (Call A))
        → w.calls ≡ before ++ measured d ∷ after
        → Step w (record w { queue = note_depth w.queue d; calls = before ++ ended true ∷ after })
    take_one :
        (ev : A) (rest : List A)
        → w.queue.ch ≡ ev ∷ rest
        → Step w
            (record w { queue = record (w.queue) { ch = rest }; received = w.received ++ ev ∷ [] })

  pub data Reach (w : World A) : World A → Type 0 where
    here : Reach w w
    next : {u v : World A} → Reach w u → Step u v → Reach w v

  -- The calls whose event is in the buffer or was, and those that return `true`.
  abbrev pub sent_one : Call A → ℕ
  sent_one (ready ev) = 0
  sent_one sent = 1
  sent_one (measured d) = 1
  sent_one (ended true) = 1
  sent_one (ended false) = 0

  abbrev pub sent_count : List (Call A) → ℕ
  sent_count [] = 0
  sent_count (c ∷ cs) = sent_one c + sent_count cs

  abbrev pub done_one : Call A → ℕ
  done_one (ended true) = 1
  done_one (ended false) = 0
  done_one _ = 0

  abbrev pub done_count : List (Call A) → ℕ
  done_count [] = 0
  done_count (c ∷ cs) = done_one c + done_count cs

  sent_count-append :
      (xs ys : List (Call A)) → sent_count (xs ++ ys) ≡ sent_count xs + sent_count ys
  sent_count-append [] ys = omega arith
  sent_count-append (x ∷ xs) ys = omega (arith, sent_count-append xs ys)

  done_count-append :
      (xs ys : List (Call A)) → done_count (xs ++ ys) ≡ done_count xs + done_count ys
  done_count-append [] ys = omega arith
  done_count-append (x ∷ xs) ys = omega (arith, done_count-append xs ys)

  pub record IsSafe (size : ℕ) (w : World A) : Type 0 where
    pub same_size : w.queue.size ≡ size
    pub within : length w.queue.ch ≤ size
    pub in_order : w.accepted ≡ w.received ++ w.queue.ch
    pub all_sent : sent_count w.calls ≡ length w.accepted
    pub few_warnings : length w.queue.log ≤ done_count w.calls

  Step-IsSafe : {size : ℕ} {w w' : World A} → Step w w' → IsSafe size w → IsSafe size w'
  unfolding note_depth
  Step-IsSafe {size} {w} (call ev) v =
      ground (
        arith,
        sent_count-append w.calls (ready ev ∷ []),
        done_count-append w.calls (ready ev ∷ []),
      )
  Step-IsSafe {size} {w} (send_room ev before after e room) v = ground (
    arith,
    sent_count-append before (ready ev ∷ after),
    done_count-append before (ready ev ∷ after),
    sent_count-append before (sent ∷ after),
    done_count-append before (sent ∷ after),
    length-append w.queue.ch (ev ∷ []),
    length-append w.accepted (ev ∷ []),
    append_assoc w.received w.queue.ch (ev ∷ []),
  )
  Step-IsSafe {size} {w} (send_full ev before after e full) v = ground (
    arith,
    sent_count-append before (ready ev ∷ after),
    done_count-append before (ready ev ∷ after),
    sent_count-append before (ended false ∷ after),
    done_count-append before (ended false ∷ after),
  )
  Step-IsSafe {size} {w} (measure before after e) v = ground (
    arith,
    sent_count-append before (sent ∷ after),
    done_count-append before (sent ∷ after),
    sent_count-append before (measured (length w.queue.ch) ∷ after),
    done_count-append before (measured (length w.queue.ch) ∷ after),
  )
  Step-IsSafe {size} {w} (note d before after e) v = ground (
    arith,
    sent_count-append before (measured d ∷ after),
    done_count-append before (measured d ∷ after),
    sent_count-append before (ended true ∷ after),
    done_count-append before (ended true ∷ after),
    length-append w.queue.log
        (record { depth = d; capacity = w.queue.size; threshold = w.queue.warn_at } ∷ []),
  )
  Step-IsSafe {size} {w} (take_one ev rest e) v =
      ground (arith, append_assoc w.received (ev ∷ []) rest)

  Reach-from-IsSafe : {size : ℕ} {w w' : World A} → IsSafe size w → Reach w w' → IsSafe size w'
  Reach-from-IsSafe v here = v
  Reach-from-IsSafe v (next r s) = Step-IsSafe s (Reach-from-IsSafe v r)

  abbrev pub initial : ℕ → World A
  initial size = record { queue = new_queue size; calls = []; accepted = []; received = [] }

  -- Under every interleaving the buffer holds at most its capacity, the worker gets the accepted
  -- events in their order with none lost or repeated, and there are at most as many warnings as
  -- calls that returned `true`.
  pub Reach-IsSafe : (size : ℕ) {w : World A} → Reach (initial size) w → IsSafe size w
  unfolding new_queue
  Reach-IsSafe size r =
      Reach-from-IsSafe
        (record {
          same_size = refl;
          within = omega arith;
          in_order = refl;
          all_sent = refl;
          few_warnings = omega arith;
        })
        r
