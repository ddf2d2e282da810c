-- ===== src/Queue/Crossings.antt =====
-- The "nearly full" warnings of calls of `Enqueue` that are one after another.
use cigar.Prelude.{
  ℕ, ◌+◌, ◌≡◌, refl, sym, ◌∙◌, Bool, true, not, ◌&&◌, List, [], ◌∷◌, ◌++◌, arith, leb, ltb,
  if◌then◌else◌, length, append_assoc, append-nil, length-append,
}
use cigar.Queue.{Queue, Warning, warning, enqueue, receive}
use cigar.Queue.Bounds.{Op, put, take_one, Run, step, run}

-- The depths among a row of observed ones that are at or above the threshold when the one before
-- was below it.
abbrev pub crossings : ℕ → Bool → List ℕ → List ℕ
crossings at above [] = []
crossings at above (d ∷ ds) =
    let rest = crossings at (leb at d) ds in if leb at d && not above then d ∷ rest else rest

abbrev pub depths : List Warning → List ℕ
depths [] = []
depths (w ∷ ws) = w.depth ∷ depths ws

depths-append : (xs ys : List Warning) → depths (xs ++ ys) ≡ depths xs ++ depths ys
depths-append [] ys = refl
depths-append (x ∷ xs) ys = ground (arith, depths-append xs ys)

module _ {A : Type 0} where
  -- The depth behind each event that is accepted.
  pub observed : Run A → List (Op A) → List ℕ
  observed r [] = []
  observed r (put ev ∷ ops) =
      let rest = observed (step r (put ev)) ops in
      if ltb (length r.queue.ch) r.queue.size then (length r.queue.ch + 1) ∷ rest else rest
  observed r (take_one ∷ ops) = observed (step r take_one) ops

  abbrev Keeps : Queue A → Queue A → Type 0
  Keeps q q' = (q'.log ≡ q.log) × (q'.warned ≡ q.warned) × (q'.warn_at ≡ q.warn_at)

  take-Keeps : (r : Run A) (ch : List A) → r.queue.ch ≡ ch → Keeps r.queue (step r take_one).queue
  unfolding step receive
  take-Keeps r [] e = ground arith
  take-Keeps r (ev ∷ ch) e = ground arith

  -- What a call of `Enqueue` does with the warnings.
  put-log :
      (r : Run A) (ev : A) (ds : List ℕ)
      → let q = (step r (put ev)).queue in
        depths q.log ++ crossings q.warn_at q.warned ds
        ≡ depths r.queue.log
          ++ crossings r.queue.warn_at r.queue.warned
              (if ltb (length r.queue.ch) r.queue.size then (length r.queue.ch + 1) ∷ ds else ds)
  unfolding step enqueue
  put-log r ev ds =
      let depth = length r.queue.ch + 1 in
      let sent = record (r.queue) { ch = r.queue.ch ++ ev ∷ [] } in
      ground (
        arith,
        length-append r.queue.ch (ev ∷ []),
        depths-append r.queue.log (warning sent depth ∷ []),
        append_assoc (depths r.queue.log) (depth ∷ []) (crossings r.queue.warn_at true ds),
      )

  -- Where calls of `Enqueue`, one after another, alternate in any way with the worker taking events,
  -- the depths that are warned of are exactly those, in the row of the depths right behind each
  -- accepted event, that are at or above the threshold when the one before in that row was below it, or
  -- when there is none before and the queue was not marked as warned. The depth between two accepted
  -- events is not looked at. Calls of `Enqueue` that race are not in it.
  pub log-crossings :
      (r : Run A) (ops : List (Op A))
      → depths (run r ops).queue.log
        ≡ depths r.queue.log ++ crossings r.queue.warn_at r.queue.warned (observed r ops)
  unfolding run observed
  log-crossings r [] = sym (append-nil _)
  log-crossings r (put ev ∷ ops) = log-crossings (step r (put ev)) ops ∙ put-log r ev _
  log-crossings r (take_one ∷ ops) =
      let (log, warned, at) = take-Keeps r r.queue.ch refl in
      log-crossings (step r take_one) ops ∙ rw (log, warned, at)
