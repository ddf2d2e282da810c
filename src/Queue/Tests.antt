-- ===== src/Queue/Tests.antt =====
-- A queue of numbers.
use cigar.Prelude.{ℕ, ◌≡◌, refl, List, [], ◌∷◌, ◌++◌, arith}
use cigar.Queue.{new_queue}
use cigar.Queue.Bounds.{Op, put, take_one, run, start}
use cigar.Queue.Crossings.{crossings, depths, observed, log-crossings}
use cigar.Queue.Interleaving.{
  World, Reach, here, next, initial, IsSafe, Reach-IsSafe, call, send_room, sent, ready,
}

abbrev full_house : List (Op ℕ)
full_house = put 1 ∷ put 2 ∷ put 3 ∷ take_one ∷ put 4 ∷ []

log-crossings_example :
    depths (run (start 2) full_house).queue.log
    ≡ depths (start {A = ℕ} 2).queue.log
      ++ crossings
          (start {A = ℕ} 2).queue.warn_at
          (start {A = ℕ} 2).queue.warned
          (observed (start 2) full_house)
log-crossings_example = log-crossings (start 2) full_house

abbrev after_call : World ℕ
after_call = record (initial 2) { calls = ready 5 ∷ [] }

abbrev after_send : World ℕ
after_send = record after_call {
  queue = record (after_call.queue) { ch = after_call.queue.ch ++ 5 ∷ [] };
  calls = sent ∷ [];
  accepted = 5 ∷ [];
}

one_sent : Reach (initial 2) after_send
unfolding new_queue
one_sent = next (next here (call 5)) (send_room 5 [] [] refl (omega arith))

Reach-IsSafe_example : IsSafe 2 after_send
Reach-IsSafe_example = Reach-IsSafe 2 one_sent
