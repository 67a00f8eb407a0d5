-- ===== src/Thread/Balancer/Tests.antt =====
-- Three workers, of whom the second has the least load.
use lib_dwm.Base.{
  ◌++◌, length, length-append, ap, sym, ℕ, ◌≤◌, ◌≡◌, true, false, some, List, [], ◌∷◌, arith, All,
}
use lib_dwm.Thread.Queue.{has_room, queue_length, pop_front}
use lib_dwm.Thread.Balancer.{Worker, give_item, load_of, with_first, min_element, offer, add_work}
use lib_dwm.Thread.Balancer.Balance.{Offered, IsLevel, offer_lem, offer-IsLevel}
use lib_dwm.Thread.Balancer.Rounds.{at_round, LeastHasRoom, GivenToLeast, add_work_returns}

abbrev worker : List ℕ → Worker ℕ
worker es = record {
  work_queue = record { max_length = 2; queue = es; signalled = false };
  keep_running = true;
  wait_usecs = 1000;
}

abbrev crew : List (Worker ℕ)
crew = worker (1 ∷ 2 ∷ []) ∷ worker (3 ∷ []) ∷ worker (4 ∷ []) ∷ []

offer_lem_example :
    Offered 9 crew (some (worker (1 ∷ 2 ∷ []) ∷ [], worker (3 ∷ []), worker (4 ∷ []) ∷ []))
unfolding min_element with_first load_of queue_length
offer_lem_example = offer_lem 9 crew

offer-IsLevel_example : (m : ℕ) × All (IsLevel m) (offer (give_item 9) crew).0
unfolding load_of queue_length
offer-IsLevel_example =
    offer-IsLevel 9 1 crew (omega arith, (omega arith, (omega arith, tt)))
      ((omega arith, omega arith), ((omega arith, omega arith), ((omega arith, omega arith), tt)))

-- Each worker takes an item from its queue.
abbrev all_pop : List (Worker ℕ) → List (Worker ℕ)
all_pop [] = []
all_pop (w ∷ ws) = record w { work_queue = (pop_front w.work_queue).0 } ∷ all_pop ws

abbrev full_worker : Worker ℕ
full_worker = worker (1 ∷ 2 ∷ [])

-- After one round in which the worker has no room, each worker has taken an item.
abbrev half_full : Worker ℕ
half_full = record full_worker { work_queue = record full_worker.work_queue { queue = 2 ∷ [] } }

one_worker :
    (before behind : List (Worker ℕ)) (least : Worker ℕ)
    → (half_full ∷ []) ≡ before ++ least ∷ behind
    → half_full ≡ least
one_worker [] behind least e = cc
one_worker (w ∷ before) behind least e =
    absurd (omega (arith, ap length e, length-append before (least ∷ behind)))

room_later : LeastHasRoom all_pop 9 (all_pop (full_worker ∷ []))
unfolding pop_front has_room
room_later = (
  λ e. cc,
  λ before behind least (e, _, _).
      ap (λ (w : Worker ℕ). has_room w.work_queue) (sym (one_worker before behind least e)),
)

add_work_returns_example :
    (j : ℕ) × (j ≤ 1)
    × (ws' : List (Worker ℕ)) × GivenToLeast all_pop 9 (at_round all_pop 9 j (full_worker ∷ [])) ws'
    × (add_work all_pop 2 9 (full_worker ∷ []) ≡ some (ws', true))
add_work_returns_example = add_work_returns all_pop 9 1 2 full_worker [] (omega arith) room_later
