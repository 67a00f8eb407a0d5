-- ===== src/Thread/Tests.antt =====
-- The theorems on the queue between threads at concrete inputs.
use lib_dwm.Base.{
  Bool, ℕ, ◌+◌, ◌≤◌, ◌<◌, ◌≡◌, ◌↔◌, refl, true, false, none, some, List, [], ◌∷◌, ◌++◌, length, inr,
  arith,
}
use lib_dwm.Thread.Queue.{
  Queue, new_queue, push_back, push_front, push_back_range, push_front_range, pop_front, pop_back,
  split_last, swap_out, has_room, empty,
}
use lib_dwm.Thread.Queue.Fifo.{Call, produce, consume, run, fifo}
use lib_dwm.Thread.Queue.Bounds.{bounded}
use lib_dwm.Thread.Waiting.{
  Step, not_empty, condition, tested, asleep, awake, predicate, passes, wake, System, initial, Runs,
  here, later, move, after_call, fail, sleep, call, push_back_one,
}
use lib_dwm.Thread.Waiting.Progress.{Released, IsAwakeOrOut, returned, waiter_returns}
use lib_dwm.Thread.Waiting.Missed.{after_test, after_signal, signal_missed}

abbrev two_places : Queue ℕ
two_places = record { max_length = 2; queue = 7 ∷ []; signalled = false }

-- `Swap` with an empty queue leaves the deque, and counts what stood in the deque.
swap_empty : swap_out {V = ℕ} new_queue (1 ∷ 2 ∷ []) ≡ (new_queue, (1 ∷ 2 ∷ [], 2))
unfolding swap_out new_queue
swap_empty = refl

pop_back_two :
    pop_back (push_back two_places 8).0
    ≡ (record { max_length = 2; queue = 7 ∷ []; signalled = true }, some 8)
unfolding pop_back push_back has_room split_last
pop_back_two = refl

abbrev calls : List (Call ℕ)
calls = produce 8 ∷ produce 9 ∷ consume ∷ produce 10 ∷ []

-- The second value finds the queue full.
calls_outcome : (run calls two_places).after.queue ≡ 8 ∷ 10 ∷ []
unfolding run push_back pop_front has_room
calls_outcome = refl

fifo_example :
    two_places.queue ++ (run calls two_places).accepted
    ≡ (run calls two_places).handed_out ++ (run calls two_places).after.queue
fifo_example = fifo calls two_places

bounded_example :
    (((push_back two_places 8).1 ≡ true) ↔ (1 < 2))
    × (length (push_back two_places 8).0.queue ≤ 2)
    × (((push_front two_places 8).1 ≡ true) ↔ (1 < 2))
    × (length (push_front two_places 8).0.queue ≤ 2)
    × (length (push_back_range two_places (8 ∷ 9 ∷ 10 ∷ [])).0.queue
        ≡ 1 + (push_back_range two_places (8 ∷ 9 ∷ 10 ∷ [])).1)
    × (1 < 2 → (push_back_range two_places (8 ∷ 9 ∷ 10 ∷ [])).1 ≡ 3)
    × (length (push_front_range two_places (8 ∷ 9 ∷ 10 ∷ [])).0.queue
        ≡ 1 + (push_front_range two_places (8 ∷ 9 ∷ 10 ∷ [])).1)
    × (1 < 2 → (push_front_range two_places (8 ∷ 9 ∷ 10 ∷ [])).1 ≡ 3)
    × (2 ≤ 1
        → (push_back_range two_places (8 ∷ 9 ∷ 10 ∷ []) ≡ (two_places, 0))
          × (push_front_range two_places (8 ∷ 9 ∷ 10 ∷ []) ≡ (two_places, 0)))
bounded_example = bounded two_places 8 (8 ∷ 9 ∷ 10 ∷ []) (omega arith) (omega arith) (omega arith)

abbrev unused : Queue ℕ
unused = record { max_length = 0; queue = []; signalled = false }

-- Thread 0 waits for an entry and sleeps; another thread pushes one.
abbrev failed : System ℕ
failed = move (initial unused) 0 (some 0) (tested not_empty)

abbrev sleeping : System ℕ
sleeping = move failed 0 none (asleep not_empty)

abbrev notified : System ℕ
notified = after_call sleeping (push_back unused 5).0 (push_back unused 5).1

failed_run : Runs false (initial unused) failed
unfolding passes predicate empty
failed_run = later here (fail 0 not_empty refl refl refl)

notified_run : Runs false (initial unused) notified
notified_run = later (later failed_run (sleep 0 not_empty refl)) (call refl (push_back_one 5))

awake_now : notified.place 0 ≡ awake not_empty
unfolding push_back has_room wake
awake_now = refl

some_there : empty notified.shared ≡ false
unfolding push_back has_room empty
some_there = refl

waiter_returns_example :
    (notified.place 0 ≡ awake not_empty)
    × ((fills : Bool) (t : System ℕ) → Step notified fills t → IsAwakeOrOut (t.place 0))
    × (u : System ℕ) × Released notified u
    × Step u false (returned u 0)
waiter_returns_example = waiter_returns notified_run 0 (inr awake_now) some_there

signal_missed_example :
    Step (initial unused) false (after_test (initial unused) 0)
    × Step (after_test (initial unused) 0) false (after_signal (initial unused) 0)
    × Step
        (after_signal (initial unused) 0)
        false
        (move (after_signal (initial unused) 0) 0 none (asleep condition))
    × (predicate condition (after_signal (initial unused) 0).shared ≡ true)
    × ((j : ℕ)
        → (after_signal (initial unused) 0).place j ≡ (after_test (initial unused) 0).place j)
signal_missed_example = signal_missed (initial unused) 0 refl refl refl (λ j w e. cc)
