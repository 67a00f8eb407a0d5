-- ===== src/Thread/Balancer.antt =====
-- classes/include/DwmLoadBalancer.hh: the workers of a LoadBalancer, each with a Thread::Queue.
-- What runs under the mutex is one function; the threads of the workers are not modelled.
pub mod Balance
pub mod Rounds
mod Tests
use lib_dwm.Base.{
  ℕ, zero, suc, ◌+◌, ◌%◌, ◌^◌, Bool, true, false, ◌&&◌, Option, none, some, List, [], ◌∷◌, ◌++◌,
  ◌==◌, ltb, leb, if◌then◌else◌, length,
}
use lib_dwm.Thread.Queue.{Queue, push_back, push_back_range, queue_length, set_max_length}

module _ (V : Type 0) where
  -- `LoadBalancer::Worker`: the queue, `_keepRunning` and the microseconds of `_waitUsecs`.
  pub record Worker : Type 0 where
    pub work_queue : Queue V
    pub keep_running : Bool
    pub wait_usecs : ℕ

-- An iterator to a worker: those before it, the worker, and those behind it; or end().
abbrev pub Found : Type 0 → Type 0
Found V = Option (List (Worker V) × Worker V × List (Worker V))

module _ {V : Type 0} where
  -- `Worker::AddWork(item)` and `Worker::AddWork(firstIter, lastIter)`.
  unfoldable pub give_item : V → Worker V → Worker V × Bool
  give_item v w = let (q, added) = push_back w.work_queue v in (record w { work_queue = q }, added)

  unfoldable pub give_range : List V → Worker V → Worker V × Bool
  give_range es w =
      let (q, count) = push_back_range w.work_queue es in (record w { work_queue = q }, ltb 0 count)

  -- `Worker::QueueLength`, a uint32_t.
  unfoldable pub load_of : Worker V → ℕ
  unfolding queue_length
  load_of w = queue_length w.work_queue % 2 ^ 32

  -- `Worker::ReadyForWork()` and `Worker::ReadyForWork(numEntries)`.
  unfoldable pub ready_for_work : Worker V → Bool
  unfolding queue_length
  ready_for_work w =
      w.keep_running
      && (if w.work_queue.max_length == 0
          then true
          else ltb (queue_length w.work_queue) w.work_queue.max_length)

  unfoldable pub ready_for_range : ℕ → Worker V → Bool
  unfolding queue_length
  ready_for_range n w =
      w.keep_running
      && (if w.work_queue.max_length == 0
          then true
          else leb (queue_length w.work_queue + n) w.work_queue.max_length)

  -- `Worker::MaxWork`.
  unfoldable pub set_max_work : ℕ → Worker V → Worker V
  set_max_work n w = record w { work_queue = (set_max_length w.work_queue n).0 }

  -- `AddWorker`.
  unfoldable pub add_worker : List (Worker V) → Worker V → List (Worker V)
  add_worker ws w = ws ++ w ∷ []

  -- std::min_element: the first of the least ones.
  unfoldable pub with_first :
      (Worker V → Worker V → Bool) → Worker V → List (Worker V) → Found V → Found V
  with_first less w ws none = some ([], w, ws)
  with_first less w ws (some (before, least, behind)) =
      if less least w then some (w ∷ before, least, behind) else some ([], w, ws)

  unfoldable pub min_element : (Worker V → Worker V → Bool) → List (Worker V) → Found V
  unfolding with_first
  min_element less [] = none
  min_element less (w ∷ ws) = with_first less w ws (min_element less ws)

  abbrev pub less_loaded : Worker V → Worker V → Bool
  less_loaded a b = ltb (load_of a) (load_of b)

  -- What `AddWork` does under the mutex of the balancer: the workers afterwards, and whether the
  -- work was added. The workers have locks of their own and may take entries meanwhile; here they
  -- take none between the comparison of the loads and the push.
  unfoldable pub give_to :
      (Worker V → Worker V × Bool) → List (Worker V) → Found V → List (Worker V) × Bool
  give_to give ws none = (ws, false)
  give_to give ws (some (before, least, behind)) =
      let (w, added) = give least in (before ++ w ∷ behind, added)

  unfoldable pub offer : (Worker V → Worker V × Bool) → List (Worker V) → List (Worker V) × Bool
  offer give ws = give_to give ws (min_element less_loaded ws)

  -- `AddWork(item)`. While the caller sleeps, the workers change as `pause` says; the rounds have
  -- fuel, and `none` is a loop that has not ended.
  unfoldable pub add_work_rounds :
      (List (Worker V) → List (Worker V)) → ℕ → V → List (Worker V) → Option (List (Worker V))
  add_work_rounds pause zero v ws = none
  add_work_rounds pause (suc fuel) v ws =
      let (ws', added) = offer (give_item v) ws in
      let rest = add_work_rounds pause fuel v (pause ws') in if added then some ws' else rest

  -- Once the loop has ended, the answer is true.
  abbrev pub answered : Option (List (Worker V)) → Option (List (Worker V) × Bool)
  answered none = none
  answered (some ws) = some (ws, true)

  unfoldable pub add_work :
      (List (Worker V) → List (Worker V))
      → ℕ
      → V
      → List (Worker V)
      → Option (List (Worker V) × Bool)
  add_work pause fuel v [] = some ([], false)
  add_work pause fuel v (w ∷ ws) = answered (add_work_rounds pause fuel v (w ∷ ws))

  -- `WorkerReady()` and `WorkerReady(numEntries)`.
  unfoldable pub worker_ready : (Worker V → Bool) → List (Worker V) → Bool
  worker_ready ready [] = false
  worker_ready ready (w ∷ ws) = if ready w then true else worker_ready ready ws

  -- `MinimumWaitForWorkerReady`.
  unfoldable pub minimum_wait : List (Worker V) → ℕ
  minimum_wait ws = elim (min_element (λ a b. ltb a.wait_usecs b.wait_usecs) ws) [
    | none ↦ 1000
    | some found ↦ found.1.wait_usecs
  ]

  -- `AddWork(firstIter, lastIter)`: the wait for a worker that is ready, then the worker with the
  -- least load. Between the two, where the mutex is free, the workers change as `meanwhile` says.
  unfoldable pub add_range_rounds :
      (List (Worker V) → List (Worker V))
      → (List (Worker V) → List (Worker V))
      → ℕ
      → List V
      → List (Worker V)
      → Option (List (Worker V) × Bool)
  add_range_rounds pause meanwhile zero es ws = none
  add_range_rounds pause meanwhile (suc fuel) es ws =
      let rest = add_range_rounds pause meanwhile fuel es (pause ws) in
      if worker_ready (ready_for_range (length es)) ws
      then some (offer (give_range es) (meanwhile ws))
      else rest

  unfoldable pub add_range :
      (List (Worker V) → List (Worker V))
      → (List (Worker V) → List (Worker V))
      → ℕ
      → List V
      → List (Worker V)
      → Option (List (Worker V) × Bool)
  add_range pause meanwhile fuel es [] = some ([], false)
  add_range pause meanwhile fuel es (w ∷ ws) = add_range_rounds pause meanwhile fuel es (w ∷ ws)
