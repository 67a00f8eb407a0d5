-- ===== src/Thread/Queue.antt =====
-- The class template Thread::Queue of classes/include/DwmThreadQueue.hh, one function for a member
-- that runs under the mutex. A size_type has no bound here, a uint32_t wraps. Waiting and waking
-- are in Thread/Waiting.antt.
pub mod Fifo
pub mod Bounds
use lib_dwm.Base.{
  ℕ, ◌+◌, ◌-◌, ◌%◌, ◌^◌, Bool, true, false, not, Option, none, some, List, [], ◌∷◌, ◌++◌, ◌==◌, ltb,
  if◌then◌else◌, length,
}
use lib_dwm.Patricia.Map.{is_empty_list}

module _ (V : Type 0) where
  -- `_maxLength`, `_queue` and `_signalled`.
  pub record Queue : Type 0 where
    pub max_length : ℕ
    pub queue : List V
    pub signalled : Bool

module _ {V : Type 0} where
  -- The constructor.
  unfoldable pub new_queue : Queue V
  new_queue = record { max_length = 0; queue = []; signalled = false }

  -- `MaxLength(maxLength)`.
  unfoldable pub set_max_length : Queue V → ℕ → Queue V × ℕ
  set_max_length q n = (record q { max_length = n }, n)

  -- The test before each insertion.
  unfoldable pub has_room : Queue V → Bool
  has_room q = if q.max_length == 0 then true else ltb (length q.queue) q.max_length

  -- `PushBack(value)`.
  unfoldable pub push_back : Queue V → V → Queue V × Bool
  push_back q v =
      if has_room q
      then (record q { queue = q.queue ++ v ∷ []; signalled = true }, true)
      else (q, false)

  -- `PushFront(value)`.
  unfoldable pub push_front : Queue V → V → Queue V × Bool
  push_front q v =
      if has_room q then (record q { queue = v ∷ q.queue; signalled = true }, true) else (q, false)

  -- The count of the entries that a range added, and the flag if there are any.
  unfoldable pub inserted_range : Queue V → List V → Queue V × ℕ
  inserted_range q es =
      let count = (length es - length q.queue % 2 ^ 32) % 2 ^ 32 in
      (record q { queue = es; signalled = if count == 0 then q.signalled else true }, count)

  -- `PushBack(firstIter, lastIter)`.
  unfoldable pub push_back_range : Queue V → List V → Queue V × ℕ
  push_back_range q es =
      if is_empty_list es
      then (q, 0)
      else if has_room q
      then inserted_range q (q.queue ++ es)
      else (q, 0)

  -- `PushFront(firstIter, lastIter)`.
  unfoldable pub push_front_range : Queue V → List V → Queue V × ℕ
  push_front_range q es =
      if is_empty_list es
      then (q, 0)
      else if has_room q
      then inserted_range q (es ++ q.queue)
      else (q, 0)

  -- `PopFront(value)`; with no entry the answer is false and the argument keeps its value.
  unfoldable pub pop_front : Queue V → Queue V × Option V
  pop_front q = elim q.queue [ [] ↦ (q, none) | v ∷ es ↦ (record q { queue = es }, some v) ]

  -- The entries before the last, and the last.
  unfoldable pub split_last : V → List V → List V × V
  split_last v [] = ([], v)
  split_last v (w ∷ es) = let (front, back) = split_last w es in (v ∷ front, back)

  -- `PopBack(value)`.
  unfoldable pub pop_back : Queue V → Queue V × Option V
  pop_back q = elim q.queue [
    | [] ↦ (q, none)
    | v ∷ es ↦ let (front, back) = split_last v es in (record q { queue = front }, some back)
  ]

  -- `Empty()`, `Length()` and `Clear()`.
  unfoldable pub empty : Queue V → Bool
  empty q = is_empty_list q.queue

  unfoldable pub queue_length : Queue V → ℕ
  queue_length q = length q.queue

  unfoldable pub clear : Queue V → Queue V
  clear q = record q { queue = [] }

  -- The loop of `Copy(deque)`: what it appends, and the count in a uint32_t.
  unfoldable pub copy_from : List V → List V → ℕ → List V × ℕ
  copy_from [] c count = (c, count)
  copy_from (v ∷ es) c count = copy_from es (c ++ v ∷ []) ((count + 1) % 2 ^ 32)

  -- `Copy(deque)`; what was in the deque is cleared.
  unfoldable pub copy_out : Queue V → List V × ℕ
  copy_out q = copy_from q.queue [] 0

  -- `Copy(Queue)`: the other queue afterwards.
  unfoldable pub copy_to : Queue V → Queue V → Queue V × ℕ
  copy_to q other = (record other { queue = q.queue }, length q.queue)

  -- `Swap(deque)`: the queue, the deque and the count.
  unfoldable pub swap_out : Queue V → List V → Queue V × (List V × ℕ)
  swap_out q c =
      if is_empty_list q.queue
      then (q, (c, length c % 2 ^ 32))
      else (record q { queue = [] }, (q.queue, length q.queue % 2 ^ 32))

  -- `Swap(Queue)`: both queues and the count.
  unfoldable pub swap : Queue V → Queue V → Queue V × (Queue V × ℕ)
  swap q other =
      (record q { queue = other.queue }, (record other { queue = q.queue }, length q.queue))
