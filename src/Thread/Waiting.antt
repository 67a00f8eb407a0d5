-- ===== src/Thread/Waiting.antt =====
-- Threads that wait on a Thread::Queue of classes/include/DwmThreadQueue.hh. A member that locks
-- the mutex is one step, except that a wait whose test fails keeps the mutex until the condition
-- variable has recorded it: then the two are steps of their own, since `ConditionSignal` does not
-- lock the mutex and may come between. A time out may come at any moment.
pub mod Silent
pub mod Sound
pub mod Progress
pub mod Missed
use lib_dwm.Base.{
  ℕ, Bool, true, false, ◌≡◌, ◌≢◌, ◌||◌, not, Option, none, some, List, ◌==◌, if◌then◌else◌, length,
  ◌<◌, ◌^◌,
}
use lib_dwm.Thread.Queue.{
  Queue, push_back, push_front, push_back_range, push_front_range, pop_front, pop_back, clear,
  empty, swap_out, set_max_length, swap, copy_to,
}

-- The four members that wait: WaitForNotEmpty, TimedWaitForNotEmpty, ConditionWait and
-- ConditionTimedWait.
pub data Wait : Type 0 where
  not_empty timed_not_empty condition timed_condition : Wait

-- Where a thread is: outside the queue, in a wait with the mutex after a test that failed, asleep,
-- or awake again and about to lock the mutex and test.
pub data Place : Type 0 where
  outside : Place
  tested asleep awake : Wait → Place

module _ {V : Type 0} where
  -- The predicate of a wait's call of the condition variable.
  unfoldable pub predicate : Wait → Queue V → Bool
  predicate not_empty q = not (empty q)
  predicate timed_not_empty q = q.signalled
  predicate condition q = q.signalled
  predicate timed_condition q = q.signalled

  -- Whether a wait goes through at once: TimedWaitForNotEmpty looks at the queue first.
  unfoldable pub passes : Wait → Queue V → Bool
  unfolding predicate
  passes not_empty q = predicate not_empty q
  passes timed_not_empty q = not (empty q) || predicate timed_not_empty q
  passes condition q = predicate condition q
  passes timed_condition q = predicate timed_condition q

  -- What a wait does to the flag on its return.
  unfoldable pub leave : Wait → Queue V → Queue V
  leave not_empty q = q
  leave timed_not_empty q = record q { signalled = false }
  leave condition q = record q { signalled = false }
  leave timed_condition q = record q { signalled = false }

  -- The flag that `ConditionSignal` sets.
  unfoldable pub signal : Queue V → Queue V
  signal q = record q { signalled = true }

  -- What a wait answers, where `met` is the outcome of its last test.
  unfoldable pub answer : Wait → Bool → Queue V → Bool
  answer not_empty met q = true
  answer timed_not_empty met q = not (empty q)
  answer condition met q = true
  answer timed_condition met q = met

abbrev pub is_timed : Wait → Bool
is_timed not_empty = false
is_timed timed_not_empty = true
is_timed condition = false
is_timed timed_condition = true

-- `notify_all`.
unfoldable pub wake : Place → Place
wake outside = outside
wake (tested w) = tested w
wake (asleep w) = awake w
wake (awake w) = awake w

abbrev pub nonzero : ℕ → Bool
nonzero n = not (n == 0)

module _ (V : Type 0) where
  -- The object, the thread that keeps its mutex between two steps, and where each thread is.
  pub record System : Type 0 where
    pub shared : Queue V
    pub owner : Option ℕ
    pub place : ℕ → Place

module _ {V : Type 0} where
  -- Thread i goes to p, and the mutex is kept by the owner given.
  abbrev pub move : System V → ℕ → Option ℕ → Place → System V
  move s i owner p = record {
    shared = s.shared;
    owner = owner;
    place = λ j. if i == j then p else s.place j;
  }

  -- A change of the object alone.
  abbrev pub change : System V → Queue V → System V
  change s q = record { shared = q; owner = s.owner; place = s.place }

  -- The system after a member that says whether it notified all waiting threads.
  abbrev pub after_call : System V → Queue V → Bool → System V
  after_call s q notifies = record {
    shared = q;
    owner = s.owner;
    place = λ i. if notifies then wake (s.place i) else s.place i;
  }

  -- The members that lock the mutex and do not wait: the queue afterwards, and whether they notify.
  pub data Member (q : Queue V) : Queue V → Bool → Type 0 where
    push_back_one : (v : V) → Member q (push_back q v).0 (push_back q v).1
    push_front_one : (v : V) → Member q (push_front q v).0 (push_front q v).1
    push_back_many :
        (es : List V)
        → length es < 2 ^ 32
        → Member q (push_back_range q es).0 (nonzero (push_back_range q es).1)
    push_front_many :
        (es : List V)
        → length es < 2 ^ 32
        → Member q (push_front_range q es).0 (nonzero (push_front_range q es).1)
    pop_front_one : Member q (pop_front q).0 false
    pop_back_one : Member q (pop_back q).0 false
    clear_all : Member q (clear q) false
    swap_deque : (c : List V) → Member q (swap_out q c).0 false

  -- A step, and whether it may put entries of another queue into this one.
  pub data Step (s : System V) : Bool → System V → Type 0 where
    -- A member that locks the mutex, with a range of fewer than 2^32 values.
    call :
        {q : Queue V} {notifies : Bool}
        → s.owner ≡ none
        → Member s.shared q notifies
        → Step s false (after_call s q notifies)
    -- A wait that goes through at once, and one whose test fails.
    pass :
        (i : ℕ) (w : Wait)
        → s.owner ≡ none
        → s.place i ≡ outside
        → passes w s.shared ≡ true
        → Step s false (change s (leave w s.shared))
    fail :
        (i : ℕ) (w : Wait)
        → s.owner ≡ none
        → s.place i ≡ outside
        → passes w s.shared ≡ false
        → Step s false (move s i (some i) (tested w))
    -- The condition variable records the thread and unlocks the mutex.
    sleep : (i : ℕ) (w : Wait) → s.place i ≡ tested w → Step s false (move s i none (asleep w))
    -- A thread wakes by itself or by a time out.
    stir : (i : ℕ) (w : Wait) → s.place i ≡ asleep w → Step s false (move s i s.owner (awake w))
    -- A thread that is awake tests again.
    return :
        (i : ℕ) (w : Wait)
        → s.owner ≡ none
        → s.place i ≡ awake w
        → predicate w s.shared ≡ true
        → Step s false (move (change s (leave w s.shared)) i none outside)
    again :
        (i : ℕ) (w : Wait)
        → s.owner ≡ none
        → s.place i ≡ awake w
        → predicate w s.shared ≡ false
        → Step s false (move s i (some i) (tested w))
    -- A wait with a time limit gives up.
    give_up :
        (i : ℕ) (w : Wait)
        → is_timed w ≡ true
        → s.owner ≡ none
        → s.place i ≡ awake w
        → Step s false (move (change s (leave w s.shared)) i none outside)
    -- `ConditionSignal()`, which does not lock the mutex: it wakes a sleeping thread if there is one.
    signal_one :
        (j : ℕ) (w : Wait)
        → s.place j ≡ asleep w
        → Step s false (move (change s (signal s.shared)) j s.owner (awake w))
    signal_none :
        ((j : ℕ) (w : Wait) → s.place j ≢ asleep w) → Step s false (change s (signal s.shared))
    -- `MaxLength(maxLength)`, which does not lock the mutex.
    limit : (n : ℕ) → Step s false (change s (set_max_length s.shared n).0)
    -- `Swap(Queue &)` with this queue as the object or as the argument, and `Copy(Queue &)` into
    -- this queue. None of them notifies.
    swap_with : (other : Queue V) → s.owner ≡ none → Step s true (change s (swap s.shared other).0)
    swap_into :
        (other : Queue V) → s.owner ≡ none → Step s true (change s (swap other s.shared).1.0)
    copy_into :
        (other : Queue V) → s.owner ≡ none → Step s true (change s (copy_to other s.shared).0)

  -- Sequences of steps, with `Swap(Queue &)` and `Copy(Queue &)` if `fills` is true.
  pub data Runs (fills : Bool) (s : System V) : System V → Type 0 where
    here : Runs fills s s
    later : {t u : System V} → Runs fills s t → Step t false u → Runs fills s u
    filled : {t u : System V} → fills ≡ true → Runs fills s t → Step t true u → Runs fills s u

  -- Before any thread uses the object.
  abbrev pub initial : Queue V → System V
  initial q = record { shared = q; owner = none; place = λ i. outside }
