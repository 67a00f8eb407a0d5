-- ===== src/Thread/Waiting/Progress.antt =====
-- A thread in WaitForNotEmpty goes on once there is an entry, and one thread has the mutex.
use lib_dwm.Base.{
  ℕ, ◌≡◌, refl, sym, ap, ◌∙◌, Bool, true, false, Option, none, some, ◌==◌, ==_iff, Bool-cases,
  Option-cases, inl, inr, ◌⊎◌, true≢false, eq_of_some,
}
use lib_dwm.Thread.Queue.{Queue, empty}
use lib_dwm.Thread.Waiting.{
  Wait, not_empty, Place, outside, tested, asleep, awake, predicate, leave, signal, wake, System,
  move, change, Step, call, pass, fail, sleep, stir, return, again, give_up, signal_one,
  signal_none, limit, swap_with, swap_into, copy_into, Runs, initial,
}
use lib_dwm.Thread.Waiting.Sound.{IsSound, Runs-IsSound, initial-IsSound, has_mutex}

-- Awake in WaitForNotEmpty, or back from it.
abbrev pub IsAwakeOrOut : Place → Type 0
IsAwakeOrOut p = (p ≡ awake not_empty) ⊎ (p ≡ outside)

tested_not_awake : (w : Wait) → tested w ≡ awake not_empty → ⊥
tested_not_awake w e = cc

asleep_not_awake : (w : Wait) → asleep w ≡ awake not_empty → ⊥
asleep_not_awake w e = cc

outside_not_awake : outside ≡ awake not_empty → ⊥
outside_not_awake e = cc

same_wait : (w : Wait) → awake w ≡ awake not_empty → w ≡ not_empty
same_wait w e = cc

module _ {V : Type 0} where
  -- Thread i when WaitForNotEmpty has returned.
  abbrev pub returned : System V → ℕ → System V
  returned s i = move (change s (leave not_empty s.shared)) i none outside

  -- A state with the mutex free: the state itself, or the one after the condition variable has
  -- recorded the thread that keeps the mutex.
  abbrev pub Released : System V → System V → Type 0
  Released s u =
      ((s.owner ≡ none) × (u ≡ s))
      ⊎ ((j : ℕ) × (w : Wait) × (s.owner ≡ some j)
          × Step s false (move s j none (asleep w))
          × (u ≡ move s j none (asleep w)))

  still_awake :
      (s : System V) (i j : ℕ) (w : Wait)
      → s.place i ≡ awake not_empty
      → s.place j ≡ tested w
      → (move s j none (asleep w)).place i ≡ awake not_empty
  still_awake s i j w at there = elim (Bool-cases (j == i)) [
    | inl e ↦ absurd (true≢false (ap has_mutex (sym there ∙ ap (s.place) ((==_iff j i).0 e) ∙ at)))
    | inr e ↦ rw e at
  ]

  -- A thread j goes to p.
  awake_or_out :
      (s : System V) (i j : ℕ) (owner : Option ℕ) (p : Place)
      → s.place i ≡ awake not_empty
      → (s.place j ≡ awake not_empty → IsAwakeOrOut p)
      → IsAwakeOrOut ((move s j owner p).place i)
  awake_or_out s i j owner p at goes = elim (Bool-cases (j == i)) [
    | inl e ↦ rw e (goes (ap s.place ((==_iff j i).0 e) ∙ at))
    | inr e ↦ rw e (inl at)
  ]

  test_succeeds : (w : Wait) (q : Queue V) → w ≡ not_empty → empty q ≡ false → predicate w q ≡ true
  unfolding predicate
  test_succeeds w q e some_there = rw (e, some_there) refl

  -- While the queue has an entry, no step puts a thread to sleep that is awake in WaitForNotEmpty.
  Step-IsAwakeOrOut :
      {s t : System V} {fills : Bool} (i : ℕ)
      → s.place i ≡ awake not_empty
      → empty s.shared ≡ false
      → Step s fills t
      → IsAwakeOrOut (t.place i)
  unfolding wake
  Step-IsAwakeOrOut {s} i at some_there (call {q} {notifies} free m) = elim (Bool-cases notifies) [
    | inl e ↦ rw (e, at) (inl refl)
    | inr e ↦ rw (e, at) (inl refl)
  ]
  Step-IsAwakeOrOut {s} i at some_there (pass j w free there met) = inl at
  Step-IsAwakeOrOut {s} i at some_there (fail j w free there failed) =
      awake_or_out s i j (some j) (tested w) at (λ e. absurd (outside_not_awake (sym there ∙ e)))
  Step-IsAwakeOrOut {s} i at some_there (sleep j w there) =
      awake_or_out s i j none (asleep w) at (λ e. absurd (tested_not_awake w (sym there ∙ e)))
  Step-IsAwakeOrOut {s} i at some_there (stir j w there) =
      awake_or_out s i j s.owner (awake w) at (λ e. absurd (asleep_not_awake w (sym there ∙ e)))
  Step-IsAwakeOrOut {s} i at some_there (return j w free there met) =
      awake_or_out (change s (leave w s.shared)) i j none outside at (λ e. inr refl)
  Step-IsAwakeOrOut {s} i at some_there (again j w free there failed) =
      awake_or_out s i j (some j) (tested w) at (λ e. absurd (
        true≢false
          (sym (test_succeeds w s.shared (same_wait w (sym there ∙ e)) some_there) ∙ failed)))
  Step-IsAwakeOrOut {s} i at some_there (give_up j w timed free there) =
      awake_or_out (change s (leave w s.shared)) i j none outside at (λ e. inr refl)
  Step-IsAwakeOrOut {s} i at some_there (signal_one j w there) =
      awake_or_out (change s (signal s.shared)) i j s.owner (awake w) at
        (λ e. absurd (asleep_not_awake w (sym there ∙ e)))
  Step-IsAwakeOrOut {s} i at some_there (signal_none quiet) = inl at
  Step-IsAwakeOrOut {s} i at some_there (limit n) = inl at
  Step-IsAwakeOrOut {s} i at some_there (swap_with other free) = inl at
  Step-IsAwakeOrOut {s} i at some_there (swap_into other free) = inl at
  Step-IsAwakeOrOut {s} i at some_there (copy_into other free) = inl at

module _ {V : Type 0} {q : Queue V} {s : System V} (r : Runs false (initial q) s) where
  sound : IsSound s
  sound = Runs-IsSound r (initial-IsSound q)

  -- Of two threads that keep the mutex while they go to sleep, in a state that threads reach from
  -- an unused queue without Swap(Queue &) and Copy(Queue &), both are the same.
  pub one_keeper : (i j : ℕ) → has_mutex (s.place i) ≡ true → has_mutex (s.place j) ≡ true → i ≡ j
  one_keeper i j hi hj = eq_of_some (sym (sound.kept i hi) ∙ sound.kept j hj)

  -- In every state that threads reach from an unused queue without Swap(Queue &) and Copy(Queue &):
  -- a thread in WaitForNotEmpty sleeps only while the queue is empty. If it waits and the queue has
  -- an entry, it is awake; no step of any thread puts it to sleep again; and once the condition
  -- variable has recorded the thread that keeps the mutex, if there is one, its next step is to
  -- return.
  pub waiter_returns :
      (i : ℕ)
      → (s.place i ≡ asleep not_empty) ⊎ (s.place i ≡ awake not_empty)
      → empty s.shared ≡ false
      → (s.place i ≡ awake not_empty)
        × ((fills : Bool) (t : System V) → Step s fills t → IsAwakeOrOut (t.place i))
        × (u : System V) × Released s u
        × Step u false (returned u i)
  unfolding predicate
  waiter_returns i (inl at) some_there =
      absurd (true≢false (sym (sound.nothing_there i (rw at refl)) ∙ some_there))
  waiter_returns i (inr at) some_there =
      let (u, free, back) = released in
      (at, λ fills t st. Step-IsAwakeOrOut i at some_there st, u, free, back)
    where
      released : (u : System V) × Released s u × Step u false (returned u i)
      released = elim (Option-cases s.owner) [
        | inl free ↦ (s, inl (free, refl), return i not_empty free at (rw some_there refl))
        | inr (j, o) ↦
            let (w, there) = sound.keeper j o in
            (
              move s j none (asleep w),
              inr (j, w, o, sleep j w there, refl),
              return i not_empty refl (still_awake s i j w at there) (rw some_there refl),
            )
      ]
