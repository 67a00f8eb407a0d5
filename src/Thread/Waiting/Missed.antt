-- ===== src/Thread/Waiting/Missed.antt =====
-- A signal that comes between the test of ConditionWait and its sleep is missed.
use lib_dwm.Base.{
  ℕ, ◌≡◌, ◌≢◌, refl, ap, true, false, none, some, ◌==◌, ==_iff, Bool-cases, inl, inr, true≢false,
}
use lib_dwm.Thread.Waiting.{
  Wait, condition, outside, tested, asleep, predicate, passes, signal, System, move, change, Step,
  fail, sleep, signal_none,
}
use lib_dwm.Thread.Waiting.Sound.{has_mutex}

module _ {V : Type 0} where
  none_asleep :
      (s : System V) (i : ℕ)
      → ((j : ℕ) (w : Wait) → s.place j ≢ asleep w)
      → (j : ℕ) (w : Wait) → (move s i (some i) (tested condition)).place j ≢ asleep w
  none_asleep s i quiet j w at = elim (Bool-cases (i == j)) [
    | inl e ↦ absurd (true≢false (ap has_mutex (rw e at at)))
    | inr e ↦ quiet j w (rw e at at)
  ]

  -- Thread i after the failed test of ConditionWait, and after a signal of another thread.
  abbrev pub after_test : System V → ℕ → System V
  after_test s i = move s i (some i) (tested condition)

  abbrev pub after_signal : System V → ℕ → System V
  after_signal s i = change (after_test s i) (signal (after_test s i).shared)

  -- From any state with the flag down and the mutex free in which no thread sleeps: a thread outside
  -- the queue may fail the test of ConditionWait, another thread call ConditionSignal while the
  -- first has the mutex, and the first then go to sleep. Its test would succeed, but the signal has
  -- woken no thread.
  pub signal_missed :
      (s : System V) (i : ℕ)
      → s.owner ≡ none
      → s.place i ≡ outside
      → s.shared.signalled ≡ false
      → ((j : ℕ) (w : Wait) → s.place j ≢ asleep w)
      → Step s false (after_test s i)
        × Step (after_test s i) false (after_signal s i)
        × Step (after_signal s i) false (move (after_signal s i) i none (asleep condition))
        × (predicate condition (after_signal s i).shared ≡ true)
        × ((j : ℕ) → (after_signal s i).place j ≡ (after_test s i).place j)
  unfolding passes predicate signal
  signal_missed s i free out down quiet = (
    fail i condition free out down,
    signal_none (none_asleep s i quiet),
    sleep i condition (rw ((==_iff i i).1 refl) refl),
    refl,
    λ j. refl,
  )
