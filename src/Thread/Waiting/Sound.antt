-- ===== src/Thread/Waiting/Sound.antt =====
-- What holds in every state that threads can reach without `Swap(Queue &)` and `Copy(Queue &)`, and
-- what keeps it.
use lib_dwm.Base.{
  ℕ, ◌≡◌, ◌≢◌, refl, sym, ap, ◌∙◌, Bool, true, false, not, Option, none, some, ◌==◌, ==_iff,
  Bool-cases, inl, inr, true≢false, none_ne_some, eq_of_some,
}
use lib_dwm.Thread.Queue.{Queue, empty, set_max_length}
use lib_dwm.Thread.Waiting.{
  Wait, not_empty, timed_not_empty, condition, timed_condition, Place, outside, tested, asleep,
  awake, predicate, passes, leave, signal, wake, System, move, change, after_call, Member, Step,
  call, pass, fail, sleep, stir, return, again, give_up, signal_one, signal_none, limit, Runs, here,
  later, filled, initial,
}
use lib_dwm.Thread.Waiting.Silent.{Member-empty}

-- Waiting for an entry, asleep or about to be.
abbrev waits_for_entry : Wait → Bool
waits_for_entry not_empty = true
waits_for_entry timed_not_empty = false
waits_for_entry condition = false
waits_for_entry timed_condition = false

abbrev pub waits : Place → Bool
waits outside = false
waits (tested w) = waits_for_entry w
waits (asleep w) = waits_for_entry w
waits (awake w) = false

abbrev pub has_mutex : Place → Bool
has_mutex outside = false
has_mutex (tested w) = true
has_mutex (asleep w) = false
has_mutex (awake w) = false

-- Notified threads do not wait, and who keeps the mutex is not notified.
has_mutex-wake : (p : Place) → has_mutex (wake p) ≡ has_mutex p
unfolding wake
has_mutex-wake outside = refl
has_mutex-wake (tested w) = refl
has_mutex-wake (asleep w) = refl
has_mutex-wake (awake w) = refl

waits-wake : (p : Place) → waits (wake p) ≡ true → has_mutex p ≡ true
unfolding wake
waits-wake outside h = absurd (true≢false (sym h))
waits-wake (tested w) h = refl
waits-wake (asleep w) h = absurd (true≢false (sym h))
waits-wake (awake w) h = absurd (true≢false (sym h))

module _ {V : Type 0} where
  empty-leave : (w : Wait) (q : Queue V) → empty (leave w q) ≡ empty q
  unfolding empty leave
  empty-leave not_empty q = refl
  empty-leave timed_not_empty q = refl
  empty-leave condition q = refl
  empty-leave timed_condition q = refl

  empty-signal : (q : Queue V) → empty (signal q) ≡ empty q
  unfolding empty signal
  empty-signal q = refl

  empty-limit : (q : Queue V) (n : ℕ) → empty (set_max_length q n).0 ≡ empty q
  unfolding empty set_max_length
  empty-limit q n = refl

  predicate-empty :
      (w : Wait) (q : Queue V) → predicate w q ≡ false → w ≡ not_empty → empty q ≡ true
  unfolding predicate
  predicate-empty w q failed e = not-false (empty q) (rw e at failed)
    where
      not-false : (b : Bool) → not b ≡ false → b ≡ true
      not-false true h = refl
      not-false false h = absurd (true≢false h)

  passes-empty : (w : Wait) (q : Queue V) → passes w q ≡ false → w ≡ not_empty → empty q ≡ true
  unfolding passes
  passes-empty w q failed e = predicate-empty not_empty q (rw e at failed) refl

  -- What holds in every state that can be reached: the mutex is kept by the one thread whose test
  -- failed, and a thread waits for an entry only while there is none.
  pub record IsSound (s : System V) : Type 0 where
    pub kept : (i : ℕ) → has_mutex (s.place i) ≡ true → s.owner ≡ some i
    pub keeper : (i : ℕ) → s.owner ≡ some i → (w : Wait) × (s.place i ≡ tested w)
    pub nothing_there : (i : ℕ) → waits (s.place i) ≡ true → empty s.shared ≡ true

  pub initial-IsSound : (q : Queue V) → IsSound (initial q)
  initial-IsSound q = record {
    kept = λ i h. absurd (true≢false (sym h));
    keeper = λ i h. absurd (none_ne_some h);
    nothing_there = λ i h. absurd (true≢false (sym h));
  }

  -- A change of the object that does not fill it.
  change-IsSound :
      (s : System V) (q : Queue V)
      → IsSound s
      → (empty s.shared ≡ true → empty q ≡ true)
      → IsSound (change s q)
  change-IsSound s q h e = record {
    kept = h.kept;
    keeper = h.keeper;
    nothing_there = λ i at. e (h.nothing_there i at);
  }

  after_call-IsSound :
      (s : System V) (q : Queue V) (n : Bool)
      → s.owner ≡ none
      → Member s.shared q n
      → IsSound s
      → IsSound (after_call s q n)
  after_call-IsSound s q false free m h = change-IsSound s q h (λ e. Member-empty m refl e)
  after_call-IsSound s q true free m h = record {
    kept = λ i at. h.kept i (sym (has_mutex-wake (s.place i)) ∙ at);
    keeper = λ i o. absurd (none_ne_some (sym free ∙ o));
    nothing_there = λ i at. absurd (none_ne_some (sym free ∙ h.kept i (waits-wake (s.place i) at)));
  }

  -- Thread i goes to p.
  move-IsSound :
      (s : System V) (i : ℕ) (p : Place) (owner : Option ℕ)
      → IsSound s
      → (has_mutex p ≡ true → owner ≡ some i)
      → (waits p ≡ true → empty s.shared ≡ true)
      → ((j : ℕ) → i ≢ j → has_mutex (s.place j) ≡ true → owner ≡ some j)
      → ((j : ℕ) → owner ≡ some j → (w : Wait) × ((move s i owner p).place j ≡ tested w))
      → IsSound (move s i owner p)
  move-IsSound s i p owner h mine quiet others keeper = record {
    kept = λ j at. elim (Bool-cases (i == j)) [
      | inl e ↦ rw (← (==_iff i j).0 e) (mine (rw e at at))
      | inr e ↦ others j (λ same. true≢false (sym ((==_iff i j).1 same) ∙ e)) (rw e at at)
    ];
    keeper = keeper;
    nothing_there = λ j at. elim (Bool-cases (i == j)) [
      | inl e ↦ quiet (rw e at at)
      | inr e ↦ h.nothing_there j (rw e at at)
    ];
  }

  -- While the mutex is free, no thread keeps it.
  no_keeper :
      (s : System V) → IsSound s → s.owner ≡ none → (j : ℕ) → has_mutex (s.place j) ≡ true → ⊥
  no_keeper s h free j at = none_ne_some (sym free ∙ h.kept j at)

  -- A thread that leaves the mutex free.
  free-IsSound :
      (s : System V) (i : ℕ) (p : Place)
      → IsSound s
      → s.owner ≡ none
      → has_mutex p ≡ false
      → (waits p ≡ true → empty s.shared ≡ true)
      → IsSound (move s i none p)
  free-IsSound s i p h free out quiet =
      move-IsSound s i p none h (λ at. absurd (true≢false (sym at ∙ out))) quiet
        (λ j ne at. absurd (no_keeper s h free j at)) (λ j o. absurd (none_ne_some o))

  -- A thread whose test fails keeps the mutex.
  take-IsSound :
      (s : System V) (i : ℕ) (w : Wait)
      → IsSound s
      → s.owner ≡ none
      → (w ≡ not_empty → empty s.shared ≡ true)
      → IsSound (move s i (some i) (tested w))
  take-IsSound s i w h free quiet =
      move-IsSound s i (tested w) (some i) h (λ at. refl) (at_waits w quiet)
        (λ j ne at. absurd (no_keeper s h free j at))
        (λ j o. (w, rw (← eq_of_some o, (==_iff i i).1 refl) refl))
    where
      at_waits :
          (w : Wait)
          → (w ≡ not_empty → empty s.shared ≡ true)
          → waits (tested w) ≡ true
          → empty s.shared ≡ true
      at_waits not_empty q at = q refl
      at_waits timed_not_empty q at = absurd (true≢false (sym at))
      at_waits condition q at = absurd (true≢false (sym at))
      at_waits timed_condition q at = absurd (true≢false (sym at))

  -- A thread that is asleep wakes; the mutex stays where it is.
  stir-IsSound :
      (s : System V) (i : ℕ) (w : Wait)
      → IsSound s
      → s.place i ≡ asleep w
      → IsSound (move s i s.owner (awake w))
  stir-IsSound s i w h at =
      move-IsSound s i (awake w) s.owner h (λ t. absurd (true≢false (sym t)))
        (λ t. absurd (true≢false (sym t))) (λ j ne t. h.kept j t)
        λ j o.
          let (v, e) = h.keeper j o in
          elim (Bool-cases (i == j)) [
            | inl same ↦ absurd (true≢false (rw ((==_iff i j).0 same, e) at (ap has_mutex at)))
            | inr other ↦ (v, rw other e)
          ]

  -- The condition variable records the thread that keeps the mutex.
  sleep-IsSound :
      (s : System V) (i : ℕ) (w : Wait)
      → IsSound s
      → s.place i ≡ tested w
      → IsSound (move s i none (asleep w))
  sleep-IsSound s i w h at =
      move-IsSound s i (asleep w) none h (λ t. absurd (true≢false (sym t)))
        (λ t. h.nothing_there i (rw at t))
        (λ j ne t. absurd (ne (eq_of_some (sym (h.kept i (rw at refl)) ∙ h.kept j t))))
        (λ j o. absurd (none_ne_some o))

  -- A step that puts in no entries of another queue.
  pub Step-IsSound : {s t : System V} → Step s false t → IsSound s → IsSound t
  Step-IsSound {s} (call free m) h = after_call-IsSound s _ _ free m h
  Step-IsSound {s} (pass i w free at passed) h =
      change-IsSound s (leave w s.shared) h (λ e. empty-leave w s.shared ∙ e)
  Step-IsSound {s} (fail i w free at failed) h =
      take-IsSound s i w h free (passes-empty w s.shared failed)
  Step-IsSound {s} (sleep i w at) h = sleep-IsSound s i w h at
  Step-IsSound {s} (stir i w at) h = stir-IsSound s i w h at
  Step-IsSound {s} (return i w free at met) h =
      free-IsSound (change s (leave w s.shared)) i outside
        (change-IsSound s (leave w s.shared) h (λ e. empty-leave w s.shared ∙ e)) free refl
        (λ t. absurd (true≢false (sym t)))
  Step-IsSound {s} (again i w free at failed) h =
      take-IsSound s i w h free (predicate-empty w s.shared failed)
  Step-IsSound {s} (give_up i w timed free at) h =
      free-IsSound (change s (leave w s.shared)) i outside
        (change-IsSound s (leave w s.shared) h (λ e. empty-leave w s.shared ∙ e)) free refl
        (λ t. absurd (true≢false (sym t)))
  Step-IsSound {s} (signal_one j w at) h =
      stir-IsSound (change s (signal s.shared)) j w
        (change-IsSound s (signal s.shared) h (λ e. empty-signal s.shared ∙ e)) at
  Step-IsSound {s} (signal_none asleep_none) h =
      change-IsSound s (signal s.shared) h (λ e. empty-signal s.shared ∙ e)
  Step-IsSound {s} (limit n) h =
      change-IsSound s (set_max_length s.shared n).0 h (λ e. empty-limit s.shared n ∙ e)

  pub Runs-IsSound : {s t : System V} → Runs false s t → IsSound s → IsSound t
  Runs-IsSound here h = h
  Runs-IsSound (later r st) h = Step-IsSound st (Runs-IsSound r h)
  Runs-IsSound (filled e r st) h = absurd (true≢false (sym e))
