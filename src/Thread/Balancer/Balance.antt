-- ===== src/Thread/Balancer/Balance.antt =====
-- Work goes to a worker with the least load, and keeps the loads of the workers level.
use native.Mathlib.Decide.{dec_lt}
use native.Mathlib.Nat.{mod-eq_of_lt}
use lib_dwm.Base.{
  ℕ, ◌+◌, ◌%◌, ◌^◌, ◌≤◌, ◌<◌, ◌≡◌, refl, ap, ◌∙◌, sym, true, false, none, some, List, [], ◌∷◌, ◌++◌,
  arith, length, All, All-append, All-parts, All-both, Bool-cases, inl, inr, length-append, lt→ltb,
  ltb_of_le, if◌then◌else◌,
}
use lib_dwm.Thread.Queue.{has_room, push_back, queue_length}
use lib_dwm.Thread.Balancer.{
  Worker, Found, give_item, load_of, with_first, min_element, less_loaded, give_to, offer,
}

module _ {V : Type 0} where
  -- A worker found among others is the first of those with the least load.
  abbrev pub IsLeast : List (Worker V) → Found V → Type 0
  IsLeast ws none = ws ≡ []
  IsLeast ws (some (before, least, behind)) =
      (ws ≡ before ++ least ∷ behind)
      × All (λ w. load_of least < load_of w) before
      × All (λ w. load_of least ≤ load_of w) behind

  with_first-IsLeast :
      (w : Worker V) (ws : List (Worker V)) (found : Found V)
      → IsLeast ws found
      → IsLeast (w ∷ ws) (with_first less_loaded w ws found)
  unfolding with_first
  with_first-IsLeast w ws none e = (refl, tt, rw e tt)
  with_first-IsLeast w ws (some (before, least, behind)) (e, h, k) =
      elim (dec_lt (load_of least) (load_of w)) [
        | yes lt ↦ rw (lt→ltb (load_of least) (load_of w) lt) (ap (◌∷◌ w) e, (lt, h), k)
        | no ge ↦ rw (ltb_of_le (load_of least) (load_of w) (omega arith)) (
          refl,
          tt,
          rw e (
              All-append (λ v. load_of w ≤ load_of v) before (least ∷ behind)
                (All-both (λ v. load_of w ≤ load_of v) (λ v lt _. omega (arith, ge, lt)) before h h)
                (
                  omega arith,
                  All-both (λ v. load_of w ≤ load_of v) (λ v le _. omega (arith, ge, le)) behind k
                      k,
                )),
        )
      ]

  pub min_element-IsLeast : (ws : List (Worker V)) → IsLeast ws (min_element less_loaded ws)
  unfolding min_element
  min_element-IsLeast [] = refl
  min_element-IsLeast (w ∷ ws) =
      with_first-IsLeast w ws (min_element less_loaded ws) (min_element-IsLeast ws)

  -- What a worker is that was given an item.
  abbrev pub with_item : V → Worker V → Worker V
  with_item v w = record w {
    work_queue = record w.work_queue { queue = w.work_queue.queue ++ v ∷ []; signalled = true };
  }

  -- What AddWork under the mutex does with the worker that it finds.
  abbrev pub Offered : V → List (Worker V) → Found V → Type 0
  Offered v ws none = (ws ≡ []) × (offer (give_item v) ws ≡ ([], false))
  Offered v ws (some (before, least, behind)) =
      IsLeast ws (some (before, least, behind))
      × (offer (give_item v) ws ≡ (
          if has_room least.work_queue
          then (before ++ with_item v least ∷ behind, true)
          else (ws, false)))

  offered :
      (v : V) (ws : List (Worker V)) (found : Found V)
      → IsLeast ws found
      → min_element less_loaded ws ≡ found
      → Offered v ws found
  unfolding offer give_to give_item push_back
  offered v ws none e m = (e, rw (m, e) refl)
  offered v ws (some (before, least, behind)) (e, h, k) m = (
    (e, h, k),
    elim (Bool-cases (has_room least.work_queue)) [
      | inl room ↦ rw (m, room) refl
      | inr full ↦ rw (m, full) (ap (λ (x : List (Worker V)). (x, false)) (sym e))
    ],
  )

  -- Of any workers, AddWork of an item finds the first of those with the least load. If its queue
  -- has room, the item stands at the back of that queue, the queue is signalled and the answer is
  -- true; else nothing is added. Without workers nothing is found. Nothing else changes.
  pub offer_lem : (v : V) (ws : List (Worker V)) → Offered v ws (min_element less_loaded ws)
  offer_lem v ws = offered v ws (min_element less_loaded ws) (min_element-IsLeast ws) refl

  -- A queue to which an item can be added without its length running over a uint32_t.
  abbrev pub IsShort : Worker V → Type 0
  IsShort w = length w.work_queue.queue + 1 < 2 ^ 32

  -- Every load is n or n + 1.
  abbrev pub IsLevel : ℕ → Worker V → Type 0
  IsLevel n w = (n ≤ load_of w) × (load_of w ≤ n + 1)

  load_of-with_item : (v : V) (w : Worker V) → IsShort w → load_of (with_item v w) ≡ load_of w + 1
  unfolding load_of queue_length
  load_of-with_item v w short =
      let more = length-append w.work_queue.queue (v ∷ []) in
      let before : length w.work_queue.queue % 2 ^ 32 ≡ length w.work_queue.queue =
        mod-eq_of_lt (omega (arith, short)) in
      let after : length (w.work_queue.queue ++ v ∷ []) % 2 ^ 32 ≡ length w.work_queue.queue + 1 =
        ap (λ (n : ℕ). n % 2 ^ 32) more ∙ mod-eq_of_lt short in
      after ∙ ap (λ (n : ℕ). n + 1) (sym before)

  with_item-IsLevel :
      (v : V) (n : ℕ) (before behind : List (Worker V)) (least : Worker V)
      → IsShort least
      → All (λ w. load_of least < load_of w) before
      → All (λ w. load_of least ≤ load_of w) behind
      → All (IsLevel n) (before ++ least ∷ behind)
      → (m : ℕ) × All (IsLevel m) (before ++ with_item v least ∷ behind)
  with_item-IsLevel v n before behind least short h k level =
      let (l, ((low, high), r)) = All-parts (IsLevel n) before (least ∷ behind) level in
      let more = load_of-with_item v least short in
      elim (dec_lt n (load_of least)) [
        | no same ↦ (
          n,
          All-append (IsLevel n) before (with_item v least ∷ behind) l
              ((omega (arith, more, low), omega (arith, more, same)), r),
        )
        | yes above ↦ (
          n + 1,
          All-append (IsLevel (n + 1)) before (with_item v least ∷ behind)
              (All-both (IsLevel (n + 1)) (λ w p q. (omega (arith, above, q), omega (arith, p.1)))
                before l h)
              (
                (omega (arith, more, above), omega (arith, more, high)),
                All-both (IsLevel (n + 1)) (λ w p q. (omega (arith, above, q), omega (arith, p.1)))
                    behind r k,
              ),
        )
      ]

  give_to-IsLevel :
      (v : V) (n : ℕ) (ws : List (Worker V)) (found : Found V)
      → Offered v ws found
      → All IsShort ws
      → All (IsLevel n) ws
      → (m : ℕ) × All (IsLevel m) (offer (give_item v) ws).0
  give_to-IsLevel v n ws none (e, o) short level = (n, rw o tt)
  give_to-IsLevel v n ws (some (before, least, behind)) ((e, h, k), o) short level =
      elim (Bool-cases (has_room least.work_queue)) [
        | inr full ↦ (n, rw (o, full) level)
        | inl room ↦
            let (l, (is_short, r)) = All-parts IsShort before (least ∷ behind) (rw e at short) in
            let (m, after) =
              with_item-IsLevel v n before behind least is_short h k (rw e at level) in
            (m, rw (o, room) after)
      ]

  -- If the loads of the workers differ by one at most, they do so after AddWork of an item, as long
  -- as no queue has as many entries as a uint32_t can count.
  pub offer-IsLevel :
      (v : V) (n : ℕ) (ws : List (Worker V))
      → All IsShort ws
      → All (IsLevel n) ws
      → (m : ℕ) × All (IsLevel m) (offer (give_item v) ws).0
  offer-IsLevel v n ws short level =
      give_to-IsLevel v n ws (min_element less_loaded ws) (offer_lem v ws) short level
