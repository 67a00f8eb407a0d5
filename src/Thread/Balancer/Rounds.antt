-- ===== src/Thread/Balancer/Rounds.antt =====
-- The rounds of `AddWork`, between which the workers change.
use lib_dwm.Base.{
  ℕ, zero, suc, ◌≤◌, ◌<◌, ◌≡◌, ◌≢◌, refl, sym, ap, ◌∙◌, true, false, none, some, List, [], ◌∷◌,
  ◌++◌, arith, Bool-cases, inl, inr, ◌⊎◌, true≢false,
}
use lib_dwm.Thread.Queue.{has_room}
use lib_dwm.Thread.Balancer.{
  Worker, Found, give_item, less_loaded, min_element, offer, add_work_rounds, answered, add_work,
}
use lib_dwm.Thread.Balancer.Balance.{IsLeast, Offered, with_item, min_element-IsLeast, offer_lem}

module _ {V : Type 0} (pause : List (Worker V) → List (Worker V)) (v : V) where
  -- The workers before a round, if no round before it added the work.
  abbrev pub at_round : ℕ → List (Worker V) → List (Worker V)
  at_round zero ws = ws
  at_round (suc k) ws = at_round k (pause ws)

  -- There are workers, and the first of those with the least load has room.
  abbrev pub LeastHasRoom : List (Worker V) → Type 0
  LeastHasRoom ws =
      (ws ≢ [])
      × ((before behind : List (Worker V)) (least : Worker V)
          → IsLeast ws (some (before, least, behind))
          → has_room least.work_queue ≡ true)

  -- The workers after the first of those with the least load, which has room, was given the work.
  abbrev pub GivenToLeast : List (Worker V) → List (Worker V) → Type 0
  GivenToLeast ws ws' =
      (before behind : List (Worker V)) × (least : Worker V) × IsLeast ws
        (some (before, least, behind))
      × (has_room least.work_queue ≡ true)
      × (ws' ≡ before ++ with_item v least ∷ behind)

  -- A round gives the work to the least loaded worker, or the workers stay as they are and that
  -- worker has no room.
  one_round :
      (ws : List (Worker V)) (found : Found V)
      → IsLeast ws found
      → Offered v ws found
      → (((offer (give_item v) ws).1 ≡ true) × GivenToLeast ws (offer (give_item v) ws).0)
        ⊎ ((offer (give_item v) ws ≡ (ws, false)) × (¬ LeastHasRoom ws))
  one_round ws none at (e, o) = inr (rw (e, rw e at o) refl, λ (some_worker, _). some_worker e)
  one_round ws (some (before, least, behind)) at (_, o) =
      elim (Bool-cases (has_room least.work_queue)) [
        | inl room ↦
            let given : offer (give_item v) ws ≡ (before ++ with_item v least ∷ behind, true) =
              rw room at o in
            inl (ap (λ x. x.1) given, (before, behind, least, at, room, ap (λ x. x.0) given))
        | inr full ↦
            let kept : offer (give_item v) ws ≡ (ws, false) = rw full at o in
            inr (kept, λ (_, room). true≢false (sym (room before behind least at) ∙ full))
      ]

  this_round :
      (ws : List (Worker V))
      → (((offer (give_item v) ws).1 ≡ true) × GivenToLeast ws (offer (give_item v) ws).0)
        ⊎ ((offer (give_item v) ws ≡ (ws, false)) × (¬ LeastHasRoom ws))
  this_round ws =
      one_round ws (min_element less_loaded ws) (min_element-IsLeast ws) (offer_lem v ws)

  rounds_return :
      (k fuel : ℕ) (ws : List (Worker V))
      → k < fuel
      → LeastHasRoom (at_round k ws)
      → (j : ℕ) × (j ≤ k)
        × (ws' : List (Worker V)) × GivenToLeast (at_round j ws) ws'
        × (add_work_rounds pause fuel v ws ≡ some ws')
  unfolding add_work_rounds
  rounds_return k zero ws h room = absurd (omega (arith, h))
  rounds_return zero (suc fuel) ws h room = elim (this_round ws) [
    | inl (now, given) ↦ (0, omega arith, (offer (give_item v) ws).0, given, rw now refl)
    | inr (kept, full) ↦ absurd (full room)
  ]
  rounds_return (suc k) (suc fuel) ws h room = elim (this_round ws) [
    | inl (now, given) ↦ (0, omega arith, (offer (give_item v) ws).0, given, rw now refl)
    | inr (kept, full) ↦
        let (j, le, ws', given, e) = rounds_return k fuel (pause ws) (omega (arith, h)) room in
        (suc j, omega (arith, le), ws', given, rw (kept, e) refl)
  ]

  -- With at least one worker, AddWork of an item returns true if there is a round k below the fuel,
  -- before which there are workers and the first of those with the least load has room. The item
  -- then stands at the back of the queue of such a worker, found in the round k or an earlier one,
  -- and the workers are else as they were in that round.
  pub add_work_returns :
      (k fuel : ℕ) (w : Worker V) (ws : List (Worker V))
      → k < fuel
      → LeastHasRoom (at_round k (w ∷ ws))
      → (j : ℕ) × (j ≤ k)
        × (ws' : List (Worker V)) × GivenToLeast (at_round j (w ∷ ws)) ws'
        × (add_work pause fuel v (w ∷ ws) ≡ some (ws', true))
  unfolding add_work
  add_work_returns k fuel w ws h room =
      let (j, le, ws', given, e) = rounds_return k fuel (w ∷ ws) h room in
      (j, le, ws', given, ap answered e)
