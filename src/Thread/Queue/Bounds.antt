-- ===== src/Thread/Queue/Bounds.antt =====
-- The maximal length: single values keep it, ranges overshoot it.
use lib_dwm.Base.{
  ◌+◌, ◌^◌, ◌≤◌, ◌<◌, ◌≡◌, ◌≢◌, ◌↔◌, refl, true, false, List, [], ◌∷◌, if◌then◌else◌, Bool-cases,
  inl, inr, arith, length, length-append,
}
use lib_dwm.Patricia.Map.{is_empty_list}
use lib_dwm.Thread.Queue.{
  Queue, push_back, push_front, push_back_range, push_front_range, inserted_range, has_room,
}

module _ {V : Type 0} where
  has_room_iff :
      (q : Queue V) → q.max_length ≢ 0 → (has_room q ≡ true) ↔ (length q.queue < q.max_length)
  unfolding has_room
  has_room_iff q h = ground arith

  length-push_back :
      (q : Queue V) (v : V)
      → (length (push_back q v).0.queue
          ≡ (if has_room q then length q.queue + 1 else length q.queue))
        × ((push_back q v).1 ≡ has_room q)
  unfolding push_back
  length-push_back q v = elim (Bool-cases (has_room q)) [
    | inl e ↦ rw e (length-append q.queue (v ∷ []), refl)
    | inr e ↦ rw e (refl, refl)
  ]

  length-push_front :
      (q : Queue V) (v : V)
      → (length (push_front q v).0.queue
          ≡ (if has_room q then length q.queue + 1 else length q.queue))
        × ((push_front q v).1 ≡ has_room q)
  unfolding push_front
  length-push_front q v = elim (Bool-cases (has_room q)) [
    | inl e ↦ rw e (omega arith, refl)
    | inr e ↦ rw e (refl, refl)
  ]

  length-nonempty : (es : List V) → is_empty_list es ≡ true → length es ≡ 0
  length-nonempty [] h = refl
  length-nonempty (e ∷ es) h = cc

  -- A range is inserted as a whole or not at all, and counted, below 2^32 values.
  pub length-push_back_range :
      (q : Queue V) (es : List V)
      → length q.queue + length es < 2 ^ 32
      → (length (push_back_range q es).0.queue
          ≡ (if has_room q then length q.queue + length es else length q.queue))
        × ((push_back_range q es).1 ≡ (if has_room q then length es else 0))
  unfolding push_back_range inserted_range
  length-push_back_range q es small =
      let both = length-append q.queue es in
      elim (Bool-cases (is_empty_list es)) [
        | inl n ↦ rw n (ground (arith, length-nonempty es n))
        | inr n ↦ elim (Bool-cases (has_room q)) [
          | inl e ↦ rw (n, e) (both, omega (arith, both, small))
          | inr e ↦ rw (n, e) (refl, refl)
        ]
      ]

  pub length-push_front_range :
      (q : Queue V) (es : List V)
      → length q.queue + length es < 2 ^ 32
      → (length (push_front_range q es).0.queue
          ≡ (if has_room q then length q.queue + length es else length q.queue))
        × ((push_front_range q es).1 ≡ (if has_room q then length es else 0))
  unfolding push_front_range inserted_range
  length-push_front_range q es small =
      let both = length-append es q.queue in
      elim (Bool-cases (is_empty_list es)) [
        | inl n ↦ rw n (ground (arith, length-nonempty es n))
        | inr n ↦ elim (Bool-cases (has_room q)) [
          | inl e ↦ rw (n, e) (omega (arith, both), omega (arith, both, small))
          | inr e ↦ rw (n, e) (refl, refl)
        ]
      ]

  -- Without room for one value, a range is refused.
  push_range-refused :
      (q : Queue V) (es : List V)
      → has_room q ≡ false
      → (push_back_range q es ≡ (q, 0)) × (push_front_range q es ≡ (q, 0))
  unfolding push_back_range push_front_range
  push_range-refused q es full = elim (Bool-cases (is_empty_list es)) [
    | inl n ↦ rw n (refl, refl)
    | inr n ↦ rw (n, full) (refl, refl)
  ]

  full_lem : (q : Queue V) → q.max_length ≢ 0 → q.max_length ≤ length q.queue → has_room q ≡ false
  unfolding has_room
  full_lem q h le = ground arith

  bounded_sizes :
      (q : Queue V) (v : V) (es : List V)
      → q.max_length ≢ 0
      → length q.queue ≤ q.max_length
      → length q.queue + length es < 2 ^ 32
      → (((push_back q v).1 ≡ true) ↔ (length q.queue < q.max_length))
        × (length (push_back q v).0.queue ≤ q.max_length)
        × (((push_front q v).1 ≡ true) ↔ (length q.queue < q.max_length))
        × (length (push_front q v).0.queue ≤ q.max_length)
        × (length (push_back_range q es).0.queue ≡ length q.queue + (push_back_range q es).1)
        × (length q.queue < q.max_length → (push_back_range q es).1 ≡ length es)
        × (length (push_front_range q es).0.queue ≡ length q.queue + (push_front_range q es).1)
        × (length q.queue < q.max_length → (push_front_range q es).1 ≡ length es)
  bounded_sizes q v es nonzero fits small =
      let (room, room') = has_room_iff q nonzero in
      let (back, back_answer) = length-push_back q v in
      let (front, front_answer) = length-push_front q v in
      let (backs, backs_count) = length-push_back_range q es small in
      let (fronts, fronts_count) = length-push_front_range q es small in
      elim (Bool-cases (has_room q)) [
        | inl e ↦
            rw (back, back_answer, front, front_answer, backs, backs_count, fronts, fronts_count, e)
              (ground (arith, room e))
        | inr e ↦
            rw (back, back_answer, front, front_answer, backs, backs_count, fronts, fronts_count, e)
              (ground (arith, room', e))
      ]

  -- For a queue with a maximal length that it does not exceed: PushBack and PushFront of one value
  -- succeed just if the queue is shorter than that, and keep it within; a range of values, below
  -- 2^32 in all, goes in as a whole as soon as there is room for one, and is counted, so that the
  -- queue may end up longer than the maximum by all but one of them; into a queue of the maximal
  -- length no range goes, and the queue stays as it is.
  pub bounded :
      (q : Queue V) (v : V) (es : List V)
      → q.max_length ≢ 0
      → length q.queue ≤ q.max_length
      → length q.queue + length es < 2 ^ 32
      → (((push_back q v).1 ≡ true) ↔ (length q.queue < q.max_length))
        × (length (push_back q v).0.queue ≤ q.max_length)
        × (((push_front q v).1 ≡ true) ↔ (length q.queue < q.max_length))
        × (length (push_front q v).0.queue ≤ q.max_length)
        × (length (push_back_range q es).0.queue ≡ length q.queue + (push_back_range q es).1)
        × (length q.queue < q.max_length → (push_back_range q es).1 ≡ length es)
        × (length (push_front_range q es).0.queue ≡ length q.queue + (push_front_range q es).1)
        × (length q.queue < q.max_length → (push_front_range q es).1 ≡ length es)
        × (q.max_length ≤ length q.queue
            → (push_back_range q es ≡ (q, 0)) × (push_front_range q es ≡ (q, 0)))
  bounded q v es nonzero fits small =
      let (a, b, c, d, e, f, g, h) = bounded_sizes q v es nonzero fits small in
      (a, b, c, d, e, f, g, h, λ le. push_range-refused q es (full_lem q nonzero le))
