-- ===== src/Thread/Waiting/Silent.antt =====
-- A member that does not notify leaves an empty queue empty.
use lib_dwm.Base.{
  ℕ, ◌+◌, ◌≡◌, ◌↔◌, refl, sym, ◌∙◌, Bool, true, false, List, [], ◌∷◌, if◌then◌else◌, length,
  Bool-cases, inl, inr, arith, true≢false,
}
use lib_dwm.Patricia.Map.{is_empty_list}
use lib_dwm.Thread.Queue.{
  Queue, push_back, push_front, push_back_range, push_front_range, pop_front, pop_back, clear,
  empty, swap_out, has_room,
}
use lib_dwm.Thread.Queue.Bounds.{length-push_back_range, length-push_front_range}
use lib_dwm.Thread.Waiting.{
  nonzero, Member, push_back_one, push_front_one, push_back_many, push_front_many, pop_front_one,
  pop_back_one, clear_all, swap_deque,
}

module _ {V : Type 0} where
  empty_iff : (q : Queue V) → (empty q ≡ true) ↔ (length q.queue ≡ 0)
  unfolding empty
  empty_iff q = by_list q.queue
    where
      by_list : (es : List V) → (is_empty_list es ≡ true) ↔ (length es ≡ 0)
      by_list [] = (λ h. refl, λ h. refl)
      by_list (v ∷ es) = (λ h. cc, λ h. absurd (omega arith))

  pop_front-empty :
      (q : Queue V) (es : List V) → q.queue ≡ es → empty q ≡ true → empty (pop_front q).0 ≡ true
  unfolding empty pop_front
  pop_front-empty q [] at e = rw at refl
  pop_front-empty q (v ∷ es) at e = absurd (true≢false (sym e ∙ rw at refl))

  pop_back-empty :
      (q : Queue V) (es : List V) → q.queue ≡ es → empty q ≡ true → empty (pop_back q).0 ≡ true
  unfolding empty pop_back
  pop_back-empty q [] at e = rw at refl
  pop_back-empty q (v ∷ es) at e = absurd (true≢false (sym e ∙ rw at refl))

  -- A range that an empty queue counts as nothing is nothing.
  range-empty :
      (q q' : Queue V) (n count : ℕ) (room : Bool)
      → empty q ≡ true
      → length q'.queue ≡ (if room then length q.queue + n else length q.queue)
      → count ≡ (if room then n else 0)
      → nonzero count ≡ false
      → empty q' ≡ true
  range-empty q q' n count room e len num silent =
      let none_before = (empty_iff q).0 e in
      (empty_iff q').1 (ground (arith, none_before, len, num))

  -- A member that does not notify leaves an empty queue empty.
  pub Member-empty :
      {q q' : Queue V} {n : Bool} → Member q q' n → n ≡ false → empty q ≡ true → empty q' ≡ true
  unfolding empty push_back push_front clear swap_out
  Member-empty {q} (push_back_one v) silent e = elim (Bool-cases (has_room q)) [
    | inl room ↦ absurd (true≢false (sym (rw room refl) ∙ silent))
    | inr full ↦ rw full e
  ]
  Member-empty {q} (push_front_one v) silent e = elim (Bool-cases (has_room q)) [
    | inl room ↦ absurd (true≢false (sym (rw room refl) ∙ silent))
    | inr full ↦ rw full e
  ]
  Member-empty {q} (push_back_many es small) silent e =
      let (len, num) = length-push_back_range q es (omega (arith, (empty_iff q).0 e)) in
      range-empty q (push_back_range q es).0 (length es) (push_back_range q es).1 (has_room q) e len
        num silent
  Member-empty {q} (push_front_many es small) silent e =
      let (len, num) = length-push_front_range q es (omega (arith, (empty_iff q).0 e)) in
      range-empty q (push_front_range q es).0 (length es) (push_front_range q es).1 (has_room q) e
        len num silent
  Member-empty {q} pop_front_one silent e = pop_front-empty q q.queue refl e
  Member-empty {q} pop_back_one silent e = pop_back-empty q q.queue refl e
  Member-empty {q} clear_all silent e = refl
  Member-empty {q} (swap_deque c) silent e = rw e e
