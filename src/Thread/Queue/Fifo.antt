-- ===== src/Thread/Queue/Fifo.antt =====
-- First in, first out.
use lib_dwm.Base.{
  ◌≡◌, refl, sym, ap, ◌∙◌, Bool, Option, none, some, List, [], ◌∷◌, ◌++◌, if◌then◌else◌, Bool-cases,
  inl, inr,
}
use mathlib.Core.List.{append_assoc, append-nil}
use lib_dwm.Thread.Queue.{Queue, push_back, pop_front, has_room}

-- What producers and consumers do, in the order in which they get the mutex.
pub data Call (V : Type 0) : Type 0 where
  produce : V → Call V
  consume : Call V

-- The queue after some calls, the values that were accepted, and those that were handed out.
pub record Trace (V : Type 0) : Type 0 where
  pub after : Queue V
  pub accepted : List V
  pub handed_out : List V

module _ {V : Type 0} where
  abbrev cons_if : Bool → V → List V → List V
  cons_if b v es = if b then v ∷ es else es

  abbrev cons_some : Option V → List V → List V
  cons_some none es = es
  cons_some (some v) es = v ∷ es

  unfoldable pub run : List (Call V) → Queue V → Trace V
  run [] q = record { after = q; accepted = []; handed_out = [] }
  run (produce v ∷ calls) q =
      let rest = run calls (push_back q v).0 in
      record {
        after = rest.after;
        accepted = cons_if (push_back q v).1 v rest.accepted;
        handed_out = rest.handed_out;
      }
  run (consume ∷ calls) q =
      let rest = run calls (pop_front q).0 in
      record {
        after = rest.after;
        accepted = rest.accepted;
        handed_out = cons_some (pop_front q).1 rest.handed_out;
      }

  pushed :
      (q : Queue V) (v : V) (es : List V)
      → (push_back q v).0.queue ++ es ≡ q.queue ++ cons_if (push_back q v).1 v es
  unfolding push_back
  pushed q v es = elim (Bool-cases (has_room q)) [
    | inl e ↦ rw e (append_assoc q.queue (v ∷ []) es)
    | inr e ↦ rw e refl
  ]

  popped :
      (q : Queue V) (es : List V)
      → q.queue ≡ es
      → q.queue ≡ cons_some (pop_front q).1 (pop_front q).0.queue
  unfolding pop_front
  popped q [] e = rw e refl
  popped q (v ∷ es) e = rw e refl

  cons_some-append :
      (o : Option V) (r acc h end : List V)
      → r ++ acc ≡ h ++ end
      → cons_some o r ++ acc ≡ cons_some o h ++ end
  cons_some-append none r acc h end e = e
  cons_some-append (some v) r acc h end e = ap (◌∷◌ v) e

  -- Whatever producers and consumers do: the values in the queue followed by those that PushBack
  -- accepts are, in this order, the values that PopFront hands out followed by those that are left.
  pub fifo :
      (calls : List (Call V)) (q : Queue V)
      → q.queue ++ (run calls q).accepted ≡ (run calls q).handed_out ++ (run calls q).after.queue
  unfolding run
  fifo [] q = append-nil q.queue
  fifo (produce v ∷ calls) q = sym (pushed q v _) ∙ fifo calls (push_back q v).0
  fifo (consume ∷ calls) q =
      ap (λ es. es ++ (run calls (pop_front q).0).accepted) (popped q q.queue refl)
      ∙ cons_some-append (pop_front q).1 _ _ _ _ (fifo calls (pop_front q).0)
