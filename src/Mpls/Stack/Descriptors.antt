-- ===== src/Mpls/Stack/Descriptors.antt =====
-- Stacks of labels on a descriptor.
use mathlib.Core.List.{append_assoc}
use lib_dwm.Base.{
  ℕ, zero, suc, ◌+◌, ◌^◌, ◌<◌, ◌≡◌, refl, true, false, Option, some, List, [], ◌∷◌, ◌++◌, length,
  arith,
}
use lib_dwm.Wire.Bytes.{Endian}
use lib_dwm.Wire.Stream.{Source}
use lib_dwm.Wire.StreamIo.{network_bytes}
use lib_dwm.Wire.DescriptorIo.{read_fd-written}
use lib_dwm.Mpls.Label.{s_bit}
use lib_dwm.Mpls.Stack.{read_labels_fd, read_stack_fd, streamed_length}
use lib_dwm.Mpls.Stack.Laws.{IsStack, stack_bytes}

-- What the loop leaves: a count, the labels and a state with the rest of the bytes.
abbrev Leaves :
    {S : Type 0} {get : ℕ → S → List ℕ × S}
    → Source get
    → Option (Option ℕ × List ℕ × Option S)
    → ℕ
    → List ℕ
    → List ℕ
    → Type 0
Leaves {S} src r count labels rest =
    (s' : S) × (r ≡ some (some count, labels, some s')) × src.Holds rest s'

module _ {S : Type 0} {get : ℕ → S → List ℕ × S} (src : Source get) (host : Endian) where
  last_round :
      (n l rc : ℕ) (labels rest : List ℕ) (s : S)
      → s_bit l ≡ true
      → src.Holds rest s
      → Leaves src (read_labels_fd get host (suc n) l rc labels (some s)) rc labels rest
  unfolding read_labels_fd
  last_round n l rc labels rest s e h = (s, rw e refl, h)

  label_round :
      (n last l rc count : ℕ) (labels all_labels bs rest : List ℕ) (s : S)
      → s_bit last ≡ false
      → l < 2 ^ 32
      → src.Holds (network_bytes 4 l ++ bs) s
      → ((s' : S)
          → src.Holds bs s'
          → Leaves src
              (read_labels_fd get host n l (rc + 4) (labels ++ (l ∷ [])) (some s'))
              count
              all_labels
              rest)
      → Leaves src (read_labels_fd get host (suc n) last rc labels (some s)) count all_labels rest
  unfolding read_labels_fd
  label_round n last l rc count labels all_labels bs rest s e fits h later =
      let (s', first, held) = read_fd-written src host 4 l last bs s fits h in
      rw (first, e) (later s' held)

  read_labels_fd-written :
      (n last rc : ℕ) (labels ls rest : List ℕ) (s : S)
      → length ls < n
      → s_bit last ≡ false
      → IsStack ls
      → src.Holds (stack_bytes ls ++ rest) s
      → Leaves src
          (read_labels_fd get host n last rc labels (some s))
          (rc + streamed_length ls)
          (labels ++ ls)
          rest
  unfolding streamed_length
  read_labels_fd-written n last rc labels [] rest s h e stack held = absurd stack
  read_labels_fd-written zero last rc labels (l ∷ ls) rest s h e stack held = absurd (omega arith)
  read_labels_fd-written (suc zero) last rc labels (l ∷ ls) rest s h e stack held =
      absurd (omega arith)
  read_labels_fd-written (suc (suc n)) last rc labels (l ∷ []) rest s h e (fits, b) held =
      label_round (suc n) last l rc (rc + 4) labels (labels ++ (l ∷ [])) rest rest s e fits
        (rw (append_assoc (network_bytes 4 l) [] rest) at held)
        (λ s' held'. last_round n l (rc + 4) (labels ++ (l ∷ [])) rest s' b held')
  read_labels_fd-written (suc (suc n)) last rc labels (l ∷ m ∷ ls) rest s h e (fits, b, stack)
        held =
      label_round (suc n) last l rc (rc + streamed_length (l ∷ m ∷ ls)) labels
        (labels ++ (l ∷ m ∷ ls)) (stack_bytes (m ∷ ls) ++ rest) rest s e fits
        (rw (append_assoc (network_bytes 4 l) (stack_bytes (m ∷ ls)) rest) at held)
        (λ s' held'.
          rw
            (
              append_assoc labels (l ∷ []) (m ∷ ls),
              let c : rc + 4 + (4 + streamed_length ls) ≡ rc + (4 + (4 + streamed_length ls)) =
                    omega arith in
                  c,
            )
            at
            (read_labels_fd-written (suc n) l (rc + 4) (labels ++ (l ∷ [])) (m ∷ ls) rest s'
              (omega arith) b stack held'))

  -- For a stack in which the last label and no other has the S bit, with fuel for one more round
  -- than it has labels, `Read` from a descriptor on which its characters stand gets the stack,
  -- returns its `StreamedLength`, and leaves the bytes that follow.
  pub read_stack_fd-written :
      (fuel : ℕ) (labels rest : List ℕ) (s : S)
      → length labels < fuel
      → IsStack labels
      → src.Holds (stack_bytes labels ++ rest) s
      → (s' : S) × (read_stack_fd get host fuel (some s)
          ≡ some (some (streamed_length labels), labels, some s'))
        × src.Holds rest s'
  unfolding read_stack_fd s_bit
  read_stack_fd-written fuel labels rest s h stack held =
      rw (let c : 0 + streamed_length labels ≡ streamed_length labels = omega arith in c) at
        (read_labels_fd-written fuel 0 0 [] labels rest s h refl stack held)
