-- ===== src/Mpls/Stack/Laws.antt =====
-- Reading a stack of labels ends, and gives back what was written.
use lib_dwm.Base.{
  ℕ, zero, suc, ◌+◌, ◌^◌, ◌<◌, ◌≤◌, ◌≡◌, refl, Bool, true, false, some, List, [], ◌∷◌, ◌++◌, length,
  if◌then◌else◌, arith, drop, Bool-cases, inl, inr, is_some,
}
use lib_dwm.Wire.Bytes.{Endian}
use lib_dwm.Wire.Stream.{InStream, read_bytes}
use lib_dwm.Wire.StreamIo.{read_int, network_bytes}
use lib_dwm.Mpls.Label.{s_bit}
use lib_dwm.Mpls.Stack.{read_labels, read_stack}

-- What the assertions of `Write` ask of a stack: the last label, and no other, has the S bit.
abbrev pub IsStack : List ℕ → Type 0
IsStack [] = ⊥
IsStack (l ∷ []) = (l < 2 ^ 32) × (s_bit l ≡ true)
IsStack (l ∷ m ∷ ls) = (l < 2 ^ 32) × (s_bit l ≡ false) × IsStack (m ∷ ls)

abbrev pub stack_bytes : List ℕ → List ℕ
stack_bytes [] = []
stack_bytes (l ∷ ls) = network_bytes 4 l ++ stack_bytes ls

length-drop : (n : ℕ) (bs : List ℕ) → n ≤ length bs → length (drop n bs) + n ≡ length bs
length-drop zero bs h = omega arith
length-drop (suc n) [] h = absurd (omega arith)
length-drop (suc n) (b ∷ bs) h = omega (arith, length-drop n bs (omega arith))

-- A label that was read took its four characters.
read_int-takes :
    (host : Endian) (w old : ℕ) (is : InStream)
    → (read_int host w old is).1.good ≡ true
    → length (read_int host w old is).1.rest + w ≤ length is.rest
unfolding read_int read_bytes
read_int-takes host w old is h = ground (arith, length-drop w is.rest)

read_labels-ends :
    (host : Endian) (n last : ℕ) (is : InStream) (labels : List ℕ)
    → length is.rest < n
    → is_some (read_labels (read_int host 4) n last is labels) ≡ true
unfolding read_labels
read_labels-ends host zero last is labels h = absurd (omega arith)
read_labels-ends host (suc n) last is labels h = elim (Bool-cases (s_bit last)) [
  | inl s ↦ rw s refl
  | inr s ↦ elim (Bool-cases (read_int host 4 last is).1.good) [
    | inr bad ↦ rw (s, bad) refl
    | inl good ↦
        rw (s, good)
          (read_labels-ends host n _ _ _ (omega (arith, read_int-takes host 4 last is good)))
  ]
]

ends_if :
    (host : Endian) (is : InStream) (b : Bool)
    → is_some
        (if b then read_labels (read_int host 4) (length is.rest + 1) 0 is [] else some ([], is))
      ≡ true
ends_if host is true = read_labels-ends host (length is.rest + 1) 0 is [] (omega arith)
ends_if host is false = refl

-- Reading a stack ends on every stream: the fuel of the loop, one more than the characters to come,
-- is enough.
pub read_stack-ends : (host : Endian) (is : InStream) → is_some (read_stack host is) ≡ true
unfolding read_stack
read_stack-ends host is = ends_if host is is.good
