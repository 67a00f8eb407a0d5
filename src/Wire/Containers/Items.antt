-- ===== src/Wire/Containers/Items.antt =====
-- The loops over the entries of a container.
use mathlib.Core.List.{append_assoc, append-nil}
use lib_dwm.Base.{
  ℕ, zero, suc, ◌+◌, ◌≡◌, refl, sym, ap, ◌∙◌, Bool, true, false, List, [], ◌∷◌, ◌++◌, arith, length,
  All, length-append, true≢false, if◌then◌else◌,
}
use lib_dwm.Wire.Stream.{InStream}
use lib_dwm.Wire.Containers.{Reader, write_items, read_items, read_array}
use lib_dwm.Wire.Containers.Codec.{Codec, input, output}

module _ {A : Type 0} (C : Codec A) where
  open C use {write, read, wire, Fits, writes, reads}

  -- The characters of the entries, one behind the other.
  abbrev pub wires : List A → List ℕ
  wires [] = []
  wires (a ∷ es) = wire a ++ wires es

  pub write_items-output :
      (es : List A) (sofar : List ℕ)
      → All Fits es
      → write_items write es (output sofar) ≡ output (sofar ++ wires es)
  unfolding write_items
  write_items-output [] sofar h = ap output (sym (append-nil sofar))
  write_items-output (a ∷ es) sofar (fits, h) = rw (writes a sofar fits) (
      write_items-output es (sofar ++ wire a) h
      ∙ ap output (append_assoc sofar (wire a) (wires es)))

  pub read_items-input :
      (fresh : A) (es done : List A) (rest : List ℕ)
      → All Fits es
      → read_items read fresh (length es) done (input (wires es ++ rest)) ≡ (done ++ es, input rest)
  unfolding read_items
  read_items-input fresh [] done rest h = rw (append-nil done) refl
  read_items-input fresh (a ∷ es) done rest (fits, h) =
      rw (append_assoc (wire a) (wires es) rest, reads a fresh (wires es ++ rest) fits)
        (read_items-input fresh es (done ++ a ∷ []) rest h
          ∙ ap (λ (x : List A). (x, input rest)) (append_assoc done (a ∷ []) es))

  pub read_array-input :
      (es olds : List A) (rest : List ℕ)
      → length es ≡ length olds
      → All Fits es
      → read_array read olds (input (wires es ++ rest)) ≡ (es, input rest)
  unfolding read_array
  read_array-input [] [] rest e h = refl
  read_array-input [] (old ∷ olds) rest e h = absurd (omega (arith, e))
  read_array-input (a ∷ es) [] rest e h = absurd (omega (arith, e))
  read_array-input (a ∷ es) (old ∷ olds) rest e (fits, h) =
      rw
        (
          append_assoc (wire a) (wires es) rest,
          reads a old (wires es ++ rest) fits,
          read_array-input es olds rest (omega (arith, e)) h,
        )
        refl

-- Of two outcomes of a loop, chosen by the state of the stream, the second has a failed stream.
pub unless_failed :
    {A : Type 0} (b : Bool) (x y : List A × InStream) (n : ℕ)
    → y.1.good ≡ b
    → (x.1.good ≡ true → length x.0 ≡ n)
    → (if b then x else y).1.good ≡ true
    → length (if b then x else y).0 ≡ n
unless_failed true x y n e goes_on h = goes_on h
unless_failed false x y n e goes_on h = absurd (true≢false (sym h ∙ e))

-- Whatever the stream holds: a loop that leaves the stream good has read all entries.
pub read_items_complete :
    {A : Type 0} (read : Reader A) (fresh : A) (n : ℕ) (done : List A) (is : InStream)
    → (read_items read fresh n done is).1.good ≡ true
    → length (read_items read fresh n done is).0 ≡ length done + n
unfolding read_items
read_items_complete read fresh zero done is h = omega arith
read_items_complete read fresh (suc n) done is h =
    let (a, is') = read fresh is in
    let more = length-append done (a ∷ []) in
    unless_failed is'.good (read_items read fresh n (done ++ a ∷ []) is') (done, is')
      (length done + suc n) refl
      (λ g. omega (arith, read_items_complete read fresh n (done ++ a ∷ []) is' g, more)) h
