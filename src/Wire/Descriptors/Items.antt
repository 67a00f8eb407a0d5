-- ===== src/Wire/Descriptors/Items.antt =====
-- The loops over the entries of a container on a descriptor.
use mathlib.Core.List.{append_assoc, append-nil}
use lib_dwm.Base.{
  ℕ, ◌+◌, ◌≤◌, ◌≡◌, refl, ap, ◌∙◌, some, List, [], ◌∷◌, ◌++◌, arith, length, All, length-append,
  lt→ltb,
}
use lib_dwm.Wire.Stream.{Source}
use lib_dwm.Wire.Descriptors.{write_entries_fd, read_entries_fd, read_places_fd}
use lib_dwm.Wire.Descriptors.Codec.{Sink, FdCodec}

module _ {S T A : Type 0} {put : List ℕ → S → ℕ × S} {get : ℕ → T → List ℕ × T} {snk : Sink put}
    {src : Source get} (C : FdCodec snk src A) where
  open C use {write, read, wire, Fits, Into, some_byte, writes, reads}

  -- The bytes of the entries, one behind the other.
  abbrev pub wires : List A → List ℕ
  wires [] = []
  wires (a ∷ es) = wire a ++ wires es

  -- What the places of an array may hold into which entries are read.
  abbrev pub IntoAll : List A → List A → Type 0
  IntoAll [] [] = Unit {0}
  IntoAll [] (old ∷ olds) = ⊥
  IntoAll (a ∷ es) [] = ⊥
  IntoAll (a ∷ es) (old ∷ olds) = Into a old × IntoAll es olds

  pub write_entries_fd-Written :
      (es : List A) (rc : ℕ) (sofar : List ℕ) (s : S)
      → All Fits es
      → snk.Written sofar s
      → (s' : S) × (write_entries_fd write rc es (some s)
          ≡ (some (rc + length (wires es)), some s'))
        × snk.Written (sofar ++ wires es) s'
  unfolding write_entries_fd
  write_entries_fd-Written [] rc sofar s h w =
      (s, rw (let e : rc + 0 ≡ rc = omega arith in e) refl, rw (append-nil sofar) w)
  write_entries_fd-Written (a ∷ es) rc sofar s (fits, h) w =
      let (s', one, w') = writes a fits sofar s w in
      let (s'', others, w'') =
        write_entries_fd-Written es (rc + length (wire a)) (sofar ++ wire a) s' h w' in
      (
        s'',
        rw (one, lt→ltb 0 (length (wire a)) (some_byte a fits))
            (others
              ∙ ap (λ (n : ℕ). (some n, some s''))
                  (omega (arith, length-append (wire a) (wires es)))),
        rw (append_assoc sofar (wire a) (wires es)) at w'',
      )

  pub read_entries_fd-Holds :
      (fresh : A) (es done : List A) (rc : ℕ) (rest : List ℕ) (t : T)
      → All Fits es
      → All (λ a. Into a fresh) es
      → src.Holds (wires es ++ rest) t
      → (t' : T) × (read_entries_fd read fresh (length es) rc done (some t)
          ≡ (some (rc + length (wires es)), done ++ es, some t'))
        × src.Holds rest t'
  unfolding read_entries_fd
  read_entries_fd-Holds fresh [] done rc rest t h i held =
      (t, rw (append-nil done, let e : rc + 0 ≡ rc = omega arith in e) refl, held)
  read_entries_fd-Holds fresh (a ∷ es) done rc rest t (fits, h) (into, i) held =
      let (t', one, held') =
        reads a fresh fits into (wires es ++ rest) t
          (rw (append_assoc (wire a) (wires es) rest) at held) in
      let (t'', others, held'') =
        read_entries_fd-Holds fresh es (done ++ a ∷ []) (rc + length (wire a)) rest t' h i held' in
      (
        t'',
        rw (one, lt→ltb 0 (length (wire a)) (some_byte a fits))
            (others ∙ λ j. (
              some (
                  (let e : rc + length (wire a) + length (wires es)
                          ≡ rc + length (wire a ++ wires es) =
                        omega (arith, length-append (wire a) (wires es)) in
                      e)
                    j),
              append_assoc done (a ∷ []) es j,
              some t'',
            )),
        held'',
      )

  pub read_places_fd-Holds :
      (es olds : List A) (rc : ℕ) (rest : List ℕ) (t : T)
      → All Fits es
      → IntoAll es olds
      → src.Holds (wires es ++ rest) t
      → (t' : T) × (read_places_fd read rc olds (some t)
          ≡ (some (rc + length (wires es)), es, some t'))
        × src.Holds rest t'
  unfolding read_places_fd
  read_places_fd-Holds [] [] rc rest t h i held =
      (t, rw (let e : rc + 0 ≡ rc = omega arith in e) refl, held)
  read_places_fd-Holds [] (old ∷ olds) rc rest t h i held = absurd i
  read_places_fd-Holds (a ∷ es) [] rc rest t h i held = absurd i
  read_places_fd-Holds (a ∷ es) (old ∷ olds) rc rest t (fits, h) (into, i) held =
      let (t', one, held') =
        reads a old fits into (wires es ++ rest) t
          (rw (append_assoc (wire a) (wires es) rest) at held) in
      let (t'', others, held'') =
        read_places_fd-Holds es olds (rc + length (wire a)) rest t' h i held' in
      (
        t'',
        rw (one, others, lt→ltb 0 (length (wire a)) (some_byte a fits))
            (ap (λ (n : ℕ). (some n, a ∷ es, some t''))
              (omega (arith, length-append (wire a) (wires es)))),
        held'',
      )

  -- Every entry has a byte.
  pub length-wires : (es : List A) → All Fits es → length es ≤ length (wires es)
  length-wires [] h = omega arith
  length-wires (a ∷ es) (fits, h) =
      omega (arith, length-append (wire a) (wires es), some_byte a fits, length-wires es h)
