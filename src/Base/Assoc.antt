-- ===== src/Base/Assoc.antt =====
-- Maps with numbers for keys, as lists of entries: what the code uses of the library's maps.
use Prim.Native.Nat.{ℕ, ◌+◌}
use mathlib.Core.Path.{◌≡◌, refl}
use mathlib.Core.Logic.{inl, inr}
use mathlib.Core.Option.{Option, none, some}
use mathlib.Core.List.{List, [], ◌∷◌}
use native.Mathlib.Omega.{arith}
use lib_dwm.Base.Tests.{◌==◌, if◌then◌else◌, ==_iff, Bool-cases, is_some}
use lib_dwm.Base.Lists.{length}

module _ {V : Type 0} where
  unfoldable pub lookup : ℕ → List (ℕ × V) → Option V
  lookup k [] = none
  lookup k ((a, v) ∷ es) = if a == k then some v else lookup k es

  -- Assignment through a subscript: the entry of the key gets the value, or there is a new entry.
  unfoldable pub assign : ℕ → V → List (ℕ × V) → List (ℕ × V)
  assign k v [] = (k, v) ∷ []
  assign k v ((a, w) ∷ es) =
      let rest = assign k v es in if a == k then (k, v) ∷ es else (a, w) ∷ rest

  unfoldable pub forget : ℕ → List (ℕ × V) → List (ℕ × V)
  forget k [] = []
  forget k ((a, w) ∷ es) = let rest = forget k es in if a == k then rest else (a, w) ∷ rest

  pub lookup-assign :
      (k j : ℕ) (v : V) (es : List (ℕ × V))
      → lookup j (assign k v es) ≡ (if k == j then some v else lookup j es)
  unfolding lookup assign
  lookup-assign k j v [] = refl
  lookup-assign k j v ((a, w) ∷ es) = ground (arith, lookup-assign k j v es)

  pub lookup-forget :
      (k j : ℕ) (es : List (ℕ × V))
      → lookup j (forget k es) ≡ (if k == j then none else lookup j es)
  unfolding lookup forget
  lookup-forget k j [] = ground arith
  lookup-forget k j ((a, w) ∷ es) = ground (arith, lookup-forget k j es)

  -- Assignment of every entry of another map, one after the other.
  unfoldable pub assign_all : List (ℕ × V) → List (ℕ × V) → List (ℕ × V)
  assign_all [] es = es
  assign_all ((a, v) ∷ more) es = assign_all more (assign a v es)

  -- Each key stands once.
  abbrev pub IsMap : List (ℕ × V) → Type 0
  IsMap [] = Unit
  IsMap ((a, v) ∷ es) = (lookup a es ≡ none) × IsMap es

  pub assign-IsMap : (k : ℕ) (v : V) (es : List (ℕ × V)) → IsMap es → IsMap (assign k v es)
  unfolding lookup assign
  assign-IsMap k v [] h = (refl, tt)
  assign-IsMap k v ((a, w) ∷ es) (fresh, h) = elim (Bool-cases (a == k)) [
    | inl e ↦ rw e (rw (← (==_iff a k).0 e) fresh, h)
    | inr e ↦ rw e (ground (arith, lookup-assign k a v es), assign-IsMap k v es h)
  ]

  pub forget-IsMap : (k : ℕ) (es : List (ℕ × V)) → IsMap es → IsMap (forget k es)
  unfolding lookup forget
  forget-IsMap k [] h = tt
  forget-IsMap k ((a, w) ∷ es) (fresh, h) = elim (Bool-cases (a == k)) [
    | inl e ↦ rw e (forget-IsMap k es h)
    | inr e ↦ rw e (ground (arith, lookup-forget k a es), forget-IsMap k es h)
  ]

  pub lookup-assign_all :
      (j : ℕ) (more es : List (ℕ × V))
      → IsMap more
      → lookup j (assign_all more es)
        ≡ (if is_some (lookup j more) then lookup j more else lookup j es)
  unfolding lookup assign_all
  lookup-assign_all j [] es h = refl
  lookup-assign_all j ((a, v) ∷ more) es (fresh, h) =
      let rest = lookup-assign_all j more (assign a v es) h in
      elim (Bool-cases (a == j)) [
        | inl e ↦ rw e (ground (arith, rest, lookup-assign a j v es))
        | inr e ↦ rw e (ground (arith, rest, lookup-assign a j v es))
      ]

  pub length-assign :
      (k : ℕ) (v : V) (es : List (ℕ × V))
      → length (assign k v es) ≡ (if is_some (lookup k es) then length es else length es + 1)
  unfolding lookup assign
  length-assign k v [] = refl
  length-assign k v ((a, w) ∷ es) = ground (arith, length-assign k v es)

  length-forget_absent :
      (k : ℕ) (es : List (ℕ × V)) → lookup k es ≡ none → length (forget k es) ≡ length es
  unfolding lookup forget
  length-forget_absent k [] h = refl
  length-forget_absent k ((a, w) ∷ es) h = ground (arith, length-forget_absent k es)

  pub length-forget :
      (k : ℕ) (es : List (ℕ × V))
      → IsMap es
      → (if is_some (lookup k es) then length (forget k es) + 1 else length (forget k es))
        ≡ length es
  unfolding lookup forget
  length-forget k [] h = refl
  length-forget k ((a, w) ∷ es) (fresh, h) = elim (Bool-cases (a == k)) [
    | inl e ↦ rw e (omega (arith, length-forget_absent k es (rw ((==_iff a k).0 e) at fresh)))
    | inr e ↦ rw e (ground (arith, length-forget k es h))
  ]
