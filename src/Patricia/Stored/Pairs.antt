-- ===== src/Patricia/Stored/Pairs.antt =====
-- The entries of a trie as a list, in the order of the iterators.
use lib_dwm.Base.{
  ◌≡◌, refl, ap, ◌∙◌, Bool, true, false, Option, none, some, List, [], ◌∷◌, ◌++◌, if◌then◌else◌,
  All, All-append, is_some, arith, ◌&&◌,
}
use lib_dwm.Patricia.Key.{PrefixKey}
use lib_dwm.Patricia.Trie.{Trie, null, node, find}
use lib_dwm.Patricia.Shape.{IsWellFormed}
use lib_dwm.Patricia.Search.Chain.{lookup}
use lib_dwm.Patricia.Iterator.{deref}
use lib_dwm.Patricia.Iterator.Zipper.{Frame, went_left, went_right, plug, deref-here}
use lib_dwm.Patricia.Iterator.Walk.{keys}
use lib_dwm.Patricia.Iterator.Once.{found_below, find-node}
use lib_dwm.Patricia.Stored.{value_of}

abbrev pub pairs : {P V : Type 0} → Trie P V → List (P × V)
pairs null = []
pairs (node q w true l r up) = (q, w) ∷ (pairs l ++ pairs r)
pairs (node q w false l r up) = pairs l ++ pairs r

abbrev pub prefixes : {P V : Type 0} → List (P × V) → List P
prefixes [] = []
prefixes ((q, w) ∷ es) = q ∷ prefixes es

prefixes-append :
    {P V : Type 0} (xs ys : List (P × V)) → prefixes (xs ++ ys) ≡ prefixes xs ++ prefixes ys
prefixes-append [] ys = refl
prefixes-append ((q, w) ∷ xs) ys = ap (◌∷◌ q) (prefixes-append xs ys)

pub prefixes-pairs : {P V : Type 0} (t : Trie P V) → prefixes (pairs t) ≡ keys t
prefixes-pairs null = refl
prefixes-pairs (node q w true l r up) =
    ap (◌∷◌ q) (prefixes-append (pairs l) (pairs r) ∙ rw (prefixes-pairs l, prefixes-pairs r) refl)
prefixes-pairs (node q w false l r up) =
    prefixes-append (pairs l) (pairs r) ∙ rw (prefixes-pairs l, prefixes-pairs r) refl

-- A prefix is found at a node, or in one of its children, or not at all.
one_entry :
    {V : Type 0} (s c b h : Bool) (w : V) (fl fr : Option V)
    → (is_some fl ≡ true → (c ≡ true) × (b ≡ false))
    → (is_some fr ≡ true → (c ≡ true) × (b ≡ true))
    → (s ≡ true → is_some fl ≡ true → ⊥)
    → (s ≡ true → is_some fr ≡ true → ⊥)
    → (if h && s then some w else if is_some fl then fl else fr)
      ≡ (if s then (if h then some w else none) else if c then (if b then fr else fl) else none)
one_entry s c b h w none none on_left on_right not_left not_right = ground arith
one_entry s c b h w none (some v) on_left on_right not_left not_right = ground arith
one_entry s c b h w (some u) none on_left on_right not_left not_right = ground arith
one_entry s c b h w (some u) (some v) on_left on_right not_left not_right = ground arith

module _ (K : PrefixKey) {V : Type 0} where
  open K use {Prefix, mask_length, bit, same, contains, IsValid}

  abbrev pub HasValue : Trie Prefix V → Prefix × V → Type 0
  HasValue root e = value_of (deref K e.0 root) ≡ some e.1

  -- A pointer to an entry of a well-formed trie names the node with its value.
  pub pairs-HasValue :
      (fs : List (Frame Prefix V)) (t : Trie Prefix V)
      → IsWellFormed K (plug fs t)
      → All (HasValue (plug fs t)) (pairs t)
  pairs-HasValue fs null wf = tt
  pairs-HasValue fs (node q w true l r up) wf = (
    ap value_of (deref-here K fs q w true l r up wf),
    All-append (HasValue (plug fs (node q w true l r up))) (pairs l) (pairs r)
        (pairs-HasValue (went_left q w true r up ∷ fs) l wf)
        (pairs-HasValue (went_right q w true l up ∷ fs) r wf),
  )
  pairs-HasValue fs (node q w false l r up) wf =
      All-append (HasValue (plug fs (node q w false l r up))) (pairs l) (pairs r)
        (pairs-HasValue (went_left q w false r up ∷ fs) l wf)
        (pairs-HasValue (went_right q w false l up ∷ fs) r wf)

  pub pairs-IsValid :
      (t : Trie Prefix V) → IsWellFormed K t → All (λ (e : Prefix × V). IsValid e.0) (pairs t)
  pairs-IsValid null wf = tt
  pairs-IsValid (node q w true l r up) (v, el, er, c, wl, wr) = (
    v,
    All-append (λ e. IsValid e.0) (pairs l) (pairs r) (pairs-IsValid l wl) (pairs-IsValid r wr),
  )
  pairs-IsValid (node q w false l r up) (v, el, er, c, wl, wr) =
      All-append (λ e. IsValid e.0) (pairs l) (pairs r) (pairs-IsValid l wl) (pairs-IsValid r wr)

  lookup-append :
      (k : Prefix) (xs ys : List (Prefix × V))
      → lookup K k (xs ++ ys) ≡ (if is_some (lookup K k xs) then lookup K k xs else lookup K k ys)
  lookup-append k [] ys = refl
  lookup-append k ((q, w) ∷ xs) ys = ground (arith, lookup-append k xs ys)

  lookup-own :
      (k q : Prefix) (w : V) (h : Bool) (l r : Trie Prefix V) (up : Option Prefix)
      → lookup K k (pairs (node q w h l r up)) ≡ (
          if h && same q k
          then some w
          else if is_some (lookup K k (pairs l))
          then lookup K k (pairs l)
          else lookup K k (pairs r))
  lookup-own k q w true l r up = ground (arith, lookup-append k (pairs l) (pairs r))
  lookup-own k q w false l r up = lookup-append k (pairs l) (pairs r)

  -- Looked up at a valid prefix, the entries give what the trie holds there.
  pub lookup-pairs :
      (k : Prefix) (t : Trie Prefix V)
      → IsValid k
      → IsWellFormed K t
      → lookup K k (pairs t) ≡ find K k t
  lookup-pairs k null vk wf = unfold find in refl
  lookup-pairs k (node q w h l r up) vk (vq, el, er, comp, wl, wr) =
      let below_left = found_below K q k false l vq vk wl el in
      let below_right = found_below K q k true r vq vk wr er in
      let mask : same q k ≡ true → mask_length q ≡ mask_length k = λ e. K.same_mask_length q k e in
      lookup-own k q w h l r up
      ∙ rw (lookup-pairs k l vk wl, lookup-pairs k r vk wr, find-node K k q w h l r up)
          (one_entry (same q k) (contains q k) (bit k (mask_length q)) h w (find K k l) (find K k r)
            (λ f. ((below_left f).0, (below_left f).2))
            (λ f. ((below_right f).0, (below_right f).2))
            (λ e f. omega (arith, mask e, (below_left f).1))
            (λ e f. omega (arith, mask e, (below_right f).1)))
