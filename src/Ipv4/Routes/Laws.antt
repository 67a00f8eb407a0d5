-- ===== src/Ipv4/Routes/Laws.antt =====
-- The operations of the routes as those of one map from prefixes to values.
use lib_dwm.Base.{
  ℕ, zero, suc, ◌<◌, ◌≡◌, refl, true, false, true≢false, ==_iff, Option, none, some, List, [], ◌∷◌,
  not, arith, ◌==◌, if◌then◌else◌, is_some, or_else, Option-cases, Bool-cases, inl, inr, sym, ◌∙◌,
  lt→ltb, ltb, ◌&&◌,
}
use lib_dwm.Base.Assoc.{
  lookup, assign, forget, IsMap, lookup-assign, lookup-forget, lookup-assign_all, assign-IsMap,
  forget-IsMap,
}
use lib_dwm.Ipv4.Prefix.{Ipv4Prefix, same}
use lib_dwm.Ipv4.Prefix.Laws.{same_iff}
use lib_dwm.Patricia.Map.{is_empty_list}
use lib_dwm.Ipv4.Routes.{
  Routes, update, clear, empty, add, add_all, subscript, delete, find, clear_below, empty_below,
  add_all_below,
}

module _ {V : Type 0} where
  -- The table as a function: what is stored under a prefix.
  abbrev pub view : Routes V → Ipv4Prefix → Option V
  view r p = lookup p.network (r.hash_maps p.mask_length)

  abbrev pub store : (Ipv4Prefix → Option V) → Ipv4Prefix → Option V → Ipv4Prefix → Option V
  store f p o key = if same p key then o else f key

  view-update-assign :
      (r : Routes V) (p key : Ipv4Prefix) (v : V)
      → view (update r p.mask_length (assign p.network v (r.hash_maps p.mask_length))) key
        ≡ store (view r) p (some v) key
  unfolding update same
  view-update-assign r p key v =
      ground (arith, lookup-assign p.network key.network v (r.hash_maps p.mask_length))

  view-update-forget :
      (r : Routes V) (p key : Ipv4Prefix)
      → view (update r p.mask_length (forget p.network (r.hash_maps p.mask_length))) key
        ≡ store (view r) p none key
  unfolding update same
  view-update-forget r p key =
      ground (arith, lookup-forget p.network key.network (r.hash_maps p.mask_length))

  pub store_same : (f : Ipv4Prefix → Option V) (p key : Ipv4Prefix) → store f p (f p) key ≡ f key
  store_same f p key = elim (Bool-cases (same p key)) [
    | inl e ↦ rw (e, (same_iff p key).0 e) refl
    | inr e ↦ rw e refl
  ]

  pub view-add :
      (r : Routes V) (p key : Ipv4Prefix) (v : V)
      → (view (add r p v).0 key ≡ store (view r) p (some (or_else (view r p) v)) key)
        × ((add r p v).1 ≡ not (is_some (view r p)))
  unfolding add
  view-add r p key v = elim (Option-cases (view r p)) [
    | inl e ↦ rw e (view-update-assign r p key v, refl)
    | inr (w, e) ↦ rw e (rw (← e) (sym (store_same (view r) p key)), refl)
  ]

  pub view-delete :
      (r : Routes V) (p key : Ipv4Prefix)
      → (view (delete r p).0 key ≡ store (view r) p none key)
        × ((delete r p).1 ≡ is_some (view r p))
  unfolding delete
  view-delete r p key = elim (Option-cases (view r p)) [
    | inl e ↦ rw e (rw (← e) (sym (store_same (view r) p key)), refl)
    | inr (w, e) ↦ rw e (view-update-forget r p key, refl)
  ]

  view-subscript :
      (default : V) (r : Routes V) (p key : Ipv4Prefix)
      → (view (subscript default r p).0 key
          ≡ store (view r) p (some (or_else (view r p) default)) key)
        × ((subscript default r p).1 ≡ or_else (view r p) default)
  unfolding subscript
  view-subscript default r p key = elim (Option-cases (view r p)) [
    | inl e ↦ rw e (view-update-assign r p key default, refl)
    | inr (w, e) ↦ rw e (rw (← e) (sym (store_same (view r) p key)), refl)
  ]

  pub lookup-is_empty : (k : ℕ) (es : List (ℕ × V)) → is_empty_list es ≡ true → lookup k es ≡ none
  unfolding lookup
  lookup-is_empty k [] h = refl
  lookup-is_empty k (e ∷ es) h = cc

  pub find_lem :
      (r : Routes V) (p : Ipv4Prefix) (match : V)
      → find r p match ≡ (is_some (view r p), or_else (view r p) match)
  unfolding find
  find_lem r p match = elim (Bool-cases (is_empty_list (r.hash_maps p.mask_length))) [
    | inl e ↦ rw (e, lookup-is_empty p.network _ e) refl
    | inr e ↦ elim (Option-cases (view r p)) [
      | inl n ↦ rw (e, n) refl
      | inr (w, n) ↦ rw (e, n) refl
    ]
  ]

  lookup_nothing : (k : ℕ) → lookup {V = V} k [] ≡ none
  unfolding lookup
  lookup_nothing k = refl

  view-clear_below :
      (n : ℕ) (r : Routes V) (key : Ipv4Prefix)
      → view (clear_below n r) key ≡ (if ltb key.mask_length n then none else view r key)
  unfolding clear_below update
  view-clear_below zero r key = ground arith
  view-clear_below (suc i) r key =
      ground (arith, lookup_nothing key.network, view-clear_below i r key)

  view-add_all_below :
      (n : ℕ) (r more : Routes V) (key : Ipv4Prefix)
      → ((i : ℕ) → IsMap (more.hash_maps i))
      → view (add_all_below n r more) key
        ≡ (if ltb key.mask_length n && is_some (view more key) then view more key else view r key)
  unfolding add_all_below update
  view-add_all_below zero r more key maps = ground arith
  view-add_all_below (suc i) r more key maps =
      elim (Bool-cases (is_empty_list (more.hash_maps i))) [
        | inl e ↦ rw e (
            ground (
              arith,
              lookup-is_empty key.network (more.hash_maps i) e,
              view-add_all_below i r more key maps,
            ))
        | inr e ↦ rw e (
            ground (
              arith,
              lookup-assign_all key.network (more.hash_maps i)
                  ((add_all_below i r more).hash_maps i) (maps i),
              view-add_all_below i r more key maps,
            ))
      ]

  -- Each of the maps has a key at most once.
  abbrev pub AreMaps : Routes V → Type 0
  AreMaps r = (i : ℕ) → IsMap (r.hash_maps i)

  pub update-AreMaps :
      (r : Routes V) (i : ℕ) (es : List (ℕ × V)) → AreMaps r → IsMap es → AreMaps (update r i es)
  unfolding update
  update-AreMaps r i es h e j = elim (Bool-cases (i == j)) [
    | inl same_index ↦ rw same_index e
    | inr other ↦ rw other (h j)
  ]

  -- Adding and deleting a route, and the subscript, keep every key of the maps unique.
  pub add-AreMaps :
      (r : Routes V) (p : Ipv4Prefix) (v : V)
      → AreMaps r
      → AreMaps (add r p v).0 × AreMaps (delete r p).0 × AreMaps (subscript v r p).0
  unfolding add delete subscript
  add-AreMaps r p v h =
      let added =
        update-AreMaps r p.mask_length _ h (assign-IsMap p.network v _ (h p.mask_length)) in
      elim (Option-cases (view r p)) [
        | inl e ↦ rw e (added, h, added)
        | inr (w, e) ↦
            rw e (
              h,
              update-AreMaps r p.mask_length _ h (forget-IsMap p.network _ (h p.mask_length)),
              h,
            )
      ]

  empty_below-view :
      (n : ℕ) (r : Routes V) (key : Ipv4Prefix)
      → key.mask_length < n
      → empty_below n r ≡ true
      → view r key ≡ none
  unfolding empty_below
  empty_below-view zero r key lt h = absurd (omega arith)
  empty_below-view (suc i) r key lt h =
      ground (arith, lookup-is_empty key.network (r.hash_maps i), empty_below-view i r key)

  lookup-first : (k : ℕ) (v : V) (es : List (ℕ × V)) → lookup k ((k, v) ∷ es) ≡ some v
  unfolding lookup
  lookup-first k v es = rw ((==_iff k k).1 refl) refl

  first_of :
      (i : ℕ) (r : Routes V) (es : List (ℕ × V))
      → r.hash_maps i ≡ es
      → is_empty_list es ≡ false
      → (key : Ipv4Prefix) × (key.mask_length ≡ i) × (v : V) × (view r key ≡ some v)
  first_of i r [] e h = absurd (true≢false h)
  first_of i r ((a, v) ∷ es) e h =
      (record { network = a; mask_length = i }, refl, v, rw e (lookup-first a v es))

  some_below :
      (n : ℕ) (r : Routes V)
      → empty_below n r ≡ false
      → (key : Ipv4Prefix) × (key.mask_length < n) × (v : V) × (view r key ≡ some v)
  unfolding empty_below
  some_below zero r h = absurd (true≢false h)
  some_below (suc i) r h = elim (Bool-cases (empty_below i r)) [
    | inl e ↦
        let (key, at, v, there) = first_of i r (r.hash_maps i) refl (rw e at h) in
        (key, omega (arith, at), v, there)
    | inr e ↦ let (key, lt, v, there) = some_below i r e in (key, omega (arith, lt), v, there)
  ]

  -- The routes implement a map from prefixes to values, for prefixes with a mask of at most 32 bits:
  -- Add keeps an entry that is there, Delete forgets it, the subscript gives an absent one the
  -- default value, Add of routes prefers the added ones, Clear forgets all, Find finds what is there
  -- and else leaves its argument; the answers of Add, Delete and Find say what was there, and Empty
  -- answers false just if some prefix has a value.
  pub routes_refine :
      (r more : Routes V) (p key : Ipv4Prefix) (v match : V)
      → AreMaps more
      → p.mask_length < 33
      → key.mask_length < 33
      → (view (add r p v).0 key ≡ store (view r) p (some (or_else (view r p) v)) key)
        × ((add r p v).1 ≡ not (is_some (view r p)))
        × (view (delete r p).0 key ≡ store (view r) p none key)
        × ((delete r p).1 ≡ is_some (view r p))
        × (view (subscript v r p).0 key ≡ store (view r) p (some (or_else (view r p) v)) key)
        × ((subscript v r p).1 ≡ or_else (view r p) v)
        × (view (add_all r more) key
            ≡ (if is_some (view more key) then view more key else view r key))
        × (view (clear r) key ≡ none)
        × (find r key match ≡ (is_some (view r key), or_else (view r key) match))
        × (empty r ≡ true → view r key ≡ none)
        × (empty r ≡ false
            → (k : Ipv4Prefix) × (k.mask_length < 33) × (w : V) × (view r k ≡ some w))
  unfolding add_all clear empty
  routes_refine r more p key v match maps in_range lt =
      let (added, answer) = view-add r p key v in
      let (deleted, was_there) = view-delete r p key in
      let (at, value) = view-subscript v r p key in
      (
        added,
        answer,
        deleted,
        was_there,
        at,
        value,
        view-add_all_below 33 r more key maps ∙ rw (lt→ltb key.mask_length 33 lt) refl,
        view-clear_below 33 r key ∙ rw (lt→ltb key.mask_length 33 lt) refl,
        find_lem r key match,
        empty_below-view 33 r key lt,
        some_below 33 r,
      )
