-- ===== src/Ipv4/Routes/Longest.antt =====
-- What the searches of the routes return.
use lib_dwm.Base.{
  ℕ, zero, suc, ◌^◌, ◌≤◌, ◌<◌, ◌≡◌, refl, sym, ap, ◌∙◌, Bool, true, false, ◌&&◌, Option, none, some,
  List, [], ◌∷◌, arith, Bool-cases, Option-cases, inl, inr, not, if◌then◌else◌, is_some, ltb,
  lt→ltb, true≢false, none_ne_some, All,
}
use lib_dwm.Ipv4.Prefix.{Ipv4Prefix, IsValid, make, of_address, broadcast, contains, same}
use lib_dwm.Ipv4.Prefix.Laws.{make_lem, make-IsValid, same_iff, ipv4_key}
use lib_dwm.Ipv4.Routes.{Routes}
use lib_dwm.Ipv4.Routes.Search.{find_longest, new_find_longest, find_matches}
use lib_dwm.Ipv4.Routes.Laws.{view}
use lib_dwm.Ipv4.Routes.Shorten.{contains_address_iff}
use lib_dwm.Ipv4.Routes.Hits.{
  add_hit, hits-suc, hits-zero, hits, first, last, matches_from-hits, join_from-hits,
  longest_from-hits,
}
use lib_dwm.Patricia.Search.Chain.{lookup}
use lib_dwm.Patricia.Map.{is_empty_list}
use lib_dwm.Patricia.Contract.{IsLongest}

module _ {V : Type 0} where
  -- The masks of a list of entries shrink, from below `b` on.
  abbrev pub Descends : ℕ → List (Ipv4Prefix × V) → Type 0
  Descends b [] = Unit {0}
  Descends b ((q, w) ∷ es) = (q.mask_length < b) × Descends q.mask_length es

  Descends-weaken : (b c : ℕ) (es : List (Ipv4Prefix × V)) → b ≤ c → Descends b es → Descends c es
  Descends-weaken b c [] le d = tt
  Descends-weaken b c ((q, w) ∷ es) le (lt, d) = (omega arith, d)

  hits-Descends :
      (n : ℕ) (r : Routes V) (addr : ℕ) → n < 34 → addr < 2 ^ 32 → Descends n (hits n r addr)
  hits-Descends zero r addr h ha = rw (hits-zero r addr) tt
  hits-Descends (suc i) r addr h ha =
      let rest = hits-Descends i r addr (omega arith) ha in
      let mask : (make broadcast addr i).mask_length ≡ i =
        rw (make_lem broadcast addr i (omega arith) ha) refl in
      elim (Option-cases (view r (make broadcast addr i))) [
        | inl n ↦
            rw (hits-suc i r addr (omega arith) ha, n)
              (Descends-weaken i (suc i) (hits i r addr) (omega arith) rest)
        | inr (v, n) ↦ rw (hits-suc i r addr (omega arith) ha, n) (omega arith, rw mask rest)
      ]

  lookup-add_hit :
      (k p : Ipv4Prefix) (o : Option V) (es : List (Ipv4Prefix × V))
      → lookup ipv4_key k (add_hit o p es)
        ≡ (if same p k && is_some o then o else lookup ipv4_key k es)
  lookup-add_hit k p none es = ground arith
  lookup-add_hit k p (some v) es = ground arith

  -- Looked up at a valid prefix, the hits give what the routes hold there if the prefix contains
  -- the address.
  lookup-hits :
      (n : ℕ) (r : Routes V) (addr : ℕ) (k : Ipv4Prefix)
      → n < 34
      → addr < 2 ^ 32
      → IsValid k
      → lookup ipv4_key k (hits n r addr)
        ≡ (if ltb k.mask_length n && contains k (of_address addr) then view r k else none)
  lookup-hits zero r addr k h ha vk = rw (hits-zero r addr) (ground arith)
  lookup-hits (suc i) r addr k h ha vk =
      let p : Ipv4Prefix = make broadcast addr i in
      let rest = lookup-hits i r addr k (omega arith) ha vk in
      let (to, from) = contains_address_iff k addr vk ha in
      let mask : p.mask_length ≡ i = rw (make_lem broadcast addr i (omega arith) ha) refl in
      let step = lookup-add_hit k p (view r p) (hits i r addr) in
      rw (hits-suc i r addr (omega arith) ha) (
        step ∙ elim (Bool-cases (same p k)) [
          | inl e ↦
              let here : p ≡ k = (same_iff p k).0 e in
              let at : k.mask_length ≡ i =
                sym (ap (λ (q : Ipv4Prefix). q.mask_length) here) ∙ mask in
              let inside : contains k (of_address addr) ≡ true =
                from (sym here ∙ sym (ap (make broadcast addr) at)) in
              rw (e, inside, here) (ground (arith, rest, at))
          | inr e ↦
              let elsewhere : k.mask_length ≡ i → contains k (of_address addr) ≡ true → ⊥ =
                λ at inside.
                  true≢false
                    (sym ((same_iff p k).1 (sym (to inside ∙ ap (make broadcast addr) at))) ∙ e) in
              rw (e, rest) (ground (arith, elsewhere))
        ])

  hits-IsValid :
      (n : ℕ) (r : Routes V) (addr : ℕ)
      → n < 34
      → addr < 2 ^ 32
      → All (λ (e : Ipv4Prefix × V). IsValid e.0) (hits n r addr)
  hits-IsValid zero r addr h ha = rw (hits-zero r addr) tt
  hits-IsValid (suc i) r addr h ha =
      let rest = hits-IsValid i r addr (omega arith) ha in
      elim (Option-cases (view r (make broadcast addr i))) [
        | inl n ↦ rw (hits-suc i r addr (omega arith) ha, n) rest
        | inr (v, n) ↦
            rw (hits-suc i r addr (omega arith) ha, n)
              (make-IsValid broadcast addr i (omega arith) ha, rest)
      ]

  lookup-Descends :
      (b : ℕ) (es : List (Ipv4Prefix × V)) (k : Ipv4Prefix) (v : V)
      → Descends b es
      → lookup ipv4_key k es ≡ some v
      → k.mask_length < b
  lookup-Descends b [] k v d h = absurd (none_ne_some h)
  lookup-Descends b ((q, w) ∷ es) k v (lt, d) h = elim (Bool-cases (same q k)) [
    | inl e ↦ rw (← (same_iff q k).0 e) lt
    | inr e ↦ omega (arith, lt, lookup-Descends q.mask_length es k v d (rw e at h))
  ]

  abbrev pub found : Bool × (Ipv4Prefix × V) → Option (Ipv4Prefix × V)
  found (true, e) = some e
  found (false, e) = none

  -- The first of the matches of an address is the longest match.
  first-IsLongest :
      (f : Ipv4Prefix → Option V) (addr n : ℕ) (es : List (Ipv4Prefix × V)) (match : Ipv4Prefix × V)
      → ((k : Ipv4Prefix)
          → IsValid k
          → lookup ipv4_key k es ≡ (if contains k (of_address addr) then f k else none))
      → All (λ (e : Ipv4Prefix × V). IsValid e.0) es
      → Descends n es
      → IsLongest ipv4_key f (of_address addr) (found (first match es))
  first-IsLongest f addr n [] match reads valid d = λ k vk c. sym (reads k vk ∙ rw c refl)
  first-IsLongest f addr n ((q, w) ∷ es) match reads (vq, valid) (lt, d) =
      let at : some w ≡ (if contains q (of_address addr) then f q else none) =
        sym (rw (ipv4_key.same_refl q) refl) ∙ reads q vq in
      elim (Bool-cases (contains q (of_address addr))) [
        | inr e ↦ absurd (none_ne_some (sym (rw e at at)))
        | inl e ↦ (
          vq,
          e,
          sym (rw e at at),
          λ k v vk c fk.
              let shorter =
                lookup-Descends (suc q.mask_length) ((q, w) ∷ es) k v (omega arith, d)
                  (reads k vk ∙ rw c fk) in
              omega (arith, shorter),
        )
      ]

  hits-reads :
      (r : Routes V) (addr : ℕ) (k : Ipv4Prefix)
      → addr < 2 ^ 32
      → IsValid k
      → lookup ipv4_key k (hits 33 r addr)
        ≡ (if contains k (of_address addr) then view r k else none)
  hits-reads r addr k ha vk =
      lookup-hits 33 r addr k (omega arith) ha vk ∙ rw (lt→ltb k.mask_length 33 vk.length_fits) refl

  find_longest-hits :
      (r : Routes V) (addr : ℕ) (match : Ipv4Prefix × V)
      → addr < 2 ^ 32
      → find_longest r addr match ≡ first match (hits 33 r addr)
  unfolding find_longest
  find_longest-hits r addr match ha =
      longest_from-hits 33 32 r addr match (omega arith) (omega arith) ha

  -- For an address of 32 bits, `FindLongest` keeps the promise of a search for the longest match,
  -- and leaves its argument alone if it answers false.
  pub find_longest_refines :
      (r : Routes V) (addr : ℕ) (match : Ipv4Prefix × V)
      → addr < 2 ^ 32
      → IsLongest ipv4_key (view r) (of_address addr) (found (find_longest r addr match))
        × ((find_longest r addr match).0 ≡ false → (find_longest r addr match).1 ≡ match)
  find_longest_refines r addr match ha = rw (find_longest-hits r addr match ha) (
    first-IsLongest (view r) addr 33 (hits 33 r addr) match (λ k vk. hits-reads r addr k ha vk)
        (hits-IsValid 33 r addr (omega arith) ha) (hits-Descends 33 r addr (omega arith) ha),
    untouched (hits 33 r addr),
  )
    where
      untouched :
          (es : List (Ipv4Prefix × V)) → (first match es).0 ≡ false → (first match es).1 ≡ match
      untouched [] h = refl
      untouched (e ∷ es) h = absurd (true≢false h)

  find_matches-hits :
      (r : Routes V) (addr : ℕ)
      → find_matches r addr ≡ (not (is_empty_list (hits 33 r addr)), hits 33 r addr)
  unfolding find_matches
  find_matches-hits r addr = rw (matches_from-hits 33 r addr []) refl

  -- For an address of 32 bits, the matches of `Find`, looked up at any valid prefix, give what the
  -- routes hold there if that prefix contains the address and nothing otherwise; they stand with
  -- shrinking masks, and the answer says whether there are any.
  pub find_all_matches :
      (r : Routes V) (addr : ℕ) (k : Ipv4Prefix)
      → addr < 2 ^ 32
      → IsValid k
      → (lookup ipv4_key k (find_matches r addr).1
          ≡ (if contains k (of_address addr) then view r k else none))
        × Descends 33 (find_matches r addr).1
        × ((find_matches r addr).0 ≡ not (is_empty_list (find_matches r addr).1))
  find_all_matches r addr k ha vk =
      rw (find_matches-hits r addr)
        (hits-reads r addr k ha vk, hits-Descends 33 r addr (omega arith) ha, refl)

  -- For an address of 32 bits, `FindLongest` answers the first of the matches of `Find`, which is
  -- the longest, but `NewFindLongest` the last, which is the shortest.
  pub find_longest-find_matches :
      (default : V) (r : Routes V) (addr : ℕ) (match : Ipv4Prefix × V)
      → addr < 2 ^ 32
      → (find_longest r addr match ≡ first match (find_matches r addr).1)
        × (new_find_longest default r addr match ≡ last (false, match) (find_matches r addr).1)
  unfolding new_find_longest
  find_longest-find_matches default r addr match ha =
      rw (find_matches-hits r addr)
        (find_longest-hits r addr match ha, join_from-hits default 33 r addr (false, match))
