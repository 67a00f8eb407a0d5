-- ===== src/Patricia/Stored/RoundTrip.antt =====
-- A map that is written to a stream and read back holds the same.
use mathlib.Core.List.{append_assoc, head-eq_of_cons-eq, tail-eq_of_cons-eq}
use native.Mathlib.Nat.{mod-eq_of_lt}
use lib_dwm.Base.{
  ℕ, zero, suc, ◌^◌, ◌<◌, ◌≡◌, refl, sym, ap, ◌∙◌, Bool, true, Option, none, some, List, [], ◌∷◌,
  ◌++◌, ◌==◌, if◌then◌else◌, Bool-cases, ==_iff, inl, inr, All, is_some, or_else, length, arith,
}
use lib_dwm.Wire.Bytes.{Endian}
use lib_dwm.Wire.Stream.{OutStream}
use lib_dwm.Wire.Encoded.{make_native_endian_write_vector}
use lib_dwm.Wire.Encoded.RoundTrip.{read_stream-written}
use lib_dwm.Wire.Containers.{Writer, write_pair, write_items}
use lib_dwm.Wire.Containers.Codec.{Codec, input, output, write_stream-output}
use lib_dwm.Wire.Containers.Items.{wires, write_items-output}
use lib_dwm.Wire.Containers.RoundTrip.{pair_codec, read_pair-input}
use lib_dwm.Patricia.Key.{PrefixKey}
use lib_dwm.Patricia.Search.Chain.{lookup}
use lib_dwm.Patricia.Map.{PrefixMap, IsSound, insert, clear, find}
use lib_dwm.Patricia.Map.Laws.{insert-IsSound, find-insert, clear_lem}
use lib_dwm.Patricia.Iterator.{begin, increment, visited, deref}
use lib_dwm.Patricia.Iterator.Walk.{visited-keys, length-keys}
use lib_dwm.Patricia.Stored.{value_of, write_from, write_map, read_entries, read_map}
use lib_dwm.Patricia.Stored.Pairs.{
  pairs, prefixes, prefixes-pairs, HasValue, pairs-HasValue, pairs-IsValid, lookup-pairs,
}

kept :
    {V : Type 0} (s : Bool) (after before_q before : Option V) (w : V) (others : Option V)
    → after ≡ (if s then some (or_else before_q w) else before)
    → (s ≡ true → before_q ≡ before)
    → (if is_some after then after else others)
      ≡ (if is_some before then before else if s then some w else others)
kept s after before_q before w others e here = ground arith

module _ (K : PrefixKey) {V : Type 0} where
  open K use {Prefix, same, IsValid}

  write_from-step :
      (wp : Writer Prefix) (wv : Writer V) (n : ℕ) (m : PrefixMap Prefix V) (a : Prefix) (w : V)
      (os : OutStream)
      → value_of (deref K a m.root) ≡ some w
      → write_from K wp wv (suc n) m (some a) os ≡ (
          if (write_pair wp wv (a, w) os).good
          then write_from K wp wv n m (increment K m (some a)) (write_pair wp wv (a, w) os)
          else write_pair wp wv (a, w) os)
  unfolding write_from
  write_from-step wp wv n m a w os e = rw (write_from, e) refl

  write_from-nothing :
      (wp : Writer Prefix) (wv : Writer V) (m : PrefixMap Prefix V) (it : Option Prefix)
      (os : OutStream)
      → write_from K wp wv 0 m it os ≡ os
  unfolding write_from
  write_from-nothing wp wv m none os = refl
  write_from-nothing wp wv m (some a) os = refl

  write_from-items :
      (wp : Writer Prefix) (wv : Writer V) (rounds : ℕ) (m : PrefixMap Prefix V)
      (it : Option Prefix) (es : List (Prefix × V)) (os : OutStream)
      → visited K rounds m it ≡ prefixes es
      → All (HasValue K m.root) es
      → write_from K wp wv rounds m it os ≡ write_items (write_pair wp wv) es os
  unfolding write_from visited write_items
  write_from-items wp wv rounds m none [] os e h = refl
  write_from-items wp wv rounds m none ((q, w) ∷ es) os e h = cc
  write_from-items wp wv zero m (some a) [] os e h = refl
  write_from-items wp wv zero m (some a) ((q, w) ∷ es) os e h = cc
  write_from-items wp wv (suc n) m (some a) [] os e h = cc
  write_from-items wp wv (suc n) m (some a) ((q, w) ∷ es) os e (v, h) =
      let at : a ≡ q = head-eq_of_cons-eq e in
      let behind = tail-eq_of_cons-eq e in
      write_from-step wp wv n m a w os (ap (λ x. value_of (deref K x m.root)) at ∙ v)
      ∙ rw
          (
            write_from-items wp wv n m (increment K m (some a)) es (write_pair wp wv (a, w) os)
                behind h,
            at,
          )
          refl

  lookup-find :
      (m : PrefixMap Prefix V) (k : Prefix)
      → IsValid k
      → IsSound K m
      → lookup K k (pairs m.root) ≡ find K m k
  unfolding find
  lookup-find m k vk s = lookup-pairs K k m.root vk s.shape

  module _ (C : Codec Prefix) (D : Codec V) (writer reader : Endian) where
    abbrev entry : Codec (Prefix × V)
    entry = pair_codec C D

    write_map-output :
        (m : PrefixMap Prefix V) (sofar : List ℕ)
        → IsSound K m
        → m.size < 2 ^ 64
        → All entry.Fits (pairs m.root)
        → write_map K writer C.write D.write m (output sofar)
          ≡ output (
              (sofar ++ make_native_endian_write_vector writer 8 m.size)
              ++ wires entry (pairs m.root))
    unfolding write_map
    write_map-output m sofar s small fits =
        let loop =
          write_from-items C.write D.write m.size m (begin K m) (pairs m.root)
            (output (sofar ++ make_native_endian_write_vector writer 8 m.size))
            ((visited-keys K m s).0 ∙ sym (prefixes-pairs m.root))
            (pairs-HasValue K [] m.root s.shape)
          ∙ write_items-output entry (pairs m.root) _ fits in
        rw (mod-eq_of_lt small, write_stream-output writer m.size sofar)
          (elim (Bool-cases (m.size == 0)) [
            | inl e ↦
                let no_round : m.size ≡ 0 = (==_iff m.size 0).0 e in
                rw e (
                  sym (write_from-nothing C.write D.write m (begin K m) _)
                  ∙ ap
                      (λ (n : ℕ).
                        write_from K C.write D.write n m (begin K m)
                          (output (sofar ++ make_native_endian_write_vector writer 8 m.size)))
                      (sym no_round)
                  ∙ loop)
            | inr e ↦ rw e loop
          ])

    -- The map after some insertions.
    abbrev insert_all : V → PrefixMap Prefix V → List (Prefix × V) → PrefixMap Prefix V
    insert_all default m [] = m
    insert_all default m ((q, w) ∷ es) = insert_all default (insert K default m q w).0 es

    read_entries-input :
        (default : V) (es : List (Prefix × V)) (old : Prefix × V) (m : PrefixMap Prefix V)
        (rest : List ℕ)
        → All entry.Fits es
        → read_entries K C.read D.read default (length es) old m (input (wires entry es ++ rest))
          ≡ (insert_all default m es, input rest)
    unfolding read_entries
    read_entries-input default [] old m rest h = refl
    read_entries-input default ((q, w) ∷ es) old m rest (fits, h) =
        rw
          (
            append_assoc (entry.wire (q, w)) (wires entry es) rest,
            read_pair-input C D (q, w) old (wires entry es ++ rest) fits,
          )
          (read_entries-input default es (q, w) (insert K default m q w).0 rest h)

    find-insert_all :
        (default : V) (es : List (Prefix × V)) (m : PrefixMap Prefix V) (k : Prefix)
        → All (λ (e : Prefix × V). IsValid e.0) es
        → IsValid k
        → IsSound K m
        → (find K (insert_all default m es) k
            ≡ (if is_some (find K m k) then find K m k else lookup K k es))
          × IsSound K (insert_all default m es)
    find-insert_all default [] m k v vk s = (ground arith, s)
    find-insert_all default ((q, w) ∷ es) m k (vq, v) vk s =
        let m' : PrefixMap Prefix V = (insert K default m q w).0 in
        let (found, sound) =
          find-insert_all default es m' k v vk (insert-IsSound K default m q w vq s) in
        let now = (find-insert K default m q k w vq vk s).0 in
        let here : same q k ≡ true → find K m q ≡ find K m k =
          λ e. ap (find K m) (K.eq_of_same q k vq vk e) in
        (found ∙ kept (same q k) _ (find K m q) (find K m k) w (lookup K k es) now here, sound)

    read_entries-count :
        (default : V) (n : ℕ) (es : List (Prefix × V)) (old : Prefix × V) (m : PrefixMap Prefix V)
        (rest : List ℕ)
        → n ≡ length es
        → All entry.Fits es
        → read_entries K C.read D.read default n old m (input (wires entry es ++ rest))
          ≡ (insert_all default m es, input rest)
    read_entries-count default n es old m rest e fits =
        rw e (read_entries-input default es old m rest fits)

    length-prefixes : (es : List (Prefix × V)) → length (prefixes es) ≡ length es
    length-prefixes [] = refl
    length-prefixes ((q, w) ∷ es) = omega (arith, length-prefixes es)

    length-pairs : (m : PrefixMap Prefix V) → IsSound K m → m.size ≡ length (pairs m.root)
    length-pairs m s =
        s.counted
        ∙ sym (length-keys K m.root)
        ∙ ap length (sym (prefixes-pairs m.root))
        ∙ length-prefixes (pairs m.root)

    read_map-input :
        (default : V) (blank : Prefix × V) (m old : PrefixMap Prefix V) (rest : List ℕ)
        → IsSound K m
        → m.size < 2 ^ 64
        → All entry.Fits (pairs m.root)
        → read_map K reader C.read D.read default blank old (
            input (
              make_native_endian_write_vector writer 8 m.size
              ++ (wires entry (pairs m.root) ++ rest)))
          ≡ (insert_all default (clear K old) (pairs m.root), input rest)
    unfolding read_map
    read_map-input default blank m old rest s small fits =
        rw
          (read_stream-written writer reader 8 m.size (wires entry (pairs m.root) ++ rest)
            (inr (inr refl)) small)
          (read_entries-count default m.size (pairs m.root) blank (clear K old) rest
            (length-pairs m s) fits)

    entries_fit :
        ((k : Prefix) → IsValid k → C.Fits k)
        → (es : List (Prefix × V)) → All (λ (e : Prefix × V). IsValid e.0) es
        → All (λ (e : Prefix × V). D.Fits e.1) es
        → All entry.Fits es
    entries_fit valid [] h k = tt
    entries_fit valid ((q, w) ∷ es) (v, h) (f, k) = ((valid q v, f), entries_fit valid es h k)

    -- If prefixes and values are read back as they are written: a sound map of fewer than 2^64
    -- entries that a host of either byte order writes to an unused ostream, a host of either byte
    -- order reads from an istream into any sound map, which then is sound and holds at every valid
    -- prefix what the first map holds; the characters that follow remain.
    pub find-read_map :
        (default : V) (blank : Prefix × V) (m old : PrefixMap Prefix V) (rest : List ℕ) (k : Prefix)
        → ((p : Prefix) → IsValid p → C.Fits p)
        → All (λ (e : Prefix × V). D.Fits e.1) (pairs m.root)
        → IsSound K m
        → IsSound K old
        → m.size < 2 ^ 64
        → IsValid k
        → let back =
            read_map K reader C.read D.read default blank old
              (input ((write_map K writer C.write D.write m (output [])).written ++ rest)) in
          (find K back.0 k ≡ find K m k) × IsSound K back.0 × (back.1 ≡ input rest)
    find-read_map default blank m old rest k valid values s so small vk =
        let es : List (Prefix × V) = pairs m.root in
        let fits = entries_fit valid es (pairs-IsValid K m.root s.shape) values in
        let (cleared, _, nothing) = clear_lem K old k so in
        let (found, sound) =
          find-insert_all default es (clear K old) k (pairs-IsValid K m.root s.shape) vk cleared in
        let same_map : lookup K k es ≡ find K m k = lookup-find m k vk s in
        rw
          (
            write_map-output m [] s small fits,
            append_assoc (make_native_endian_write_vector writer 8 m.size) (wires entry es) rest,
            read_map-input default blank m old rest s small fits,
          )
          (found ∙ rw nothing same_map, sound, refl)
