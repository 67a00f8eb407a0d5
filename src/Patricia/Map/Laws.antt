-- ===== src/Patricia/Map/Laws.antt =====
-- Insertion, removal and clearing keep the map sound, and change just the entry that they name.
use lib_dwm.Base.{
  ℕ, ◌+◌, ◌-◌, ◌≡◌, refl, ap, ◌∙◌, Bool, true, false, not, Option, none, some, arith, if◌then◌else◌,
  is_some, or_else,
}
use lib_dwm.Patricia.Key.{PrefixKey}
use lib_dwm.Patricia.Trie.{Trie, null, node, add_node, remove_node, set_parent, clear_node}
use lib_dwm.Patricia.Trie
use lib_dwm.Patricia.Shape.{count}
use lib_dwm.Patricia.Insert.Nodes.{find-set_parent, merged}
use lib_dwm.Patricia.Insert.Lookup.{find-add_node, add_node-inserted}
use lib_dwm.Patricia.Insert.Shape.{add_node-IsWellFormed, add_node-HasParents, add_node-count}
use lib_dwm.Patricia.Remove.Compact.{count-set_parent}
use lib_dwm.Patricia.Remove.Shape.{
  remove_node-Keeps, remove_node-HasParents, remove_node-Counts, set_parent-IsWellFormed,
}
use lib_dwm.Patricia.Remove.Lookup.{remove_node-Forgets}
use lib_dwm.Patricia.Map.{PrefixMap, IsSound, insert, clear, remove, find, empty}

if_not : (b : Bool) (x y : ℕ) → (if not b then x else y) ≡ (if b then y else x)
if_not true x y = refl
if_not false x y = refl

module _ (K : PrefixKey) {V : Type 0} where
  open K use {Prefix, same, IsValid}

  -- Inserting a valid prefix into a sound map keeps the trie well formed and path-compressed, its
  -- parent pointers right and its counter equal to the number of entries.
  pub insert-IsSound :
      (default : V) (m : PrefixMap Prefix V) (p : Prefix) (v : V)
      → IsValid p
      → IsSound K m
      → IsSound K (insert K default m p v).0
  unfolding insert
  insert-IsSound default m p v vp s = record {
    shape = add_node-IsWellFormed K default p v false m.size m.root none vp s.shape;
    parents = add_node-HasParents K default p v false m.size m.root none vp s.shape s.parents;
    counted =
        omega
          (arith, s.counted, (add_node-count K default p v false m.size m.root none vp s.shape).1);
  }

  merged_kept : (o : Option V) (v : V) → merged K false o v ≡ some (or_else o v)
  merged_kept none v = refl
  merged_kept (some w) v = refl

  -- On a sound map and valid prefixes: after an insertion a lookup finds the entry already there or else the new one at the inserted
  -- prefix, and at every other prefix what it found before. The answer says whether the prefix was
  -- absent, and the size grows by one just then.
  pub find-insert :
      (default : V) (m : PrefixMap Prefix V) (p key : Prefix) (v : V)
      → IsValid p
      → IsValid key
      → IsSound K m
      → (find K (insert K default m p v).0 key
          ≡ (if same p key then some (or_else (find K m p) v) else find K m key))
        × ((insert K default m p v).1 ≡ not (is_some (find K m p)))
        × ((insert K default m p v).0.size ≡ (if is_some (find K m p) then m.size else m.size + 1))
  unfolding insert find
  find-insert default m p key v vp vk s =
      let c = (add_node-count K default p v false m.size m.root none vp s.shape).0 in
      let i = add_node-inserted K default p v false m.size m.root none vp s.shape in
      (
        find-add_node K default p v false m.size m.root none key vp vk s.shape
            ∙ ap (λ (o : Option V). if same p key then o else Trie.find K key m.root)
                (merged_kept (Trie.find K p m.root) v),
        i,
        c
            ∙ ap (λ (b : Bool). if b then m.size + 1 else m.size) i
            ∙ if_not (is_some (Trie.find K p m.root)) _ _,
      )

  -- Removing a prefix from a sound map keeps it sound in the same sense.
  pub remove-IsSound :
      (m : PrefixMap Prefix V) (p : Prefix) → IsSound K m → IsSound K (remove K m p).0
  unfolding remove
  remove-IsSound m p s =
      let (size, n) = remove_node-Counts K p m.size m.root in
      record {
        shape = set_parent-IsWellFormed K none _ (remove_node-Keeps K p m.size m.root s.shape).0;
        parents = remove_node-HasParents K p m.size m.root none none s.parents;
        counted =
            rw (count-set_parent none (remove_node K p m.size m.root).root)
              (ground (arith, size, n, s.counted));
      }

  -- On a sound map and valid prefixes: after a removal a lookup finds nothing at the removed prefix, and elsewhere what it found
  -- before. The answer says whether the prefix was there, and the size falls by one just then.
  pub find-remove :
      (m : PrefixMap Prefix V) (p key : Prefix)
      → IsValid p
      → IsValid key
      → IsSound K m
      → (find K (remove K m p).0 key ≡ (if same p key then none else find K m key))
        × ((remove K m p).1 ≡ is_some (find K m p))
        × ((remove K m p).0.size ≡ (if is_some (find K m p) then m.size - 1 else m.size))
  unfolding remove find
  find-remove m p key vp vk s =
      let (f, e) = remove_node-Forgets K p key vp vk m.size m.root s.shape in
      let (size, _) = remove_node-Counts K p m.size m.root in
      (
        find-set_parent K key none (remove_node K p m.size m.root).root ∙ f,
        e,
        size ∙ ap (λ (b : Bool). if b then m.size - 1 else m.size) e,
      )

  pub clear_node-count : (n : ℕ) (t : Trie Prefix V) → clear_node n t ≡ n - count t
  unfolding clear_node
  clear_node-count n null = omega arith
  clear_node-count n (node q w h l r up) =
      ground (arith, clear_node-count n l, clear_node-count (clear_node n l) r)

  -- Clearing a sound map leaves it sound and empty, and nothing is found any more.
  pub clear_lem :
      (m : PrefixMap Prefix V) (key : Prefix)
      → IsSound K m
      → IsSound K (clear K m) × (empty K (clear K m) ≡ true) × (find K (clear K m) key ≡ none)
  unfolding clear empty find Trie.find
  clear_lem m key s =
      let z : clear_node m.size m.root ≡ 0 =
        omega (arith, clear_node-count m.size m.root, s.counted) in
      (record { shape = tt; parents = tt; counted = z }, rw z, refl)
