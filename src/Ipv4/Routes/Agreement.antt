-- ===== src/Ipv4/Routes/Agreement.antt =====
-- The routes and the trie of IPv4 prefixes, two containers for the same entries.
use lib_dwm.Base.{ℕ, ◌^◌, ◌<◌, ◌≡◌, sym, ◌∙◌}
use lib_dwm.Ipv4.Prefix.{Ipv4Prefix, IsValid, of_address}
use lib_dwm.Ipv4.Prefix.Laws.{ipv4_key}
use lib_dwm.Ipv4.Routes.{Routes, add, delete}
use lib_dwm.Ipv4.Routes.Search.{find_longest}
use lib_dwm.Ipv4.Routes.Laws.{view, view-add, view-delete}
use lib_dwm.Ipv4.Routes.Shorten.{of_address-IsValid}
use lib_dwm.Ipv4.Routes.Longest.{found, find_longest_refines}
use lib_dwm.Patricia.Map.{PrefixMap, IsSound, insert, remove}
use lib_dwm.Patricia.Map
use lib_dwm.Patricia.Map.Laws.{find-insert, find-remove}
use lib_dwm.Patricia.Contract.{IsLongest-unique, find_longest-IsLongest}

module _ {V : Type 0} where
  -- The two hold the same under every valid prefix.
  abbrev pub IsSame : Routes V → PrefixMap Ipv4Prefix V → Type 0
  IsSame r m = (k : Ipv4Prefix) → IsValid k → view r k ≡ Map.find ipv4_key m k

  module _ (r : Routes V) (m : PrefixMap Ipv4Prefix V) (both : IsSame r m)
      (s : IsSound ipv4_key m) where
    -- If routes and a sound trie hold the same under every valid prefix, and a route is added to
    -- both or deleted from both under a valid prefix, they answer alike and again hold the same.
    pub add-insert :
        (default v : V) (p : Ipv4Prefix)
        → IsValid p
        → IsSame (add r p v).0 (insert ipv4_key default m p v).0
          × ((add r p v).1 ≡ (insert ipv4_key default m p v).1)
          × IsSame (delete r p).0 (remove ipv4_key m p).0
          × ((delete r p).1 ≡ (remove ipv4_key m p).1)
    add-insert default v p vp =
        let answer = (view-add r p p v).1 in
        let was_there = (view-delete r p p).1 in
        let (_, inserted, _) = find-insert ipv4_key default m p p v vp vp s in
        let (_, removed, _) = find-remove ipv4_key m p p vp vp s in
        (
          λ k vk.
              (view-add r p k v).0
              ∙ rw (both p vp, both k vk) (sym (find-insert ipv4_key default m p k v vp vk s).0),
          answer ∙ rw (both p vp) (sym inserted),
          λ k vk.
              (view-delete r p k).0 ∙ rw (both k vk) (sym (find-remove ipv4_key m p k vp vk s).0),
          was_there ∙ rw (both p vp) (sym removed),
        )

    -- If routes and a sound trie hold the same under every valid prefix, the longest match of an
    -- address of 32 bits is the same in both.
    pub find_longest-trie :
        (addr : ℕ) (match : Ipv4Prefix × V)
        → addr < 2 ^ 32
        → found (find_longest r addr match) ≡ Map.find_longest ipv4_key m (of_address addr)
    find_longest-trie addr match ha =
        IsLongest-unique ipv4_key (view r) (Map.find ipv4_key m) (of_address addr) _ _
          (of_address-IsValid addr ha) both (find_longest_refines r addr match ha).0
          (find_longest-IsLongest ipv4_key m (of_address addr) (of_address-IsValid addr ha) s)
