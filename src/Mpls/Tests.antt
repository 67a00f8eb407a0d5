-- ===== src/Mpls/Tests.antt =====
-- The theorems on label stacks at a concrete stack.
use lib_dwm.Base.{ℕ, ◌≡◌, refl, true, List, [], ◌∷◌, is_some}
use lib_dwm.Wire.Bytes.{big}
use lib_dwm.Mpls.Label.{s_bit, label, exp, ttl}
use lib_dwm.Mpls.Stack.{read_stack}
use lib_dwm.Mpls.Stack.Laws.{read_stack-ends}

-- Label 100, Exp 0, TTL 64, and label 200, Exp 3, bottom of the stack, TTL 255.
abbrev two_labels : List ℕ
two_labels = 0x00064040 ∷ 0x000c87ff ∷ []

fields :
    (label 0x000c87ff ≡ 200)
    × (exp 0x000c87ff ≡ 3)
    × (s_bit 0x000c87ff ≡ true)
    × (ttl 0x000c87ff ≡ 255)
unfolding label exp s_bit ttl
fields = (refl, refl, refl, refl)

-- A stream that ends within a label.
read_stack-ends_example :
    is_some (read_stack big (record { rest = 0 ∷ 6 ∷ 64 ∷ []; good = true })) ≡ true
read_stack-ends_example = read_stack-ends big (record { rest = 0 ∷ 6 ∷ 64 ∷ []; good = true })
