-- ===== src/Prefix/Tests.antt =====
-- Divisions of a prefix by interface-ip.c, followed by evaluation.
use lede_netifd.Prelude.{
  ℕ, ◌≡◌, ◌≤◌, ◌^◌, refl, some, inl, inr, List, [], ◌∷◌, pos, negsuc, CString, map, arith,
}
use lede_netifd.Prefix.{size, Assignment, Request, Prefix, Iface, prefix_assign, update_assignments}
use lede_netifd.Prefix.Assign.{Placed, prefix_assign-Placed, prefix_assign_found}
use lede_netifd.Prefix.Update.{Divides, update_assignments-Divides}

-- A /60 with its first /62 excluded.
abbrev uplink : Prefix
uplink = record { length = 60; excl_length = 62; excl_word = 0; pclass = b'w' ∷ [] }

abbrev lan : Iface
lan = record {
  name = b'l' ∷ [];
  assignment_length = 62;
  assignment_hint = negsuc 0;
  assignment_weight = 0;
  assignment_classes = [];
}

-- Asks for a place that the excluded part takes.
abbrev guest : Iface
guest = record {
  name = b'g' ∷ [];
  assignment_length = 64;
  assignment_hint = pos 3;
  assignment_weight = 0;
  assignment_classes = (b'w' ∷ []) ∷ [];
}

abbrev name_and_place : Assignment → CString × ℕ
name_and_place e = (e.name, e.assigned)

-- The smaller request comes last, and goes behind the larger one.
divided :
    map name_and_place (update_assignments uplink (guest ∷ lan ∷ []))
    ≡ (b'!' ∷ b'e' ∷ b'x' ∷ b'c' ∷ b'l' ∷ b'u' ∷ b'd' ∷ b'e' ∷ b'd' ∷ [], 0)
      ∷ (b'l' ∷ [], 4)
      ∷ (b'g' ∷ [], 8)
      ∷ ([], 16)
      ∷ []
unfolding update_assignments
divided = refl

update_assignments-Divides_example :
    Divides uplink (update_assignments uplink (guest ∷ lan ∷ [])) × (size uplink.length ≤ 2 ^ 30)
update_assignments-Divides_example =
    update_assignments-Divides uplink (guest ∷ lan ∷ []) (omega arith, omega arith)
      (inr ((omega arith, omega arith), omega arith))

abbrev asked : Request
asked = record { wanted = negsuc 0; length = 62; weight = 0; name = b'l' ∷ [] }

abbrev taken : List Assignment
taken =
    record { assigned = 0; length = 62; name = b'x' ∷ [] }
    ∷ record { assigned = 16; length = 64; name = [] }
    ∷ []

abbrev placed : List Assignment
placed =
    record { assigned = 0; length = 62; name = b'x' ∷ [] }
    ∷ record { assigned = 4; length = 62; name = b'l' ∷ [] }
    ∷ record { assigned = 16; length = 64; name = [] }
    ∷ []

prefix_assign-Placed_example : Placed 0 taken asked placed
unfolding prefix_assign
prefix_assign-Placed_example = prefix_assign-Placed taken asked (omega arith) refl

prefix_assign_found_example : (es' : List Assignment) × (prefix_assign taken asked ≡ some es')
prefix_assign_found_example = prefix_assign_found taken asked 8 (2, refl) (inr (inl (omega arith)))
