-- ===== src/Prefix.antt =====
-- interface-ip.c: how a delegated IPv6 prefix is divided among the interfaces.
-- An offset counts /64 networks inside the prefix. Every allocation is taken to succeed.
pub mod Assign
pub mod Update
mod Tests
use lede_netifd.Prelude.{
  ℕ, zero, suc, ◌+◌, ◌-◌, ◌*◌, ◌/◌, ◌%◌, ◌^◌, Bool, true, false, not, ◌&&◌, ◌||◌, Option, none,
  some, List, [], ◌∷◌, ltb, leb, ◌==◌, if◌then◌else◌, ℤ, pos, negsuc, CString, Ordering, strcmp,
  str_eq,
}

-- struct device_prefix_assignment, once it stands in the list of a prefix.
pub record Assignment : Type 0 where
  pub assigned : ℕ
  pub length : ℕ
  pub name : CString

-- The same before it has a place: `assigned` is -1 where no place is asked for.
pub record Request : Type 0 where
  pub wanted : ℤ
  pub length : ℕ
  pub weight : ℕ
  pub name : CString

-- 1 << (64 - length), which is in the range of its type for lengths from 34 to 64.
abbrev pub size : ℕ → ℕ
size length = 2 ^ (64 - length)

-- (current + asize) & ~asize, where asize is size - 1.
pub align : ℕ → ℕ → ℕ
align current m = (current + (m - 1)) / m * m

-- The body of the loop of `interface_prefix_assign`: the place before an entry that begins at
-- `limit`, if there is room for it from `current` on.
pub room : ℤ → ℕ → ℕ → ℕ → Option ℕ
unfolding align
room (pos a) m current limit = if leb current a && ltb (a + (m - 1)) limit then some a else none
room (negsuc zero) m current limit =
    if ltb (align current m + (m - 1)) limit then some (align current m) else none
room (negsuc (suc n)) m current limit = none

abbrev pub entry : Request → ℕ → Assignment
entry c a = record { assigned = a; length = c.length; name = c.name }

abbrev pub cons_option : Assignment → Option (List Assignment) → Option (List Assignment)
cons_option e none = none
cons_option e (some es) = some (e ∷ es)

-- The loop of `interface_prefix_assign`; `none` where it returns false.
pub assign_from : ℕ → List Assignment → Request → Option (List Assignment)
unfolding room
assign_from current [] c = none
assign_from current (e ∷ es) c = elim (room c.wanted (size c.length) current e.assigned) [
  | some a ↦ some (entry c a ∷ e ∷ es)
  | none ↦ cons_option e (assign_from (e.assigned + size e.length) es c)
]

unfoldable pub prefix_assign : List Assignment → Request → Option (List Assignment)
unfolding assign_from
prefix_assign es c = assign_from 0 es c

-- prefix_assignment_cmp
pub prefix_assignment_cmp : Request → Request → Ordering
unfolding strcmp
prefix_assignment_cmp a b =
    if not (a.length == b.length)
    then (if ltb a.length b.length then Ordering.lt else Ordering.gt)
    else if not (a.weight == b.weight)
    then (if ltb b.weight a.weight then Ordering.lt else Ordering.gt)
    else strcmp a.name b.name

-- avl_insert into `assign_later`, a tree without duplicates, read in order.
pub insert_later : Request → List Request → List Request
unfolding prefix_assignment_cmp
insert_later c [] = c ∷ []
insert_later c (d ∷ ds) = elim (prefix_assignment_cmp c d) [
  | Ordering.lt ↦ c ∷ d ∷ ds
  | Ordering.eq ↦ d ∷ ds
  | Ordering.gt ↦ d ∷ insert_later c ds
]

-- What the assignment reads of a `struct device_prefix`; `excl_word` is the host order of the
-- second word of `excl_addr`.
pub record Prefix : Type 0 where
  pub length : ℕ
  pub excl_length : ℕ
  pub excl_word : ℕ
  pub pclass : CString

-- What it reads of a `struct interface`.
pub record Iface : Type 0 where
  pub name : CString
  pub assignment_length : ℕ
  pub assignment_hint : ℤ
  pub assignment_weight : ℕ
  pub assignment_classes : List CString

abbrev pub sentinel : Prefix → Assignment
sentinel p = record { assigned = size p.length; length = 64; name = [] }

-- "!excluded"
abbrev pub excluded_name : CString
excluded_name = b'!' ∷ b'e' ∷ b'x' ∷ b'c' ∷ b'l' ∷ b'u' ∷ b'd' ∷ b'e' ∷ b'd' ∷ []

abbrev pub excluded : Prefix → Assignment
excluded p = record {
  assigned = p.excl_word % size p.length;
  length = p.excl_length;
  name = excluded_name;
}

pub reserved : Prefix → List Assignment
reserved p = if ltb 0 p.excl_length then excluded p ∷ sentinel p ∷ [] else sentinel p ∷ []

pub has_class : CString → List CString → Bool
unfolding str_eq
has_class k [] = false
has_class k (c ∷ cs) = str_eq c k || has_class k cs

abbrev is_nil : List CString → Bool
is_nil [] = true
is_nil (c ∷ cs) = false

-- The tests at the head of the loop over the interfaces.
pub takes_part : Prefix → Iface → Bool
unfolding has_class
takes_part p i =
    leb 48 i.assignment_length
    && leb i.assignment_length 64
    && (is_nil i.assignment_classes || has_class p.pclass i.assignment_classes)

abbrev pub request : Iface → Request
request i = record {
  wanted = i.assignment_hint;
  length = i.assignment_length;
  weight = i.assignment_weight;
  name = i.name;
}

-- The list of the prefix, and the tree of those to be assigned later.
pub record Plan : Type 0 where
  pub assignments : List Assignment
  pub later : List Request

abbrev pub postpone : Plan → Request → Plan
unfolding insert_later
postpone s c = record s { later = insert_later (record c { wanted = negsuc 0 }) s.later }

-- One interface of the first loop: a place that is asked for is given if it is free.
pub first_pass : Plan → Request → Plan
unfolding postpone prefix_assign
first_pass s c = elim c.wanted [
  | negsuc zero ↦ postpone s c
  | _ ↦ elim (prefix_assign s.assignments c) [
    | some es ↦ record s { assignments = es }
    | none ↦ postpone s c
  ]
]

pub first_loop : Prefix → List Iface → Plan → Plan
unfolding takes_part first_pass
first_loop p [] s = s
first_loop p (i ∷ is) s = first_loop p is (if takes_part p i then first_pass s (request i) else s)

-- `do … while (!assigned && ++c->length <= 64)`, where `n` longer prefixes are left to try.
pub try_lengths : ℕ → List Assignment → Request → Option (List Assignment)
unfolding prefix_assign
try_lengths zero es c = prefix_assign es c
try_lengths (suc n) es c = elim (prefix_assign es c) [
  | some r ↦ some r
  | none ↦ try_lengths n es (record c { length = c.length + 1 })
]

abbrev pub or_keep : List Assignment → Option (List Assignment) → List Assignment
or_keep es none = es
or_keep es (some r) = r

-- The second loop: an interface with no place left gets none.
pub second_loop : List Request → List Assignment → List Assignment
unfolding try_lengths
second_loop [] es = es
second_loop (c ∷ cs) es = second_loop cs (or_keep es (try_lengths (64 - c.length) es c))

-- `interface_update_prefix_assignments` with `setup`: the assignments that it makes.
unfoldable pub update_assignments : Prefix → List Iface → List Assignment
unfolding reserved first_loop second_loop
update_assignments p is =
    let s = first_loop p is (record { assignments = reserved p; later = [] }) in
    second_loop s.later s.assignments
