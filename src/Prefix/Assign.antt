-- ===== src/Prefix/Assign.antt =====
-- interface_prefix_assign of interface-ip.c: places do not overlap, and a free place is found.
use mathlib.Core.Path.{subst}
use native.Mathlib.Nat.{div-add-mod', mod-lt, pow-le-pow_right}
use lede_netifd.Prelude.{
  ℕ, zero, suc, ◌+◌, ◌-◌, ◌*◌, ◌/◌, ◌≤◌, ◌<◌, ◌≡◌, ◌≢◌, refl, none, some, List, [], ◌∷◌, ◌++◌, ◌⊎◌,
  inl, inr, ℤ, pos, negsuc, arith, Option-cases, ap,
}
use lede_netifd.Prefix.{Assignment, Request, size, align, room, entry, assign_from, prefix_assign}

-- The entries stand in order, from `current` on, and each ends where the next begins or before.
abbrev pub Chain : ℕ → List Assignment → Type 0
Chain current [] = Unit {0}
Chain current (e ∷ es) = (current ≤ e.assigned) × Chain (e.assigned + size e.length) es

pub size_pos : (n : ℕ) → 0 < size n
size_pos n = pow-le-pow_right (omega arith) {i = 0} (omega arith)

align_ge : (current m : ℕ) → 0 < m → current ≤ align current m
unfolding align
align_ge current m h =
    omega (arith, div-add-mod' (current + (m - 1)) m, mod-lt (current + (m - 1)) h)

-- `align` is the least multiple that is not below `current`.
align_least : (current m q : ℕ) → 0 < m → current ≤ q * m → align current m ≤ q * m
unfolding align
align_least current m q h le =
    grind (arith, div-add-mod' (current + (m - 1)) m, mod-lt (current + (m - 1)) h)

room_fits :
    (wanted : ℤ) (m current limit : ℕ) {a : ℕ}
    → 0 < m
    → room wanted m current limit ≡ some a
    → (current ≤ a) × (a + m ≤ limit)
unfolding room
room_fits (pos b) m current limit h e = ground arith
room_fits (negsuc zero) m current limit h e = ground (arith, align_ge current m h)
room_fits (negsuc (suc n)) m current limit h e = cc

-- A place that is asked for is the place that is given; any other is a multiple of the size.
abbrev pub Honours : ℤ → ℕ → ℕ → Type 0
Honours (pos h) m a = a ≡ h
Honours (negsuc n) m a = (q : ℕ) × (a ≡ q * m)

room-Honours :
    (wanted : ℤ) (m current limit : ℕ) {a : ℕ}
    → room wanted m current limit ≡ some a
    → Honours wanted m a
unfolding room align
room-Honours (pos b) m current limit e = ground arith
room-Honours (negsuc zero) m current limit e = ((current + (m - 1)) / m, ground arith)
room-Honours (negsuc (suc n)) m current limit e = cc

-- One entry more, for the request, at a place that it accepts; the others stay as they are.
pub record Placed (current : ℕ) (es : List Assignment) (c : Request) (es' : List Assignment)
    : Type 0 where
  pub before : List Assignment
  pub next : Assignment
  pub after : List Assignment
  pub place : ℕ
  pub was : es ≡ before ++ next ∷ after
  pub now : es' ≡ before ++ entry c place ∷ next ∷ after
  pub ordered : Chain current es'
  pub accepted : Honours c.wanted (size c.length) place

-- The entry that the loop goes past, put back.
Placed-cons :
    (current : ℕ) (e : Assignment) (es : List Assignment) (c : Request) (es' : List Assignment)
    → current ≤ e.assigned
    → Placed (e.assigned + size e.length) es c es'
    → Placed current (e ∷ es) c (e ∷ es')
Placed-cons current e es c es' h p = record {
  before = e ∷ p.before;
  next = p.next;
  after = p.after;
  place = p.place;
  was = ap (λ r. e ∷ r) p.was;
  now = ap (λ r. e ∷ r) p.now;
  ordered = (h, p.ordered);
  accepted = p.accepted;
}

assign_from-Placed :
    (current : ℕ) (es : List Assignment) (c : Request) {es' : List Assignment}
    → Chain current es
    → assign_from current es c ≡ some es'
    → Placed current es c es'
unfolding assign_from
assign_from-Placed current [] c ch h = absurd (cc)
assign_from-Placed current (e ∷ es) c {es'} ch h =
    elim (Option-cases (room c.wanted (size c.length) current e.assigned)) [
      | inr (a, r) ↦
          let (low, high) =
            room_fits c.wanted (size c.length) current e.assigned (size_pos c.length) r in
          let same : entry c a ∷ e ∷ es ≡ es' = ground (arith, r, h) in
          subst (Placed current (e ∷ es) c) same (record {
            before = [];
            next = e;
            after = es;
            place = a;
            was = refl;
            now = refl;
            ordered = (low, (high, ch.1));
            accepted = room-Honours c.wanted (size c.length) current e.assigned r;
          })
      | inl r ↦ elim (Option-cases (assign_from (e.assigned + size e.length) es c)) [
        | inl q ↦ absurd (cc (rw (r, q, assign_from) at h))
        | inr (rest, q) ↦
            let same : e ∷ rest ≡ es' = ground (arith, q, r, h) in
            subst (Placed current (e ∷ es) c) same (
              Placed-cons current e es c rest ch.0
                (assign_from-Placed (e.assigned + size e.length) es c ch.1 q))
      ]
    ]

-- A request gets a place in order with the others, which keep theirs: no two overlap.
pub prefix_assign-Placed :
    (es : List Assignment) (c : Request) {es' : List Assignment}
    → Chain 0 es
    → prefix_assign es c ≡ some es'
    → Placed 0 es c es'
unfolding prefix_assign
prefix_assign-Placed es c ch h = assign_from-Placed 0 es c ch h

-- `m` networks from `a` on are free before some entry of the list.
abbrev pub FreeAt : ℕ → List Assignment → ℕ → ℕ → Type 0
FreeAt current [] a m = ⊥
FreeAt current (e ∷ es) a m =
    ((current ≤ a) × (a + m ≤ e.assigned)) ⊎ FreeAt (e.assigned + size e.length) es a m

-- What a request can be met with: the place that it names, or any multiple of its size.
abbrev pub Accepts : ℤ → ℕ → ℕ → Type 0
Accepts (pos h) m a = a ≡ h
Accepts (negsuc zero) m a = (q : ℕ) × (a ≡ q * m)
Accepts (negsuc (suc n)) m a = ⊥

room_found :
    (wanted : ℤ) (m current limit a : ℕ)
    → 0 < m
    → Accepts wanted m a
    → current ≤ a
    → a + m ≤ limit
    → room wanted m current limit ≢ none
unfolding room
room_found (pos h) m current limit a p acc low high = ground arith
room_found (negsuc zero) m current limit a p (q, e) low high =
    ground (arith, align_least current m q p)
room_found (negsuc (suc n)) m current limit a p acc low high = absurd acc

assign_from_found :
    (current : ℕ) (es : List Assignment) (c : Request) (a : ℕ)
    → Accepts c.wanted (size c.length) a
    → FreeAt current es a (size c.length)
    → assign_from current es c ≢ none
unfolding assign_from
assign_from_found current [] c a acc free = absurd free
assign_from_found current (e ∷ es) c a acc (inl (low, high)) = ground (
  arith,
  room_found c.wanted (size c.length) current e.assigned a (size_pos c.length) acc low high,
)
assign_from_found current (e ∷ es) c a acc (inr free) =
    ground (arith, assign_from_found (e.assigned + size e.length) es c a acc free)

-- It fails only where no place that the request accepts is free.
pub prefix_assign_found :
    (es : List Assignment) (c : Request) (a : ℕ)
    → Accepts c.wanted (size c.length) a
    → FreeAt 0 es a (size c.length)
    → (es' : List Assignment) × (prefix_assign es c ≡ some es')
unfolding prefix_assign
prefix_assign_found es c a acc free = elim (Option-cases (assign_from 0 es c)) [
  | inl e ↦ absurd (assign_from_found 0 es c a acc free e)
  | inr r ↦ r
]
