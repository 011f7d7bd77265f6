-- ===== src/Prefix/Update.antt =====
-- interface_update_prefix_assignments of interface-ip.c: the division of a prefix is in order and
-- stays within the prefix.
use mathlib.Core.Path.{subst}
use native.Mathlib.Nat.{pow-le-pow_right}
use lede_netifd.Prelude.{
  ℕ, zero, suc, ◌+◌, ◌-◌, ◌%◌, ◌^◌, ◌≤◌, ◌≡◌, ◌⊎◌, refl, sym, ◌∙◌, Option, none, some, List, [],
  ◌∷◌, ◌++◌, ltb, arith, Option-cases, Bool-cases, inl, inr, ap, All,
}
use lede_netifd.Prefix.{
  Assignment, Request, Prefix, Iface, Plan, size, entry, sentinel, reserved, request, takes_part,
  prefix_assign, first_pass, first_loop, try_lengths, or_keep, second_loop, update_assignments,
}
use lede_netifd.Prefix.Assign.{Chain, size_pos, prefix_assign-Placed}

abbrev EndsWith : Assignment → List Assignment → Type 0
EndsWith s [] = ⊥
EndsWith s (e ∷ []) = e ≡ s
EndsWith s (e ∷ f ∷ es) = EndsWith s (f ∷ es)

EndsWith-insert :
    (s x e : Assignment) (before after : List Assignment)
    → EndsWith s (before ++ e ∷ after)
    → EndsWith s (before ++ x ∷ e ∷ after)
EndsWith-insert s x e [] after h = h
EndsWith-insert s x e (b ∷ []) after h = h
EndsWith-insert s x e (b ∷ b' ∷ bs) after h = EndsWith-insert s x e (b' ∷ bs) after h

EndsWith-split :
    (s : Assignment) (es : List Assignment)
    → EndsWith s es
    → (inner : List Assignment) × (es ≡ inner ++ s ∷ [])
EndsWith-split s [] h = absurd h
EndsWith-split s (e ∷ []) h = ([], ap (λ r. r ∷ []) h)
EndsWith-split s (e ∷ f ∷ es) h =
    let (inner, q) = EndsWith-split s (f ∷ es) h in (e ∷ inner, ap (λ r. e ∷ r) q)

-- The entries are in order from 0 on, and the sentinel is the last.
record IsDivided (p : Prefix) (es : List Assignment) : Type 0 where
  ordered : Chain 0 es
  ends : EndsWith (sentinel p) es

prefix_assign-IsDivided :
    (p : Prefix) (es : List Assignment) (c : Request) {es' : List Assignment}
    → IsDivided p es
    → prefix_assign es c ≡ some es'
    → IsDivided p es'
prefix_assign-IsDivided p es c d h =
    let q = prefix_assign-Placed es c d.ordered h in
    record {
      ordered = q.ordered;
      ends = subst (EndsWith (sentinel p)) (sym q.now) (
          EndsWith-insert (sentinel p) (entry c q.place) q.next q.before q.after
            (subst (EndsWith (sentinel p)) q.was d.ends));
    }

or_keep-IsDivided :
    (p : Prefix) (es : List Assignment) (r : Option (List Assignment))
    → IsDivided p es
    → ((es' : List Assignment) → r ≡ some es' → IsDivided p es')
    → IsDivided p (or_keep es r)
or_keep-IsDivided p es none d f = d
or_keep-IsDivided p es (some es') d f = f es' refl

try_lengths-IsDivided :
    (p : Prefix) (n : ℕ) (es : List Assignment) (c : Request) {es' : List Assignment}
    → IsDivided p es
    → try_lengths n es c ≡ some es'
    → IsDivided p es'
unfolding try_lengths
try_lengths-IsDivided p zero es c d h = prefix_assign-IsDivided p es c d h
try_lengths-IsDivided p (suc n) es c d h = elim (Option-cases (prefix_assign es c)) [
  | inl e ↦
      try_lengths-IsDivided p n es (record c { length = c.length + 1 }) d (rw (e, try_lengths) at h)
  | inr (r, e) ↦ prefix_assign-IsDivided p es c d (e ∙ (rw (e, try_lengths) at h))
]

second_loop-IsDivided :
    (p : Prefix) (cs : List Request) (es : List Assignment)
    → IsDivided p es
    → IsDivided p (second_loop cs es)
unfolding second_loop
second_loop-IsDivided p [] es d = d
second_loop-IsDivided p (c ∷ cs) es d = second_loop-IsDivided p cs _ (
    or_keep-IsDivided p es (try_lengths (64 - c.length) es c) d
      (λ es' h. try_lengths-IsDivided p (64 - c.length) es c d h))

first_pass_cases :
    (s : Plan) (c : Request)
    → ((first_pass s c).assignments ≡ s.assignments)
      ⊎ (prefix_assign s.assignments c ≡ some (first_pass s c).assignments)
unfolding first_pass
first_pass_cases s c = ground arith

first_pass-IsDivided :
    (p : Prefix) (s : Plan) (c : Request)
    → IsDivided p s.assignments
    → IsDivided p (first_pass s c).assignments
first_pass-IsDivided p s c d = elim (first_pass_cases s c) [
  | inl e ↦ subst (IsDivided p) (sym e) d
  | inr e ↦ prefix_assign-IsDivided p s.assignments c d e
]

first_loop-IsDivided :
    (p : Prefix) (is : List Iface) (s : Plan)
    → IsDivided p s.assignments
    → IsDivided p (first_loop p is s).assignments
unfolding first_loop
first_loop-IsDivided p [] s d = d
first_loop-IsDivided p (i ∷ is) s d = elim (Bool-cases (takes_part p i)) [
  | inl t ↦
      rw (first_loop, t) (first_loop-IsDivided p is _ (first_pass-IsDivided p s (request i) d))
  | inr t ↦ rw (first_loop, t) (first_loop-IsDivided p is s d)
]

-- The shifts of the source are in the range of an int32_t.
abbrev pub Shiftable : ℕ → Type 0
Shiftable length = (34 ≤ length) × (length ≤ 64)

-- The excluded prefix, if there is one, is inside the prefix.
abbrev pub ExcludedInside : Prefix → Type 0
ExcludedInside p =
    (p.excl_length ≡ 0)
    ⊎ (Shiftable p.excl_length × (p.excl_word % size p.length + size p.excl_length ≤ size p.length))

reserved-IsDivided : (p : Prefix) → ExcludedInside p → IsDivided p (reserved p)
unfolding reserved
reserved-IsDivided p h = elim (Bool-cases (ltb 0 p.excl_length)) [
  | inl t ↦ rw t (record { ordered = ground arith; ends = refl })
  | inr t ↦ rw t (record { ordered = (omega arith, tt); ends = refl })
]

update_assignments-IsDivided :
    (p : Prefix) (is : List Iface) → ExcludedInside p → IsDivided p (update_assignments p is)
unfolding update_assignments
update_assignments-IsDivided p is h =
    let start : Plan = record { assignments = reserved p; later = [] } in
    second_loop-IsDivided p (first_loop p is start).later (first_loop p is start).assignments
      (first_loop-IsDivided p is start (reserved-IsDivided p h))

-- What a division of the prefix is: entries that follow one another without overlap, then the
-- sentinel, and each of those entries inside the prefix.
pub record Divides (p : Prefix) (es : List Assignment) : Type 0 where
  pub inner : List Assignment
  pub split : es ≡ inner ++ sentinel p ∷ []
  pub ordered : Chain 0 inner
  pub inside : All (λ e. e.assigned + size e.length ≤ size p.length) inner

Chain-inner :
    (current : ℕ) (xs : List Assignment) (e : Assignment)
    → Chain current (xs ++ e ∷ [])
    → Chain current xs
      × All (λ x. x.assigned + size x.length ≤ e.assigned) xs
      × (current ≤ e.assigned)
Chain-inner current [] e ch = (tt, tt, ch.0)
Chain-inner current (x ∷ xs) e ch =
    let (rest, within, last) = Chain-inner (x.assigned + size x.length) xs e ch.1 in
    ((ch.0, rest), (last, within), omega (arith, size_pos x.length))

-- Whatever the interfaces ask for, a prefix of 34 to 64 bits is divided without overlap and without a
-- place outside it, provided that its excluded part, if it has one, is such a prefix inside it; and all
-- places are at most 2 ^ 30, so that the source computes them in an int32_t.
pub update_assignments-Divides :
    (p : Prefix) (is : List Iface)
    → Shiftable p.length
    → ExcludedInside p
    → Divides p (update_assignments p is) × (size p.length ≤ 2 ^ 30)
update_assignments-Divides p is s h =
    let d = update_assignments-IsDivided p is h in
    let (inner, e) = EndsWith-split (sentinel p) (update_assignments p is) d.ends in
    let (ordered, inside, _) = Chain-inner 0 inner (sentinel p) (subst (Chain 0) e d.ordered) in
    (
      record { inner = inner; split = e; ordered = ordered; inside = inside },
      pow-le-pow_right (omega arith) {i = 64 - p.length} {j = 30} (omega arith),
    )
