-- ===== src/Interface/Classes.antt =====
-- interface.c: the parameters by which an interface takes part in the division of prefixes.
use lede_netifd.Prelude.{
  ℕ, ◌≡◌, refl, arith, Bool, true, false, not, ◌||◌, ◌&&◌, List, [], ◌∷◌, ◌++◌, String, Bool-cases,
  inl, inr, ◌==◌, if◌then◌else◌, ℤ, pos, negsuc,
}
use mathlib.Core.List.{append-nil}
use text.Mathlib.Text.{◌==◌ as text_eq}

-- enum interface_id_selection_type
pub data Selection : Type 0 where
  fixed random eui64 : Selection

-- The IPv6 assignment parameters of struct interface; `fixed_id` is an address as its bytes.
pub record Params : Type 0 where
  pub hint : ℤ
  pub length : ℕ
  pub selection : Selection
  pub fixed_id : List ℕ
  pub weight : ℕ
  pub classes : List String

abbrev same_selection : Selection → Selection → Bool
same_selection fixed fixed = true
same_selection random random = true
same_selection eui64 eui64 = true
same_selection _ _ = false

abbrev is_fixed : Selection → Bool
is_fixed fixed = true
is_fixed _ = false

abbrev same_hint : ℤ → ℤ → Bool
same_hint (pos a) (pos b) = a == b
same_hint (negsuc a) (negsuc b) = a == b
same_hint _ _ = false

-- memcmp
abbrev same_bytes : List ℕ → List ℕ → Bool
same_bytes [] [] = true
same_bytes (a ∷ as') (b ∷ bs) = (a == b) && same_bytes as' bs
same_bytes _ _ = false

abbrev no_classes : List String → Bool
no_classes [] = true
no_classes (c ∷ cs) = false

abbrev differ : Bool → Bool → Bool
differ true b = not b
differ false b = b

-- The first value of `changed`.
unfoldable pub params_changed : Params → Params → Bool
params_changed old new =
    not (same_hint old.hint new.hint)
    || (not (old.length == new.length)
        || (not (same_selection old.selection new.selection)
            || (not (old.weight == new.weight)
                || ((is_fixed old.selection && not (same_bytes old.fixed_id new.fixed_id))
                    || differ (no_classes old.classes) (no_classes new.classes)))))

-- The loop over the new classes, with what is left of the old ones.
unfoldable pub compare_classes : Bool → List String → List String → Bool × List String
compare_classes changed old [] = (changed, old)
compare_classes changed [] (c ∷ cs) = (true, [])
compare_classes changed (o ∷ os) (c ∷ cs) =
    let rest = compare_classes changed os cs in
    if changed then (true, o ∷ os) else if text_eq o c then rest else (changed, o ∷ os)

-- From the loop on: whether there was a change, and the parameters of `old` in the end.
unfoldable pub finish_merge : Bool × List String → Params → Params → Bool × Params
finish_merge (changed, left) old new =
    let any = changed || not (no_classes left) in
    let kept : List String = if no_classes left then left else [] in
    let all = new.classes ++ kept in
    (any, if any then record new { classes = all } else record old { classes = all })

-- interface_merge_assignment_data, which refreshes the assignments if there was a change.
unfoldable pub merge_assignment_data : Params → Params → Bool × Params
merge_assignment_data old new =
    finish_merge (compare_classes (params_changed old new) old.classes new.classes) old new

abbrev found : Bool × List String → Bool
found (changed, left) = changed || not (no_classes left)

compare_changed : (old new : List String) → found (compare_classes true old new) ≡ true
unfolding compare_classes
compare_changed old [] = refl
compare_changed [] (c ∷ cs) = refl
compare_changed (o ∷ os) (c ∷ cs) = refl

-- What the division of prefixes sees of the parameters.
pub record InUse (p q : Params) : Type 0 where
  pub hint : p.hint ≡ q.hint
  pub length : p.length ≡ q.length
  pub selection : p.selection ≡ q.selection
  pub fixed_id : is_fixed p.selection ≡ true → p.fixed_id ≡ q.fixed_id
  pub weight : p.weight ≡ q.weight
  pub classes : p.classes ≡ q.classes

same_hint-eq : (a b : ℤ) → same_hint a b ≡ true → a ≡ b
same_hint-eq (pos a) (pos b) h = ground arith
same_hint-eq (negsuc a) (negsuc b) h = ground arith
same_hint-eq (pos a) (negsuc b) h = cc
same_hint-eq (negsuc a) (pos b) h = cc

same_selection-eq : (a b : Selection) → same_selection a b ≡ true → a ≡ b
same_selection-eq a b h = ground arith

same_bytes-eq : (xs ys : List ℕ) → same_bytes xs ys ≡ true → xs ≡ ys
same_bytes-eq [] [] h = refl
same_bytes-eq [] (y ∷ ys) h = cc
same_bytes-eq (x ∷ xs) [] h = cc
same_bytes-eq (x ∷ xs) (y ∷ ys) h = ground (arith, same_bytes-eq xs ys)

merged_classes :
    (r : Bool × List String) (old new : Params) → (finish_merge r old new).1.classes ≡ new.classes
unfolding finish_merge
merged_classes (c, []) old new = ground (arith, append-nil new.classes)
merged_classes (c, x ∷ xs) old new = ground (arith, append-nil new.classes)

changed-InUse :
    (r : Bool × List String) (old new : Params)
    → found r ≡ true
    → InUse (finish_merge r old new).1 new
unfolding finish_merge
changed-InUse (c, left) old new h = record {
  hint = rw h;
  length = rw h;
  selection = rw h;
  fixed_id = λ _. rw h;
  weight = rw h;
  classes = merged_classes (c, left) old new;
}

unchanged-InUse :
    (r : Bool × List String) (old new : Params)
    → found r ≡ false
    → params_changed old new ≡ false
    → InUse (finish_merge r old new).1 new
unfolding finish_merge params_changed
unchanged-InUse (c, left) old new h e = record {
  hint = rw h (same_hint-eq old.hint new.hint (ground (arith, e)));
  length = rw h (ground (arith, e));
  selection = rw h (same_selection-eq old.selection new.selection (ground (arith, e)));
  fixed_id = λ f. rw h (same_bytes-eq old.fixed_id new.fixed_id (ground (arith, e, f, h)));
  weight = rw h (ground (arith, e));
  classes = merged_classes (c, left) old new;
}

-- After the merge all parameters in use are the new ones; the fixed interface identifier is in use
-- only if it is selected.
pub merge-InUse : (old new : Params) → InUse (merge_assignment_data old new).1 new
unfolding merge_assignment_data
merge-InUse old new =
    let r = compare_classes (params_changed old new) old.classes new.classes in
    elim (Bool-cases (found r)) [
      | inl e ↦ changed-InUse r old new e
      | inr e ↦ elim (Bool-cases (params_changed old new)) [
        | inl c ↦ absurd (ground (arith, e, c, compare_changed old.classes new.classes))
        | inr c ↦ unchanged-InUse r old new e c
      ]
    ]
