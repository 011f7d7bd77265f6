-- ===== src/Prelude/Ids.antt =====
-- Objects are named by numbers: sets of them as lists, and stores as functions of the number.
use Prim.Native.Nat.{ℕ, ◌+◌}
use mathlib.Core.Path.{◌≡◌, refl}
use mathlib.Core.Bool.{Bool, true, false, ◌||◌}
use mathlib.Core.Logic.{◌≢◌, inl, inr}
use mathlib.Core.List.{List, [], ◌∷◌, ◌++◌}
use native.Mathlib.Omega.{arith}
use lede_netifd.Prelude.Tests.{◌==◌, if◌then◌else◌, Bool-cases}

abbrev pub contains : List ℕ → ℕ → Bool
contains [] i = false
contains (x ∷ xs) i = (x == i) || contains xs i

-- `list_del` of a list's entry.
abbrev pub remove : ℕ → List ℕ → List ℕ
remove i [] = []
remove i (x ∷ xs) = if x == i then xs else x ∷ remove i xs

-- No entry twice.
abbrev pub Distinct : List ℕ → Type 0
Distinct [] = Unit {0}
Distinct (x ∷ xs) = (contains xs x ≡ false) × Distinct xs

-- A write to a store.
abbrev pub update {ℓ} : {A : Type ℓ} → (ℕ → A) → ℕ → A → ℕ → A
update f i a j = if i == j then a else f j

pub contains-append_single :
    (xs : List ℕ) (i j : ℕ) → contains (xs ++ i ∷ []) j ≡ contains xs j || (i == j)
contains-append_single [] i j = ground arith
contains-append_single (x ∷ xs) i j = ground (arith, contains-append_single xs i j)

pub Distinct-append_single :
    (xs : List ℕ) (i : ℕ) → contains xs i ≡ false → Distinct xs → Distinct (xs ++ i ∷ [])
Distinct-append_single [] i h d = (refl, tt)
Distinct-append_single (x ∷ xs) i h d =
    ground (arith, contains-append_single xs i x, Distinct-append_single xs i)

pub contains-remove_ne : (xs : List ℕ) (i j : ℕ) → i ≢ j → contains (remove i xs) j ≡ contains xs j
contains-remove_ne [] i j h = refl
contains-remove_ne (x ∷ xs) i j h = ground (arith, contains-remove_ne xs i j h)

pub contains-remove_self : (xs : List ℕ) (i : ℕ) → Distinct xs → contains (remove i xs) i ≡ false
contains-remove_self [] i d = refl
contains-remove_self (x ∷ xs) i d = ground (arith, contains-remove_self xs i d.1)

contains-remove-false :
    (xs : List ℕ) (i j : ℕ) → contains xs j ≡ false → contains (remove i xs) j ≡ false
contains-remove-false [] i j h = refl
contains-remove-false (x ∷ xs) i j h = ground (arith, contains-remove-false xs i j)

pub remove-Distinct : (xs : List ℕ) (i : ℕ) → Distinct xs → Distinct (remove i xs)
remove-Distinct [] i d = tt
remove-Distinct (x ∷ xs) i d =
    ground (arith, contains-remove-false xs i x d.0, remove-Distinct xs i d.1)

pub contains_ne : (xs : List ℕ) (i j : ℕ) → contains xs i ≡ false → contains xs j ≡ true → i ≢ j
contains_ne xs i j h m e = ground arith

-- How many of the listed objects pass a test.
abbrev pub count_if : (ℕ → Bool) → List ℕ → ℕ
count_if p [] = 0
count_if p (x ∷ xs) = (if p x then 1 else 0) + count_if p xs

abbrev pub bit : Bool → ℕ
bit b = if b then 1 else 0

pub count_if-cong :
    (p q : ℕ → Bool) (xs : List ℕ)
    → ((x : ℕ) → contains xs x ≡ true → p x ≡ q x)
    → count_if p xs ≡ count_if q xs
count_if-cong p q [] h = refl
count_if-cong p q (x ∷ xs) h = ground (arith, h x, count_if-cong p q xs (λ y m. h y (ground arith)))

-- The count follows a change of the test at one object, if that is listed once.
pub count_if-change :
    (p q : ℕ → Bool) (u : ℕ) (xs : List ℕ)
    → Distinct xs
    → contains xs u ≡ true
    → ((x : ℕ) → u ≢ x → p x ≡ q x)
    → count_if p xs + bit (q u) ≡ count_if q xs + bit (p u)
count_if-change p q u [] d m h = cc
count_if-change p q u (x ∷ xs) d m h = elim (Bool-cases (x == u)) [
  | inl e ↦
      let same : x ≡ u = ground arith in
      let absent : contains xs u ≡ false = ground (arith, d.0) in
      ground (arith, same, count_if-cong p q xs (λ y k. h y (contains_ne xs u y absent k)))
  | inr e ↦
      ground (arith, e, h x (ground arith), count_if-change p q u xs d.1 (ground (arith, m)) h)
]

pub count_if-append_single :
    (p : ℕ → Bool) (xs : List ℕ) (u : ℕ) → count_if p (xs ++ u ∷ []) ≡ count_if p xs + bit (p u)
count_if-append_single p [] u = ground arith
count_if-append_single p (x ∷ xs) u = ground (arith, count_if-append_single p xs u)

pub count_if-remove :
    (p : ℕ → Bool) (xs : List ℕ) (u : ℕ)
    → contains xs u ≡ true
    → count_if p (remove u xs) + bit (p u) ≡ count_if p xs
count_if-remove p [] u m = cc
count_if-remove p (x ∷ xs) u m = ground (arith, count_if-remove p xs u)
