-- ===== src/Ip/Agree.antt =====
-- interface-ip.c: match_if_addr compares the leading bits of two addresses.
use lede_netifd.Prelude.{
  ℕ, zero, suc, ◌+◌, ◌-◌, ◌*◌, ◌/◌, ◌^◌, ◌<◌, ◌≡◌, refl, sym, ap, ◌∙◌, inl, inr, Bool, true, false,
  ◌&&◌, List, [], ◌∷◌, arith, leb, ◌==◌, if◌then◌else◌, ==_iff, Bool-cases, length, All,
}
use native.Mathlib.Nat.{mul-div_cancel, one-le-pow}
use lede_netifd.Ip.Match.{
  IfAddr, zeros, clear_low, clear_bytes, clear_if_addr, same_bytes, match_if_addr,
}

-- The first `mask` bits are the same: of a byte that lies within them all bits, and of the last its
-- leading bits.
unfoldable pub agree : ℕ → IfAddr → IfAddr → Bool
agree mask (x ∷ xs) (y ∷ ys) =
    if leb 8 mask
    then x == y && agree (mask - 8) xs ys
    else x / 2 ^ (8 - mask) == y / 2 ^ (8 - mask)
agree mask _ _ = true

abbrev pub IsByte : ℕ → Type 0
IsByte x = x < 256

clear_if_addr-bytes :
    (xs : List ℕ) (mask m : ℕ)
    → (mask + 7) / 8 ≡ m
    → clear_if_addr xs mask ≡ clear_bytes m (m * 8 - mask) xs
unfolding clear_if_addr
clear_if_addr-bytes xs mask m e = ap (λ n. clear_bytes n (n * 8 - mask) xs) e

clear_bytes-cases :
    (mask m : ℕ) (x : ℕ) (xs : List ℕ)
    → (mask + 7) / 8 ≡ m
    → 0 < mask
    → clear_bytes m (m * 8 - mask) (x ∷ xs)
      ≡ (if leb mask 8 then clear_low (8 - mask) x ∷ zeros xs else x ∷ clear_if_addr xs (mask - 8))
unfolding clear_bytes
clear_bytes-cases mask zero x xs e h = absurd (omega arith)
clear_bytes-cases mask (suc zero) x xs e h = let le : leb mask 8 ≡ true = ground arith in rw le refl
clear_bytes-cases mask (suc (suc m)) x xs e h =
    let gt : leb mask 8 ≡ false = ground arith in
    let m_bytes : (mask - 8 + 7) / 8 ≡ suc m = omega arith in
    let left : suc (suc m) * 8 - mask ≡ suc m * 8 - (mask - 8) = omega arith in
    rw gt (
      ap (λ k. x ∷ clear_bytes (suc m) k xs) left
      ∙ ap (λ ys. x ∷ ys) (sym (clear_if_addr-bytes xs (mask - 8) (suc m) m_bytes)))

same_bytes-zeros :
    (xs ys : List ℕ) → length xs ≡ length ys → same_bytes (zeros xs) (zeros ys) ≡ true
unfolding zeros same_bytes
same_bytes-zeros [] [] h = refl
same_bytes-zeros [] (y ∷ ys) h = absurd (omega arith)
same_bytes-zeros (x ∷ xs) [] h = absurd (omega arith)
same_bytes-zeros (x ∷ xs) (y ∷ ys) h = same_bytes-zeros xs ys (omega arith)

mul_eq : (a b p : ℕ) → 0 < p → (a * p == b * p) ≡ (a == b)
mul_eq a b p h = elim (Bool-cases (a * p == b * p)) [
  | inl e ↦
      let same : a ≡ b =
        sym (mul-div_cancel a h)
        ∙ (ap (λ t. t / p) ((==_iff (a * p) (b * p)).0 e) ∙ mul-div_cancel b h) in
      e ∙ sym ((==_iff a b).1 same)
  | inr e ↦ elim (Bool-cases (a == b)) [
    | inl f ↦ (==_iff (a * p) (b * p)).1 (ap (λ t. t * p) ((==_iff a b).0 f)) ∙ sym f
    | inr f ↦ e ∙ sym f
  ]
]

agree-zero : (xs ys : List ℕ) → All IsByte xs → All IsByte ys → agree 0 xs ys ≡ true
unfolding agree
agree-zero [] ys b c = refl
agree-zero (x ∷ xs) [] b c = refl
agree-zero (x ∷ xs) (y ∷ ys) b c = ground arith

clear_if_addr-cons :
    (mask x : ℕ) (xs : List ℕ)
    → 0 < mask
    → clear_if_addr (x ∷ xs) mask
      ≡ (if leb mask 8 then clear_low (8 - mask) x ∷ zeros xs else x ∷ clear_if_addr xs (mask - 8))
clear_if_addr-cons mask x xs h =
    clear_if_addr-bytes (x ∷ xs) mask _ refl ∙ clear_bytes-cases mask _ x xs refl h

and_true : (b : Bool) → (b && true) ≡ b
and_true true = refl
and_true false = refl

clear_bytes-nil : (m k : ℕ) → clear_bytes m k [] ≡ []
unfolding clear_bytes zeros
clear_bytes-nil zero k = refl
clear_bytes-nil (suc m) k = refl

clear_if_addr-zero : (xs : List ℕ) → clear_if_addr xs 0 ≡ zeros xs
unfolding clear_if_addr clear_bytes
clear_if_addr-zero xs = refl

clear_if_addr-nil : (mask : ℕ) → clear_if_addr [] mask ≡ []
unfolding clear_if_addr
clear_if_addr-nil mask = clear_bytes-nil _ _

same_bytes-step :
    (n x y : ℕ) (xs ys : List ℕ)
    → 0 < n
    → length xs ≡ length ys
    → All IsByte xs
    → All IsByte ys
    → same_bytes (clear_if_addr xs (n - 8)) (clear_if_addr ys (n - 8)) ≡ agree (n - 8) xs ys
    → same_bytes (clear_if_addr (x ∷ xs) n) (clear_if_addr (y ∷ ys) n) ≡ agree n (x ∷ xs) (y ∷ ys)
unfolding same_bytes agree
same_bytes-step n x y xs ys h e p q ih =
    rw (clear_if_addr-cons n x xs h, clear_if_addr-cons n y ys h)
      (elim (Bool-cases (leb 8 n)) [
        | inr small ↦
            let le : leb n 8 ≡ true = ground arith in
            rw (le, small, same_bytes-zeros xs ys e)
              (and_true _
                ∙ mul_eq (x / 2 ^ (8 - n)) (y / 2 ^ (8 - n)) (2 ^ (8 - n))
                    (one-le-pow (8 - n) 2 (omega arith)))
        | inl big ↦ elim (Bool-cases (leb n 8)) [
          | inl le ↦
              let eight : n ≡ 8 = ground arith in
              rw (eight, same_bytes-zeros xs ys e, agree-zero xs ys p q) (ground arith)
          | inr gt ↦ rw (gt, big, ih) refl
        ]
      ])

-- Two addresses match under a netmask exactly if the bits that it covers are the same.
pub match_if_addr-agree :
    (a b : IfAddr) (mask : ℕ)
    → length a ≡ length b
    → All IsByte a
    → All IsByte b
    → match_if_addr a b mask ≡ agree mask a b
unfolding match_if_addr
match_if_addr-agree [] [] mask e p q = rw (clear_if_addr-nil mask) (unfold same_bytes agree in refl)
match_if_addr-agree [] (y ∷ ys) mask e p q = absurd (omega arith)
match_if_addr-agree (x ∷ xs) [] mask e p q = absurd (omega arith)
match_if_addr-agree (x ∷ xs) (y ∷ ys) zero e p q =
    rw (clear_if_addr-zero (x ∷ xs), clear_if_addr-zero (y ∷ ys))
      (same_bytes-zeros (x ∷ xs) (y ∷ ys) e ∙ sym (agree-zero (x ∷ xs) (y ∷ ys) p q))
match_if_addr-agree (x ∷ xs) (y ∷ ys) (suc n) e p q =
    same_bytes-step (suc n) x y xs ys (omega arith) (omega arith) p.1 q.1
      (match_if_addr-agree xs ys (suc n - 8) (omega arith) p.1 q.1)
