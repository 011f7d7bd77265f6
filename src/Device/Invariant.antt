-- ===== src/Device/Invariant.antt =====
-- device.c: the lists of users agree with the users' pointers, and `active` counts the claims.
use lede_netifd.Prelude.{
  ℕ, ◌+◌, ◌≡◌, ◌≢◌, Bool, true, false, some, List, inl, inr, if◌then◌else◌, arith, Bool-cases,
  contains, Distinct, update, count_if, bit, count_if-cong, count_if-change, contains_ne,
}
use lede_netifd.Device.State.{User, World, is_linked}

-- The number of claims among the listed users.
abbrev pub claims : (ℕ → User) → List ℕ → ℕ
claims user = count_if (λ v. (user v).claimed)

abbrev pub home : World → ℕ → Bool → List ℕ
home w d alias = if alias then (w.device d).aliases else (w.device d).users

pub record DeviceOk (w : World) (d : ℕ) : Type 0 where
  pub distinct_users : Distinct (w.device d).users
  pub distinct_aliases : Distinct (w.device d).aliases
  pub users_linked :
      (u : ℕ)
      → contains (w.device d).users u ≡ true
      → ((w.user u).dev ≡ some d) × ((w.user u).alias ≡ false)
  pub aliases_linked :
      (u : ℕ)
      → contains (w.device d).aliases u ≡ true
      → ((w.user u).dev ≡ some d) × ((w.user u).alias ≡ true)
  pub counted :
      (w.device d).active ≡ claims w.user (w.device d).users + claims w.user (w.device d).aliases

pub record UserOk (w : World) (u : ℕ) : Type 0 where
  pub listed : (d : ℕ) → (w.user u).dev ≡ some d → contains (home w d (w.user u).alias) u ≡ true
  pub holds : (w.user u).claimed ≡ true → is_linked (w.user u).dev ≡ true

pub record Inv (w : World) : Type 0 where
  pub device_ok : (d : ℕ) → DeviceOk w d
  pub user_ok : (u : ℕ) → UserOk w u
  pub not_aborted : w.aborted ≡ false

claims-update_out :
    (user : ℕ → User) (u : ℕ) (x : User) (xs : List ℕ)
    → contains xs u ≡ false
    → claims (update user u x) xs ≡ claims user xs
claims-update_out user u x xs h =
    count_if-cong _ _ xs (λ y m. ground (arith, contains_ne xs u y h m))

claims-update_in :
    (user : ℕ → User) (u : ℕ) (x : User) (xs : List ℕ)
    → Distinct xs
    → contains xs u ≡ true
    → claims (update user u x) xs + bit (user u).claimed ≡ claims user xs + bit x.claimed
claims-update_in user u x xs d h = ground (
  arith,
  count_if-change (λ v. (update user u x v).claimed) (λ v. (user v).claimed) u xs d h
      (λ y ne. ground (arith, ne)),
)

module _ (w : World) (v : Inv w) where
  pub users_absent : (u d : ℕ) → (w.user u).dev ≢ some d → contains (w.device d).users u ≡ false
  users_absent u d h = elim (Bool-cases (contains (w.device d).users u)) [
    | inl e ↦ absurd (h ((v.device_ok d).users_linked u e).0)
    | inr e ↦ e
  ]

  pub aliases_absent : (u d : ℕ) → (w.user u).dev ≢ some d → contains (w.device d).aliases u ≡ false
  aliases_absent u d h = elim (Bool-cases (contains (w.device d).aliases u)) [
    | inl e ↦ absurd (h ((v.device_ok d).aliases_linked u e).0)
    | inr e ↦ e
  ]

  pub users_no_alias : (u d : ℕ) → (w.user u).alias ≡ true → contains (w.device d).users u ≡ false
  users_no_alias u d h = elim (Bool-cases (contains (w.device d).users u)) [
    | inl e ↦ cc ((v.device_ok d).users_linked u e).1
    | inr e ↦ e
  ]

  pub aliases_no_user :
      (u d : ℕ) → (w.user u).alias ≡ false → contains (w.device d).aliases u ≡ false
  aliases_no_user u d h = elim (Bool-cases (contains (w.device d).aliases u)) [
    | inl e ↦ cc ((v.device_ok d).aliases_linked u e).1
    | inr e ↦ e
  ]

  abbrev total : (ℕ → User) → ℕ → ℕ
  total user d = claims user (w.device d).users + claims user (w.device d).aliases

  -- A new value for a user of `d` changes the number of claims of `d` as its own claim changes.
  pub claims_change :
      (u d : ℕ) (x : User)
      → (w.user u).dev ≡ some d
      → total (update w.user u x) d + bit (w.user u).claimed ≡ (w.device d).active + bit x.claimed
  claims_change u d x h = elim (Bool-cases (w.user u).alias) [
    | inl a ↦ ground (
      arith,
      (v.device_ok d).counted,
      claims-update_out w.user u x (w.device d).users (users_no_alias u d a),
      claims-update_in w.user u x (w.device d).aliases (v.device_ok d).distinct_aliases
          (ground (arith, a, (v.user_ok u).listed d h)),
    )
    | inr a ↦ ground (
      arith,
      (v.device_ok d).counted,
      claims-update_out w.user u x (w.device d).aliases (aliases_no_user u d a),
      claims-update_in w.user u x (w.device d).users (v.device_ok d).distinct_users
          (ground (arith, a, (v.user_ok u).listed d h)),
    )
  ]

  pub claims_other :
      (u d : ℕ) (x : User)
      → (w.user u).dev ≢ some d
      → total (update w.user u x) d ≡ (w.device d).active
  claims_other u d x h = ground (
    arith,
    (v.device_ok d).counted,
    claims-update_out w.user u x (w.device d).users (users_absent u d h),
    claims-update_out w.user u x (w.device d).aliases (aliases_absent u d h),
  )
