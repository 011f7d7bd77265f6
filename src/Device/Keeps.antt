-- ===== src/Device/Keeps.antt =====
-- device.c: presence, claims and releases keep the invariant.
use lede_netifd.Prelude.{
  if_ind, ◌⊎◌, false, ◌≡◌, ◌==◌, true, if◌then◌else◌, Option-cases, some, ℕ, refl, Bool, inl, inr,
  ◌==◌, arith, Bool-cases, ℤ, is_nonzero,
}
use lede_netifd.Device.State.{setup, update_ifindex, up, World, Env, same_bool, put_device}
use lede_netifd.Device.Ops.{
  broadcast, claim_device, device_claim, mark_claimed, set_present_flag, refresh_present,
  set_present, set_disabled, set_deferred, set_link, set_ifindex, claim_external, finish_claim,
  claim_failed,
}
use lede_netifd.Device.Invariant.{Inv}
use lede_netifd.Device.Primitives.{mark_claimed-Inv, put_device-Inv, put_user-Inv, claim_failed-Inv}
use lede_netifd.Device.Claims.{
  Claiming, GivenUp, Guarantee, broadcast_keeps, broadcast-Inv, set_ifindex-Inv,
}

module _ (env : Env) (g : Guarantee env) where
  set_present_flag-Inv : (d : ℕ) (b : Bool) (w : World) → Inv w → Inv (set_present_flag env d b w)
  unfolding set_present_flag
  set_present_flag-Inv d b w v = elim (Bool-cases (same_bool (w.device d).present b)) [
    | inl e ↦ rw (set_present_flag, e) v
    | inr e ↦
        rw (set_present_flag, e) (broadcast-Inv env g d _ _ (put_device-Inv w v d _ refl refl refl))
  ]

  refresh_present-Inv : (d : ℕ) (w : World) → Inv w → Inv (refresh_present env d w)
  unfolding refresh_present
  refresh_present-Inv d w v = set_present_flag-Inv d _ w v

  pub set_present-Inv : (d : ℕ) (b : Bool) (w : World) → Inv w → Inv (set_present env d b w)
  unfolding set_present
  set_present-Inv d b w v = elim (Bool-cases (same_bool (w.device d).sys_present b)) [
    | inl e ↦ rw (set_present, e) v
    | inr e ↦ rw (set_present, e) (refresh_present-Inv d _ (put_device-Inv w v d _ refl refl refl))
  ]

  pub set_disabled-Inv : (d : ℕ) (b : Bool) (w : World) → Inv w → Inv (set_disabled env d b w)
  unfolding set_disabled
  set_disabled-Inv d b w v = refresh_present-Inv d _ (put_device-Inv w v d _ refl refl refl)

  pub set_deferred-Inv : (d : ℕ) (b : Bool) (w : World) → Inv w → Inv (set_deferred env d b w)
  unfolding set_deferred
  set_deferred-Inv d b w v = refresh_present-Inv d _ (put_device-Inv w v d _ refl refl refl)

  pub set_link-Inv : (d : ℕ) (b : Bool) (w : World) → Inv w → Inv (set_link env d b w)
  unfolding set_link
  set_link-Inv d b w v = elim (Bool-cases (same_bool (w.device d).link_active b)) [
    | inl e ↦ rw (set_link, e) v
    | inr e ↦ rw (set_link, e) (broadcast-Inv env g d _ _ (put_device-Inv w v d _ refl refl refl))
  ]

  -- What the middle of a claim leaves: the invariant, and the claim itself.
  abbrev Going : ℕ → ℕ → World → Type 0
  Going u d w = Inv w × Claiming u d w

  claim_external-Going : (u d : ℕ) (w : World) → Going u d w → Going u d (claim_external env d w).1
  unfolding claim_external set_ifindex
  claim_external-Going u d w (v, c) =
      let i = env.if_resolve d w in
      let kept : Claiming u d (set_ifindex env d i w) = set_ifindex_Claiming i in
      (put_device-Inv _ (set_ifindex-Inv env g d i w v) d _ refl refl refl, ground (arith, kept))
    where
      set_ifindex_Claiming : (i : ℕ) → Claiming u d (set_ifindex env d i w)
      set_ifindex_Claiming i = elim (Bool-cases ((w.device d).ifindex == i)) [
        | inl e ↦ rw (set_ifindex, e) c
        | inr e ↦
            rw (set_ifindex, e)
              (broadcast_keeps env g (Claiming u d) update_ifindex
                (λ y x q. g.cb_Claiming u d y update_ifindex x (inr refl) q) d _
                (ground (arith, c)))
      ]

  -- The writes of a failed claim change nothing where it has been given up.
  given_up-Inv : (u d : ℕ) (w : World) → Inv w → GivenUp u d w → Inv (claim_failed u d w)
  unfolding claim_failed
  given_up-Inv u d w v (c, a) =
      let x = put_device d (record (w.device d) { active = 0 }) w in
      put_user-Inv x (put_device-Inv w v d _ refl refl (ground (arith, a))) u
        (record (w.user u) { claimed = false }) refl refl (ground (arith, c))

  -- What a claim that failed leaves.
  abbrev Settled : ℕ → ℕ → ℤ × World → Type 0
  Settled u d r = Inv r.1 × (is_nonzero r.0 ≡ true → Claiming u d r.1 ⊎ GivenUp u d r.1)

  finish_claim-Inv : (u d : ℕ) (r : ℤ × World) → Settled u d r → Inv (finish_claim env u d r).1
  unfolding finish_claim
  finish_claim-Inv u d (ret, w) (v, c) = elim (Bool-cases (is_nonzero ret)) [
    | inl e ↦ elim (c e) [
      | inl k ↦ rw e (claim_failed-Inv w v u d k.0 k.1 k.2)
      | inr k ↦ rw e (given_up-Inv u d w v k)
    ]
    | inr e ↦ rw e (broadcast-Inv env g d up w v)
  ]

  -- The device is brought up, by its own means or from outside.
  bring_up : ℕ → World → ℤ × World
  bring_up d s = if (s.device d).external then claim_external env d s else env.set_state d true s

  bring_up-Settled : (u d : ℕ) (s : World) → Going u d s → Settled u d (bring_up d s)
  unfolding bring_up
  bring_up-Settled u d s (v, c) =
      let (w, k) = claim_external-Going u d s (v, c) in
      if_ind (Settled u d) (s.device d).external (claim_external env d s) (env.set_state d true s)
        (w, λ e. inl k) (g.set_state_Inv d true s v, g.set_state_failed u d s v c)

  claim_device-Inv :
      (u d : ℕ) (w : World)
      → Inv w
      → (w.user u).dev ≡ some d
      → (w.user u).claimed ≡ false
      → Inv (claim_device env u d w).1
  unfolding claim_device
  claim_device-Inv u d w v h c =
      let m = mark_claimed u d w in
      let kept = mark_claimed-Inv w v u d h c in
      elim (Bool-cases ((m.device d).active == 1)) [
        | inl e ↦
            let start : Claiming u d m = unfold mark_claimed in ground (arith, h, e) in
            let going : Going u d (broadcast env d setup m) = (
              broadcast-Inv env g d setup m kept,
              broadcast_keeps env g (Claiming u d) setup
                  (λ y x q. g.cb_Claiming u d y setup x (inl refl) q) d m start,
            ) in
            rw e (unfold bring_up in finish_claim-Inv u d _ (bring_up-Settled u d _ going))
        | inr e ↦ rw e kept
      ]

  pub device_claim-Inv : (u : ℕ) (w : World) → Inv w → Inv (device_claim env u w).1
  unfolding device_claim
  device_claim-Inv u w v = elim (Bool-cases (w.user u).claimed) [
    | inl e ↦ ground (arith, e, v)
    | inr e ↦ elim (Option-cases (w.user u).dev) [
      | inl n ↦ ground (arith, e, n, v)
      | inr (d, h) ↦ ground (arith, e, h, claim_device-Inv u d w v h e)
    ]
  ]
