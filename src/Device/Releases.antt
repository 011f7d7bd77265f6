-- ===== src/Device/Releases.antt =====
-- device.c: releases keep the invariant, and so do users that come and go.
use mathlib.Core.Path.{subst}
use lede_netifd.Prelude.{
  ℕ, ◌≡◌, refl, sym, true, false, some, List, inl, inr, if◌then◌else◌, arith, Bool-cases,
  Option-cases, ltb, remove,
}
use lede_netifd.Device.State.{Event, teardown, down, World, Env}
use lede_netifd.Device.Ops.{
  device_delete, unmark_claimed, call_cb, broadcast, last_release, release_device, device_release,
}
use lede_netifd.Device.Invariant.{Inv}
use lede_netifd.Device.Primitives.{put_device-Inv, unmark_claimed-Inv}
use lede_netifd.Device.Claims.{Released, Guarantee, IsReleaseEvent, broadcast_keeps}

module _ (env : Env) (g : Guarantee env) where
  -- A predicate that the calls of a release keep is kept by the release of the last claim.
  last_release_keeps :
      (P : World → Type 0) (d : ℕ)
      → ((u : ℕ) (ev : Event) (x : World) → IsReleaseEvent ev → P x → P (env.cb u ev x))
      → ((x : World) → P x → P (env.set_state d false x).1)
      → (w : World) → P w
      → P (last_release env d w)
  unfolding last_release
  last_release_keeps P d cbs sets w p =
      let t = broadcast env d teardown w in
      let pt = broadcast_keeps env g P teardown (λ u x q. cbs u teardown x (inl refl) q) d w p in
      let s = if (t.device d).external then t else (env.set_state d false t).1 in
      let ps : P s = elim (Bool-cases (t.device d).external) [
        | inl e ↦ subst (λ b. P (if b then t else (env.set_state d false t).1)) (sym e) pt
        | inr e ↦ subst (λ b. P (if b then t else (env.set_state d false t).1)) (sym e) (sets t pt)
      ] in
      elim (Bool-cases (ltb 0 (s.device d).active)) [
        | inl e ↦ rw e ps
        | inr e ↦ rw e (broadcast_keeps env g P down (λ u x q. cbs u down x (inr refl) q) d s ps)
      ]

  release_device_keeps :
      (P : World → Type 0) (d : ℕ)
      → ((u : ℕ) (ev : Event) (x : World) → IsReleaseEvent ev → P x → P (env.cb u ev x))
      → ((x : World) → P x → P (env.set_state d false x).1)
      → (u : ℕ) (w : World) → P (unmark_claimed u d w)
      → P (release_device env u d w)
  unfolding release_device
  release_device_keeps P d cbs sets u w p =
      let v = unmark_claimed u d w in
      elim (Bool-cases (ltb 0 (v.device d).active)) [
        | inl e ↦ rw e p
        | inr e ↦ rw e (last_release_keeps P d cbs sets v p)
      ]

  pub device_release-Inv : (u : ℕ) (w : World) → Inv w → Inv (device_release env u w)
  unfolding device_release
  device_release-Inv u w v = elim (Bool-cases (w.user u).claimed) [
    | inl e ↦ elim (Option-cases (w.user u).dev) [
      | inl n ↦ ground (arith, e, n, v)
      | inr (d, h) ↦ ground (
        arith,
        e,
        h,
        release_device_keeps Inv d (λ u' ev x _ q. g.cb_Inv u' ev x q)
            (λ x q. g.set_state_Inv d false x q) u w (unmark_claimed-Inv w v u d h e),
      )
    ]
    | inr e ↦ ground (arith, e, v)
  ]

  pub device_release-Released :
      (u d : ℕ) (w : World)
      → (w.user u).dev ≡ some d
      → (w.user u).claimed ≡ true
      → Released u d (device_release env u w)
  unfolding device_release
  device_release-Released u d w h c =
      let start : Released u d (unmark_claimed u d w) =
        unfold unmark_claimed in ground (arith, h) in
      ground (
        arith,
        h,
        c,
        release_device_keeps (Released u d) d (λ y ev x i q. g.cb_Released u d y ev x i q)
            (λ x q. g.set_state_Released u d x q) u w start,
      )

  pub call_cb-Inv : (u : ℕ) (ev : Event) (w : World) → Inv w → Inv (call_cb env ev u w)
  unfolding call_cb
  call_cb-Inv u ev w v = ground (arith, v, g.cb_Inv u ev w v)

  pub lock-Inv : (w : World) (n : ℕ) → Inv w → Inv (record w { devlock = n })
  lock-Inv w n v = record {
    device_ok = λ d.
        let o = v.device_ok d in
        record {
          distinct_users = o.distinct_users;
          distinct_aliases = o.distinct_aliases;
          users_linked = o.users_linked;
          aliases_linked = o.aliases_linked;
          counted = o.counted;
        };
    user_ok = λ u. let o = v.user_ok u in record { listed = o.listed; holds = o.holds };
    not_aborted = v.not_aborted;
  }

  delete-Inv : (w : World) (ds : List ℕ) → Inv w → Inv (record w { devices = ds })
  delete-Inv w ds v = record {
    device_ok = λ d.
        let o = v.device_ok d in
        record {
          distinct_users = o.distinct_users;
          distinct_aliases = o.distinct_aliases;
          users_linked = o.users_linked;
          aliases_linked = o.aliases_linked;
          counted = o.counted;
        };
    user_ok = λ u. let o = v.user_ok u in record { listed = o.listed; holds = o.holds };
    not_aborted = v.not_aborted;
  }

  pub device_delete-Inv : (d : ℕ) (w : World) → Inv w → Inv (device_delete d w)
  unfolding device_delete
  device_delete-Inv d w v = elim (Bool-cases (w.device d).in_tree) [
    | inl e ↦ subst Inv (ground (arith, e)) (
        put_device-Inv _ (delete-Inv w (remove d w.devices) v) d
          (record (w.device d) { in_tree = false }) refl refl refl)
    | inr e ↦ subst Inv (ground (arith, e)) v
  ]
