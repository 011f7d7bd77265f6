-- ===== src/Device/Lifecycle.antt =====
-- device.c: users that come and go and devices that are freed keep the invariant, and so does every
-- sequence of operations.
use mathlib.Core.Path.{subst}
use lede_netifd.Prelude.{
  ℕ, ◌≡◌, ◌∙◌, refl, sym, ap, Bool, false, Option, none, some, List, [], ◌∷◌, inl, inr, ◌==◌,
  if◌then◌else◌, arith, Bool-cases, Option-cases, ltb, not, ◌||◌,
}
use lede_netifd.Device.State.{add, removed, up, link_up, World, Env, put_user, is_linked, is_empty}
use lede_netifd.Device.Ops.{
  lock, unlock, device_delete, unlink_user, set_present, set_disabled, set_deferred, set_link,
  set_ifindex, device_claim, device_release,
}
use lede_netifd.Device.Users.{
  cleanup_cb, device_cleanup, device_free, free_unused, free_unused_all, device_unlock, greet,
  add_user_to, remove_user, add_user, same_dev, add_to,
}
use lede_netifd.Device.Invariant.{Inv}
use lede_netifd.Device.Primitives.{put_user-Inv}
use lede_netifd.Device.Links.{link_user-Inv, unlink_user-Inv}
use lede_netifd.Device.Claims.{Released, Guarantee, set_ifindex-Inv}
use lede_netifd.Device.Keeps.{
  set_present-Inv, set_disabled-Inv, set_deferred-Inv, set_link-Inv, device_claim-Inv,
}
use lede_netifd.Device.Releases.{
  device_release-Inv, device_release-Released, call_cb-Inv, lock-Inv, device_delete-Inv,
}

-- The operations of device.c on devices and users.
pub data Op : Type 0 where
  claim release detach cleanup dispose : ℕ → Op
  attach : ℕ → Option ℕ → Op
  present disabled deferred link : ℕ → Bool → Op
  ifindex : ℕ → ℕ → Op
  enter leave : Op

pub perform : Env → Op → World → World
perform env (claim u) w = (device_claim env u w).1
perform env (release u) w = device_release env u w
perform env (attach u dev) w = add_user env u dev w
perform env (detach u) w = remove_user env u w
perform env (present d b) w = set_present env d b w
perform env (disabled d b) w = set_disabled env d b w
perform env (deferred d b) w = set_deferred env d b w
perform env (link d b) w = set_link env d b w
perform env (ifindex d i) w = set_ifindex env d i w
perform env (cleanup d) w = device_cleanup env d w
perform env (dispose d) w = device_free env d w
perform env enter w = lock w
perform env leave w = device_unlock env w

module _ (env : Env) (g : Guarantee env) where
  cleanup_cb-Inv : (u : ℕ) (w : World) → Inv w → Inv (cleanup_cb env u w)
  unfolding cleanup_cb
  cleanup_cb-Inv u w v = device_release-Inv env g u _ (call_cb-Inv env g u removed w v)

  device_cleanup-Inv : (d : ℕ) (w : World) → Inv w → Inv (device_cleanup env d w)
  unfolding device_cleanup
  device_cleanup-Inv d w v =
      device_delete-Inv env g d _
        (g.iterates.calls Inv _ _ cleanup_cb-Inv _ (g.iterates.calls Inv _ _ cleanup_cb-Inv w v))

  device_free-Inv : (d : ℕ) (w : World) → Inv w → Inv (device_free env d w)
  unfolding device_free
  device_free-Inv d w v =
      lock-Inv env g _ _ (g.type_free_Inv d _ (device_cleanup-Inv d _ (lock-Inv env g w _ v)))

  abbrev in_use : ℕ → World → Bool
  in_use d w =
      not (is_empty (w.device d).users)
      || (not (is_empty (w.device d).aliases) || ((w.device d).current_config || ltb 0 w.devlock))

  pub free_unused-Inv : (d : ℕ) (w : World) → Inv w → Inv (free_unused env d w)
  unfolding free_unused
  free_unused-Inv d w v = elim (Bool-cases (in_use d w)) [
    | inl e ↦ rw (free_unused, e) v
    | inr e ↦ rw (free_unused, e) (device_free-Inv d w v)
  ]

  free_unused_all-Inv : (ds : List ℕ) (w : World) → Inv w → Inv (free_unused_all env ds w)
  unfolding free_unused_all
  free_unused_all-Inv [] w v = v
  free_unused_all-Inv (d ∷ ds) w v = free_unused_all-Inv ds _ (free_unused-Inv d w v)

  device_unlock-Inv : (w : World) → Inv w → Inv (device_unlock env w)
  unfolding device_unlock
  device_unlock-Inv w v =
      let x = unlock w in
      let kept = lock-Inv env g w _ v in
      elim (Bool-cases (x.devlock == 0)) [
        | inl e ↦ rw e (free_unused_all-Inv x.devices x kept)
        | inr e ↦ rw e kept
      ]

  cleanup_nobody :
      (d : ℕ) (w : World)
      → (w.device d).users ≡ []
      → (w.device d).aliases ≡ []
      → device_cleanup env d w ≡ device_delete d w
  unfolding device_cleanup
  cleanup_nobody d w p q =
      let aliases = λ (v : World). (v.device d).aliases in
      ap (device_delete d) (
        ap (env.each aliases (cleanup_cb env))
          (g.iterates.empty (λ v. (v.device d).users) (cleanup_cb env) w p)
        ∙ g.iterates.empty aliases (cleanup_cb env) w q)

  device_delete_detached :
      (u d : ℕ) (w : World) → (w.user u).dev ≡ none → ((device_delete d w).user u).dev ≡ none
  unfolding device_delete
  device_delete_detached u d w h = ground arith

  device_free_detached :
      (u d : ℕ) (w : World)
      → (w.user u).dev ≡ none
      → (w.device d).users ≡ []
      → (w.device d).aliases ≡ []
      → ((device_free env d w).user u).dev ≡ none
  unfolding device_free
  device_free_detached u d w h p q =
      subst (λ x. ((env.type_free d x).user u).dev ≡ none) (sym (cleanup_nobody d (lock w) p q))
        (g.type_free_detached u d _ (device_delete_detached u d (lock w) h))

  -- A device that is freed has no users whose pointers that could change.
  free_unused_detached :
      (u d : ℕ) (w : World) → (w.user u).dev ≡ none → ((free_unused env d w).user u).dev ≡ none
  unfolding free_unused
  free_unused_detached u d w h = elim (Bool-cases (in_use d w)) [
    | inl e ↦ rw (free_unused, e) h
    | inr e ↦ rw (free_unused, e) (device_free_detached u d w h (ground arith) (ground arith))
  ]

  -- What `device_remove_user` leaves: the invariant, and a user with no device.
  abbrev Detached : ℕ → World → Type 0
  Detached u w = Inv w × ((w.user u).dev ≡ none)

  -- The release in it.
  released : ℕ → World → World
  released u a = if (a.user u).claimed then device_release env u a else a

  released-Released :
      (u d : ℕ) (a : World)
      → Inv a
      → (a.user u).dev ≡ some d
      → Inv (released u a) × Released u d (released u a)
  unfolding released
  released-Released u d a v h = elim (Bool-cases (a.user u).claimed) [
    | inl e ↦
        subst
          (λ b.
            Inv (if b then device_release env u a else a)
            × Released u d (if b then device_release env u a else a))
          (sym e) (device_release-Inv env g u a v, device_release-Released env g u d a h e)
    | inr e ↦
        subst
          (λ b.
            Inv (if b then device_release env u a else a)
            × Released u d (if b then device_release env u a else a))
          (sym e) (v, (h, e))
  ]

  remove_user-some :
      (u d : ℕ) (w : World)
      → (w.user u).dev ≡ some d
      → remove_user env u w
        ≡ free_unused env d
            (unlink_user u d (released u (put_user u (record (w.user u) { hotplug = false }) w)))
  unfolding remove_user released
  remove_user-some u d w h = ground (arith, h)

  remove_user-Detached : (u : ℕ) (w : World) → Inv w → Detached u (remove_user env u w)
  unfolding remove_user
  remove_user-Detached u w v = elim (Option-cases (w.user u).dev) [
    | inl n ↦ ground (arith, n, v)
    | inr (d, h) ↦
        let a = put_user u (record (w.user u) { hotplug = false }) w in
        let kept = put_user-Inv w v u (record (w.user u) { hotplug = false }) refl refl refl in
        let (vb, rel) = released-Released u d a kept (ground (arith, h)) in
        let b = released u a in
        let gone : ((unlink_user u d b).user u).dev ≡ none = unfold unlink_user in ground arith in
        let off = unlink_user-Inv b vb u d rel.0 rel.1 in
        subst (Detached u) (sym (remove_user-some u d w h))
          (free_unused-Inv d _ off, free_unused_detached u d (unlink_user u d b) gone)
  ]

  greet-Inv : (u d : ℕ) (w : World) → Inv w → Inv (greet env u d w)
  unfolding greet
  greet-Inv u d w v =
      let a = env.cb u add w in
      let va = g.cb_Inv u add w v in
      let b = if ltb 0 (a.device d).active then env.cb u up a else a in
      let vb : Inv b = ground (arith, va, g.cb_Inv u up a va) in
      let vc : Inv (if (b.device d).link_active then env.cb u link_up b else b) =
        ground (arith, vb, g.cb_Inv u link_up b vb) in
      ground (arith, v, vc)

  add_to-Inv : (u : ℕ) (dev : Option ℕ) (w : World) → Detached u w → Inv (add_to env u dev w)
  unfolding add_user_to
  add_to-Inv u none w v = v.0
  add_to-Inv u (some d) w v = greet-Inv u d _ (link_user-Inv w v.0 u d v.1)

  pub remove_user-Inv : (u : ℕ) (w : World) → Inv w → Inv (remove_user env u w)
  remove_user-Inv u w v = (remove_user-Detached u w v).0

  freed_first :
      (u : ℕ) (w : World)
      → Inv w
      → Detached u (if is_linked (w.user u).dev then remove_user env u w else w)
  freed_first u w v = elim (Option-cases (w.user u).dev) [
    | inl n ↦ rw n (v, n)
    | inr (d, h) ↦ rw h (remove_user-Detached u w v)
  ]

  add_user-Inv : (u : ℕ) (dev : Option ℕ) (w : World) → Inv w → Inv (add_user env u dev w)
  unfolding add_user
  add_user-Inv u dev w v = elim (Bool-cases (same_dev env (w.user u).dev dev)) [
    | inl e ↦ rw (add_user, e) v
    | inr e ↦ rw (add_user, e) (add_to-Inv u dev _ (freed_first u w v))
  ]

  -- Every operation, also one that fails, keeps the lists, the pointers and the count of claims in
  -- agreement, and the assertion of `device_release` holds, if the code behind the function pointers
  -- meets the Guarantee.
  pub perform-Inv : (op : Op) (w : World) → Inv w → Inv (perform env op w)
  unfolding perform
  perform-Inv (claim u) w v = device_claim-Inv env g u w v
  perform-Inv (release u) w v = device_release-Inv env g u w v
  perform-Inv (attach u dev) w v = add_user-Inv u dev w v
  perform-Inv (detach u) w v = remove_user-Inv u w v
  perform-Inv (present d b) w v = set_present-Inv env g d b w v
  perform-Inv (disabled d b) w v = set_disabled-Inv env g d b w v
  perform-Inv (deferred d b) w v = set_deferred-Inv env g d b w v
  perform-Inv (link d b) w v = set_link-Inv env g d b w v
  perform-Inv (ifindex d i) w v = set_ifindex-Inv env g d i w v
  perform-Inv (cleanup d) w v = device_cleanup-Inv d w v
  perform-Inv (dispose d) w v = device_free-Inv d w v
  perform-Inv enter w v = lock-Inv env g w _ v
  perform-Inv leave w v = device_unlock-Inv w v
