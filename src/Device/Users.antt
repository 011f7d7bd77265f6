-- ===== src/Device/Users.antt =====
-- device.c: users that come and go, and devices that are freed with their last user.
use lede_netifd.Prelude.{
  ℕ, Bool, true, false, not, ◌&&◌, ◌||◌, Option, none, some, List, [], ◌∷◌, ltb, ◌==◌, ◌++◌,
  if◌then◌else◌, ℤ, pos, negsuc, is_negative,
}
use lede_netifd.Device.State.{
  add, removed, up, link_up, if_up, if_down, World, Env, put_user, is_empty, is_linked,
}
use lede_netifd.Device.Ops.{
  lock, unlock, device_delete, link_user, unlink_user, call_cb, set_ifindex, device_claim,
  device_release,
}

module _ (env : Env) where
  open env use {type_free, each, if_resolve, if_get_parent}

  -- device_cleanup_cb
  unfoldable pub cleanup_cb : ℕ → World → World
  cleanup_cb u w = device_release env u (call_cb env removed u w)

  -- device_cleanup
  unfoldable pub device_cleanup : ℕ → World → World
  unfolding cleanup_cb
  device_cleanup d w =
      device_delete d
        (each (λ v. (v.device d).aliases) cleanup_cb (each (λ v. (v.device d).users) cleanup_cb w))

  -- device_free
  unfoldable pub device_free : ℕ → World → World
  unfolding device_cleanup
  device_free d w = unlock (type_free d (device_cleanup d (lock w)))

  -- __device_free_unused
  unfoldable pub free_unused : ℕ → World → World
  unfolding device_free
  free_unused d w =
      if not (is_empty (w.device d).users)
        || (not (is_empty (w.device d).aliases) || ((w.device d).current_config || ltb 0 w.devlock))
      then w
      else device_free d w

  -- device_free_unused(NULL): over the devices that the tree held at the start.
  unfoldable pub free_unused_all : List ℕ → World → World
  unfolding free_unused
  free_unused_all [] w = w
  free_unused_all (d ∷ ds) w = free_unused_all ds (free_unused d w)

  -- device_unlock
  unfoldable pub device_unlock : World → World
  unfolding free_unused_all
  device_unlock w = let v = unlock w in if v.devlock == 0 then free_unused_all v.devices v else v

  -- The callbacks that `__device_add_user` makes for a device that is there.
  unfoldable pub greet : ℕ → ℕ → World → World
  unfolding call_cb
  greet u d w =
      if (w.user u).has_cb && (w.device d).present
      then (let a = env.cb u add w in
          let b = if ltb 0 (a.device d).active then env.cb u up a else a in
          if (b.device d).link_active then env.cb u link_up b else b)
      else w

  -- __device_add_user
  unfoldable pub add_user_to : ℕ → ℕ → World → World
  unfolding link_user greet
  add_user_to u d w = greet u d (link_user u d w)

  -- device_remove_user
  unfoldable pub remove_user : ℕ → World → World
  unfolding device_release unlink_user free_unused
  remove_user u w = elim (w.user u).dev [
    | none ↦ w
    | some d ↦
        let a = put_user u (record (w.user u) { hotplug = false }) w in
        let b = if (a.user u).claimed then device_release env u a else a in
        free_unused d (unlink_user u d b)
  ]

  abbrev pub same_dev : Option ℕ → Option ℕ → Bool
  same_dev none none = true
  same_dev none (some e) = false
  same_dev (some d) none = false
  same_dev (some d) (some e) = d == e

  abbrev pub add_to : ℕ → Option ℕ → World → World
  unfolding add_user_to
  add_to u none w = w
  add_to u (some d) w = add_user_to u d w

  -- device_add_user
  unfoldable pub add_user : ℕ → Option ℕ → World → World
  unfolding remove_user add_user_to
  add_user u dev w =
      if same_dev (w.user u).dev dev
      then w
      else add_to u dev (if is_linked (w.user u).dev then remove_user u w else w)

  -- set_device_state
  unfoldable pub set_device_state : ℕ → Bool → World → ℤ × World
  unfolding set_ifindex
  set_device_state d true w =
      let v = set_ifindex env d (if_resolve d w) w in
      if (v.device d).ifindex == 0
      then (negsuc 0, v)
      else (pos 0, record v { syscalls = v.syscalls ++ if_up d ∷ [] })
  set_device_state d false w = (pos 0, record w { syscalls = w.syscalls ++ if_down d ∷ [] })

  -- `pdev` of `simple_device_set_state`: the parent, which is looked for when there is none yet.
  unfoldable pub find_parent : ℕ → Bool → World → Option ℕ × World
  unfolding add_user
  find_parent d state w =
      let dev = (w.user (w.device d).parent).dev in
      if state && not (is_linked dev)
      then (let (pdev, v) = if_get_parent d w in
          (pdev, if is_linked pdev then add_user (v.device d).parent pdev v else v))
      else (dev, w)

  -- simple_device_set_state
  unfoldable pub simple_set_state : ℕ → Bool → World → ℤ × World
  unfolding find_parent set_device_state device_claim device_release
  simple_set_state d state w =
      let (pdev, v) = find_parent d state w in
      let parent = (v.device d).parent in
      if is_linked pdev
      then (let (ret, x) =
            if state then device_claim env parent v else (pos 0, device_release env parent v) in
          if is_negative ret then (ret, x) else set_device_state d state x)
      else set_device_state d state v

  -- simple_device_free, but for the release of the memory.
  unfoldable pub simple_device_free : ℕ → World → World
  unfolding remove_user
  simple_device_free d w =
      if is_linked (w.user (w.device d).parent).dev then remove_user (w.device d).parent w else w
