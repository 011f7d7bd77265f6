-- ===== src/Interface/Links.antt =====
-- interface.c: changes of an interface's devices and users keep the promise to its users.
use lede_netifd.Prelude.{
  ℕ, refl, arith, Bool, true, false, ◌&&◌, Option, none, some, List, [], ◌∷◌, Option-cases, inl,
  inr, String, if◌then◌else◌, remove,
}
use lede_netifd.Hotplug.{Event}
use lede_netifd.ProtoShell.{Cmd}
use lede_netifd.Device.State.{Event as DeviceEvent}
use lede_netifd.Interface.State.{World, Env, put, main_dev, ext_dev, l3_dev, same_device}
use lede_netifd.Interface.Contract.{Guarantee, Inv, Inv-Near, put_same-Inv}
use lede_netifd.Interface.Events.{set_ip, interface_down}
use lede_netifd.Interface.Ops.{
  set_up, set_available, change_l3_dev, set_l3_dev, adopt_l3_dev, set_main_dev, drop_external,
  main_dev_cb, l3_dev_cb, add_user, leave_users, leave_parent, alias_cb, remove_link, new_main_link,
  add_link, handle_found_link, handle_link, set_down, set_down_all, start_pending,
}
use lede_netifd.Interface.Keeps.{
  set_ip-Inv, proto_event-Inv, set_enabled-Inv, set_link_state-Inv, interface_down-Inv, set_up-Inv,
  set_available-Inv,
}

module _ (env : Env) (g : Guarantee env) where
  change_l3_dev-Inv :
      (i : ℕ) (d : Option ℕ) (b c : Bool) (w : World) → Inv w → Inv (change_l3_dev env i d b c w)
  unfolding change_l3_dev
  change_l3_dev-Inv i d b c w v =
      let f = env.ip_flush i (set_ip env i false w) in
      let x = env.add_user l3_dev i d f in
      let p =
        g.add_user l3_dev i d f
          ((g.calm i).quiet.ip_flush (set_ip env i false w) (set_ip-Inv env g i false w v)) in
      let q = g.claim l3_dev i x p in
      ground
        (arith, p, q, set_ip-Inv env g i b x p, set_ip-Inv env g i b (env.claim l3_dev i x).1 q)

  pub set_l3_dev-Inv : (i : ℕ) (d : Option ℕ) (w : World) → Inv w → Inv (set_l3_dev env i d w)
  unfolding set_l3_dev
  set_l3_dev-Inv i d w v =
      ground
        (arith, v, change_l3_dev-Inv i d (w.iface i).config_ip_enabled (w.iface i).l3_claimed w v)

  adopt_l3_dev-Inv : (i : ℕ) (d : Option ℕ) (w : World) → Inv w → Inv (adopt_l3_dev env i d w)
  unfolding adopt_l3_dev
  adopt_l3_dev-Inv i d w v = ground (arith, v, set_l3_dev-Inv i d w v)

  pub set_main_dev-Inv : (i : ℕ) (d : Option ℕ) (w : World) → Inv w → Inv (set_main_dev env i d w)
  unfolding set_main_dev
  set_main_dev-Inv i d w v =
      let x = env.add_user main_dev i d (set_available env i false w) in
      let p =
        g.add_user main_dev i d (set_available env i false w)
          (set_available-Inv env g i false w v) in
      let q = g.claim l3_dev i x p in
      ground (
        arith,
        v,
        p,
        q,
        set_link_state-Inv env g i false x p,
        adopt_l3_dev-Inv i d x p,
        adopt_l3_dev-Inv i d (env.claim l3_dev i x).1 q,
      )

  drop_external-Inv : (i : ℕ) (w : World) → Inv w → Inv (drop_external env i w)
  unfolding drop_external
  drop_external-Inv i w v = elim (Option-cases (w.iface i).main_dev) [
    | inl e ↦ rw (drop_external, e) v
    | inr (d, e) ↦ rw (drop_external, e) (ground (arith, v, set_main_dev-Inv i none w v))
  ]

  pub main_dev_cb-Inv : (i : ℕ) (e : DeviceEvent) (w : World) → Inv w → Inv (main_dev_cb env i e w)
  unfolding main_dev_cb
  main_dev_cb-Inv i DeviceEvent.add w v = set_available-Inv env g i true w v
  main_dev_cb-Inv i DeviceEvent.removed w v =
      drop_external-Inv i (set_available env i false w) (set_available-Inv env g i false w v)
  main_dev_cb-Inv i DeviceEvent.up w v = set_enabled-Inv env g i true w v
  main_dev_cb-Inv i DeviceEvent.down w v = set_enabled-Inv env g i false w v
  main_dev_cb-Inv i DeviceEvent.link_up w v = set_link_state-Inv env g i true w v
  main_dev_cb-Inv i DeviceEvent.link_down w v = set_link_state-Inv env g i false w v
  main_dev_cb-Inv i DeviceEvent.topo_change w v = proto_event-Inv env g i Cmd.renew false w v
  main_dev_cb-Inv i _ w v = v

  pub l3_dev_cb-Inv : (i : ℕ) (e : DeviceEvent) (w : World) → Inv w → Inv (l3_dev_cb env i e w)
  unfolding l3_dev_cb
  l3_dev_cb-Inv i DeviceEvent.link_down w v =
      ground (arith, v, proto_event-Inv env g i Cmd.teardown false w v)
  l3_dev_cb-Inv i _ w v = v

  all_users-Inv : (us : List ℕ) (w : World) → Inv w → Inv (record w { all_users = us })
  all_users-Inv us w v = record { good = v.good }

  pub add_user-Inv : (u : ℕ) (p : Option ℕ) (w : World) → Inv w → Inv (add_user env u p w)
  unfolding add_user
  add_user-Inv u none w v = all_users-Inv (u ∷ w.all_users) w v
  add_user-Inv u (some i) w v =
      let x = record (w.iface i) { users = u ∷ (w.iface i).users } in
      let p = put_same-Inv i x w (refl, refl, refl) v in
      ground (arith, p, (g.calm i).user_cb u Event.up (put i x w) p)

  leave_users-Inv : (u : ℕ) (p : Option ℕ) (w : World) → Inv w → Inv (leave_users env u p w)
  unfolding leave_users
  leave_users-Inv u none w v = v
  leave_users-Inv u (some p) w v =
      put_same-Inv p (record (w.iface p) { users = remove u (w.iface p).users }) w
        (refl, refl, refl) v

  pub leave_parent-Inv : (i : ℕ) (w : World) → Inv w → Inv (leave_parent env i w)
  unfolding leave_parent
  leave_parent-Inv i w v =
      let t = leave_users env (env.parent_user i) (w.iface i).parent w in
      put_same-Inv i (record (t.iface i) { parent = none }) t (refl, refl, refl)
        (leave_users-Inv (env.parent_user i) (w.iface i).parent w v)

  pub alias_cb-Inv : (a i : ℕ) (e : Event) (w : World) → Inv w → Inv (alias_cb env a i e w)
  unfolding alias_cb
  alias_cb-Inv a i Event.up w v =
      let d = (w.iface i).l3_dev in
      ground (
        arith,
        v,
        set_available-Inv env g a true (set_main_dev env a d w) (set_main_dev-Inv a d w v),
      )
  alias_cb-Inv a i Event.down w v =
      set_main_dev-Inv a none (set_available env a false w) (set_available-Inv env g a false w v)
  alias_cb-Inv a i Event.free w v = leave_parent-Inv a w v
  alias_cb-Inv a i _ w v = v

  remove_link-Inv : (i d : ℕ) (w : World) → Inv w → Inv (remove_link env i d w).1
  unfolding remove_link
  remove_link-Inv i d w v =
      let x =
        if same_device (some d) (w.iface i).ext_dev then env.add_user ext_dev i none w else w in
      let p : Inv x = ground (arith, v, g.add_user ext_dev i none w v) in
      elim (Option-cases (w.iface i).main_dev) [
        | inl e ↦ rw (remove_link, e) (ground (arith, p, set_main_dev-Inv i none x p))
        | inr (m, e) ↦
            rw (remove_link, e)
              (ground (arith, p, set_main_dev-Inv i none x p, g.hotplug_del m d w v))
      ]

  new_main_link-Inv : (i d : ℕ) (b : Bool) (w : World) → Inv w → Inv (new_main_link env i d b w)
  unfolding new_main_link
  new_main_link-Inv i d b w v =
      let x = if b then env.add_user ext_dev i (some d) w else w in
      let p : Inv x = ground (arith, v, g.add_user ext_dev i (some d) w v) in
      let t = set_main_dev env i (some d) x in
      put_same-Inv i (record (t.iface i) { main_hotplug = true }) t (refl, refl, refl)
        (set_main_dev-Inv i (some d) x p)

  add_link-Inv : (i d : ℕ) (b : Bool) (w : World) → Inv w → Inv (add_link env i d b w).1
  unfolding add_link
  add_link-Inv i d b w v =
      let x = if (w.iface i).main_hotplug then env.add_user main_dev i none w else w in
      let p : Inv x = ground (arith, v, g.add_user main_dev i none w v) in
      elim (Option-cases (w.iface i).main_dev) [
        | inl e ↦ rw (add_link, e) (ground (arith, v, new_main_link-Inv i d b x p))
        | inr (m, e) ↦ rw (add_link, e) (ground (arith, v, p, g.hotplug_add m d x p))
      ]

  handle_found_link-Inv :
      (i : ℕ) (d : Option ℕ) (add ext : Bool) (w : World)
      → Inv w
      → Inv (handle_found_link env i d add ext w).1
  unfolding handle_found_link
  handle_found_link-Inv i none add ext w v = v
  handle_found_link-Inv i (some d) true ext w v =
      let x = env.set_device_config i d w in
      let p = g.set_device_config i d w v in
      add_link-Inv i d ext (env.device_set_present d x) (g.device_set_present d x p)
  handle_found_link-Inv i (some d) false ext w v = remove_link-Inv i d w v

  pub handle_link-Inv :
      (i : ℕ) (name : String) (add ext : Bool) (w : World)
      → Inv w
      → Inv (handle_link env i name add ext w).1
  unfolding handle_link
  handle_link-Inv i name add ext w v =
      let create = if add then (if ext then 2 else 1) else 0 in
      let r = env.device_get name create (env.lock w) in
      let p = g.device_get name create (env.lock w) (g.lock w v) in
      g.unlock (handle_found_link env i r.0 add ext r.1).1
        (handle_found_link-Inv i r.0 add ext r.1 p)

  pub set_down-Inv : (i : ℕ) (w : World) → Inv w → Inv (set_down env i w)
  unfolding set_down
  set_down-Inv i w v =
      let x = record (w.iface i) { autostart = false } in
      let p = put_same-Inv i x w (refl, refl, refl) v in
      interface_down-Inv env g i false (put i x w) (Inv-Near i (put i x w) p)

  pub set_down_all-Inv : (is : List ℕ) (w : World) → Inv w → Inv (set_down_all env is w)
  unfolding set_down_all
  set_down_all-Inv [] w v = v
  set_down_all-Inv (i ∷ is) w v =
      set_down_all-Inv is (interface_down env i false w)
        (interface_down-Inv env g i false w (Inv-Near i w v))

  pub start_pending-Inv : (is : List ℕ) (w : World) → Inv w → Inv (start_pending env is w)
  unfolding start_pending
  start_pending-Inv [] w v = v
  start_pending-Inv (i ∷ is) w v =
      start_pending-Inv is
        (if (w.iface i).available && (w.iface i).autostart then (set_up env i w).1 else w)
        (ground (arith, v, set_up-Inv env g i w v))
