-- ===== src/Interface/Change.antt =====
-- interface.c: reloading, removing and claiming devices keep the promise to the users of an interface.
use lede_netifd.Prelude.{
  ℕ, refl, arith, Bool, true, false, Option, none, some, [], String, if◌then◌else◌,
}
use lede_netifd.Hotplug.{Event}
use lede_netifd.Interface.State.{ConfigState, World, Env, put, ext_dev, is_some}
use lede_netifd.Interface.Contract.{Guarantee, Inv, Inv-Near, Rests, put_same-Inv, put_same-Rests}
use lede_netifd.Interface.Events.{interface_event}
use lede_netifd.Interface.Ops.{leave_users, leave_parent}
use lede_netifd.Interface.Config.{
  init_proto, cleanup_state, forget, drop_users, cleanup, do_free, found_device, named_device,
  claim_by_name, claim_device, do_reload, remove_config, after_change, change_to,
  handle_config_change, set_config_state,
}
use lede_netifd.Interface.Keeps.{
  interface_event-Inv, interface_down-Inv, set_up-Inv, set_available-Inv,
}
use lede_netifd.Interface.Links.{set_main_dev-Inv, add_user-Inv, leave_parent-Inv}
use lede_netifd.Interface.Reload.{
  event-Rests, cleanup_state_lem, note_down-Inv, set_proto_state-Inv,
}

module _ (env : Env) (g : Guarantee env) where
  forget-Inv :
      (i : ℕ) (w : World) → Inv w → Inv (record w { iface = λ j. forget env i (w.iface j) })
  forget-Inv i w v = record { good = λ j. ground (arith, v.good j) }

  drop_users-Inv : (i : ℕ) (w : World) → Inv w → Inv (drop_users env i w)
  unfolding drop_users
  drop_users-Inv i w v =
      let t = record w { iface = λ j. forget env i (w.iface j) } in
      put_same-Inv i (record (t.iface i) { users = [] }) t (refl, refl, refl) (forget-Inv i w v)

  drop_users-Rests : (i : ℕ) (b : Bool) (w : World) → Rests i b w → Rests i b (drop_users env i w)
  unfolding drop_users
  drop_users-Rests i b w r = ground arith

  leave_parent-Rests :
      (i : ℕ) (b : Bool) (w : World) → Rests i b w → Rests i b (leave_parent env i w)
  unfolding leave_parent leave_users
  leave_parent-Rests i b w r = ground arith

  cleanup-Inv : (i : ℕ) (b : Bool) (w : World) → Inv w → Rests i b w → Inv (cleanup env i w)
  unfolding cleanup
  cleanup-Inv i b w v r =
      let x = env.add_user ext_dev i none w in
      let xv = g.add_user ext_dev i none w v in
      let xr = (g.rests i b).remove ext_dev w r in
      let t = if is_some (x.iface i).parent then leave_parent env i x else x in
      let tv : Inv t = ground (arith, xv, leave_parent-Inv env g i x xv) in
      let tr : Rests i b t = ground (arith, xr, leave_parent-Rests i b x xr) in
      let d = drop_users env i t in
      (cleanup_state_lem env g i b (env.ip_flush i d)
        ((g.calm i).quiet.ip_flush d (drop_users-Inv i t tv))
        ((g.rests i b).quiet.ip_flush d (drop_users-Rests i b t tr))).0

  do_free-Inv : (i : ℕ) (b : Bool) (w : World) → Inv w → Rests i b w → Inv (do_free env i w)
  unfolding do_free
  do_free-Inv i b w v r =
      let n = note_down-Inv env g i b Event.free w v r refl in
      let e = interface_event env i Event.free w in
      let c =
        cleanup-Inv i b e (interface_event-Inv env g i Event.free w n)
          (event-Rests env g i b Event.free w r) in
      let u = g.ubus_remove i (cleanup env i e) c in record { good = u.good }

  found_device-Inv : (i : ℕ) (d : Option ℕ) (w : World) → Inv w → Inv (found_device env i d w)
  unfolding found_device
  found_device-Inv i none w v = v
  found_device-Inv i (some d) w v = set_main_dev-Inv env g i (some d) w v

  named_device-Inv : (i : ℕ) (d : Option ℕ) (w : World) → Inv w → Inv (named_device env i (d, w))
  unfolding named_device
  named_device-Inv i none w v = v
  named_device-Inv i (some d) w v =
      set_main_dev-Inv env g i (some d) (env.set_device_config i d w) (g.set_device_config i d w v)

  claim_by_name-Inv :
      (parent name : Option String) (i : ℕ) (w : World)
      → Inv w
      → Inv (claim_by_name env parent name i w)
  unfolding claim_by_name
  claim_by_name-Inv (some parent) name i w v =
      let p = env.find_parent parent w in
      let x = record (w.iface i) { parent = p } in
      add_user-Inv env g (env.parent_user i) p (put i x w) (put_same-Inv i x w (refl, refl, refl) v)
  claim_by_name-Inv none (some name) i w v =
      let d = env.device_get name 1 w in
      ground (
        arith,
        found_device-Inv i (w.iface i).ext_dev w v,
        named_device-Inv i d.0 d.1 (g.device_get name 1 w v),
      )
  claim_by_name-Inv none none i w v = found_device-Inv i (w.iface i).ext_dev w v

  pub claim_device-Inv : (i : ℕ) (w : World) → Inv w → Inv (claim_device env i w)
  unfolding claim_device
  claim_device-Inv i w v =
      let x = if is_some (w.iface i).parent then leave_parent env i w else w in
      let p : Inv x = ground (arith, v, leave_parent-Inv env g i w v) in
      let c = claim_by_name env (w.iface i).parent_ifname (w.iface i).ifname i (env.lock x) in
      let t = env.unlock c in
      let q = g.unlock c (
        claim_by_name-Inv (w.iface i).parent_ifname (w.iface i).ifname i (env.lock x)
          (g.lock x p)) in
      ground (arith, q, set_available-Inv env g i true t q)

  init_proto-Inv : (i : ℕ) (b : Bool) (w : World) → Inv w → Rests i b w → Inv (init_proto env i w)
  unfolding init_proto
  init_proto-Inv i b w v r =
      set_proto_state-Inv env g i b (some (w.iface i).proto_handler) (env.proto_attach i w)
        ((g.calm i).proto_attach w v) ((g.rests i b).proto_attach w r)

  do_reload-Inv : (i : ℕ) (b : Bool) (w : World) → Inv w → Rests i b w → Inv (do_reload env i w)
  unfolding do_reload
  do_reload-Inv i b w v r =
      let n = note_down-Inv env g i b Event.reload w v r refl in
      let e = interface_event env i Event.reload w in
      let c =
        cleanup_state_lem env g i b e (interface_event-Inv env g i Event.reload w n)
          (event-Rests env g i b Event.reload w r) in
      claim_device-Inv i (init_proto env i (cleanup_state env i e))
        (init_proto-Inv i false (cleanup_state env i e) c.0 c.1)

  remove_config-Inv : (i : ℕ) (w : World) → Inv w → Inv (remove_config env i w)
  unfolding remove_config
  remove_config-Inv i w v =
      let x = record (w.iface i) { config_state = ConfigState.remove } in
      let p = put_same-Inv i x w (refl, refl, refl) v in
      let y = record ((put i x w).iface i) { config_state = ConfigState.normal } in
      let q = put_same-Inv i y (put i x w) (refl, refl, refl) p in
      ground (
        arith,
        do_free-Inv i (w.iface i).available (put i y (put i x w)) q,
        interface_down-Inv env g i false (put i x w) (Inv-Near i (put i x w) p),
      )

  after_change-Inv : (i : ℕ) (w : World) → Inv w → Inv (after_change env i w)
  unfolding after_change
  after_change-Inv i w v = ground (arith, v, set_up-Inv env g i w v, remove_config-Inv i w v)

  change_to-Inv :
      (c : ConfigState) (i : ℕ) (b : Bool) (w : World)
      → Inv w
      → Rests i b w
      → Inv (change_to env c i w)
  unfolding change_to
  change_to-Inv ConfigState.normal i b w v r = after_change-Inv i w v
  change_to-Inv ConfigState.reload i b w v r =
      after_change-Inv i (do_reload env i w) (do_reload-Inv i b w v r)
  change_to-Inv ConfigState.remove i b w v r = do_free-Inv i b w v r

  pub handle_config_change-Inv :
      (i : ℕ) (b : Bool) (w : World) → Inv w → Rests i b w → Inv (handle_config_change env i w)
  unfolding handle_config_change
  handle_config_change-Inv i b w v r =
      let x = record (w.iface i) { config_state = ConfigState.normal } in
      change_to-Inv (w.iface i).config_state i b (put i x w)
        (put_same-Inv i x w (refl, refl, refl) v) (put_same-Rests i b i x w (refl, refl, refl) r)

  pub set_config_state-Inv :
      (i : ℕ) (c : ConfigState) (w : World) → Inv w → Inv (set_config_state env i c w)
  unfolding set_config_state
  set_config_state-Inv i c w v =
      let x = record (w.iface i) { config_state = c } in
      let p = put_same-Inv i x w (refl, refl, refl) v in
      ground (
        arith,
        handle_config_change-Inv i (w.iface i).available (put i x w) p,
        interface_down-Inv env g i false (put i x w) (Inv-Near i (put i x w) p),
      )
