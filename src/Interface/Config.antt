-- ===== src/Interface/Config.antt =====
-- interface.c: events of the running protocol, and what becomes of an interface whose configuration
-- has changed.
use lede_netifd.Prelude.{
  ℕ, Bool, true, false, not, ◌&&◌, Option, none, some, List, [], ◌∷◌, ◌==◌, if◌then◌else◌, ℤ, pos,
  is_nonzero, String, remove,
}
use lede_netifd.Hotplug.{Event}
use lede_netifd.ProtoShell.{ProtoEvent}
use lede_netifd.Interface.State.{
  IfaceState, ConfigState, main_dev, ext_dev, l3_dev, Iface, World, Env, put, is_some, same_device,
}
use lede_netifd.Interface.Errors.{clear_errors, add_data}
use lede_netifd.Interface.Events.{
  is_up, is_down, set_state, interface_event, set_ip, flush_state, mark_interface_down,
  interface_down,
}
use lede_netifd.Interface.Ops.{
  set_available, set_main_dev, set_l3_dev, set_up, add_user, leave_parent,
}

module _ (env : Env) where
  -- interface_set_proto_state; `proto->free` is the protocol's own.
  unfoldable pub set_proto_state : ℕ → Option ℕ → World → World
  set_proto_state i new w =
      let v = if is_some (w.iface i).proto then env.proto_free i w else w in
      put i (record (v.iface i) { state = IfaceState.down; proto = new }) v

  -- proto_init_interface of proto.c: a handler that cannot attach is replaced by one that fails.
  unfoldable pub init_proto : ℕ → World → World
  init_proto i w =
      let v = env.proto_attach i w in set_proto_state i (some (w.iface i).proto_handler) v

  -- interface_cleanup_state
  unfoldable pub cleanup_state : ℕ → World → World
  cleanup_state i w =
      let v = flush_state env i (set_available env i false w) in
      let t = set_proto_state i none (put i (clear_errors env.flags (v.iface i)) v) in
      set_l3_dev env i none (set_main_dev env i none t)

  -- The users of a removed interface have no interface.
  abbrev pub forget : ℕ → Iface → Iface
  forget i x = if same_device x.parent (some i) then record x { parent = none } else x

  unfoldable pub drop_users : ℕ → World → World
  drop_users i w =
      let v = record w { iface = λ j. forget i (w.iface j) } in
      put i (record (v.iface i) { users = [] }) v

  -- interface_cleanup, but for the classes of prefixes and the timer.
  unfoldable pub cleanup : ℕ → World → World
  cleanup i w =
      let v = env.add_user ext_dev i none w in
      let t = if is_some (v.iface i).parent then leave_parent env i v else v in
      cleanup_state i (env.ip_flush i (drop_users i t))

  -- interface_do_free
  unfoldable pub do_free : ℕ → World → World
  do_free i w =
      let v = env.ubus_remove i (cleanup i (interface_event env i Event.free w)) in
      record v { order = remove i v.order }

  unfoldable pub found_device : ℕ → Option ℕ → World → World
  found_device i none w = w
  found_device i (some d) w = set_main_dev env i (some d) w

  unfoldable pub named_device : ℕ → Option ℕ × World → World
  named_device i (none, w) = w
  named_device i (some d, w) = set_main_dev env i (some d) (env.set_device_config i d w)

  -- The choice of the device in interface_claim_device.
  unfoldable pub claim_by_name : Option String → Option String → ℕ → World → World
  claim_by_name (some parent) ifname i w =
      let p = env.find_parent parent w in
      add_user env (env.parent_user i) p (put i (record (w.iface i) { parent = p }) w)
  claim_by_name none (some name) i w =
      if (env.flags (w.iface i).proto_handler).no_device
      then found_device i (w.iface i).ext_dev w
      else named_device i (env.device_get name 1 w)
  claim_by_name none none i w = found_device i (w.iface i).ext_dev w

  -- interface_claim_device
  unfoldable pub claim_device : ℕ → World → World
  claim_device i w =
      let v = env.lock (if is_some (w.iface i).parent then leave_parent env i w else w) in
      let t = env.unlock (claim_by_name (w.iface i).parent_ifname (w.iface i).ifname i v) in
      if (env.flags (t.iface i).proto_handler).init_available then set_available env i true t else t

  -- interface_do_reload
  unfoldable pub do_reload : ℕ → World → World
  do_reload i w =
      claim_device i (init_proto i (cleanup_state i (interface_event env i Event.reload w)))

  abbrev pub set_config : ℕ → ConfigState → World → World
  set_config i c w = put i (record (w.iface i) { config_state = c }) w

  -- set_config_state(iface, IFC_REMOVE)
  unfoldable pub remove_config : ℕ → World → World
  remove_config i w =
      let v = set_config i ConfigState.remove w in
      if is_down (w.iface i).state
      then do_free i (set_config i ConfigState.normal v)
      else interface_down env i false v

  -- The end of interface_handle_config_change.
  unfoldable pub after_change : ℕ → World → World
  after_change i w =
      if (w.iface i).autostart && (w.iface i).available
      then (set_up env i w).1
      else if (w.iface i).dynamic
      then remove_config i w
      else w

  unfoldable pub change_to : ConfigState → ℕ → World → World
  change_to ConfigState.normal i w = after_change i w
  change_to ConfigState.reload i w = after_change i (do_reload i w)
  change_to ConfigState.remove i w = do_free i w

  -- interface_handle_config_change
  unfoldable pub handle_config_change : ℕ → World → World
  handle_config_change i w =
      change_to (w.iface i).config_state i (set_config i ConfigState.normal w)

  -- set_config_state
  unfoldable pub set_config_state : ℕ → ConfigState → World → World
  set_config_state i c w =
      let v = set_config i c w in
      if is_down (w.iface i).state then handle_config_change i v else interface_down env i false v

  -- The case IFPEV_UP of interface_proto_event_cb in IFS_SETUP, but for the resolv.conf.
  unfoldable pub proto_up : ℕ → World → World
  proto_up i w =
      let v = if is_some (w.iface i).l3_dev then w else set_l3_dev env i (w.iface i).main_dev w in
      let t = env.flush_routes (set_ip env i true v) in
      interface_event env i Event.up (set_state i IfaceState.up t)

  -- The case IFPEV_DOWN.
  unfoldable pub proto_down : ℕ → World → World
  proto_down i w =
      let v = mark_interface_down env i w in
      let t = if is_some (v.iface i).main_dev then env.release main_dev i v else v in
      let u = if is_some (t.iface i).l3_dev then env.add_user l3_dev i none t else t in
      handle_config_change i u

  -- The case IFPEV_LINK_LOST.
  unfoldable pub proto_link_lost : ℕ → World → World
  proto_link_lost i w = set_state i IfaceState.setup (mark_interface_down env i w)

  -- The branch of IFPEV_UP outside IFS_SETUP.
  unfoldable pub proto_updated : ℕ → World → World
  proto_updated i w =
      if is_up (w.iface i).state && not ((w.iface i).updated == 0)
      then interface_event env i Event.updated w
      else w

  abbrev pub is_setup : IfaceState → Bool
  is_setup IfaceState.setup = true
  is_setup _ = false

  -- interface_proto_event_cb
  unfoldable pub proto_event_cb : ℕ → ProtoEvent → World → World
  proto_event_cb i ProtoEvent.up w =
      if is_setup (w.iface i).state then env.write_resolv_conf (proto_up i w) else proto_updated i w
  proto_event_cb i ProtoEvent.down w =
      if is_down (w.iface i).state then w else env.write_resolv_conf (proto_down i w)
  proto_event_cb i ProtoEvent.link_lost w =
      if is_up (w.iface i).state then env.write_resolv_conf (proto_link_lost i w) else w
  proto_event_cb i ProtoEvent.renew w = w

  -- The loop of interface_parse_data, over attributes of which the first component is their
  -- well-formedness; it ends at the first that is not.
  unfoldable pub add_all_data : List (Bool × String × String) → ℕ → World → ℤ × World
  add_all_data [] i w = (pos 0, w)
  add_all_data ((valid, k, v) ∷ as') i w =
      let rest = add_all_data as' i (put i (add_data k v (w.iface i)) w) in
      if valid then rest else (pos 2, w)

  -- interface_parse_data
  unfoldable pub parse_data : List (Bool × String × String) → ℕ → World → ℤ × World
  parse_data attrs i w =
      let (ret, v) = add_all_data attrs i (put i (record (w.iface i) { updated = 0 }) w) in
      (ret, if is_nonzero ret then v else proto_updated i v)

  -- interface_update_start and interface_update_complete
  unfoldable pub update_start : ℕ → Bool → World → World
  update_start i keep_old w =
      let v = put i (record (w.iface i) { updated = 0 }) w in
      if keep_old then v else env.ip_update_start i v

  unfoldable pub update_complete : ℕ → World → World
  update_complete i w = env.ip_update_complete i w
