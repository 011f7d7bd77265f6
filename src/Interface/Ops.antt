-- ===== src/Interface/Ops.antt =====
-- interface.c: what devices, protocols and the ubus interface do to an interface.
use lede_netifd.Prelude.{
  ℕ, Bool, true, false, not, ◌&&◌, Option, none, some, List, [], ◌∷◌, if◌then◌else◌, ℤ, pos, negsuc,
  is_nonzero, is_negative, String, remove,
}
use lede_netifd.Hotplug.{Event}
use lede_netifd.ProtoShell.{Cmd}
use lede_netifd.Device.State.{Event as DeviceEvent}
use lede_netifd.Interface.State.{
  IfaceError, main_dev, ext_dev, l3_dev, Iface, World, Env, put, is_some, same_device,
}
use lede_netifd.Interface.Errors.{clear_errors, add_error}
use lede_netifd.Interface.Events.{
  is_up, is_down, same_bool, interface_event, set_ip, proto_event, interface_down, interface_up,
  interface_check_state,
}

-- UBUS_STATUS_INVALID_ARGUMENT, UBUS_STATUS_NOT_FOUND, UBUS_STATUS_NOT_SUPPORTED
abbrev invalid_argument : ℤ
invalid_argument = pos 2

abbrev not_found : ℤ
not_found = pos 4

abbrev not_supported : ℤ
not_supported = pos 8

abbrev pub no_device_error : IfaceError
no_device_error = record { subsystem = "interface"; code = "NO_DEVICE"; details = [] }

module _ (env : Env) where
  -- interface_set_enabled
  unfoldable pub set_enabled : ℕ → Bool → World → World
  set_enabled i b w =
      if same_bool (w.iface i).enabled b
      then w
      else interface_check_state env i (put i (record (w.iface i) { enabled = b }) w)

  -- The end of interface_set_link_state.
  unfoldable pub tell_link_up : ℕ → Bool → World → World
  tell_link_up i b w =
      let v = interface_event env i Event.link_up w in
      let x = w.iface i in
      if b && (x.force_link && (is_up x.state && not x.link_up_event))
      then put i (record (v.iface i) { link_up_event = true }) v
      else w

  -- interface_set_link_state
  unfoldable pub set_link_state : ℕ → Bool → World → World
  set_link_state i b w =
      if same_bool (w.iface i).link_state b
      then w
      else tell_link_up i b
          (interface_check_state env i (put i (record (w.iface i) { link_state = b }) w))

  -- The end of interface_set_up, from the claim of the main device on.
  unfoldable pub claim_and_start : ℕ → World → ℤ × World
  claim_and_start i w =
      let (ret, v) = env.claim main_dev i w in
      if is_some (w.iface i).main_dev
      then (ret, if is_nonzero ret then v else interface_check_state env i v)
      else interface_up env i w

  -- interface_set_up of an interface that is down, which has become `y` by now.
  unfoldable pub set_up_down : ℕ → Iface → World → ℤ × World
  set_up_down i y w =
      if not y.available
      then (negsuc 0, put i (add_error env.flags no_device_error y) w)
      else claim_and_start i (put i y w)

  -- interface_set_up
  unfoldable pub set_up : ℕ → World → ℤ × World
  set_up i w =
      let x = record (w.iface i) { autostart = true } in
      if not (is_down x.state)
      then (pos 0, put i x w)
      else set_up_down i (clear_errors env.flags x) w

  -- interface_set_available
  unfoldable pub set_available : ℕ → Bool → World → World
  set_available i b w =
      if same_bool (w.iface i).available b
      then w
      else let v = put i (record (w.iface i) { available = b }) w in
        if b
        then (if (v.iface i).autostart && not v.config_init then (set_up i v).1 else v)
        else interface_down env i true v

  -- interface_set_l3_dev, from the change of the device on.
  unfoldable pub change_l3_dev : ℕ → Option ℕ → Bool → Bool → World → World
  change_l3_dev i dev enabled claimed w =
      let v = env.add_user l3_dev i dev (env.ip_flush i (set_ip env i false w)) in
      let (ret, c) = env.claim l3_dev i v in
      if not (is_some dev)
      then v
      else if not claimed
      then set_ip env i enabled v
      else if is_negative ret
      then c
      else set_ip env i enabled c

  -- interface_set_l3_dev
  unfoldable pub set_l3_dev : ℕ → Option ℕ → World → World
  set_l3_dev i dev w =
      if same_device (w.iface i).l3_dev dev
      then w
      else change_l3_dev i dev (w.iface i).config_ip_enabled (w.iface i).l3_claimed w

  -- The end of interface_set_main_dev.
  unfoldable pub adopt_l3_dev : ℕ → Option ℕ → World → World
  adopt_l3_dev i dev w = if is_some (w.iface i).l3_dev then w else set_l3_dev i dev w

  -- interface_set_main_dev
  unfoldable pub set_main_dev : ℕ → Option ℕ → World → World
  set_main_dev i dev w =
      let claimed = (w.iface i).l3_claimed in
      let v = env.add_user main_dev i dev (set_available i false w) in
      let (ret, c) = env.claim l3_dev i v in
      if same_device (w.iface i).main_dev dev
      then w
      else if not (is_some dev)
      then set_link_state i false v
      else if not claimed
      then adopt_l3_dev i dev v
      else if is_negative ret
      then c
      else adopt_l3_dev i dev c

  -- The removal of an external device leaves the interface without its main device.
  unfoldable pub drop_external : ℕ → World → World
  drop_external i w = elim (w.iface i).main_dev [
    | none ↦ w
    | some d ↦ if env.is_external d then set_main_dev i none w else w
  ]

  -- interface_main_dev_cb
  unfoldable pub main_dev_cb : ℕ → DeviceEvent → World → World
  main_dev_cb i DeviceEvent.add w = set_available i true w
  main_dev_cb i DeviceEvent.removed w = drop_external i (set_available i false w)
  main_dev_cb i DeviceEvent.up w = set_enabled i true w
  main_dev_cb i DeviceEvent.down w = set_enabled i false w
  main_dev_cb i DeviceEvent.link_up w = set_link_state i true w
  main_dev_cb i DeviceEvent.link_down w = set_link_state i false w
  main_dev_cb i DeviceEvent.topo_change w = (proto_event env i Cmd.renew false w).1
  main_dev_cb i _ w = w

  -- interface_l3_dev_cb
  unfoldable pub l3_dev_cb : ℕ → DeviceEvent → World → World
  l3_dev_cb i DeviceEvent.link_down w =
      if same_device (w.iface i).l3_dev (w.iface i).main_dev
      then w
      else if (env.flags (w.iface i).proto_handler).teardown_on_l3_link_down
      then (proto_event env i Cmd.teardown false w).1
      else w
  l3_dev_cb i _ w = w

  -- interface_add_user; `iface` is NULL for a user of all interfaces.
  unfoldable pub add_user : ℕ → Option ℕ → World → World
  add_user u none w = record w { all_users = u ∷ w.all_users }
  add_user u (some i) w =
      let v = put i (record (w.iface i) { users = u ∷ (w.iface i).users }) w in
      if is_up (w.iface i).state then env.user_cb u i Event.up v else v

  unfoldable pub leave_users : ℕ → Option ℕ → World → World
  leave_users u none w = w
  leave_users u (some p) w = put p (record (w.iface p) { users = remove u (w.iface p).users }) w

  -- interface_remove_user of the member `parent_iface` of `i`, which is a user of its parent.
  unfoldable pub leave_parent : ℕ → World → World
  leave_parent i w =
      let v = leave_users (env.parent_user i) (w.iface i).parent w in
      put i (record (v.iface i) { parent = none }) v

  -- interface_alias_cb, for the alias `a` of the interface `i`.
  unfoldable pub alias_cb : ℕ → ℕ → Event → World → World
  alias_cb a i Event.up w =
      if is_some (w.iface i).l3_dev
      then set_available a true (set_main_dev a (w.iface i).l3_dev w)
      else w
  alias_cb a i Event.down w = set_main_dev a none (set_available a false w)
  alias_cb a i Event.free w = leave_parent a w
  alias_cb a i _ w = w

  -- interface_remove_link
  unfoldable pub remove_link : ℕ → ℕ → World → ℤ × World
  remove_link i dev w =
      let v =
        if same_device (some dev) (w.iface i).ext_dev then env.add_user ext_dev i none w else w in
      let plain =
        if not (v.iface i).main_hotplug
        then (invalid_argument, v)
        else if not (same_device (some dev) (v.iface i).main_dev)
        then (invalid_argument, v)
        else (pos 0, set_main_dev i none v) in
      elim (w.iface i).main_dev [
        | none ↦ plain
        | some m ↦ if env.has_hotplug_ops m then env.hotplug_del m dev w else plain
      ]

  -- interface_add_link, where the main device is to be set.
  unfoldable pub new_main_link : ℕ → ℕ → Bool → World → World
  new_main_link i dev link_ext w =
      let v =
        set_main_dev i (some dev) (if link_ext then env.add_user ext_dev i (some dev) w else w) in
      put i (record (v.iface i) { main_hotplug = true }) v

  -- interface_add_link
  unfoldable pub add_link : ℕ → ℕ → Bool → World → ℤ × World
  add_link i dev link_ext w =
      let v = if (w.iface i).main_hotplug then env.add_user main_dev i none w else w in
      if same_device (w.iface i).main_dev (some dev)
      then (pos 0, w)
      else elim (w.iface i).main_dev [
        | none ↦ (pos 0, new_main_link i dev link_ext v)
        | some m ↦ if env.has_hotplug_ops m then env.hotplug_add m dev v else (not_supported, v)
      ]

  unfoldable pub handle_found_link : ℕ → Option ℕ → Bool → Bool → World → ℤ × World
  handle_found_link i none add link_ext w = (not_found, w)
  handle_found_link i (some d) add link_ext w =
      if add
      then add_link i d link_ext (env.device_set_present d (env.set_device_config i d w))
      else remove_link i d w

  -- interface_handle_link
  unfoldable pub handle_link : ℕ → String → Bool → Bool → World → ℤ × World
  handle_link i name add link_ext w =
      let create = if add then (if link_ext then 2 else 1) else 0 in
      let (dev, v) = env.device_get name create (env.lock w) in
      let (ret, t) = handle_found_link i dev add link_ext v in (ret, env.unlock t)

  -- interface_set_down, of one interface and of all.
  unfoldable pub set_down : ℕ → World → World
  set_down i w = interface_down env i false (put i (record (w.iface i) { autostart = false }) w)

  unfoldable pub set_down_all : List ℕ → World → World
  set_down_all [] w = w
  set_down_all (i ∷ is) w = set_down_all is (interface_down env i false w)

  -- interface_start_pending
  unfoldable pub start_pending : List ℕ → World → World
  start_pending [] w = w
  start_pending (i ∷ is) w =
      start_pending is
        (if (w.iface i).available && (w.iface i).autostart then (set_up i w).1 else w)
