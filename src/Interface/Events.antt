-- ===== src/Interface/Events.antt =====
-- interface.c: telling the users of an interface, and taking an interface down or up.
use lede_netifd.Prelude.{
  ℕ, Bool, true, false, not, ◌&&◌, ◌||◌, none, some, List, [], ◌∷◌, ◌++◌, if◌then◌else◌, ℤ, negsuc,
  is_nonzero,
}
use lede_netifd.Hotplug.{Event}
use lede_netifd.ProtoShell.{ProtoEvent, Cmd}
use lede_netifd.Interface.State.{IfaceState, main_dev, l3_dev, World, Env, put, is_some}
use lede_netifd.Interface.Errors.{error_flush}

abbrev pub is_up : IfaceState → Bool
is_up IfaceState.up = true
is_up _ = false

abbrev pub is_down : IfaceState → Bool
is_down IfaceState.down = true
is_down _ = false

abbrev pub is_running : IfaceState → Bool
is_running IfaceState.up = true
is_running IfaceState.setup = true
is_running _ = false

abbrev pub same_bool : Bool → Bool → Bool
same_bool true b = b
same_bool false b = not b

abbrev pub set_state : ℕ → IfaceState → World → World
set_state i st w = put i (record (w.iface i) { state = st }) w

-- Keeps in `told` what the users are told.
abbrev pub note : ℕ → Event → World → World
note i ev w = put i (record (w.iface i) { told = (w.iface i).told ++ ev ∷ [] }) w

module _ (env : Env) where
  -- list_for_each_entry_safe: a callback takes at most its own user off the list.
  unfoldable pub call_users : ℕ → Event → List ℕ → World → World
  call_users i ev [] w = w
  call_users i ev (u ∷ us) w = call_users i ev us (env.user_cb u i ev w)

  unfoldable pub after_event : ℕ → Event → World → World
  after_event i Event.up w =
      let v = put i (error_flush (w.iface i)) w in env.alias_notify i (v.iface i).l3_dev v
  after_event i Event.down w = env.alias_notify i none w
  after_event i _ w = w

  -- interface_event
  unfoldable pub interface_event : ℕ → Event → World → World
  interface_event i ev w =
      let v = note i ev w in
      let v1 = call_users i ev (v.iface i).users v in
      after_event i ev (call_users i ev v1.all_users v1)

  -- interface_ip_set_enabled of the configured settings and of the protocol's.
  unfoldable pub set_config_ip : ℕ → Bool → World → World
  set_config_ip i b w =
      env.config_ip_set i b (put i (record (w.iface i) { config_ip_enabled = b }) w)

  unfoldable pub set_proto_ip : ℕ → Bool → World → World
  set_proto_ip i b w = env.proto_ip_set i b (put i (record (w.iface i) { proto_ip_enabled = b }) w)

  unfoldable pub set_ip : ℕ → Bool → World → World
  set_ip i b w = set_proto_ip i b (set_config_ip i b w)

  -- interface_data_flush
  abbrev pub data_flush : ℕ → World → World
  data_flush i w = put i (record (w.iface i) { values = [] }) w

  -- interface_flush_state
  unfoldable pub flush_state : ℕ → World → World
  flush_state i w = data_flush i (if is_some (w.iface i).l3_dev then env.release l3_dev i w else w)

  unfoldable pub take_down : ℕ → World → World
  take_down i w =
      let v = put i (record (w.iface i) { link_up_event = false; state = IfaceState.down }) w in
      let t = if is_up (w.iface i).state then interface_event i Event.down v else v in
      env.flush_routes (flush_state i (env.ip_flush i (set_ip i false t)))

  -- mark_interface_down
  unfoldable pub mark_interface_down : ℕ → World → World
  mark_interface_down i w = if is_down (w.iface i).state then w else take_down i w

  abbrev pub immediate_event : Cmd → ProtoEvent
  immediate_event Cmd.setup = ProtoEvent.up
  immediate_event Cmd.teardown = ProtoEvent.down
  immediate_event Cmd.renew = ProtoEvent.renew

  -- interface_proto_event of proto.c for the running protocol `p`.
  unfoldable pub running_proto_event : ℕ → ℕ → Cmd → Bool → World → ℤ × World
  running_proto_event p i cmd force w =
      let (ret, v) = env.proto_cb i cmd force w in
      (
        ret,
        if is_nonzero ret || not (env.flags p).immediate
            then v
            else env.proto_event i (immediate_event cmd) v,
      )

  -- interface_proto_event of `iface->proto`, which the source takes not to be NULL.
  unfoldable pub proto_event : ℕ → Cmd → Bool → World → ℤ × World
  proto_event i cmd force w = elim (w.iface i).proto [
    | none ↦ (negsuc 0, w)
    | some p ↦ running_proto_event p i cmd force w
  ]

  -- The case of __interface_set_down in IFS_UP and IFS_SETUP.
  unfoldable pub stop : ℕ → Bool → World → World
  stop i force w =
      let v = set_state i IfaceState.teardown w in
      let t = if is_up (w.iface i).state then interface_event i Event.down v else v in
      let u = (proto_event i Cmd.teardown force t).1 in if force then flush_state i u else u

  -- __interface_set_down
  unfoldable pub set_down_state : IfaceState → ℕ → Bool → World → World
  set_down_state IfaceState.up i force w = stop i force w
  set_down_state IfaceState.setup i force w = stop i force w
  set_down_state IfaceState.down i force w =
      if is_some (w.iface i).main_dev then env.release main_dev i w else w
  set_down_state IfaceState.teardown i force w = w

  unfoldable pub interface_down : ℕ → Bool → World → World
  interface_down i force w = set_down_state (w.iface i).state i force w

  -- __interface_set_up
  unfoldable pub interface_up : ℕ → World → ℤ × World
  interface_up i w =
      let (ret, v) = proto_event i Cmd.setup false (set_state i IfaceState.setup w) in
      (ret, if is_nonzero ret then mark_interface_down i v else v)

  unfoldable pub check_state : IfaceState → ℕ → World → World
  check_state IfaceState.down i w =
      let x = w.iface i in
      if not x.available
      then w
      else if x.autostart && (x.enabled && ((x.link_state || x.force_link) && not w.config_init))
      then (interface_up i w).1
      else w
  check_state IfaceState.teardown i w = w
  check_state _ i w =
      let x = w.iface i in
      if not x.enabled || not (x.link_state || x.force_link)
      then mark_interface_down i (proto_event i Cmd.teardown false w).1
      else w

  -- interface_check_state
  unfoldable pub interface_check_state : ℕ → World → World
  interface_check_state i w = check_state (w.iface i).state i w
