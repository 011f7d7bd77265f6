-- ===== src/Interface/Tests.antt =====
-- Runs of an interface (interface.c), and the theorems at concrete interfaces.
use lede_netifd.Prelude.{
  ℕ, zero, ◌≡◌, ◌≤◌, refl, arith, true, false, none, some, List, [], ◌∷◌, pos, negsuc, length,
  if◌then◌else◌,
}
use text.Mathlib.Text.{◌==◌ as text_eq}
use lede_netifd.ProtoShell.{ProtoEvent}
use lede_netifd.Hotplug.{Event}
use lede_netifd.Device.State.{Event as DeviceEvent}
use lede_netifd.Interface.State.{Flags, Iface, IfaceState, ConfigState, IfaceError, World, Env, put}
use lede_netifd.Interface.Errors.{
  add_error, add_error-le, add_data, find_value, find_value-add_data,
}
use lede_netifd.Interface.Config.{proto_event_cb, proto_updated}
use lede_netifd.Interface.Run.{Call, main_event, protocol_event}
use lede_netifd.Interface.Classes.{
  compare_classes, finish_merge, Params, fixed, params_changed, merge_assignment_data, InUse,
  merge-InUse,
}

abbrev plain_flags : Flags
plain_flags = record {
  immediate = true;
  no_device = false;
  init_available = false;
  last_error = true;
  teardown_on_l3_link_down = false;
}

-- Code behind the pointers that does nothing.
abbrev still_env : Env
still_env = record {
  flags = λ p. plain_flags;
  is_external = λ d. false;
  has_hotplug_ops = λ d. false;
  user_cb = λ u i ev w. w;
  alias_notify = λ i d w. w;
  add_user = λ s i d w. w;
  claim = λ s i w. (pos 0, w);
  release = λ s i w. w;
  lock = λ w. w;
  unlock = λ w. w;
  device_get = λ name n w. (none, w);
  device_set_present = λ d w. w;
  set_device_config = λ i d w. w;
  hotplug_add = λ m d w. (pos 0, w);
  hotplug_del = λ m d w. (pos 0, w);
  proto_cb = λ i c f w. (pos 0, w);
  proto_event = λ i e w. w;
  proto_free = λ i w. w;
  proto_attach = λ i w. w;
  config_ip_set = λ i b w. w;
  proto_ip_set = λ i b w. w;
  ip_flush = λ i w. w;
  flush_routes = λ w. w;
  write_resolv_conf = λ w. w;
  parent_user = λ i. i;
  find_parent = λ name w. none;
  ip_update_start = λ i w. w;
  ip_update_complete = λ i w. w;
  ubus_remove = λ i w. w;
}

-- The user of interface 0 is the alias 1, which interface_alias_cb makes available when 0 comes up.
abbrev alias_heard : ℕ → Event → World → World
alias_heard zero Event.up w = put 1 (record (w.iface 1) { available = true }) w
alias_heard _ _ w = w

abbrev alias_env : Env
alias_env = record still_env { user_cb = λ u i ev w. alias_heard i ev w }

-- An interface as it is after its protocol has been attached.
abbrev lan : Iface
lan = record {
  ifname = some "eth0";
  parent_ifname = none;
  parent = none;
  available = false;
  autostart = true;
  enabled = false;
  link_state = false;
  force_link = true;
  dynamic = false;
  link_up_event = false;
  state = IfaceState.down;
  config_state = ConfigState.normal;
  updated = 0;
  users = 5 ∷ [];
  main_dev = some 1;
  main_hotplug = false;
  ext_dev = none;
  l3_dev = some 1;
  l3_claimed = false;
  proto_handler = 0;
  proto = some 0;
  config_ip_enabled = false;
  proto_ip_enabled = false;
  errors = [];
  values = [];
  told = [];
}

abbrev home : World
home = record { iface = λ i. lan; order = 0 ∷ []; all_users = []; config_init = false }

-- The device comes, comes up, the protocol sets the interface up, and loses its link.
abbrev history : List Call
history =
    main_event 0 DeviceEvent.add
    ∷ main_event 0 DeviceEvent.up
    ∷ protocol_event 0 ProtoEvent.up
    ∷ protocol_event 0 ProtoEvent.link_lost
    ∷ protocol_event 0 ProtoEvent.up
    ∷ []

-- A second report of the protocol that it is up is not an event.
up_again_test :
    (proto_event_cb still_env 0 ProtoEvent.up
      (record home { iface = λ i. record lan { state = IfaceState.up } })).all_users
    ≡ []
unfolding proto_event_cb proto_updated
up_again_test = refl

find_value-add_data_example :
    find_value "b" (add_data "a" "1" lan).values
    ≡ (if text_eq "a" "b" then some "1" else find_value "b" lan.values)
find_value-add_data_example = find_value-add_data "a" "1" "b" lan

abbrev refused : IfaceError
refused = record { subsystem = "dhcp"; code = "REFUSED"; details = [] }

add_error-le_example : length (add_error (λ p. plain_flags) refused lan).errors ≤ 1
add_error-le_example = add_error-le (λ p. plain_flags) refused lan refl (omega arith)

abbrev old_params : Params
old_params = record {
  hint = negsuc 0;
  length = 60;
  selection = fixed;
  fixed_id = 0 ∷ 1 ∷ [];
  weight = 0;
  classes = "wan6" ∷ "local" ∷ [];
}

abbrev new_params : Params
new_params = record old_params { classes = "wan6" ∷ "vpn" ∷ [] }

-- The second class differs.
merge_test : (merge_assignment_data old_params new_params).0 ≡ true
unfolding merge_assignment_data finish_merge compare_classes params_changed
merge_test = refl

merge-InUse_example : InUse (merge_assignment_data old_params new_params).1 new_params
merge-InUse_example = merge-InUse old_params new_params
