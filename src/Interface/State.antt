-- ===== src/Interface/State.antt =====
-- interface.h: an interface, the world of interfaces, and what the code reaches outside interface.c.
use lede_netifd.Prelude.{ℕ, Bool, true, false, Option, none, some, List, String, ℤ, update, ◌==◌}
use lede_netifd.Hotplug.{Event}
use lede_netifd.ProtoShell.{ProtoEvent, Cmd}

-- enum interface_state
pub data IfaceState : Type 0 where
  setup up teardown down : IfaceState

-- enum interface_config_state
pub data ConfigState : Type 0 where
  normal reload remove : ConfigState

-- struct interface_error
pub record IfaceError : Type 0 where
  pub subsystem : String
  pub code : String
  pub details : List String

-- The flags of a protocol handler that interface.c reads.
pub record Flags : Type 0 where
  pub immediate : Bool
  pub no_device : Bool
  pub init_available : Bool
  pub last_error : Bool
  pub teardown_on_l3_link_down : Bool

-- The members of an interface that are users of devices.
pub data Slot : Type 0 where
  main_dev ext_dev l3_dev : Slot

-- struct interface. Devices, users and protocol handlers are numbers; `proto` is the handler of the
-- running protocol. `told` lists the events of which its users have been told.
pub record Iface : Type 0 where
  pub ifname : Option String
  pub parent_ifname : Option String
  pub parent : Option ℕ
  pub available : Bool
  pub autostart : Bool
  pub enabled : Bool
  pub link_state : Bool
  pub force_link : Bool
  pub dynamic : Bool
  pub link_up_event : Bool
  pub state : IfaceState
  pub config_state : ConfigState
  pub updated : ℕ
  pub users : List ℕ
  pub main_dev : Option ℕ
  pub main_hotplug : Bool
  pub ext_dev : Option ℕ
  pub l3_dev : Option ℕ
  pub l3_claimed : Bool
  pub proto_handler : ℕ
  pub proto : Option ℕ
  pub config_ip_enabled : Bool
  pub proto_ip_enabled : Bool
  pub errors : List IfaceError
  pub values : List (String × String)
  pub told : List Event

-- `order` is the tree `interfaces`, and `all_users` iface_all_users.
pub record World : Type 0 where
  pub iface : ℕ → Iface
  pub order : List ℕ
  pub all_users : List ℕ
  pub config_init : Bool

-- The callbacks of an interface's users; alias.c, device.c, interface-ip.c, ubus.c and the protocol
-- handlers, all of which may call back into interface.c; `proto_event` is the function pointer that
-- interface_set_proto_state sets to interface_proto_event_cb, and `parent_user` the number of an
-- interface's member `parent_iface`.
pub record Env : Type 0 where
  pub flags : ℕ → Flags
  pub is_external : ℕ → Bool
  pub has_hotplug_ops : ℕ → Bool
  pub user_cb : ℕ → ℕ → Event → World → World
  pub alias_notify : ℕ → Option ℕ → World → World
  pub add_user : Slot → ℕ → Option ℕ → World → World
  pub claim : Slot → ℕ → World → ℤ × World
  pub release : Slot → ℕ → World → World
  pub lock : World → World
  pub unlock : World → World
  pub device_get : String → ℕ → World → Option ℕ × World
  pub device_set_present : ℕ → World → World
  pub set_device_config : ℕ → ℕ → World → World
  pub hotplug_add : ℕ → ℕ → World → ℤ × World
  pub hotplug_del : ℕ → ℕ → World → ℤ × World
  pub proto_cb : ℕ → Cmd → Bool → World → ℤ × World
  pub proto_event : ℕ → ProtoEvent → World → World
  pub proto_free : ℕ → World → World
  pub proto_attach : ℕ → World → World
  pub config_ip_set : ℕ → Bool → World → World
  pub proto_ip_set : ℕ → Bool → World → World
  pub ip_flush : ℕ → World → World
  pub flush_routes : World → World
  pub write_resolv_conf : World → World
  pub parent_user : ℕ → ℕ
  pub find_parent : String → World → Option ℕ
  pub ip_update_start : ℕ → World → World
  pub ip_update_complete : ℕ → World → World
  pub ubus_remove : ℕ → World → World

abbrev pub put : ℕ → Iface → World → World
put i x w = record w { iface = update w.iface i x }

abbrev pub is_some {ℓ} : {A : Type ℓ} → Option A → Bool
is_some none = false
is_some (some x) = true

abbrev pub same_device : Option ℕ → Option ℕ → Bool
same_device none none = true
same_device (some a) (some b) = a == b
same_device _ _ = false
