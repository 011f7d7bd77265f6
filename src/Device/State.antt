-- ===== src/Device/State.antt =====
-- device.h: devices and their users. Pointers are numbers; a list of users holds their numbers.
use lede_netifd.Prelude.{
  some, ℕ, Bool, true, false, Option, none, some, List, [], ◌∷◌, ℤ, CString, update,
}
use lede_netifd.Device.Settings.{Settings}

-- enum device_event
pub data Event : Type 0 where
  add removed update_ifname update_ifindex setup teardown up down : Event
  link_up link_down topo_change : Event

-- struct device_user; `has_cb` is `cb != NULL`.
pub record User : Type 0 where
  pub claimed : Bool
  pub hotplug : Bool
  pub alias : Bool
  pub has_cb : Bool
  pub dev : Option ℕ

-- struct device; `in_tree` is `avl.key != NULL`, and `parent` is the number of the parent's user.
pub record Device : Type 0 where
  pub users : List ℕ
  pub aliases : List ℕ
  pub ifname : CString
  pub in_tree : Bool
  pub ifindex : ℕ
  pub config_pending : Bool
  pub sys_present : Bool
  pub present : Bool
  pub active : ℕ
  pub link_active : Bool
  pub external : Bool
  pub disabled : Bool
  pub deferred : Bool
  pub current_config : Bool
  pub default_config : Bool
  pub parent : ℕ
  pub orig_settings : Settings
  pub settings : Settings

-- What is asked of system-linux.c.
pub data SysCall : Type 0 where
  if_up if_down : ℕ → SysCall

-- `devices` is the tree in its order, `devlock` is `__devlock`, and `aborted` tells that the
-- assertion of `device_release` has failed.
pub record World : Type 0 where
  pub device : ℕ → Device
  pub user : ℕ → User
  pub devices : List ℕ
  pub devlock : ℕ
  pub aborted : Bool
  pub syscalls : List SysCall

-- What the code reaches through function pointers (`dep->cb`, `dev->set_state`, `type->free`), by
-- the iteration `safe_list_for_each` of libubox over a list that its callback may change, and by
-- the queries of system-linux.c.
pub record Env : Type 0 where
  pub cb : ℕ → Event → World → World
  pub set_state : ℕ → Bool → World → ℤ × World
  pub type_free : ℕ → World → World
  pub each : (World → List ℕ) → (ℕ → World → World) → World → World
  pub if_resolve : ℕ → World → ℕ
  pub if_get_settings : ℕ → World → Settings
  pub if_get_parent : ℕ → World → Option ℕ × World

abbrev pub put_device : ℕ → Device → World → World
put_device d x w = record w { device = update w.device d x }

abbrev pub put_user : ℕ → User → World → World
put_user u x w = record w { user = update w.user u x }

abbrev pub same_bool : Bool → Bool → Bool
same_bool true b = b
same_bool false true = false
same_bool false false = true

abbrev pub is_empty : List ℕ → Bool
is_empty [] = true
is_empty (x ∷ xs) = false

-- `dep->dev` as a condition.
abbrev pub is_linked : Option ℕ → Bool
is_linked none = false
is_linked (some d) = true
