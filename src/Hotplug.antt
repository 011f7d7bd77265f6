-- ===== src/Hotplug.antt =====
-- interface-event.c: the queue of hotplug events and the one script that runs at a time.
-- Interfaces are numbers; `list_empty(&iface->hotplug_list)` is absence from `pending`.
-- `forks` counts the calls of fork(), whose outcome is the parameter `fork_ok`; what the code
-- sends to ubus and what it runs is kept in the order of the calls.
pub mod Invariant
pub mod Delivery
mod Tests
use lede_netifd.Prelude.{
  ℕ, suc, ◌+◌, ◌/◌, ◌%◌, ◌^◌, String, ◌≡◌, Bool, true, false, not, ◌&&◌, Option, none, some, List,
  [], ◌∷◌, ◌++◌, ◌==◌, if◌then◌else◌, contains, remove, update,
}

-- enum interface_event
pub data Event : Type 0 where
  down up updated free reload link_up : Event

-- eventnames
pub event_name : Event → String
event_name down = "ifdown"
event_name up = "ifup"
event_name updated = "ifupdate"
event_name free = "free"
event_name reload = "reload"
event_name link_up = "iflink"

pub Event-discrete : Discrete Event
Event-discrete = hlevel

-- `a == b` on the enum's values.
abbrev pub same_event : Event → Event → Bool
same_event down down = true
same_event up up = true
same_event updated updated = true
same_event free free = true
same_event reload reload = true
same_event link_up link_up = true
same_event _ _ = false

-- What the queue reads of a `struct interface`: its name, the name of its layer 3 device, the bits
-- of `updated`, and the event that is pending for it.
pub record Iface : Type 0 where
  pub name : String
  pub l3_ifname : Option String
  pub changes : ℕ
  pub hotplug_ev : Event

pub data Effect : Type 0 where
  ubus_event : ℕ → Bool → Effect
  ubus_notify : ℕ → Bool → Effect
  run : ℕ → Event → List (String × String) → Effect

pub record State : Type 0 where
  pub iface : ℕ → Iface
  pub current : Option ℕ
  pub current_ev : Event
  pub pending : List ℕ
  pub task_pending : Bool
  pub forks : ℕ
  pub effects : List Effect

abbrev flag_env : ℕ → ℕ → String → List (String × String)
flag_env changes bit name = if changes / 2 ^ bit % 2 == 1 then (name, "1") ∷ [] else []

abbrev device_env : Option String → List (String × String)
device_env none = []
device_env (some d) = ("DEVICE", d) ∷ []

abbrev update_env : Event → ℕ → List (String × String)
update_env updated changes =
    flag_env changes 0 "IFUPDATE_ADDRESSES"
    ++ (flag_env changes 1 "IFUPDATE_ROUTES"
        ++ (flag_env changes 2 "IFUPDATE_PREFIXES" ++ flag_env changes 3 "IFUPDATE_DATA"))
update_env _ changes = []

-- The environment that the child of `run_cmd` sets.
pub child_env : String → Option String → Event → ℕ → List (String × String)
unfolding event_name
child_env name device ev changes =
    ("ACTION", event_name ev) ∷ ("INTERFACE", name) ∷ (device_env device ++ update_env ev changes)

-- `device` of `call_hotplug`: only for an event after which there is one.
pub hotplug_device : Event → Option String → Option String
hotplug_device up device = device
hotplug_device updated device = device
hotplug_device _ device = none

abbrev pub is_current : Option ℕ → ℕ → Bool
is_current none i = false
is_current (some j) i = j == i

abbrev pub is_none : Option ℕ → Bool
is_none none = true
is_none (some _) = false

abbrev pub script_env : State → ℕ → List (String × String)
unfolding child_env hotplug_device
script_env s i = child_env f.name (hotplug_device f.hotplug_ev f.l3_ifname) f.hotplug_ev f.changes
  where
    f : Iface
    f = s.iface i

-- The head of `pending` becomes `current`, and its script is started.
pub start : State → ℕ → List ℕ → State
unfolding script_env
start s i rest = record s {
  current = some i;
  current_ev = (s.iface i).hotplug_ev;
  pending = rest;
  task_pending = true;
  forks = suc s.forks;
  effects = s.effects ++ run i (s.iface i).hotplug_ev (script_env s i) ∷ [];
}

-- The same where fork() fails: `run_cmd` calls `task_complete`, which forgets `current`.
pub start_failed : State → ℕ → List ℕ → State
start_failed s i rest = record s {
  current = none;
  current_ev = (s.iface i).hotplug_ev;
  pending = rest;
  forks = suc s.forks;
}

-- Set the event of an interface that is pending already.
pub overwrite : ℕ → Event → State → State
overwrite i ev s = record s { iface = update s.iface i (record (s.iface i) { hotplug_ev = ev }) }

-- Set the event and append the interface to `pending`.
pub append_pending : ℕ → Event → State → State
unfolding overwrite
append_pending i ev s = record (overwrite i ev s) { pending = s.pending ++ i ∷ [] }

-- The nested tests of `interface_queue_event`.
pub place : ℕ → Event → State → State
unfolding append_pending
place i ev s =
    if is_current s.current i
    then (if contains s.pending i
        then (if same_event ev updated then s else overwrite i ev s)
        else (if not (same_event ev s.current_ev)
            then append_pending i ev s
            else if same_event ev updated
            then append_pending i ev s
            else s))
    else (if contains s.pending i
        then (if same_event (s.iface i).hotplug_ev up && same_event ev updated
            then s
            else overwrite i ev s)
        else append_pending i ev s)

-- The calls of netifd_ubus_interface_event and netifd_ubus_interface_notify.
pub notify : ℕ → Event → State → State
notify i up s = record s { effects = s.effects ++ ubus_event i true ∷ ubus_notify i true ∷ [] }
notify i down s = record s { effects = s.effects ++ ubus_event i false ∷ ubus_notify i false ∷ [] }
notify i _ s = record s { effects = s.effects ++ ubus_notify i true ∷ [] }

pub dequeue_event : ℕ → State → State
dequeue_event i s = record s {
  current = if is_current s.current i then none else s.current;
  pending = remove i s.pending;
}

module _ (fork_ok : ℕ → Bool) where
  -- `call_hotplug` with `run_cmd` and the `task_complete` of a failed fork, which calls it again.
  pub call_pending : List ℕ → State → State
  unfolding start start_failed
  call_pending [] s = s
  call_pending (i ∷ rest) s =
      let failed = call_pending rest (start_failed s i rest) in
      if fork_ok s.forks then start s i rest else failed

  pub call_hotplug : State → State
  unfolding call_pending
  call_hotplug s = call_pending s.pending s

  pub task_complete : State → State
  unfolding call_hotplug
  task_complete s = call_hotplug (record s { current = none })

  -- The end of the script's process: uloop clears `pending` of the task, then calls its callback.
  pub script_exits : State → State
  unfolding task_complete
  script_exits s = task_complete (record s { task_pending = false })

  abbrev pub wake : State → State
  unfolding call_hotplug
  wake s = if not s.task_pending && is_none s.current then call_hotplug s else s

  pub queue_event : ℕ → Event → State → State
  unfolding notify place call_hotplug
  queue_event i link_up s = notify i link_up s
  queue_event i ev s = wake (place i ev (notify i ev s))

  -- `interface_event_cb`
  pub event_cb : ℕ → Event → State → State
  unfolding queue_event dequeue_event
  event_cb i link_up s = queue_event i link_up s
  event_cb i up s = queue_event i up s
  event_cb i updated s = queue_event i updated s
  event_cb i down s = queue_event i down s
  event_cb i free s = dequeue_event i s
  event_cb i reload s = s

-- The state at start.
pub init : (ℕ → Iface) → State
init iface = record {
  iface = iface;
  current = none;
  current_ev = down;
  pending = [];
  task_pending = false;
  forks = 0;
  effects = [];
}
