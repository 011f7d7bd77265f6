-- ===== src/Hotplug/Tests.antt =====
-- Histories of the hotplug queue of interface-event.c, followed by evaluation.
use lede_netifd.Prelude.{ℕ, ◌≡◌, refl, true, [], ◌∷◌, ◌++◌, map, none, some, inr}
use lede_netifd.Hotplug.{Iface, State, down, up, updated, free, init, event_cb, child_env}
use lede_netifd.Hotplug.Invariant.{Inv, event, step, step-Inv}
use lede_netifd.Hotplug.Delivery.{
  last_event, script, exits, event_cb-last_event, event_cb_free-last_event, exits_deliver,
}

abbrev lan : ℕ → Iface
lan i = record { name = "lan"; l3_ifname = some "br-lan"; changes = 5; hotplug_ev = down }

abbrev start_state : State
start_state = init lan

-- Interface 1 came up, and its script runs; 2 is pending.
abbrev busy_state : State
busy_state = record start_state {
  current = some 1;
  current_ev = up;
  pending = 2 ∷ [];
  task_pending = true;
  forks = 1;
}

busy_state-Inv : Inv busy_state
unfolding init
busy_state-Inv = record { distinct = (refl, tt); busy = λ _. refl; idle = λ h. cc }

-- A second `ifup` for the interface that is being handled is not queued.
same_event_test : (event_cb (λ _. true) 1 up (event_cb (λ _. true) 1 up start_state)).pending ≡ []
unfolding event_cb init
same_event_test = refl

-- The child's environment for an update of addresses and prefixes.
child_env_test :
    child_env "lan" (some "br-lan") updated 5
    ≡ ("ACTION", "ifupdate")
      ∷ ("INTERFACE", "lan")
      ∷ ("DEVICE", "br-lan")
      ∷ ("IFUPDATE_ADDRESSES", "1")
      ∷ ("IFUPDATE_PREFIXES", "1")
      ∷ []
unfolding child_env
child_env_test = refl

step-Inv_example : Inv (step (λ _. true) busy_state (event 1 down))
step-Inv_example = step-Inv (λ _. true) busy_state (event 1 down) busy_state-Inv

event_cb-last_event_example : last_event (event_cb (λ _. true) 1 down busy_state) 1 ≡ some down
event_cb-last_event_example =
    event_cb-last_event (λ _. true) (λ _. refl) 1 1 down busy_state busy_state-Inv (inr refl)

event_cb_free-last_event_example : last_event (event_cb (λ _. true) 2 free busy_state) 2 ≡ none
event_cb_free-last_event_example =
    event_cb_free-last_event (λ _. true) (λ _. refl) 2 2 busy_state busy_state-Inv

exits_deliver_example :
    ((exits (λ _. true) 1 busy_state).effects
      ≡ busy_state.effects ++ map (script busy_state) (2 ∷ []))
    × ((exits (λ _. true) 1 busy_state).pending ≡ [])
exits_deliver_example = exits_deliver (λ _. true) (λ _. refl) busy_state
