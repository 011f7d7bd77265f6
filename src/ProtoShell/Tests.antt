-- ===== src/ProtoShell/Tests.antt =====
-- Runs of a protocol's scripts (proto-shell.c), and the theorems at concrete states.
use lede_netifd.Prelude.{◌≡◌, refl, true, false, none, some, [], ◌∷◌, ◌++◌, negsuc, pos, Bool}
use lede_netifd.ProtoShell.{
  State, Sm, Cmd, ProtoEvent, renew, handler, script_exits, exec, permission_denied,
}
use lede_netifd.ProtoShell.Notify.{Attrs, LinkEnv}
use lede_netifd.ProtoShell.Timers.{Armed, run_op, run_op-Armed, fires}
use lede_netifd.ProtoShell.Teardown.{EndsDown, timeouts, stopping_ends, renew_deferred}

abbrev forks : State → Bool
forks s = true

abbrev unheard : ProtoEvent → State → State
unheard e s = s

-- A protocol whose set-up script runs.
abbrev setting_up : State
setting_up = record {
  script_name = "./dhcp.sh";
  proto_name = "dhcp";
  renew_available = true;
  no_task_flag = false;
  iface_name = "wan";
  config = some "{ }";
  main_ifname = some "eth0";
  sm = Sm.setup;
  script_pending = true;
  proto_pending = false;
  proto_task_killed = false;
  renew_pending = false;
  last_error = negsuc 0;
  checkup_interval = negsuc 0;
  teardown_timer = none;
  checkup_timer = none;
  iface_autostart = true;
  iface_up = false;
  effects = [];
}

-- The same while its set-up is aborted.
abbrev aborting : State
aborting = record setting_up { sm = Sm.setup_abort; teardown_timer = some 1000 }

-- A report that asks for a link.
abbrev link_report : Attrs
link_report = record {
  action = some 0;
  error = none;
  command = none;
  env = none;
  signal = none;
  available = none;
  link_up = some true;
  keep = none;
  address_external = none;
}

abbrev link_env : LinkEnv
link_env = record {
  has_l3_dev = λ s. false;
  find_dev = λ tb n s. (some 0, s);
  set_l3_dev = λ n s. s;
  claim_l3_dev = λ s. (pos 0, s);
  set_present = λ n s. s;
  update_start = λ b s. s;
  apply_settings = λ tb b s. s;
  update_complete = λ s. s;
  set_available = λ b s. s;
  start_task_ok = λ s. true;
  add_host_dependency = λ tb s. (permission_denied, s);
}

-- A teardown while the script runs aborts the set-up.
abort_test : (handler forks unheard Cmd.teardown setting_up).1.sm ≡ Sm.setup_abort
unfolding handler
abort_test = refl

-- The end of the aborted script starts the teardown script.
teardown_test :
    (script_exits forks unheard aborting).effects
    ≡ exec ("./dhcp.sh" ∷ "dhcp" ∷ "teardown" ∷ "wan" ∷ "{ }" ∷ "eth0" ∷ []) none ∷ []
unfolding script_exits
teardown_test = refl

run_op-Armed_example : Armed (run_op forks unheard fires aborting)
unfolding Armed
run_op-Armed_example = run_op-Armed forks unheard (λ e s h. h) fires aborting refl

stopping_ends_example : EndsDown unheard (timeouts forks unheard 2 aborting)
stopping_ends_example = stopping_ends forks unheard aborting refl

renew_deferred_example :
    ((script_exits forks unheard (handler forks unheard renew setting_up).1).effects
      ≡ setting_up.effects
        ++ exec ("./dhcp.sh" ∷ "dhcp" ∷ "renew" ∷ "wan" ∷ "{ }" ∷ "eth0" ∷ []) none ∷ [])
    × ((script_exits forks unheard (handler forks unheard renew setting_up).1).renew_pending
        ≡ false)
renew_deferred_example =
    renew_deferred forks unheard setting_up "{ }" (λ x. refl) refl refl refl refl
