-- ===== src/Wireless/Tests.antt =====
-- The wireless device of wireless.c at concrete values.
use lede_netifd.Prelude.{◌≡◌, refl, true, false, none, some, [], ◌∷◌, codes, pos}
use lede_netifd.Wireless.{
  Wdev, WirelessEnv, run_setup, handle_link, handle_links, run_handler, try_set_up, mark_up, set_up,
  set_down,
}
use lede_netifd.Wireless.Progress.{Moving}
use lede_netifd.Wireless.Notify.{Report, ReportData, device_notify, run_command, report_up}
use lede_netifd.Wireless.Run.{
  op_set_up, op_set_down, op_exit, op_timeout, op_report, run_ops, run_ops-Moving,
}
use lede_netifd.Wireless.Ends.{Ending, set_down-Ending}
use lede_netifd.Wireless.Retry.{fail_times, fail_times-failed}
use lede_netifd.Interface.State.{IfaceState, ConfigState}

-- Processes can be started, and those of the script have ended.
abbrev plain_env : WirelessEnv
plain_env = record {
  config_init = λ w. false;
  process_started = λ w. true;
  pipe_opened = λ w. true;
  runs = λ p. false;
}

abbrev radio : Wdev
radio = record {
  interfaces =
      record { name = 1; has_network = true; ifname = some (codes "wlan0"); has_data = false } ∷ [];
  timeout_armed = false;
  check_armed = false;
  script_pending = false;
  script_fd_open = false;
  script_proc = [];
  kill_request = false;
  prev_config = false;
  config = 1;
  has_data = false;
  autostart = true;
  disabled = false;
  retry_setup_failed = false;
  state = IfaceState.down;
  config_state = ConfigState.normal;
  cancel = false;
  retry = pos 3;
  freed = false;
  effects = [];
}

abbrev no_data : ReportData
no_data = record {
  pid = none;
  exe = false;
  required = none;
  signal = none;
  immediate = none;
  retry = none;
  ifname = none;
}

abbrev is_up_now : Report
is_up_now = record { command = some 0; vif = none; content = some no_data }

set_up_test :
    (run_ops plain_env (op_set_up ∷ op_report is_up_now ∷ []) radio).effects
    ≡ run_setup ∷ handle_link 1 true ∷ []
unfolding run_ops set_up try_set_up run_handler device_notify run_command report_up mark_up
    handle_links
set_up_test = refl

run_ops-Moving_example :
    Moving (run_ops plain_env (op_set_up ∷ op_set_down ∷ op_exit ∷ op_timeout ∷ []) radio)
run_ops-Moving_example =
    run_ops-Moving plain_env (λ w. refl) (op_set_up ∷ op_set_down ∷ op_exit ∷ op_timeout ∷ []) radio
      refl

-- The device while its script runs for the set-up.
abbrev radio_setup : Wdev
radio_setup = record radio { state = IfaceState.setup; script_pending = true }

set_down-Ending_example : Ending plain_env (set_down plain_env radio_setup)
set_down-Ending_example = set_down-Ending plain_env radio_setup (λ w. refl) refl

fail_times-failed_example :
    ((fail_times plain_env 4 radio_setup).state ≡ IfaceState.down)
    × ((fail_times plain_env 4 radio_setup).retry_setup_failed ≡ true)
fail_times-failed_example =
    fail_times-failed plain_env (λ w. refl) 3 radio_setup
      (record {
        in_setup = refl;
        no_cancel = refl;
        autostarts = refl;
        not_disabled = refl;
        not_failed = refl;
        unchanged = refl;
      })
      refl

abbrev radio_up : Wdev
radio_up = record radio_setup { state = IfaceState.up }
