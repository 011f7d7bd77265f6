-- ===== src/Wireless/Run.antt =====
-- wireless.c: histories of what happens to a wireless device.
use lede_netifd.Prelude.{
  leb, ◌^◌, ℕ, if_ind, if_cases, ◌≡◌, refl, Bool, true, false, not, ◌||◌, Option, none, some, List,
  [], ◌∷◌, ◌++◌, ltb, ◌==◌, if◌then◌else◌, ℤ,
}
use lede_netifd.Wireless.{
  Wdev, Vif, Process, WirelessEnv, kill_pid, effect, sigterm, is_nil, complete_kill_request,
  process_free, close_script_proc_fd, kill_all_loop, process_kill_all, try_set_up, mark_up,
  retry_setup, script_exits, setup_timeout, set_up, set_down, set_config_state, change_config,
  check_loop, check_script_tasks, proc_fd_closed,
}
use lede_netifd.Wireless.Progress.{
  Moving, try_set_up-Moving, try_set_down-Moving, retry_setup-Moving, mark_up-Moving,
  script_exits-Moving, setup_timeout-Moving, set_config_state-Moving, change_config-Moving,
}
use lede_netifd.Wireless.Notify.{
  Status, Report, ReportData, report_up, set_data, add_process, report_kill_all, set_retry,
  run_command, device_notify, with_content, with_command, put_vifs, add_pid, put_retry, is_setup,
  is_teardown, missing_vif, default_to, set_vif_data, invalid_argument, permission_denied,
  not_found, ok,
}
use lede_netifd.Interface.State.{IfaceState, ConfigState}

-- What happens to a device: calls from ubus, the configuration and its end, the exit of the script, its
-- timers, the end of its pipe, and reports of its handler.
pub data WirelessOp : Type 0 where
  op_set_up op_set_down op_start op_exit op_timeout op_check op_fd op_remove : WirelessOp
  op_config : ℕ → Bool → WirelessOp
  op_report : Report → WirelessOp

module _ (env : WirelessEnv) where
  unfoldable pub run_op : WirelessOp → Wdev → Wdev
  run_op op_set_up w = set_up env w
  run_op op_set_down w = set_down env w
  run_op op_start w = try_set_up env w
  run_op op_exit w = script_exits env w
  run_op op_timeout w = setup_timeout env w
  run_op op_check w = check_script_tasks env w
  run_op op_fd w = proc_fd_closed env w
  run_op op_remove w = set_config_state env ConfigState.remove w
  run_op (op_config n disabled) w = change_config env n disabled w
  run_op (op_report r) w = (device_notify env r w).1

  unfoldable pub run_ops : List WirelessOp → Wdev → Wdev
  unfolding run_op
  run_ops [] w = w
  run_ops (op ∷ ops) w = run_ops ops (run_op op w)

process_free-Moving : (rest : List Process) (w : Wdev) → Moving w → Moving (process_free rest w)
unfolding process_free complete_kill_request
process_free-Moving rest w h =
    let v = record w { script_proc = rest } in
    if_ind Moving (is_nil rest) (complete_kill_request v) v (if_ind Moving w.kill_request _ v h h) h

put_vifs-Moving : (vs : Option (List Vif)) (w : Wdev) → Moving w → Moving (put_vifs vs w).1
put_vifs-Moving none w h = h
put_vifs-Moving (some vs) w h = h

set_data-Moving :
    (vif : Option ℕ) (d : ReportData) (w : Wdev) → Moving w → Moving (set_data vif d w).1
unfolding set_data
set_data-Moving none d w h =
    if_ind (λ (r : Status × Wdev). Moving r.1) w.has_data (invalid_argument, w)
      (ok, record w { has_data = true }) h h
set_data-Moving (some i) d w h = put_vifs-Moving (set_vif_data i d.ifname w.interfaces) w h

add_pid-Moving :
    (pid : Option ℕ) (d : ReportData) (w : Wdev) → Moving w → Moving (add_pid pid d w).1
add_pid-Moving none d w h = h
add_pid-Moving (some n) d w h =
    if_ind (λ (r : Status × Wdev). Moving r.1) (not d.exe || (ltb n 2 || leb (2 ^ 31) n))
      (invalid_argument, w) _ h h

put_retry-Moving : (n : Option ℤ) (w : Wdev) → Moving w → Moving (put_retry n w).1
put_retry-Moving none w h = h
put_retry-Moving (some n) w h = h

is_setup-eq : (st : IfaceState) → is_setup st ≡ true → st ≡ IfaceState.setup
is_setup-eq IfaceState.setup e = refl
is_setup-eq IfaceState.up e = cc
is_setup-eq IfaceState.down e = cc
is_setup-eq IfaceState.teardown e = cc

module _ (env : WirelessEnv) (starts : (w : Wdev) → env.process_started w ≡ true) where
  kill_all_loop-Moving :
      (signal : ℕ) (free : Bool) (kept ps : List Process) (w : Wdev)
      → Moving w
      → Moving (kill_all_loop env signal free kept ps w)
  unfolding kill_all_loop
  kill_all_loop-Moving signal free kept [] w h = h
  kill_all_loop-Moving signal free kept (p ∷ ps) w h =
      let v = if env.runs p.pid then effect (kill_pid p.pid signal) w else w in
      let m : Moving v = if_ind Moving (env.runs p.pid) _ w h h in
      if_ind Moving (free || not (env.runs p.pid))
        (kill_all_loop env signal free kept ps (process_free (kept ++ ps) v))
        (kill_all_loop env signal free (kept ++ p ∷ []) ps v)
        (kill_all_loop-Moving signal free kept ps _ (process_free-Moving (kept ++ ps) v m))
        (kill_all_loop-Moving signal free (kept ++ p ∷ []) ps v m)

  check_loop-Moving :
      (kept ps : List Process) (restart : Bool) (w : Wdev)
      → Moving w
      → Moving (check_loop env kept ps restart w).1
  unfolding check_loop
  check_loop-Moving kept [] restart w h = h
  check_loop-Moving kept (p ∷ ps) restart w h =
      let v = process_free (kept ++ ps) w in
      if_ind (λ (r : Bool × Wdev). Moving r.1) (env.runs p.pid)
        (check_loop env (kept ++ p ∷ []) ps restart w)
        (check_loop env kept ps (restart || p.required) v)
        (check_loop-Moving (kept ++ p ∷ []) ps restart w h)
        (check_loop-Moving kept ps (restart || p.required) v (process_free-Moving (kept ++ ps) w h))

  check_script_tasks-Moving : (w : Wdev) → Moving w → Moving (check_script_tasks env w)
  unfolding check_script_tasks
  check_script_tasks-Moving w h =
      let c = check_loop env [] w.script_proc false (record w { check_armed = false }) in
      let m : Moving c.1 =
        check_loop-Moving [] w.script_proc false (record w { check_armed = false }) h in
      if_ind Moving c.0 (retry_setup env c.1) _ (retry_setup-Moving env starts c.1 (λ e. m)) m

  report_kill_all-Moving :
      (d : ReportData) (w : Wdev) → Moving w → Moving (report_kill_all env d w).1
  unfolding report_kill_all process_kill_all close_script_proc_fd
  report_kill_all-Moving d w h =
      let signal = default_to sigterm d.signal in
      let free = default_to false d.immediate in
      let k = kill_all_loop env signal free [] w.script_proc w in
      let v = if free then close_script_proc_fd k else k in
      let m : Moving k = kill_all_loop-Moving signal free [] w.script_proc w h in
      let n : Moving v = if_ind Moving free (close_script_proc_fd k) k m m in
      if_ind (λ (r : Status × Wdev). Moving r.1) (not (is_teardown w.state) || w.kill_request)
        (permission_denied, w) _ h
        (if_ind (λ (r : Status × Wdev). Moving r.1) (is_nil v.script_proc) (ok, v)
          (ok, record v { kill_request = true }) n n)

  report_up-Moving : (vif : Option ℕ) (w : Wdev) → Moving w → Moving (report_up env vif w).1
  unfolding report_up
  report_up-Moving (some i) w h = h
  report_up-Moving none w h =
      if_cases (λ (r : Status × Wdev). Moving r.1) (is_setup w.state) (ok, mark_up env w)
        (permission_denied, w) (λ e. mark_up-Moving env starts w (is_setup-eq w.state e) h) (λ e. h)

  run_command-Moving :
      (c : ℕ) (vif : Option ℕ) (d : ReportData) (w : Wdev)
      → Moving w
      → Moving (run_command env c vif d w).1
  unfolding run_command add_process set_retry
  run_command-Moving c vif d w h =
      let M = λ (r : Status × Wdev). Moving r.1 in
      if_ind M (c == 0) (report_up env vif w) _ (report_up-Moving vif w h) (
        if_ind M (c == 1) (set_data vif d w) _ (set_data-Moving vif d w h) (
          if_ind M (c == 2) (add_process d w) _ (add_pid-Moving d.pid d w h) (
            if_ind M (c == 3) (report_kill_all env d w) _ (report_kill_all-Moving d w h) (
              if_ind M (c == 4) (set_retry d w) (invalid_argument, w) (put_retry-Moving d.retry w h)
                h))))

  with_content-Moving :
      (c : ℕ) (vif : Option ℕ) (d : Option ReportData) (w : Wdev)
      → Moving w
      → Moving (with_content env c vif d w).1
  with_content-Moving c vif none w h = h
  with_content-Moving c vif (some d) w h = run_command-Moving c vif d w h

  with_command-Moving :
      (c : Option ℕ) (r : Report) (w : Wdev) → Moving w → Moving (with_command env c r w).1
  with_command-Moving none r w h = h
  with_command-Moving (some c) r w h =
      if_ind (λ (s : Status × Wdev). Moving s.1) (missing_vif env r.vif w) (not_found, w)
        (with_content env c r.vif r.content w) h (with_content-Moving c r.vif r.content w h)

  run_op-Moving : (op : WirelessOp) (w : Wdev) → Moving w → Moving (run_op env op w)
  unfolding run_op set_up set_down proc_fd_closed close_script_proc_fd device_notify
  run_op-Moving op_set_up w h = try_set_up-Moving env starts _ h
  run_op-Moving op_set_down w h = try_set_down-Moving env starts _ (λ e. h)
  run_op-Moving op_start w h = try_set_up-Moving env starts w h
  run_op-Moving op_exit w h = script_exits-Moving env starts w h
  run_op-Moving op_timeout w h = setup_timeout-Moving env starts w
  run_op-Moving op_check w h = check_script_tasks-Moving w h
  run_op-Moving op_fd w h = h
  run_op-Moving op_remove w h = set_config_state-Moving env starts ConfigState.remove w h
  run_op-Moving (op_config n disabled) w h = change_config-Moving env starts n disabled w h
  run_op-Moving (op_report r) w h = with_command-Moving r.command r w h

  -- Where processes can be started, a device never gets stuck, whatever happens to it: a set-up always
  -- waits for its script or for the timer that cancels it, a teardown for its script, and a set-up that
  -- is cancelled has its timer armed.
  pub run_ops-Moving : (ops : List WirelessOp) (w : Wdev) → Moving w → Moving (run_ops env ops w)
  unfolding run_ops
  run_ops-Moving [] w h = h
  run_ops-Moving (op ∷ ops) w h = run_ops-Moving ops (run_op env op w) (run_op-Moving op w h)
