-- ===== src/Wireless.antt =====
-- wireless.c and wireless.h: the state machine of a wireless device, its scripts and its processes.
use lede_netifd.Prelude.{
  ℕ, zero, suc, ◌+◌, ◌-◌, ◌*◌, ◌/◌, ◌%◌, ◌^◌, ◌≤◌, ◌<◌, Ordering, String, ◌≡◌, refl, sym, ap, ◌∙◌,
  ◌≢◌, ◌↔◌, ◌⊎◌, inl, inr, Bool, true, false, not, ◌&&◌, ◌||◌, Option, none, some, List, [], ◌∷◌,
  ◌++◌, map, arith, CString, codes, strcmp, str_eq, ltb, leb, ◌==◌, if◌then◌else◌, ltb→lt, lt→ltb,
  leb→le, ==_iff, Bool-cases, Option-cases, contains, remove, Distinct, update, length, get_elem?,
  All, length-append, ℤ, pos, negsuc, is_negative, is_nonzero,
}
use lede_netifd.Interface.State.{IfaceState, ConfigState}
mod Notify
mod Keeps
mod Progress
mod Run
mod Ends
mod Retry
mod Tests

-- struct wireless_process
pub record Process : Type 0 where
  pub pid : ℕ
  pub required : Bool

-- struct wireless_interface: its name's number, whether it has networks, its ifname, and its data.
pub record Vif : Type 0 where
  pub name : ℕ
  pub has_network : Bool
  pub ifname : Option CString
  pub has_data : Bool

-- What happens outside: the handler is run for a set-up or a teardown, a link is reported to the
-- networks of an interface, a process is sent a signal, or a deferred request is answered.
pub data Effect : Type 0 where
  run_setup : Effect
  run_teardown : Bool → Effect
  handle_link : ℕ → Bool → Effect
  kill_pid : ℕ → ℕ → Effect
  complete_request : Effect

-- struct wireless_device. `timeout_armed`, `check_armed` and `script_pending` are the pending states of
-- its timers and its script; a configuration is the number of its contents.
pub record Wdev : Type 0 where
  pub interfaces : List Vif
  pub timeout_armed : Bool
  pub check_armed : Bool
  pub script_pending : Bool
  pub script_fd_open : Bool
  pub script_proc : List Process
  pub kill_request : Bool
  pub prev_config : Bool
  pub config : ℕ
  pub has_data : Bool
  pub autostart : Bool
  pub disabled : Bool
  pub retry_setup_failed : Bool
  pub state : IfaceState
  pub config_state : ConfigState
  pub cancel : Bool
  pub retry : ℤ
  pub freed : Bool
  pub effects : List Effect

-- What the device finds around it: whether netifd is still reading its configuration, whether
-- netifd_start_process and pipe succeed, and whether a process runs.
pub record WirelessEnv : Type 0 where
  pub config_init : Wdev → Bool
  pub process_started : Wdev → Bool
  pub pipe_opened : Wdev → Bool
  pub runs : ℕ → Bool

-- SIGTERM
abbrev pub sigterm : ℕ
sigterm = 15

-- WIRELESS_SETUP_RETRY
abbrev pub setup_retry : ℤ
setup_retry = pos 3

abbrev pub effect : Effect → Wdev → Wdev
effect e w = record w { effects = w.effects ++ e ∷ [] }

-- wireless_complete_kill_request
unfoldable pub complete_kill_request : Wdev → Wdev
complete_kill_request w =
    if w.kill_request then effect complete_request (record w { kill_request = false }) else w

abbrev pub is_nil {ℓ} : {A : Type ℓ} → List A → Bool
is_nil [] = true
is_nil (x ∷ xs) = false

-- wireless_process_free for a process that has left the list: `rest` is what is left of it.
unfoldable pub process_free : List Process → Wdev → Wdev
process_free rest w =
    let v = record w { script_proc = rest } in if is_nil rest then complete_kill_request v else v

-- wireless_close_script_proc_fd
unfoldable pub close_script_proc_fd : Wdev → Wdev
close_script_proc_fd w = record w { script_fd_open = false }

-- The link of an interface that has a network and an ifname, for wireless_interface_handle_link.
unfoldable pub vif_handle_link : Bool → Vif → Wdev → Wdev
vif_handle_link up v w =
    if v.has_network
    then elim v.ifname [ none ↦ w | some n ↦ effect (handle_link v.name up) w ]
    else w

unfoldable pub handle_links : Bool → List Vif → Wdev → Wdev
unfolding vif_handle_link
handle_links up [] w = w
handle_links up (v ∷ vs) w = handle_links up vs (vif_handle_link up v w)

abbrev pub clear_vifs : List Vif → List Vif
clear_vifs [] = []
clear_vifs (v ∷ vs) = record v { ifname = none; has_data = false } ∷ clear_vifs vs

-- wireless_device_free_state
unfoldable pub free_state : Wdev → Wdev
unfolding complete_kill_request
free_state w =
    let v = complete_kill_request (record w { check_armed = false; timeout_armed = false }) in
    record v { has_data = false; interfaces = clear_vifs v.interfaces }

-- wireless_device_setup_cancel
unfoldable pub setup_cancel : Wdev → Wdev
setup_cancel w = if w.cancel then w else record w { cancel = true; timeout_armed = true }

module _ (env : WirelessEnv) where
  -- The loop of wireless_process_kill_all over the rest of the list; `kept` went before it.
  unfoldable pub kill_all_loop : ℕ → Bool → List Process → List Process → Wdev → Wdev
  unfolding process_free complete_kill_request
  kill_all_loop signal free kept [] w = w
  kill_all_loop signal free kept (p ∷ ps) w =
      let check = env.runs p.pid in
      let v = if check then effect (kill_pid p.pid signal) w else w in
      if free || not check
      then kill_all_loop signal free kept ps (process_free (kept ++ ps) v)
      else kill_all_loop signal free (kept ++ p ∷ []) ps v

  -- wireless_process_kill_all
  unfoldable pub process_kill_all : ℕ → Bool → Wdev → Wdev
  unfolding kill_all_loop
  process_kill_all signal free w =
      let v = kill_all_loop signal free [] w.script_proc w in
      if free then close_script_proc_fd v else v

  -- wireless_device_run_handler: netifd_start_process kills a process that still runs.
  unfoldable pub run_handler : Bool → Wdev → Wdev
  run_handler true w =
      let v = record w { script_fd_open = w.script_fd_open || env.pipe_opened w } in
      effect run_setup (record v { script_pending = env.process_started w })
  run_handler false w =
      effect (run_teardown w.prev_config)
        (record w { prev_config = false; script_pending = env.process_started w })

  abbrev pub is_down : IfaceState → Bool
  is_down IfaceState.down = true
  is_down _ = false

  abbrev pub leaving : IfaceState → Bool
  leaving IfaceState.teardown = true
  leaving IfaceState.down = true
  leaving _ = false

  -- __wireless_device_set_up
  unfoldable pub try_set_up : Wdev → Wdev
  try_set_up w =
      if w.disabled
        || (w.retry_setup_failed
            || (not w.autostart || (not (is_down w.state) || env.config_init w)))
      then w
      else run_handler true (record w { prev_config = false; state = IfaceState.setup })

  -- wireless_device_free, after which nothing is left of the device.
  unfoldable pub device_free : Wdev → Wdev
  device_free w = record w { interfaces = []; prev_config = false; freed = true }

  unfoldable pub config_change_to : ConfigState → Wdev → Wdev
  config_change_to ConfigState.normal w = record (try_set_up w) {
    config_state = ConfigState.normal;
  }
  config_change_to ConfigState.reload w = record (try_set_up w) {
    config_state = ConfigState.normal;
  }
  config_change_to ConfigState.remove w = device_free w

  -- wdev_handle_config_change
  unfoldable pub handle_config_change : Wdev → Wdev
  handle_config_change w = config_change_to w.config_state w

  -- wireless_device_mark_down, up to the state
  unfoldable pub take_down : Wdev → Wdev
  take_down w =
      let v = process_kill_all sigterm true (handle_links false w.interfaces w) in
      free_state (record v { cancel = false; state = IfaceState.down })

  unfoldable pub mark_down : Wdev → Wdev
  unfolding take_down handle_config_change
  mark_down w = handle_config_change (take_down w)

  -- __wireless_device_set_down
  unfoldable pub try_set_down : Wdev → Wdev
  try_set_down w =
      if leaving w.state
      then w
      else if w.script_pending
      then setup_cancel w
      else run_handler false (record w { state = IfaceState.teardown })

  -- wireless_device_mark_up
  unfoldable pub mark_up : Wdev → Wdev
  mark_up w =
      if w.cancel
      then try_set_down (record w { cancel = false })
      else handle_links true w.interfaces (record w { state = IfaceState.up })

  -- `--wdev->retry`
  abbrev pub less_one : ℤ → ℤ
  less_one (pos zero) = negsuc 0
  less_one (pos (suc n)) = pos n
  less_one (negsuc n) = negsuc (suc n)

  -- wireless_device_retry_setup
  unfoldable pub retry_setup : Wdev → Wdev
  retry_setup w =
      let r = less_one w.retry in
      let v = record w { retry = r; retry_setup_failed = w.retry_setup_failed || is_negative r } in
      if leaving w.state || w.cancel then w else try_set_down v

  unfoldable pub script_task_cb_in : IfaceState → Wdev → Wdev
  script_task_cb_in IfaceState.setup w = retry_setup w
  script_task_cb_in IfaceState.teardown w = mark_down w
  script_task_cb_in _ w = w

  -- wireless_device_script_task_cb, when the script exits.
  unfoldable pub script_exits : Wdev → Wdev
  unfolding script_task_cb_in
  script_exits w = script_task_cb_in w.state (record w { script_pending = false })

  -- wireless_device_setup_timeout
  unfoldable pub setup_timeout : Wdev → Wdev
  unfolding script_exits mark_down
  setup_timeout w = mark_down (script_exits (record w { timeout_armed = false }))

  -- wireless_device_set_up
  unfoldable pub set_up : Wdev → Wdev
  set_up w = try_set_up (record w { retry = setup_retry; autostart = true })

  -- wireless_device_set_down
  unfoldable pub set_down : Wdev → Wdev
  set_down w = try_set_down (record w { retry_setup_failed = false; autostart = false })

  abbrev pub is_normal : ConfigState → Bool
  is_normal ConfigState.normal = true
  is_normal _ = false

  -- wdev_set_config_state
  unfoldable pub set_config_state : ConfigState → Wdev → Wdev
  set_config_state c w =
      let v = record w { config_state = c } in
      if not (is_normal w.config_state)
      then w
      else if is_down w.state
      then handle_config_change v
      else try_set_down v

  abbrev pub same_disabled : Bool → Bool → Bool
  same_disabled true b = b
  same_disabled false b = not b

  -- wdev_change_config for the new configuration and whether it disables the device.
  unfoldable pub change_config : ℕ → Bool → Wdev → Wdev
  change_config new_config disabled w =
      let v = record w { prev_config = true } in
      if w.config == new_config && same_disabled w.disabled disabled
      then v
      else set_config_state ConfigState.reload
          (record v { config = new_config; disabled = disabled; retry_setup_failed = false })

  -- The loop of wireless_device_check_script_tasks, with whether a required process has ended.
  unfoldable pub check_loop : List Process → List Process → Bool → Wdev → Bool × Wdev
  unfolding process_free complete_kill_request
  check_loop kept [] restart w = (restart, w)
  check_loop kept (p ∷ ps) restart w =
      if env.runs p.pid
      then check_loop (kept ++ p ∷ []) ps restart w
      else check_loop kept ps (restart || p.required) (process_free (kept ++ ps) w)

  -- wireless_device_check_script_tasks
  unfoldable pub check_script_tasks : Wdev → Wdev
  unfolding check_loop
  check_script_tasks w =
      let (restart, v) = check_loop [] w.script_proc false (record w { check_armed = false }) in
      if restart then retry_setup v else record v { check_armed = true }

  -- wireless_proc_poll_fd, when the script's end of the pipe is closed.
  unfoldable pub proc_fd_closed : Wdev → Wdev
  proc_fd_closed w = close_script_proc_fd (record w { check_armed = true })
