-- ===== src/ProtoShell.antt =====
-- proto-shell.c: the handler of a protocol whose work is done by scripts.
-- The state's own callback `proto_event` and the outcome of netifd_start_process are parameters, so
-- that the interface may call the handler again from inside an event.
pub mod Notify
pub mod Timers
pub mod Teardown
mod Tests
use lede_netifd.Prelude.{
  ℕ, ◌+◌, ◌*◌, Bool, true, false, not, ◌&&◌, ◌||◌, Option, none, some, List, [], ◌∷◌, ◌++◌, String,
  ◌==◌, ltb, if◌then◌else◌, ℤ, pos, negsuc,
}

-- enum proto_shell_sm
pub data Sm : Type 0 where
  idle setup setup_abort teardown : Sm

-- enum interface_proto_event
pub data ProtoEvent : Type 0 where
  up down link_lost renew : ProtoEvent

-- enum interface_proto_cmd
pub data Cmd : Type 0 where
  setup teardown renew : Cmd

-- The argument `task` of proto_shell_task_finish; `no_task` is NULL.
pub data Task : Type 0 where
  script_task proto_task no_task : Task

-- UBUS_STATUS_*
pub data Status : Type 0 where
  ok invalid_argument not_found permission_denied unknown_error : Status

pub data Effect : Type 0 where
  exec : List String → Option ℕ → Effect
  term_script term_proto clear_deps : Effect
  kill_proto : ℕ → Effect
  exec_proto : List String → List String → Effect
  add_error : List String → Effect

-- struct proto_shell_state, with what it reads of its handler and its interface. A timer holds the
-- milliseconds that it was set to; `script_pending` is script_task.uloop.pending.
pub record State : Type 0 where
  pub script_name : String
  pub proto_name : String
  pub renew_available : Bool
  pub no_task_flag : Bool
  pub iface_name : String
  pub config : Option String
  pub main_ifname : Option String
  pub sm : Sm
  pub script_pending : Bool
  pub proto_pending : Bool
  pub proto_task_killed : Bool
  pub renew_pending : Bool
  pub last_error : ℤ
  pub checkup_interval : ℤ
  pub teardown_timer : Option ℕ
  pub checkup_timer : Option ℕ
  pub iface_autostart : Bool
  pub iface_up : Bool
  pub effects : List Effect

abbrev pub emit : Effect → State → State
emit e s = record s { effects = s.effects ++ e ∷ [] }

abbrev pub args_of : Option String → List String
args_of none = []
args_of (some d) = d ∷ []

-- `last_error >= 0`
abbrev pub error_of : ℤ → Option ℕ
error_of (pos n) = some n
error_of (negsuc n) = none

abbrev is_positive : ℤ → Bool
is_positive (pos n) = ltb 0 n
is_positive (negsuc n) = false

abbrev seconds : ℤ → ℕ
seconds (pos n) = n * 1000
seconds (negsuc n) = 0

abbrev pub is_setup : Sm → Bool
is_setup setup = true
is_setup _ = false

abbrev pub is_stopping : Sm → Bool
is_stopping teardown = true
is_stopping setup_abort = true
is_stopping _ = false

-- uloop_timeout_cancel of both timers.
abbrev pub cancel_timers : State → State
cancel_timers s = record s { teardown_timer = none; checkup_timer = none }

module _ (start_ok : State → Bool) (event : ProtoEvent → State → State) where
  -- netifd_start_process for the script, which kills a process that still runs.
  unfoldable pub start_script : List String → Option ℕ → State → ℤ × State
  start_script argv error s =
      if start_ok s
      then (pos 0, emit (exec argv error) (record s { script_pending = true }))
      else (negsuc 0, record s { script_pending = false })

  -- The end of `proto_shell_handler`, from blobmsg_format_json on.
  unfoldable pub run_action : String → Option ℕ → State → ℤ × State
  unfolding start_script
  run_action action error s = elim s.config [
    | none ↦ (negsuc 0, s)
    | some config ↦
        start_script
          (s.script_name ∷ s.proto_name ∷ action ∷ s.iface_name ∷ config ∷ args_of s.main_ifname)
          error s
  ]

  unfoldable pub handle_setup : Sm → State → ℤ × State
  unfolding run_action
  handle_setup idle s =
      run_action "setup" none (emit clear_deps (record s { last_error = negsuc 0; sm = Sm.setup }))
  handle_setup setup_abort s = (pos 0, s)
  handle_setup teardown s = (pos 0, s)
  handle_setup setup s = (pos 0, s)

  unfoldable pub handle_renew : State → ℤ × State
  unfolding run_action
  handle_renew s =
      if not s.renew_available
      then (pos 0, s)
      else if s.script_pending
      then (pos 0, record s { renew_pending = true })
      else run_action "renew" none (record s { renew_pending = false })

  unfoldable pub start_teardown : State → ℤ × State
  unfolding run_action
  start_teardown s =
      run_action "teardown" (error_of s.last_error)
        (record s { renew_pending = false; sm = Sm.teardown; teardown_timer = some 5000 })

  -- SIGTERM for the running script, and for the task if there is one.
  unfoldable pub abort_setup : State → State
  abort_setup s =
      let t = emit term_script (record s { teardown_timer = some 1000 }) in
      record (if t.proto_pending then emit term_proto t else t) {
        renew_pending = false;
        sm = setup_abort;
      }

  unfoldable pub handle_teardown : Sm → State → ℤ × State
  unfolding start_teardown abort_setup
  handle_teardown setup s = if s.script_pending then (pos 0, abort_setup s) else start_teardown s
  handle_teardown idle s = start_teardown s
  handle_teardown teardown s = (pos 0, s)
  handle_teardown setup_abort s = (negsuc 0, s)

  -- proto_shell_handler, which does not read `force`.
  unfoldable pub handler : Cmd → State → ℤ × State
  unfolding handle_setup handle_renew handle_teardown
  handler Cmd.setup s = handle_setup s.sm s
  handler Cmd.renew s = handle_renew s
  handler Cmd.teardown s = handle_teardown s.sm s

  -- The branch of `proto_shell_task_finish` for the script in S_IDLE and S_SETUP.
  unfoldable pub script_done : State → State
  unfolding handler
  script_done s =
      let t =
        if s.renew_pending
        then (handler renew s).1
        else if not s.no_task_flag && (not s.proto_pending && is_setup s.sm)
        then (handler teardown s).1
        else s in
      if is_setup t.sm && is_positive t.checkup_interval
      then record t { checkup_timer = some (seconds t.checkup_interval) }
      else t

  unfoldable pub finish : Sm → Task → State → State
  unfolding handler script_done
  finish idle proto_task s = (handler teardown (event link_lost s)).1
  finish idle script_task s = script_done s
  finish idle no_task s = s
  finish setup proto_task s = (handler teardown s).1
  finish setup script_task s = script_done s
  finish setup no_task s = s
  finish setup_abort task s =
      if s.script_pending || s.proto_pending
      then s
      else (handler teardown (record (cancel_timers s) { sm = idle })).1
  finish teardown task s =
      if s.script_pending
      then s
      else if s.proto_pending
      then (if s.proto_task_killed then s else emit term_proto s)
      else event down (record (cancel_timers s) { sm = idle })

  -- proto_shell_task_finish
  unfoldable pub task_finish : Task → State → State
  unfolding finish
  task_finish task s = finish s.sm task s

  -- proto_shell_teardown_timeout_cb; uloop has taken the timer off, and a killed process is deleted.
  unfoldable pub teardown_timeout : State → State
  unfolding task_finish
  teardown_timeout s =
      task_finish no_task
        (record s { teardown_timer = none; script_pending = false; proto_pending = false })

  -- proto_shell_script_cb, when the script has exited.
  unfoldable pub script_exits : State → State
  unfolding task_finish
  script_exits s = task_finish script_task (record s { script_pending = false })

  abbrev pub note_error : Sm → ℕ → State → State
  note_error idle status s = record s { last_error = pos status }
  note_error setup status s = record s { last_error = pos status }
  note_error _ status s = s

  -- proto_shell_task_cb, when the task has exited with a status.
  unfoldable pub task_exits : ℕ → State → State
  unfolding task_finish
  task_exits status s =
      task_finish proto_task (note_error s.sm status (record s { proto_pending = false }))

  -- proto_shell_checkup_timeout_cb
  unfoldable pub checkup_timeout : State → State
  unfolding handler
  checkup_timeout s =
      let t = record s { checkup_timer = none } in
      if not t.iface_autostart then t else if t.iface_up then t else (handler teardown t).1

  -- proto_shell_setup_failed
  unfoldable pub fail_setup : Sm → State → Status × State
  unfolding handler
  fail_setup idle s = (ok, (handler teardown (event link_lost s)).1)
  fail_setup setup s = (ok, (handler teardown s).1)
  fail_setup setup_abort s = (permission_denied, s)
  fail_setup teardown s = (permission_denied, s)

  unfoldable pub setup_failed : State → Status × State
  unfolding fail_setup
  setup_failed s = fail_setup s.sm s
