-- ===== src/ProtoShell/Timers.antt =====
-- proto-shell.c: the timer that bounds the time a protocol may take to stop.
use lede_netifd.Prelude.{
  negsuc, ℕ, ◌≡◌, refl, sym, ap, ◌∙◌, arith, Bool, true, false, Option, none, some, String,
}
use lede_netifd.ProtoShell.{
  Sm, idle, setup, setup_abort, teardown, ProtoEvent, down, link_lost, error_of, emit, clear_deps,
  cancel_timers, Cmd, Task, script_task, proto_task, no_task, State, is_stopping, start_script,
  run_action, handle_setup, handle_renew, start_teardown, abort_setup, handle_teardown, handler,
  script_done, finish, task_finish, teardown_timeout, script_exits, task_exits, checkup_timeout,
  note_error, fail_setup, setup_failed,
}

abbrev is_armed : Option ℕ → Bool
is_armed none = false
is_armed (some n) = true

-- The timer of the teardown runs exactly while the protocol stops.
unfoldable pub Armed : State → Type 0
Armed s = is_armed s.teardown_timer ≡ is_stopping s.sm

-- What can happen to the state of a protocol, apart from reports of its scripts.
pub data Op : Type 0 where
  command : Cmd → Op
  script_ended fires checkup fail : Op
  task_ended : ℕ → Op

module _ (start_ok : State → Bool) (event : ProtoEvent → State → State) where
  unfoldable pub run_op : Op → State → State
  run_op (command c) s = (handler start_ok event c s).1
  run_op script_ended s = script_exits start_ok event s
  run_op fires s = teardown_timeout start_ok event s
  run_op checkup s = checkup_timeout start_ok event s
  run_op fail s = (setup_failed start_ok event s).1
  run_op (task_ended status) s = task_exits start_ok event status s

  run_action_keeps :
      (a : String) (e : Option ℕ) (s : State)
      → ((run_action start_ok event a e s).1.sm ≡ s.sm)
        × ((run_action start_ok event a e s).1.teardown_timer ≡ s.teardown_timer)
  unfolding run_action start_script
  run_action_keeps a e s = ground arith

  run_action-Armed :
      (a : String) (e : Option ℕ) (s : State) → Armed s → Armed (run_action start_ok event a e s).1
  unfolding Armed
  run_action-Armed a e s h = grind (arith, run_action_keeps a e s)

  start_teardown-Armed : (s : State) → Armed (start_teardown start_ok event s).1
  unfolding Armed start_teardown
  start_teardown-Armed s =
      run_action-Armed "teardown" (error_of s.last_error)
        (record s { renew_pending = false; sm = Sm.teardown; teardown_timer = some 5000 }) refl

  handle_setup-Armed :
      (sm : Sm) (s : State) → s.sm ≡ sm → Armed s → Armed (handle_setup start_ok event sm s).1
  unfolding Armed handle_setup
  handle_setup-Armed idle s e h =
      run_action-Armed "setup" none
        (emit clear_deps (record s { last_error = negsuc 0; sm = Sm.setup })) (h ∙ ap is_stopping e)
  handle_setup-Armed setup s e h = h
  handle_setup-Armed setup_abort s e h = h
  handle_setup-Armed teardown s e h = h

  handle_teardown-Armed :
      (sm : Sm) (s : State) → s.sm ≡ sm → Armed s → Armed (handle_teardown start_ok event sm s).1
  unfolding Armed handle_teardown abort_setup
  handle_teardown-Armed idle s e h = start_teardown-Armed s
  handle_teardown-Armed setup s e h = ground (arith, start_teardown-Armed s)
  handle_teardown-Armed setup_abort s e h = h
  handle_teardown-Armed teardown s e h = h

  handle_renew-Armed : (s : State) → Armed s → Armed (handle_renew start_ok event s).1
  unfolding Armed handle_renew
  handle_renew-Armed s h =
      ground (arith, run_action-Armed "renew" none (record s { renew_pending = false }))

  handler-Armed : (c : Cmd) (s : State) → Armed s → Armed (handler start_ok event c s).1
  unfolding handler
  handler-Armed Cmd.setup s h = handle_setup-Armed s.sm s refl h
  handler-Armed Cmd.renew s h = handle_renew-Armed s h
  handler-Armed Cmd.teardown s h = handle_teardown-Armed s.sm s refl h

  script_done-Armed : (s : State) → Armed s → Armed (script_done start_ok event s)
  unfolding script_done Armed
  script_done-Armed s h =
      ground (arith, handler-Armed Cmd.renew s h, handler-Armed Cmd.teardown s h)

  module _ (event_keeps : (e : ProtoEvent) (s : State) → Armed s → Armed (event e s)) where
    finish-Armed :
        (sm : Sm) (task : Task) (s : State)
        → s.sm ≡ sm
        → Armed s
        → Armed (finish start_ok event sm task s)
    unfolding finish Armed
    finish-Armed idle proto_task s e h =
        handler-Armed Cmd.teardown (event link_lost s) (event_keeps link_lost s h)
    finish-Armed idle script_task s e h = script_done-Armed s h
    finish-Armed idle no_task s e h = h
    finish-Armed setup proto_task s e h = handler-Armed Cmd.teardown s h
    finish-Armed setup script_task s e h = script_done-Armed s h
    finish-Armed setup no_task s e h = h
    finish-Armed setup_abort task s e h =
        ground (arith, handler-Armed Cmd.teardown (record (cancel_timers s) { sm = idle }) refl)
    finish-Armed teardown task s e h =
        ground (arith, event_keeps down (record (cancel_timers s) { sm = idle }) refl)

    note_error-Armed :
        (sm : Sm) (status : ℕ) (s : State) → Armed s → Armed (note_error start_ok event sm status s)
    unfolding Armed
    note_error-Armed idle status s h = h
    note_error-Armed setup status s h = h
    note_error-Armed setup_abort status s h = h
    note_error-Armed teardown status s h = h

    timeout-Armed :
        (sm : Sm) (s : State)
        → s.sm ≡ sm
        → s.script_pending ≡ false
        → s.proto_pending ≡ false
        → s.teardown_timer ≡ none
        → Armed (finish start_ok event sm no_task s)
    unfolding finish Armed
    timeout-Armed idle s e h1 h2 h3 = ap is_armed h3 ∙ sym (ap is_stopping e)
    timeout-Armed setup s e h1 h2 h3 = ap is_armed h3 ∙ sym (ap is_stopping e)
    timeout-Armed setup_abort s e h1 h2 h3 =
        ground (arith, handler-Armed Cmd.teardown (record (cancel_timers s) { sm = idle }) refl)
    timeout-Armed teardown s e h1 h2 h3 =
        ground (arith, event_keeps down (record (cancel_timers s) { sm = idle }) refl)

    teardown_timeout-Armed : (s : State) → Armed s → Armed (teardown_timeout start_ok event s)
    unfolding teardown_timeout task_finish
    teardown_timeout-Armed s h =
        timeout-Armed s.sm
          (record s { teardown_timer = none; script_pending = false; proto_pending = false }) refl
          refl refl refl

    checkup_timeout-Armed : (s : State) → Armed s → Armed (checkup_timeout start_ok event s)
    unfolding checkup_timeout Armed
    checkup_timeout-Armed s h =
        ground (arith, handler-Armed Cmd.teardown (record s { checkup_timer = none }) h)

    fail_setup-Armed : (sm : Sm) (s : State) → Armed s → Armed (fail_setup start_ok event sm s).1
    unfolding fail_setup
    fail_setup-Armed idle s h =
        handler-Armed Cmd.teardown (event link_lost s) (event_keeps link_lost s h)
    fail_setup-Armed setup s h = handler-Armed Cmd.teardown s h
    fail_setup-Armed setup_abort s h = h
    fail_setup-Armed teardown s h = h

    task_finish-Armed :
        (task : Task) (s : State) → Armed s → Armed (task_finish start_ok event task s)
    unfolding task_finish
    task_finish-Armed task s h = finish-Armed s.sm task s refl h

    -- Commands of the interface, ends of the script and of the task, both timers and a failed setup
    -- keep the timer of the teardown armed exactly while the protocol stops, where the interface's
    -- reaction to an event keeps it so.
    pub run_op-Armed : (op : Op) (s : State) → Armed s → Armed (run_op op s)
    unfolding run_op script_exits task_exits setup_failed Armed
    run_op-Armed (command c) s h = handler-Armed c s h
    run_op-Armed script_ended s h =
        task_finish-Armed script_task (record s { script_pending = false }) h
    run_op-Armed fires s h = teardown_timeout-Armed s h
    run_op-Armed checkup s h = checkup_timeout-Armed s h
    run_op-Armed fail s h = fail_setup-Armed s.sm s h
    run_op-Armed (task_ended status) s h =
        task_finish-Armed proto_task
          (note_error start_ok event s.sm status (record s { proto_pending = false }))
          (note_error-Armed s.sm status (record s { proto_pending = false }) h)
