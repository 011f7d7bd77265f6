-- ===== src/ProtoShell/Notify.antt =====
-- proto-shell.c: what the scripts report by proto_shell_notify.
-- The device and address operations that a link report makes, and the addition of a host dependency, are
-- the parameters of LinkEnv.
use lede_netifd.Prelude.{
  ℕ, ◌+◌, ◌-◌, Bool, true, false, ◌&&◌, ◌||◌, Option, none, some, List, [], ◌∷◌, String, ◌==◌, ltb,
  if◌then◌else◌, ℤ, is_negative,
}
use lede_netifd.ProtoShell.{
  idle, ProtoEvent, up, link_lost, Status, ok, invalid_argument, permission_denied, unknown_error,
  State, emit, kill_proto, exec_proto, is_stopping, add_error, setup_failed,
}

-- An entry of an array attribute: a well-formed string, or anything else.
pub data Entry : Type 0 where
  str : String → Entry
  bad : Entry

-- The parsed attributes `tb`, NOTIFY_*; those that only the parameters read are left out.
pub record Attrs : Type 0 where
  pub action : Option ℕ
  pub error : Option (List Entry)
  pub command : Option (List Entry)
  pub env : Option (List Entry)
  pub signal : Option ℕ
  pub available : Option Bool
  pub link_up : Option Bool
  pub keep : Option Bool
  pub address_external : Option Bool

pub record LinkEnv : Type 0 where
  pub has_l3_dev : State → Bool
  pub find_dev : Attrs → ℕ → State → Option ℕ × State
  pub set_l3_dev : ℕ → State → State
  pub claim_l3_dev : State → ℤ × State
  pub set_present : ℕ → State → State
  pub update_start : Bool → State → State
  pub apply_settings : Attrs → Bool → State → State
  pub update_complete : State → State
  pub set_available : Bool → State → State
  pub start_task_ok : State → Bool
  pub add_host_dependency : Attrs → State → Status × State

abbrev pub or_false : Option Bool → Bool
or_false none = false
or_false (some b) = b

abbrev cons_option : String → Option (List String) → Option (List String)
cons_option s none = none
cons_option s (some r) = some (s ∷ r)

-- The loop of fill_string_list, with `argc` strings stored before.
unfoldable pub fill_entries : ℕ → ℕ → List Entry → Option (List String)
fill_entries max argc [] = some []
fill_entries max argc (bad ∷ es) = none
fill_entries max argc (str s ∷ es) =
    let rest = fill_entries max (argc + 1) es in
    if argc + 1 == max - 1 then none else cons_option s rest

unfoldable pub fill_string_list : Option (List Entry) → ℕ → Option (List String)
unfolding fill_entries
fill_string_list none max = some []
fill_string_list (some es) max = fill_entries max 0 es

-- The loop of proto_shell_notify_error, with `n` strings stored before.
unfoldable pub error_entries : ℕ → List Entry → Option (List String)
error_entries n [] = some []
error_entries n (e ∷ es) =
    let rest = error_entries (n + 1) es in
    if n + 1 == 16 then none else elim e [ str s ↦ cons_option s rest | bad ↦ none ]

-- SIGTERM and SIGKILL.
abbrev sigterm : ℕ
sigterm = 15

abbrev sigkill : ℕ
sigkill = 9

abbrev chosen_signal : Option ℕ → ℕ
chosen_signal none = sigterm
chosen_signal (some n) = if ltb 31 n then sigterm else n

module _ (start_ok : State → Bool) (event : ProtoEvent → State → State) (env : LinkEnv) where
  -- proto_shell_kill_command
  unfoldable pub kill_command : Attrs → State → Status × State
  kill_command tb s =
      let signal = chosen_signal tb.signal in
      (
        ok,
        if s.proto_pending
            then emit (kill_proto signal) (record s {
              proto_task_killed = s.proto_task_killed || (signal == sigterm || signal == sigkill);
            })
            else s,
      )

  -- netifd_start_process for the protocol's task.
  unfoldable pub start_task : List String → List String → State → State
  start_task argv envp s =
      if env.start_task_ok s
      then emit (exec_proto argv envp) (record s { proto_pending = true })
      else record s { proto_pending = false }

  unfoldable pub run_filled : Option (List String) → Option (List String) → State → Status × State
  unfolding start_task
  run_filled (some argv) (some envp) s = (ok, start_task argv envp s)
  run_filled (some argv) none s = (invalid_argument, s)
  run_filled none envp s = (invalid_argument, s)

  -- proto_shell_run_command
  unfoldable pub run_command : Attrs → State → Status × State
  unfolding run_filled fill_string_list
  run_command tb s = if is_stopping s.sm then (permission_denied, s) else elim tb.command [
    | none ↦ (invalid_argument, s)
    | some es ↦ run_filled (fill_string_list (some es) 64) (fill_string_list tb.env 32) s
  ]

  unfoldable pub report : Option (List String) → State → Status × State
  report none s = (invalid_argument, s)
  report (some []) s = (invalid_argument, s)
  report (some (d ∷ ds)) s = (ok, emit (add_error (d ∷ ds)) s)

  -- proto_shell_notify_error
  unfoldable pub notify_error : Attrs → State → Status × State
  unfolding report error_entries
  notify_error tb s = elim tb.error [
    | none ↦ (invalid_argument, s)
    | some es ↦ report (error_entries 0 es) s
  ]

  -- proto_shell_set_available
  unfoldable pub set_available : Attrs → State → Status × State
  set_available tb s = elim tb.available [
    | none ↦ (invalid_argument, s)
    | some b ↦ (ok, env.set_available b s)
  ]

  -- The end of proto_shell_update_link, from interface_update_start on.
  unfoldable pub finish_link : Attrs → Bool → Bool → State → Status × State
  finish_link tb keep addr_ext s =
      let t = env.update_complete (env.apply_settings tb addr_ext (env.update_start keep s)) in
      (ok, if is_stopping t.sm then t else record (event up t) { sm = idle })

  -- The device of a link that is not kept.
  unfoldable pub new_link : Attrs → Bool → Option ℕ × State → Status × State
  unfolding finish_link
  new_link tb addr_ext (none, s) = (invalid_argument, s)
  new_link tb addr_ext (some d, s) =
      let (ret, t) = env.claim_l3_dev (env.set_l3_dev d s) in
      if is_negative ret
      then (unknown_error, t)
      else finish_link tb false addr_ext (env.set_present d t)

  unfoldable pub link_is_up : Attrs → State → Status × State
  unfolding new_link
  link_is_up tb s =
      let addr_ext = or_false tb.address_external in
      if or_false tb.keep && (s.iface_up && env.has_l3_dev s)
      then finish_link tb true addr_ext s
      else new_link tb addr_ext (env.find_dev tb (if addr_ext then 2 else 1) s)

  -- proto_shell_update_link
  unfoldable pub update_link : Attrs → State → Status × State
  unfolding link_is_up
  update_link tb s = if is_stopping s.sm then (permission_denied, s) else elim tb.link_up [
    | none ↦ (invalid_argument, s)
    | some link_up ↦ if link_up then link_is_up tb s else (ok, event link_lost s)
  ]

  -- proto_shell_block_restart
  unfoldable pub block_restart : Attrs → State → Status × State
  block_restart tb s = (ok, record s { iface_autostart = false })

  unfoldable pub dispatch : ℕ → Attrs → State → Status × State
  unfolding update_link run_command kill_command notify_error block_restart set_available
  dispatch n tb s =
      if n == 0
      then update_link tb s
      else if n == 1
      then run_command tb s
      else if n == 2
      then kill_command tb s
      else if n == 3
      then notify_error tb s
      else if n == 4
      then block_restart tb s
      else if n == 5
      then set_available tb s
      else if n == 6
      then env.add_host_dependency tb s
      else if n == 7
      then setup_failed start_ok event s
      else (invalid_argument, s)

  -- proto_shell_notify
  unfoldable pub notify : Attrs → State → Status × State
  unfolding dispatch
  notify tb s = elim tb.action [ none ↦ (invalid_argument, s) | some n ↦ dispatch n tb s ]
