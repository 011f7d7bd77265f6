-- ===== src/Wireless/Notify.antt =====
-- wireless.c: wireless_device_notify, by which the handler reports to its device.
use lede_netifd.Prelude.{
  ◌^◌, leb, ◌||◌, ℕ, Bool, true, false, not, Option, none, some, List, [], ◌∷◌, CString, ltb, ◌==◌,
  if◌then◌else◌, ℤ,
}
use lede_netifd.Interface.State.{IfaceState}
use lede_netifd.Wireless.{Wdev, Vif, WirelessEnv, process_kill_all, mark_up, sigterm, is_nil}

-- The results of a ubus call that are used.
pub data Status : Type 0 where
  ok invalid_argument not_found permission_denied : Status

-- The attributes of the data of a report, of which each command reads its own.
pub record ReportData : Type 0 where
  pub pid : Option ℕ
  pub exe : Bool
  pub required : Option Bool
  pub signal : Option ℕ
  pub immediate : Option Bool
  pub retry : Option ℤ
  pub ifname : Option CString

-- A report: its command, the number of the interface that it names, and its data.
pub record Report : Type 0 where
  pub command : Option ℕ
  pub vif : Option ℕ
  pub content : Option ReportData

abbrev has_vif : ℕ → List Vif → Bool
has_vif i [] = false
has_vif i (v ∷ vs) = v.name == i || has_vif i vs

abbrev pub default_to {ℓ} : {A : Type ℓ} → A → Option A → A
default_to d none = d
default_to d (some a) = a

-- wireless_interface_set_data on the interface whose data is set.
abbrev with_vif_data : Option CString → Vif → Vif
with_vif_data none v = record v { has_data = true }
with_vif_data (some n) v = record v { has_data = true; ifname = some n }

-- The interface of number `i` with new data, if it is there and has none.
unfoldable pub set_vif_data : ℕ → Option CString → List Vif → Option (List Vif)
set_vif_data i n [] = none
set_vif_data i n (v ∷ vs) =
    let rest = set_vif_data i n vs in
    if v.name == i
    then (if v.has_data then none else some (with_vif_data n v ∷ vs))
    else elim rest [ none ↦ none | some us ↦ some (v ∷ us) ]

abbrev pub put_vifs : Option (List Vif) → Wdev → Status × Wdev
put_vifs none w = (invalid_argument, w)
put_vifs (some vs) w = (ok, record w { interfaces = vs })

-- NOTIFY_CMD_SET_DATA
unfoldable pub set_data : Option ℕ → ReportData → Wdev → Status × Wdev
set_data none d w = if w.has_data then (invalid_argument, w) else (ok, record w { has_data = true })
set_data (some i) d w = put_vifs (set_vif_data i d.ifname w.interfaces) w

abbrev pub add_pid : Option ℕ → ReportData → Wdev → Status × Wdev
add_pid none d w = (invalid_argument, w)
-- The number is read into an int, where it is negative from 2 ^ 31 on.
add_pid (some n) d w = if not d.exe || (ltb n 2 || leb (2 ^ 31) n) then (invalid_argument, w) else (
  ok,
  record w {
    script_proc = record { pid = n; required = default_to false d.required } ∷ w.script_proc;
    check_armed = true;
  },
)

-- wireless_device_add_process
unfoldable pub add_process : ReportData → Wdev → Status × Wdev
add_process d w = add_pid d.pid d w

abbrev pub put_retry : Option ℤ → Wdev → Status × Wdev
put_retry none w = (invalid_argument, w)
put_retry (some n) w = (ok, record w { retry = n })

-- wireless_device_set_retry
unfoldable pub set_retry : ReportData → Wdev → Status × Wdev
set_retry d w = put_retry d.retry w

abbrev pub is_setup : IfaceState → Bool
is_setup IfaceState.setup = true
is_setup _ = false

abbrev pub is_teardown : IfaceState → Bool
is_teardown IfaceState.teardown = true
is_teardown _ = false

module _ (env : WirelessEnv) where
  -- wireless_device_process_kill_all
  unfoldable pub report_kill_all : ReportData → Wdev → Status × Wdev
  report_kill_all d w =
      let v = process_kill_all env (default_to sigterm d.signal) (default_to false d.immediate) w in
      if not (is_teardown w.state) || w.kill_request
      then (permission_denied, w)
      else if is_nil v.script_proc
      then (ok, v)
      else (ok, record v { kill_request = true })

  -- NOTIFY_CMD_UP
  unfoldable pub report_up : Option ℕ → Wdev → Status × Wdev
  report_up (some i) w = (invalid_argument, w)
  report_up none w = if is_setup w.state then (ok, mark_up env w) else (permission_denied, w)

  -- The switch over the command.
  unfoldable pub run_command : ℕ → Option ℕ → ReportData → Wdev → Status × Wdev
  run_command c vif d w =
      if c == 0
      then report_up vif w
      else if c == 1
      then set_data vif d w
      else if c == 2
      then add_process d w
      else if c == 3
      then report_kill_all d w
      else if c == 4
      then set_retry d w
      else (invalid_argument, w)

  abbrev pub missing_vif : Option ℕ → Wdev → Bool
  missing_vif none w = false
  missing_vif (some i) w = not (has_vif i w.interfaces)

  abbrev pub with_content : ℕ → Option ℕ → Option ReportData → Wdev → Status × Wdev
  with_content c vif none w = (invalid_argument, w)
  with_content c vif (some d) w = run_command c vif d w

  abbrev pub with_command : Option ℕ → Report → Wdev → Status × Wdev
  with_command none r w = (invalid_argument, w)
  with_command (some c) r w =
      if missing_vif r.vif w then (not_found, w) else with_content c r.vif r.content w

  -- wireless_device_notify
  unfoldable pub device_notify : Report → Wdev → Status × Wdev
  device_notify r w = with_command r.command r w
