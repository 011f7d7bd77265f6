-- ===== src/Wireless/Keeps.antt =====
-- wireless.c: what the parts of wireless_device_mark_down leave alone.
use lede_netifd.Prelude.{
  ℕ, if_ind, ◌≡◌, refl, ◌∙◌, Bool, true, false, not, ◌||◌, none, some, List, [], ◌∷◌, ◌++◌, arith,
  if◌then◌else◌,
}
use lede_netifd.Wireless.{
  Wdev, Vif, Process, WirelessEnv, handle_link, kill_pid, effect, sigterm, is_nil,
  complete_kill_request, process_free, close_script_proc_fd, vif_handle_link, handle_links,
  free_state, kill_all_loop, process_kill_all, take_down,
}
use lede_netifd.Interface.State.{IfaceState}

-- The settings of the device and its script are the same.
abbrev pub Same : Wdev → Wdev → Type 0
Same w v =
    (v.autostart ≡ w.autostart)
    × (v.disabled ≡ w.disabled)
    × (v.config_state ≡ w.config_state)
    × (v.retry_setup_failed ≡ w.retry_setup_failed)
    × (v.script_pending ≡ w.script_pending)
    × (v.freed ≡ w.freed)
    × (v.retry ≡ w.retry)

abbrev pub same : (w : Wdev) → Same w w
same w = (refl, refl, refl, refl, refl, refl, refl)

pub Same-trans : (u v w : Wdev) → Same u v → Same v w → Same u w
Same-trans u v w p q = (q.0 ∙ p.0, q.1 ∙ p.1, q.2 ∙ p.2, q.3 ∙ p.3, q.4 ∙ p.4, q.5 ∙ p.5, q.6 ∙ p.6)

complete_kill_request-Same : (w : Wdev) → Same w (complete_kill_request w)
unfolding complete_kill_request
complete_kill_request-Same w = if_ind (Same w) w.kill_request _ _ (same w) (same w)

process_free-Same : (rest : List Process) (w : Wdev) → Same w (process_free rest w)
unfolding process_free
process_free-Same rest w =
    let v = record w { script_proc = rest } in
    if_ind (Same w) (is_nil rest) (complete_kill_request v) v (complete_kill_request-Same v)
      (same w)

vif_handle_link-Same : (up : Bool) (v : Vif) (w : Wdev) → Same w (vif_handle_link up v w)
unfolding vif_handle_link
vif_handle_link-Same up v w =
    if_ind (Same w) v.has_network _ w
      (elim v.ifname
        as (λ n. Same w (elim n [ none ↦ w | some m ↦ effect (handle_link v.name up) w ])) [
          | none ↦ same w
          | some m ↦ same w
        ])
      (same w)

handle_links-Same : (up : Bool) (vs : List Vif) (w : Wdev) → Same w (handle_links up vs w)
unfolding handle_links
handle_links-Same up [] w = same w
handle_links-Same up (v ∷ vs) w =
    let u = vif_handle_link up v w in
    Same-trans w u (handle_links up vs u) (vif_handle_link-Same up v w) (handle_links-Same up vs u)

module _ (env : WirelessEnv) where
  kill_all_loop-Same :
      (signal : ℕ) (free : Bool) (kept ps : List Process) (w : Wdev)
      → Same w (kill_all_loop env signal free kept ps w)
  unfolding kill_all_loop
  kill_all_loop-Same signal free kept [] w = same w
  kill_all_loop-Same signal free kept (p ∷ ps) w =
      let v = if env.runs p.pid then effect (kill_pid p.pid signal) w else w in
      let u = process_free (kept ++ ps) v in
      let first : Same w v = if_ind (Same w) (env.runs p.pid) _ _ (same w) (same w) in
      if_ind (Same w) (free || not (env.runs p.pid)) (kill_all_loop env signal free kept ps u)
        (kill_all_loop env signal free (kept ++ p ∷ []) ps v)
        (Same-trans w u (kill_all_loop env signal free kept ps u)
          (Same-trans w v u first (process_free-Same (kept ++ ps) v))
          (kill_all_loop-Same signal free kept ps u))
        (Same-trans w v (kill_all_loop env signal free (kept ++ p ∷ []) ps v) first
          (kill_all_loop-Same signal free (kept ++ p ∷ []) ps v))

  process_kill_all-Same :
      (signal : ℕ) (free : Bool) (w : Wdev) → Same w (process_kill_all env signal free w)
  unfolding process_kill_all close_script_proc_fd
  process_kill_all-Same signal free w =
      let v = kill_all_loop env signal free [] w.script_proc w in
      let all = kill_all_loop-Same signal free [] w.script_proc w in
      if_ind (Same w) free (close_script_proc_fd v) v all all

  pub take_down-Same : (w : Wdev) → Same w (take_down env w)
  unfolding take_down free_state
  take_down-Same w =
      let u = handle_links false w.interfaces w in
      let v = process_kill_all env sigterm true u in
      let d = record v {
        cancel = false;
        state = IfaceState.down;
        check_armed = false;
        timeout_armed = false;
      } in
      let e = complete_kill_request d in
      Same-trans w u e (handle_links-Same false w.interfaces w)
        (Same-trans u v e (process_kill_all-Same sigterm true u) (complete_kill_request-Same d))

  -- wireless_device_mark_down leaves the device down before it looks at its configuration.
  pub take_down-state :
      (w : Wdev)
      → ((take_down env w).state ≡ IfaceState.down)
        × ((take_down env w).cancel ≡ false)
        × ((take_down env w).timeout_armed ≡ false)
  unfolding take_down free_state complete_kill_request
  take_down-state w = (ground arith, ground arith, ground arith)
