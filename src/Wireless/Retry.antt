-- ===== src/Wireless/Retry.antt =====
-- wireless.c: the attempts to set a wireless device up end.
use lede_netifd.Prelude.{
  ℕ, zero, suc, if_cases, ◌≡◌, refl, ap, ◌∙◌, true, false, ◌||◌, List, [], ◌∷◌, arith, pos,
  is_negative,
}
use lede_netifd.Wireless.{
  Wdev, WirelessEnv, run_handler, is_down, try_set_up, config_change_to, handle_config_change,
  take_down, mark_down, try_set_down, less_one, retry_setup, script_task_cb_in, script_exits,
}
use lede_netifd.Wireless.Keeps.{take_down-Same, take_down-state}
use lede_netifd.Wireless.Run.{WirelessOp, op_remove, op_exit, op_set_down}
use lede_netifd.Interface.State.{IfaceState, ConfigState}

-- A device that is being set up and whose configuration does not change.
pub record Trying (w : Wdev) : Type 0 where
  pub in_setup : w.state ≡ IfaceState.setup
  pub no_cancel : w.cancel ≡ false
  pub autostarts : w.autostart ≡ true
  pub not_disabled : w.disabled ≡ false
  pub not_failed : w.retry_setup_failed ≡ false
  pub unchanged : w.config_state ≡ ConfigState.normal

module _ (env : WirelessEnv) where
  -- The script of a set-up ends without a report that the device is up, and that of the teardown ends.
  unfoldable pub fail_once : Wdev → Wdev
  fail_once w = script_exits env (script_exits env w)

  unfoldable pub fail_times : ℕ → Wdev → Wdev
  unfolding fail_once
  fail_times zero w = w
  fail_times (suc n) w = fail_times n (fail_once w)

  -- The device after the script of its set-up has ended.
  abbrev after_setup : Wdev → Wdev
  after_setup w =
      let r = less_one env w.retry in
      run_handler env false (record w {
        script_pending = false;
        retry = r;
        retry_setup_failed = w.retry_setup_failed || is_negative r;
        state = IfaceState.teardown;
      })

  setup-cb :
      (st : IfaceState) (w : Wdev)
      → st ≡ IfaceState.setup
      → w.state ≡ IfaceState.setup
      → w.cancel ≡ false
      → w.script_pending ≡ false
      → script_task_cb_in env st w ≡ after_setup w
  unfolding script_task_cb_in retry_setup try_set_down
  setup-cb st w s e c p = rw (s, e, c, p) refl

  -- wireless_device_mark_down at the end of the teardown.
  teardown-cb :
      (st : IfaceState) (w : Wdev)
      → st ≡ IfaceState.teardown
      → w.config_state ≡ ConfigState.normal
      → script_task_cb_in env st w
        ≡ record (try_set_up env (take_down env w)) { config_state = ConfigState.normal }
  unfolding script_task_cb_in mark_down handle_config_change
  teardown-cb st w s e = rw (s, (take_down-Same env w).2, e) (unfold config_change_to in refl)

  -- What is left of the device before it is set up again.
  abbrev taken : Wdev → Wdev
  taken w = take_down env (record (after_setup w) { script_pending = false })

  fail_once-eq :
      (w : Wdev)
      → Trying w
      → fail_once w ≡ record (try_set_up env (taken w)) { config_state = ConfigState.normal }
  unfolding fail_once script_exits run_handler
  fail_once-eq w t =
      let v = record w { script_pending = false } in
      let first : script_task_cb_in env w.state v ≡ after_setup w =
        setup-cb w.state v t.in_setup t.in_setup t.no_cancel refl in
      ap (λ (u : Wdev). script_task_cb_in env u.state (record u { script_pending = false })) first
      ∙ teardown-cb IfaceState.teardown (record (after_setup w) { script_pending = false }) refl
          t.unchanged

  taken-facts :
      (w : Wdev)
      → Trying w
      → ((taken w).autostart ≡ true)
        × ((taken w).disabled ≡ false)
        × ((taken w).retry_setup_failed ≡ is_negative (less_one env w.retry))
        × ((taken w).retry ≡ less_one env w.retry)
        × ((taken w).state ≡ IfaceState.down)
        × ((taken w).cancel ≡ false)
  unfolding run_handler
  taken-facts w t =
      let u = record (after_setup w) { script_pending = false } in
      let s = take_down-Same env u in
      let d = take_down-state env u in
      (
        s.0 ∙ t.autostarts,
        s.1 ∙ t.not_disabled,
        s.3 ∙ ap (λ b. b || is_negative (less_one env w.retry)) t.not_failed,
        s.6,
        d.0,
        d.1,
      )

  try_set_up-fails : (w : Wdev) → w.retry_setup_failed ≡ true → try_set_up env w ≡ w
  unfolding try_set_up
  try_set_up-fails w e =
      if_cases (λ (v : Wdev). v ≡ w) _ w
        (run_handler env true (record w { prev_config = false; state = IfaceState.setup }))
        (λ f. refl) (λ f. ground (arith, e, f))

  try_set_up-runs :
      (w : Wdev)
      → w.autostart ≡ true
      → w.disabled ≡ false
      → w.retry_setup_failed ≡ false
      → is_down env w.state ≡ true
      → env.config_init w ≡ false
      → try_set_up env w
        ≡ run_handler env true (record w { prev_config = false; state = IfaceState.setup })
  unfolding try_set_up
  try_set_up-runs w a d f s c =
      let u = run_handler env true (record w { prev_config = false; state = IfaceState.setup }) in
      if_cases (λ (v : Wdev). v ≡ u) _ w u (λ g. ground (arith, g, a, d, f, s, c)) (λ g. refl)

module _ (env : WirelessEnv) (configured : (w : Wdev) → env.config_init w ≡ false) where
  fail_once-Trying :
      (n : ℕ) (w : Wdev)
      → Trying w
      → w.retry ≡ pos (suc n)
      → Trying (fail_once env w) × ((fail_once env w).retry ≡ pos n)
  unfolding run_handler
  fail_once-Trying n w t r =
      let f = taken-facts env w t in
      let v = taken env w in
      let ok : v.retry_setup_failed ≡ false = f.2 ∙ ap (λ x. is_negative (less_one env x)) r in
      let runs = try_set_up-runs env v f.0 f.1 ok (ap (λ s. is_down env s) f.4) (configured v) in
      rw (fail_once-eq env w t, runs)
        (
          record {
            in_setup = refl;
            no_cancel = f.5;
            autostarts = f.0;
            not_disabled = f.1;
            not_failed = ok;
            unchanged = refl;
          },
          f.3 ∙ ap (λ x. less_one env x) r,
        )

  fail_once-failed :
      (w : Wdev)
      → Trying w
      → w.retry ≡ pos 0
      → ((fail_once env w).state ≡ IfaceState.down) × ((fail_once env w).retry_setup_failed ≡ true)
  fail_once-failed w t r =
      let f = taken-facts env w t in
      let failed : (taken env w).retry_setup_failed ≡ true =
        f.2 ∙ ap (λ x. is_negative (less_one env x)) r in
      rw (fail_once-eq env w t, try_set_up-fails env (taken env w) failed) (f.4, failed)

  -- A device whose set-up always fails is given up: with n attempts left after the present one it is
  -- down, and marked as failed, once n + 1 set-ups and their teardowns have ended.
  pub fail_times-failed :
      (n : ℕ) (w : Wdev)
      → Trying w
      → w.retry ≡ pos n
      → ((fail_times env (suc n) w).state ≡ IfaceState.down)
        × ((fail_times env (suc n) w).retry_setup_failed ≡ true)
  unfolding fail_times
  fail_times-failed zero w t r = fail_once-failed w t r
  fail_times-failed (suc n) w t r =
      let next = fail_once-Trying n w t r in fail_times-failed n (fail_once env w) next.0 next.1

-- A device that is up although the script of its set-up still runs.
pub record UpEarly (w : Wdev) : Type 0 where
  pub is_up : w.state ≡ IfaceState.up
  pub runs : w.script_pending ≡ true
  pub no_cancel : w.cancel ≡ false
  pub unchanged : w.config_state ≡ ConfigState.normal

-- The configuration is removed, the script ends, and the device is set down.
abbrev pub removed_early : List WirelessOp
removed_early = op_remove ∷ op_exit ∷ op_set_down ∷ []
