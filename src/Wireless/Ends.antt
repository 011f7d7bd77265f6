-- ===== src/Wireless/Ends.antt =====
-- wireless.c: how a wireless device comes to rest.
use lede_netifd.Prelude.{
  if_ind, if_cases, ◌≡◌, refl, ap, ◌∙◌, ◌⊎◌, inl, inr, Bool, true, false, ◌||◌, arith,
}
use lede_netifd.Wireless.{
  Wdev, WirelessEnv, setup_cancel, run_handler, leaving, try_set_up, device_free, config_change_to,
  handle_config_change, take_down, mark_down, try_set_down, retry_setup, script_task_cb_in,
  script_exits, setup_timeout, set_down,
}
use lede_netifd.Wireless.Keeps.{take_down-Same, take_down-state}
use lede_netifd.Wireless.Progress.{Moving, moving}
use lede_netifd.Interface.State.{IfaceState, ConfigState}

module _ (env : WirelessEnv) where
  try_set_up-off : (w : Wdev) → w.autostart ≡ false → try_set_up env w ≡ w
  unfolding try_set_up
  try_set_up-off w e =
      if_cases (λ (v : Wdev). v ≡ w) _ w
        (run_handler env true (record w { prev_config = false; state = IfaceState.setup }))
        (λ f. refl) (λ f. ground (arith, e, f))

  config_change_to-down :
      (c : ConfigState) (w : Wdev)
      → w.autostart ≡ false
      → w.state ≡ IfaceState.down
      → (config_change_to env c w).state ≡ IfaceState.down
  unfolding config_change_to device_free
  config_change_to-down ConfigState.normal w e d =
      ap (λ (v : Wdev). v.state) (try_set_up-off w e) ∙ d
  config_change_to-down ConfigState.reload w e d =
      ap (λ (v : Wdev). v.state) (try_set_up-off w e) ∙ d
  config_change_to-down ConfigState.remove w e d = d

  mark_down-down : (w : Wdev) → w.autostart ≡ false → (mark_down env w).state ≡ IfaceState.down
  unfolding mark_down handle_config_change
  mark_down-down w e =
      config_change_to-down (take_down env w).config_state (take_down env w)
        ((take_down-Same env w).0 ∙ e) (take_down-state env w).0

  try_set_down-autostart : (w : Wdev) → (try_set_down env w).autostart ≡ w.autostart
  unfolding try_set_down run_handler setup_cancel
  try_set_down-autostart w = ground arith

  retry_setup-autostart : (w : Wdev) → (retry_setup env w).autostart ≡ w.autostart
  unfolding retry_setup
  retry_setup-autostart w =
      if_ind (λ (v : Wdev). v.autostart ≡ w.autostart) (leaving env w.state || w.cancel) w _ refl
        (try_set_down-autostart _)

  config_change_to-autostart :
      (c : ConfigState) (w : Wdev) → (config_change_to env c w).autostart ≡ w.autostart
  unfolding config_change_to device_free try_set_up run_handler
  config_change_to-autostart ConfigState.normal w = ground arith
  config_change_to-autostart ConfigState.reload w = ground arith
  config_change_to-autostart ConfigState.remove w = refl

  mark_down-autostart : (w : Wdev) → (mark_down env w).autostart ≡ w.autostart
  unfolding mark_down handle_config_change
  mark_down-autostart w =
      config_change_to-autostart (take_down env w).config_state (take_down env w)
      ∙ (take_down-Same env w).0

  script_task_cb_in-autostart :
      (st : IfaceState) (w : Wdev) → (script_task_cb_in env st w).autostart ≡ w.autostart
  unfolding script_task_cb_in
  script_task_cb_in-autostart IfaceState.setup w = retry_setup-autostart w
  script_task_cb_in-autostart IfaceState.teardown w = mark_down-autostart w
  script_task_cb_in-autostart IfaceState.up w = refl
  script_task_cb_in-autostart IfaceState.down w = refl

  setup_timeout-down :
      (w : Wdev) → w.autostart ≡ false → (setup_timeout env w).state ≡ IfaceState.down
  unfolding setup_timeout script_exits
  setup_timeout-down w e = mark_down-down _ (script_task_cb_in-autostart w.state _ ∙ e)

  script_task_cb_in-down :
      (st : IfaceState) (w : Wdev)
      → st ≡ IfaceState.teardown
      → w.autostart ≡ false
      → (script_task_cb_in env st w).state ≡ IfaceState.down
  unfolding script_task_cb_in
  script_task_cb_in-down IfaceState.teardown w t e = mark_down-down w e
  script_task_cb_in-down IfaceState.setup w t e = cc
  script_task_cb_in-down IfaceState.up w t e = cc
  script_task_cb_in-down IfaceState.down w t e = cc

  script_exits-down :
      (w : Wdev)
      → w.state ≡ IfaceState.teardown
      → w.autostart ≡ false
      → (script_exits env w).state ≡ IfaceState.down
  unfolding script_exits
  script_exits-down w t e = script_task_cb_in-down w.state (record w { script_pending = false }) t e

  -- The device is down, or the end of its script takes it down, or its timer does.
  abbrev pub Ending : Wdev → Type 0
  Ending w =
      (w.state ≡ IfaceState.down)
      ⊎ (((w.script_pending ≡ true) × ((script_exits env w).state ≡ IfaceState.down))
          ⊎ ((w.timeout_armed ≡ true) × ((setup_timeout env w).state ≡ IfaceState.down)))

  leaving-Ending :
      (st : IfaceState) (w : Wdev)
      → w.state ≡ st
      → leaving env st ≡ true
      → w.autostart ≡ false
      → moving st w.script_pending w.cancel w.timeout_armed ≡ true
      → Ending w
  leaving-Ending IfaceState.down w t l e h = inl t
  leaving-Ending IfaceState.teardown w t l e h = inr (inl (h, script_exits-down w t e))
  leaving-Ending IfaceState.setup w t l e h = cc
  leaving-Ending IfaceState.up w t l e h = cc

  cancel-armed :
      (st : IfaceState) (p a : Bool) → leaving env st ≡ false → moving st p true a ≡ true → a ≡ true
  cancel-armed IfaceState.setup p a l h = ground arith
  cancel-armed IfaceState.up p a l h = h
  cancel-armed IfaceState.down p a l h = cc
  cancel-armed IfaceState.teardown p a l h = cc

  run_teardown-ends :
      (v : Wdev)
      → ((u : Wdev) → env.process_started u ≡ true)
      → v.autostart ≡ false
      → let u = run_handler env false (record v { state = IfaceState.teardown }) in
        (u.script_pending ≡ true) × ((script_exits env u).state ≡ IfaceState.down)
  unfolding run_handler
  run_teardown-ends v starts e = (
    starts _,
    script_exits-down (run_handler env false (record v { state = IfaceState.teardown })) refl e,
  )

  -- Where processes can be started, a device that is not stuck and is set down is down, or is taken down
  -- by the one event that it waits for: the end of its script or its timer.
  pub set_down-Ending :
      (w : Wdev) → ((v : Wdev) → env.process_started v ≡ true) → Moving w → Ending (set_down env w)
  unfolding set_down try_set_down setup_cancel
  set_down-Ending w starts h =
      let v = record w { retry_setup_failed = false; autostart = false } in
      if_cases Ending (leaving env w.state) v _ (λ l. leaving-Ending w.state v refl l refl h)
        (λ l.
          if_cases Ending w.script_pending _
            (run_handler env false (record v { state = IfaceState.teardown }))
            (λ p.
              if_cases Ending w.cancel v (record v { cancel = true; timeout_armed = true })
                (λ c. inr (
                  inr (
                    cancel-armed w.state w.script_pending w.timeout_armed l (rw c at h),
                    setup_timeout-down v refl,
                  )))
                (λ c. inr (
                  inr (
                    refl,
                    setup_timeout-down (record v { cancel = true; timeout_armed = true }) refl,
                  ))))
            (λ p. inr (inl (run_teardown-ends v starts refl))))
