-- ===== src/Wireless/Progress.antt =====
-- wireless.c: a wireless device that is being set up or taken down always has something ahead of it
-- that moves it on.
use lede_netifd.Prelude.{
  ℕ, if_ind, if_cases, ◌≡◌, refl, Bool, true, false, not, ◌&&◌, ◌||◌, none, some, List, [], ◌∷◌,
  arith, ◌==◌,
}
use lede_netifd.Wireless.{
  Wdev, Vif, WirelessEnv, handle_link, effect, vif_handle_link, handle_links, setup_cancel,
  run_handler, leaving, is_down, try_set_up, device_free, config_change_to, handle_config_change,
  take_down, mark_down, try_set_down, mark_up, retry_setup, script_task_cb_in, script_exits,
  setup_timeout, is_normal, set_config_state, same_disabled, change_config,
}
use lede_netifd.Wireless.Keeps.{take_down-state}
use lede_netifd.Interface.State.{IfaceState, ConfigState}

-- A set-up waits for its script, or has been cancelled and waits for the timer; a teardown waits for its
-- script; and where a set-up is cancelled the timer is armed.
abbrev pub moving : IfaceState → Bool → Bool → Bool → Bool
moving IfaceState.setup pending cancel armed = (pending || cancel) && (not cancel || armed)
moving IfaceState.teardown pending cancel armed = pending
moving IfaceState.up pending cancel armed = not cancel || armed
moving IfaceState.down pending cancel armed = not cancel

abbrev pub Moving : Wdev → Type 0
Moving w = moving w.state w.script_pending w.cancel w.timeout_armed ≡ true

module _ (env : WirelessEnv) (starts : (w : Wdev) → env.process_started w ≡ true) where
  down-moving :
      (st : IfaceState) (p c a : Bool)
      → is_down env st ≡ true
      → moving st p c a ≡ true
      → moving IfaceState.setup true c a ≡ true
  down-moving IfaceState.down p c a d h = ground arith
  down-moving IfaceState.setup p c a d h = cc
  down-moving IfaceState.up p c a d h = cc
  down-moving IfaceState.teardown p c a d h = cc

  cancel-moving :
      (st : IfaceState) (p c a : Bool)
      → leaving env st ≡ false
      → c ≡ false
      → moving st p true true ≡ true
  cancel-moving IfaceState.setup p c a d h = ground arith
  cancel-moving IfaceState.up p c a d h = refl
  cancel-moving IfaceState.down p c a d h = cc
  cancel-moving IfaceState.teardown p c a d h = cc

  pub try_set_up-Moving : (w : Wdev) → Moving w → Moving (try_set_up env w)
  unfolding try_set_up run_handler
  try_set_up-Moving w h =
      if_cases Moving _ w
        (run_handler env true (record w { prev_config = false; state = IfaceState.setup })) (λ e. h)
        (λ e.
          rw (starts (record w { prev_config = false; state = IfaceState.setup }))
            (down-moving w.state w.script_pending w.cancel w.timeout_armed (ground (arith, e)) h))

  pub try_set_down-Moving :
      (w : Wdev)
      → ((leaving env w.state || w.cancel) ≡ true → Moving w)
      → Moving (try_set_down env w)
  unfolding try_set_down run_handler setup_cancel
  try_set_down-Moving w h =
      if_cases Moving (leaving env w.state) w _ (λ e. h (ground (arith, e)))
        (λ e.
          if_cases Moving w.script_pending _ _
            (λ p.
              if_cases Moving w.cancel w _ (λ c. h (ground (arith, c)))
                (λ c. cancel-moving w.state w.script_pending w.cancel w.timeout_armed e c))
            (λ p. starts _))

  config_change_to-Moving :
      (c : ConfigState) (w : Wdev) → Moving w → Moving (config_change_to env c w)
  unfolding config_change_to device_free
  config_change_to-Moving ConfigState.normal w h = try_set_up-Moving w h
  config_change_to-Moving ConfigState.reload w h = try_set_up-Moving w h
  config_change_to-Moving ConfigState.remove w h = h

  take_down-Moving : (w : Wdev) → Moving (take_down env w)
  take_down-Moving w = let d = take_down-state env w in rw (d.0, d.1) refl

  mark_down-Moving : (w : Wdev) → Moving (mark_down env w)
  unfolding mark_down handle_config_change
  mark_down-Moving w = config_change_to-Moving _ (take_down env w) (take_down-Moving w)

  pub retry_setup-Moving :
      (w : Wdev)
      → ((leaving env w.state || w.cancel) ≡ true → Moving w)
      → Moving (retry_setup env w)
  unfolding retry_setup
  retry_setup-Moving w h =
      if_cases Moving (leaving env w.state || w.cancel) w _ h
        (λ e. try_set_down-Moving _ (λ f. absurd (ground (arith, e, f))))

  vif_handle_link-Moving :
      (up : Bool) (v : Vif) (w : Wdev) → Moving w → Moving (vif_handle_link up v w)
  unfolding vif_handle_link
  vif_handle_link-Moving up v w h =
      if_ind Moving v.has_network _ w
        (elim v.ifname
          as (λ n. Moving (elim n [ none ↦ w | some m ↦ effect (handle_link v.name up) w ])) [
            | none ↦ h
            | some m ↦ h
          ])
        h

  setup-leaving : (st : IfaceState) → st ≡ IfaceState.setup → (leaving env st || false) ≡ true → ⊥
  setup-leaving st e f = cc (rw e at f)

  abbrev is_set_up : IfaceState → Bool
  is_set_up IfaceState.setup = true
  is_set_up _ = false

  abbrev stays : IfaceState → Bool
  stays IfaceState.up = true
  stays IfaceState.down = true
  stays _ = false

  cancelled :
      (st : IfaceState) (p c a : Bool)
      → is_set_up st ≡ true
      → (leaving env st || c) ≡ true
      → moving st p c a ≡ true
      → moving st false c a ≡ true
  cancelled IfaceState.setup p true a s l h = ground arith
  cancelled IfaceState.setup p false a s l h = cc
  cancelled IfaceState.up p c a s l h = cc
  cancelled IfaceState.down p c a s l h = cc
  cancelled IfaceState.teardown p c a s l h = cc

  unscripted :
      (st : IfaceState) (p c a : Bool)
      → stays st ≡ true
      → moving st p c a ≡ true
      → moving st false c a ≡ true
  unscripted IfaceState.up p c a s h = h
  unscripted IfaceState.down p c a s h = h
  unscripted IfaceState.setup p c a s h = cc
  unscripted IfaceState.teardown p c a s h = cc

  handle_links-Moving :
      (up : Bool) (vs : List Vif) (w : Wdev) → Moving w → Moving (handle_links up vs w)
  unfolding handle_links
  handle_links-Moving up [] w h = h
  handle_links-Moving up (v ∷ vs) w h =
      handle_links-Moving up vs (vif_handle_link up v w) (vif_handle_link-Moving up v w h)

  pub mark_up-Moving : (w : Wdev) → w.state ≡ IfaceState.setup → Moving w → Moving (mark_up env w)
  unfolding mark_up
  mark_up-Moving w e h =
      if_cases Moving w.cancel _ _
        (λ c.
          try_set_down-Moving (record w { cancel = false })
            (λ f. absurd (setup-leaving w.state e f)))
        (λ c.
          handle_links-Moving true w.interfaces (record w { state = IfaceState.up })
            (ground (arith, c)))

  exit-cancelled :
      (w : Wdev)
      → w.state ≡ IfaceState.setup
      → Moving w
      → (leaving env w.state || w.cancel) ≡ true
      → Moving (record w { script_pending = false })
  exit-cancelled w e h c =
      cancelled w.state w.script_pending w.cancel w.timeout_armed (rw e refl) c h

  script_task_cb_in-Moving :
      (w : Wdev) (st : IfaceState)
      → w.state ≡ st
      → Moving w
      → Moving (script_task_cb_in env st (record w { script_pending = false }))
  unfolding script_task_cb_in
  script_task_cb_in-Moving w IfaceState.setup e h =
      retry_setup-Moving (record w { script_pending = false }) (exit-cancelled w e h)
  script_task_cb_in-Moving w IfaceState.teardown e h = mark_down-Moving _
  script_task_cb_in-Moving w IfaceState.up e h =
      unscripted w.state w.script_pending w.cancel w.timeout_armed (rw e refl) h
  script_task_cb_in-Moving w IfaceState.down e h =
      unscripted w.state w.script_pending w.cancel w.timeout_armed (rw e refl) h

  pub script_exits-Moving : (w : Wdev) → Moving w → Moving (script_exits env w)
  unfolding script_exits
  script_exits-Moving w h = script_task_cb_in-Moving w w.state refl h

  pub setup_timeout-Moving : (w : Wdev) → Moving (setup_timeout env w)
  unfolding setup_timeout
  setup_timeout-Moving w = mark_down-Moving _

  pub set_config_state-Moving :
      (c : ConfigState) (w : Wdev) → Moving w → Moving (set_config_state env c w)
  unfolding set_config_state handle_config_change
  set_config_state-Moving c w h =
      let v = record w { config_state = c } in
      if_ind Moving (not (is_normal env w.config_state)) w _ h (
        if_ind Moving (is_down env w.state) (config_change_to env c v) (try_set_down env v)
          (config_change_to-Moving c v h) (try_set_down-Moving v (λ e. h)))

  pub change_config-Moving :
      (n : ℕ) (disabled : Bool) (w : Wdev) → Moving w → Moving (change_config env n disabled w)
  unfolding change_config
  change_config-Moving n disabled w h =
      let v = record w { prev_config = true } in
      let u = record v { config = n; disabled = disabled; retry_setup_failed = false } in
      if_ind Moving (w.config == n && same_disabled env w.disabled disabled) v
        (set_config_state env ConfigState.reload u) h
        (set_config_state-Moving ConfigState.reload u h)
