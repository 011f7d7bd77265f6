-- ===== src/ProtoShell/Teardown.antt =====
-- proto-shell.c: how a protocol that stops comes to its end, and what it refuses meanwhile.
use lede_netifd.Prelude.{
  zero, suc, suc, ℕ, ◌≡◌, refl, arith, Bool, true, false, none, some, String, [], ◌∷◌, ◌++◌,
}
use lede_netifd.ProtoShell.{
  args_of, Sm, idle, setup, setup_abort, teardown, ProtoEvent, down, renew, exec, State,
  is_stopping, start_script, run_action, handle_renew, start_teardown, handle_teardown, handler,
  script_done, finish, task_finish, teardown_timeout, script_exits,
}

-- Nothing of the protocol runs and no timer is set.
pub record Stopped (s : State) : Type 0 where
  pub idle : s.sm ≡ Sm.idle
  pub no_script : s.script_pending ≡ false
  pub no_task : s.proto_pending ≡ false
  pub no_teardown_timer : s.teardown_timer ≡ none
  pub no_checkup_timer : s.checkup_timer ≡ none

-- How many runs of the timer of the teardown bring the protocol to its end.
abbrev pub runs_left : Sm → ℕ
runs_left teardown = 1
runs_left setup_abort = 2
runs_left _ = 0

-- Some state in which everything has stopped, of which the interface is then told.
pub EndsDown : (ProtoEvent → State → State) → State → Type 0
EndsDown event r = (x : State) × (Stopped x × (r ≡ event down x))

module _ (start_ok : State → Bool) (event : ProtoEvent → State → State) where
  unfoldable pub fires : State → State
  fires s = teardown_timeout start_ok event s

  fires-teardown : (s : State) → s.sm ≡ teardown → EndsDown event (fires s)
  unfolding EndsDown fires teardown_timeout task_finish finish
  fires-teardown s e = (
    record s {
      sm = idle;
      script_pending = false;
      proto_pending = false;
      teardown_timer = none;
      checkup_timer = none;
    },
    (
      record {
        idle = refl;
        no_script = refl;
        no_task = refl;
        no_teardown_timer = refl;
        no_checkup_timer = refl;
      },
      rw e,
    ),
  )

  fires-abort : (s : State) → s.sm ≡ setup_abort → (fires s).sm ≡ teardown
  unfolding fires teardown_timeout task_finish finish handler handle_teardown start_teardown
      run_action start_script
  fires-abort s e = ground arith

  pub timeouts : ℕ → State → State
  timeouts zero s = s
  timeouts (suc n) s = timeouts n (fires s)

  ends_from :
      (m : Sm) (s : State)
      → s.sm ≡ m
      → is_stopping m ≡ true
      → EndsDown event (timeouts (runs_left m) s)
  unfolding timeouts
  ends_from teardown s e h = fires-teardown s e
  ends_from setup_abort s e h = fires-teardown (fires s) (fires-abort s e)
  ends_from idle s e h = cc
  ends_from setup s e h = cc

  -- A protocol that stops comes to its end even if its processes never do: the timer of the
  -- teardown, run once in a teardown and twice in an aborted setup, ends with everything stopped and
  -- the interface told that the protocol is down.
  pub stopping_ends :
      (s : State) → is_stopping s.sm ≡ true → EndsDown event (timeouts (runs_left s.sm) s)
  unfolding timeouts
  stopping_ends s h = ends_from s.sm s refl h

  renew_done :
      (s : State) (config : String)
      → start_ok (record s { renew_pending = false }) ≡ true
      → s.renew_available ≡ true
      → s.script_pending ≡ false
      → s.renew_pending ≡ true
      → s.config ≡ some config
      → ((script_done start_ok event s).effects
          ≡ s.effects
            ++ exec
                (s.script_name
                  ∷ s.proto_name
                  ∷ "renew"
                  ∷ s.iface_name
                  ∷ config
                  ∷ args_of s.main_ifname)
                none
              ∷ [])
        × ((script_done start_ok event s).renew_pending ≡ false)
  unfolding script_done handler handle_renew run_action start_script
  renew_done s config h0 h2 h3 h4 h5 = ground arith

  -- Where the protocol is not stopping, its handler can renew and every start of a script succeeds, a
  -- renewal that is asked for while a script runs is made when that script exits.
  pub renew_deferred :
      (s : State) (config : String)
      → ((x : State) → start_ok x ≡ true)
      → is_stopping s.sm ≡ false
      → s.renew_available ≡ true
      → s.script_pending ≡ true
      → s.config ≡ some config
      → ((script_exits start_ok event (handler start_ok event renew s).1).effects
          ≡ s.effects
            ++ exec
                (s.script_name
                  ∷ s.proto_name
                  ∷ "renew"
                  ∷ s.iface_name
                  ∷ config
                  ∷ args_of s.main_ifname)
                none
              ∷ [])
        × ((script_exits start_ok event (handler start_ok event renew s).1).renew_pending ≡ false)
  unfolding script_exits task_finish finish handler handle_renew
  renew_deferred s config ok_all h1 h2 h3 h4 = ground (
    arith,
    renew_done (record s { renew_pending = true; script_pending = false }) config (ok_all _) h2 refl
        refl h4,
  )
