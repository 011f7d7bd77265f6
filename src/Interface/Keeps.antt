-- ===== src/Interface/Keeps.antt =====
-- interface.c: the operations on a running interface keep the promise to its users.
use lede_netifd.Prelude.{
  ℕ, ◌≡◌, refl, arith, Bool, true, false, not, ◌&&◌, some, [], ◌∷◌, ◌++◌, Bool-cases, Option-cases,
  inl, inr, if◌then◌else◌,
}
use lede_netifd.Hotplug.{Event}
use lede_netifd.ProtoShell.{Cmd}
use lede_netifd.Interface.State.{Iface, IfaceState, World, Env, put, IfaceError, main_dev}
use lede_netifd.Interface.Contract.{
  hear, SameView, Guarantee, Inv, Near, Inv-Near, put-Near, Near-put-Inv, Near-Inv, put-Inv,
  put_same-Inv, hear_all-append,
}
use lede_netifd.Interface.Steady.{interface_event_keeps, set_ip_keeps, flush_state_keeps}
use lede_netifd.Interface.Events.{
  is_up, is_running, note, interface_event, set_ip, flush_state, take_down, mark_interface_down,
  running_proto_event, proto_event, stop, set_down_state, interface_down, interface_up, check_state,
  interface_check_state, immediate_event,
}
use lede_netifd.Interface.Ops.{
  set_enabled, tell_link_up, set_link_state, no_device_error, claim_and_start, set_up_down, set_up,
  set_available,
}
use lede_netifd.Interface.Errors.{clear_errors, add_error, error_flush}

module _ (env : Env) (g : Guarantee env) where
  pub interface_event-Inv :
      (i : ℕ) (ev : Event) (w : World) → Inv (note i ev w) → Inv (interface_event env i ev w)
  interface_event-Inv i = interface_event_keeps env Inv put_same-Inv i (g.calm i)

  pub set_ip-Inv : (i : ℕ) (b : Bool) (w : World) → Inv w → Inv (set_ip env i b w)
  set_ip-Inv i = set_ip_keeps env Inv put_same-Inv i (g.calm i).quiet

  pub flush_state-Inv : (i : ℕ) (w : World) → Inv w → Inv (flush_state env i w)
  flush_state-Inv i = flush_state_keeps env Inv put_same-Inv i (g.calm i)

  -- An interface that is up tells its users of a change.
  pub note_up-Inv :
      (i : ℕ) (ev : Event) (w : World)
      → Inv w
      → is_up (w.iface i).state ≡ true
      → hear true ev ≡ some true
      → Inv (note i ev w)
  note_up-Inv i ev w v u h =
      put-Inv i (record (w.iface i) { told = (w.iface i).told ++ ev ∷ [] }) w v
        (ground (arith, v.good i, h, hear_all-append (some false) (w.iface i).told ev))

  -- A new state and the event that goes with it.
  leave_up-Inv :
      (i : ℕ) (x : Iface) (w : World)
      → Near i w
      → is_up (w.iface i).state ≡ true
      → x.told ≡ (w.iface i).told
      → is_running x.state ≡ false
      → Inv (interface_event env i Event.down (put i x w))
  leave_up-Inv i x w v u t r = interface_event-Inv i Event.down (put i x w) (record {
    good = λ j. ground (arith, v.others j, v.heard, hear_all-append (some false) x.told Event.down);
  })

  -- An interface that stops, or stays stopped, tells its users if they believe it to be up.
  settle-Inv :
      (i : ℕ) (x : Iface) (w : World)
      → Near i w
      → x.told ≡ (w.iface i).told
      → is_running x.state ≡ false
      → Inv (
          if is_up (w.iface i).state
          then interface_event env i Event.down (put i x w)
          else put i x w)
  settle-Inv i x w v t r = elim (Bool-cases (is_up (w.iface i).state)) [
    | inl e ↦ rw e (leave_up-Inv i x w v e t r)
    | inr e ↦ rw e (Near-put-Inv i x w v (ground (arith, v.heard)))
  ]

  take_down-Inv : (i : ℕ) (w : World) → Inv w → Inv (take_down env i w)
  unfolding take_down
  take_down-Inv i w v =
      let x = record (w.iface i) { link_up_event = false; state = IfaceState.down } in
      let t =
        if is_up (w.iface i).state
        then interface_event env i Event.down (put i x w)
        else put i x w in
      let told : Inv t = settle-Inv i x w (Inv-Near i w v) refl refl in
      (g.calm i).quiet.flush_routes (flush_state env i (env.ip_flush i (set_ip env i false t))) (
        flush_state-Inv i (env.ip_flush i (set_ip env i false t))
          ((g.calm i).quiet.ip_flush (set_ip env i false t) (set_ip-Inv i false t told)))

  pub mark_interface_down-Inv : (i : ℕ) (w : World) → Inv w → Inv (mark_interface_down env i w)
  unfolding mark_interface_down
  mark_interface_down-Inv i w v = ground (arith, v, take_down-Inv i w v)

  running_proto_event-Inv :
      (p i : ℕ) (c : Cmd) (f : Bool) (w : World) → Inv w → Inv (running_proto_event env p i c f w).1
  unfolding running_proto_event
  running_proto_event-Inv p i c f w v =
      let t = g.proto_cb i c f w v in
      ground (arith, t, g.proto_event i (immediate_event env c) (env.proto_cb i c f w).1 t)

  pub proto_event-Inv :
      (i : ℕ) (c : Cmd) (f : Bool) (w : World) → Inv w → Inv (proto_event env i c f w).1
  unfolding proto_event
  proto_event-Inv i c f w v = elim (Option-cases (w.iface i).proto) [
    | inl e ↦ rw (proto_event, e) v
    | inr (p, e) ↦ rw (proto_event, e) (running_proto_event-Inv p i c f w v)
  ]

  stop-Inv : (i : ℕ) (f : Bool) (w : World) → Near i w → Inv (stop env i f w)
  unfolding stop
  stop-Inv i f w v =
      let x = record (w.iface i) { state = IfaceState.teardown } in
      let t =
        if is_up (w.iface i).state
        then interface_event env i Event.down (put i x w)
        else put i x w in
      let told : Inv t = settle-Inv i x w v refl refl in
      let u = proto_event-Inv i Cmd.teardown f t told in
      ground (arith, u, flush_state-Inv i (proto_event env i Cmd.teardown f t).1 u)

  interface_up-Inv :
      (i : ℕ) (w : World)
      → Inv w
      → (w.iface i).state ≡ IfaceState.down
      → (w.iface i).available ≡ true
      → Inv (interface_up env i w).1
  unfolding interface_up
  interface_up-Inv i w v d a =
      let x = record (w.iface i) { state = IfaceState.setup } in
      let t = put-Inv i x w v (ground (arith, v.good i)) in
      let u = proto_event-Inv i Cmd.setup false (put i x w) t in
      ground
        (arith, u, mark_interface_down-Inv i (proto_event env i Cmd.setup false (put i x w)).1 u)

  check_state-Inv :
      (st : IfaceState) (i : ℕ) (w : World)
      → (w.iface i).state ≡ st
      → Inv w
      → Inv (check_state env st i w)
  unfolding check_state
  check_state-Inv IfaceState.down i w e v = ground (arith, v, interface_up-Inv i w v e)
  check_state-Inv IfaceState.teardown i w e v = v
  check_state-Inv IfaceState.up i w e v =
      let t = proto_event-Inv i Cmd.teardown false w v in
      ground (arith, v, mark_interface_down-Inv i (proto_event env i Cmd.teardown false w).1 t)
  check_state-Inv IfaceState.setup i w e v =
      let t = proto_event-Inv i Cmd.teardown false w v in
      ground (arith, v, mark_interface_down-Inv i (proto_event env i Cmd.teardown false w).1 t)

  pub interface_check_state-Inv : (i : ℕ) (w : World) → Inv w → Inv (interface_check_state env i w)
  unfolding interface_check_state
  interface_check_state-Inv i w v = check_state-Inv (w.iface i).state i w refl v

  pub set_enabled-Inv : (i : ℕ) (b : Bool) (w : World) → Inv w → Inv (set_enabled env i b w)
  unfolding set_enabled
  set_enabled-Inv i b w v =
      let x = record (w.iface i) { enabled = b } in
      ground (
        arith,
        v,
        interface_check_state-Inv i (put i x w) (put_same-Inv i x w (refl, refl, refl) v),
      )

  tell_link_up-Inv : (i : ℕ) (b : Bool) (w : World) → Inv w → Inv (tell_link_up env i b w)
  unfolding tell_link_up
  tell_link_up-Inv i b w v =
      let x = w.iface i in
      let t = interface_event env i Event.link_up w in
      elim (Bool-cases (b && (x.force_link && (is_up x.state && not x.link_up_event)))) [
        | inl e ↦ rw e (
            put_same-Inv i (record (t.iface i) { link_up_event = true }) t (refl, refl, refl)
              (interface_event-Inv i Event.link_up w
                (note_up-Inv i Event.link_up w v (ground (arith, e)) refl)))
        | inr e ↦ rw e v
      ]

  pub set_link_state-Inv : (i : ℕ) (b : Bool) (w : World) → Inv w → Inv (set_link_state env i b w)
  unfolding set_link_state
  set_link_state-Inv i b w v =
      let x = record (w.iface i) { link_state = b } in
      let c = interface_check_state-Inv i (put i x w) (put_same-Inv i x w (refl, refl, refl) v) in
      ground (arith, v, tell_link_up-Inv i b (interface_check_state env i (put i x w)) c)

  -- A stopped interface may become unavailable, and a running one is stopped when it does.
  set_down_state-Inv :
      (st : IfaceState) (i : ℕ) (f : Bool) (w : World)
      → (w.iface i).state ≡ st
      → Near i w
      → Inv (set_down_state env st i f w)
  unfolding set_down_state
  set_down_state-Inv IfaceState.up i f w e v = stop-Inv i f w v
  set_down_state-Inv IfaceState.setup i f w e v = stop-Inv i f w v
  set_down_state-Inv IfaceState.down i f w e v =
      let s = Near-Inv i w v (ground (arith, e)) in
      ground (arith, s, (g.calm i).release main_dev w s)
  set_down_state-Inv IfaceState.teardown i f w e v = Near-Inv i w v (ground (arith, e))

  pub interface_down-Inv :
      (i : ℕ) (f : Bool) (w : World) → Near i w → Inv (interface_down env i f w)
  unfolding interface_down
  interface_down-Inv i f w v = set_down_state-Inv (w.iface i).state i f w refl v

  claim_and_start-Inv :
      (i : ℕ) (w : World)
      → Inv w
      → (w.iface i).state ≡ IfaceState.down
      → (w.iface i).available ≡ true
      → Inv (claim_and_start env i w).1
  unfolding claim_and_start
  claim_and_start-Inv i w v d a =
      let c = g.claim main_dev i w v in
      ground (
        arith,
        c,
        interface_check_state-Inv i (env.claim main_dev i w).1 c,
        interface_up-Inv i w v d a,
      )

  view-clear_errors : (x : Iface) → SameView (clear_errors env.flags x) x
  unfolding clear_errors error_flush
  view-clear_errors x = ground arith

  view-add_error : (e : IfaceError) (x : Iface) → SameView (add_error env.flags e x) x
  unfolding add_error error_flush
  view-add_error e x = ground arith

  set_up_down-Inv :
      (i : ℕ) (y : Iface) (w : World)
      → Inv w
      → SameView y (w.iface i)
      → y.state ≡ IfaceState.down
      → Inv (set_up_down env i y w).1
  unfolding set_up_down
  set_up_down-Inv i y w v seen d =
      let z = add_error env.flags no_device_error y in
      let here : (put i y w).iface i ≡ y = ground arith in
      ground (
        arith,
        put_same-Inv i z w (ground (arith, seen, view-add_error no_device_error y)) v,
        claim_and_start-Inv i (put i y w) (put_same-Inv i y w seen v),
      )

  pub set_up-Inv : (i : ℕ) (w : World) → Inv w → Inv (set_up env i w).1
  unfolding set_up
  set_up-Inv i w v =
      let x = record (w.iface i) { autostart = true } in
      let seen = view-clear_errors x in
      ground (
        arith,
        put_same-Inv i x w (refl, refl, refl) v,
        set_up_down-Inv i (clear_errors env.flags x) w v (ground (arith, seen)),
        seen,
      )

  pub set_available-Inv : (i : ℕ) (b : Bool) (w : World) → Inv w → Inv (set_available env i b w)
  unfolding set_available
  set_available-Inv i true w v =
      let x = record (w.iface i) { available = true } in
      let p = put-Inv i x w v (ground (arith, v.good i)) in
      ground (arith, v, p, set_up-Inv i (put i x w) p)
  set_available-Inv i false w v =
      let x = record (w.iface i) { available = false } in
      ground (arith, v, interface_down-Inv i true (put i x w) (put-Near i x w v refl refl))
