-- ===== src/Interface/Reload.antt =====
-- interface.c: events of a protocol and changes of the configuration keep the promise to the users of
-- an interface.
use lede_netifd.Prelude.{
  ℕ, ◌≡◌, refl, arith, Bool, true, false, Option, none, some, [], ◌∷◌, ◌++◌, if◌then◌else◌,
}
use lede_netifd.Hotplug.{Event}
use lede_netifd.Interface.State.{Iface, IfaceState, World, Env, put, main_dev, l3_dev, is_some}
use lede_netifd.Interface.Errors.{clear_errors, error_flush}
use lede_netifd.Interface.Contract.{
  hear, SameView, Guarantee, Inv, Rests, put_same-Inv, put_same-Rests, put-Inv, hear_all-append,
}
use lede_netifd.Interface.Steady.{interface_event_keeps, set_ip_keeps, flush_state_keeps}
use lede_netifd.Interface.Events.{
  note, set_ip, interface_event, flush_state, check_state, interface_check_state, interface_down,
  set_down_state,
}
use lede_netifd.Interface.Ops.{
  set_available, tell_link_up, set_link_state, change_l3_dev, set_l3_dev, set_main_dev,
}
use lede_netifd.Interface.Config.{set_proto_state, cleanup_state}
use lede_netifd.Interface.Keeps.{flush_state-Inv, set_available-Inv}
use lede_netifd.Interface.Links.{set_main_dev-Inv, set_l3_dev-Inv}

module _ (env : Env) (g : Guarantee env) where
  -- An interface that is down rests through its own clean-up.
  module _ (i : ℕ) where
    pub event-Rests :
        (b : Bool) (ev : Event) (w : World) → Rests i b w → Rests i b (interface_event env i ev w)
    event-Rests b ev w r =
        interface_event_keeps env (Rests i b) (put_same-Rests i b) i (g.rests i b) ev w
          (ground arith)

    pub flush_state-Rests : (b : Bool) (w : World) → Rests i b w → Rests i b (flush_state env i w)
    flush_state-Rests b = flush_state_keeps env (Rests i b) (put_same-Rests i b) i (g.rests i b)

    pub set_ip-Rests : (b c : Bool) (w : World) → Rests i b w → Rests i b (set_ip env i c w)
    set_ip-Rests b c = set_ip_keeps env (Rests i b) (put_same-Rests i b) i (g.rests i b).quiet c

    set_down_state-Rests :
        (st : IfaceState) (b f : Bool) (w : World)
        → (w.iface i).state ≡ st
        → Rests i b w
        → Rests i b (set_down_state env st i f w)
    unfolding set_down_state
    set_down_state-Rests IfaceState.down b f w e r =
        ground (arith, r, (g.rests i b).release main_dev w r)
    set_down_state-Rests IfaceState.up b f w e r = ground (arith, e, r)
    set_down_state-Rests IfaceState.setup b f w e r = ground (arith, e, r)
    set_down_state-Rests IfaceState.teardown b f w e r = r

    interface_down-Rests :
        (b f : Bool) (w : World) → Rests i b w → Rests i b (interface_down env i f w)
    unfolding interface_down
    interface_down-Rests b f w r = set_down_state-Rests (w.iface i).state b f w refl r

    check_state-Rests :
        (st : IfaceState) (w : World)
        → (w.iface i).state ≡ st
        → Rests i false w
        → check_state env st i w ≡ w
    unfolding check_state
    check_state-Rests IfaceState.down w e r = ground (arith, r)
    check_state-Rests IfaceState.up w e r = ground (arith, e, r)
    check_state-Rests IfaceState.setup w e r = ground (arith, e, r)
    check_state-Rests IfaceState.teardown w e r = refl

    set_unavailable-Rests :
        (b : Bool) (w : World) → Rests i b w → Rests i false (set_available env i false w)
    unfolding set_available
    set_unavailable-Rests b w r =
        let x = record (w.iface i) { available = false } in
        ground (arith, r, interface_down-Rests false true (put i x w) (ground (arith, r)))

    pub set_proto_state-Rests :
        (b : Bool) (p : Option ℕ) (w : World) → Rests i b w → Rests i b (set_proto_state env i p w)
    unfolding set_proto_state
    set_proto_state-Rests b p w r =
        let t = if is_some (w.iface i).proto then env.proto_free i w else w in
        let q : Rests i b t = ground (arith, r, (g.rests i b).proto_free w r) in ground (arith, q)

    pub set_proto_state-Inv :
        (b : Bool) (p : Option ℕ) (w : World)
        → Inv w
        → Rests i b w
        → Inv (set_proto_state env i p w)
    unfolding set_proto_state
    set_proto_state-Inv b p w v r =
        let t = if is_some (w.iface i).proto then env.proto_free i w else w in
        let q : Rests i b t = ground (arith, r, (g.rests i b).proto_free w r) in
        let u : Inv t = ground (arith, v, (g.calm i).proto_free w v) in
        put-Inv i (record (t.iface i) { state = IfaceState.down; proto = p }) t u
          (ground (arith, u.good i, q))

    set_no_link-Rests : (w : World) → Rests i false w → Rests i false (set_link_state env i false w)
    unfolding set_link_state tell_link_up interface_check_state
    set_no_link-Rests w r =
        let x = record (w.iface i) { link_state = false } in
        let p : Rests i false (put i x w) = ground (arith, r) in
        ground (arith, r, p, check_state-Rests ((put i x w).iface i).state (put i x w) refl p)

    set_no_main_dev-Rests :
        (w : World) → Rests i false w → Rests i false (set_main_dev env i none w)
    unfolding set_main_dev
    set_no_main_dev-Rests w r =
        let u = set_unavailable-Rests false w r in
        let x = set_available env i false w in
        let p = (g.rests i false).remove main_dev x u in
        ground (arith, r, set_no_link-Rests (env.add_user main_dev i none x) p)

    set_no_l3_dev-Rests : (w : World) → Rests i false w → Rests i false (set_l3_dev env i none w)
    unfolding set_l3_dev change_l3_dev
    set_no_l3_dev-Rests w r =
        let f = env.ip_flush i (set_ip env i false w) in
        let p =
          (g.rests i false).quiet.ip_flush (set_ip env i false w) (set_ip-Rests false false w r) in
        ground (arith, r, (g.rests i false).remove l3_dev f p)

    view-clear_errors : (x : Iface) → SameView (clear_errors env.flags x) x
    unfolding clear_errors error_flush
    view-clear_errors x = ground arith

    -- After the clean-up of an interface that is down it is down and unavailable.
    pub cleanup_state_lem :
        (b : Bool) (w : World)
        → Inv w
        → Rests i b w
        → Inv (cleanup_state env i w) × Rests i false (cleanup_state env i w)
    unfolding cleanup_state
    cleanup_state_lem b w v r =
        let a = set_available env i false w in
        let ar = set_unavailable-Rests b w r in
        let f = flush_state env i a in
        let fr = flush_state-Rests false a ar in
        let fv = flush_state-Inv env g i a (set_available-Inv env g i false w v) in
        let x = clear_errors env.flags (f.iface i) in
        let seen = view-clear_errors (f.iface i) in
        let pv = put_same-Inv i x f seen fv in
        let pr = put_same-Rests i false i x f seen fr in
        let s = set_proto_state env i none (put i x f) in
        let sv = set_proto_state-Inv false none (put i x f) pv pr in
        let sr = set_proto_state-Rests false none (put i x f) pr in
        let mv = set_main_dev-Inv env g i none s sv in
        let mr = set_no_main_dev-Rests s sr in
        let m = set_main_dev env i none s in
        (set_l3_dev-Inv env g i none m mv, set_no_l3_dev-Rests m mr)

    -- `IFEV_FREE` and `IFEV_RELOAD` are only ever told of an interface that is down.
    pub note_down-Inv :
        (b : Bool) (ev : Event) (w : World)
        → Inv w
        → Rests i b w
        → hear false ev ≡ some false
        → Inv (note i ev w)
    note_down-Inv b ev w v r h =
        put-Inv i (record (w.iface i) { told = (w.iface i).told ++ ev ∷ [] }) w v
          (ground (arith, v.good i, h, hear_all-append (some false) (w.iface i).told ev))
