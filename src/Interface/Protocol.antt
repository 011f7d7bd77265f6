-- ===== src/Interface/Protocol.antt =====
-- interface.c: events of a protocol keep the promise to the users of an interface.
use lede_netifd.Prelude.{
  ℕ, ◌≡◌, refl, arith, Bool, true, false, Option, none, some, List, [], ◌∷◌, String, if◌then◌else◌,
}
use lede_netifd.Hotplug.{Event}
use lede_netifd.ProtoShell.{ProtoEvent}
use lede_netifd.Interface.State.{Iface, IfaceState, World, Env, put, main_dev, l3_dev, is_some}
use lede_netifd.Interface.Errors.{add_data}
use lede_netifd.Interface.Contract.{
  SameView, Guarantee, Inv, Rests, put_same-Inv, Starts, put_same-Starts, put-Inv, hear_all-append,
}
use lede_netifd.Interface.Steady.{set_ip_keeps}
use lede_netifd.Interface.Events.{
  is_up, is_down, set_ip, interface_event, flush_state, take_down, mark_interface_down,
}
use lede_netifd.Interface.Ops.{change_l3_dev, set_l3_dev}
use lede_netifd.Interface.Config.{
  proto_up, proto_down, proto_link_lost, proto_updated, proto_event_cb, add_all_data, parse_data,
  update_start,
}
use lede_netifd.Interface.Keeps.{
  set_ip-Inv, interface_event-Inv, mark_interface_down-Inv, note_up-Inv,
}
use lede_netifd.Interface.Links.{set_l3_dev-Inv}
use lede_netifd.Interface.Reload.{event-Rests, flush_state-Rests, set_ip-Rests}
use lede_netifd.Interface.Change.{handle_config_change-Inv}

module _ (env : Env) (g : Guarantee env) where
  set_ip-Starts : (i : ℕ) (b : Bool) (w : World) → Starts i w → Starts i (set_ip env i b w)
  set_ip-Starts i b = set_ip_keeps env (Starts i) (put_same-Starts i) i (g.starts i) b

  set_l3_dev-Starts :
      (i : ℕ) (d : Option ℕ) (w : World) → Starts i w → Starts i (set_l3_dev env i d w)
  unfolding set_l3_dev change_l3_dev
  set_l3_dev-Starts i d w s =
      let f = env.ip_flush i (set_ip env i false w) in
      let x = env.add_user l3_dev i d f in
      let p =
        g.add_user_starts i d f
          ((g.starts i).ip_flush (set_ip env i false w) (set_ip-Starts i false w s)) in
      let q = g.claim_starts i x p in
      let b = (w.iface i).config_ip_enabled in
      ground (arith, s, p, q, set_ip-Starts i b x p, set_ip-Starts i b (env.claim l3_dev i x).1 q)

  proto_up-Inv :
      (i : ℕ) (w : World) → Inv w → (w.iface i).state ≡ IfaceState.setup → Inv (proto_up env i w)
  unfolding proto_up
  proto_up-Inv i w v e =
      let x = if is_some (w.iface i).l3_dev then w else set_l3_dev env i (w.iface i).main_dev w in
      let xv : Inv x = ground (arith, v, set_l3_dev-Inv env g i (w.iface i).main_dev w v) in
      let s : Starts i w = ground (arith, e, v.good i) in
      let xs : Starts i x = ground (arith, s, set_l3_dev-Starts i (w.iface i).main_dev w s) in
      let y = set_ip env i true x in
      let z = env.flush_routes y in
      let zv = (g.calm i).quiet.flush_routes y (set_ip-Inv env g i true x xv) in
      let zs = (g.starts i).flush_routes y (set_ip-Starts i true x xs) in
      let u = record (z.iface i) { state = IfaceState.up } in
      interface_event-Inv env g i Event.up (put i u z) (record {
        good = λ j. ground (
          arith,
          zv.good j,
          zv.good i,
          zs,
          hear_all-append (some false) (z.iface i).told Event.up,
        );
      })

  proto_updated-Inv : (i : ℕ) (w : World) → Inv w → Inv (proto_updated env i w)
  unfolding proto_updated
  proto_updated-Inv i w v =
      ground (
        arith,
        v,
        interface_event-Inv env g i Event.updated w,
        note_up-Inv env g i Event.updated w v,
      )

  take_down-Rests : (i : ℕ) (w : World) → Rests i (w.iface i).available (take_down env i w)
  unfolding take_down
  take_down-Rests i w =
      let b = (w.iface i).available in
      let x = record (w.iface i) { link_up_event = false; state = IfaceState.down } in
      let p : Rests i b (put i x w) = ground arith in
      let t =
        if is_up (w.iface i).state
        then interface_event env i Event.down (put i x w)
        else put i x w in
      let tr : Rests i b t = ground (arith, p, event-Rests env g i b Event.down (put i x w) p) in
      let s = set_ip env i false t in
      let f = env.ip_flush i s in
      let fr = (g.rests i b).quiet.ip_flush s (set_ip-Rests env g i b false t tr) in
      (g.rests i b).quiet.flush_routes (flush_state env i f) (flush_state-Rests env g i b f fr)

  is_down_lem : (st : IfaceState) → is_down st ≡ true → st ≡ IfaceState.down
  is_down_lem IfaceState.down h = refl
  is_down_lem IfaceState.up h = cc
  is_down_lem IfaceState.setup h = cc
  is_down_lem IfaceState.teardown h = cc

  -- mark_interface_down leaves the interface down, and as available as it was.
  mark_interface_down-Rests :
      (i : ℕ) (w : World) → Rests i (w.iface i).available (mark_interface_down env i w)
  unfolding mark_interface_down
  mark_interface_down-Rests i w = ground (arith, is_down_lem (w.iface i).state, take_down-Rests i w)

  proto_down-Inv : (i : ℕ) (w : World) → Inv w → Inv (proto_down env i w)
  unfolding proto_down
  proto_down-Inv i w v =
      let b = (w.iface i).available in
      let x = mark_interface_down env i w in
      let xv = mark_interface_down-Inv env g i w v in
      let xr = mark_interface_down-Rests i w in
      let t = if is_some (x.iface i).main_dev then env.release main_dev i x else x in
      let tv : Inv t = ground (arith, xv, (g.calm i).release main_dev x xv) in
      let tr : Rests i b t = ground (arith, xr, (g.rests i b).release main_dev x xr) in
      let u = if is_some (t.iface i).l3_dev then env.add_user l3_dev i none t else t in
      let uv : Inv u = ground (arith, tv, g.add_user l3_dev i none t tv) in
      let ur : Rests i b u = ground (arith, tr, (g.rests i b).remove l3_dev t tr) in
      handle_config_change-Inv env g i b u uv ur

  proto_link_lost-Inv :
      (i : ℕ) (w : World)
      → Inv w
      → (w.iface i).state ≡ IfaceState.up
      → Inv (proto_link_lost env i w)
  unfolding proto_link_lost
  proto_link_lost-Inv i w v e =
      let x = mark_interface_down env i w in
      let xv = mark_interface_down-Inv env g i w v in
      put-Inv i (record (x.iface i) { state = IfaceState.setup }) x xv
        (ground (arith, xv.good i, v.good i, e, mark_interface_down-Rests i w))

  pub proto_event_cb-Inv :
      (i : ℕ) (e : ProtoEvent) (w : World) → Inv w → Inv (proto_event_cb env i e w)
  unfolding proto_event_cb
  proto_event_cb-Inv i ProtoEvent.up w v =
      ground
        (arith, proto_updated-Inv i w v, g.write_resolv_conf (proto_up env i w), proto_up-Inv i w v)
  proto_event_cb-Inv i ProtoEvent.down w v =
      ground (arith, v, g.write_resolv_conf (proto_down env i w) (proto_down-Inv i w v))
  proto_event_cb-Inv i ProtoEvent.link_lost w v =
      ground (arith, v, g.write_resolv_conf (proto_link_lost env i w), proto_link_lost-Inv i w v)
  proto_event_cb-Inv i ProtoEvent.renew w v = v

  view-add_data : (k d : String) (x : Iface) → SameView (add_data k d x) x
  unfolding add_data
  view-add_data k d x = ground arith

  add_all_data-Inv :
      (ds : List (Bool × String × String)) (i : ℕ) (w : World)
      → Inv w
      → Inv (add_all_data env ds i w).1
  unfolding add_all_data
  add_all_data-Inv [] i w v = v
  add_all_data-Inv ((b, k, d) ∷ ds) i w v =
      let x = add_data k d (w.iface i) in
      ground (
        arith,
        v,
        add_all_data-Inv ds i (put i x w) (put_same-Inv i x w (view-add_data k d (w.iface i)) v),
      )

  pub parse_data-Inv :
      (ds : List (Bool × String × String)) (i : ℕ) (w : World)
      → Inv w
      → Inv (parse_data env ds i w).1
  unfolding parse_data
  parse_data-Inv ds i w v =
      let x = record (w.iface i) { updated = 0 } in
      let p = add_all_data-Inv ds i (put i x w) (put_same-Inv i x w (refl, refl, refl) v) in
      ground (arith, p, proto_updated-Inv i (add_all_data env ds i (put i x w)).1 p)

  pub update_start-Inv : (i : ℕ) (b : Bool) (w : World) → Inv w → Inv (update_start env i b w)
  unfolding update_start
  update_start-Inv i b w v =
      let x = record (w.iface i) { updated = 0 } in
      let p = put_same-Inv i x w (refl, refl, refl) v in
      ground (arith, p, g.ip_update_start i (put i x w) p)
