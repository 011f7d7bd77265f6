-- ===== src/Interface/Steady.antt =====
-- interface.c: the calls that an interface makes on its way down keep a predicate that the code behind
-- the pointers keeps.
use lede_netifd.Prelude.{if◌then◌else◌, ℕ, refl, arith, Bool, none, List, [], ◌∷◌}
use lede_netifd.Hotplug.{Event}
use lede_netifd.Interface.State.{Iface, World, Env, put, l3_dev, is_some}
use lede_netifd.Interface.Contract.{Calm, Quiet, SameView}
use lede_netifd.Interface.Errors.{error_flush}
use lede_netifd.Interface.Events.{
  note, call_users, after_event, interface_event, set_config_ip, set_proto_ip, set_ip, flush_state,
}

module _ (env : Env) (P : World → Type 0)
    (put_same : (i : ℕ) (x : Iface) (w : World) → SameView x (w.iface i) → P w → P (put i x w))
    (i : ℕ) (quiet : Quiet env i P) where
  pub set_config_ip_keeps : (b : Bool) (w : World) → P w → P (set_config_ip env i b w)
  unfolding set_config_ip
  set_config_ip_keeps b w p =
      let x = record (w.iface i) { config_ip_enabled = b } in
      quiet.config_ip_set b (put i x w) (put_same i x w (refl, refl, refl) p)

  pub set_proto_ip_keeps : (b : Bool) (w : World) → P w → P (set_proto_ip env i b w)
  unfolding set_proto_ip
  set_proto_ip_keeps b w p =
      let x = record (w.iface i) { proto_ip_enabled = b } in
      quiet.proto_ip_set b (put i x w) (put_same i x w (refl, refl, refl) p)

  pub set_ip_keeps : (b : Bool) (w : World) → P w → P (set_ip env i b w)
  unfolding set_ip
  set_ip_keeps b w p = set_proto_ip_keeps b (set_config_ip env i b w) (set_config_ip_keeps b w p)

module _ (env : Env) (P : World → Type 0)
    (put_same : (i : ℕ) (x : Iface) (w : World) → SameView x (w.iface i) → P w → P (put i x w))
    (i : ℕ) (calm : Calm env i P) where
  call_users_keeps : (ev : Event) (us : List ℕ) (w : World) → P w → P (call_users env i ev us w)
  unfolding call_users
  call_users_keeps ev [] w p = p
  call_users_keeps ev (u ∷ us) w p =
      call_users_keeps ev us (env.user_cb u i ev w) (calm.user_cb u ev w p)

  after_event_keeps : (ev : Event) (w : World) → P w → P (after_event env i ev w)
  unfolding after_event error_flush
  after_event_keeps Event.up w p =
      let v = put i (error_flush (w.iface i)) w in
      calm.alias_notify (v.iface i).l3_dev v
        (put_same i (error_flush (w.iface i)) w (refl, refl, refl) p)
  after_event_keeps Event.down w p = calm.alias_notify none w p
  after_event_keeps _ w p = p

  pub interface_event_keeps :
      (ev : Event) (w : World) → P (note i ev w) → P (interface_event env i ev w)
  unfolding interface_event
  interface_event_keeps ev w p =
      let v = note i ev w in
      let v1 = call_users env i ev (v.iface i).users v in
      after_event_keeps ev (call_users env i ev v1.all_users v1)
        (call_users_keeps ev v1.all_users v1 (call_users_keeps ev (v.iface i).users v p))

  pub flush_state_keeps : (w : World) → P w → P (flush_state env i w)
  unfolding flush_state
  flush_state_keeps w p =
      let v = if is_some (w.iface i).l3_dev then env.release l3_dev i w else w in
      put_same i (record (v.iface i) { values = [] }) v (refl, refl, refl)
        (ground (arith, p, calm.release l3_dev w p))
