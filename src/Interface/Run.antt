-- ===== src/Interface/Run.antt =====
-- interface.c: histories of calls from devices, protocols, users and the configuration.
use lede_netifd.Prelude.{ℕ, zero, suc, Bool, Option, List, [], ◌∷◌, String}
use lede_netifd.Hotplug.{Event}
use lede_netifd.ProtoShell.{ProtoEvent}
use lede_netifd.Device.State.{Event as DeviceEvent}
use lede_netifd.Interface.State.{ConfigState, World, Env}
use lede_netifd.Interface.Contract.{Calm, Quiet, Guarantee, Inv, Rests, Starts}
use lede_netifd.Interface.Ops.{
  set_up, set_available, set_l3_dev, set_main_dev, main_dev_cb, l3_dev_cb, add_user, leave_parent,
  alias_cb, handle_link, set_down, set_down_all, start_pending,
}
use lede_netifd.Interface.Config.{
  claim_device, set_config_state, proto_event_cb, parse_data, update_start, update_complete,
}
use lede_netifd.Interface.Protocol.{proto_event_cb-Inv}

-- A call into interface.c.
pub data Call : Type 0 where
  main_event l3_event : ℕ → DeviceEvent → Call
  parent_event : ℕ → ℕ → Event → Call
  protocol_event : ℕ → ProtoEvent → Call
  available : ℕ → Bool → Call
  start halt leave claim : ℕ → Call
  halt_all start_all : Call
  join : ℕ → Option ℕ → Call
  use_l3_dev use_main_dev : ℕ → Option ℕ → Call
  link : ℕ → String → Bool → Bool → Call
  configure : ℕ → ConfigState → Call
  values : List (Bool × String × String) → ℕ → Call
  begin_update : ℕ → Bool → Call
  end_update : ℕ → Call

module _ (env : Env) where
  unfoldable pub run_call : Call → World → World
  run_call (main_event i e) w = main_dev_cb env i e w
  run_call (l3_event i e) w = l3_dev_cb env i e w
  run_call (parent_event a i e) w = alias_cb env a i e w
  run_call (protocol_event i e) w = proto_event_cb env i e w
  run_call (available i b) w = set_available env i b w
  run_call (start i) w = (set_up env i w).1
  run_call (halt i) w = set_down env i w
  run_call (leave i) w = leave_parent env i w
  run_call (claim i) w = claim_device env i w
  run_call halt_all w = set_down_all env w.order w
  run_call start_all w = start_pending env w.order w
  run_call (join u p) w = add_user env u p w
  run_call (use_l3_dev i d) w = set_l3_dev env i d w
  run_call (use_main_dev i d) w = set_main_dev env i d w
  run_call (link i name add ext) w = (handle_link env i name add ext w).1
  run_call (configure i c) w = set_config_state env i c w
  run_call (values ds i) w = (parse_data env ds i w).1
  run_call (begin_update i b) w = update_start env i b w
  run_call (end_update i) w = update_complete env i w

  unfoldable pub run_calls : List Call → World → World
  run_calls [] w = w
  run_calls (c ∷ cs) w = run_calls cs (run_call c w)

-- The function pointer set to interface_proto_event_cb itself, for calls nested up to `n` deep.
pub tie : ℕ → Env → Env
tie zero env = env
tie (suc n) env = record env { proto_event = proto_event_cb (tie n env) }

module _ (env : Env) (next : ℕ → ProtoEvent → World → World) where
  abbrev with_event : Env
  with_event = record env { proto_event = next }

  quiet-with_event : (i : ℕ) (P : World → Type 0) → Quiet env i P → Quiet with_event i P
  quiet-with_event i P q = record {
    config_ip_set = q.config_ip_set;
    proto_ip_set = q.proto_ip_set;
    ip_flush = q.ip_flush;
    flush_routes = q.flush_routes;
  }

  calm-with_event : (i : ℕ) (P : World → Type 0) → Calm env i P → Calm with_event i P
  calm-with_event i P c = record {
    user_cb = c.user_cb;
    alias_notify = c.alias_notify;
    remove = c.remove;
    release = c.release;
    quiet = quiet-with_event i P c.quiet;
    proto_free = c.proto_free;
    proto_attach = c.proto_attach;
  }

  with_event-Guarantee :
      Guarantee env
      → ((i : ℕ) (e : ProtoEvent) (w : World) → Inv w → Inv (next i e w))
      → Guarantee with_event
  with_event-Guarantee g h = record {
    calm = λ i. calm-with_event i Inv (g.calm i);
    rests = λ i b. calm-with_event i (Rests i b) (g.rests i b);
    starts = λ i. quiet-with_event i (Starts i) (g.starts i);
    add_user_starts = g.add_user_starts;
    claim_starts = g.claim_starts;
    add_user = g.add_user;
    claim = g.claim;
    lock = g.lock;
    unlock = g.unlock;
    device_get = g.device_get;
    device_set_present = g.device_set_present;
    set_device_config = g.set_device_config;
    hotplug_add = g.hotplug_add;
    hotplug_del = g.hotplug_del;
    proto_cb = g.proto_cb;
    proto_event = h;
    write_resolv_conf = g.write_resolv_conf;
    ip_update_start = g.ip_update_start;
    ip_update_complete = g.ip_update_complete;
    ubus_remove = g.ubus_remove;
  }

pub tie-Guarantee : (n : ℕ) (env : Env) → Guarantee env → Guarantee (tie n env)
unfolding tie
tie-Guarantee zero env g = g
tie-Guarantee (suc n) env g =
    with_event-Guarantee env (proto_event_cb (tie n env)) g
      (proto_event_cb-Inv (tie n env) (tie-Guarantee n env g))
