-- ===== src/Interface/Contract.antt =====
-- interface.c: what an interface promises to its users, as an automaton that hears the events.
use lede_netifd.Prelude.{
  String, ℕ, ◌≡◌, refl, arith, Bool, true, false, not, ◌||◌, Option, none, some, List, [], ◌∷◌,
  ◌++◌, ◌==◌, ==_iff, Bool-cases, inl, inr,
}
use lede_netifd.Hotplug.{Event}
use lede_netifd.ProtoShell.{ProtoEvent, Cmd}
use lede_netifd.Interface.State.{IfaceState, Slot, Iface, World, Env, put}
use lede_netifd.Interface.Events.{is_up, is_running}

-- What a user that believes the interface to be up, or not, makes of an event; `none` where the
-- event has no place.
abbrev pub hear : Bool → Event → Option Bool
hear false Event.up = some true
hear true Event.down = some false
hear true Event.updated = some true
hear true Event.link_up = some true
hear false Event.reload = some false
hear false Event.free = some false
hear _ _ = none

abbrev pub hear_next : Option Bool → Event → Option Bool
hear_next none ev = none
hear_next (some b) ev = hear b ev

unfoldable pub hear_all : Option Bool → List Event → Option Bool
hear_all b [] = b
hear_all b (e ∷ es) = hear_all (hear_next b e) es

pub hear_all-append :
    (b : Option Bool) (es : List Event) (e : Event)
    → hear_all b (es ++ e ∷ []) ≡ hear_next (hear_all b es) e
unfolding hear_all
hear_all-append b [] e = refl
hear_all-append b (x ∷ es) e = hear_all-append (hear_next b x) es e

-- Its users have been told the truth about the interface, step by step, and it runs only while it is
-- available.
abbrev pub Good : Iface → Type 0
Good x =
    (hear_all (some false) x.told ≡ some (is_up x.state))
    × (not (is_running x.state) || x.available ≡ true)

pub record Inv (w : World) : Type 0 where
  pub good : (i : ℕ) → Good (w.iface i)

-- The interface is down, and its availability as given.
abbrev pub Rests : ℕ → Bool → World → Type 0
Rests i b w = ((w.iface i).state ≡ IfaceState.down) × ((w.iface i).available ≡ b)

-- The addresses and routes of interface `i` are set without a change of a predicate.
pub record Quiet (env : Env) (i : ℕ) (P : World → Type 0) : Type 1 where
  pub config_ip_set : (b : Bool) (w : World) → P w → P (env.config_ip_set i b w)
  pub proto_ip_set : (b : Bool) (w : World) → P w → P (env.proto_ip_set i b w)
  pub ip_flush : (w : World) → P w → P (env.ip_flush i w)
  pub flush_routes : (w : World) → P w → P (env.flush_routes w)

-- The interface is being set up.
abbrev pub Starts : ℕ → World → Type 0
Starts i w = ((w.iface i).state ≡ IfaceState.setup) × ((w.iface i).available ≡ true)

-- The calls that are made of interface `i` when it goes down keep a predicate.
pub record Calm (env : Env) (i : ℕ) (P : World → Type 0) : Type 1 where
  pub user_cb : (u : ℕ) (ev : Event) (w : World) → P w → P (env.user_cb u i ev w)
  pub alias_notify : (d : Option ℕ) (w : World) → P w → P (env.alias_notify i d w)
  pub remove : (s : Slot) (w : World) → P w → P (env.add_user s i none w)
  pub release : (s : Slot) (w : World) → P w → P (env.release s i w)
  pub quiet : Quiet env i P
  pub proto_free : (w : World) → P w → P (env.proto_free i w)
  pub proto_attach : (w : World) → P w → P (env.proto_attach i w)

-- What is asked of the code behind the pointers: all of it keeps the promise, and the calls made of an
-- interface that goes down neither start that interface nor change whether it is available; what they
-- do to other interfaces, as interface_alias_cb does to the aliases of the interface, is free. An
-- interface that is being set up stays so while its layer 3 device and its addresses are set.
pub record Guarantee (env : Env) : Type 1 where
  pub calm : (i : ℕ) → Calm env i Inv
  pub rests : (i : ℕ) (b : Bool) → Calm env i (Rests i b)
  pub starts : (i : ℕ) → Quiet env i (Starts i)
  pub add_user_starts :
      (i : ℕ) (d : Option ℕ) (w : World) → Starts i w → Starts i (env.add_user Slot.l3_dev i d w)
  pub claim_starts : (i : ℕ) (w : World) → Starts i w → Starts i (env.claim Slot.l3_dev i w).1
  pub add_user : (s : Slot) (i : ℕ) (d : Option ℕ) (w : World) → Inv w → Inv (env.add_user s i d w)
  pub claim : (s : Slot) (i : ℕ) (w : World) → Inv w → Inv (env.claim s i w).1
  pub lock : (w : World) → Inv w → Inv (env.lock w)
  pub unlock : (w : World) → Inv w → Inv (env.unlock w)
  pub device_get : (name : String) (n : ℕ) (w : World) → Inv w → Inv (env.device_get name n w).1
  pub device_set_present : (d : ℕ) (w : World) → Inv w → Inv (env.device_set_present d w)
  pub set_device_config : (i d : ℕ) (w : World) → Inv w → Inv (env.set_device_config i d w)
  pub hotplug_add : (m d : ℕ) (w : World) → Inv w → Inv (env.hotplug_add m d w).1
  pub hotplug_del : (m d : ℕ) (w : World) → Inv w → Inv (env.hotplug_del m d w).1
  pub proto_cb : (i : ℕ) (c : Cmd) (f : Bool) (w : World) → Inv w → Inv (env.proto_cb i c f w).1
  pub proto_event : (i : ℕ) (e : ProtoEvent) (w : World) → Inv w → Inv (env.proto_event i e w)
  pub write_resolv_conf : (w : World) → Inv w → Inv (env.write_resolv_conf w)
  pub ip_update_start : (i : ℕ) (w : World) → Inv w → Inv (env.ip_update_start i w)
  pub ip_update_complete : (i : ℕ) (w : World) → Inv w → Inv (env.ip_update_complete i w)
  pub ubus_remove : (i : ℕ) (w : World) → Inv w → Inv (env.ubus_remove i w)

pub put-Inv : (i : ℕ) (x : Iface) (w : World) → Inv w → Good x → Inv (put i x w)
put-Inv i x w v g = record { good = λ j. ground (arith, v.good j) }

-- A change of what neither the state nor the users' view depends on.
abbrev pub SameView : Iface → Iface → Type 0
SameView x y = (x.told ≡ y.told) × (x.state ≡ y.state) × (x.available ≡ y.available)

pub put_same-Inv :
    (i : ℕ) (x : Iface) (w : World) → SameView x (w.iface i) → Inv w → Inv (put i x w)
put_same-Inv i x w s v = put-Inv i x w v (ground (arith, v.good i))

pub put_same-Starts :
    (k i : ℕ) (x : Iface) (w : World) → SameView x (w.iface i) → Starts k w → Starts k (put i x w)
put_same-Starts k i x w s r = ground arith

pub put_same-Rests :
    (k : ℕ) (b : Bool) (i : ℕ) (x : Iface) (w : World)
    → SameView x (w.iface i)
    → Rests k b w
    → Rests k b (put i x w)
put_same-Rests k b i x w s r = ground arith

-- The promise, but for the availability of one interface, which is about to stop.
pub record Near (i : ℕ) (w : World) : Type 0 where
  pub others : (j : ℕ) → (i == j) ≡ false → Good (w.iface j)
  pub heard : hear_all (some false) (w.iface i).told ≡ some (is_up (w.iface i).state)

pub Inv-Near : (i : ℕ) (w : World) → Inv w → Near i w
Inv-Near i w v = record { others = λ j _. v.good j; heard = (v.good i).0 }

pub put-Near :
    (i : ℕ) (x : Iface) (w : World)
    → Inv w
    → x.told ≡ (w.iface i).told
    → x.state ≡ (w.iface i).state
    → Near i (put i x w)
put-Near i x w v t s = record {
  others = λ j h. ground (arith, h, v.good j);
  heard = ground (arith, v.good i);
}

pub Near-put-Inv : (i : ℕ) (x : Iface) (w : World) → Near i w → Good x → Inv (put i x w)
Near-put-Inv i x w n g = record { good = λ j. ground (arith, n.others j) }

pub Near-Inv : (i : ℕ) (w : World) → Near i w → is_running (w.iface i).state ≡ false → Inv w
Near-Inv i w n r = record {
  good = λ j. elim (Bool-cases (i == j)) [
    | inl e ↦ rw⁻¹ ((==_iff i j).0 e) (n.heard, ground (arith, r))
    | inr e ↦ n.others j e
  ];
}
