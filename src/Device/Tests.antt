-- ===== src/Device/Tests.antt =====
-- A device with one user, and the theorems of device.c on it.
use mathlib.Core.Path.{subst}
use lede_netifd.Prelude.{
  ℕ, ◌≡◌, refl, sym, inl, inr, negsuc, true, false, none, some, List, [], ◌∷◌, pos, ◌==◌,
  if◌then◌else◌, arith, codes,
}
use lede_netifd.Device.Settings.{Settings, Attrs, Libc, init_settings, merge_settings}
use lede_netifd.Device.Settings.Merge.{InRange, init_settings-InRange}
use lede_netifd.Device.State.{Event, User, Device, World, Env}
use lede_netifd.Device.Ops.{
  broadcast, device_claim, device_release, set_disabled, set_present, set_deferred,
  set_present_flag, refresh_present,
}
use lede_netifd.Device.Invariant.{Inv}
use lede_netifd.Device.Claims.{
  Iterates, Guarantee, Claiming, Released, IsClaimEvent, IsReleaseEvent,
}
use lede_netifd.Device.Releases.{device_release-Inv}
use lede_netifd.Device.Lifecycle.{Op, perform, perform-Inv}
use lede_netifd.Device.Presence.{Right, presence}

abbrev no_settings : Settings
no_settings = record {
  flags = λ o. false;
  valid_flags = λ o. false;
  mtu = 0;
  mtu6 = 0;
  txqueuelen = 0;
  macaddr = [];
  ipv6 = false;
  promisc = false;
  rpfilter = 0;
  acceptlocal = false;
  igmpversion = 0;
  mldversion = 0;
  neigh4reachabletime = 0;
  neigh6reachabletime = 0;
  neigh4gcstaletime = 0;
  neigh6gcstaletime = 0;
  neigh4locktime = 0;
  rps = false;
  xps = false;
  dadtransmits = 0;
  multicast_to_unicast = false;
  multicast_router = 0;
  multicast_fast_leave = false;
  multicast = false;
  learning = false;
  unicast_flood = false;
  sendredirects = false;
}

abbrev no_attrs : Attrs
no_attrs = record {
  enabled = none;
  mtu = none;
  mtu6 = none;
  txqueuelen = none;
  macaddr = none;
  ipv6 = none;
  promisc = none;
  rpfilter = none;
  acceptlocal = none;
  igmpversion = none;
  mldversion = none;
  neighreachabletime = none;
  neighgcstaletime = none;
  neighlocktime = none;
  rps = none;
  xps = none;
  dadtransmits = none;
  multicast_to_unicast = none;
  multicast_router = none;
  multicast_fast_leave = none;
  multicast = none;
  learning = none;
  unicast_flood = none;
  sendredirects = none;
}

-- An MTU that is too small, and an rp_filter by name.
abbrev attrs : Attrs
attrs = record no_attrs { mtu = some 60; mtu6 = some 1400; rpfilter = some (codes "loose") }

abbrev libc : Libc
libc = record { ether_aton = λ s. none; strtoul = λ s. (0, s) }

init-merge_test :
    let s =
      merge_settings
        (init_settings libc true attrs no_settings)
        (record no_settings { mtu = 1500 }) in
    (s.mtu ≡ 1500) × (s.mtu6 ≡ 1400) × (s.rpfilter ≡ 2)
unfolding init_settings merge_settings
init-merge_test = (refl, refl, refl)

init_settings-InRange_example : InRange (init_settings libc true attrs no_settings)
init_settings-InRange_example = init_settings-InRange libc true attrs no_settings no_settings

abbrev device : Device
device = record {
  users = 7 ∷ [];
  aliases = [];
  ifname = codes "eth0";
  in_tree = true;
  ifindex = 2;
  config_pending = false;
  sys_present = true;
  present = true;
  active = 0;
  link_active = false;
  external = false;
  disabled = false;
  deferred = false;
  current_config = true;
  default_config = false;
  parent = 9;
  orig_settings = no_settings;
  settings = no_settings;
}

abbrev idle_device : Device
idle_device = record device { users = []; current_config = false }

abbrev idle_user : User
idle_user = record { claimed = false; hotplug = false; alias = false; has_cb = true; dev = none }

-- User 7 of device 3.
abbrev world : World
world = record {
  device = λ d. if d == 3 then device else idle_device;
  user = λ u. if u == 7 then record idle_user { dev = some 3 } else idle_user;
  devices = 3 ∷ [];
  devlock = 0;
  aborted = false;
  syscalls = [];
}

fold : List ℕ → (ℕ → World → World) → World → World
fold [] f w = w
fold (u ∷ us) f w = fold us f (f u w)

-- Nothing answers a callback, and every device can be brought up.
abbrev env : Env
env = record {
  cb = λ u ev w. w;
  set_state = λ d b w. (pos 0, w);
  type_free = λ d w. w;
  each = λ head f w. fold (head w) f w;
  if_resolve = λ d w. 2;
  if_get_settings = λ d w. no_settings;
  if_get_parent = λ d w. (none, w);
}

fold_calls :
    (P : World → Type 0) (us : List ℕ) (f : ℕ → World → World)
    → ((u : ℕ) (x : World) → P x → P (f u x))
    → (x : World) → P x
    → P (fold us f x)
unfolding fold
fold_calls P [] f keep x p = p
fold_calls P (u ∷ us) f keep x p = fold_calls P us f keep (f u x) (keep u x p)

env-Iterates : Iterates env.each
unfolding fold
env-Iterates = record {
  calls = λ P head f keep x p. fold_calls P (head x) f keep x p;
  empty = λ head f x e. rw e;
}

env-Guarantee : Guarantee env
env-Guarantee = record {
  iterates = env-Iterates;
  cb_Inv = λ u ev x v. v;
  set_state_Inv = λ d b x v. v;
  type_free_Inv = λ d x v. v;
  cb_Claiming = λ u d y ev x i c. c;
  set_state_failed = λ u d x v c e. inl c;
  cb_Released = λ u d y ev x i c. c;
  set_state_Released = λ u d x c. c;
  type_free_detached = λ u d x h. h;
}

world-Inv : Inv world
world-Inv = record {
  device_ok = λ d. record {
    distinct_users = ground arith;
    distinct_aliases = ground arith;
    users_linked = λ u m. ground arith;
    aliases_linked = λ u m. ground arith;
    counted = ground arith;
  };
  user_ok = λ u. record { listed = λ d h. ground arith; holds = λ h. ground arith };
  not_aborted = refl;
}

-- A user that gives up its claim when the device is gone, and no device that can be brought up.
abbrev release_gone : ℕ → Event → World → World
release_gone u Event.removed w = device_release env u w
release_gone u _ w = w

abbrev busy_env : Env
busy_env = record env { cb = release_gone; set_state = λ d b w. (negsuc 0, w) }

release_gone-Inv : (u : ℕ) (ev : Event) (x : World) → Inv x → Inv (release_gone u ev x)
release_gone-Inv u Event.removed x v = device_release-Inv env env-Guarantee u x v
release_gone-Inv u _ x v = v

claim_unmoved : (v : ℕ) (ev : Event) (x : World) → IsClaimEvent ev → release_gone v ev x ≡ x
claim_unmoved v ev x (inl e) = rw e refl
claim_unmoved v ev x (inr e) = rw e refl

release_unmoved : (v : ℕ) (ev : Event) (x : World) → IsReleaseEvent ev → release_gone v ev x ≡ x
release_unmoved v ev x (inl e) = rw e refl
release_unmoved v ev x (inr e) = rw e refl

busy_Guarantee : Guarantee busy_env
busy_Guarantee = record {
  iterates = env-Iterates;
  cb_Inv = release_gone-Inv;
  set_state_Inv = λ d b x v. v;
  type_free_Inv = λ d x v. v;
  cb_Claiming = λ u d y ev x i c. subst (Claiming u d) (sym (claim_unmoved y ev x i)) c;
  set_state_failed = λ u d x v c e. inl c;
  cb_Released = λ u d y ev x i c. subst (Released u d) (sym (release_unmoved y ev x i)) c;
  set_state_Released = λ u d x c. c;
  type_free_detached = λ u d x h. h;
}

abbrev claimed_world : World
claimed_world = perform env (Op.claim 7) world

claimed_world-Inv : Inv claimed_world
claimed_world-Inv = perform-Inv env env-Guarantee (Op.claim 7) world world-Inv

perform-Inv_example : Inv (perform busy_env (Op.present 3 false) claimed_world)
perform-Inv_example =
    perform-Inv busy_env busy_Guarantee (Op.present 3 false) claimed_world claimed_world-Inv

-- The device that goes is released by its user.
gone_test : ((set_present busy_env 3 false (device_claim env 7 world).1).device 3).active ≡ 0
unfolding device_claim device_release fold broadcast set_present refresh_present set_present_flag
gone_test = refl

-- The first claim brings the device up, and its release takes it down again.
claim_release_test :
    let (ret, w) = device_claim env 7 world in
    (ret ≡ pos 0) × ((w.device 3).active ≡ 1) × (((device_release env 7 w).device 3).active ≡ 0)
unfolding device_claim device_release fold broadcast
claim_release_test = (refl, refl, refl)

world-Right : Right world
world-Right = record { present = λ d. ground arith }

-- A callback that takes the device 5 away.
abbrev chain_env : Env
chain_env = record env { cb = λ u ev x. set_present env 5 false x }

presence_example :
    Right (set_present chain_env 3 false world)
    × Right (set_disabled chain_env 3 false world)
    × Right (set_deferred chain_env 3 false world)
presence_example =
    presence chain_env env-Iterates
      (λ u ev x r. (presence env env-Iterates (λ u ev x r. r) 5 false x r).0) 3 false world
      world-Right
