-- ===== src/Bridge/Tests.antt =====
-- Bridges (bridge.c) with few members, and the theorems at them.
use lede_netifd.Prelude.{
  ℕ, ◌≡◌, refl, Bool, ◌&&◌, if_cases, if◌then◌else◌, arith, negsuc, true, false, none, some, [],
  ◌∷◌, pos, contains, ◌==◌,
}
use lede_netifd.Bridge.{
  member_added, enable_member, claim_member, enable_failed, enable_added, first_added,
  enable_interface, member_removed, Member, Bridge, Env, first_present, reset_primary,
  remove_member, absent_member,
}
use lede_netifd.Bridge.Members.{Calls, Counts, HasMembers, Guarantee}
use lede_netifd.Bridge.Enable.{enable_member-Counts, enable_member-list, member-Tracked}
use lede_netifd.Bridge.Events.{removed, added, run_call, run_call-Counts}
use lede_netifd.Bridge.Primary.{reset_primary_lem, remove_member-primary}

-- Code around the bridge that does nothing.
abbrev still_env : Env
still_env = record {
  addbr = λ b. (pos 0, b);
  delbr = λ b. b;
  addif = λ m b. (pos 0, b);
  delif = λ m b. b;
  claim = λ m b. (pos 0, b);
  release = λ m b. b;
  topo_change = λ b. b;
  set_present = λ v b. b;
  apply_mtu = λ b. b;
  set_state = λ v b. (pos 0, b);
  remove_user = λ m b. b;
  toggle_present = λ m b. b;
  dev_present = λ m b. true;
}

-- No member can be added, and an interface that sees the bridge come enables its member 1.
abbrev refusing_env : Env
refusing_env = record still_env { addif = λ m b. (negsuc 0, b) }

abbrev live_env : Env
live_env = record refusing_env {
  set_present = λ v b. if v && contains b.members 1 then (enable_member refusing_env 1 b).1 else b;
}

refusing_calls : (P : Bridge → Type 0) → Calls refusing_env P
refusing_calls P = record {
  addbr = λ b p. p;
  delbr = λ b p. p;
  addif = λ m b p. p;
  delif = λ m b p. p;
  claim = λ m b p. p;
  release = λ m b p. p;
  topo_change = λ b p. p;
}

refusing_Guarantee : Guarantee refusing_env
refusing_Guarantee = record {
  counts = λ e. refusing_calls _;
  stays = λ e m. refusing_calls _;
  lists = λ ms. refusing_calls _;
  set_present_lists = λ ms v b p. p;
  set_present = λ e v b p. p;
  apply_mtu = λ e b p. p;
  set_state = λ e v b p. p;
  remove_user = λ e m b p. p;
  toggle_present = λ e m b p. p;
}

live_calls : (P : Bridge → Type 0) → Calls live_env P
live_calls P = record {
  addbr = λ b p. p;
  delbr = λ b p. p;
  addif = λ m b p. p;
  delif = λ m b p. p;
  claim = λ m b p. p;
  release = λ m b p. p;
  topo_change = λ b p. p;
}

live_present :
    (P : Bridge → Type 0) (v : Bool) (b : Bridge)
    → P b
    → (contains b.members 1 ≡ true → P (enable_member refusing_env 1 b).1)
    → P (live_env.set_present v b)
live_present P v b p h =
    if_cases P (v && contains b.members 1) (enable_member refusing_env 1 b).1 b
      (λ c. h (ground (arith, c))) (λ c. p)

live_Guarantee : Guarantee live_env
live_Guarantee = record {
  counts = λ e. live_calls _;
  stays = λ e m. live_calls _;
  lists = λ ms. live_calls _;
  set_present_lists = λ ms v b p.
      live_present (HasMembers ms) v b p
        (λ c. enable_member-list refusing_env refusing_Guarantee none ms 1 b p);
  set_present = λ e v b p. live_present (Counts e) v b p (λ c.
      enable_member-Counts refusing_env refusing_Guarantee e 1 b p
        (member-Tracked refusing_env refusing_Guarantee e 1 b c));
  apply_mtu = λ e b p. p;
  set_state = λ e v b p. p;
  remove_user = λ e m b p. p;
  toggle_present = λ e m b p. p;
}

abbrev port : ℕ → Member
port m = record {
  present = m == 1;
  hotplug = false;
  ipv6_flag = false;
  mac = [];
  has_mac = false;
  orig_mac = m ∷ [];
}

-- Of the members 1 and 2 the first is present.
abbrev lan : Bridge
lan = record {
  member = port;
  members = 1 ∷ 2 ∷ [];
  active = true;
  force_active = true;
  bridge_empty = true;
  primary_port = some 1;
  n_present = 1;
  n_failed = 0;
  retry = none;
  dev_active = false;
  mac = some (1 ∷ []);
}

lan-Counts : Counts none lan
lan-Counts = record { distinct = (refl, (refl, tt)); outside = tt; count = refl }

-- No member is present, and 1 comes.
abbrev empty_lan : Bridge
empty_lan = record lan { member = λ m. record (port m) { present = false }; n_present = 0 }

empty_lan-Counts : Counts none empty_lan
empty_lan-Counts = record { distinct = (refl, (refl, tt)); outside = tt; count = refl }

run_call-Counts_example : Counts none (run_call live_env (added 1) empty_lan)
run_call-Counts_example =
    run_call-Counts live_env live_Guarantee (added 1) empty_lan empty_lan-Counts (refl, refl)

-- The member that came is absent again, since the bridge was claimed and it could not be added.
added_test : (run_call live_env (added 1) empty_lan).n_present ≡ 0
unfolding run_call member_added enable_added first_added enable_member claim_member enable_failed
    enable_interface
added_test = refl

-- The removed member was the only one that was present.
removed_test : (run_call still_env (removed 1) lan).n_present ≡ 0
unfolding run_call member_removed remove_member absent_member reset_primary first_present
removed_test = refl

reset_primary_lem_example :
    (contains lan.members 1 ≡ true)
    × ((lan.member 1).present ≡ true)
    × ((reset_primary lan).mac ≡ some (1 ∷ []))
unfolding reset_primary first_present
reset_primary_lem_example = reset_primary_lem lan 1 refl

remove_member-primary_example :
    ((remove_member still_env 1 lan).primary_port ≡ some 1)
    × (((remove_member still_env 1 lan).member 1).present ≡ false)
unfolding first_present
remove_member-primary_example = remove_member-primary still_env 1 lan refl refl refl refl
