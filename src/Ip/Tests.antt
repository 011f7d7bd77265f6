-- ===== src/Ip/Tests.antt =====
-- Addresses and routes of interface-ip.c at concrete values.
use lede_netifd.Prelude.{ℕ, ◌≡◌, refl, true, false, none, some, List, [], ◌∷◌, arith, codes, All}
use lede_netifd.Ip.State.{
  DevAddr, DevRoute, IpSettings, SystemEnv, add_address, add_route, add_subnet,
}
use lede_netifd.Ip.Match.{clear_if_addr, clear_bytes, zeros, match_if_addr, same_bytes}
use lede_netifd.Ip.Agree.{agree, match_if_addr-agree}
use lede_netifd.Ip.Tree.{
  update_proto_addr, install_route, update_proto_route, enable_route, keeps_addr, fill_broadcast,
  set_host_bits, same_flags,
}
use lede_netifd.Ip.Enable.{enable_addr}
use lede_netifd.Ip.Addresses.{has_subnet, kept_address-has_subnet, enable_addr-calls}
use lede_netifd.Ip.Sync.{RoutesRight}
use lede_netifd.Ip.Routes.{
  RouteOp, add_node, remove_node, set_enabled, run_op, run_ops, run_ops-RoutesRight,
}
use lede_netifd.Ip.Target.{
  Reach, by_route, find_target, add_target_route, AllFoundLonger, find_target-AllFoundLonger,
  no_flags, find_route_target, find_addr_target, find_route, find_addr, route_covers, addr_covers,
}
use lede_netifd.Ip.Leads.{any, leads, is_some, is_some-add_target_route}

-- A system that accepts everything.
abbrev willing : SystemEnv
willing = record {
  address_added = λ k a cs. true;
  route_added = λ k r cs. true;
  kernel_proto = some 2;
  iprule_action = λ s. 0;
}

-- One that refuses addresses.
abbrev refusing : SystemEnv
refusing = record willing { address_added = λ k a cs. false }

abbrev lan : IpSettings
lan = record {
  has_dev = true;
  enabled = true;
  no_defaultroute = false;
  addr_keys = [];
  addrs = λ k. none;
  route_keys = [];
  routes = λ k. none;
  updated_address = false;
  updated_route = false;
  metric = 5;
  ip4table = 0;
  ip6table = 0;
  ifname = codes "br-lan";
  ifindex = 3;
  policy_rules_set = false;
  calls = [];
}

abbrev to_net : ℕ → List ℕ → DevRoute
to_net mask addr = record {
  enabled = false;
  failed = false;
  nexthop = 10 ∷ 0 ∷ 0 ∷ 1 ∷ [];
  mtu = 0;
  rt_type = 0;
  proto = 0;
  valid_until = 0;
  flags = no_flags false;
  metric = 0;
  table = 0;
  mask = mask;
  sourcemask = 0;
  addr = addr;
  source = 0 ∷ 0 ∷ 0 ∷ 0 ∷ [];
}

abbrev default_route : DevRoute
default_route = to_net 0 (0 ∷ 0 ∷ 0 ∷ 0 ∷ [])

abbrev net_route : DevRoute
net_route = to_net 8 (10 ∷ 0 ∷ 0 ∷ 0 ∷ [])

abbrev lan_addr : DevAddr
lan_addr = record {
  enabled = false;
  failed = false;
  policy_table = 0;
  subnet = none;
  broadcast = 192 ∷ 168 ∷ 1 ∷ 255 ∷ [];
  valid_until = 0;
  preferred_until = 0;
  flags = no_flags false;
  mask = 24;
  addr = 192 ∷ 168 ∷ 1 ∷ 1 ∷ [];
}

clear_if_addr_test : clear_if_addr (192 ∷ 168 ∷ 55 ∷ 7 ∷ []) 20 ≡ 192 ∷ 168 ∷ 48 ∷ 0 ∷ []
unfolding clear_if_addr clear_bytes
clear_if_addr_test = refl

match_if_addr-agree_example :
    match_if_addr (192 ∷ 168 ∷ 55 ∷ 7 ∷ []) (192 ∷ 168 ∷ 63 ∷ 9 ∷ []) 20
    ≡ agree 20 (192 ∷ 168 ∷ 55 ∷ 7 ∷ []) (192 ∷ 168 ∷ 63 ∷ 9 ∷ [])
match_if_addr-agree_example =
    match_if_addr-agree (192 ∷ 168 ∷ 55 ∷ 7 ∷ []) (192 ∷ 168 ∷ 63 ∷ 9 ∷ []) 20 refl (omega arith)
      (omega arith)

broadcast_test :
    (fill_broadcast (record lan_addr { broadcast = [] })).broadcast ≡ lan_addr.broadcast
unfolding fill_broadcast set_host_bits
broadcast_test = refl

-- Two routes come, the settings are disabled and enabled, and one route goes.
abbrev route_history : List RouteOp
route_history =
    add_node 1 default_route (1 ∷ [])
    ∷ add_node 2 net_route (1 ∷ 2 ∷ [])
    ∷ set_enabled false
    ∷ set_enabled true
    ∷ remove_node 1 (2 ∷ [])
    ∷ []

abbrev two_routes : List RouteOp
two_routes = add_node 1 default_route (1 ∷ []) ∷ add_node 2 net_route (1 ∷ 2 ∷ []) ∷ []

two_routes_test : (run_ops willing two_routes lan).calls ≡ add_route 2 true ∷ add_route 1 true ∷ []
unfolding run_ops update_proto_route install_route enable_route
two_routes_test = refl

-- The same, and the settings are disabled.
abbrev switched : List RouteOp
switched =
    add_node 1 default_route (1 ∷ []) ∷ add_node 2 net_route (1 ∷ 2 ∷ []) ∷ set_enabled false ∷ []

run_ops-RoutesRight_example : RoutesRight (run_ops willing switched lan)
unfolding run_op update_proto_route install_route enable_route
run_ops-RoutesRight_example =
    run_ops-RoutesRight willing switched lan
      ((refl, λ j h. ground (arith, h)), ((refl, λ j h. ground (arith, h)), (refl, tt)))
      (record { installed_as = λ k. refl; enabled_as = λ k. refl; listed = λ k. refl })

-- An address that was added with its subnet route, and is configured again.
abbrev configured_addr : DevAddr
configured_addr = record lan_addr { enabled = true; subnet = some net_route }

abbrev with_subnet_route : IpSettings
with_subnet_route = record lan { calls = add_subnet 1 net_route ∷ add_address 1 true ∷ [] }

kept_address-has_subnet_example :
    has_subnet
      (update_proto_addr willing 1
        ((update_proto_addr willing 1
            (some configured_addr)
            (some lan_addr)
            with_subnet_route).addrs
          1)
        none
        (update_proto_addr willing 1
          (some configured_addr)
          (some lan_addr)
          with_subnet_route)).calls
      1
    ≡ true
unfolding keeps_addr fill_broadcast same_flags
kept_address-has_subnet_example =
    kept_address-has_subnet willing 1 configured_addr lan_addr with_subnet_route refl refl refl refl

enable_addr-calls_example :
    (update_proto_addr refusing 1
      ((enable_addr refusing 1 lan_addr lan).addrs 1)
      (some lan_addr)
      (enable_addr refusing 1 lan_addr lan)).calls
    ≡ (enable_addr refusing 1 lan_addr lan).calls
unfolding keeps_addr fill_broadcast same_flags
enable_addr-calls_example = enable_addr-calls refusing 1 lan_addr lan refl

-- An interface with a default route and a more specific one.
abbrev wan : Reach
wan = record {
  number = 4;
  proto_addrs = [];
  config_addrs = [];
  proto_routes = record net_route { enabled = true } ∷ record default_route { enabled = true } ∷ [];
  config_routes = [];
}

find_target_test :
    find_target (10 ∷ 1 ∷ 2 ∷ 3 ∷ []) false (wan ∷ []) none
    ≡ by_route 4 (record default_route { enabled = true })
unfolding find_target find_route_target find_addr_target find_route find_addr route_covers
    addr_covers match_if_addr clear_if_addr clear_bytes same_bytes zeros
find_target_test = refl

find_target-AllFoundLonger_example :
    All
      (AllFoundLonger
        (10 ∷ 1 ∷ 2 ∷ 3 ∷ [])
        false
        (find_target (10 ∷ 1 ∷ 2 ∷ 3 ∷ []) false (wan ∷ []) none))
      (wan ∷ [])
find_target-AllFoundLonger_example =
    find_target-AllFoundLonger (10 ∷ 1 ∷ 2 ∷ 3 ∷ []) false (wan ∷ []) none

is_some-add_target_route_example :
    is_some (add_target_route (10 ∷ 1 ∷ 2 ∷ 3 ∷ []) false (wan ∷ []))
    ≡ any (leads (10 ∷ 1 ∷ 2 ∷ 3 ∷ []) false) (wan ∷ [])
is_some-add_target_route_example = is_some-add_target_route (10 ∷ 1 ∷ 2 ∷ 3 ∷ []) false (wan ∷ [])
