-- ===== src/Ip/Enable.antt =====
-- interface-ip.c: interface_ip_set_enabled.
use lede_netifd.Prelude.{
  ℕ, ◌+◌, Bool, true, false, not, ◌||◌, Option, none, some, List, [], ◌∷◌, codes, ◌==◌,
  if◌then◌else◌,
}
use lede_netifd.Ip.State.{
  DevAddr, DevRoute, IpSettings, SystemEnv, call, put_addr, put_route, set_route_info, add_address,
  del_address, add_route, del_route,
}
use lede_netifd.IpRule.{Rule}
use lede_netifd.Ip.Policy.{
  add_addr_rules, set_ip_lo_policy, source_policy, priority_reject, apply_rule,
}
use lede_netifd.Ip.Tree.{with_subnet, del_subnet_route, enable_route, same_bit}

module _ (env : SystemEnv) where
  abbrev pub rules_if_table : Bool → DevAddr → IpSettings → IpSettings
  rules_if_table on a s = if not (a.policy_table == 0) then add_addr_rules env a on s else s

  -- The branch that enables an address.
  unfoldable pub enable_addr : ℕ → DevAddr → IpSettings → IpSettings
  enable_addr k a s =
      let t = call (add_address k (env.address_added k a s.calls)) s in
      let b = record a { policy_table = if a.flags.inet6 then s.ip6table else s.ip4table } in
      let (c, u) = with_subnet env k b t in
      put_addr k (some (record c { enabled = true })) (rules_if_table true c u)

  -- The branch that disables an address.
  unfoldable pub disable_addr : ℕ → DevAddr → IpSettings → IpSettings
  disable_addr k a s =
      let (b, t) = del_subnet_route env k a s in
      put_addr k (some (record b { enabled = false }))
        (rules_if_table false b (call (del_address k) t))

  -- The body of the loop over the addresses.
  unfoldable pub toggle_addr : Bool → ℕ → Option DevAddr → IpSettings → IpSettings
  toggle_addr on k none s = s
  toggle_addr true k (some a) s = if a.flags.external || a.enabled then s else enable_addr k a s
  toggle_addr false k (some a) s =
      if a.flags.external || not a.enabled then s else disable_addr k a s

  unfoldable pub toggle_addrs : Bool → List ℕ → IpSettings → IpSettings
  toggle_addrs on [] s = s
  toggle_addrs on (k ∷ ks) s = toggle_addrs on ks (toggle_addr on k (s.addrs k) s)

  -- The branch that enables a route.
  unfoldable pub enable_a_route : ℕ → DevRoute → IpSettings → IpSettings
  enable_a_route k r s =
      let q = set_route_info s r in
      let ok = env.route_added k q s.calls in
      put_route k (some (record q { failed = q.failed || not ok; enabled = true }))
        (call (add_route k ok) s)

  unfoldable pub disable_a_route : ℕ → DevRoute → IpSettings → IpSettings
  disable_a_route k r s = put_route k (some (record r { enabled = false })) (call (del_route k) s)

  -- The body of the loop over the routes, where `ip->enabled` is set already.
  unfoldable pub toggle_route : ℕ → Option DevRoute → IpSettings → IpSettings
  toggle_route k none s = s
  toggle_route k (some r) s =
      let on = enable_route env s r in
      if r.flags.external || same_bit r.enabled on
      then s
      else if on
      then enable_a_route k r s
      else disable_a_route k r s

  unfoldable pub toggle_routes : List ℕ → IpSettings → IpSettings
  toggle_routes [] s = s
  toggle_routes (k ∷ ks) s = toggle_routes ks (toggle_route k (s.routes k) s)

  abbrev pub failed_policy : IpSettings → Rule
  failed_policy s =
      source_policy env true (priority_reject + s.ifindex) none 0 0 (some s.ifname)
        (some (codes "failed_policy")) true

  -- The rules at the end of interface_ip_set_enabled.
  unfoldable pub toggle_policies : Bool → IpSettings → IpSettings
  toggle_policies on s =
      let t = set_ip_lo_policy on false (set_ip_lo_policy on true s) in
      if same_bit s.policy_rules_set on
      then s
      else record (apply_rule on (failed_policy s) t) { policy_rules_set = on }

  -- The loops of interface_ip_set_enabled over the trees, where `ip->enabled` is set already.
  unfoldable pub toggle_trees : Bool → IpSettings → IpSettings
  toggle_trees on s = let t = toggle_addrs on s.addr_keys s in toggle_routes t.route_keys t

  -- interface_ip_set_enabled but for the addresses from assigned prefixes, which are not part of the
  -- settings.
  unfoldable pub ip_set_enabled : Bool → IpSettings → IpSettings
  unfolding toggle_trees
  ip_set_enabled on s =
      let t = record s { enabled = on } in
      let toggled = toggle_policies on (toggle_trees on t) in if s.has_dev then toggled else t
