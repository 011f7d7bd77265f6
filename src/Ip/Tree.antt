-- ===== src/Ip/Tree.antt =====
-- interface-ip.c: the callbacks of the trees of addresses and routes, and interface_ip_set_enabled.
use lede_netifd.Prelude.{
  ℕ, ◌+◌, ◌-◌, ◌*◌, ◌/◌, ◌^◌, Bool, true, false, not, ◌&&◌, ◌||◌, Option, none, some, List, [], ◌∷◌,
  leb, ◌==◌, if◌then◌else◌,
}
use lede_netifd.Ip.State.{
  AddrFlags, DevAddr, DevRoute, IpSettings, SystemEnv, call, put_addr, put_route, set_route_info,
  add_address, del_address, add_route, del_route, add_subnet, del_subnet,
}
use lede_netifd.Ip.Match.{clear_if_addr, same_bytes}
use lede_netifd.Ip.Policy.{add_addr_rules}

-- The part of device_route that interface_handle_subnet_route fills in.
unfoldable pub subnet_route : DevAddr → DevRoute
subnet_route a = record {
  enabled = false;
  failed = false;
  nexthop = [];
  mtu = 0;
  rt_type = 0;
  proto = 0;
  valid_until = 0;
  flags = a.flags;
  metric = 0;
  table = 0;
  mask = a.mask;
  sourcemask = 0;
  addr = clear_if_addr a.addr a.mask;
  source = [];
}

-- The largest value of a uint32_t address, and the host bits of one with a netmask in front.
abbrev pub all_ones : List ℕ
all_ones = 255 ∷ 255 ∷ 255 ∷ 255 ∷ []

-- `x | ((1 << k) - 1)` for a byte, where k is at most 8.
abbrev pub set_low : ℕ → ℕ → ℕ
set_low k x = x / 2 ^ k * 2 ^ k + (2 ^ k - 1)

-- `*a | htonl(~0 >> mask)` on the bytes of the address.
unfoldable pub set_host_bits : ℕ → List ℕ → List ℕ
set_host_bits mask [] = []
set_host_bits mask (x ∷ xs) =
    (if leb 8 mask then x else set_low (8 - mask) x) ∷ set_host_bits (mask - 8) xs

-- The first four bytes of an address, its IPv4 member.
abbrev in_bytes : List ℕ → List ℕ
in_bytes (a ∷ b ∷ c ∷ d ∷ _) = a ∷ b ∷ c ∷ d ∷ []
in_bytes xs = xs

abbrev is_zero : List ℕ → Bool
is_zero [] = true
is_zero (x ∷ xs) = x == 0 && is_zero xs

-- The broadcast address that interface_update_proto_addr gives a new address without one.
unfoldable pub fill_broadcast : DevAddr → DevAddr
unfolding set_host_bits
fill_broadcast a =
    if not a.flags.inet6 && is_zero a.broadcast
    then record a {
      broadcast = if leb 31 a.mask then all_ones else set_host_bits a.mask (in_bytes a.addr);
    }
    else a

abbrev pub same_bit : Bool → Bool → Bool
same_bit true b = b
same_bit false b = not b

-- Equality of the numbers whose bits the flags are.
unfoldable pub same_flags : AddrFlags → AddrFlags → Bool
same_flags f g =
    same_bit f.inet6 g.inet6
    && (same_bit f.external g.external
        && (same_bit f.has_metric g.has_metric
            && (same_bit f.has_mtu g.has_mtu
                && (same_bit f.has_proto g.has_proto
                    && (same_bit f.offlink g.offlink
                        && (same_bit f.has_table g.has_table
                            && (same_bit f.srctable g.srctable
                                && (same_bit f.onlink g.onlink
                                    && same_bit f.has_type g.has_type))))))))

module _ (env : SystemEnv) where
  -- interface_handle_subnet_route with `add` unset.
  unfoldable pub del_subnet_route : ℕ → DevAddr → IpSettings → DevAddr × IpSettings
  del_subnet_route k a s = if a.flags.offlink then (a, s) else elim a.subnet [
    | none ↦ (a, s)
    | some r ↦ (record a { subnet = none }, call (del_subnet k r) s)
  ]

  -- interface_handle_subnet_route with `add` set.
  unfoldable pub add_subnet_route : ℕ → DevAddr → IpSettings → DevAddr × IpSettings
  unfolding subnet_route set_route_info
  add_subnet_route k a s =
      let r = subnet_route a in
      if a.flags.offlink then (a, s) else elim env.kernel_proto [
        | none ↦ (record a { subnet = some r }, s)
        | some p ↦
            let q = record r { proto = p; flags = record r.flags { has_proto = true } } in
            let t = call (del_subnet k q) s in
            let final =
              set_route_info t (record q { flags = record q.flags { has_proto = false } }) in
            (record a { subnet = some final }, call (add_subnet k final) t)
      ]

  -- What interface_update_proto_addr compares of the old and the new address of one key.
  unfoldable pub keeps_addr : DevAddr → DevAddr → Bool
  unfolding same_bytes
  keeps_addr old new =
      same_flags old.flags new.flags
      && (not old.failed && (new.flags.inet6 || same_bytes new.broadcast old.broadcast))

  abbrev pub new_times : DevAddr → DevAddr → Bool
  new_times old new =
      not (old.valid_until == new.valid_until && old.preferred_until == new.preferred_until)

  -- The branch on `node_old` that takes the address from the system.
  unfoldable pub drop_addr : ℕ → DevAddr → IpSettings → IpSettings
  drop_addr k old s =
      let t = if not (old.policy_table == 0) then add_addr_rules env old false s else s in
      if old.flags.external then t else call (del_address k) (del_subnet_route k old t).1

  abbrev pub needs_subnet : DevAddr → IpSettings → Bool
  needs_subnet a s = not (s.metric == 0) || not (a.policy_table == 0)

  abbrev pub with_subnet : ℕ → DevAddr → IpSettings → DevAddr × IpSettings
  with_subnet k a s = if needs_subnet a s then add_subnet_route k a s else (a, s)

  -- system_add_address with what follows it for an address that is not external.
  unfoldable pub bring_addr : ℕ → DevAddr → IpSettings → DevAddr × IpSettings
  bring_addr k a s =
      let ok = env.address_added k a s.calls in
      let t = call (add_address k ok) s in
      if a.flags.external
      then (a, s)
      else with_subnet k (record a { failed = a.failed || not ok }) t

  unfoldable pub with_rules : Bool → DevAddr → IpSettings → IpSettings
  with_rules keep a s =
      if not keep && not (a.policy_table == 0) then add_addr_rules env a true s else s

  -- The branch on `node_new`.
  unfoldable pub install_addr : ℕ → DevAddr → Bool → Bool → IpSettings → IpSettings
  install_addr k new keep replace s =
      let table = if new.flags.inet6 then s.ip6table else s.ip4table in
      let a = record new { enabled = true; policy_table = table } in
      let (b, t) = bring_addr k a s in
      if not keep || replace
      then put_addr k (some b) (with_rules keep b t)
      else put_addr k (some a) s

  -- interface_update_proto_addr for a key with an old node, a new one, or both.
  unfoldable pub update_proto_addr : ℕ → Option DevAddr → Option DevAddr → IpSettings → IpSettings
  update_proto_addr k none none s = record s { updated_address = true }
  update_proto_addr k none (some new) s =
      install_addr k (fill_broadcast new) false false (record s { updated_address = true })
  update_proto_addr k (some old) none s =
      let t = record s { updated_address = true } in
      put_addr k none (if old.enabled then drop_addr k old t else t)
  update_proto_addr k (some old) (some new) s =
      let a = fill_broadcast new in
      let keep = keeps_addr old a in
      let t = if old.enabled && not keep then drop_addr k old s else s in
      install_addr k a keep (new_times old a) t

  -- enable_route
  unfoldable pub enable_route : IpSettings → DevRoute → Bool
  enable_route s r = if s.no_defaultroute && r.mask == 0 then false else s.enabled

  unfoldable pub keeps_route : DevRoute → DevRoute → Bool
  unfolding same_bytes
  keeps_route old new =
      same_bytes old.nexthop new.nexthop
      && (old.mtu == new.mtu
          && (old.rt_type == new.rt_type && (old.proto == new.proto && not old.failed)))

  -- The branch on `node_old`.
  unfoldable pub drop_route : ℕ → DevRoute → Bool → IpSettings → IpSettings
  drop_route k old keep s =
      if not old.flags.external && (old.enabled && not keep) then call (del_route k) s else s

  -- The branch on `node_new`.
  unfoldable pub install_route : ℕ → DevRoute → Bool → IpSettings → IpSettings
  install_route k new keep s =
      let on = enable_route s new in
      let ok = env.route_added k new s.calls in
      if not new.flags.external && (not keep && on)
      then put_route k (some (record new { enabled = on; failed = new.failed || not ok }))
          (call (add_route k ok) s)
      else put_route k (some (record new { enabled = on })) s

  -- interface_update_proto_route
  unfoldable pub update_proto_route :
      ℕ → Option DevRoute → Option DevRoute → IpSettings → IpSettings
  update_proto_route k none none s = record s { updated_route = true }
  update_proto_route k none (some new) s =
      install_route k new false (record s { updated_route = true })
  update_proto_route k (some old) none s =
      put_route k none (drop_route k old false (record s { updated_route = true }))
  update_proto_route k (some old) (some new) s =
      let keep = keeps_route old new in install_route k new keep (drop_route k old keep s)

  abbrev pub drop_host : ℕ → Option DevRoute → IpSettings → IpSettings
  drop_host k none s = s
  drop_host k (some r) s = call (del_route k) s

  abbrev pub add_host : ℕ → Option DevRoute → IpSettings → IpSettings
  add_host k none s = put_route k none s
  add_host k (some r) s =
      let ok = env.route_added k r s.calls in
      put_route k (some (record r { failed = r.failed || not ok })) (call (add_route k ok) s)

  -- interface_update_host_route, on the tree of host routes.
  unfoldable pub update_host_route : ℕ → Option DevRoute → Option DevRoute → IpSettings → IpSettings
  update_host_route k old new s = add_host k new (drop_host k old s)
