-- ===== src/Ip/State.antt =====
-- interface-ip.h and interface.h: addresses, routes and the settings of an interface that hold them.
use lede_netifd.Prelude.{
  ◌==◌, not, update, CString, ◌||◌, if◌then◌else◌, Bool, List, Option, ◌∷◌, ℕ,
}
use lede_netifd.Ip.Match.{IfAddr}
use lede_netifd.IpRule.{Rule}

-- enum device_addr_flags
pub record AddrFlags : Type 0 where
  pub inet6 : Bool
  pub external : Bool
  pub has_metric : Bool
  pub has_mtu : Bool
  pub has_proto : Bool
  pub offlink : Bool
  pub has_table : Bool
  pub srctable : Bool
  pub onlink : Bool
  pub has_type : Bool

-- struct device_route without its list node and interface.
pub record DevRoute : Type 0 where
  pub enabled : Bool
  pub failed : Bool
  pub nexthop : IfAddr
  pub mtu : ℕ
  pub rt_type : ℕ
  pub proto : ℕ
  pub valid_until : ℕ
  pub flags : AddrFlags
  pub metric : ℕ
  pub table : ℕ
  pub mask : ℕ
  pub sourcemask : ℕ
  pub addr : IfAddr
  pub source : IfAddr

-- struct device_addr; the subnet route is there if its interface is set.
pub record DevAddr : Type 0 where
  pub enabled : Bool
  pub failed : Bool
  pub policy_table : ℕ
  pub subnet : Option DevRoute
  pub broadcast : List ℕ
  pub valid_until : ℕ
  pub preferred_until : ℕ
  pub flags : AddrFlags
  pub mask : ℕ
  pub addr : IfAddr

-- The system calls that the addresses and routes of one interface make, by the number of the tree's
-- key, with the outcome where the caller reads it.
pub data Call : Type 0 where
  add_address : ℕ → Bool → Call
  del_address : ℕ → Call
  add_route : ℕ → Bool → Call
  del_route : ℕ → Call
  add_subnet : ℕ → DevRoute → Call
  del_subnet : ℕ → DevRoute → Call
  add_iprule : Rule → Call
  del_iprule : Rule → Call

-- struct interface_ip_settings and what it reads of its interface. A tree is the keys of its nodes in
-- their order, and the node of each key; `has_dev` is `iface->l3_dev.dev` as a condition, and `calls` lists
-- the system calls, the latest first.
pub record IpSettings : Type 0 where
  pub has_dev : Bool
  pub enabled : Bool
  pub no_defaultroute : Bool
  pub addr_keys : List ℕ
  pub addrs : ℕ → Option DevAddr
  pub route_keys : List ℕ
  pub routes : ℕ → Option DevRoute
  pub updated_address : Bool
  pub updated_route : Bool
  pub metric : ℕ
  pub ip4table : ℕ
  pub ip6table : ℕ
  pub ifname : CString
  pub ifindex : ℕ
  pub policy_rules_set : Bool
  pub calls : List Call

-- The outcomes of system_add_address and system_add_route, and what the names of a protocol and of
-- actions resolve to.
pub record SystemEnv : Type 0 where
  pub address_added : ℕ → DevAddr → List Call → Bool
  pub route_added : ℕ → DevRoute → List Call → Bool
  pub kernel_proto : Option ℕ
  pub iprule_action : CString → ℕ

abbrev pub call : Call → IpSettings → IpSettings
call c s = record s { calls = c ∷ s.calls }

abbrev pub put_addr : ℕ → Option DevAddr → IpSettings → IpSettings
put_addr k a s = record s { addrs = update s.addrs k a }

abbrev pub put_route : ℕ → Option DevRoute → IpSettings → IpSettings
put_route k r s = record s { routes = update s.routes k r }

-- interface_set_route_info
unfoldable pub set_route_info : IpSettings → DevRoute → DevRoute
set_route_info s r =
    let m = if r.flags.has_metric then r.metric else s.metric in
    let t = if r.flags.inet6 then s.ip6table else s.ip4table in
    if r.flags.has_table then record r { metric = m } else record r {
      metric = m;
      table = t;
      flags = record r.flags { srctable = r.flags.srctable || not (t == 0) };
    }
