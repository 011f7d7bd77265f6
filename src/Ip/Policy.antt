-- ===== src/Ip/Policy.antt =====
-- interface-ip.c: the rules that addresses and interfaces with a routing table of their own need.
use lede_netifd.Prelude.{
  ℕ, ◌+◌, Bool, true, false, not, Option, none, some, [], ◌∷◌, CString, codes, ◌==◌, if◌then◌else◌,
}
use lede_netifd.Ip.State.{DevAddr, IpSettings, SystemEnv, call}
use lede_netifd.Ip.State.{add_iprule, del_iprule}
use lede_netifd.Ip.Match.{IfAddr}
use lede_netifd.IpRule.{
  Rule, new_rule, with_flag, inet6, in_flag, src_flag, dest_flag, priority_flag, lookup_flag,
  action_flag,
}

-- IPRULE_PRIORITY_ADDR and its like.
abbrev pub priority_addr : ℕ
priority_addr = 10000

abbrev pub priority_addr_mask : ℕ
priority_addr_mask = 20000

abbrev pub priority_nw : ℕ
priority_nw = 90000

abbrev pub priority_reject : ℕ
priority_reject = 4200000000

abbrev pub blank_rule : ℕ → Rule
blank_rule priority = with_flag priority_flag (record (new_rule false 0) { priority = priority })

abbrev pub with_family : Bool → Rule → Rule
with_family v6 r = if v6 then with_flag inet6 r else r

abbrev with_addr : Option IfAddr → ℕ → Bool → Rule → Rule
with_addr none mask src r = r
with_addr (some a) mask true r = with_flag src_flag (record r { src_addr = a; src_mask = mask })
with_addr (some a) mask false r = with_flag dest_flag (record r { dest_addr = a; dest_mask = mask })

abbrev with_action : SystemEnv → Option CString → Rule → Rule
with_action env none r = r
with_action env (some a) r = with_flag action_flag (record r { action = env.iprule_action a })

abbrev with_target : SystemEnv → ℕ → Option CString → Rule → Rule
with_target env table action r =
    if not (table == 0)
    then with_flag lookup_flag (record r { lookup = table })
    else with_action env action r

abbrev with_in_dev : Option CString → Rule → Rule
with_in_dev none r = r
with_in_dev (some dev) r = with_flag in_flag (record r { in_dev = dev })

-- The rule that set_ip_source_policy builds; `in_dev` is the name of the interface's device.
unfoldable pub source_policy :
    SystemEnv → Bool → ℕ → Option IfAddr → ℕ → ℕ → Option CString → Option CString → Bool → Rule
source_policy env v6 priority addr mask table in_dev action src = with_family v6 (
    with_in_dev in_dev
      (with_target env table action (with_addr addr mask src (blank_rule priority))))

abbrev pub apply_rule : Bool → Rule → IpSettings → IpSettings
apply_rule add r = call (if add then add_iprule r else del_iprule r)

-- set_ip_lo_policy
unfoldable pub set_ip_lo_policy : Bool → Bool → IpSettings → IpSettings
set_ip_lo_policy add v6 s =
    let table = if v6 then s.ip6table else s.ip4table in
    let r = record (new_rule false 0) {
      flags = in_flag ∷ lookup_flag ∷ priority_flag ∷ [];
      priority = priority_nw + s.ifindex;
      lookup = table;
      in_dev = codes "lo";
    } in
    if table == 0 then s else apply_rule add (with_family v6 r) s

-- interface_add_addr_rules
unfoldable pub add_addr_rules : SystemEnv → DevAddr → Bool → IpSettings → IpSettings
unfolding source_policy
add_addr_rules env a enabled s =
    let v6 = a.flags.inet6 in
    let whole = if v6 then 128 else 32 in
    let from =
      source_policy env v6 priority_addr (some a.addr) whole a.policy_table none none true in
    let to =
      source_policy env v6 priority_addr_mask (some a.addr) a.mask a.policy_table none none false in
    apply_rule enabled to (apply_rule enabled from s)
