-- ===== src/Proto.antt =====
-- proto.c: the addresses, gateways and prefixes that a protocol sets on an interface, from its static
-- options and from the reports of a script. A message is given as blobmsg_parse leaves it: an attribute
-- is there only with the type of its policy. Memory is taken to be there, and the clock to stand still
-- while one message is read.
use lede_netifd.Prelude.{
  ℕ, zero, suc, ◌+◌, ◌-◌, ◌*◌, ◌/◌, ◌%◌, ◌^◌, ◌≤◌, ◌<◌, Ordering, String, if_ind, if_cases, ◌≡◌,
  refl, sym, ap, ◌∙◌, ◌≢◌, ◌↔◌, ◌⊎◌, inl, inr, Bool, true, false, not, ◌&&◌, ◌||◌, Option, none,
  some, List, [], ◌∷◌, ◌++◌, map, arith, CString, codes, strcmp, str_eq, ltb, leb, ◌==◌,
  if◌then◌else◌, ltb→lt, lt→ltb, leb→le, ==_iff, Bool-cases, Option-cases, contains, remove,
  Distinct, update, length, get_elem?, All, length-append, ℤ, pos, negsuc, is_negative, is_nonzero,
}
use lede_netifd.Utils.Netmask.{
  Libc, strchr, before, slash, parse_netmask_string, parse_ip_and_netmask,
}
use lede_netifd.Ip.State.{AddrFlags, DevAddr, DevRoute}
use lede_netifd.Ip.Match.{IfAddr}
pub mod Apply
mod Bounds
mod Settings
mod Tests

-- The C library and the system: atoi gives the low 32 bits, and the two tests of an address are those of
-- IN_EXPERIMENTAL and IN6_IS_ADDR_MULTICAST.
pub record ProtoEnv : Type 0 where
  pub libc : Libc
  pub atoi : CString → ℕ
  pub experimental : IfAddr → Bool
  pub multicast : IfAddr → Bool
  pub now : ℕ
  pub long_max : ℕ

-- struct device_addr, with the fields that DevAddr leaves out.
pub record ProtoAddr : Type 0 where
  pub dev : DevAddr
  pub point_to_point : IfAddr
  pub pclass : Option CString

-- The arguments of interface_ip_add_device_prefix.
pub record PrefixCall : Type 0 where
  pub addr : IfAddr
  pub len : ℕ
  pub valid_until : ℕ
  pub preferred_until : ℕ
  pub excl : Option (IfAddr × ℕ)
  pub pclass : Option CString

-- The errors that are reported on the interface, with the string at fault.
pub data ProtoError : Type 0 where
  invalid_address : CString → ProtoError
  invalid_gateway : CString → ProtoError
  invalid_netmask : ProtoError
  invalid_broadcast : ProtoError

-- What the functions read and write of the interface; the latest of each list is first.
pub record ProtoIp : Type 0 where
  pub metric : ℕ
  pub ip4table : ℕ
  pub ip6table : ℕ
  pub addrs : List ProtoAddr
  pub routes : List DevRoute
  pub prefixes : List PrefixCall
  pub errors : List ProtoError

-- An element of an array of strings, or of one of tables, that may have another type.
pub data Elem {ℓ} (A : Type ℓ) : Type ℓ where
  elem : A → Elem A
  other_type : Elem A

-- proto_ip_addr
pub record AddrItem : Type 0 where
  pub ipaddr : Option CString
  pub mask : Option CString
  pub broadcast : Option CString
  pub ptp : Option CString
  pub preferred : Option ℕ
  pub valid : Option ℕ
  pub offlink : Option Bool
  pub pclass : Option CString

abbrev pub addr_flags : Bool → Bool → AddrFlags
addr_flags v6 ext = record {
  inet6 = v6;
  external = ext;
  has_metric = false;
  has_mtu = false;
  has_proto = false;
  offlink = false;
  has_table = false;
  srctable = false;
  onlink = false;
  has_type = false;
}

-- alloc_device_addr; no bytes stand for an address that is all 0.
abbrev pub alloc_device_addr : Bool → Bool → ProtoAddr
alloc_device_addr v6 ext = record {
  dev = record {
    enabled = false;
    failed = false;
    policy_table = 0;
    subnet = none;
    broadcast = [];
    valid_until = 0;
    preferred_until = 0;
    flags = addr_flags v6 ext;
    mask = 0;
    addr = [];
  };
  point_to_point = [];
  pclass = none;
}

abbrev pub max_mask : Bool → ℕ
max_mask v6 = if v6 then 128 else 32

abbrev pub put_parsed : ProtoAddr → ProtoIp → ProtoIp
put_parsed a s = record s { addrs = a ∷ s.addrs }

abbrev pub add_proto_error : ProtoError → ProtoIp → ProtoIp
add_proto_error e s = record s { errors = e ∷ s.errors }

module _ (env : ProtoEnv) where
  -- The address that parse_addr adds.
  unfoldable pub static_addr : Bool → Bool → List ℕ → Bool → ℕ → IfAddr → ProtoAddr
  static_addr v6 ext broadcast deprecated mask addr =
      let blank = alloc_device_addr v6 ext in
      record blank {
        dev = record blank.dev {
          mask = mask;
          addr = addr;
          broadcast = broadcast;
          preferred_until = if deprecated then env.now else 0;
        };
      }

  refused : Bool → IfAddr → Bool
  refused v6 a = if v6 then env.multicast a else env.experimental a

  accepted_addr : Bool → Option IfAddr → Option IfAddr
  unfolding refused
  accepted_addr v6 none = none
  accepted_addr v6 (some a) = if refused v6 a then none else some a

  -- parse_addr: the interface, and whether the address was added.
  unfoldable pub parse_addr : CString → Bool → ℕ → Bool → List ℕ → Bool → ProtoIp → ProtoIp × Bool
  unfolding accepted_addr static_addr parse_ip_and_netmask
  parse_addr str v6 netmask ext broadcast deprecated s =
      let parsed = parse_ip_and_netmask env.libc v6 str netmask in
      elim (accepted_addr v6 parsed.0) [
        | none ↦ (add_proto_error (invalid_address str) s, false)
        | some a ↦ (put_parsed (static_addr v6 ext broadcast deprecated parsed.1 a) s, true)
      ]

  -- The loop of parse_static_address_option, with the count so far; none for -1.
  unfoldable pub parse_static_address_option :
      List (Elem CString) → Bool → ℕ → Bool → List ℕ → Bool → ℕ → ProtoIp → ProtoIp × Option ℕ
  unfolding parse_addr
  parse_static_address_option [] v6 netmask ext broadcast deprecated n s = (s, some n)
  parse_static_address_option (other_type ∷ es) v6 netmask ext broadcast deprecated n s = (s, none)
  parse_static_address_option (elem str ∷ es) v6 netmask ext broadcast deprecated n s =
      let (t, added) = parse_addr str v6 netmask ext broadcast deprecated s in
      let rest = parse_static_address_option es v6 netmask ext broadcast deprecated (n + 1) t in
      if added then rest else (t, none)

  -- The netmask of an item.
  unfoldable pub item_mask : Bool → Option CString → Option ℕ
  unfolding parse_netmask_string
  item_mask v6 none = some (max_mask v6)
  item_mask v6 (some str) =
      let new_mask = parse_netmask_string env.libc str v6 in
      if ltb (max_mask v6) new_mask then none else some new_mask

  -- A time of an item: 0 if there is none, if it is the one without end or past the end of a long.
  unfoldable pub item_until : Option ℕ → ℕ
  item_until none = 0
  item_until (some t) =
      if leb (t + env.now) env.long_max && not (t == 4294967295) then t + env.now else 0

  -- The times of an item, the valid one first.
  unfoldable pub item_times : ℕ → ℕ → Option (ℕ × ℕ)
  item_times valid preferred =
      if valid == 0
      then some (valid, preferred)
      else if preferred == 0
      then some (valid, valid)
      else if ltb valid preferred
      then none
      else some (valid, preferred)

  -- An IPv4 address that may be missing.
  optional_addr : Option CString → Option IfAddr
  optional_addr none = some []
  optional_addr (some str) = env.libc.inet_pton false str

  required_addr : Bool → Option CString → Option IfAddr
  required_addr v6 none = none
  required_addr v6 (some str) = env.libc.inet_pton v6 str

  is_offlink : Option Bool → Bool
  is_offlink none = false
  is_offlink (some b) = b

  -- An item with its mask and its address.
  unfoldable pub item_with : Bool → Bool → AddrItem → Option ℕ → Option IfAddr → Option ProtoAddr
  unfolding is_offlink
  item_with v6 ext item (some m) (some a) =
      let blank = alloc_device_addr v6 ext in
      some (record blank {
        dev = record blank.dev {
          mask = m;
          addr = a;
          flags = record (addr_flags v6 ext) { offlink = is_offlink item.offlink };
        };
      })
  item_with v6 ext item _ _ = none

  -- The part of parse_address_item up to the families.
  unfoldable pub item_addr : Bool → Bool → AddrItem → Option ProtoAddr
  unfolding item_mask required_addr item_with
  item_addr v6 ext item =
      item_with v6 ext item (item_mask v6 item.mask) (required_addr v6 item.ipaddr)

  unfoldable pub with_ipv4 : ProtoAddr → Option IfAddr → Option IfAddr → Option ProtoAddr
  with_ipv4 a (some b) (some p) =
      some (record a { dev = record a.dev { broadcast = b }; point_to_point = p })
  with_ipv4 a _ _ = none

  unfoldable pub item_ipv4 : AddrItem → ProtoAddr → Option ProtoAddr
  unfolding optional_addr with_ipv4
  item_ipv4 item a = with_ipv4 a (optional_addr item.broadcast) (optional_addr item.ptp)

  unfoldable pub with_times : AddrItem → ProtoAddr → Option (ℕ × ℕ) → Option ProtoAddr
  with_times item a none = none
  with_times item a (some (v, p)) = some (record a {
    dev = record a.dev { valid_until = v; preferred_until = p };
    pclass = item.pclass;
  })

  unfoldable pub item_ipv6 : AddrItem → ProtoAddr → Option ProtoAddr
  unfolding item_until item_times with_times
  item_ipv6 item a =
      with_times item a (item_times (item_until item.valid) (item_until item.preferred))

  -- The part of parse_address_item that depends on the family.
  unfoldable pub by_family : Bool → AddrItem → Option ProtoAddr → Option ProtoAddr
  unfolding item_ipv4 item_ipv6
  by_family v6 item none = none
  by_family v6 item (some a) =
      let ipv6 = item_ipv6 item a in let ipv4 = item_ipv4 item a in if v6 then ipv6 else ipv4

  -- parse_address_item
  unfoldable pub parse_address_item : Elem AddrItem → Bool → Bool → Option ProtoAddr
  unfolding item_addr by_family
  parse_address_item other_type v6 ext = none
  parse_address_item (elem item) v6 ext = by_family v6 item (item_addr v6 ext item)

  -- The loop of parse_address_list.
  unfoldable pub parse_address_list :
      List (Elem AddrItem) → Bool → Bool → ℕ → ProtoIp → ProtoIp × Option ℕ
  unfolding parse_address_item
  parse_address_list [] v6 ext n s = (s, some n)
  parse_address_list (e ∷ es) v6 ext n s = elim (parse_address_item e v6 ext) [
    | none ↦ (s, none)
    | some a ↦ parse_address_list es v6 ext (n + 1) (put_parsed a s)
  ]
