-- ===== src/Proto/Apply.antt =====
-- proto.c: gateways, delegated prefixes, and proto_apply_static_ip_settings and proto_apply_ip_settings.
use lede_netifd.Prelude.{
  ℕ, ◌+◌, ◌%◌, ◌^◌, Bool, true, false, not, ◌&&◌, ◌||◌, Option, none, some, List, [], ◌∷◌, CString,
  codes, str_eq, ltb, leb, ◌==◌, if◌then◌else◌, length,
}
use lede_netifd.Utils.Netmask.{strchr, before, slash, parse_netmask_string}
use lede_netifd.Ip.State.{DevRoute}
use lede_netifd.Ip.Match.{IfAddr}
use lede_netifd.Proto.{
  ProtoEnv, ProtoIp, PrefixCall, Elem, elem, other_type, AddrItem, addr_flags, add_proto_error,
  invalid_gateway, invalid_netmask, invalid_broadcast, parse_static_address_option,
  parse_address_list,
}

-- ',' and '='
abbrev pub comma : ℕ
comma = 44

abbrev pub equals : ℕ
equals = 61

-- The bytes from the first that is not `c` on.
unfoldable pub skip : ℕ → CString → CString
skip c [] = []
skip c (x ∷ xs) = let rest = skip c xs in if x == c then rest else x ∷ xs

-- The bytes behind the first that is `c`.
unfoldable pub behind : ℕ → CString → CString
behind c [] = []
behind c (x ∷ xs) = let rest = behind c xs in if x == c then xs else rest

is_token : CString → Option CString
is_token [] = none
is_token (x ∷ xs) = some (x ∷ xs)

-- One call of strtok_r with the single delimiter `c`: the token, and the rest that is saved.
unfoldable pub strtok : ℕ → CString → Option CString × CString
unfolding is_token skip behind before
strtok c str = let s = skip c str in (is_token (before c s), behind c s)

-- The pieces between the bytes `c`; a first piece is always there.
pieces : ℕ → CString → CString × List CString
pieces c [] = ([], [])
pieces c (x ∷ xs) = let (p, ps) = pieces c xs in if x == c then ([], p ∷ ps) else (x ∷ p, ps)

nonempty : List CString → List CString
nonempty [] = []
nonempty ([] ∷ ps) = nonempty ps
nonempty ((x ∷ xs) ∷ ps) = (x ∷ xs) ∷ nonempty ps

-- The tokens that calls of strtok_r with `c` give until the string is used up.
unfoldable pub tokens : ℕ → CString → List CString
unfolding pieces nonempty
tokens c str = let (p, ps) = pieces c str in nonempty (p ∷ ps)

-- The first token and those behind it.
abbrev pub next_token : List CString → Option CString × List CString
next_token [] = (none, [])
next_token (t ∷ ts) = (some t, ts)

module _ (env : ProtoEnv) where
  -- What the loop over the options of a prefix has found.
  abbrev pub Extras : Type 0
  Extras = Option (IfAddr × ℕ) × Option CString

  -- The option `excluded`.
  unfoldable pub exclude : CString → Extras → Option Extras
  unfolding strchr before behind
  exclude val (excluded, pclass) = elim (strchr slash val) [
    | none ↦ none
    | some rest ↦ elim (env.libc.inet_pton true (before slash val)) [
      | none ↦ none
      | some a ↦ some (some (a, env.atoi (behind slash val) % 2 ^ 8), pclass)
    ]
  ]

  with_option : Option CString → Option CString → Extras → Option Extras
  unfolding exclude
  with_option none val x = some x
  with_option (some key) none x = some x
  with_option (some key) (some val) x =
      if str_eq key (codes "excluded")
      then exclude val x
      else some (if str_eq key (codes "class") then (x.0, some val) else x)

  -- The loop over the options of a prefix; none where it is refused.
  unfoldable pub prefix_options : List CString → Extras → Option Extras
  unfolding with_option strtok
  prefix_options [] x = some x
  prefix_options (t ∷ ts) x =
      let (key, saved) = strtok equals t in
      elim (with_option key (strtok comma saved).0 x) [ none ↦ none | some y ↦ prefix_options ts y ]

  -- A time of a prefix, in 64 bits: 0 if it is not given, without end or past the end of a long. A number
  -- from 2 ^ 63 on is negative.
  unfoldable pub prefix_until : Option CString → ℕ
  prefix_until none = 0
  prefix_until (some str) =
      let t = (env.libc.strtoul str).0 in
      if t == 4294967295 || (ltb t (2 ^ 63) && ltb env.long_max (t + env.now))
      then 0
      else (t + env.now) % 2 ^ 64

  -- `uint8_t length`
  unfoldable pub prefix_length : CString → ℕ
  prefix_length str = (env.libc.strtoul str).0 % 2 ^ 8

  -- The prefix that is added, from its address and the options.
  unfoldable pub prefix_made :
      ℕ → Option CString → Option CString → Option IfAddr → Option Extras → Option PrefixCall
  unfolding prefix_until
  prefix_made len prefstr validstr (some a) (some x) = some (record {
    addr = a;
    len = len;
    valid_until = prefix_until validstr;
    preferred_until = prefix_until prefstr;
    excl = x.0;
    pclass = x.1;
  })
  prefix_made len prefstr validstr _ _ = none

  unfoldable pub prefix_fields : Option CString → List CString → Option PrefixCall
  unfolding prefix_length prefix_made prefix_options
  prefix_fields none ts = none
  prefix_fields (some addrstr) [] = none
  prefix_fields (some addrstr) (lengthstr ∷ ts) =
      let len = prefix_length lengthstr in
      let (prefstr, us) = next_token ts in
      let (validstr, adds) = next_token us in
      let made =
        prefix_made len prefstr validstr (env.libc.inet_pton true addrstr)
          (prefix_options adds (none, none)) in
      if ltb len 1 || ltb 64 len then none else made

  -- parse_prefix_option up to its call of interface_ip_add_device_prefix, on a buffer of 128 bytes.
  unfoldable pub parse_prefix_option : CString → Option PrefixCall
  unfolding prefix_fields strtok tokens
  parse_prefix_option str =
      let (addrstr, saved) = strtok slash str in
      if leb 128 (length str + 1) then none else prefix_fields addrstr (tokens comma saved)

  -- The loop of parse_prefix_list: whether it reached the end.
  unfoldable pub parse_prefix_list : List (Elem CString) → ProtoIp → ProtoIp × Bool
  unfolding parse_prefix_option
  parse_prefix_list [] s = (s, true)
  parse_prefix_list (other_type ∷ es) s = (s, false)
  parse_prefix_list (elem str ∷ es) s = elim (parse_prefix_option str) [
    | none ↦ (s, false)
    | some p ↦ parse_prefix_list es (record s { prefixes = p ∷ s.prefixes })
  ]

  -- The route of a gateway.
  unfoldable pub gateway_route : ProtoIp → Bool → IfAddr → DevRoute
  gateway_route s v6 nexthop =
      let table = if v6 then s.ip6table else s.ip4table in
      record {
        enabled = false;
        failed = false;
        nexthop = nexthop;
        mtu = 0;
        rt_type = 0;
        proto = 0;
        valid_until = 0;
        flags = record (addr_flags v6 false) { srctable = not (table == 0) };
        metric = s.metric;
        table = table;
        mask = 0;
        sourcemask = 0;
        addr = [];
        source = [];
      }

  -- parse_gateway_option
  unfoldable pub parse_gateway_option : CString → Bool → ProtoIp → ProtoIp × Bool
  unfolding gateway_route
  parse_gateway_option str v6 s = elim (env.libc.inet_pton v6 str) [
    | none ↦ (add_proto_error (invalid_gateway str) s, false)
    | some a ↦ (record s { routes = gateway_route s v6 a ∷ s.routes }, true)
  ]

  -- A gateway is read if it is given and there are addresses of its family.
  unfoldable pub gateway_if : Option CString → ℕ → Bool → ProtoIp → ProtoIp × Bool
  unfolding parse_gateway_option
  gateway_if none n v6 s = (s, true)
  gateway_if (some str) n v6 s =
      let parsed = parse_gateway_option str v6 s in if n == 0 then (s, true) else parsed

  -- The end of both functions, from the counts of addresses and the outcome of the prefixes on.
  unfoldable pub finish_ip :
      Option CString → Option CString → Option ℕ → Option ℕ → ProtoIp × Bool → ProtoIp × Bool
  unfolding gateway_if
  finish_ip gateway ip6gw (some n_v4) (some n_v6) (s, true) =
      let (t, ok) = gateway_if gateway n_v4 false s in
      let rest = gateway_if ip6gw n_v6 true t in if ok then rest else (t, false)
  finish_ip gateway ip6gw _ _ (s, _) = (s, false)

-- proto_ip_attributes, with the addresses as strings or as tables.
pub record ProtoMsg {ℓ} (A : Type ℓ) : Type ℓ where
  pub ipaddr : Option (List (Elem A))
  pub ip6addr : Option (List (Elem A))
  pub netmask : Option CString
  pub broadcast : Option CString
  pub gateway : Option CString
  pub ip6gw : Option CString
  pub ip6prefix : Option (List (Elem CString))
  pub ip6deprecated : Option Bool

module _ (env : ProtoEnv) where
  -- The addresses of a family, if they are given.
  unfoldable pub static_list :
      Option (List (Elem CString)) → Bool → ℕ → List ℕ → Bool → ProtoIp → ProtoIp × Option ℕ
  unfolding parse_static_address_option
  static_list none v6 netmask broadcast deprecated s = (s, some 0)
  static_list (some es) v6 netmask broadcast deprecated s =
      parse_static_address_option env es v6 netmask false broadcast deprecated 0 s

  unfoldable pub item_list :
      Option (List (Elem AddrItem)) → Bool → Bool → ProtoIp → ProtoIp × Option ℕ
  unfolding parse_address_list
  item_list none v6 ext s = (s, some 0)
  item_list (some es) v6 ext s = parse_address_list env es v6 ext 0 s

  unfoldable pub prefix_list : Option (List (Elem CString)) → ProtoIp → ProtoIp × Bool
  unfolding parse_prefix_list
  prefix_list none s = (s, true)
  prefix_list (some es) s = parse_prefix_list env es s

  -- The netmask of the static addresses.
  unfoldable pub static_netmask : Option CString → Option ℕ
  unfolding parse_netmask_string
  static_netmask none = some 32
  static_netmask (some str) =
      let m = parse_netmask_string env.libc str false in if ltb 32 m then none else some m

  unfoldable pub static_broadcast : Option CString → Option (List ℕ)
  static_broadcast none = some []
  static_broadcast (some str) = env.libc.inet_pton false str

  unfoldable pub is_deprecated : Option Bool → Bool
  is_deprecated none = false
  is_deprecated (some b) = b

  -- proto_apply_static_ip_settings behind its netmask and broadcast address.
  unfoldable pub static_settings : ProtoMsg CString → ℕ → List ℕ → ProtoIp → ProtoIp × Bool
  unfolding static_list prefix_list finish_ip is_deprecated
  static_settings msg netmask bcast s =
      let (t, n_v4) = static_list msg.ipaddr false netmask bcast false s in
      let (u, n_v6) = static_list msg.ip6addr true 128 [] (is_deprecated msg.ip6deprecated) t in
      finish_ip env msg.gateway msg.ip6gw n_v4 n_v6 (prefix_list msg.ip6prefix u)

  -- proto_apply_static_ip_settings: the interface, and whether it returns 0.
  unfoldable pub apply_static_ip_settings : ProtoMsg CString → ProtoIp → ProtoIp × Bool
  unfolding static_settings static_netmask static_broadcast
  apply_static_ip_settings msg s = elim (static_netmask msg.netmask) [
    | none ↦ (add_proto_error invalid_netmask s, false)
    | some netmask ↦ elim (static_broadcast msg.broadcast) [
      | none ↦ (add_proto_error invalid_broadcast s, false)
      | some bcast ↦ static_settings msg netmask bcast s
    ]
  ]

  -- proto_apply_ip_settings
  unfoldable pub apply_ip_settings : ProtoMsg AddrItem → Bool → ProtoIp → ProtoIp × Bool
  unfolding item_list prefix_list finish_ip
  apply_ip_settings msg ext s =
      let (t, n_v4) = item_list msg.ipaddr false ext s in
      let (u, n_v6) = item_list msg.ip6addr true ext t in
      finish_ip env msg.gateway msg.ip6gw n_v4 n_v6 (prefix_list msg.ip6prefix u)
