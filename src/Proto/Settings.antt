-- ===== src/Proto/Settings.antt =====
-- proto.c: proto_apply_static_ip_settings and proto_apply_ip_settings add only what is within bounds.
use lede_netifd.Prelude.{
  ℕ, ◌+◌, ◌≤◌, if_ind, if_cases, ◌≡◌, refl, Bool, true, false, ◌||◌, Option, none, some, List, [],
  ◌∷◌, arith, CString, ltb, leb, ◌==◌, length,
}
use lede_netifd.Utils.Netmask.{slash, split_netmask, parse_ip_and_netmask}
use lede_netifd.Ip.Match.{IfAddr}
use lede_netifd.Proto.{
  ProtoEnv, ProtoIp, Elem, elem, other_type, AddrItem, add_proto_error, invalid_netmask,
  invalid_broadcast, put_parsed, max_mask, parse_addr, static_addr, accepted_addr, refused,
  invalid_address, invalid_gateway, parse_static_address_option,
}
use lede_netifd.Proto.Apply.{
  Extras, prefix_options, prefix_length, prefix_made, prefix_fields, gateway_if, static_netmask,
  static_broadcast, next_token, tokens, comma, strtok, is_deprecated, parse_prefix_option,
  parse_prefix_list, parse_gateway_option, gateway_route, finish_ip, ProtoMsg, static_list,
  item_list, prefix_list, static_settings, apply_static_ip_settings, apply_ip_settings,
}
use lede_netifd.Proto.Bounds.{PrefixFits, Fits, OptAll, not_ltb, opt_cases, parse_address_list-Fits}

module _ (env : ProtoEnv) where
  accepted_le :
      (v6 : Bool) (m : ℕ) (o : Option IfAddr)
      → m ≤ max_mask v6
      → OptAll (λ a. m ≤ max_mask v6) (accepted_addr env v6 o)
  unfolding accepted_addr
  accepted_le v6 m none l = tt
  accepted_le v6 m (some a) l =
      if_ind (OptAll (λ a. m ≤ max_mask v6)) (refused env v6 a) none (some a) tt l

  -- A string that is accepted has a mask of its family.
  accepted_mask :
      (v6 : Bool) (str : CString) (netmask : ℕ)
      → OptAll
          (λ a. (parse_ip_and_netmask env.libc v6 str netmask).1 ≤ max_mask v6)
          (accepted_addr env v6 (parse_ip_and_netmask env.libc v6 str netmask).0)
  unfolding parse_ip_and_netmask accepted_addr
  accepted_mask v6 str netmask =
      let m = (split_netmask env.libc str netmask v6).1 in
      let parsed = env.libc.inet_pton v6 (split_netmask env.libc str netmask v6).0 in
      if_cases (λ o. OptAll (λ a. m ≤ max_mask v6) (accepted_addr env v6 o)) (ltb (max_mask v6) m)
        none parsed (λ _. tt) (λ h. accepted_le v6 m parsed (not_ltb (max_mask v6) m h))

  parse_addr-Fits :
      (str : CString) (v6 : Bool) (netmask : ℕ) (ext : Bool) (broadcast : List ℕ)
      (deprecated : Bool) (s : ProtoIp)
      → Fits s
      → Fits (parse_addr env str v6 netmask ext broadcast deprecated s).0
  unfolding parse_addr static_addr
  parse_addr-Fits str v6 netmask ext broadcast deprecated s f =
      let parsed = parse_ip_and_netmask env.libc v6 str netmask in
      opt_cases (λ a. parsed.1 ≤ max_mask v6)
        (λ o.
          let r : ProtoIp × Bool = elim o [
            | none ↦ (add_proto_error (invalid_address str) s, false)
            | some a ↦ (put_parsed (static_addr env v6 ext broadcast deprecated parsed.1 a) s, true)
          ] in
          Fits r.0)
        (accepted_addr env v6 parsed.0) (accepted_mask v6 str netmask) f
        (λ a l. (((l, λ n. absurd (n refl)), f.0), f.1))

  parse_static_address_option-Fits :
      (es : List (Elem CString)) (v6 : Bool) (netmask : ℕ) (ext : Bool) (broadcast : List ℕ)
      (deprecated : Bool) (n : ℕ) (s : ProtoIp)
      → Fits s
      → Fits (parse_static_address_option env es v6 netmask ext broadcast deprecated n s).0
  unfolding parse_static_address_option
  parse_static_address_option-Fits [] v6 netmask ext broadcast deprecated n s f = f
  parse_static_address_option-Fits (other_type ∷ es) v6 netmask ext broadcast deprecated n s f = f
  parse_static_address_option-Fits (elem str ∷ es) v6 netmask ext broadcast deprecated n s f =
      let r = parse_addr env str v6 netmask ext broadcast deprecated s in
      let g = parse_addr-Fits str v6 netmask ext broadcast deprecated s f in
      if_ind (λ (x : ProtoIp × Option ℕ). Fits x.0) r.1
        (parse_static_address_option env es v6 netmask ext broadcast deprecated (n + 1) r.0)
        (r.0, none)
        (parse_static_address_option-Fits es v6 netmask ext broadcast deprecated (n + 1) r.0 g) g

  prefix_made-PrefixFits :
      (len : ℕ) (prefstr validstr : Option CString) (o : Option IfAddr) (x : Option (Extras env))
      → (1 ≤ len) × (len ≤ 64)
      → OptAll PrefixFits (prefix_made env len prefstr validstr o x)
  unfolding prefix_made
  prefix_made-PrefixFits len prefstr validstr none x h = tt
  prefix_made-PrefixFits len prefstr validstr (some a) none h = tt
  prefix_made-PrefixFits len prefstr validstr (some a) (some x) h = h

  bad_length : (len : ℕ) → (ltb len 1 || ltb 64 len) ≡ false → (1 ≤ len) × (len ≤ 64)
  bad_length len h = (grind arith, grind arith)

  prefix_fields-PrefixFits :
      (o : Option CString) (ts : List CString) → OptAll PrefixFits (prefix_fields env o ts)
  unfolding prefix_fields
  prefix_fields-PrefixFits none ts = tt
  prefix_fields-PrefixFits (some a) [] = tt
  prefix_fields-PrefixFits (some a) (l ∷ ts) =
      let len = prefix_length env l in
      let (prefstr, us) = next_token ts in
      let (validstr, adds) = next_token us in
      let o = env.libc.inet_pton true a in
      let x = prefix_options env adds (none, none) in
      if_cases (OptAll PrefixFits) (ltb len 1 || ltb 64 len) none
        (prefix_made env len prefstr validstr o x) (λ _. tt)
        (λ h. prefix_made-PrefixFits len prefstr validstr o x (bad_length len h))

  parse_prefix_option-PrefixFits : (str : CString) → OptAll PrefixFits (parse_prefix_option env str)
  unfolding parse_prefix_option
  parse_prefix_option-PrefixFits str =
      let (u, v) = strtok slash str in
      if_ind (OptAll PrefixFits) (leb 128 (length str + 1)) none
        (prefix_fields env u (tokens comma v)) tt (prefix_fields-PrefixFits u (tokens comma v))

  parse_prefix_list-Fits :
      (es : List (Elem CString)) (s : ProtoIp) → Fits s → Fits (parse_prefix_list env es s).0
  unfolding parse_prefix_list
  parse_prefix_list-Fits [] s f = f
  parse_prefix_list-Fits (other_type ∷ es) s f = f
  parse_prefix_list-Fits (elem str ∷ es) s f =
      opt_cases PrefixFits
        (λ o.
          let r : ProtoIp × Bool = elim o [
            | none ↦ (s, false)
            | some p ↦ parse_prefix_list env es (record s { prefixes = p ∷ s.prefixes })
          ] in
          Fits r.0)
        (parse_prefix_option env str) (parse_prefix_option-PrefixFits str) f
        (λ p h. parse_prefix_list-Fits es (record s { prefixes = p ∷ s.prefixes }) (f.0, (h, f.1)))

  gateway_if-Fits :
      (o : Option CString) (n : ℕ) (v6 : Bool) (s : ProtoIp)
      → Fits s
      → Fits (gateway_if env o n v6 s).0
  unfolding gateway_if parse_gateway_option
  gateway_if-Fits none n v6 s f = f
  gateway_if-Fits (some str) n v6 s f =
      if_ind (λ (x : ProtoIp × Bool). Fits x.0) (n == 0) (s, true)
        (parse_gateway_option env str v6 s) f
        (opt_cases (λ a. Unit)
          (λ o.
            let r : ProtoIp × Bool = elim o [
              | none ↦ (add_proto_error (invalid_gateway str) s, false)
              | some a ↦ (record s { routes = gateway_route env s v6 a ∷ s.routes }, true)
            ] in
            Fits r.0)
          (env.libc.inet_pton v6 str) (always (env.libc.inet_pton v6 str)) f (λ a h. f))
    where
      always : (o : Option IfAddr) → OptAll (λ a. Unit) o
      always none = tt
      always (some a) = tt

  finish_ip-Fits :
      (gateway ip6gw : Option CString) (n_v4 n_v6 : Option ℕ) (r : ProtoIp × Bool)
      → Fits r.0
      → Fits (finish_ip env gateway ip6gw n_v4 n_v6 r).0
  unfolding finish_ip
  finish_ip-Fits gateway ip6gw none n_v6 (s, b) f = f
  finish_ip-Fits gateway ip6gw (some n) none (s, b) f = f
  finish_ip-Fits gateway ip6gw (some n) (some m) (s, false) f = f
  finish_ip-Fits gateway ip6gw (some n) (some m) (s, true) f =
      let t = gateway_if env gateway n false s in
      let g = gateway_if-Fits gateway n false s f in
      if_ind (λ (x : ProtoIp × Bool). Fits x.0) t.1 (gateway_if env ip6gw m true t.0) (t.0, false)
        (gateway_if-Fits ip6gw m true t.0 g) g

  static_list-Fits :
      (o : Option (List (Elem CString))) (v6 : Bool) (netmask : ℕ) (bcast : List ℕ)
      (deprecated : Bool) (s : ProtoIp)
      → Fits s
      → Fits (static_list env o v6 netmask bcast deprecated s).0
  unfolding static_list
  static_list-Fits none v6 netmask bcast deprecated s f = f
  static_list-Fits (some es) v6 netmask bcast deprecated s f =
      parse_static_address_option-Fits es v6 netmask false bcast deprecated 0 s f

  item_list-Fits :
      (o : Option (List (Elem AddrItem))) (v6 ext : Bool) (s : ProtoIp)
      → Fits s
      → Fits (item_list env o v6 ext s).0
  unfolding item_list
  item_list-Fits none v6 ext s f = f
  item_list-Fits (some es) v6 ext s f = parse_address_list-Fits env es v6 ext 0 s f

  prefix_list-Fits :
      (o : Option (List (Elem CString))) (s : ProtoIp) → Fits s → Fits (prefix_list env o s).0
  unfolding prefix_list
  prefix_list-Fits none s f = f
  prefix_list-Fits (some es) s f = parse_prefix_list-Fits es s f

  static_settings-Fits :
      (msg : ProtoMsg CString) (netmask : ℕ) (bcast : List ℕ) (s : ProtoIp)
      → Fits s
      → Fits (static_settings env msg netmask bcast s).0
  unfolding static_settings
  static_settings-Fits msg netmask bcast s f =
      let t = static_list env msg.ipaddr false netmask bcast false s in
      let u = static_list env msg.ip6addr true 128 [] (is_deprecated env msg.ip6deprecated) t.0 in
      let g = static_list-Fits msg.ipaddr false netmask bcast false s f in
      let h =
        static_list-Fits msg.ip6addr true 128 [] (is_deprecated env msg.ip6deprecated) t.0 g in
      finish_ip-Fits msg.gateway msg.ip6gw t.1 u.1 (prefix_list env msg.ip6prefix u.0)
        (prefix_list-Fits msg.ip6prefix u.0 h)

  apply_static_ip_settings-Fits :
      (msg : ProtoMsg CString) (s : ProtoIp) → Fits s → Fits (apply_static_ip_settings env msg s).0
  unfolding apply_static_ip_settings
  apply_static_ip_settings-Fits msg s f =
      elim (static_netmask env msg.netmask)
        as (λ o.
          let r : ProtoIp × Bool = elim o [
            | none ↦ (add_proto_error invalid_netmask s, false)
            | some netmask ↦ elim (static_broadcast env msg.broadcast) [
              | none ↦ (add_proto_error invalid_broadcast s, false)
              | some bcast ↦ static_settings env msg netmask bcast s
            ]
          ] in
          Fits r.0) [
            | none ↦ f
            | some netmask ↦
                elim (static_broadcast env msg.broadcast)
                  as (λ o.
                    let r : ProtoIp × Bool = elim o [
                      | none ↦ (add_proto_error invalid_broadcast s, false)
                      | some bcast ↦ static_settings env msg netmask bcast s
                    ] in
                    Fits r.0) [ none ↦ f | some bcast ↦ static_settings-Fits msg netmask bcast s f ]
          ]

  apply_ip_settings-Fits :
      (msg : ProtoMsg AddrItem) (ext : Bool) (s : ProtoIp)
      → Fits s
      → Fits (apply_ip_settings env msg ext s).0
  unfolding apply_ip_settings
  apply_ip_settings-Fits msg ext s f =
      let t = item_list env msg.ipaddr false ext s in
      let u = item_list env msg.ip6addr true ext t.0 in
      finish_ip-Fits msg.gateway msg.ip6gw t.1 u.1 (prefix_list env msg.ip6prefix u.0) (
        prefix_list-Fits msg.ip6prefix u.0
          (item_list-Fits msg.ip6addr true ext t.0 (item_list-Fits msg.ipaddr false ext s f)))

  -- If each address of an interface has a mask of its family and, where it ends, is preferred no longer
  -- than it is valid, and each prefix has a length from 1 to 64, the same holds after the addresses,
  -- prefixes and gateways of a message, valid or not, are applied, be they static options or the report
  -- of a script.
  pub settings-Fits :
      (static : ProtoMsg CString) (dynamic : ProtoMsg AddrItem) (ext : Bool) (s : ProtoIp)
      → Fits s
      → Fits (apply_static_ip_settings env static s).0
        × Fits (apply_ip_settings env dynamic ext s).0
  settings-Fits static dynamic ext s f =
      (apply_static_ip_settings-Fits static s f, apply_ip_settings-Fits dynamic ext s f)
