-- ===== src/Proto/Bounds.antt =====
-- proto.c: the masks, times and lengths of the addresses and prefixes that are accepted.
use lede_netifd.Prelude.{
  ℕ, ◌+◌, ◌≤◌, if_ind, if_cases, ◌≡◌, refl, ◌≢◌, Bool, false, Option, none, some, List, [], ◌∷◌,
  arith, CString, ltb, ◌==◌, if◌then◌else◌, ==_iff, All,
}
use lede_netifd.Utils.Netmask.{parse_netmask_string}
use lede_netifd.Ip.Match.{IfAddr}
use lede_netifd.Proto.{
  ProtoEnv, ProtoIp, ProtoAddr, PrefixCall, Elem, elem, other_type, AddrItem, put_parsed, max_mask,
  required_addr, optional_addr, item_mask, item_until, item_times, item_addr, item_with, with_times,
  with_ipv4, by_family, item_ipv4, item_ipv6, parse_address_item, parse_address_list,
}

-- The mask is one of the family, and an address that ends stops being preferred no later.
abbrev pub AddrFits : ProtoAddr → Type 0
AddrFits a =
    a.dev.mask ≤ max_mask a.dev.flags.inet6
    × (a.dev.valid_until ≢ 0 → a.dev.preferred_until ≤ a.dev.valid_until)

abbrev pub PrefixFits : PrefixCall → Type 0
PrefixFits p = (1 ≤ p.len) × (p.len ≤ 64)

abbrev pub Fits : ProtoIp → Type 0
Fits s = All AddrFits s.addrs × All PrefixFits s.prefixes

-- A property of what an Option holds.
abbrev pub OptAll : {A : Type 0} → (A → Type 0) → Option A → Type 0
OptAll P none = Unit
OptAll P (some x) = P x

pub not_ltb : (m n : ℕ) → ltb m n ≡ false → n ≤ m
not_ltb m n h = grind arith

-- Cases on an Option, with the property of what it holds.
pub opt_cases :
    {A : Type 0} (P : A → Type 0) (Q : Option A → Type 0) (o : Option A)
    → OptAll P o
    → Q none
    → ((a : A) → P a → Q (some a))
    → Q o
opt_cases P Q none h x f = x
opt_cases P Q (some a) h x f = f a h

module _ (env : ProtoEnv) where
  item_mask-le :
      (v6 : Bool) (o : Option CString) → OptAll (λ m. m ≤ max_mask v6) (item_mask env v6 o)
  unfolding item_mask
  item_mask-le v6 none = omega arith
  item_mask-le v6 (some str) =
      let m = parse_netmask_string env.libc str v6 in
      if_cases (OptAll (λ m. m ≤ max_mask v6)) (ltb (max_mask v6) m) none (some m) (λ _. tt)
        (λ h. not_ltb (max_mask v6) m h)

  item_times_le : (v p : ℕ) → OptAll (λ t. t.0 ≢ 0 → t.1 ≤ t.0) (item_times env v p)
  unfolding item_times
  item_times_le v p =
      if_cases Good (v == 0) (some (v, p)) rest (λ h n. absurd (n ((==_iff v 0).0 h)))
        (λ _.
          if_ind Good (p == 0) (some (v, v)) (if ltb v p then none else some (v, p))
            (λ n. omega arith)
            (if_cases Good (ltb v p) none (some (v, p)) (λ _. tt) (λ h n. not_ltb v p h)))
    where
      Good : Option (ℕ × ℕ) → Type 0
      Good = OptAll (λ t. t.0 ≢ 0 → t.1 ≤ t.0)

      rest : Option (ℕ × ℕ)
      rest = if p == 0 then some (v, v) else if ltb v p then none else some (v, p)

  abbrev Fresh : ProtoAddr → Type 0
  Fresh a = (a.dev.mask ≤ max_mask a.dev.flags.inet6) × (a.dev.valid_until ≡ 0)

  item_with-Fresh :
      (v6 ext : Bool) (item : AddrItem) (m : ℕ) (o : Option IfAddr)
      → m ≤ max_mask v6
      → OptAll Fresh (item_with env v6 ext item (some m) o)
  unfolding item_with
  item_with-Fresh v6 ext item m none l = tt
  item_with-Fresh v6 ext item m (some a) l = (l, refl)

  item_addr-Fresh : (v6 ext : Bool) (item : AddrItem) → OptAll Fresh (item_addr env v6 ext item)
  unfolding item_addr item_with required_addr
  item_addr-Fresh v6 ext item =
      opt_cases (λ m. m ≤ max_mask v6)
        (λ o. OptAll Fresh (item_with env v6 ext item o (required_addr env v6 item.ipaddr)))
        (item_mask env v6 item.mask) (item_mask-le v6 item.mask) tt
        (λ m l. item_with-Fresh v6 ext item m (required_addr env v6 item.ipaddr) l)

  with_ipv4-AddrFits :
      (a : ProtoAddr) (b p : Option IfAddr) → Fresh a → OptAll AddrFits (with_ipv4 env a b p)
  unfolding with_ipv4
  with_ipv4-AddrFits a none p f = tt
  with_ipv4-AddrFits a (some b) none f = tt
  with_ipv4-AddrFits a (some b) (some p) (l, z) = (l, λ n. absurd (n z))

  item_ipv4-AddrFits :
      (item : AddrItem) (a : ProtoAddr) → Fresh a → OptAll AddrFits (item_ipv4 env item a)
  unfolding item_ipv4
  item_ipv4-AddrFits item a f =
      with_ipv4-AddrFits a (optional_addr env item.broadcast) (optional_addr env item.ptp) f

  item_ipv6-AddrFits :
      (item : AddrItem) (a : ProtoAddr) → Fresh a → OptAll AddrFits (item_ipv6 env item a)
  unfolding item_ipv6 with_times
  item_ipv6-AddrFits item a (l, z) =
      let v = item_until env item.valid in
      let p = item_until env item.preferred in
      opt_cases (λ t. t.0 ≢ 0 → t.1 ≤ t.0) (λ o. OptAll AddrFits (with_times env item a o))
        (item_times env v p) (item_times_le v p) tt (λ t h. (l, h))

  parse_address_item-AddrFits :
      (e : Elem AddrItem) (v6 ext : Bool) → OptAll AddrFits (parse_address_item env e v6 ext)
  unfolding parse_address_item by_family
  parse_address_item-AddrFits other_type v6 ext = tt
  parse_address_item-AddrFits (elem item) v6 ext =
      opt_cases Fresh (λ o. OptAll AddrFits (by_family env v6 item o)) (item_addr env v6 ext item)
        (item_addr-Fresh v6 ext item) tt
        (λ a f.
          if_ind (OptAll AddrFits) v6 (item_ipv6 env item a) (item_ipv4 env item a)
            (item_ipv6-AddrFits item a f) (item_ipv4-AddrFits item a f))

  pub parse_address_list-Fits :
      (es : List (Elem AddrItem)) (v6 ext : Bool) (n : ℕ) (s : ProtoIp)
      → Fits s
      → Fits (parse_address_list env es v6 ext n s).0
  unfolding parse_address_list
  parse_address_list-Fits [] v6 ext n s f = f
  parse_address_list-Fits (e ∷ es) v6 ext n s f =
      opt_cases AddrFits
        (λ o.
          let r : ProtoIp × Option ℕ = elim o [
            | none ↦ (s, none)
            | some a ↦ parse_address_list env es v6 ext (n + 1) (put_parsed a s)
          ] in
          Fits r.0)
        (parse_address_item env e v6 ext) (parse_address_item-AddrFits e v6 ext) f
        (λ a h. parse_address_list-Fits es v6 ext (n + 1) (put_parsed a s) ((h, f.0), f.1))
