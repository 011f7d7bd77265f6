-- ===== src/Ip/Addresses.antt =====
-- interface-ip.c: which addresses and subnet routes interface_update_proto_addr leaves to the system.
use lede_netifd.Prelude.{
  if_ind, ℕ, ◌≡◌, refl, ap, ◌∙◌, inl, inr, Bool, true, false, not, ◌&&◌, ◌||◌, Option, none, some,
  List, [], ◌∷◌, arith, ◌==◌, if◌then◌else◌, Bool-cases, Option-cases, update,
}
use lede_netifd.Ip.State.{
  DevAddr, IpSettings, SystemEnv, Call, call, put_addr, add_address, del_address, add_subnet,
  del_subnet,
}
use lede_netifd.Ip.Policy.{add_addr_rules}
use lede_netifd.Ip.Tree.{
  update_proto_addr, install_addr, drop_addr, with_subnet, add_subnet_route, del_subnet_route,
  keeps_addr, new_times, fill_broadcast, needs_subnet,
}
use lede_netifd.Ip.Enable.{rules_if_table, enable_addr}

-- What a call does to the address of key `j`.
abbrev address_call : ℕ → Call → Bool → Bool
address_call j (add_address k ok) before = if k == j then ok || before else before
address_call j (del_address k) before = if k == j then false else before
address_call j _ before = before

-- Whether the system has the address of key `j` after the calls.
abbrev pub has_address : List Call → ℕ → Bool
has_address [] j = false
has_address (c ∷ cs) j = address_call j c (has_address cs j)

-- The system has the address only if it is in the tree, enabled and not external.
abbrev pub only_enabled : Option DevAddr → Bool → Bool
only_enabled none b = not b
only_enabled (some a) b = (a.enabled && not a.flags.external) || not b

abbrev subnet_call : ℕ → Call → Bool → Bool
subnet_call j (add_subnet k r) before = if k == j then true else before
subnet_call j (del_subnet k r) before = if k == j then false else before
subnet_call j _ before = before

-- Whether the system has the subnet route of the address of key `j` after the calls.
abbrev pub has_subnet : List Call → ℕ → Bool
has_subnet [] j = false
has_subnet (c ∷ cs) j = subnet_call j c (has_subnet cs j)

module _ (env : SystemEnv) where
  add_addr_rules-has :
      (a : DevAddr) (on : Bool) (s : IpSettings) (k : ℕ)
      → (has_address (add_addr_rules env a on s).calls k ≡ has_address s.calls k)
        × (has_subnet (add_addr_rules env a on s).calls k ≡ has_subnet s.calls k)
  unfolding add_addr_rules
  add_addr_rules-has a true s k = (refl, refl)
  add_addr_rules-has a false s k = (refl, refl)

  -- An update that keeps an address with its lifetimes makes no system call.
  keep-calls :
      (k : ℕ) (old new : DevAddr) (s : IpSettings)
      → keeps_addr env old (fill_broadcast new) ≡ true
      → new_times env old (fill_broadcast new) ≡ false
      → (update_proto_addr env k (some old) (some new) s).calls ≡ s.calls
  unfolding update_proto_addr install_addr
  keep-calls k old new s h t = rw (h, t) (ground arith)

  keep-node :
      (k : ℕ) (old new : DevAddr) (s : IpSettings)
      → keeps_addr env old (fill_broadcast new) ≡ true
      → new_times env old (fill_broadcast new) ≡ false
      → (update_proto_addr env k (some old) (some new) s).addrs k
        ≡ some (record (fill_broadcast new) {
          enabled = true;
          policy_table = if (fill_broadcast new).flags.inet6 then s.ip6table else s.ip4table;
        })
  unfolding update_proto_addr install_addr
  keep-node k old new s h t = rw (h, t) (ground arith)

  rules-has_subnet :
      (a : DevAddr) (b : Bool) (s : IpSettings) (k : ℕ)
      → has_subnet (if b then add_addr_rules env a false s else s).calls k ≡ has_subnet s.calls k
  rules-has_subnet a true s k = (add_addr_rules-has a false s k).1
  rules-has_subnet a false s k = refl

  no_subnet-calls :
      (k : ℕ) (a : DevAddr) (s : IpSettings)
      → a.subnet ≡ none
      → (del_subnet_route env k a s).1.calls ≡ s.calls
  unfolding del_subnet_route
  no_subnet-calls k a s e =
      rw e (elim (Bool-cases a.flags.offlink) [ inl f ↦ rw f refl | inr f ↦ rw f refl ])

  drop_addr-has_subnet :
      (k : ℕ) (a : DevAddr) (s : IpSettings)
      → a.subnet ≡ none
      → has_subnet (drop_addr env k a s).calls k ≡ has_subnet s.calls k
  unfolding drop_addr
  drop_addr-has_subnet k a s e =
      let rules = rules-has_subnet a (not (a.policy_table == 0)) s k in
      if_ind (λ (u : IpSettings). has_subnet u.calls k ≡ has_subnet s.calls k) a.flags.external _ _
        rules (ap (λ c. has_subnet c k) (no_subnet-calls k a _ e) ∙ rules)

  -- The removal of an address without the record of its subnet route.
  remove_kept :
      (k : ℕ) (a : DevAddr) (s : IpSettings)
      → a.subnet ≡ none
      → has_subnet s.calls k ≡ true
      → has_subnet (update_proto_addr env k (some a) none s).calls k ≡ true
  unfolding update_proto_addr
  remove_kept k a s e h =
      if_ind (λ (u : IpSettings). has_subnet u.calls k ≡ true) a.enabled _ _
        (drop_addr-has_subnet k a (record s { updated_address = true }) e ∙ h) h

  fill_broadcast-subnet : (a : DevAddr) → (fill_broadcast a).subnet ≡ a.subnet
  unfolding fill_broadcast
  fill_broadcast-subnet a = ground arith

  -- Once an update has kept an address with its lifetimes unchanged, by a node that has no subnet route
  -- recorded, a removal that follows at once leaves its subnet route in the system.
  pub kept_address-has_subnet :
      (k : ℕ) (old new : DevAddr) (s : IpSettings)
      → keeps_addr env old (fill_broadcast new) ≡ true
      → new_times env old (fill_broadcast new) ≡ false
      → new.subnet ≡ none
      → has_subnet s.calls k ≡ true
      → let t = update_proto_addr env k (some old) (some new) s in
        has_subnet (update_proto_addr env k (t.addrs k) none t).calls k ≡ true
  kept_address-has_subnet k old new s h t e i =
      rw (keep-node k old new s h t)
        (remove_kept k _ _ (fill_broadcast-subnet new ∙ e) (rw (keep-calls k old new s h t) i))

  -- What interface_update_proto_addr compares is the same.
  abbrev SameAddr : DevAddr → DevAddr → Type 0
  SameAddr a b =
      (b.flags ≡ a.flags)
      × (b.failed ≡ a.failed)
      × (b.broadcast ≡ a.broadcast)
      × (b.valid_until ≡ a.valid_until)
      × (b.preferred_until ≡ a.preferred_until)

  with_subnet-SameAddr :
      (k : ℕ) (a : DevAddr) (s : IpSettings) → SameAddr a (with_subnet env k a s).0
  unfolding add_subnet_route
  with_subnet-SameAddr k a s =
      let same : SameAddr a a = (refl, refl, refl, refl, refl) in
      if_ind (λ (p : DevAddr × IpSettings). SameAddr a p.0) (needs_subnet env a s) _ _
        (if_ind (λ (p : DevAddr × IpSettings). SameAddr a p.0) a.flags.offlink _ _ same
          (elim (Option-cases env.kernel_proto) [
            | inl g ↦ rw g same
            | inr (p, g) ↦ rw g (refl, refl, refl, refl, refl)
          ]))
        same

  update_self : (f : ℕ → Option DevAddr) (k : ℕ) (o : Option DevAddr) → update f k o k ≡ o
  update_self f k o = ground arith

  SameAddr-keeps :
      (a b c : DevAddr) → SameAddr a b → keeps_addr env a c ≡ true → keeps_addr env b c ≡ true
  unfolding keeps_addr
  SameAddr-keeps a b c e h = rw (e.0, e.1, e.2) h

  SameAddr-times :
      (a b c : DevAddr) → SameAddr a b → new_times env a c ≡ false → new_times env b c ≡ false
  SameAddr-times a b c e h = rw (e.3, e.4) h

  fill_broadcast-times : (a : DevAddr) → new_times env a (fill_broadcast a) ≡ false
  unfolding fill_broadcast
  fill_broadcast-times a = ground arith

  -- An address that an update would keep, once it is enabled with the settings, counts as added even if
  -- the system refused it: an update with the same address makes no system call.
  pub enable_addr-calls :
      (k : ℕ) (a : DevAddr) (s : IpSettings)
      → keeps_addr env a (fill_broadcast a) ≡ true
      → let t = enable_addr env k a s in
        (update_proto_addr env k (t.addrs k) (some a) t).calls ≡ t.calls
  unfolding enable_addr
  enable_addr-calls k a s h =
      let t = call (add_address k (env.address_added k a s.calls)) s in
      let b = record a { policy_table = if a.flags.inet6 then s.ip6table else s.ip4table } in
      let e = with_subnet-SameAddr k b t in
      let c = with_subnet env k b t in
      let r = record c.0 { enabled = true } in
      let u = put_addr k (some r) (rules_if_table env true c.0 c.1) in
      rw (update_self (rules_if_table env true c.0 c.1).addrs k (some r)) (
        keep-calls k r a u (SameAddr-keeps a r (fill_broadcast a) e h)
          (SameAddr-times a r (fill_broadcast a) e (fill_broadcast-times a)))
