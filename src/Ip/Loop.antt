-- ===== src/Ip/Loop.antt =====
-- interface-ip.c: the loops of interface_ip_set_enabled keep the routes and the system in agreement.
use lede_netifd.Prelude.{
  ℕ, ◌≡◌, refl, ap, ◌∙◌, inl, inr, Bool, true, false, not, ◌||◌, Option, none, some, List, [], ◌∷◌,
  arith, ◌==◌, if◌then◌else◌, ==_iff, Bool-cases, Option-cases, contains,
}
use lede_netifd.Ip.State.{
  del_address, add_address, DevAddr, DevRoute, IpSettings, SystemEnv, call, set_route_info,
}
use lede_netifd.Ip.Tree.{
  with_subnet, needs_subnet, add_subnet_route, del_subnet_route, enable_route, same_bit,
}
use lede_netifd.IpRule.{Rule}
use lede_netifd.Ip.Policy.{apply_rule, add_addr_rules, set_ip_lo_policy}
use lede_netifd.Ip.Enable.{
  failed_policy, rules_if_table, enable_addr, disable_addr, toggle_addr, toggle_addrs,
  toggle_policies, toggle_route, toggle_routes, enable_a_route, disable_a_route,
}
use lede_netifd.Ip.Sync.{installed, installed_right, enabled_right, is_route}

-- The routes and what decides on them are the same, and the system has the same of them.
abbrev pub SameRoutes : IpSettings → IpSettings → Type 0
SameRoutes s t =
    (t.routes ≡ s.routes)
    × (t.enabled ≡ s.enabled)
    × (t.no_defaultroute ≡ s.no_defaultroute)
    × (t.route_keys ≡ s.route_keys)
    × ((k : ℕ) → installed t.calls k ≡ installed s.calls k)

pub SameRoutes-trans : (s t u : IpSettings) → SameRoutes s t → SameRoutes t u → SameRoutes s u
SameRoutes-trans s t u p q = (q.0 ∙ p.0, q.1 ∙ p.1, q.2 ∙ p.2, q.3 ∙ p.3, λ k. q.4 k ∙ p.4 k)

module _ (env : SystemEnv) where
  toggle_route_self :
      (k : ℕ) (s : IpSettings) (o : Option DevRoute)
      → s.routes k ≡ o
      → installed_right o (installed s.calls k) ≡ true
      → (installed_right
            ((toggle_route env k o s).routes k)
            (installed (toggle_route env k o s).calls k)
          ≡ true)
        × (enabled_right s.enabled s.no_defaultroute ((toggle_route env k o s).routes k) ≡ true)
        × (is_route ((toggle_route env k o s).routes k) ≡ is_route o)
  unfolding toggle_route enable_a_route disable_a_route set_route_info enable_route
  toggle_route_self k s none e h = (ground arith, ground arith, ground arith)
  toggle_route_self k s (some r) e h = (ground arith, ground arith, ground arith)

  toggle_route-others :
      (k j : ℕ) (s : IpSettings) (o : Option DevRoute)
      → (k == j) ≡ false
      → ((toggle_route env k o s).routes j ≡ s.routes j)
        × (installed (toggle_route env k o s).calls j ≡ installed s.calls j)
  unfolding toggle_route enable_a_route disable_a_route
  toggle_route-others k j s none ne = (refl, refl)
  toggle_route-others k j s (some r) ne = (ground arith, ground arith)

  toggle_route-settings :
      (k : ℕ) (s : IpSettings) (o : Option DevRoute)
      → ((toggle_route env k o s).enabled ≡ s.enabled)
        × ((toggle_route env k o s).no_defaultroute ≡ s.no_defaultroute)
        × ((toggle_route env k o s).route_keys ≡ s.route_keys)
  unfolding toggle_route enable_a_route disable_a_route
  toggle_route-settings k s none = (refl, refl, refl)
  toggle_route-settings k s (some r) = (ground arith, ground arith, ground arith)

  add_addr_rules-SameRoutes :
      (a : DevAddr) (on : Bool) (s : IpSettings) → SameRoutes s (add_addr_rules env a on s)
  unfolding add_addr_rules
  add_addr_rules-SameRoutes a true s = (refl, refl, refl, refl, λ k. refl)
  add_addr_rules-SameRoutes a false s = (refl, refl, refl, refl, λ k. refl)

  add_subnet_route-SameRoutes :
      (k : ℕ) (a : DevAddr) (s : IpSettings) → SameRoutes s (add_subnet_route env k a s).1
  unfolding add_subnet_route
  add_subnet_route-SameRoutes k a s = elim (Bool-cases a.flags.offlink) [
    | inl e ↦ rw e (refl, refl, refl, refl, λ j. refl)
    | inr e ↦ elim (Option-cases env.kernel_proto) [
      | inl f ↦ rw (e, f) (refl, refl, refl, refl, λ j. refl)
      | inr (p, f) ↦ rw (e, f) (refl, refl, refl, refl, λ j. refl)
    ]
  ]

  del_subnet_route-SameRoutes :
      (k : ℕ) (a : DevAddr) (s : IpSettings) → SameRoutes s (del_subnet_route env k a s).1
  unfolding del_subnet_route
  del_subnet_route-SameRoutes k a s = elim (Bool-cases a.flags.offlink) [
    | inl e ↦ rw e (refl, refl, refl, refl, λ j. refl)
    | inr e ↦ elim (Option-cases a.subnet) [
      | inl f ↦ rw (e, f) (refl, refl, refl, refl, λ j. refl)
      | inr (p, f) ↦ rw (e, f) (refl, refl, refl, refl, λ j. refl)
    ]
  ]

  with_subnet-SameRoutes :
      (k : ℕ) (a : DevAddr) (s : IpSettings) → SameRoutes s (with_subnet env k a s).1
  with_subnet-SameRoutes k a s = elim (Bool-cases (needs_subnet env a s)) [
    | inl e ↦ rw e (add_subnet_route-SameRoutes k a s)
    | inr e ↦ rw e (refl, refl, refl, refl, λ j. refl)
  ]

  rules_if_table-SameRoutes :
      (on : Bool) (a : DevAddr) (s : IpSettings) → SameRoutes s (rules_if_table env on a s)
  rules_if_table-SameRoutes on a s = elim (Bool-cases (a.policy_table == 0)) [
    | inl e ↦ rw e (refl, refl, refl, refl, λ j. refl)
    | inr e ↦ rw e (add_addr_rules-SameRoutes a on s)
  ]

  enable_addr-SameRoutes :
      (k : ℕ) (a : DevAddr) (s : IpSettings) → SameRoutes s (enable_addr env k a s)
  unfolding enable_addr
  enable_addr-SameRoutes k a s =
      let t = call (add_address k (env.address_added k a s.calls)) s in
      let b = record a { policy_table = if a.flags.inet6 then s.ip6table else s.ip4table } in
      let c = with_subnet env k b t in
      SameRoutes-trans s c.1 (rules_if_table env true c.0 c.1) (with_subnet-SameRoutes k b t)
        (rules_if_table-SameRoutes true c.0 c.1)

  disable_addr-SameRoutes :
      (k : ℕ) (a : DevAddr) (s : IpSettings) → SameRoutes s (disable_addr env k a s)
  unfolding disable_addr
  disable_addr-SameRoutes k a s =
      let c = del_subnet_route env k a s in
      let t = call (del_address k) c.1 in
      SameRoutes-trans s c.1 (rules_if_table env false c.0 t) (del_subnet_route-SameRoutes k a s)
        (rules_if_table-SameRoutes false c.0 t)

  toggle_addr-SameRoutes :
      (on : Bool) (k : ℕ) (o : Option DevAddr) (s : IpSettings)
      → SameRoutes s (toggle_addr env on k o s)
  unfolding toggle_addr
  toggle_addr-SameRoutes on k none s = (refl, refl, refl, refl, λ j. refl)
  toggle_addr-SameRoutes true k (some a) s = elim (Bool-cases (a.flags.external || a.enabled)) [
    | inl e ↦ rw e (refl, refl, refl, refl, λ j. refl)
    | inr e ↦ rw e (enable_addr-SameRoutes k a s)
  ]
  toggle_addr-SameRoutes false k (some a) s =
      elim (Bool-cases (a.flags.external || not a.enabled)) [
        | inl e ↦ rw e (refl, refl, refl, refl, λ j. refl)
        | inr e ↦ rw e (disable_addr-SameRoutes k a s)
      ]

  pub toggle_addrs-SameRoutes :
      (on : Bool) (ks : List ℕ) (s : IpSettings) → SameRoutes s (toggle_addrs env on ks s)
  unfolding toggle_addrs
  toggle_addrs-SameRoutes on [] s = (refl, refl, refl, refl, λ j. refl)
  toggle_addrs-SameRoutes on (k ∷ ks) s =
      let u = toggle_addr env on k (s.addrs k) s in
      SameRoutes-trans s u (toggle_addrs env on ks u) (toggle_addr-SameRoutes on k (s.addrs k) s)
        (toggle_addrs-SameRoutes on ks u)

  apply_rule-SameRoutes : (on : Bool) (r : Rule) (s : IpSettings) → SameRoutes s (apply_rule on r s)
  apply_rule-SameRoutes true r s = (refl, refl, refl, refl, λ j. refl)
  apply_rule-SameRoutes false r s = (refl, refl, refl, refl, λ j. refl)

  set_ip_lo_policy-SameRoutes :
      (on v6 : Bool) (s : IpSettings) → SameRoutes s (set_ip_lo_policy on v6 s)
  unfolding set_ip_lo_policy
  set_ip_lo_policy-SameRoutes on v6 s =
      elim (Bool-cases ((if v6 then s.ip6table else s.ip4table) == 0)) [
        | inl e ↦ rw e (refl, refl, refl, refl, λ j. refl)
        | inr e ↦ rw e (apply_rule-SameRoutes on _ s)
      ]

  pub toggle_policies-SameRoutes :
      (on : Bool) (s : IpSettings) → SameRoutes s (toggle_policies env on s)
  unfolding toggle_policies
  toggle_policies-SameRoutes on s =
      let one = set_ip_lo_policy on true s in
      let two = set_ip_lo_policy on false one in
      elim (Bool-cases (same_bit s.policy_rules_set on)) [
        | inl e ↦ rw e (refl, refl, refl, refl, λ j. refl)
        | inr e ↦ rw e (
            SameRoutes-trans s two (apply_rule on (failed_policy env s) two)
              (SameRoutes-trans s one two (set_ip_lo_policy-SameRoutes on true s)
                (set_ip_lo_policy-SameRoutes on false one))
              (apply_rule-SameRoutes on (failed_policy env s) two))
      ]

abbrev pub Installed : IpSettings → Type 0
Installed s = (k : ℕ) → installed_right (s.routes k) (installed s.calls k) ≡ true

module _ (env : SystemEnv) where
  toggle_route-Installed :
      (k : ℕ) (s : IpSettings) → Installed s → Installed (toggle_route env k (s.routes k) s)
  toggle_route-Installed k s h j = elim (Bool-cases (k == j)) [
    | inl e ↦
        let q : k ≡ j = (==_iff k j).0 e in rw (← q) (toggle_route_self env k s _ refl (h k)).0
    | inr e ↦ let same = toggle_route-others env k j s (s.routes k) e in rw (same.0, same.1) (h j)
  ]

  pub toggle_routes-Installed :
      (ks : List ℕ) (s : IpSettings) → Installed s → Installed (toggle_routes env ks s)
  unfolding toggle_routes
  toggle_routes-Installed [] s h = h
  toggle_routes-Installed (k ∷ ks) s h = toggle_routes-Installed ks _ (toggle_route-Installed k s h)

  -- Every listed route is set as the settings say.
  pub toggle_routes-enabled :
      (ks : List ℕ) (s : IpSettings) (j : ℕ) (b n : Bool)
      → Installed s
      → s.enabled ≡ b
      → s.no_defaultroute ≡ n
      → (contains ks j || enabled_right b n (s.routes j)) ≡ true
      → enabled_right b n ((toggle_routes env ks s).routes j) ≡ true
  unfolding toggle_routes
  toggle_routes-enabled [] s j b n i eb en h = h
  toggle_routes-enabled (k ∷ ks) s j b n i eb en h =
      let same = toggle_route-settings env k s (s.routes k) in
      toggle_routes-enabled ks _ j b n (toggle_route-Installed k s i) (same.0 ∙ eb) (same.1 ∙ en)
        (elim (Bool-cases (k == j)) [
          | inl e ↦
              let q : k ≡ j = (==_iff k j).0 e in
              let on = (toggle_route_self env k s _ refl (i k)).1 in
              rw (← q, ← eb, ← en) (ground (arith, on))
          | inr e ↦ rw (toggle_route-others env k j s (s.routes k) e).0 (ground (arith, h))
        ])

  pub toggle_routes-settings :
      (ks : List ℕ) (s : IpSettings)
      → ((toggle_routes env ks s).enabled ≡ s.enabled)
        × ((toggle_routes env ks s).no_defaultroute ≡ s.no_defaultroute)
        × ((toggle_routes env ks s).route_keys ≡ s.route_keys)
  unfolding toggle_routes
  toggle_routes-settings [] s = (refl, refl, refl)
  toggle_routes-settings (k ∷ ks) s =
      let same = toggle_route-settings env k s (s.routes k) in
      let rest = toggle_routes-settings ks (toggle_route env k (s.routes k) s) in
      (rest.0 ∙ same.0, rest.1 ∙ same.1, rest.2 ∙ same.2)

  pub toggle_routes-is_route :
      (ks : List ℕ) (s : IpSettings) (j : ℕ)
      → Installed s
      → is_route ((toggle_routes env ks s).routes j) ≡ is_route (s.routes j)
  unfolding toggle_routes
  toggle_routes-is_route [] s j i = refl
  toggle_routes-is_route (k ∷ ks) s j i =
      toggle_routes-is_route ks _ j (toggle_route-Installed k s i) ∙ (elim (Bool-cases (k == j)) [
        | inl e ↦
            let q : k ≡ j = (==_iff k j).0 e in rw (← q) (toggle_route_self env k s _ refl (i k)).2
        | inr e ↦ ap is_route (toggle_route-others env k j s (s.routes k) e).0
      ])
