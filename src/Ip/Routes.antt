-- ===== src/Ip/Routes.antt =====
-- interface-ip.c: over any history of changes to the tree of routes, the system has the routes that it
-- should have.
use lede_netifd.Prelude.{
  if_cases, ℕ, ◌≡◌, refl, inl, inr, Bool, true, false, not, ◌||◌, none, some, List, [], ◌∷◌, arith,
  ◌==◌, ==_iff, Bool-cases, Option-cases, contains,
}
use lede_netifd.Ip.State.{DevRoute, IpSettings, SystemEnv}
use lede_netifd.Ip.Tree.{update_proto_route}
use lede_netifd.Ip.Enable.{
  ip_set_enabled, toggle_policies, toggle_trees, toggle_addrs, toggle_routes,
}
use lede_netifd.Ip.Sync.{
  RoutesRight, enabled_right, is_route, same_key, update_proto_route-installed,
  update_proto_route-others, update_proto_route-settings, update_proto_route-enabled,
  remove_route-installed, remove_route-gone,
}
use lede_netifd.Ip.Loop.{
  SameRoutes, Installed, toggle_addrs-SameRoutes, toggle_policies-SameRoutes,
  toggle_routes-Installed, toggle_routes-enabled, toggle_routes-settings, toggle_routes-is_route,
}

-- What happens to the routes: vlist adds a node or removes one, with the keys that the tree then has,
-- and the settings are enabled or disabled.
pub data RouteOp : Type 0 where
  add_node : ℕ → DevRoute → List ℕ → RouteOp
  remove_node : ℕ → List ℕ → RouteOp
  set_enabled : Bool → RouteOp

module _ (env : SystemEnv) where
  unfoldable pub run_op : RouteOp → IpSettings → IpSettings
  run_op (add_node k new keys) s =
      update_proto_route env k (s.routes k) (some new) (record s { route_keys = keys })
  run_op (remove_node k keys) s =
      update_proto_route env k (s.routes k) none (record s { route_keys = keys })
  run_op (set_enabled on) s = ip_set_enabled env on s

  unfoldable pub run_ops : List RouteOp → IpSettings → IpSettings
  unfolding run_op
  run_ops [] s = s
  run_ops (op ∷ ops) s = run_ops ops (run_op op s)

-- What vlist sees to: a new node has not failed before and agrees with the node of its key, and the tree
-- has the keys of its nodes. The settings are switched while the interface has a layer 3 device: without
-- one interface_ip_set_enabled only notes the switch.
abbrev pub Allowed : RouteOp → IpSettings → Type 0
Allowed (add_node k new keys) s =
    (same_key (s.routes k) new ≡ true)
    × ((j : ℕ) → (k == j) || contains s.route_keys j ≡ true → contains keys j ≡ true)
Allowed (remove_node k keys) s =
    (j : ℕ) → (k == j) ≡ false → contains s.route_keys j ≡ true → contains keys j ≡ true
Allowed (set_enabled on) s = s.has_dev ≡ true

abbrev pub AllAllowed : SystemEnv → List RouteOp → IpSettings → Type 0
AllAllowed env [] s = Unit {0}
AllAllowed env (op ∷ ops) s = Allowed op s × AllAllowed env ops (run_op env op s)

rw_listed :
    (s u : IpSettings) (j : ℕ)
    → u.routes ≡ s.routes
    → u.route_keys ≡ s.route_keys
    → (not (is_route (s.routes j)) || contains s.route_keys j) ≡ true
    → (not (is_route (u.routes j)) || contains u.route_keys j) ≡ true
rw_listed s u j e f h = rw (e, f) h

listed-enabled :
    (u : IpSettings) (j : ℕ)
    → (not (is_route (u.routes j)) || contains u.route_keys j) ≡ true
    → (contains u.route_keys j || enabled_right u.enabled u.no_defaultroute (u.routes j)) ≡ true
listed-enabled u j h = elim (Option-cases (u.routes j)) [
  | inl e ↦ rw e (ground arith)
  | inr (r, e) ↦ ground (arith, h, e)
]

module _ (env : SystemEnv) where
  add_node-RoutesRight :
      (k : ℕ) (new : DevRoute) (keys : List ℕ) (s : IpSettings)
      → Allowed (add_node k new keys) s
      → RoutesRight s
      → RoutesRight (run_op env (add_node k new keys) s)
  unfolding run_op
  add_node-RoutesRight k new keys s a r =
      let t = record s { route_keys = keys } in
      let same = update_proto_route-settings env k (s.routes k) (some new) t in
      record {
        installed_as = λ j. elim (Bool-cases (k == j)) [
          | inl e ↦
              let q : k ≡ j = (==_iff k j).0 e in
              rw (← q) (
                update_proto_route-installed env k new (s.routes k) t a.0 (r.installed_as k)
                  (r.enabled_as k))
          | inr e ↦
              let others = update_proto_route-others env k j (s.routes k) (some new) t e in
              rw (others.0, others.1) (r.installed_as j)
        ];
        enabled_as = λ j.
            rw (same.0, same.1)
              (elim (Bool-cases (k == j)) [
                | inl e ↦
                    let q : k ≡ j = (==_iff k j).0 e in
                    rw (← q) (update_proto_route-enabled env k new (s.routes k) t)
                | inr e ↦
                    rw (update_proto_route-others env k j (s.routes k) (some new) t e).0
                      (r.enabled_as j)
              ]);
        listed = λ j. rw same.2 (elim (Bool-cases (k == j)) [
          | inl e ↦ ground (arith, e, a.1 j)
          | inr e ↦
              let others = update_proto_route-others env k j (s.routes k) (some new) t e in
              rw others.0 (ground (arith, r.listed j, a.1 j))
        ]);
      }

  remove_node-RoutesRight :
      (k : ℕ) (keys : List ℕ) (s : IpSettings)
      → Allowed (remove_node k keys) s
      → RoutesRight s
      → RoutesRight (run_op env (remove_node k keys) s)
  unfolding run_op
  remove_node-RoutesRight k keys s a r =
      let t = record s { route_keys = keys } in
      let same = update_proto_route-settings env k (s.routes k) none t in
      let gone = remove_route-gone env k (s.routes k) t refl in
      record {
        installed_as = λ j. elim (Bool-cases (k == j)) [
          | inl e ↦
              let q : k ≡ j = (==_iff k j).0 e in
              rw (← q) (remove_route-installed env k (s.routes k) t refl (r.installed_as k))
          | inr e ↦
              let others = update_proto_route-others env k j (s.routes k) none t e in
              rw (others.0, others.1) (r.installed_as j)
        ];
        enabled_as = λ j.
            rw (same.0, same.1)
              (elim (Bool-cases (k == j)) [
                | inl e ↦ let q : k ≡ j = (==_iff k j).0 e in rw (← q, gone) refl
                | inr e ↦
                    rw (update_proto_route-others env k j (s.routes k) none t e).0 (r.enabled_as j)
              ]);
        listed = λ j. rw same.2 (elim (Bool-cases (k == j)) [
          | inl e ↦ let q : k ≡ j = (==_iff k j).0 e in rw (← q, gone) refl
          | inr e ↦
              let others = update_proto_route-others env k j (s.routes k) none t e in
              rw others.0 (ground (arith, r.listed j, a j))
        ]);
      }

  SameRoutes-RoutesRight : (s t : IpSettings) → SameRoutes s t → RoutesRight s → RoutesRight t
  SameRoutes-RoutesRight s t e r = record {
    installed_as = λ j. rw (e.0, e.4 j) (r.installed_as j);
    enabled_as = λ j. rw (e.0, e.1, e.2) (r.enabled_as j);
    listed = λ j. rw (e.0, e.3) (r.listed j);
  }

  set_enabled-RoutesRight :
      (on : Bool) (s : IpSettings)
      → s.has_dev ≡ true
      → RoutesRight s
      → RoutesRight (run_op env (set_enabled on) s)
  unfolding run_op ip_set_enabled toggle_trees
  set_enabled-RoutesRight on s dev r =
      let t = record s { enabled = on } in
      let u = toggle_addrs env on s.addr_keys t in
      let e : SameRoutes t u = toggle_addrs-SameRoutes env on s.addr_keys t in
      let v = toggle_routes env u.route_keys u in
      let same = toggle_routes-settings env u.route_keys u in
      let right : Installed u = λ j. rw (e.0, e.4 j) (r.installed_as j) in
      let listed = λ (j : ℕ). rw_listed s u j e.0 e.3 (r.listed j) in
      if_cases RoutesRight s.has_dev (toggle_policies env on v) t
        (λ _.
          SameRoutes-RoutesRight v (toggle_policies env on v) (toggle_policies-SameRoutes env on v)
            (record {
              installed_as = toggle_routes-Installed env u.route_keys u right;
              enabled_as = λ j.
                  rw (same.0, same.1)
                    (toggle_routes-enabled env u.route_keys u j u.enabled u.no_defaultroute right
                      refl refl (listed-enabled u j (listed j)));
              listed =
                  λ j. rw (same.2, toggle_routes-is_route env u.route_keys u j right) (listed j);
            }))
        (λ h. absurd (ground (arith, h, dev)))

  -- Over any history of routes that come and go and of settings that are switched while the interface has
  -- a layer 3 device, where the system had the right routes before and the tree's keys are those of its
  -- nodes, the system has exactly the routes that are enabled, are not external, and were added without
  -- an error, but for routes whose addition once failed; and a route that is not external is enabled
  -- exactly as the settings and its netmask say.
  pub run_ops-RoutesRight :
      (ops : List RouteOp) (s : IpSettings)
      → AllAllowed env ops s
      → RoutesRight s
      → RoutesRight (run_ops env ops s)
  unfolding run_ops
  run_ops-RoutesRight [] s a r = r
  run_ops-RoutesRight (add_node k new keys ∷ ops) s a r =
      run_ops-RoutesRight ops _ a.1 (add_node-RoutesRight k new keys s a.0 r)
  run_ops-RoutesRight (remove_node k keys ∷ ops) s a r =
      run_ops-RoutesRight ops _ a.1 (remove_node-RoutesRight k keys s a.0 r)
  run_ops-RoutesRight (set_enabled on ∷ ops) s a r =
      run_ops-RoutesRight ops _ a.1 (set_enabled-RoutesRight on s a.0 r)
