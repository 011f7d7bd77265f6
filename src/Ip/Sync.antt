-- ===== src/Ip/Sync.antt =====
-- interface-ip.c: what the system has of an interface's routes agrees with the tree of routes.
use lede_netifd.Prelude.{
  ℕ, ◌≡◌, refl, Bool, true, false, not, ◌&&◌, ◌||◌, Option, none, some, List, [], ◌∷◌, arith, ◌==◌,
  if◌then◌else◌, contains,
}
use lede_netifd.Ip.State.{DevRoute, IpSettings, SystemEnv, Call, add_route, del_route}
use lede_netifd.Ip.Tree.{
  update_proto_route, install_route, drop_route, enable_route, same_bit, keeps_route,
}

-- What a call does to the route of key `j`: a failed addition leaves it as it was.
abbrev pub call_installs : ℕ → Call → Bool → Bool
call_installs j (add_route k ok) before = if k == j then ok || before else before
call_installs j (del_route k) before = if k == j then false else before
call_installs j _ before = before

-- Whether the system has the route of key `j` after the calls.
abbrev pub installed : List Call → ℕ → Bool
installed [] j = false
installed (c ∷ cs) j = call_installs j c (installed cs j)

-- A route is installed if it is enabled, not external and its addition has not failed, and only if it
-- is enabled and not external.
abbrev pub installed_right : Option DevRoute → Bool → Bool
installed_right none b = not b
installed_right (some r) b = if r.enabled && not r.flags.external then r.failed || b else not b

-- A route that is not external is enabled as the settings say.
abbrev pub enabled_right : Bool → Bool → Option DevRoute → Bool
enabled_right enabled no_defaultroute none = true
enabled_right enabled no_defaultroute (some r) =
    r.flags.external
    || same_bit r.enabled (if no_defaultroute && r.mask == 0 then false else enabled)

abbrev pub is_route : Option DevRoute → Bool
is_route none = false
is_route (some r) = true

pub record RoutesRight (s : IpSettings) : Type 0 where
  pub installed_as : (k : ℕ) → installed_right (s.routes k) (installed s.calls k) ≡ true
  pub enabled_as : (k : ℕ) → enabled_right s.enabled s.no_defaultroute (s.routes k) ≡ true
  pub listed : (k : ℕ) → (not (is_route (s.routes k)) || contains s.route_keys k) ≡ true

-- A new node has not failed and has the key of the old one, whose mask and family are the same.
abbrev pub same_key : Option DevRoute → DevRoute → Bool
same_key none new = not new.failed
same_key (some old) new =
    not new.failed && (same_bit old.flags.external new.flags.external && old.mask == new.mask)

module _ (env : SystemEnv) where
  replace_route-installed :
      (k : ℕ) (new old : DevRoute) (keep : Bool) (s : IpSettings)
      → same_key (some old) new ≡ true
      → (keep && old.failed) ≡ false
      → installed_right (some old) (installed s.calls k) ≡ true
      → enabled_right s.enabled s.no_defaultroute (some old) ≡ true
      → installed_right
          ((install_route env k new keep (drop_route env k old keep s)).routes k)
          (installed (install_route env k new keep (drop_route env k old keep s)).calls k)
        ≡ true
  unfolding install_route drop_route enable_route
  replace_route-installed k new old true s key f i e = ground arith
  replace_route-installed k new old false s key f i e = ground arith

  keeps_route-failed : (old new : DevRoute) → (keeps_route env old new && old.failed) ≡ false
  unfolding keeps_route
  keeps_route-failed old new = ground arith

  pub update_proto_route-installed :
      (k : ℕ) (new : DevRoute) (old : Option DevRoute) (s : IpSettings)
      → same_key old new ≡ true
      → installed_right old (installed s.calls k) ≡ true
      → enabled_right s.enabled s.no_defaultroute old ≡ true
      → installed_right
          ((update_proto_route env k old (some new) s).routes k)
          (installed (update_proto_route env k old (some new) s).calls k)
        ≡ true
  unfolding update_proto_route
  update_proto_route-installed k new none s key i e =
      unfold install_route enable_route in ground arith
  update_proto_route-installed k new (some old) s key i e =
      replace_route-installed k new old (keeps_route env old new) s key (keeps_route-failed old new)
        i e

  pub remove_route-installed :
      (k : ℕ) (old : Option DevRoute) (s : IpSettings)
      → s.routes k ≡ old
      → installed_right old (installed s.calls k) ≡ true
      → installed_right
          ((update_proto_route env k old none s).routes k)
          (installed (update_proto_route env k old none s).calls k)
        ≡ true
  unfolding update_proto_route drop_route
  remove_route-installed k none s q i = ground arith
  remove_route-installed k (some old) s q i = ground arith

  -- The callback is about one key.
  pub update_proto_route-others :
      (k j : ℕ) (old new : Option DevRoute) (s : IpSettings)
      → (k == j) ≡ false
      → ((update_proto_route env k old new s).routes j ≡ s.routes j)
        × (installed (update_proto_route env k old new s).calls j ≡ installed s.calls j)
  unfolding update_proto_route drop_route install_route
  update_proto_route-others k j none none s ne = (refl, refl)
  update_proto_route-others k j none (some new) s ne = (ground arith, ground arith)
  update_proto_route-others k j (some old) none s ne = (ground arith, ground arith)
  update_proto_route-others k j (some old) (some new) s ne = (ground arith, ground arith)

  pub update_proto_route-settings :
      (k : ℕ) (old new : Option DevRoute) (s : IpSettings)
      → ((update_proto_route env k old new s).enabled ≡ s.enabled)
        × ((update_proto_route env k old new s).no_defaultroute ≡ s.no_defaultroute)
        × ((update_proto_route env k old new s).route_keys ≡ s.route_keys)
  unfolding update_proto_route drop_route install_route
  update_proto_route-settings k none none s = (refl, refl, refl)
  update_proto_route-settings k none (some new) s = (ground arith, ground arith, ground arith)
  update_proto_route-settings k (some old) none s = (ground arith, ground arith, ground arith)
  update_proto_route-settings k (some old) (some new) s = (ground arith, ground arith, ground arith)

  pub update_proto_route-enabled :
      (k : ℕ) (new : DevRoute) (old : Option DevRoute) (s : IpSettings)
      → enabled_right s.enabled s.no_defaultroute
          ((update_proto_route env k old (some new) s).routes k)
        ≡ true
  unfolding update_proto_route drop_route install_route enable_route
  update_proto_route-enabled k new none s = ground arith
  update_proto_route-enabled k new (some old) s = ground arith

  pub remove_route-gone :
      (k : ℕ) (old : Option DevRoute) (s : IpSettings)
      → s.routes k ≡ old
      → (update_proto_route env k old none s).routes k ≡ none
  unfolding update_proto_route drop_route
  remove_route-gone k none s q = q
  remove_route-gone k (some old) s q = ground arith
