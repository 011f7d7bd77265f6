-- ===== src/Ip/Leads.antt =====
-- interface-ip.c: where interface_ip_add_target_route finds an interface.
use lede_netifd.Prelude.{
  ℕ, ◌≡◌, refl, ap, ◌∙◌, Bool, true, false, not, ◌&&◌, ◌||◌, Option, none, some, List, [], ◌∷◌,
  arith, if◌then◌else◌,
}
use lede_netifd.Ip.State.{DevAddr, DevRoute}
use lede_netifd.Ip.Match.{IfAddr, match_if_addr}
use lede_netifd.Ip.Target.{
  Reach, Found, nowhere, on_link, by_route, addr_covers, route_covers, find_addr, find_route,
  find_addr_target, find_route_target, find_target, add_found, add_target_route,
}

-- An interface reaches the address by one of its addresses or routes.
abbrev any_route : IfAddr → Bool → List DevRoute → Bool
any_route a v6 [] = false
any_route a v6 (r ∷ rs) = route_covers a v6 r || any_route a v6 rs

abbrev pub reaches : IfAddr → Bool → Reach → Bool
reaches a v6 f =
    find_addr_target a v6 f || (any_route a v6 f.proto_routes || any_route a v6 f.config_routes)

abbrev pub any_reaches : IfAddr → Bool → List Reach → Bool
any_reaches a v6 [] = false
any_reaches a v6 (f ∷ fs) = reaches a v6 f || any_reaches a v6 fs

-- An enabled address whose network has the host on its link; all of an IPv6 address that is off the link
-- counts.
abbrev pub addr_leads : IfAddr → Bool → DevAddr → Bool
addr_leads a true d =
    if d.flags.inet6
    then d.enabled && match_if_addr d.addr a (if d.flags.offlink then 128 else d.mask)
    else false
addr_leads a false d = if d.flags.inet6 then false else d.enabled && match_if_addr d.addr a d.mask

-- An enabled route to the host that is in no table of its own.
abbrev pub route_leads : IfAddr → Bool → DevRoute → Bool
route_leads a true r =
    if r.flags.inet6
    then not (r.flags.has_table || not r.enabled) && match_if_addr r.addr a r.mask
    else false
route_leads a false r =
    if r.flags.inet6
    then false
    else not (r.flags.has_table || not r.enabled) && match_if_addr r.addr a r.mask

abbrev pub any {ℓ} : {A : Type ℓ} → (A → Bool) → List A → Bool
any p [] = false
any p (x ∷ xs) = p x || any p xs

-- Some address or route of the interface leads to the host.
abbrev pub leads : IfAddr → Bool → Reach → Bool
leads a v6 f =
    any (addr_leads a v6) f.proto_addrs
    || (any (addr_leads a v6) f.config_addrs
        || (any (route_leads a v6) f.proto_routes || any (route_leads a v6) f.config_routes))

abbrev pub is_some {ℓ} : {A : Type ℓ} → Option A → Bool
is_some none = false
is_some (some x) = true

module _ (a : IfAddr) (v6 : Bool) where
  is_some-find_route :
      (i : ℕ) (rs : List DevRoute) (res : Option (ℕ × DevRoute))
      → is_some (find_route a v6 i rs res) ≡ is_some res || any_route a v6 rs
  unfolding find_route
  is_some-find_route i [] none = refl
  is_some-find_route i [] (some q) = refl
  is_some-find_route i (r ∷ rs) none =
      ground (arith, is_some-find_route i rs (some (i, r)), is_some-find_route i rs none)
  is_some-find_route i (r ∷ rs) (some q) =
      ground (arith, is_some-find_route i rs (some (i, r)), is_some-find_route i rs (some q))

  is_some-find_route_target :
      (f : Reach) (res : Option (ℕ × DevRoute))
      → is_some (find_route_target a v6 f res)
        ≡ (is_some res || any_route a v6 f.proto_routes) || any_route a v6 f.config_routes
  unfolding find_route_target
  is_some-find_route_target f res =
      is_some-find_route f.number f.config_routes (find_route a v6 f.number f.proto_routes res)
      ∙ ap (λ b. b || any_route a v6 f.config_routes)
          (is_some-find_route f.number f.proto_routes res)

  is_found : Found → Bool
  is_found nowhere = false
  is_found (on_link i) = true
  is_found (by_route i r) = true

  is_found-find_target :
      (fs : List Reach) (res : Option (ℕ × DevRoute))
      → is_found (find_target a v6 fs res) ≡ is_some res || any_reaches a v6 fs
  unfolding find_target is_found
  is_found-find_target [] none = refl
  is_found-find_target [] (some (i, r)) = refl
  is_found-find_target (f ∷ fs) res = ground (
    arith,
    is_found-find_target fs (find_route_target a v6 f res),
    is_some-find_route_target f res,
  )

  is_some-add_found : (t : Found) → is_some (add_found a v6 t) ≡ is_found t
  unfolding is_found
  is_some-add_found nowhere = refl
  is_some-add_found (on_link i) = refl
  is_some-add_found (by_route i r) = refl

  addr_covers-leads : (w6 : Bool) (d : DevAddr) → addr_covers a w6 d ≡ addr_leads a w6 d
  unfolding addr_covers
  addr_covers-leads true d = ground arith
  addr_covers-leads false d = ground arith

  route_covers-leads : (w6 : Bool) (r : DevRoute) → route_covers a w6 r ≡ route_leads a w6 r
  unfolding route_covers
  route_covers-leads true r = ground arith
  route_covers-leads false r = ground arith

  find_addr-any : (ds : List DevAddr) → find_addr a v6 ds ≡ any (addr_leads a v6) ds
  unfolding find_addr
  find_addr-any [] = refl
  find_addr-any (d ∷ ds) = rw (addr_covers-leads v6 d, find_addr-any ds) refl

  any_route-any : (rs : List DevRoute) → any_route a v6 rs ≡ any (route_leads a v6) rs
  any_route-any [] = refl
  any_route-any (r ∷ rs) = rw (route_covers-leads v6 r, any_route-any rs) refl

  reaches-leads : (f : Reach) → reaches a v6 f ≡ leads a v6 f
  unfolding find_addr_target
  reaches-leads f = ground (
    arith,
    find_addr-any f.proto_addrs,
    find_addr-any f.config_addrs,
    any_route-any f.proto_routes,
    any_route-any f.config_routes,
  )

  any_reaches-leads : (fs : List Reach) → any_reaches a v6 fs ≡ any (leads a v6) fs
  any_reaches-leads [] = refl
  any_reaches-leads (f ∷ fs) = rw (reaches-leads f, any_reaches-leads fs) refl

  -- An interface is returned exactly if some interface has an enabled address of the host's family whose
  -- network has the host, or an enabled route of that family to it that is in no table of its own.
  pub is_some-add_target_route :
      (fs : List Reach) → is_some (add_target_route a v6 fs) ≡ any (leads a v6) fs
  unfolding add_target_route
  is_some-add_target_route fs =
      is_some-add_found (find_target a v6 fs none)
      ∙ (is_found-find_target fs none ∙ any_reaches-leads fs)
