-- ===== src/Ip/Target.antt =====
-- interface-ip.c: interface_ip_add_target_route, which finds how a host is reached and adds a route to
-- it.
use lede_netifd.Prelude.{
  if_ind, ℕ, ◌≡◌, refl, inl, inr, Bool, true, false, not, ◌&&◌, ◌||◌, Option, none, some, List, [],
  ◌∷◌, arith, ltb, leb, if◌then◌else◌, Bool-cases, All,
}
use lede_netifd.Ip.State.{AddrFlags, DevAddr, DevRoute}
use lede_netifd.Ip.Match.{IfAddr, match_if_addr, same_bytes, zeros}
use lede_netifd.Ip.Tree.{same_bit}

-- What a lookup reads of an interface, whose routes carry its number.
pub record Reach : Type 0 where
  pub number : ℕ
  pub proto_addrs : List DevAddr
  pub config_addrs : List DevAddr
  pub proto_routes : List DevRoute
  pub config_routes : List DevRoute

-- The test of the loop in __find_ip_addr_target.
unfoldable pub addr_covers : IfAddr → Bool → DevAddr → Bool
addr_covers a v6 d =
    let mask = if d.flags.inet6 && d.flags.offlink then 128 else d.mask in
    d.enabled && (same_bit v6 d.flags.inet6 && match_if_addr d.addr a mask)

-- __find_ip_addr_target
unfoldable pub find_addr : IfAddr → Bool → List DevAddr → Bool
find_addr a v6 [] = false
find_addr a v6 (d ∷ ds) = addr_covers a v6 d || find_addr a v6 ds

-- The tests of the loop in __find_ip_route_target but for the last.
unfoldable pub route_covers : IfAddr → Bool → DevRoute → Bool
route_covers a v6 r =
    r.enabled
    && (same_bit v6 r.flags.inet6 && (match_if_addr r.addr a r.mask && not r.flags.has_table))

-- `!*res || route->mask < (*res)->mask`
abbrev pub improves : DevRoute → Option (ℕ × DevRoute) → Bool
improves r none = true
improves r (some (i, q)) = ltb r.mask q.mask

-- __find_ip_route_target for the interface of number `i`.
unfoldable pub find_route :
    IfAddr → Bool → ℕ → List DevRoute → Option (ℕ × DevRoute) → Option (ℕ × DevRoute)
find_route a v6 i [] res = res
find_route a v6 i (r ∷ rs) res =
    find_route a v6 i rs (if route_covers a v6 r && improves r res then some (i, r) else res)

-- interface_ip_find_addr_target
unfoldable pub find_addr_target : IfAddr → Bool → Reach → Bool
unfolding find_addr
find_addr_target a v6 f = find_addr a v6 f.proto_addrs || find_addr a v6 f.config_addrs

-- interface_ip_find_route_target
unfoldable pub find_route_target :
    IfAddr → Bool → Reach → Option (ℕ × DevRoute) → Option (ℕ × DevRoute)
unfolding find_route
find_route_target a v6 f res =
    find_route a v6 f.number f.config_routes (find_route a v6 f.number f.proto_routes res)

-- How the host is reached: not at all, on the link of an interface, or by a route.
pub data Found : Type 0 where
  nowhere : Found
  on_link : ℕ → Found
  by_route : ℕ → DevRoute → Found

abbrev pub found_route : Option (ℕ × DevRoute) → Found
found_route none = nowhere
found_route (some (i, r)) = by_route i r

-- The loop over the interfaces in interface_ip_add_target_route; with an interface given, the list has
-- that one only.
unfoldable pub find_target : IfAddr → Bool → List Reach → Option (ℕ × DevRoute) → Found
find_target a v6 [] res = found_route res
find_target a v6 (f ∷ fs) res =
    let rest = find_target a v6 fs (find_route_target a v6 f res) in
    if find_addr_target a v6 f then on_link f.number else rest

abbrev pub no_flags : Bool → AddrFlags
no_flags v6 = record {
  inet6 = v6;
  external = false;
  has_metric = false;
  has_mtu = false;
  has_proto = false;
  offlink = false;
  has_table = false;
  srctable = false;
  onlink = false;
  has_type = false;
}

-- The host route as it is allocated.
unfoldable pub host_route : IfAddr → Bool → DevRoute
host_route a v6 = record {
  enabled = false;
  failed = false;
  nexthop = zeros a;
  mtu = 0;
  rt_type = 0;
  proto = 0;
  valid_until = 0;
  flags = no_flags v6;
  metric = 0;
  table = 0;
  mask = if v6 then 128 else 32;
  sourcemask = 0;
  addr = a;
  source = zeros a;
}

-- The interface and the host route for it; none for the address of the default route.
abbrev pub add_found : IfAddr → Bool → Found → Option (ℕ × Option DevRoute)
add_found a v6 nowhere = none
add_found a v6 (on_link i) =
    some (i, if same_bytes a (zeros a) then none else some (host_route a v6))
add_found a v6 (by_route i r) =
    let q = record (host_route a v6) {
      nexthop = r.nexthop;
      mtu = r.mtu;
      metric = r.metric;
      table = r.table;
    } in
    some (i, if same_bytes a (zeros a) then none else some q)

-- interface_ip_add_target_route: the interface that is returned, and the route that is added to its host
-- routes.
unfoldable pub add_target_route : IfAddr → Bool → List Reach → Option (ℕ × Option DevRoute)
add_target_route a v6 fs = add_found a v6 (find_target a v6 fs none)

All-map {ℓ κ μ} :
    {A : Type ℓ} {P : A → Type κ} {Q : A → Type μ} (xs : List A)
    → ((x : A) → P x → Q x)
    → All P xs
    → All Q xs
All-map [] f h = tt
All-map (x ∷ xs) f h = (f x h.0, All-map xs f h.1)

holds_of_each {ℓ κ} : {A : Type ℓ} {P : A → Type κ} (xs : List A) → ((x : A) → P x) → All P xs
holds_of_each [] f = tt
holds_of_each (x ∷ xs) f = (f x, holds_of_each xs f)

module _ (a : IfAddr) (v6 : Bool) where
  -- Whether the route that is found has at most the netmask of `q`.
  abbrev shorter : Option (ℕ × DevRoute) → DevRoute → Bool
  shorter none q = false
  shorter (some (i, r)) q = leb r.mask q.mask

  find_route-shorter :
      (i : ℕ) (rs : List DevRoute) (res : Option (ℕ × DevRoute)) (q : DevRoute)
      → shorter res q ≡ true
      → shorter (find_route a v6 i rs res) q ≡ true
  unfolding find_route
  find_route-shorter i [] res q h = h
  find_route-shorter i (r ∷ rs) none q h = cc
  find_route-shorter i (r ∷ rs) (some (j, p)) q h =
      find_route-shorter i rs _ q (elim (Bool-cases (route_covers a v6 r && ltb r.mask p.mask)) [
        | inl e ↦ rw e (ground arith)
        | inr e ↦ rw e h
      ])

  -- All routes that lead to the host have at least the netmask of the one that is found.
  abbrev pub AllLonger : Option (ℕ × DevRoute) → List DevRoute → Type 0
  AllLonger res rs = All (λ q. route_covers a v6 q ≡ true → shorter res q ≡ true) rs

  replaced-shorter :
      (i : ℕ) (r : DevRoute) (res : Option (ℕ × DevRoute))
      → route_covers a v6 r ≡ true
      → shorter (if route_covers a v6 r && improves r res then some (i, r) else res) r ≡ true
  replaced-shorter i r none h = rw h (ground arith)
  replaced-shorter i r (some (j, q)) h = ground arith

  find_route-AllLonger :
      (i : ℕ) (rs : List DevRoute) (res : Option (ℕ × DevRoute))
      → AllLonger (find_route a v6 i rs res) rs
  unfolding find_route
  find_route-AllLonger i [] res = tt
  find_route-AllLonger i (r ∷ rs) res =
      (λ h. find_route-shorter i rs _ r (replaced-shorter i r res h), find_route-AllLonger i rs _)

  find_route_target-AllLonger :
      (f : Reach) (res : Option (ℕ × DevRoute))
      → AllLonger (find_route_target a v6 f res) f.proto_routes
        × AllLonger (find_route_target a v6 f res) f.config_routes
  unfolding find_route_target
  find_route_target-AllLonger f res =
      let first = find_route a v6 f.number f.proto_routes res in
      (
        All-map f.proto_routes (λ q h c. find_route-shorter f.number f.config_routes first q (h c))
            (find_route-AllLonger f.number f.proto_routes res),
        find_route-AllLonger f.number f.config_routes first,
      )

  -- Whether a host that is reached by a route has one of at most the netmask of `q`.
  abbrev pub found_shorter : Found → DevRoute → Bool
  found_shorter nowhere q = false
  found_shorter (on_link i) q = true
  found_shorter (by_route i r) q = leb r.mask q.mask

  abbrev pub AllFoundLonger : Found → Reach → Type 0
  AllFoundLonger t f =
      All (λ q. route_covers a v6 q ≡ true → found_shorter t q ≡ true) f.proto_routes
      × All (λ q. route_covers a v6 q ≡ true → found_shorter t q ≡ true) f.config_routes

  find_route_target-shorter :
      (f : Reach) (res : Option (ℕ × DevRoute)) (q : DevRoute)
      → shorter res q ≡ true
      → shorter (find_route_target a v6 f res) q ≡ true
  unfolding find_route_target
  find_route_target-shorter f res q h =
      find_route-shorter f.number f.config_routes _ q
        (find_route-shorter f.number f.proto_routes res q h)

  find_target-shorter :
      (fs : List Reach) (res : Option (ℕ × DevRoute)) (q : DevRoute)
      → shorter res q ≡ true
      → found_shorter (find_target a v6 fs res) q ≡ true
  unfolding find_target
  find_target-shorter [] none q h = cc
  find_target-shorter [] (some (i, r)) q h = h
  find_target-shorter (f ∷ fs) res q h =
      if_ind (λ (t : Found). found_shorter t q ≡ true) (find_addr_target a v6 f) _ _ refl
        (find_target-shorter fs _ q (find_route_target-shorter f res q h))

  -- Where a host is reached by a route, no route of any interface that leads to it has a shorter
  -- netmask: the least specific one is taken.
  pub find_target-AllFoundLonger :
      (fs : List Reach) (res : Option (ℕ × DevRoute))
      → All (AllFoundLonger (find_target a v6 fs res)) fs
  unfolding find_target
  find_target-AllFoundLonger [] res = tt
  find_target-AllFoundLonger (f ∷ fs) res =
      let next = find_route_target a v6 f res in
      let here = find_route_target-AllLonger f res in
      if_ind (λ (t : Found). AllFoundLonger t f × All (AllFoundLonger t) fs)
        (find_addr_target a v6 f) _ _
        (
          (holds_of_each f.proto_routes (λ q h. refl), holds_of_each f.config_routes (λ q h. refl)),
          holds_of_each fs (λ g. (
            holds_of_each g.proto_routes (λ q h. refl),
            holds_of_each g.config_routes (λ q h. refl),
          )),
        )
        (
          (
            All-map f.proto_routes (λ q h c. find_target-shorter fs next q (h c)) here.0,
            All-map f.config_routes (λ q h c. find_target-shorter fs next q (h c)) here.1,
          ),
          find_target-AllFoundLonger fs next,
        )
