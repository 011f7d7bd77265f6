-- ===== src/Bridge/Enable.antt =====
-- bridge.c: bringing a bridge and its members up and down keeps the count of the members.
use lede_netifd.Prelude.{
  ℕ, ◌+◌, ◌≡◌, refl, ◌∙◌, arith, true, false, Option, none, some, List, [], ◌∷◌, if◌then◌else◌, ℤ,
  contains, inl, inr, Bool-cases,
}
use lede_netifd.Bridge.{
  Bridge, Env, put_member, is_primary, reset_primary, set_absent, disable_member, enable_interface,
  disable_interface, enable_failed, claim_member, enable_member, absent_member, remove_member,
  check_retry, disable_members, set_down, enable_members, finish_set_up, start_empty, start_members,
  set_up,
}
use lede_netifd.Bridge.Members.{
  here, Tracked, Counts, Here, Calls, HasMembers, Guarantee, SameCount, same-Counts, same-Here,
  set_absent-Counts,
}

module _ (env : Env) (g : Guarantee env) (e : Option ℕ) where
  -- Calls that an operation makes on its way keep both predicates.
  module _ (P : Bridge → Type 0) (same : (b c : Bridge) → SameCount b c → P c → P b)
      (calls : Calls env P) where
    pub disable_member_keeps : (m : ℕ) (b : Bridge) → P b → P (disable_member env m b)
    unfolding disable_member
    disable_member_keeps m b p =
        let d = calls.delif m b p in
        let r = calls.release m (env.delif m b) d in
        ground (arith, p, calls.topo_change (env.release m (env.delif m b)) r)

    pub enable_interface_keeps : (b : Bridge) → P b → P (enable_interface env b).1
    unfolding enable_interface
    enable_interface_keeps b p =
        let c = (env.addbr b).1 in
        let q = calls.addbr b p in
        ground (arith, p, q, same (record c { active = true }) c (refl, refl, λ m. refl) q)

    pub disable_interface_keeps : (b : Bridge) → P b → P (disable_interface env b)
    unfolding disable_interface
    disable_interface_keeps b p =
        let c = env.delbr b in
        ground
          (arith, p, same (record c { active = false }) c (refl, refl, λ m. refl) (calls.delbr b p))

  enable_failed-Counts :
      (m : ℕ) (ret : ℤ) (b : Bridge) → Here e m b → Counts e (enable_failed env m ret b).1
  unfolding enable_failed
  enable_failed-Counts m ret b v =
      let c = set_absent m b in
      (g.counts e).release m (record c { n_failed = b.n_failed + 1 })
        (same-Counts e (record c { n_failed = b.n_failed + 1 }) c (refl, refl, λ m. refl)
          (set_absent-Counts e m b v))

  claim_member-Counts : (m : ℕ) (b : Bridge) → Here e m b → Counts e (claim_member env m b).1
  unfolding claim_member
  claim_member-Counts m b v =
      let r = env.claim m b in
      let c = (g.stays e m).claim m b v in
      let r' = env.addif m r.1 in
      let d = (g.stays e m).addif m r.1 c in
      let p = g.set_present e true r'.1 d.counts in
      ground (
        arith,
        enable_failed-Counts m r.0 r.1 c,
        enable_failed-Counts m r'.0 r'.1 d,
        (g.counts e).topo_change (env.set_present true r'.1) p,
      )

  pub enable_member-Counts :
      (m : ℕ) (b : Bridge) → Counts e b → Tracked e m b → Counts e (enable_member env m b).1
  unfolding enable_member
  enable_member-Counts m b v t = elim (Bool-cases (here b m)) [
    | inl p ↦
        let h : Here e m b = record { counts = v; present = p; tracked = t } in
        let r = enable_interface env b in
        let q = enable_interface_keeps (Here e m) (same-Here e m) (g.stays e m) b h in
        let x = put_member m (record (r.1.member m) { ipv6_flag = true }) r.1 in
        let xq = same-Here e m x r.1 (refl, refl, λ j. ground arith) q in
        ground (arith, p, enable_failed-Counts m r.0 r.1 q, claim_member-Counts m x xq)
    | inr a ↦ ground (arith, a, v)
  ]

  same_list : (ms : List ℕ) (b c : Bridge) → SameCount b c → HasMembers ms c → HasMembers ms b
  same_list ms b c s h = s.0 ∙ h

  enable_failed-list :
      (ms : List ℕ) (m : ℕ) (ret : ℤ) (b : Bridge)
      → HasMembers ms b
      → HasMembers ms (enable_failed env m ret b).1
  unfolding enable_failed
  enable_failed-list ms m ret b h =
      (g.lists ms).release m (record (set_absent m b) { n_failed = b.n_failed + 1 }) h

  claim_member-list :
      (ms : List ℕ) (m : ℕ) (b : Bridge) → HasMembers ms b → HasMembers ms (claim_member env m b).1
  unfolding claim_member
  claim_member-list ms m b h =
      let r = env.claim m b in
      let c = (g.lists ms).claim m b h in
      let r' = env.addif m r.1 in
      let d = (g.lists ms).addif m r.1 c in
      let p = g.set_present_lists ms true r'.1 d in
      ground (
        arith,
        enable_failed-list ms m r.0 r.1 c,
        enable_failed-list ms m r'.0 r'.1 d,
        (g.lists ms).topo_change (env.set_present true r'.1) p,
      )

  pub enable_member-list :
      (ms : List ℕ) (m : ℕ) (b : Bridge) → HasMembers ms b → HasMembers ms (enable_member env m b).1
  unfolding enable_member
  enable_member-list ms m b h =
      let r = enable_interface env b in
      let q = enable_interface_keeps (HasMembers ms) (same_list ms) (g.lists ms) b h in
      let x = put_member m (record (r.1.member m) { ipv6_flag = true }) r.1 in
      ground (arith, h, enable_failed-list ms m r.0 r.1 q, claim_member-list ms m x q)

  pub member-Tracked : (m : ℕ) (b : Bridge) → contains b.members m ≡ true → Tracked e m b
  member-Tracked m b c = elim e as (λ e. Tracked e m b) [ none ↦ c | some k ↦ inl c ]

  enable_members-Counts :
      (ms rest : List ℕ) (b : Bridge)
      → Counts e b
      → HasMembers ms b
      → ((x : ℕ) → contains rest x ≡ true → contains ms x ≡ true)
      → Counts e (enable_members env rest b)
  unfolding enable_members
  enable_members-Counts ms [] b v h c = v
  enable_members-Counts ms (m ∷ rest) b v h c =
      let t : contains b.members m ≡ true = rw h (c m (ground arith)) in
      enable_members-Counts ms rest (enable_member env m b).1
        (enable_member-Counts m b v (member-Tracked m b t)) (enable_member-list ms m b h)
        (λ x k. c x (ground arith))

  disable_members-Counts :
      (ms : List ℕ) (b : Bridge) → Counts e b → Counts e (disable_members env ms b)
  unfolding disable_members
  disable_members-Counts [] b v = v
  disable_members-Counts (m ∷ ms) b v =
      disable_members-Counts ms (disable_member env m b)
        (disable_member_keeps (Counts e) (same-Counts e) (g.counts e) m b v)

  pub set_down-Counts : (b : Bridge) → Counts e b → Counts e (set_down env b)
  unfolding set_down
  set_down-Counts b v =
      let c = (env.set_state false b).1 in
      let d = disable_members env c.members c in
      disable_interface_keeps (Counts e) (same-Counts e) (g.counts e) d
        (disable_members-Counts c.members c (g.set_state e false b v))

  reset_primary-Counts : (b : Bridge) → Counts e b → Counts e (reset_primary b)
  unfolding reset_primary
  reset_primary-Counts b v =
      same-Counts e (reset_primary b) b (ground arith, ground arith, λ m. ground arith) v

  finish_set_up-Counts : (b : Bridge) → Counts e b → Counts e (finish_set_up env b).1
  unfolding finish_set_up
  finish_set_up-Counts b v =
      let r = reset_primary b in
      let s = env.set_state true r in
      let sv = g.set_state e true r (reset_primary-Counts b v) in
      let d = disable_interface env b in
      let dv = disable_interface_keeps (Counts e) (same-Counts e) (g.counts e) b v in
      ground (arith, g.set_present e false d dv, sv, set_down-Counts s.1 sv)

  check_retry-Counts : (b : Bridge) → Counts e b → Counts e (check_retry env b)
  unfolding check_retry
  check_retry-Counts b v =
      same-Counts e (check_retry env b) b (ground arith, ground arith, λ m. ground arith) v

  start_empty-Counts : (b : Bridge) → Counts e b → Counts e (start_empty env b).1
  unfolding start_empty
  start_empty-Counts b v =
      ground (arith, v, enable_interface_keeps (Counts e) (same-Counts e) (g.counts e) b v)

  start_members-Counts : (b : Bridge) → Counts e b → Counts e (start_members env b).1
  unfolding start_members
  start_members-Counts b v =
      let d = record b { n_failed = 0 } in
      let dv = same-Counts e d b (refl, refl, λ m. refl) v in
      let m = enable_members env d.members d in
      let mv = enable_members-Counts d.members d.members d dv refl (λ x h. h) in
      finish_set_up-Counts (check_retry env m) (check_retry-Counts m mv)

  pub set_up-Counts : (b : Bridge) → Counts e b → Counts e (set_up env b).1
  unfolding set_up
  set_up-Counts b v =
      let q = start_empty-Counts b v in
      ground (arith, v, q, start_members-Counts (start_empty env b).1 q)

  pub absent_member-Counts : (m : ℕ) (b : Bridge) → Here e m b → Counts e (absent_member env m b)
  unfolding absent_member
  absent_member-Counts m b v =
      let c = set_absent m b in
      let cv = set_absent-Counts e m b v in
      let d = record c { force_active = false } in
      let dv = same-Counts e d c (refl, refl, λ m. refl) cv in
      ground (arith, cv, dv, g.set_present e false d dv)

  pub leaving-Here :
      (m : ℕ) (b : Bridge)
      → Here e m b
      → let c = if is_primary b.primary_port m then reset_primary b else b in
        Here e m (if c.dev_active then disable_member env m c else c)
  unfolding reset_primary
  leaving-Here m b v =
      let c = if is_primary b.primary_port m then reset_primary b else b in
      let cv : Here e m c = same-Here e m c b (ground arith, ground arith, λ j. ground arith) v in
      ground (arith, cv, disable_member_keeps (Here e m) (same-Here e m) (g.stays e m) m c cv)

  pub remove_member-Counts :
      (m : ℕ) (b : Bridge) → Counts e b → Tracked e m b → Counts e (remove_member env m b)
  unfolding remove_member
  remove_member-Counts m b v t = elim (Bool-cases (here b m)) [
    | inl p ↦
        let h : Here e m b = record { counts = v; present = p; tracked = t } in
        let c = if is_primary b.primary_port m then reset_primary b else b in
        ground (
          arith,
          p,
          absent_member-Counts m (if c.dev_active then disable_member env m c else c)
              (leaving-Here m b h),
        )
    | inr a ↦ ground (arith, a, v)
  ]
