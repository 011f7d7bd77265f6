-- ===== src/Bridge/Events.antt =====
-- bridge.c: members that come and go keep the count of the members.
use lede_netifd.Prelude.{
  ℕ, ◌+◌, ◌≡◌, refl, arith, Bool, true, false, none, some, List, [], ◌∷◌, if◌then◌else◌, remove,
  contains, count_if-change, count_if-remove, remove-Distinct, contains-remove_self, inl, inr,
  Bool-cases,
}
use lede_netifd.Bridge.{
  come, retry_member, retry_all, retry_members, enable_added, first_added, Bridge, Env, put_member,
  is_primary, reset_primary, set_absent, disable_member, enable_member, absent_member,
  remove_member, free_member, delete_member, member_added, member_removed, set_state,
  hotplug_prepare,
}
use lede_netifd.Bridge.Members.{here, Counts, Here, Guarantee, same-Counts, set_absent-Counts}
use lede_netifd.Bridge.Enable.{
  enable_member-Counts, enable_member-list, set_down-Counts, set_up-Counts, leaving-Here,
  remove_member-Counts,
}

-- An absent member that has left the tree does not count.
gone-Counts : (m : ℕ) (b : Bridge) → Counts (some m) b → here b m ≡ false → Counts none b
gone-Counts m b v h = record {
  distinct = v.distinct;
  outside = tt;
  count = ground (arith, v.count, h);
}

leave-Counts :
    (m : ℕ) (b : Bridge)
    → Counts none b
    → contains b.members m ≡ true
    → Counts (some m) (record b { members = remove m b.members })
leave-Counts m b v c = record {
  distinct = remove-Distinct b.members m v.distinct;
  outside = contains-remove_self b.members m v.distinct;
  count = ground (arith, v.count, count_if-remove (here b) b.members m c);
}

come-Counts :
    (m : ℕ) (b : Bridge)
    → Counts none b
    → contains b.members m ≡ true
    → here b m ≡ false
    → Counts none (record (put_member m (record (b.member m) { present = true }) b) {
      n_present = b.n_present + 1;
    })
come-Counts m b v c h = record {
  distinct = v.distinct;
  outside = tt;
  count = ground (
    arith,
    v.count,
    h,
    count_if-change (here b) (here (put_member m (record (b.member m) { present = true }) b)) m
        b.members v.distinct c (λ x ne. ground arith),
  );
}

-- What can happen to a bridge.
pub data Call : Type 0 where
  added removed : ℕ → Call
  up : Bool → Call
  deleted : ℕ → Call
  prepared retried : Call

-- What device.c grants: a member that comes is in the tree and was absent, and one that goes is in the
-- tree.
abbrev pub Allowed : Call → Bridge → Type 0
Allowed (added m) b = (contains b.members m ≡ true) × (here b m ≡ false)
Allowed (removed m) b = contains b.members m ≡ true
Allowed (deleted m) b = contains b.members m ≡ true
Allowed (up v) b = Unit {0}
Allowed prepared b = Unit {0}
Allowed retried b = Unit {0}

module _ (env : Env) where
  unfoldable pub run_call : Call → Bridge → Bridge
  run_call (added m) b = member_added env m b
  run_call (removed m) b = member_removed env m b
  run_call (deleted m) b = delete_member env m b
  run_call (up v) b = (set_state env v b).1
  run_call prepared b = hotplug_prepare env b
  run_call retried b = retry_members env b

  module _ (g : Guarantee env) where
    absent_gone : (m : ℕ) (b : Bridge) → Here (some m) m b → Counts none (absent_member env m b)
    unfolding absent_member
    absent_gone m b v =
        let c = set_absent m b in
        let cv = gone-Counts m c (set_absent-Counts (some m) m b v) (ground arith) in
        let d = record c { force_active = false } in
        let dv = same-Counts none d c (refl, refl, λ m. refl) cv in
        ground (arith, cv, dv, g.set_present none false d dv)

    remove_gone : (m : ℕ) (b : Bridge) → Counts (some m) b → Counts none (remove_member env m b)
    unfolding remove_member
    remove_gone m b v = elim (Bool-cases (here b m)) [
      | inl p ↦
          let h : Here (some m) m b = record { counts = v; present = p; tracked = inr refl } in
          let c = if is_primary b.primary_port m then reset_primary b else b in
          ground (
            arith,
            p,
            absent_gone m (if c.dev_active then disable_member env m c else c)
                (leaving-Here env g (some m) m b h),
          )
      | inr a ↦ ground (arith, a, gone-Counts m b v a)
    ]

    delete_member-Counts :
        (m : ℕ) (b : Bridge)
        → Counts none b
        → contains b.members m ≡ true
        → Counts none (delete_member env m b)
    unfolding delete_member free_member
    delete_member-Counts m b v c =
        let x = record b { members = remove m b.members } in
        let r = remove_member env m x in
        g.toggle_present none m (env.remove_user m r)
          (g.remove_user none m r (remove_gone m x (leave-Counts m b v c)))

    first_added-Counts : (b : Bridge) → Counts none b → Counts none (first_added env b)
    unfolding first_added
    first_added-Counts b v = ground (arith, v, g.set_present none true b v)

    first_added-list : (b : Bridge) → (first_added env b).members ≡ b.members
    unfolding first_added
    first_added-list b = ground (arith, g.set_present_lists b.members true b refl)

    enable_added-Counts :
        (m : ℕ) (b : Bridge)
        → Counts none b
        → contains b.members m ≡ true
        → Counts none (enable_added env m b)
    unfolding enable_added
    enable_added-Counts m b v c =
        let q = enable_member-Counts env g none m b v c in
        ground (arith, v, q, g.apply_mtu none (enable_member env m b).1 q)

    member_added-Counts :
        (m : ℕ) (b : Bridge)
        → Counts none b
        → contains b.members m ≡ true
        → here b m ≡ false
        → Counts none (member_added env m b)
    unfolding member_added
    member_added-Counts m b v c h =
        let c' = record (put_member m (record (b.member m) { present = true }) b) {
          n_present = b.n_present + 1;
        } in
        let cv = come-Counts m b v c h in
        enable_added-Counts m (first_added env c') (first_added-Counts c' cv)
          (rw (first_added-list c') c)

    retry_member-Counts :
        (m : ℕ) (b : Bridge)
        → Counts none b
        → contains b.members m ≡ true
        → Counts none (retry_member env m b)
    unfolding retry_member
    retry_member-Counts m b v c = elim (Bool-cases (here b m)) [
      | inl p ↦ ground (arith, p, v)
      | inr a ↦
          ground (
            arith,
            a,
            v,
            enable_member-Counts env g none m (come env m b) (come-Counts m b v c a) c,
          )
    ]

    retry_member-list : (m : ℕ) (b : Bridge) → (retry_member env m b).members ≡ b.members
    unfolding retry_member
    retry_member-list m b =
        ground (arith, enable_member-list env g none b.members m (come env m b) refl)

    retry_all-Counts :
        (ms : List ℕ) (b : Bridge)
        → Counts none b
        → ((x : ℕ) → contains ms x ≡ true → contains b.members x ≡ true)
        → Counts none (retry_all env ms b)
    unfolding retry_all
    retry_all-Counts [] b v c = v
    retry_all-Counts (m ∷ ms) b v c =
        retry_all-Counts ms (retry_member env m b) (retry_member-Counts m b v (c m (ground arith)))
          (λ x k. rw (retry_member-list m b) (c x (ground arith)))

    retry_members-Counts : (b : Bridge) → Counts none b → Counts none (retry_members env b)
    unfolding retry_members
    retry_members-Counts b v =
        let d = record b { retry = none; n_failed = 0 } in
        retry_all-Counts b.members d (same-Counts none d b (refl, refl, λ m. refl) v) (λ x h. h)

    -- After any permitted event the count of present members is right, the members are distinct, and
    -- every member that has left the tree is uncounted, if this held before and the code around the
    -- bridge meets the Guarantee: it keeps the count, the calls for one member do not make that member
    -- absent by the way, and neither they nor device_set_present change which members there are.
    pub run_call-Counts :
        (c : Call) (b : Bridge) → Counts none b → Allowed c b → Counts none (run_call c b)
    unfolding run_call member_removed set_state hotplug_prepare
    run_call-Counts (added m) b v a = member_added-Counts m b v a.0 a.1
    run_call-Counts (removed m) b v a =
        ground (arith, v, delete_member-Counts m b v a, remove_member-Counts env g none m b v a)
    run_call-Counts (deleted m) b v a = delete_member-Counts m b v a
    run_call-Counts (up true) b v a = set_up-Counts env g none b v
    run_call-Counts (up false) b v a = set_down-Counts env g none b v
    run_call-Counts prepared b v a =
        let d = record b { force_active = true } in
        g.set_present none true d (same-Counts none d b (refl, refl, λ m. refl) v)
    run_call-Counts retried b v a = retry_members-Counts b v
