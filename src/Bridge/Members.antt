-- ===== src/Bridge/Members.antt =====
-- bridge.c: `n_present` counts the members that are present.
use lede_netifd.Prelude.{
  ℕ, ◌+◌, ◌≡◌, ◌⊎◌, ◌∙◌, arith, Bool, true, false, Option, none, some, List, contains, Distinct,
  count_if, bit, count_if-cong, count_if-change, contains_ne, inl, inr,
}
use lede_netifd.Bridge.{Bridge, Env, set_absent}

abbrev pub here : Bridge → ℕ → Bool
here b m = (b.member m).present

-- A member that has left the tree and is yet to be freed.
abbrev pub extra : Option ℕ → Bridge → ℕ
extra none b = 0
extra (some m) b = bit (here b m)

abbrev pub Outside : Option ℕ → List ℕ → Type 0
Outside none ms = Unit {0}
Outside (some m) ms = contains ms m ≡ false

-- The members are distinct, and `n_present` is the number of those that are present, with a member
-- that has left the tree.
pub record Counts (e : Option ℕ) (b : Bridge) : Type 0 where
  pub distinct : Distinct b.members
  pub outside : Outside e b.members
  pub count : b.n_present ≡ count_if (here b) b.members + extra e b

abbrev pub Tracked : Option ℕ → ℕ → Bridge → Type 0
Tracked none m b = contains b.members m ≡ true
Tracked (some k) m b = (contains b.members m ≡ true) ⊎ (k ≡ m)

-- The same, and `m` is one that is counted.
pub record Here (e : Option ℕ) (m : ℕ) (b : Bridge) : Type 0 where
  pub counts : Counts e b
  pub present : here b m ≡ true
  pub tracked : Tracked e m b

-- The calls keep a predicate.
pub record Calls (env : Env) (P : Bridge → Type 0) : Type 1 where
  pub addbr : (b : Bridge) → P b → P (env.addbr b).1
  pub delbr : (b : Bridge) → P b → P (env.delbr b)
  pub addif : (m : ℕ) (b : Bridge) → P b → P (env.addif m b).1
  pub delif : (m : ℕ) (b : Bridge) → P b → P (env.delif m b)
  pub claim : (m : ℕ) (b : Bridge) → P b → P (env.claim m b).1
  pub release : (m : ℕ) (b : Bridge) → P b → P (env.release m b)
  pub topo_change : (b : Bridge) → P b → P (env.topo_change b)

abbrev pub HasMembers : List ℕ → Bridge → Type 0
HasMembers ms b = b.members ≡ ms

-- What is asked of the code around bridge.c, which may call back into it: it keeps the count; while one
-- member is enabled or disabled, the calls for it neither make that member absent by the way nor change
-- which members there are. The presence of the bridge may change which members are present, as it does
-- where an interface claims the bridge and a member cannot be added.
pub record Guarantee (env : Env) : Type 1 where
  pub counts : (e : Option ℕ) → Calls env (Counts e)
  pub stays : (e : Option ℕ) (m : ℕ) → Calls env (Here e m)
  pub lists : (ms : List ℕ) → Calls env (HasMembers ms)
  pub set_present_lists :
      (ms : List ℕ) (v : Bool) (b : Bridge) → HasMembers ms b → HasMembers ms (env.set_present v b)
  pub set_present :
      (e : Option ℕ) (v : Bool) (b : Bridge) → Counts e b → Counts e (env.set_present v b)
  pub apply_mtu : (e : Option ℕ) (b : Bridge) → Counts e b → Counts e (env.apply_mtu b)
  pub set_state :
      (e : Option ℕ) (v : Bool) (b : Bridge) → Counts e b → Counts e (env.set_state v b).1
  pub remove_user :
      (e : Option ℕ) (m : ℕ) (b : Bridge) → Counts e b → Counts e (env.remove_user m b)
  pub toggle_present :
      (e : Option ℕ) (m : ℕ) (b : Bridge) → Counts e b → Counts e (env.toggle_present m b)

-- Fields that the count does not depend on.
abbrev pub SameCount : Bridge → Bridge → Type 0
SameCount b c =
    (b.members ≡ c.members) × (b.n_present ≡ c.n_present) × ((m : ℕ) → here b m ≡ here c m)

pub same-Counts : (e : Option ℕ) (b c : Bridge) → SameCount b c → Counts e c → Counts e b
same-Counts none b c (s, n, h) v = record {
  distinct = rw s v.distinct;
  outside = tt;
  count =
      rw (s, n) (ground (arith, v.count, count_if-cong (here b) (here c) c.members (λ x _. h x)));
}
same-Counts (some k) b c (s, n, h) v = record {
  distinct = rw s v.distinct;
  outside = rw s v.outside;
  count =
      rw (s, n)
        (ground (arith, v.count, h k, count_if-cong (here b) (here c) c.members (λ x _. h x)));
}

absent_change :
    (m : ℕ) (b : Bridge)
    → Distinct b.members
    → contains b.members m ≡ true
    → count_if (here b) b.members + bit (here (set_absent m b) m)
      ≡ count_if (here (set_absent m b)) b.members + bit (here b m)
absent_change m b d c =
    count_if-change (here b) (here (set_absent m b)) m b.members d c (λ x ne. ground arith)

absent_same :
    (m : ℕ) (b : Bridge)
    → contains b.members m ≡ false
    → count_if (here (set_absent m b)) b.members ≡ count_if (here b) b.members
absent_same m b c =
    count_if-cong (here (set_absent m b)) (here b) b.members
      (λ x k. ground (arith, contains_ne b.members m x c k))

pub set_absent-Counts : (e : Option ℕ) (m : ℕ) (b : Bridge) → Here e m b → Counts e (set_absent m b)
set_absent-Counts none m b v = record {
  distinct = v.counts.distinct;
  outside = tt;
  count = ground (arith, v.present, v.counts.count, absent_change m b v.counts.distinct v.tracked);
}
set_absent-Counts (some k) m b v = record {
  distinct = v.counts.distinct;
  outside = v.counts.outside;
  count = elim v.tracked [
    | inl c ↦ ground (
      arith,
      v.present,
      v.counts.count,
      absent_change m b v.counts.distinct c,
      contains_ne b.members k m v.counts.outside c,
    )
    | inr e ↦
        ground (
          arith,
          e,
          v.present,
          v.counts.count,
          absent_same m b (ground (arith, e, v.counts.outside)),
        )
  ];
}

pub same-Here : (e : Option ℕ) (m : ℕ) (b c : Bridge) → SameCount b c → Here e m c → Here e m b
same-Here none m b c (s, n, h) v = record {
  counts = same-Counts none b c (s, n, h) v.counts;
  present = h m ∙ v.present;
  tracked = rw s v.tracked;
}
same-Here (some k) m b c (s, n, h) v = record {
  counts = same-Counts (some k) b c (s, n, h) v.counts;
  present = h m ∙ v.present;
  tracked = rw s v.tracked;
}
