-- ===== src/Bridge.antt =====
-- bridge.c: the members of a bridge.
pub mod Members
pub mod Enable
pub mod Events
pub mod Primary
mod Tests
use lede_netifd.Prelude.{
  ℕ, zero, suc, ◌+◌, ◌-◌, Bool, true, false, not, ◌&&◌, ◌||◌, Option, none, some, List, [], ◌∷◌,
  ◌==◌, if◌then◌else◌, ℤ, pos, negsuc, is_nonzero, is_negative, update, remove,
}

-- struct bridge_member; a member's number stands for its device user too. `has_mac` is the flag
-- DEV_OPT_MACADDR of its device's settings, `mac` the address in them, and `orig_mac` the device's own.
pub record Member : Type 0 where
  pub has_mac : Bool
  pub orig_mac : List ℕ
  pub present : Bool
  pub hotplug : Bool
  pub ipv6_flag : Bool
  pub mac : List ℕ

-- struct bridge_state and what it reads of its device; `members` are in the order of the tree, and
-- `mac` is the address set in the settings, if DEV_OPT_MACADDR is.
pub record Bridge : Type 0 where
  pub member : ℕ → Member
  pub members : List ℕ
  pub active : Bool
  pub force_active : Bool
  pub bridge_empty : Bool
  pub primary_port : Option ℕ
  pub n_present : ℕ
  pub n_failed : ℕ
  pub retry : Option ℕ
  pub dev_active : Bool
  pub mac : Option (List ℕ)

-- system-linux.c, device.c and the users of the bridge, which may call back into bridge.c.
pub record Env : Type 0 where
  pub addbr : Bridge → ℤ × Bridge
  pub delbr : Bridge → Bridge
  pub addif : ℕ → Bridge → ℤ × Bridge
  pub delif : ℕ → Bridge → Bridge
  pub claim : ℕ → Bridge → ℤ × Bridge
  pub release : ℕ → Bridge → Bridge
  pub topo_change : Bridge → Bridge
  pub set_present : Bool → Bridge → Bridge
  pub apply_mtu : Bridge → Bridge
  pub set_state : Bool → Bridge → ℤ × Bridge
  pub remove_user : ℕ → Bridge → Bridge
  pub toggle_present : ℕ → Bridge → Bridge
  pub dev_present : ℕ → Bridge → Bool

abbrev pub put_member : ℕ → Member → Bridge → Bridge
put_member m x b = record b { member = update b.member m x }

abbrev pub is_primary : Option ℕ → ℕ → Bool
is_primary none m = false
is_primary (some p) m = p == m

abbrev pub is_none {ℓ} : {A : Type ℓ} → Option A → Bool
is_none none = true
is_none (some x) = false

-- The first member that is present.
unfoldable pub first_present : List ℕ → (ℕ → Member) → Option ℕ
first_present [] f = none
first_present (m ∷ ms) f = let rest = first_present ms f in if (f m).present then some m else rest

-- The address that the bridge takes from a member.
abbrev pub member_mac : Member → List ℕ
member_mac x = if x.has_mac then x.mac else x.orig_mac

abbrev mac_of : Option ℕ → (ℕ → Member) → Option (List ℕ)
mac_of none f = none
mac_of (some m) f = some (member_mac (f m))

-- bridge_reset_primary; a MAC address without a primary port was configured.
unfoldable pub reset_primary : Bridge → Bridge
reset_primary b =
    let p = first_present b.members b.member in
    if is_none b.primary_port && not (is_none b.mac)
    then b
    else record b { primary_port = p; mac = mac_of p b.member }

abbrev pub set_absent : ℕ → Bridge → Bridge
set_absent m b = record (put_member m (record (b.member m) { present = false }) b) {
  n_present = b.n_present - 1;
}

abbrev pub enoent : ℤ
enoent = negsuc 1

module _ (env : Env) where
  -- bridge_disable_member
  unfoldable pub disable_member : ℕ → Bridge → Bridge
  disable_member m b =
      if (b.member m).present then env.topo_change (env.release m (env.delif m b)) else b

  -- bridge_enable_interface
  unfoldable pub enable_interface : Bridge → ℤ × Bridge
  enable_interface b =
      let (ret, c) = env.addbr b in
      if b.active
      then (pos 0, b)
      else if is_negative ret
      then (ret, c)
      else (pos 0, record c { active = true })

  -- bridge_disable_interface
  unfoldable pub disable_interface : Bridge → Bridge
  disable_interface b = if b.active then record (env.delbr b) { active = false } else b

  -- The label `error` of bridge_enable_member.
  unfoldable pub enable_failed : ℕ → ℤ → Bridge → ℤ × Bridge
  enable_failed m ret b =
      (ret, env.release m (record (set_absent m b) { n_failed = b.n_failed + 1 }))

  abbrev disable_ipv6 : ℕ → Bridge → Bridge
  disable_ipv6 m b = put_member m (record (b.member m) { ipv6_flag = true }) b

  -- bridge_enable_member, from the claim on.
  unfoldable pub claim_member : ℕ → Bridge → ℤ × Bridge
  claim_member m b =
      let (ret, c) = env.claim m b in
      let (ret', d) = env.addif m c in
      if is_negative ret
      then enable_failed m ret c
      else if is_negative ret'
      then enable_failed m ret' d
      else (pos 0, env.topo_change (env.set_present true d))

  -- bridge_enable_member
  unfoldable pub enable_member : ℕ → Bridge → ℤ × Bridge
  enable_member m b =
      let (ret, c) = enable_interface b in
      if not (b.member m).present
      then (pos 0, b)
      else if is_nonzero ret
      then enable_failed m ret c
      else claim_member m (disable_ipv6 m c)

  -- The end of bridge_remove_member.
  unfoldable pub absent_member : ℕ → Bridge → Bridge
  absent_member m b =
      let c = set_absent m b in
      let d = record c { force_active = false } in
      if c.bridge_empty then c else if d.n_present == 0 then env.set_present false d else d

  -- bridge_remove_member
  unfoldable pub remove_member : ℕ → Bridge → Bridge
  remove_member m b =
      let c = if is_primary b.primary_port m then reset_primary b else b in
      let d = if c.dev_active then disable_member m c else c in
      if (b.member m).present then absent_member m d else b

  -- bridge_free_member
  unfoldable pub free_member : ℕ → Bridge → Bridge
  free_member m b = env.toggle_present m (env.remove_user m (remove_member m b))

  -- vlist_delete of a member, which frees it.
  unfoldable pub delete_member : ℕ → Bridge → Bridge
  delete_member m b = free_member m (record b { members = remove m b.members })

  -- bridge_check_retry
  unfoldable pub check_retry : Bridge → Bridge
  check_retry b = if b.n_failed == 0 then b else record b { retry = some 100 }

  -- The end of the case DEV_EVENT_ADD of bridge_member_cb.
  unfoldable pub enable_added : ℕ → Bridge → Bridge
  enable_added m b =
      let (ret, c) = enable_member m b in
      if not b.dev_active then b else if is_nonzero ret then c else env.apply_mtu c

  unfoldable pub first_added : Bridge → Bridge
  first_added b = if b.n_present == 1 then env.set_present true b else b

  -- The case DEV_EVENT_ADD of bridge_member_cb, whose assertion is that the member was absent.
  unfoldable pub member_added : ℕ → Bridge → Bridge
  member_added m b = enable_added m (
      first_added (record (put_member m (record (b.member m) { present = true }) b) {
        n_present = b.n_present + 1;
      }))

  -- The case DEV_EVENT_REMOVE.
  unfoldable pub member_removed : ℕ → Bridge → Bridge
  member_removed m b =
      if (b.member m).hotplug
      then delete_member m b
      else if (b.member m).present
      then remove_member m b
      else b

  unfoldable pub disable_members : List ℕ → Bridge → Bridge
  disable_members [] b = b
  disable_members (m ∷ ms) b = disable_members ms (disable_member m b)

  -- bridge_set_down
  unfoldable pub set_down : Bridge → Bridge
  set_down b = let c = (env.set_state false b).1 in disable_interface (disable_members c.members c)

  unfoldable pub enable_members : List ℕ → Bridge → Bridge
  enable_members [] b = b
  enable_members (m ∷ ms) b = enable_members ms (enable_member m b).1

  -- The end of bridge_set_up, after the members have been enabled.
  unfoldable pub finish_set_up : Bridge → ℤ × Bridge
  finish_set_up b =
      let (ret, c) = env.set_state true (reset_primary b) in
      if not b.force_active && (b.n_present == 0)
      then (enoent, env.set_present false (disable_interface b))
      else (ret, if is_negative ret then set_down c else c)

  -- The loop of bridge_set_up, and what follows it.
  unfoldable pub start_members : Bridge → ℤ × Bridge
  start_members b =
      let d = record b { n_failed = 0 } in finish_set_up (check_retry (enable_members d.members d))

  -- The start of the bridge itself if no member is present.
  unfoldable pub start_empty : Bridge → ℤ × Bridge
  start_empty b = if b.n_present == 0 then enable_interface b else (pos 0, b)

  -- bridge_set_up
  unfoldable pub set_up : Bridge → ℤ × Bridge
  set_up b =
      let (ret, c) = start_empty b in
      if (b.n_present == 0) && not b.force_active
      then (enoent, b)
      else if is_nonzero ret
      then (ret, c)
      else start_members c

  -- bridge_set_state
  unfoldable pub set_state : Bool → Bridge → ℤ × Bridge
  set_state true b = set_up b
  set_state false b = (pos 0, set_down b)

  abbrev pub come : ℕ → Bridge → Bridge
  come m b = record (put_member m (record (b.member m) { present = true }) b) {
    n_present = b.n_present + 1;
  }

  unfoldable pub retry_member : ℕ → Bridge → Bridge
  retry_member m b =
      if (b.member m).present || not (env.dev_present m b)
      then b
      else (enable_member m (come m b)).1

  unfoldable pub retry_all : List ℕ → Bridge → Bridge
  retry_all [] b = b
  retry_all (m ∷ ms) b = retry_all ms (retry_member m b)

  -- bridge_retry_members, when its timer has run out.
  unfoldable pub retry_members : Bridge → Bridge
  retry_members b = retry_all b.members (record b { retry = none; n_failed = 0 })

  -- bridge_hotplug_prepare
  unfoldable pub hotplug_prepare : Bridge → Bridge
  hotplug_prepare b = env.set_present true (record b { force_active = true })
