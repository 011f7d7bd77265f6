-- ===== src/Bridge/Primary.antt =====
-- bridge.c: the primary port, whose MAC address the bridge takes.
use lede_netifd.Prelude.{ℕ, ◌≡◌, arith, true, false, some, List, [], ◌∷◌, contains}
use lede_netifd.Bridge.{
  Bridge, Member, Env, member_mac, first_present, reset_primary, remove_member, absent_member,
}

-- The member that is chosen is one of the members, and present.
first_present-contains :
    (ms : List ℕ) (f : ℕ → Member) (m : ℕ)
    → first_present ms f ≡ some m
    → (contains ms m ≡ true) × ((f m).present ≡ true)
unfolding first_present
first_present-contains [] f m h = cc
first_present-contains (x ∷ ms) f m h = ground (arith, first_present-contains ms f m)

-- The primary port that a reset finds is a member of the bridge that is present, and the bridge has
-- the MAC address that is set for the member, or else the member's own; unless the address was configured and there was no primary port, which the reset
-- leaves so.
pub reset_primary_lem :
    (b : Bridge) (m : ℕ)
    → (reset_primary b).primary_port ≡ some m
    → (contains b.members m ≡ true)
      × ((b.member m).present ≡ true)
      × ((reset_primary b).mac ≡ some (member_mac (b.member m)))
unfolding reset_primary
reset_primary_lem b m h = ground (arith, first_present-contains b.members b.member m)

-- Of an inactive bridge that may be empty, the removal of a primary port that is the first present
-- member leaves it the primary port, though it is absent then.
pub remove_member-primary :
    (env : Env) (m : ℕ) (b : Bridge)
    → b.primary_port ≡ some m
    → first_present b.members b.member ≡ some m
    → b.dev_active ≡ false
    → b.bridge_empty ≡ true
    → ((remove_member env m b).primary_port ≡ some m)
      × (((remove_member env m b).member m).present ≡ false)
unfolding remove_member absent_member reset_primary
remove_member-primary env m b p f d e = ground (arith, first_present-contains b.members b.member m)
