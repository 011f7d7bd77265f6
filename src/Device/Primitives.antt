-- ===== src/Device/Primitives.antt =====
-- device.c: the writes to devices and users keep the invariant.
use lede_netifd.Prelude.{
  ℕ, ◌+◌, ◌-◌, ◌<◌, ◌≡◌, Bool, true, false, some, inl, inr, ◌==◌, arith, Bool-cases, update, bit,
  count_if-cong,
}
use lede_netifd.Device.Ops.{mark_claimed, claim_failed, unmark_claimed}
use lede_netifd.Device.State.{User, Device, World, put_device, put_user}
use lede_netifd.Device.Invariant.{claims, Inv, claims_change, claims_other}

module _ (w : World) (v : Inv w) where
  pub put_user-counted :
      (u : ℕ) (x : User)
      → x.claimed ≡ (w.user u).claimed
      → (d : ℕ)
      → (w.device d).active
        ≡ claims (update w.user u x) (w.device d).users
          + claims (update w.user u x) (w.device d).aliases
  put_user-counted u x r d = ground (
    arith,
    (v.device_ok d).counted,
    count_if-cong (λ y. (update w.user u x y).claimed) (λ y. (w.user y).claimed) (w.device d).users
        (λ y m. ground arith),
    count_if-cong (λ y. (update w.user u x y).claimed) (λ y. (w.user y).claimed)
        (w.device d).aliases (λ y m. ground arith),
  )

  -- A write to a device that leaves its lists and its count alone.
  pub put_device-Inv :
      (d : ℕ) (x : Device)
      → x.users ≡ (w.device d).users
      → x.aliases ≡ (w.device d).aliases
      → x.active ≡ (w.device d).active
      → Inv (put_device d x w)
  put_device-Inv d x p q r = record {
    device_ok = λ e. record {
      distinct_users = ground (arith, (v.device_ok e).distinct_users);
      distinct_aliases = ground (arith, (v.device_ok e).distinct_aliases);
      users_linked = λ u h. (v.device_ok e).users_linked u (ground arith);
      aliases_linked = λ u h. (v.device_ok e).aliases_linked u (ground arith);
      counted = ground (arith, (v.device_ok e).counted);
    };
    user_ok = λ u. record {
      listed = λ e h. ground (arith, (v.user_ok u).listed e h);
      holds = (v.user_ok u).holds;
    };
    not_aborted = v.not_aborted;
  }

  abbrev set_claim : ℕ → ℕ → Bool → ℕ → World
  set_claim u d b n =
      put_user u (record (w.user u) { claimed = b })
        (put_device d (record (w.device d) { active = n }) w)

  -- The claim of a user of `d` set to `b`, and the count of `d` with it.
  set_claim-Inv :
      (u d n : ℕ) (b : Bool)
      → (w.user u).dev ≡ some d
      → n + bit (w.user u).claimed ≡ (w.device d).active + bit b
      → Inv (set_claim u d b n)
  set_claim-Inv u d n b h k = record {
    device_ok = λ e. record {
      distinct_users = ground (arith, (v.device_ok e).distinct_users);
      distinct_aliases = ground (arith, (v.device_ok e).distinct_aliases);
      users_linked = λ u' m. ground (arith, (v.device_ok e).users_linked u' (ground arith));
      aliases_linked = λ u' m. ground (arith, (v.device_ok e).aliases_linked u' (ground arith));
      counted = elim (Bool-cases (d == e)) [
        | inl s ↦ ground (arith, s, claims_change w v u d (record (w.user u) { claimed = b }) h)
        | inr s ↦
            ground (
              arith,
              s,
              claims_other w v u e (record (w.user u) { claimed = b }) (λ t. ground arith),
            )
      ];
    };
    user_ok = λ u'. record {
      listed = λ e m. ground (arith, (v.user_ok u').listed e (ground arith));
      holds = λ m. ground (arith, (v.user_ok u').holds);
    };
    not_aborted = v.not_aborted;
  }

  pub mark_claimed-Inv :
      (u d : ℕ) → (w.user u).dev ≡ some d → (w.user u).claimed ≡ false → Inv (mark_claimed u d w)
  unfolding mark_claimed
  mark_claimed-Inv u d h c = set_claim-Inv u d ((w.device d).active + 1) true h (ground arith)

  pub claim_failed-Inv :
      (u d : ℕ)
      → (w.user u).dev ≡ some d
      → (w.user u).claimed ≡ true
      → (w.device d).active ≡ 1
      → Inv (claim_failed u d w)
  unfolding claim_failed
  claim_failed-Inv u d h c a = set_claim-Inv u d 0 false h (ground arith)

  -- A device that a user has claimed is active.
  pub claimed-active :
      (u d : ℕ) → (w.user u).dev ≡ some d → (w.user u).claimed ≡ true → 0 < (w.device d).active
  claimed-active u d h c =
      ground (arith, claims_change w v u d (record (w.user u) { claimed = false }) h)

  pub unmark_claimed-Inv :
      (u d : ℕ) → (w.user u).dev ≡ some d → (w.user u).claimed ≡ true → Inv (unmark_claimed u d w)
  unfolding unmark_claimed
  unmark_claimed-Inv u d h c =
      let kept =
        set_claim-Inv u d ((w.device d).active - 1) false h
          (ground (arith, claimed-active u d h c)) in
      record {
        device_ok = λ e. record {
          distinct_users = (kept.device_ok e).distinct_users;
          distinct_aliases = (kept.device_ok e).distinct_aliases;
          users_linked = (kept.device_ok e).users_linked;
          aliases_linked = (kept.device_ok e).aliases_linked;
          counted = (kept.device_ok e).counted;
        };
        user_ok = λ x. record { listed = (kept.user_ok x).listed; holds = (kept.user_ok x).holds };
        not_aborted = ground (arith, v.not_aborted, claimed-active u d h c);
      }

  -- A write to a user that leaves its claim, its device and its list alone.
  pub put_user-Inv :
      (u : ℕ) (x : User)
      → x.dev ≡ (w.user u).dev
      → x.alias ≡ (w.user u).alias
      → x.claimed ≡ (w.user u).claimed
      → Inv (put_user u x w)
  put_user-Inv u x p q r = record {
    device_ok = λ e. record {
      distinct_users = (v.device_ok e).distinct_users;
      distinct_aliases = (v.device_ok e).distinct_aliases;
      users_linked = λ y m. ground (arith, (v.device_ok e).users_linked y m);
      aliases_linked = λ y m. ground (arith, (v.device_ok e).aliases_linked y m);
      counted = put_user-counted u x r e;
    };
    user_ok = λ y. record {
      listed = λ e m. ground (arith, (v.user_ok y).listed e (ground arith));
      holds = λ m. ground (arith, (v.user_ok y).holds);
    };
    not_aborted = v.not_aborted;
  }
