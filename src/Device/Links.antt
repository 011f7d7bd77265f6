-- ===== src/Device/Links.antt =====
-- device.c: a user that is listed with a device, or taken off, keeps the invariant.
use lede_netifd.Prelude.{
  count_if-remove, remove-Distinct, contains-remove_ne, contains-remove_self, ℕ, ◌≡◌, ◌≢◌, refl,
  false, none, some, arith, update, Distinct-append_single, contains-append_single,
  count_if-append_single,
}
use lede_netifd.Device.State.{User, World}
use lede_netifd.Device.Ops.{link_user, unlink_user}
use lede_netifd.Device.Invariant.{DeviceOk, UserOk, Inv, users_absent, aliases_absent}
use lede_netifd.Device.Primitives.{put_user-counted}

module _ (w : World) (v : Inv w) (u d : ℕ) where
  -- The value of the user once it is linked.
  abbrev linked : User
  linked = record (w.user u) { dev = some d }

  abbrev unlinked : User
  unlinked = record (w.user u) { dev = none }

  module _ (h : (w.user u).dev ≡ none) where
    unclaimed : (w.user u).claimed ≡ false
    unclaimed = ground (arith, (v.user_ok u).holds)

    nowhere : (e : ℕ) → (w.user u).dev ≢ some e
    nowhere e p = ground arith

    link_user-DeviceOk : (e : ℕ) → DeviceOk (link_user u d w) e
    unfolding link_user
    link_user-DeviceOk e =
        let no_user = users_absent w v u e (nowhere e) in
        let no_alias = aliases_absent w v u e (nowhere e) in
        record {
          distinct_users =
              ground (
                arith,
                (v.device_ok e).distinct_users,
                Distinct-append_single (w.device e).users u,
              );
          distinct_aliases = ground (
            arith,
            (v.device_ok e).distinct_aliases,
            Distinct-append_single (w.device e).aliases u,
          );
          users_linked = λ y m. ground (
            arith,
            contains-append_single (w.device e).users u y,
            (v.device_ok e).users_linked y,
          );
          aliases_linked = λ y m. ground (
            arith,
            contains-append_single (w.device e).aliases u y,
            (v.device_ok e).aliases_linked y,
          );
          counted = ground (
            arith,
            unclaimed,
            put_user-counted w v u linked refl e,
            count_if-append_single (λ y. (update w.user u linked y).claimed) (w.device e).users u,
            count_if-append_single (λ y. (update w.user u linked y).claimed) (w.device e).aliases u,
          );
        }

    link_user-UserOk : (y : ℕ) → UserOk (link_user u d w) y
    unfolding link_user
    link_user-UserOk y = record {
      listed = λ e m. ground (
        arith,
        (v.user_ok y).listed e,
        contains-append_single (w.device e).users u y,
        contains-append_single (w.device e).aliases u y,
      );
      holds = λ m. ground (arith, (v.user_ok y).holds);
    }

    -- A user with no device is listed with one.
    pub link_user-Inv : Inv (link_user u d w)
    link_user-Inv = record {
      device_ok = link_user-DeviceOk;
      user_ok = link_user-UserOk;
      not_aborted = unfold link_user in v.not_aborted;
    }

  module _ (h : (w.user u).dev ≡ some d) (c : (w.user u).claimed ≡ false) where
    unlink_user-DeviceOk : (e : ℕ) → DeviceOk (unlink_user u d w) e
    unfolding unlink_user
    unlink_user-DeviceOk e =
        let new = λ (y : ℕ). (update w.user u unlinked y).claimed in
        record {
          distinct_users =
              ground (arith, (v.device_ok e).distinct_users, remove-Distinct (w.device e).users u);
          distinct_aliases =
              ground
                (arith, (v.device_ok e).distinct_aliases, remove-Distinct (w.device e).aliases u);
          users_linked = λ y m. ground (
            arith,
            contains-remove_ne (w.device e).users u y,
            contains-remove_self (w.device e).users u (v.device_ok e).distinct_users,
            (v.device_ok e).users_linked y,
          );
          aliases_linked = λ y m. ground (
            arith,
            contains-remove_ne (w.device e).aliases u y,
            contains-remove_self (w.device e).aliases u (v.device_ok e).distinct_aliases,
            (v.device_ok e).aliases_linked y,
          );
          counted = ground (
            arith,
            c,
            put_user-counted w v u unlinked refl e,
            (v.user_ok u).listed d h,
            count_if-remove new (w.device e).users u,
            count_if-remove new (w.device e).aliases u,
          );
        }

    unlink_user-UserOk : (y : ℕ) → UserOk (unlink_user u d w) y
    unfolding unlink_user
    unlink_user-UserOk y = record {
      listed = λ e m. ground (
        arith,
        (v.user_ok y).listed e,
        contains-remove_ne (w.device e).users u y,
        contains-remove_ne (w.device e).aliases u y,
      );
      holds = λ m. ground (arith, c, (v.user_ok y).holds);
    }

    -- A user with no claim is taken off its device.
    pub unlink_user-Inv : Inv (unlink_user u d w)
    unlink_user-Inv = record {
      device_ok = unlink_user-DeviceOk;
      user_ok = unlink_user-UserOk;
      not_aborted = unfold unlink_user in v.not_aborted;
    }
