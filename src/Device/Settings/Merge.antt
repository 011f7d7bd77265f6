-- ===== src/Device/Settings/Merge.antt =====
-- What a device ends up with after device_init_settings and device_merge_settings of device.c.
use lede_netifd.Prelude.{
  ℕ, ◌≡◌, ◌≤◌, arith, Bool, true, Option, none, some, List, Option-cases, inl, inr,
}
use lede_netifd.Device.Settings.{
  Opt, Settings, Attrs, Libc, or_else, bind, is_some, resolve_rpfilter, init_settings,
  merge_settings,
}

-- A flag promises a value that the kernel accepts.
pub record InRange (s : Settings) : Type 0 where
  pub mtu : s.flags Opt.mtu ≡ true → 68 ≤ s.mtu
  pub mtu6 : s.flags Opt.mtu6 ≡ true → 1280 ≤ s.mtu6
  pub rpfilter : s.flags Opt.rpfilter ≡ true → s.rpfilter ≤ 2
  pub igmpversion : s.flags Opt.igmpversion ≡ true → (1 ≤ s.igmpversion) × (s.igmpversion ≤ 3)
  pub mldversion : s.flags Opt.mldversion ≡ true → (1 ≤ s.mldversion) × (s.mldversion ≤ 2)
  pub multicast_router : s.flags Opt.multicast_router ≡ true → s.multicast_router ≤ 2

resolve_rpfilter-le : (c : Libc) (t : List ℕ) {n : ℕ} → resolve_rpfilter c t ≡ some n → n ≤ 2
unfolding resolve_rpfilter
resolve_rpfilter-le c t h = ground arith

rpfilter-le :
    (c : Libc) (o : Option (List ℕ)) (d : ℕ)
    → is_some (bind o (resolve_rpfilter c)) ≡ true
    → or_else (bind o (resolve_rpfilter c)) d ≤ 2
rpfilter-le c none d h = cc
rpfilter-le c (some t) d h = elim (Option-cases (resolve_rpfilter c t)) [
  | inl e ↦ absurd (cc (rw e at h))
  | inr (n, e) ↦ rw e (resolve_rpfilter-le c t e)
]

module _ (c : Libc) (default_ps : Bool) (tb : Attrs) (s os : Settings) where
  -- Whatever the configuration holds, each option that is flagged afterwards is in its range.
  pub init_settings-InRange : InRange (init_settings c default_ps tb s)
  unfolding init_settings
  init_settings-InRange = record {
    mtu = λ h. ground arith;
    mtu6 = λ h. ground arith;
    rpfilter = λ h. rpfilter-le c tb.rpfilter s.rpfilter h;
    igmpversion = λ h. ground arith;
    mldversion = λ h. ground arith;
    multicast_router = λ h. ground arith;
  }

  abbrev merged : Settings
  merged = merge_settings (init_settings c default_ps tb s) os
