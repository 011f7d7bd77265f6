-- ===== src/Device/Settings.antt =====
-- device.c and device.h: the settings of a device, read from its configuration and merged.
-- The bit mask `flags` is a set of options, so that `|=` is union. `ether_aton` is a parameter, and
-- so is `strtoul` with base 0, which gives the number read and the rest of the text.
pub mod Merge
use lede_netifd.Prelude.{
  ◌%◌, ◌^◌, leb, ◌||◌, ℕ, Bool, true, false, not, ◌&&◌, Option, none, some, List, [], ◌∷◌, ltb,
  if◌then◌else◌, CString, codes, str_eq,
}

-- DEV_OPT_*
pub data Opt : Type 0 where
  mtu macaddr txqueuelen ipv6 promisc rpfilter acceptlocal igmpversion mldversion : Opt
  neighreachabletime rps xps mtu6 dadtransmits multicast_to_unicast multicast_router : Opt
  multicast learning unicast_flood neighgcstaletime multicast_fast_leave sendredirects : Opt
  neighlocktime : Opt

abbrev pub Flags : Type 0
Flags = Opt → Bool

-- struct device_settings
pub record Settings : Type 0 where
  pub flags : Flags
  pub valid_flags : Flags
  pub mtu : ℕ
  pub mtu6 : ℕ
  pub txqueuelen : ℕ
  pub macaddr : List ℕ
  pub ipv6 : Bool
  pub promisc : Bool
  pub rpfilter : ℕ
  pub acceptlocal : Bool
  pub igmpversion : ℕ
  pub mldversion : ℕ
  pub neigh4reachabletime : ℕ
  pub neigh6reachabletime : ℕ
  pub neigh4gcstaletime : ℕ
  pub neigh6gcstaletime : ℕ
  pub neigh4locktime : ℕ
  pub rps : Bool
  pub xps : Bool
  pub dadtransmits : ℕ
  pub multicast_to_unicast : Bool
  pub multicast_router : ℕ
  pub multicast_fast_leave : Bool
  pub multicast : Bool
  pub learning : Bool
  pub unicast_flood : Bool
  pub sendredirects : Bool

-- The parsed attributes `tb`: DEV_ATTR_*, `none` where the entry is NULL.
pub record Attrs : Type 0 where
  pub enabled : Option Bool
  pub mtu : Option ℕ
  pub mtu6 : Option ℕ
  pub txqueuelen : Option ℕ
  pub macaddr : Option CString
  pub ipv6 : Option Bool
  pub promisc : Option Bool
  pub rpfilter : Option CString
  pub acceptlocal : Option Bool
  pub igmpversion : Option ℕ
  pub mldversion : Option ℕ
  pub neighreachabletime : Option ℕ
  pub neighgcstaletime : Option ℕ
  pub neighlocktime : Option ℕ
  pub rps : Option Bool
  pub xps : Option Bool
  pub dadtransmits : Option ℕ
  pub multicast_to_unicast : Option Bool
  pub multicast_router : Option ℕ
  pub multicast_fast_leave : Option Bool
  pub multicast : Option Bool
  pub learning : Option Bool
  pub unicast_flood : Option Bool
  pub sendredirects : Option Bool

abbrev pub or_else {ℓ} : {A : Type ℓ} → Option A → A → A
or_else none d = d
or_else (some v) d = v

abbrev pub is_some {ℓ} : {A : Type ℓ} → Option A → Bool
is_some none = false
is_some (some v) = true

-- The value of an option if it passes its test.
abbrev pub checked : (ℕ → Bool) → Option ℕ → Option ℕ
checked p none = none
checked p (some v) = if p v then some v else none

abbrev pub bind {ℓ κ} : {A : Type ℓ} {B : Type κ} → Option A → (A → Option B) → Option B
bind none f = none
bind (some a) f = f a

-- What the settings need of libc.
pub record Libc : Type 0 where
  pub ether_aton : CString → Option (List ℕ)
  pub strtoul : CString → ℕ × CString

abbrev is_end : CString → Bool
is_end [] = true
is_end (c ∷ cs) = false

-- system_resolve_rpfilter
pub resolve_rpfilter : Libc → CString → Option ℕ
unfolding str_eq
resolve_rpfilter c filter =
    if str_eq filter (codes "strict")
    then some 1
    else if str_eq filter (codes "loose")
    then some 2
    else (let (value, e) = c.strtoul filter in
        let n = value % 2 ^ 32 in
        if not (is_end e) || str_eq e filter || ltb 2 n then none else some n)

module _ (c : Libc) (default_ps : Bool) where
  -- The flags that `device_init_settings` sets.
  pub parsed_flags : Attrs → Flags
  parsed_flags tb Opt.mtu = is_some (checked (λ v. leb 68 v) tb.mtu)
  parsed_flags tb Opt.macaddr = is_some (bind tb.macaddr c.ether_aton)
  parsed_flags tb Opt.txqueuelen = is_some tb.txqueuelen
  parsed_flags tb Opt.ipv6 = is_some tb.ipv6
  parsed_flags tb Opt.promisc = is_some tb.promisc
  parsed_flags tb Opt.rpfilter = is_some (bind tb.rpfilter (resolve_rpfilter c))
  parsed_flags tb Opt.acceptlocal = is_some tb.acceptlocal
  parsed_flags tb Opt.igmpversion = is_some (checked (λ v. leb 1 v && leb v 3) tb.igmpversion)
  parsed_flags tb Opt.mldversion = is_some (checked (λ v. leb 1 v && leb v 2) tb.mldversion)
  parsed_flags tb Opt.neighreachabletime = is_some tb.neighreachabletime
  parsed_flags tb Opt.rps = is_some tb.rps
  parsed_flags tb Opt.xps = is_some tb.xps
  parsed_flags tb Opt.mtu6 = is_some (checked (λ v. leb 1280 v) tb.mtu6)
  parsed_flags tb Opt.dadtransmits = is_some tb.dadtransmits
  parsed_flags tb Opt.multicast_to_unicast = is_some tb.multicast_to_unicast
  parsed_flags tb Opt.multicast_router = is_some (checked (λ v. leb v 2) tb.multicast_router)
  parsed_flags tb Opt.multicast = is_some tb.multicast
  parsed_flags tb Opt.learning = is_some tb.learning
  parsed_flags tb Opt.unicast_flood = is_some tb.unicast_flood
  parsed_flags tb Opt.neighgcstaletime = is_some tb.neighgcstaletime
  parsed_flags tb Opt.multicast_fast_leave = is_some tb.multicast_fast_leave
  parsed_flags tb Opt.sendredirects = is_some tb.sendredirects
  parsed_flags tb Opt.neighlocktime = is_some tb.neighlocktime

  -- `device_init_settings` up to DEV_ATTR_MLDVERSION: a value that is out of range is kept out, but
  -- for the two versions, of which only the flag is.
  pub init_first : Attrs → Settings → Settings
  unfolding resolve_rpfilter
  init_first tb s = record s {
    mtu = or_else (checked (λ v. leb 68 v) tb.mtu) s.mtu;
    mtu6 = or_else (checked (λ v. leb 1280 v) tb.mtu6) s.mtu6;
    txqueuelen = or_else tb.txqueuelen s.txqueuelen;
    macaddr = or_else (bind tb.macaddr c.ether_aton) s.macaddr;
    ipv6 = or_else tb.ipv6 s.ipv6;
    promisc = or_else tb.promisc s.promisc;
    rpfilter = or_else (bind tb.rpfilter (resolve_rpfilter c)) s.rpfilter;
    acceptlocal = or_else tb.acceptlocal s.acceptlocal;
    igmpversion = or_else tb.igmpversion s.igmpversion;
    mldversion = or_else tb.mldversion s.mldversion;
  }

  -- The rest of it, from DEV_ATTR_NEIGHREACHABLETIME on.
  pub init_second : Attrs → Settings → Settings
  init_second tb s = record s {
    neigh4reachabletime = or_else tb.neighreachabletime s.neigh4reachabletime;
    neigh6reachabletime = or_else tb.neighreachabletime s.neigh6reachabletime;
    neigh4gcstaletime = or_else tb.neighgcstaletime s.neigh4gcstaletime;
    neigh6gcstaletime = or_else tb.neighgcstaletime s.neigh6gcstaletime;
    neigh4locktime = or_else tb.neighlocktime s.neigh4locktime;
    rps = or_else tb.rps default_ps;
    xps = or_else tb.xps default_ps;
    dadtransmits = or_else tb.dadtransmits s.dadtransmits;
    multicast_to_unicast = or_else tb.multicast_to_unicast s.multicast_to_unicast;
    multicast_router = or_else tb.multicast_router s.multicast_router;
    multicast_fast_leave = or_else tb.multicast_fast_leave s.multicast_fast_leave;
    multicast = or_else tb.multicast s.multicast;
    learning = or_else tb.learning s.learning;
    unicast_flood = or_else tb.unicast_flood s.unicast_flood;
    sendredirects = or_else tb.sendredirects s.sendredirects;
  }

  -- `device_init_settings`, but for its last call, `device_set_disabled`.
  unfoldable pub init_settings : Attrs → Settings → Settings
  unfolding parsed_flags init_first init_second
  init_settings tb s = record (init_second tb (init_first tb s)) { flags = parsed_flags tb }

-- `disabled` of `device_init_settings`.
unfoldable pub parsed_disabled : Attrs → Bool
parsed_disabled tb = not (or_else tb.enabled true)

-- device_merge_settings, of `settings` and `orig_settings`; `memset` clears what it does not set.
unfoldable pub merge_settings : Settings → Settings → Settings
merge_settings s os = record {
  flags = λ o. s.flags o || (os.flags o || os.valid_flags o);
  valid_flags = λ o. false;
  mtu = if s.flags Opt.mtu then s.mtu else os.mtu;
  mtu6 = if s.flags Opt.mtu6 then s.mtu6 else os.mtu6;
  txqueuelen = if s.flags Opt.txqueuelen then s.txqueuelen else os.txqueuelen;
  macaddr = if s.flags Opt.macaddr then s.macaddr else os.macaddr;
  ipv6 = if s.flags Opt.ipv6 then s.ipv6 else os.ipv6;
  promisc = if s.flags Opt.promisc then s.promisc else os.promisc;
  rpfilter = if s.flags Opt.rpfilter then s.rpfilter else os.rpfilter;
  acceptlocal = if s.flags Opt.acceptlocal then s.acceptlocal else os.acceptlocal;
  igmpversion = if s.flags Opt.igmpversion then s.igmpversion else os.igmpversion;
  mldversion = if s.flags Opt.mldversion then s.mldversion else os.mldversion;
  neigh4reachabletime =
      if s.flags Opt.neighreachabletime then s.neigh4reachabletime else os.neigh4reachabletime;
  neigh6reachabletime =
      if s.flags Opt.neighreachabletime then s.neigh6reachabletime else os.neigh6reachabletime;
  neigh4gcstaletime =
      if s.flags Opt.neighgcstaletime then s.neigh4gcstaletime else os.neigh4gcstaletime;
  neigh6gcstaletime =
      if s.flags Opt.neighgcstaletime then s.neigh6gcstaletime else os.neigh6gcstaletime;
  neigh4locktime = if s.flags Opt.neighlocktime then s.neigh4locktime else os.neigh4locktime;
  rps = false;
  xps = false;
  dadtransmits = if s.flags Opt.dadtransmits then s.dadtransmits else os.dadtransmits;
  multicast_to_unicast = s.multicast_to_unicast;
  multicast_router = s.multicast_router;
  multicast_fast_leave = s.multicast_fast_leave;
  multicast = if s.flags Opt.multicast then s.multicast else os.multicast;
  learning = s.learning;
  unicast_flood = s.unicast_flood;
  sendredirects = if s.flags Opt.sendredirects then s.sendredirects else os.sendredirects;
}
