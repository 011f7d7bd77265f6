-- ===== src/Proto/Tests.antt =====
-- The addresses and prefixes of proto.c at concrete values.
use lede_netifd.Prelude.{
  ℕ, ◌+◌, ◌-◌, ◌*◌, ◌≡◌, refl, Bool, true, false, ◌||◌, none, some, List, [], ◌∷◌, CString, codes,
  ltb, if◌then◌else◌,
}
use lede_netifd.Utils.Netmask.{Libc}
use lede_netifd.Proto.{ProtoEnv, ProtoIp, ProtoAddr, elem, AddrItem}
use lede_netifd.Proto.Apply.{ProtoMsg, apply_static_ip_settings, apply_ip_settings, prefix_length}
use lede_netifd.Proto.Bounds.{Fits}
use lede_netifd.Proto.Settings.{settings-Fits}

-- Decimal numbers
decimal : ℕ → CString → ℕ × Bool
decimal n [] = (n, true)
decimal n (x ∷ xs) =
    let rest = decimal (n * 10 + (x - 48)) xs in if ltb x 48 || ltb 57 x then (n, false) else rest

-- A C library that takes each string as the bytes of an address.
abbrev simple : Libc
simple = record {
  strtoul = λ str. decimal 0 str;
  inet_aton = λ str. none;
  inet_pton = λ v6 str. some str;
}

abbrev env : ProtoEnv
env = record {
  libc = simple;
  atoi = λ str. (decimal 0 str).0;
  experimental = λ a. false;
  multicast = λ a. false;
  now = 100;
  long_max = 9223372036854775807;
}

abbrev fresh : ProtoIp
fresh = record {
  metric = 0;
  ip4table = 0;
  ip6table = 0;
  addrs = [];
  routes = [];
  prefixes = [];
  errors = [];
}

abbrev static_msg : ProtoMsg CString
static_msg = record {
  ipaddr = some (elem (codes "host/24") ∷ []);
  ip6addr = some (elem (codes "six/64") ∷ []);
  netmask = none;
  broadcast = none;
  gateway = some (codes "gw");
  ip6gw = none;
  ip6prefix = some (elem (codes "net/56,10,20") ∷ []);
  ip6deprecated = some true;
}

abbrev lease : AddrItem
lease = record {
  ipaddr = some (codes "six");
  mask = some (codes "64");
  broadcast = none;
  ptp = none;
  preferred = some 60;
  valid = some 120;
  offlink = some true;
  pclass = none;
}

abbrev dynamic_msg : ProtoMsg AddrItem
dynamic_msg = record {
  ipaddr = none;
  ip6addr = some (elem lease ∷ []);
  netmask = none;
  broadcast = none;
  gateway = none;
  ip6gw = some (codes "gw");
  ip6prefix = none;
  ip6deprecated = none;
}

settings-Fits_example :
    Fits (apply_static_ip_settings env static_msg fresh).0
    × Fits (apply_ip_settings env dynamic_msg true fresh).0
settings-Fits_example = settings-Fits env static_msg dynamic_msg true fresh (tt, tt)

masks : List ProtoAddr → List ℕ
masks [] = []
masks (x ∷ xs) = x.dev.mask ∷ masks xs

static_masks : masks (apply_static_ip_settings env static_msg fresh).0.addrs ≡ 64 ∷ 24 ∷ []
unfolding masks apply_static_ip_settings decimal
static_masks = refl

dynamic_masks : masks (apply_ip_settings env dynamic_msg true fresh).0.addrs ≡ 64 ∷ []
unfolding masks apply_ip_settings decimal
dynamic_masks = refl

-- A length of 257 is taken as 1.
wrapped_length : prefix_length env (codes "257") ≡ 1
unfolding prefix_length decimal
wrapped_length = refl
