-- ===== src/Utils/Tests.antt =====
-- Lists with versions and netmasks (utils.c) at concrete values.
use lede_netifd.Prelude.{
  if◌then◌else◌, ℕ, ◌≡◌, refl, true, false, none, some, [], ◌∷◌, ◌++◌, map, codes, str_eq, arith,
}
use lede_netifd.Utils.Vlist.{Tree, kept, restamp, replace, replace_lem, all_old}
use lede_netifd.Utils.Netmask.{
  Libc, slash, fls, strchr, parse_netmask_string, parse_netmask_string-mask, parse_ip_and_netmask,
  parse_ip_and_netmask_prefix,
}

-- A node that is kept, and one of an earlier configuration.
abbrev configured : Tree ℕ
configured = record {
  nodes = record { version = none; value = 1 } ∷ record { version = some 2; value = 2 } ∷ [];
  version = some 2;
}

abbrev reloaded : Tree ℕ
reloaded = record { nodes = record { version = some 1; value = 3 } ∷ []; version = some 1 }

replace_test :
    (replace configured reloaded).0.nodes
    ≡ record { version = none; value = 1 } ∷ record { version = some 3; value = 3 } ∷ []
unfolding replace
replace_test = refl

replace_lem_example :
    ((replace configured reloaded).0.nodes
      ≡ kept configured.nodes ++ map (restamp (some 3)) reloaded.nodes)
    × ((replace configured reloaded).1.nodes ≡ [])
unfolding all_old
replace_lem_example = replace_lem configured reloaded refl

-- The C library on the strings below.
abbrev libc : Libc
libc = record {
  strtoul = λ s. if str_eq s (codes "24") then (24, true) else (0, false);
  inet_aton = λ s. if str_eq s (codes "255.255.255.0") then some 4294967040 else none;
  inet_pton = λ v6 s. some (192 ∷ 168 ∷ 1 ∷ 1 ∷ []);
}

fls_test : fls 255 ≡ 8
unfolding fls
fls_test = refl

parse_netmask_string-mask_example : parse_netmask_string libc (codes "255.255.255.0") false ≡ 24
unfolding strchr str_eq
parse_netmask_string-mask_example =
    parse_netmask_string-mask libc (codes "255.255.255.0") (codes ".255.255.0") 24 (omega arith)
      refl refl

parse_ip_and_netmask_prefix_example :
    parse_ip_and_netmask libc false (codes "192.168.1.1" ++ slash ∷ codes "24") 32
    ≡ (some (192 ∷ 168 ∷ 1 ∷ 1 ∷ []), 24)
unfolding strchr str_eq
parse_ip_and_netmask_prefix_example =
    parse_ip_and_netmask_prefix libc false (codes "192.168.1.1") (codes "24") 32 24 refl refl refl
      (omega arith)
