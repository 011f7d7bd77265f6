-- ===== src/Utils/Netmask.antt =====
-- utils.c and utils.h: fls and the parsing of netmasks. The C library's strtoul and inet_aton, on
-- bytes before the terminating 0, are the parameters of Libc.
use lede_netifd.Prelude.{
  ◌++◌, ℕ, zero, suc, ◌≡◌, ◌≤◌, ◌<◌, refl, arith, Bool, true, false, ◌&&◌, Option, none, some, List,
  [], ◌∷◌, ◌==◌, ltb, if◌then◌else◌, ◌+◌, ◌-◌, ◌*◌, ◌/◌, ◌%◌, ◌^◌, CString, ==_iff,
}

-- One step of `fls`: where the upper bits of `x` are 0, shift it left by `k` and take `k` from `r`.
abbrev fls_step : ℕ → ℕ × ℕ → ℕ × ℕ
fls_step k (x, r) = if x / 2 ^ (32 - k) == 0 then (x * 2 ^ k % 2 ^ 32, r - k) else (x, r)

fls_end : ℕ × ℕ → ℕ
fls_end (x, r) = if x / 2 ^ 31 == 0 then r - 1 else r

-- fls of a number of 32 bits
unfoldable pub fls : ℕ → ℕ
unfolding fls_end
fls x = if x == 0 then 0 else fls_end (fls_step 2 (fls_step 4 (fls_step 8 (fls_step 16 (x, 32)))))

-- strtoul gives its value and whether it stopped at the end of the string; inet_aton the address in
-- the order of the host, where it accepts the string; inet_pton is given the family.
pub record Libc : Type 0 where
  pub strtoul : CString → ℕ × Bool
  pub inet_aton : CString → Option ℕ
  pub inet_pton : Bool → CString → Option (List ℕ)

-- `~0`
abbrev pub error_value : ℕ
error_value = 4294967295

-- strchr, as the bytes from the first that is `c` on.
unfoldable pub strchr : ℕ → CString → Option CString
strchr c [] = none
strchr c (x ∷ xs) = let rest = strchr c xs in if x == c then some (x ∷ xs) else rest

-- The bytes before the first that is `c`.
unfoldable pub before : ℕ → CString → CString
before c [] = []
before c (x ∷ xs) = let rest = before c xs in if x == c then [] else x ∷ rest

-- '.' and '/'
abbrev pub dot : ℕ
dot = 46

abbrev pub slash : ℕ
slash = 47

module _ (libc : Libc) where
  plain_number : ℕ × Bool → ℕ
  plain_number (value, complete) = if complete then value % 2 ^ 32 else error_value

  dotted : Option ℕ → ℕ
  unfolding fls
  dotted none = error_value
  dotted (some addr) = (32 + 2 ^ 32 - fls (2 ^ 32 - 1 - addr)) % 2 ^ 32

  unfoldable pub parse_netmask_string : CString → Bool → ℕ
  unfolding plain_number dotted strchr
  parse_netmask_string str v6 = elim (strchr dot str) [
    | none ↦ plain_number (libc.strtoul str)
    | some rest ↦ if v6 then error_value else dotted (libc.inet_aton str)
  ]

  tail_of : CString → CString
  tail_of [] = []
  tail_of (x ∷ xs) = xs

  -- split_netmask: the string that is left and the netmask, which always succeeds.
  unfoldable pub split_netmask : CString → ℕ → Bool → CString × ℕ
  unfolding parse_netmask_string before tail_of
  split_netmask str netmask v6 = elim (strchr slash str) [
    | none ↦ (str, netmask)
    | some rest ↦ (before slash str, parse_netmask_string (tail_of rest) v6)
  ]

  -- parse_ip_and_netmask: the address, if the string is accepted, and the netmask.
  unfoldable pub parse_ip_and_netmask : Bool → CString → ℕ → Option (List ℕ) × ℕ
  unfolding split_netmask
  parse_ip_and_netmask v6 str netmask =
      let (astr, mask) = split_netmask str netmask v6 in
      (if ltb (if v6 then 128 else 32) mask then none else libc.inet_pton v6 astr, mask)

-- The address whose first `n` bits are set.
abbrev pub mask : ℕ → ℕ
mask n = 2 ^ 32 - 2 ^ (32 - n)

-- The test holds of all numbers below `k`.
all_below : (ℕ → Bool) → ℕ → Bool
all_below p zero = true
all_below p (suc k) = p k && all_below p k

all_below-lt : (p : ℕ → Bool) (k n : ℕ) → all_below p k ≡ true → n < k → p n ≡ true
unfolding all_below
all_below-lt p zero n h l = absurd (omega arith)
all_below-lt p (suc k) n h l = grind (arith, all_below-lt p k n)

fls_test : ℕ → Bool
unfolding fls
fls_test n = fls (2 ^ 32 - 1 - mask n) == 32 - n

fls_tests : all_below fls_test 33 ≡ true
unfolding all_below fls_test
fls_tests = refl

fls-mask : (n : ℕ) → n < 33 → fls (2 ^ 32 - 1 - mask n) ≡ 32 - n
unfolding fls_test
fls-mask n l =
    (==_iff (fls (2 ^ 32 - 1 - mask n)) (32 - n)).0 (all_below-lt fls_test 33 n fls_tests l)

-- A dotted mask of `n` leading ones is parsed as `n`.
pub parse_netmask_string-mask :
    (libc : Libc) (str rest : CString) (n : ℕ)
    → n ≤ 32
    → strchr dot str ≡ some rest
    → libc.inet_aton str ≡ some (mask n)
    → parse_netmask_string libc str false ≡ n
unfolding parse_netmask_string dotted
parse_netmask_string-mask libc str rest n l d a =
    rw (parse_netmask_string, d, a, fls-mask n (omega arith)) (omega arith)

strchr-append :
    (c : ℕ) (xs ys : CString) → strchr c xs ≡ none → strchr c (xs ++ c ∷ ys) ≡ some (c ∷ ys)
unfolding strchr
strchr-append c [] ys h = ground arith
strchr-append c (x ∷ xs) ys h = grind (arith, strchr-append c xs ys)

before-append : (c : ℕ) (xs ys : CString) → strchr c xs ≡ none → before c (xs ++ c ∷ ys) ≡ xs
unfolding strchr before
before-append c [] ys h = ground arith
before-append c (x ∷ xs) ys h = grind (arith, before-append c xs ys)

parse_netmask_string_number :
    (libc : Libc) (v6 : Bool) (len : CString) (n : ℕ)
    → strchr dot len ≡ none
    → libc.strtoul len ≡ (n, true)
    → n < 2 ^ 32
    → parse_netmask_string libc len v6 ≡ n
unfolding parse_netmask_string plain_number
parse_netmask_string_number libc v6 len n d e l = rw (parse_netmask_string, d, e) (omega arith)

split_netmask_prefix :
    (libc : Libc) (v6 : Bool) (addr len : CString) (netmask n : ℕ)
    → strchr slash addr ≡ none
    → strchr dot len ≡ none
    → libc.strtoul len ≡ (n, true)
    → n < 2 ^ 32
    → split_netmask libc (addr ++ slash ∷ len) netmask v6 ≡ (addr, n)
unfolding split_netmask tail_of
split_netmask_prefix libc v6 addr len netmask n h d e l = rw (
  split_netmask,
  strchr-append slash addr len h,
  before-append slash addr len h,
  parse_netmask_string_number libc v6 len n d e l,
)

-- Where strtoul reads what stands behind the first '/' as a number below 2 ^ 32 to its end, and it has no
-- '.', the number is taken as the length of the prefix: what is before the '/' is parsed as the address
-- if the length is at most 128 for IPv6 and 32 for IPv4, and the string is refused otherwise.
pub parse_ip_and_netmask_prefix :
    (libc : Libc) (v6 : Bool) (addr len : CString) (netmask n : ℕ)
    → strchr slash addr ≡ none
    → strchr dot len ≡ none
    → libc.strtoul len ≡ (n, true)
    → n < 2 ^ 32
    → parse_ip_and_netmask libc v6 (addr ++ slash ∷ len) netmask
      ≡ (if ltb (if v6 then 128 else 32) n then none else libc.inet_pton v6 addr, n)
unfolding parse_ip_and_netmask
parse_ip_and_netmask_prefix libc v6 addr len netmask n h d e l =
    rw (split_netmask_prefix libc v6 addr len netmask n h d e l)
