-- ===== src/Ip/Match.antt =====
-- interface-ip.c: clear_if_addr and match_if_addr, the comparison of addresses under a netmask.
use lede_netifd.Prelude.{
  ℕ, zero, suc, ◌+◌, ◌-◌, ◌*◌, ◌/◌, ◌^◌, Bool, true, false, ◌&&◌, List, [], ◌∷◌, ◌==◌,
}

-- union if_addr, as its bytes.
abbrev pub IfAddr : Type 0
IfAddr = List ℕ

-- memset(p, 0, …)
unfoldable pub zeros : List ℕ → List ℕ
zeros [] = []
zeros (x ∷ xs) = 0 ∷ zeros xs

-- `x &= ~((1 << k) - 1)` for a byte.
abbrev pub clear_low : ℕ → ℕ → ℕ
clear_low k x = x / 2 ^ k * 2 ^ k

-- The first `m` bytes without the low `k` bits of the last of them, and zeros behind them.
unfoldable pub clear_bytes : ℕ → ℕ → List ℕ → List ℕ
unfolding zeros
clear_bytes zero k xs = zeros xs
clear_bytes (suc m) k [] = []
clear_bytes (suc zero) k (x ∷ xs) = clear_low k x ∷ zeros xs
clear_bytes (suc (suc m)) k (x ∷ xs) = x ∷ clear_bytes (suc m) k xs

-- clear_if_addr
unfoldable pub clear_if_addr : IfAddr → ℕ → IfAddr
clear_if_addr a mask = let m_bytes = (mask + 7) / 8 in clear_bytes m_bytes (m_bytes * 8 - mask) a

-- memcmp(a, b, n) == 0
unfoldable pub same_bytes : List ℕ → List ℕ → Bool
same_bytes [] [] = true
same_bytes (x ∷ xs) (y ∷ ys) = x == y && same_bytes xs ys
same_bytes _ _ = false

-- match_if_addr
unfoldable pub match_if_addr : IfAddr → IfAddr → ℕ → Bool
match_if_addr a b mask = same_bytes (clear_if_addr a mask) (clear_if_addr b mask)
