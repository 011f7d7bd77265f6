-- ===== src/Prelude/Strings.antt =====
-- C strings: the bytes before the terminating 0.
use Prim.Native.Nat.{ℕ, compare, Ordering}
use Prim.Native.Char.{code}
use Prim.Native.String.{String}
use mathlib.Core.Bool.{Bool, true, false}
use mathlib.Core.List.{List, [], ◌∷◌}

abbrev pub CString : Type 0
CString = List ℕ

-- The bytes of an ASCII literal.
abbrev pub codes : String → CString
codes String.[] = []
codes (String.◌∷◌ c s) = code c ∷ codes s

-- strcmp: the sign of its result.
unfoldable pub strcmp : CString → CString → Ordering
strcmp [] [] = Ordering.eq
strcmp [] (y ∷ ys) = Ordering.lt
strcmp (x ∷ xs) [] = Ordering.gt
strcmp (x ∷ xs) (y ∷ ys) = elim (compare x y) [
  | Ordering.lt ↦ Ordering.lt
  | Ordering.gt ↦ Ordering.gt
  | Ordering.eq ↦ strcmp xs ys
]

-- `!strcmp(a, b)`
unfoldable pub str_eq : CString → CString → Bool
unfolding strcmp
str_eq a b = elim (strcmp a b) [ Ordering.eq ↦ true | _ ↦ false ]
