-- ===== src/Interface/Errors.antt =====
-- interface.c: the errors that an interface reports, and the values that handlers attach to it.
use lede_netifd.Prelude.{
  ℕ, ◌+◌, ◌/◌, ◌%◌, ◌≡◌, ◌≤◌, refl, arith, Bool, true, false, not, ◌&&◌, Option, none, some, List,
  [], ◌∷◌, ◌++◌, String, ◌==◌, if◌then◌else◌, length, Bool-cases, inl, inr,
}
use text.Mathlib.Text.{◌==◌ as text_eq}
use text.Mathlib.TextEquality.{eq_iff}
use lede_netifd.Interface.State.{IfaceError, Flags, Iface}

-- interface_error_flush
unfoldable pub error_flush : Iface → Iface
error_flush x = record x { errors = [] }

module _ (flags : ℕ → Flags) where
  -- The running handler has the capability of a last error, and is the configured one if `same`.
  keeps_last : Bool → Option ℕ → ℕ → Bool
  keeps_last same none handler = false
  keeps_last same (some p) handler =
      (flags p).last_error && (if same then p == handler else not (p == handler))

  -- interface_clear_errors
  unfoldable pub clear_errors : Iface → Iface
  unfolding keeps_last error_flush
  clear_errors x = if keeps_last true x.proto x.proto_handler then x else error_flush x

  -- interface_add_error
  unfoldable pub add_error : IfaceError → Iface → Iface
  unfolding keeps_last error_flush
  add_error e x =
      if keeps_last false x.proto x.proto_handler
      then x
      else let y = if (flags x.proto_handler).last_error then error_flush x else x in
        record y { errors = y.errors ++ e ∷ [] }

  -- A configured handler that keeps its last error only never has two, if it had none or one.
  pub add_error-le :
      (e : IfaceError) (x : Iface)
      → (flags x.proto_handler).last_error ≡ true
      → length x.errors ≤ 1
      → length (add_error e x).errors ≤ 1
  unfolding add_error
  add_error-le e x h l = ground arith

-- avl_find_element on the values, and avl_delete with avl_insert.
pub find_value : String → List (String × String) → Option String
find_value k [] = none
find_value k ((j, v) ∷ m) = if text_eq j k then some v else find_value k m

pub delete_value : String → List (String × String) → List (String × String)
delete_value k [] = []
delete_value k ((j, v) ∷ m) = if text_eq j k then m else (j, v) ∷ delete_value k m

-- `updated |= IUF_DATA`
abbrev pub with_data : ℕ → ℕ
with_data n = if n / 8 % 2 == 1 then n else n + 8

abbrev same_value : Option String → String → Bool
same_value none v = false
same_value (some w) v = text_eq w v

-- interface_add_data, for a well-formed attribute; the new value stands first, as the order in the
-- tree is that of the names.
unfoldable pub add_data : String → String → Iface → Iface
unfolding find_value delete_value
add_data k v x =
    if same_value (find_value k x.values) v
    then x
    else record x { values = (k, v) ∷ delete_value k x.values; updated = with_data x.updated }

find-delete_value :
    (k j : String) (m : List (String × String))
    → text_eq k j ≡ false
    → find_value j (delete_value k m) ≡ find_value j m
unfolding find_value delete_value
find-delete_value k j [] h = refl
find-delete_value k j ((i, w) ∷ m) h =
    ground (arith, eq_iff i k, eq_iff i j, eq_iff k j, find-delete_value k j m)

same_value-eq : (o : Option String) (v : String) → same_value o v ≡ true → o ≡ some v
same_value-eq none v h = cc
same_value-eq (some w) v h = ground (arith, eq_iff w v)

-- After a value is added its name has it, and every other name the value that it had.
pub find_value-add_data :
    (k v j : String) (x : Iface)
    → find_value j (add_data k v x).values ≡ (if text_eq k j then some v else find_value j x.values)
unfolding find_value add_data
find_value-add_data k v j x = elim (Bool-cases (same_value (find_value k x.values) v)) [
  | inl old ↦ elim (Bool-cases (text_eq k j)) [
    | inl e ↦
        let same : k ≡ j = (eq_iff k j).0 e in
        rw (add_data, old, e) (rw (← same) (same_value-eq (find_value k x.values) v old))
    | inr e ↦ rw (add_data, old, e)
  ]
  | inr new ↦ elim (Bool-cases (text_eq k j)) [
    | inl e ↦ rw (add_data, new, find_value, e)
    | inr e ↦ rw (add_data, new, find_value, e) (find-delete_value k j x.values e)
  ]
]
