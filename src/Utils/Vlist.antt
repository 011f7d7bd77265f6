-- ===== src/Utils/Vlist.antt =====
-- utils.c and utils.h: vlist_simple, a list whose nodes carry the version of their tree in which
-- they were added. A version is -1 (none) or a number; nodes carry a value for their container.
use lede_netifd.Prelude.{
  ℕ, suc, ◌≡◌, refl, sym, arith, Bool, true, false, not, ◌&&◌, ◌||◌, Option, none, some, List, [],
  ◌∷◌, ◌++◌, map, ◌==◌, leb, ◌∙◌, if◌then◌else◌,
}
use mathlib.Core.List.{append_assoc, append-nil}

pub record Node {ℓ} (A : Type ℓ) : Type ℓ where
  pub version : Option ℕ
  pub value : A

pub record Tree {ℓ} (A : Type ℓ) : Type ℓ where
  pub nodes : List (Node A)
  pub version : Option ℕ

abbrev pub is_keep : Option ℕ → Bool
is_keep none = true
is_keep (some _) = false

abbrev same_version : Option ℕ → Option ℕ → Bool
same_version none none = true
same_version (some a) (some b) = a == b
same_version _ _ = false

-- `version++`
abbrev pub next : Option ℕ → Option ℕ
next none = some 0
next (some n) = some (suc n)

module _ {ℓ} {A : Type ℓ} where
  -- __vlist_simple_init
  unfoldable pub init : Tree A
  init = record { nodes = []; version = some 1 }

  -- vlist_simple_update
  unfoldable pub update_version : Tree A → Tree A
  update_version t = record t { version = next t.version }

  -- vlist_simple_add
  unfoldable pub add : Tree A → Node A → Tree A
  add t n = record t { nodes = t.nodes ++ record n { version = t.version } ∷ [] }

  -- The test of the loop of vlist_simple_flush.
  abbrev pub stays : Option ℕ → Node A → Bool
  stays v n = (same_version n.version v || is_keep n.version) && not (is_keep v)

  -- The loop of vlist_simple_flush, with vlist_simple_delete.
  unfoldable pub flush_nodes : Option ℕ → List (Node A) → List (Node A)
  flush_nodes v [] = []
  flush_nodes v (n ∷ ns) = let rest = flush_nodes v ns in if stays v n then n ∷ rest else rest

  unfoldable pub flush : Tree A → Tree A
  unfolding flush_nodes
  flush t = record t { nodes = flush_nodes t.version t.nodes }

  -- The loop of vlist_simple_replace.
  unfoldable pub add_all : Tree A → List (Node A) → Tree A
  unfolding add
  add_all t [] = t
  add_all t (n ∷ ns) = add_all (add t n) ns

  -- vlist_simple_replace: the new `dest` and the new `old`.
  unfoldable pub replace : Tree A → Tree A → Tree A × Tree A
  unfolding add_all flush update_version
  replace dest old = (flush (add_all (update_version dest) old.nodes), record old { nodes = [] })

  -- vlist_simple_flush_all
  unfoldable pub flush_all : Tree A → Tree A
  unfolding flush
  flush_all t = flush (record t { version = none })

abbrev is_old : Option ℕ → Option ℕ → Bool
is_old v none = true
is_old none (some n) = false
is_old (some m) (some n) = leb n m

module _ {ℓ} {A : Type ℓ} where
  -- Every node's version is -1 or at most that of the tree.
  unfoldable pub all_old : Option ℕ → List (Node A) → Bool
  all_old v [] = true
  all_old v (n ∷ ns) = is_old v n.version && all_old v ns

  -- The nodes of version -1.
  unfoldable pub kept : List (Node A) → List (Node A)
  kept [] = []
  kept (n ∷ ns) = let rest = kept ns in if is_keep n.version then n ∷ rest else rest

  abbrev pub restamp : Option ℕ → Node A → Node A
  restamp v n = record n { version = v }

module _ {ℓ} {A : Type ℓ} where
  add_all-nodes :
      (t : Tree A) (ns : List (Node A))
      → (add_all t ns).nodes ≡ t.nodes ++ map (restamp t.version) ns
  unfolding add_all add
  add_all-nodes t [] = sym (append-nil t.nodes)
  add_all-nodes t (n ∷ ns) =
      add_all-nodes (add t n) ns
      ∙ append_assoc t.nodes (restamp t.version n ∷ []) (map (restamp t.version) ns)

  add_all-version : (t : Tree A) (ns : List (Node A)) → (add_all t ns).version ≡ t.version
  unfolding add_all add
  add_all-version t [] = refl
  add_all-version t (n ∷ ns) = add_all-version (add t n) ns

  flush-append :
      (v : Option ℕ) (xs ys : List (Node A))
      → flush_nodes v (xs ++ ys) ≡ flush_nodes v xs ++ flush_nodes v ys
  unfolding flush_nodes
  flush-append v [] ys = refl
  flush-append v (x ∷ xs) ys = ground (arith, flush-append v xs ys)

  flush_old :
      (v : Option ℕ) (xs : List (Node A)) → all_old v xs ≡ true → flush_nodes (next v) xs ≡ kept xs
  unfolding flush_nodes kept all_old
  flush_old v [] h = refl
  flush_old v (x ∷ xs) h = ground (arith, flush_old v xs)

  flush_new :
      (v : Option ℕ) (xs : List (Node A))
      → flush_nodes (next v) (map (restamp (next v)) xs) ≡ map (restamp (next v)) xs
  unfolding flush_nodes
  flush_new v [] = refl
  flush_new v (x ∷ xs) = ground (arith, flush_new v xs)

  -- vlist_simple_replace leaves in `dest` its nodes of version -1 and, behind them, all nodes of
  -- `old` with the new version, where no node of `dest` has a version that the tree has yet to
  -- reach; `old` is left empty.
  pub replace_lem :
      (dest old : Tree A)
      → all_old dest.version dest.nodes ≡ true
      → ((replace dest old).0.nodes
          ≡ kept dest.nodes ++ map (restamp (next dest.version)) old.nodes)
        × ((replace dest old).1.nodes ≡ [])
  unfolding replace flush update_version
  replace_lem dest old h = (
    rw (
      add_all-version (update_version dest) old.nodes,
      add_all-nodes (update_version dest) old.nodes,
      flush-append (next dest.version) dest.nodes (map (restamp (next dest.version)) old.nodes),
      flush_old dest.version dest.nodes h,
      flush_new dest.version old.nodes,
    ),
    refl,
  )

-- The operations on a tree.
pub data Op {ℓ} (A : Type ℓ) : Type ℓ where
  advance drop_old drop_all : Op A
  insert : Node A → Op A
  take_from : Tree A → Op A

module _ {ℓ} {A : Type ℓ} where
  unfoldable pub run_op : Op A → Tree A → Tree A
  unfolding update_version flush flush_all add replace
  run_op advance t = update_version t
  run_op drop_old t = flush t
  run_op drop_all t = flush_all t
  run_op (insert n) t = add t n
  run_op (take_from old) t = (replace t old).0
