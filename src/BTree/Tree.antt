-- ===== src/BTree/Tree.antt =====
-- What it means that a pointer of benchmarks/btree/btree.c leads to a B+ tree of height `h` with
-- the entries `es`, in the order of the leaves; and the lookup that such a tree stands for.
pub mod Search
pub mod Insertion
pub mod Update
pub mod Owned
pub mod Edit
pub mod Descent
pub mod Growth
pub mod Split
pub mod NewRoot
pub mod Nest
pub mod Addresses
pub mod Linked
pub mod Deletion
pub mod Removal
pub mod Range
use nu_ksm_pact21_artifact.Base.{
  ℕ, zero, suc, ◌≤◌, ◌<◌, ◌≡◌, true, false, List, [], ◌∷◌, ◌++◌, ◌==◌, if◌then◌else◌, length,
}
use nu_ksm_pact21_artifact.BTree.Store.{Ptr, null, Node, Store}
use nu_ksm_pact21_artifact.BTree.Store.Laws.{Holds}
use nu_ksm_pact21_artifact.BTree.Entries.Leaf.{pairs, entries}

-- The pointer of the first entry with this key, NULL if there is none.
unfoldable pub lookup : ℕ → List (ℕ × Ptr) → Ptr
lookup key [] = null
lookup key ((k, p) ∷ es) = if k == key then p else lookup key es

abbrev pub AllBelow : ℕ → List (ℕ × Ptr) → Type 0
AllBelow b [] = Unit
AllBelow b ((k, p) ∷ es) = (k < b) × AllBelow b es

abbrev pub AllFrom : ℕ → List (ℕ × Ptr) → Type 0
AllFrom b [] = Unit
AllFrom b ((k, p) ∷ es) = (b ≤ k) × AllFrom b es

-- The children of an internal node with `m` keys: what lies left of a key is smaller, and what lies
-- right of it is not.
abbrev pub Children :
    (Ptr → List (ℕ × Ptr) → Type 0) → ℕ → List ℕ → List Ptr → List (ℕ × Ptr) → Type 0
Children P zero ks [] es = ⊥
Children P zero ks (p ∷ ps) es = P p es
Children P (suc m) [] ps es = ⊥
Children P (suc m) (k ∷ ks) [] es = ⊥
Children P (suc m) (k ∷ ks) (p ∷ ps) es =
    (left : List (ℕ × Ptr)) × (right : List (ℕ × Ptr)) × (es ≡ left ++ right)
    × P p left
    × AllBelow k left
    × AllFrom k right
    × Children P m ks ps right

pub record Leaf (s : Store) (p : Ptr) (es : List (ℕ × Ptr)) (n : Node) : Type 0 where
  pub at : Holds s p n
  pub is_leaf : n.is_leaf ≡ true
  pub keys : n.num_keys ≤ length n.keys
  pub pointers : n.num_keys ≤ length n.pointers
  pub entries : es ≡ entries n

pub record Inner (P : Ptr → List (ℕ × Ptr) → Type 0) (s : Store) (p : Ptr) (es : List (ℕ × Ptr))
    (n : Node) : Type 0 where
  pub at : Holds s p n
  pub not_leaf : n.is_leaf ≡ false
  pub keys : n.num_keys ≤ length n.keys
  pub children : Children P n.num_keys n.keys n.pointers es

abbrev pub Tree : Store → ℕ → Ptr → List (ℕ × Ptr) → Type 0
Tree s zero p es = (n : Node) × Leaf s p es n
Tree s (suc h) p es = (n : Node) × Inner (Tree s h) s p es n
