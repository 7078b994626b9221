-- ===== src/BTree/Tree/Linked.antt =====
-- A whole well-formed tree: every node has arrays of the order's lengths and at most one key less than
-- the order, points to its parent, and no leaf is empty.
pub mod Arrays
pub mod Nodes
pub mod Adopt
pub mod SplitRun
pub mod Ready
pub mod Divide
pub mod Effects
pub mod SplitNode
pub mod SplitInner
pub mod Leaves
pub mod Level
pub mod Climb
pub mod AtLeaf
pub mod AtNode
pub mod Rising
pub mod Induction
pub mod Root
pub mod Whole
use nu_ksm_pact21_artifact.Base.{
  ℕ, zero, suc, ◌+◌, ◌-◌, ◌≤◌, ◌<◌, ◌≡◌, ◌≢◌, refl, sym, ap, ◌∙◌, inl, inr, true, false, List, [],
  ◌∷◌, ◌++◌, arith, leb, ◌==◌, length, get_or, drop,
}
use nu_ksm_pact21_artifact.BTree.Store.{Ptr, Node, Store}
use nu_ksm_pact21_artifact.BTree.Store.Laws.{Holds}
use nu_ksm_pact21_artifact.BTree.Entries.Leaf.{pairs, entries}
use nu_ksm_pact21_artifact.BTree.Tree.{AllBelow, AllFrom, Leaf}
use nu_ksm_pact21_artifact.BTree.Tree.Edit.{Entries}
use nu_ksm_pact21_artifact.BTree.Tree.Deletion.{length-pairs}
use nu_ksm_pact21_artifact.BTree.Tree.Split.{HasArrays}
use nu_ksm_pact21_artifact.BTree.Tree.Owned.{
  In, NotIn, Distinct, Owns, InnerNode, Owned, Leaf-same, Holds-same,
}
use nu_ksm_pact21_artifact.BTree.Tree.Addresses.{NotIn-not}
use nu_ksm_pact21_artifact.BTree.Tree.Nest.{Part, Nest, Filled, Nest-Filled}
use nu_ksm_pact21_artifact.BTree.Tree.Nest.Focus.{Family, Nest-same}

pub record HasShape (o : ℕ) (parent : Ptr) (n : Node) : Type 0 where
  pub arrays : HasArrays o n
  pub parent_is : n.parent ≡ parent
  pub count : n.num_keys ≤ o - 1

abbrev pub first_pointer : Node → Ptr
first_pointer n = get_or n.pointers 0 0

abbrev pub rest_of : Node → Entries
rest_of n = pairs n.num_keys n.keys (drop 1 n.pointers)

-- A tree of order `o` and height `h` whose root has the parent `parent`.
abbrev pub Linked : ℕ → ℕ → Ptr → Store → Part
Linked o zero parent s p es ns =
    (n : Node) × Leaf s p es n × HasShape o parent n × (0 < n.num_keys) × (ns ≡ p ∷ [])
Linked o (suc h) parent s p es ns =
    (n : Node) × (below : List Ptr) × Holds s p n
    × (n.is_leaf ≡ false)
    × HasShape o parent n
    × (ns ≡ p ∷ below)
    × Nest (Linked o h p s) (first_pointer n) (rest_of n) es below

Linked-rooted :
    (o h : ℕ) (parent : Ptr) (s : Store) (p : Ptr) (es : Entries) (ns : List Ptr)
    → Linked o h parent s p es ns
    → In p ns
Linked-rooted o zero parent s p es ns (n, l, shape, some_key, e) = rw e (inl refl)
Linked-rooted o (suc h) parent s p es ns (n, below, held, inner, shape, e, nest) = rw e (inl refl)

Linked-filled :
    (o h : ℕ) (parent : Ptr) (s : Store) (p : Ptr) (es : Entries) (ns : List Ptr)
    → Linked o h parent s p es ns
    → 0 < length es
Linked-filled o zero parent s p es ns (n, l, shape, some_key, e) =
    let same = ap (λ (x : Entries). length x) l.entries in
    omega (arith, length-pairs n.num_keys n.keys n.pointers l.keys l.pointers)
Linked-filled o (suc h) parent s p es ns (n, below, held, inner, shape, e, nest) =
    Nest-Filled (Linked o h p s) (first_pointer n) (rest_of n) es below
      (λ q fs ms t. Linked-filled o h p s q fs ms t) nest

Linked-same :
    (o h : ℕ) (parent : Ptr) (s s' : Store) (p : Ptr) (es : Entries) (ns : List Ptr)
    → ((x : Ptr) → In x ns → s'.nodes x ≡ s.nodes x)
    → Linked o h parent s p es ns
    → Linked o h parent s' p es ns
Linked-same o zero parent s s' p es ns same (n, l, shape, some_key, e) =
    (n, Leaf-same (same p (rw e (inl refl))) l, shape, some_key, e)
Linked-same o (suc h) parent s s' p es ns same (n, below, held, inner, shape, e, nest) = (
  n,
  below,
  Holds-same (same p (rw e (inl refl))) held,
  inner,
  shape,
  e,
  Nest-same (Linked o h p) s s' (first_pointer n) (rest_of n) es below
      (record {
        same = λ t t' q fs ms. Linked-same o h p t t' q fs ms;
        rooted = λ t q fs ms. Linked-rooted o h p t q fs ms;
        filled = λ t q fs ms. Linked-filled o h p t q fs ms;
      })
      (λ x i. same x (rw e (inr i))) nest,
)

pub Linked-Family : (o h : ℕ) (parent : Ptr) → Family (Linked o h parent)
Linked-Family o h parent = record {
  same = Linked-same o h parent;
  rooted = Linked-rooted o h parent;
  filled = Linked-filled o h parent;
}

-- The root of a tree can get another parent.
pub Linked-reparent :
    (o h : ℕ) (parent q : Ptr) (s : Store) (p : Ptr) (es : Entries) (ns : List Ptr)
    → Distinct ns
    → Linked o h parent s p es ns
    → (n : Node) × Holds s p n
      × (n.parent ≡ parent)
      × ((s' : Store)
          → Holds s' p (record n { parent = q })
          → ((x : Ptr) → In x ns → x ≢ p → s'.nodes x ≡ s.nodes x)
          → Linked o h q s' p es ns)
Linked-reparent o zero parent q s p es ns d (n, l, shape, some_key, e) = (
  n,
  l.at,
  shape.parent_is,
  λ s' held same. (
    record n { parent = q },
    record {
      at = held;
      is_leaf = l.is_leaf;
      keys = l.keys;
      pointers = l.pointers;
      entries = l.entries;
    },
    record {
      arrays = record { keys = shape.arrays.keys; pointers = shape.arrays.pointers };
      parent_is = refl;
      count = shape.count;
    },
    some_key,
    e,
  ),
)
Linked-reparent o (suc h) parent q s p es ns d (n, below, held, inner, shape, e, nest) =
    let (fresh, rest) = rw e at d in
    (
      n,
      held,
      shape.parent_is,
      λ s' held' same. (
        record n { parent = q },
        below,
        held',
        inner,
        record {
          arrays = record { keys = shape.arrays.keys; pointers = shape.arrays.pointers };
          parent_is = refl;
          count = shape.count;
        },
        e,
        Nest-same (Linked o h p) s s' (first_pointer n) (rest_of n) es below (Linked-Family o h p)
            (λ x i. same x (rw e (inr i)) (λ eq. NotIn-not p below fresh (rw eq at i))) nest,
      ),
    )

Nest-Owns :
    (P Q : Part) (m : ℕ) (ks : List ℕ) (ps : List Ptr) (es : Entries) (ns : List Ptr)
    → ((p : Ptr) (es : Entries) (ns : List Ptr) → P p es ns → Q p es ns)
    → m ≤ length ks
    → m < length ps
    → Nest P (get_or ps 0 0) (pairs m ks (drop 1 ps)) es ns
    → Owns Q m ks ps es ns
unfolding pairs
Nest-Owns P Q zero ks [] es ns forget hk hp t = absurd (omega arith)
Nest-Owns P Q zero ks (p ∷ ps) es ns forget hk hp t = forget p es ns t
Nest-Owns P Q (suc m) [] ps es ns forget hk hp t = absurd (omega arith)
Nest-Owns P Q (suc m) (k ∷ ks) [] es ns forget hk hp t = absurd (omega arith)
Nest-Owns P Q (suc m) (k ∷ ks) (p ∷ []) es ns forget hk hp t = absurd (omega arith)
Nest-Owns P Q (suc m) (k ∷ ks) (p ∷ q ∷ ps) es ns forget hk hp
      (left, right, ln, rn, ee, en, t, below, from, rest) =
    (
      left,
      right,
      ln,
      rn,
      ee,
      en,
      forget p left ln t,
      below,
      from,
      Nest-Owns P Q m ks (q ∷ ps) right rn forget (omega arith) (omega arith) rest,
    )

-- What the lookup needs of such a tree.
pub Linked-Owned :
    (o h : ℕ) (parent : Ptr) (s : Store) (p : Ptr) (es : Entries) (ns : List Ptr)
    → 0 < o
    → Linked o h parent s p es ns
    → Owned s h p es ns
Linked-Owned o zero parent s p es ns wide (n, l, shape, some_key, e) = (n, l, e)
Linked-Owned o (suc h) parent s p es ns wide (n, below, held, inner, shape, e, nest) =
    let count = shape.count in
    let keys = shape.arrays.keys in
    let pointers = shape.arrays.pointers in
    (
      n,
      below,
      record { at = held; not_leaf = inner; keys = omega arith },
      e,
      Nest-Owns (Linked o h p s) (Owned s h) n.num_keys n.keys n.pointers es below
          (λ q fs ms t. Linked-Owned o h p s q fs ms wide t) (omega arith) (omega arith) nest,
    )
