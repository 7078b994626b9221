-- ===== src/BTree/Tree/Linked/Leaves.antt =====
-- The insertion into a leaf of a whole well-formed tree: with room, and with a split.
use mathlib.Core.Path.{subst}
use nu_ksm_pact21_artifact.Base.{
  ℕ, ◌-◌, ◌*◌, ◌^◌, ◌≤◌, ◌<◌, ◌≡◌, ◌≢◌, refl, sym, ◌∙◌, ◌⊎◌, inl, inr, List, [], ◌∷◌, arith, ltb,
  length,
}
use nu_ksm_pact21_artifact.BTree.Store.{Ptr, Node, Store, done, put}
use nu_ksm_pact21_artifact.BTree.Store.Laws.{Holds}
use nu_ksm_pact21_artifact.BTree.Insert.{split_leaf}
use nu_ksm_pact21_artifact.BTree.Entries.{insert_into_leaf}
use nu_ksm_pact21_artifact.BTree.Entries.Scan.{scan, scan-le}
use nu_ksm_pact21_artifact.BTree.Entries.Shift.{length-gap}
use nu_ksm_pact21_artifact.BTree.Entries.Leaf.{
  insert_entry, HasRoom, leaf_with, insert_into_leaf-leaf_with,
}
use nu_ksm_pact21_artifact.BTree.Tree.{Leaf}
use nu_ksm_pact21_artifact.BTree.Tree.Edit.{Entries}
use nu_ksm_pact21_artifact.BTree.Tree.Insertion.{IsNew, IsSorted, leaf_with-Leaf}
use nu_ksm_pact21_artifact.BTree.Tree.Split.{cut-bounds}
use nu_ksm_pact21_artifact.BTree.Tree.Split.Leaves.{IsSplit, split_leaf-IsSplit}
use nu_ksm_pact21_artifact.BTree.Tree.Owned.{In, NotIn}
use nu_ksm_pact21_artifact.BTree.Tree.Addresses.{Disjoint, NotIn-not}
use nu_ksm_pact21_artifact.BTree.Tree.Linked.{HasShape}
use nu_ksm_pact21_artifact.BTree.Tree.Linked.Adopt.{put_ne}
use nu_ksm_pact21_artifact.BTree.Tree.Linked.Ready.{Free-same, Ready, four_addresses}
use nu_ksm_pact21_artifact.BTree.Tree.Linked.Effects.{Step, Divided, Replaced, Ready-taken}

split_at :
    (key : ℕ) (r leaf x : Ptr) (s : Store) (es : Entries) (n : Node) (rest : List Ptr)
    → Leaf s leaf es n
    → HasShape s.order n.parent n
    → n.num_keys ≡ s.order - 1
    → IsNew key es
    → IsSorted es
    → 2 < s.order
    → s.order < 2 ^ 64
    → Ready s (x ∷ rest)
    → leaf ≢ x
    → (In leaf rest → ⊥)
    → NotIn x rest
    → (k : ℕ) × (s' : Store) × (split_leaf leaf key r s ≡ done (k, x) s')
      × Step s s' (leaf ∷ []) (x ∷ []) rest
      × Divided s.order 0 n.parent s' leaf x (leaf ∷ []) (x ∷ []) k (insert_entry key r es)
split_at key r leaf x s es n rest l shape full new sorted wide word ready ne leaf_rest x_rest =
    let o = s.order in
    let (some_left, some_right) = cut-bounds (o - 1) (omega arith) in
    let (e, b, held, chain) = ready.chain in
    let (a1, a2, a3, a4, more, supply, memory) =
      four_addresses s.supply (length rest) ready.memory in
    let (k, s', run, split) =
      subst
        (λ y.
          (k : ℕ) × (s' : Store) × (split_leaf leaf key r s ≡ done (k, y) s')
          × IsSplit s s' leaf y n k (insert_entry key r es) b.next more)
        e
        (split_leaf-IsSplit key r leaf s es n b more a1 a2 a3 a4 l shape.arrays full new sorted wide
          word (subst (λ y. Holds s y b) (sym e) held) (λ eq. ne (eq ∙ e)) supply) in
    let count_left = split.count_left in
    let count_right = split.count_right in
    let outside : (y : Ptr)
        → (In y (leaf ∷ []) → ⊥)
        → (In y (x ∷ []) → ⊥)
        → s'.nodes y ≡ s.nodes y =
      λ y a b. split.others y (λ eq. a (inl eq)) (λ eq. b (inl eq)) in
    (
      k,
      s',
      run,
      record {
        outside = outside;
        order = split.order;
        records = split.records;
        free_recs = split.free_recs;
        ready =
            Ready-taken s s' b rest chain split.free
              (λ y i.
                split.others y (λ eq. leaf_rest (rw eq at i))
                  (λ eq. NotIn-not x rest x_rest (rw eq at i)))
              (subst (λ t. 4 * length rest ≤ length t) (sym split.memory) memory);
      },
      record {
        left = split.left;
        right = split.right;
        ln = leaf ∷ [];
        rn = x ∷ [];
        at_left = (
          split.l,
          split.at_left,
          record { arrays = split.arrays_left; parent_is = split.parent_left; count = omega arith },
          omega arith,
          refl,
        );
        at_right = (
          split.m,
          split.at_right,
          record { arrays = split.arrays_right; parent_is = split.parent; count = omega arith },
          omega arith,
          refl,
        );
        all = sym split.all;
        below = split.below;
        from = split.from;
        distinct = ((ne, tt), (tt, tt));
        grows = grows leaf x;
      },
    )
  where
    grows : (a b y : Ptr) → In y (a ∷ b ∷ []) → In y (a ∷ []) ⊎ In y (b ∷ [])
    grows a b y (inl e) = inl (inl e)
    grows a b y (inr i) = inr i

abbrev SplitsAt : ℕ → Ptr → ℕ → Ptr → Ptr → Ptr → Store → Entries → Node → List Ptr → Type 0
SplitsAt o q key r leaf x s es n rest =
    HasShape o q n
    → n.num_keys ≡ o - 1
    → 2 < o
    → o < 2 ^ 64
    → (k : ℕ) × (s' : Store) × (split_leaf leaf key r s ≡ done (k, x) s')
      × Step s s' (leaf ∷ []) (x ∷ []) rest
      × Divided o 0 q s' leaf x (leaf ∷ []) (x ∷ []) k (insert_entry key r es)

-- A full leaf, and a free node: the split ends with two leaves under the same parent.
pub split_leaf-Divided :
    (o : ℕ) (q : Ptr) (key : ℕ) (r leaf x : Ptr) (s : Store) (es : Entries) (n : Node)
    (rest : List Ptr)
    → s.order ≡ o
    → Leaf s leaf es n
    → HasShape o q n
    → n.num_keys ≡ o - 1
    → IsNew key es
    → IsSorted es
    → 2 < o
    → o < 2 ^ 64
    → Ready s (x ∷ rest)
    → Disjoint (leaf ∷ []) (x ∷ rest)
    → NotIn x rest
    → (k : ℕ) × (s' : Store) × (split_leaf leaf key r s ≡ done (k, x) s')
      × Step s s' (leaf ∷ []) (x ∷ []) rest
      × Divided o 0 q s' leaf x (leaf ∷ []) (x ∷ []) k (insert_entry key r es)
split_leaf-Divided o q key r leaf x s es n rest order l shape full new sorted wide word ready apart
      x_rest =
    let own : SplitsAt s.order n.parent key r leaf x s es n rest = λ sh f w b.
      split_at key r leaf x s es n rest l sh f new sorted w b ready
        (λ e. apart leaf (inl refl) (inl e)) (λ i. apart leaf (inl refl) (inr i)) x_rest in
    let of_order : SplitsAt o n.parent key r leaf x s es n rest =
      subst (λ o'. SplitsAt o' n.parent key r leaf x s es n rest) order own in
    let of_parent : SplitsAt o q key r leaf x s es n rest =
      subst (λ q'. SplitsAt o q' key r leaf x s es n rest) shape.parent_is of_order in
    of_parent shape full wide word

-- A leaf with room.
pub insert_into_leaf-Replaced :
    (o : ℕ) (q : Ptr) (key : ℕ) (r leaf : Ptr) (s : Store) (es : Entries) (n : Node)
    (free : List Ptr)
    → Leaf s leaf es n
    → HasShape o q n
    → n.num_keys < o - 1
    → o < 2 ^ 64
    → Ready s free
    → (In leaf free → ⊥)
    → (s' : Store) × (insert_into_leaf leaf key r s ≡ done leaf s')
      × Step s s' (leaf ∷ []) [] free
      × Replaced o 0 q s' leaf (leaf ∷ []) [] (insert_entry key r es)
unfolding leaf_with
insert_into_leaf-Replaced o q key r leaf s es n free l shape room word ready out =
    let keys = shape.arrays.keys in
    let pointers = shape.arrays.pointers in
    let space : HasRoom n = record {
      keys = omega arith;
      pointers = omega arith;
      count = omega arith;
    } in
    let m = leaf_with key r n in
    let i = scan (λ k. ltb k key) n.num_keys n.keys in
    let inside = scan-le (λ k. ltb k key) n.num_keys n.keys in
    let lk = length-gap i (n.num_keys - i) key n.keys (omega arith) in
    let lp = length-gap i (n.num_keys - i) r n.pointers (omega arith) in
    (
      put leaf m s,
      insert_into_leaf-leaf_with key r l.at space,
      record {
        outside = λ y a b. put_ne s leaf y m (λ e. a (inl e));
        order = refl;
        records = refl;
        free_recs = refl;
        ready = record {
          chain =
              Free-same s (put leaf m s) s.free_nodes free
                (λ y j. put_ne s leaf y m (λ e. out (rw e at j))) ready.chain;
          memory = ready.memory;
        };
      },
      record {
        addresses = leaf ∷ [];
        at = (
          m,
          rw l.entries (leaf_with-Leaf key r l.at l.is_leaf space),
          record {
            arrays = record { keys = lk ∙ keys; pointers = lp ∙ pointers };
            parent_is = shape.parent_is;
            count = omega arith;
          },
          omega arith,
          refl,
        );
        distinct = (tt, tt);
        grows = λ y j. inl j;
      },
    )
