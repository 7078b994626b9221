-- ===== src/BTree/Tree/Linked/Level.antt =====
-- One level of an insertion: the descent from a node to the child for the key, and the climb from the
-- child back to the node.
use nu_ksm_pact21_artifact.Base.{
  ℕ, suc, ◌+◌, ◌-◌, ◌^◌, ◌≤◌, ◌<◌, ◌≡◌, refl, sym, ◌∙◌, false, Bool, if◌then◌else◌, List, ◌∷◌,
  arith, lt→ltb, ltb, leb, not, ◌==◌, length, get_or, drop,
}
use nu_ksm_pact21_artifact.BTree.Store.{Ptr, null, Prog, Outcome, Node, Store, done, put}
use nu_ksm_pact21_artifact.BTree.Store.Laws.{Holds, load_lem, get_pointer_lem, not_null}
use nu_ksm_pact21_artifact.BTree.Find.{find_leaf_from}
use nu_ksm_pact21_artifact.BTree.Insert.{insert_into_parent, split_node}
use nu_ksm_pact21_artifact.BTree.Entries.Children.{
  get_left_index_lem, node_with, insert_into_node-node_with,
}
use nu_ksm_pact21_artifact.BTree.Entries.Scan.{scan, scan_keys_lem}
use nu_ksm_pact21_artifact.BTree.Tree.Edit.{Entries}
use nu_ksm_pact21_artifact.BTree.Tree.Deletion.{length-pairs}
use nu_ksm_pact21_artifact.BTree.Tree.Split.Lists.{length-drop}
use nu_ksm_pact21_artifact.BTree.Tree.Owned.{Distinct}
use nu_ksm_pact21_artifact.BTree.Tree.Nest.{Nest}
use nu_ksm_pact21_artifact.BTree.Tree.Nest.Focus.{passed, child, pointers_of, child-place}
use nu_ksm_pact21_artifact.BTree.Tree.Linked.{
  HasShape, first_pointer, rest_of, Linked, Linked-Family,
}
use nu_ksm_pact21_artifact.BTree.Tree.Linked.Arrays.{scan-passed, pointers-pairs, scan_pointer}

-- Where the child for the key stands in the node's arrays.
pub record Selects (key : ℕ) (n : Node) : Type 0 where
  pub inside : passed key (rest_of n) ≤ n.num_keys
  pub at : get_or n.pointers (passed key (rest_of n)) 0 ≡ child key (first_pointer n) (rest_of n)
  pub keys : scan (λ k. leb k key) n.num_keys n.keys ≡ passed key (rest_of n)
  pub pointers :
      scan (λ q. not (q == child key (first_pointer n) (rest_of n))) (n.num_keys + 1) n.pointers
      ≡ passed key (rest_of n)

pub selects :
    (o h key : ℕ) (q : Ptr) (s : Store) (p : Ptr) (n : Node) (es : Entries) (below : List Ptr)
    → 0 < o
    → HasShape o q n
    → Distinct below
    → Nest (Linked o h p s) (first_pointer n) (rest_of n) es below
    → Selects key n
selects o h key q s p n es below wide shape d nest =
    let keys = shape.arrays.keys in
    let pointers = shape.arrays.pointers in
    let count = shape.count in
    let m = n.num_keys in
    let ld = length-drop 1 n.pointers in
    let lr : length (rest_of n) ≡ m =
      length-pairs m n.keys (drop 1 n.pointers) (omega arith) (omega arith) in
    let c = child key (first_pointer n) (rest_of n) in
    let g = passed key (rest_of n) in
    let (le, here, there, before) =
      child-place (Linked o h p) s key (first_pointer n) (rest_of n) es below (Linked-Family o h p)
        d nest in
    let inside : g ≤ m = omega arith in
    let same : (t : ℕ)
        → t ≤ m
        → get_or (first_pointer n ∷ pointers_of (rest_of n)) t 0 ≡ get_or n.pointers t 0 =
      λ t h. pointers-pairs m n.keys n.pointers t (omega arith) (omega arith) h in
    let at : get_or n.pointers g 0 ≡ c = sym (same g inside) ∙ here in
    record {
      inside = inside;
      at = at;
      keys = scan-passed key m n.keys (drop 1 n.pointers) (omega arith) (omega arith);
      pointers =
          scan_pointer (m + 1) n.pointers g c (omega arith) (omega arith) at
            (λ t lt. λ e. before t lt (same t (omega arith) ∙ e));
    }

pub find_leaf_from-child :
    (d key : ℕ) {s : Store} {p : Ptr} {n : Node}
    → Holds s p n
    → n.is_leaf ≡ false
    → n.num_keys ≤ length n.keys
    → n.num_keys < length n.pointers
    → Selects key n
    → find_leaf_from (suc d) p key s
      ≡ find_leaf_from d (child key (first_pointer n) (rest_of n)) key s
unfolding find_leaf_from
find_leaf_from-child d key {s} {p} {n} held inner hk hp sel =
    let inside = sel.inside in
    rw
      (
        load_lem held,
        inner,
        scan_keys_lem (λ k. leb k key) held hk,
        sel.keys,
        get_pointer_lem held (passed key (rest_of n)) (omega arith),
        sel.at,
      )
      refl

pub otherwise :
    {A : Type 0} (b : Bool) (x y : Prog A) (s : Store) {out : Outcome A}
    → b ≡ false
    → y s ≡ out
    → (if b then x else y) s ≡ out
otherwise b x y s e run = rw e run

-- The child has split, and the node has room.
pub insert_into_parent-room :
    (fuel g k : ℕ) (root c x : Ptr) {s : Store} {p : Ptr} {n nc : Node}
    → Holds s c nc
    → nc.parent ≡ p
    → Holds s p n
    → scan (λ q. not (q == c)) (n.num_keys + 1) n.pointers ≡ g
    → g ≤ n.num_keys
    → n.num_keys < s.order - 1
    → n.num_keys < length n.keys
    → n.num_keys + 1 < length n.pointers
    → n.num_keys + 1 < 2 ^ 64
    → insert_into_parent (suc fuel) root c k x s ≡ done root (put p (node_with g k x n) s)
unfolding insert_into_parent
insert_into_parent-room fuel g k root c x {s} {p} {n} hc parent held scanned le room hk hp word =
    rw (load_lem hc, parent)
      (otherwise (p == null) _ _ s (not_null held) (
        rw
          (
            get_left_index_lem c held (omega arith),
            scanned,
            load_lem held,
            lt→ltb n.num_keys (s.order - 1) room,
          )
          (insert_into_node-node_with root g k x held le hk hp word)))

-- The child has split, and the node is full.
pub insert_into_parent-full :
    (fuel g k k' : ℕ) (root c x x' : Ptr) {s s' : Store} {p : Ptr} {n nc : Node}
    → Holds s c nc
    → nc.parent ≡ p
    → Holds s p n
    → scan (λ q. not (q == c)) (n.num_keys + 1) n.pointers ≡ g
    → n.num_keys ≡ s.order - 1
    → n.num_keys + 1 ≤ length n.pointers
    → split_node p g k x s ≡ done (k', x') s'
    → insert_into_parent (suc fuel) root c k x s ≡ insert_into_parent fuel root p k' x' s'
unfolding insert_into_parent
insert_into_parent-full fuel g k k' root c x x' {s} {s'} {p} {n} hc parent held scanned full hp
      run =
    let no_room : ltb n.num_keys (s.order - 1) ≡ false = ground arith in
    rw (load_lem hc, parent)
      (otherwise (p == null) _ _ s (not_null held)
        (rw (get_left_index_lem c held hp, scanned, load_lem held, no_room, run) refl))
