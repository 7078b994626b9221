-- ===== src/BTree/Tree/Linked/Induction.antt =====
-- An insertion into a subtree of any height, by induction on the height.
use mathlib.Core.Path.{subst}
use native.Mathlib.Decide.{dec_lt}
use nu_ksm_pact21_artifact.Base.{
  ℕ, zero, suc, ◌+◌, ◌-◌, ◌<◌, ◌≡◌, refl, sym, ◌∙◌, inl, inr, false, List, ◌∷◌, arith,
}
use nu_ksm_pact21_artifact.BTree.Store.{Ptr, Node, Store}
use nu_ksm_pact21_artifact.BTree.Store.Laws.{Holds}
use nu_ksm_pact21_artifact.BTree.Entries.Leaf.{insert_entry}
use nu_ksm_pact21_artifact.BTree.Tree.Edit.{Entries, insert_entry-Edit}
use nu_ksm_pact21_artifact.BTree.Tree.Insertion.{IsNew, IsSorted}
use nu_ksm_pact21_artifact.BTree.Tree.Owned.{Distinct}
use nu_ksm_pact21_artifact.BTree.Tree.Addresses.{Disjoint}
use nu_ksm_pact21_artifact.BTree.Tree.Nest.{Nest}
use nu_ksm_pact21_artifact.BTree.Tree.Nest.Focus.{child, Nest-focus}
use nu_ksm_pact21_artifact.BTree.Tree.Linked.{
  HasShape, first_pointer, rest_of, Linked, Linked-Family,
}
use nu_ksm_pact21_artifact.BTree.Tree.Linked.Level.{selects, find_leaf_from-child}
use nu_ksm_pact21_artifact.BTree.Tree.Linked.Climb.{Conditions, Inserts, IsSorted-part, IsNew-part}
use nu_ksm_pact21_artifact.BTree.Tree.Linked.AtLeaf.{at_leaf}
use nu_ksm_pact21_artifact.BTree.Tree.Linked.AtNode.{Focused, node_ended}
use nu_ksm_pact21_artifact.BTree.Tree.Linked.Rising.{node_room, node_full}

-- The conditions of an insertion, with the node at the root taken apart.
record NodeConditions (o h : ℕ) (q : Ptr) (s : Store) (p : Ptr) (n : Node) (below free : List Ptr)
    (key : ℕ) (es : Entries) : Type 0 where
  held : Holds s p n
  inner : n.is_leaf ≡ false
  shape : HasShape o q n
  nest : Nest (Linked o h p s) (first_pointer n) (rest_of n) es below
  distinct : Distinct (p ∷ below)
  apart : Disjoint (p ∷ below) free

next_lem : (h d : ℕ) → suc h < d → (d' : ℕ) × (d ≡ suc d') × (h < d')
next_lem h zero lt = absurd (omega arith)
next_lem h (suc d) lt = (d, refl, omega arith)

at_node :
    (h fuel left o : ℕ) (q root : Ptr) (s : Store) (p : Ptr) (n : Node) (ns below free : List Ptr)
    (key : ℕ) (r : Ptr) (es : Entries)
    → ((c : Ptr) (part : Entries) (cn : List Ptr)
        → Conditions o h p s c cn free key part
        → Inserts fuel (suc left) o h p root s c cn free key r part)
    → Conditions o (suc h) q s p ns free key es
    → NodeConditions o h q s p n below free key es
    → Inserts fuel left o (suc h) q root s p (p ∷ below) free key r es
at_node h fuel left o q root s p n ns below free key r es ih given node =
    let wide = given.wide in
    let enough = given.enough in
    let shape = node.shape in
    let keys = shape.arrays.keys in
    let pointers = shape.arrays.pointers in
    let count = shape.count in
    let (p_new, d_below) = node.distinct in
    let apart = node.apart in
    let sel = selects o h key q s p n es below (omega arith) shape d_below node.nest in
    let c = child key (first_pointer n) (rest_of n) in
    let (part, cn, lc, (pre, post, around), within, dc, plug) =
      Nest-focus (Linked o h p) s key (insert_entry key r) (first_pointer n) (rest_of n) es below
        (Linked-Family o h p) (insert_entry-Edit key r) d_below node.nest in
    let (leaf, down, back) = ih c part cn (record {
      order = given.order;
      wide = wide;
      word = given.word;
      tree = lc;
      distinct = dc;
      ready = given.ready;
      free_distinct = given.free_distinct;
      apart = λ x i j. apart x (inr (within x i)) j;
      enough = omega arith;
      new = IsNew-part key pre part post (subst (IsNew key) around given.new);
      sorted = IsSorted-part pre part post (subst IsSorted around given.sorted);
    }) in
    let z : Focused o h q s p n key (insert_entry key r) es part below cn free = record {
      held = node.held;
      inner = node.inner;
      shape = shape;
      selects = sel;
      within = within;
      plug = plug;
      distinct = node.distinct;
      apart = apart;
    } in
    (
      leaf,
      (λ d lt.
          let (d', e, lt') = next_lem h d lt in
          rw e (
            find_leaf_from-child d' key node.held node.inner (omega arith) (omega arith) sel
            ∙ down d' lt')),
      elim back [
        | inl ended ↦ inl (node_ended z ended)
        | inr rises ↦ elim (dec_lt n.num_keys (o - 1)) [
          | yes room ↦ inl (node_room given.order given.word room z rises)
          | no full ↦ inr (
              node_full given.order wide given.word (omega arith) given.free_distinct enough z
                rises)
        ]
      ],
    )

-- An insertion of a new key into a subtree of height `h`, with `fuel` for the climb of which `left` is
-- left at the subtree's root: the descent ends at a leaf, with any fuel above the height; and from
-- there the insertion ends inside the subtree, or comes back with the subtree split in two.
pub inserts :
    (h fuel left o : ℕ) (q root : Ptr) (s : Store) (p : Ptr) (ns free : List Ptr) (key : ℕ)
    (r : Ptr) (es : Entries)
    → fuel ≡ left + h
    → Conditions o h q s p ns free key es
    → Inserts fuel left o h q root s p ns free key r es
inserts zero fuel left o q root s p ns free key r es e given =
    let same : fuel ≡ left = omega arith in
    subst (λ l. Inserts fuel l o 0 q root s p ns free key r es) same
      (at_leaf fuel o q root s p ns free key r es given)
inserts (suc h) fuel left o q root s p ns free key r es e given =
    let (n, below, held, inner, shape, en, nest) = given.tree in
    subst (λ ms. Inserts fuel left o (suc h) q root s p ms free key r es) (sym en)
      (at_node h fuel left o q root s p n ns below free key r es
        (λ c part cn conditions.
          inserts h fuel (suc left) o p root s c cn free key r part (omega arith) conditions)
        given
        (record {
          held = held;
          inner = inner;
          shape = shape;
          nest = nest;
          distinct = subst Distinct en given.distinct;
          apart = subst (λ ms. Disjoint ms free) en given.apart;
        }))
