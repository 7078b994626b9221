-- ===== src/BTree/Tree/Linked/AtLeaf.antt =====
-- An insertion into a tree that is one leaf, as part of a larger tree or by itself.
use mathlib.Core.Path.{subst}
use native.Mathlib.Decide.{dec_lt}
use nu_ksm_pact21_artifact.Base.{
  ℕ, zero, suc, ◌-◌, ◌^◌, ◌≤◌, ◌<◌, ◌≡◌, refl, sym, ◌⊎◌, inl, inr, false, List, [], ◌∷◌, arith, ltb,
  lt→ltb, length,
}
use nu_ksm_pact21_artifact.BTree.Store.{Ptr, Node, Store, done}
use nu_ksm_pact21_artifact.BTree.Store.Laws.{Holds, load_lem}
use nu_ksm_pact21_artifact.BTree.Find.{find_leaf_from}
use nu_ksm_pact21_artifact.BTree.Insert.{
  insert_into_parent, insert_into_leaf_after_splitting, split_leaf,
}
use nu_ksm_pact21_artifact.BTree.Entries.{insert_into_leaf}
use nu_ksm_pact21_artifact.BTree.Entries.Leaf.{insert_entry}
use nu_ksm_pact21_artifact.BTree.Tree.{Leaf}
use nu_ksm_pact21_artifact.BTree.Tree.Edit.{Entries}
use nu_ksm_pact21_artifact.BTree.Tree.Insertion.{IsNew, IsSorted}
use nu_ksm_pact21_artifact.BTree.Tree.Owned.{Distinct}
use nu_ksm_pact21_artifact.BTree.Tree.Addresses.{Disjoint}
use nu_ksm_pact21_artifact.BTree.Tree.Linked.{HasShape}
use nu_ksm_pact21_artifact.BTree.Tree.Linked.Ready.{Ready}
use nu_ksm_pact21_artifact.BTree.Tree.Linked.Leaves.{split_leaf-Divided, insert_into_leaf-Replaced}
use nu_ksm_pact21_artifact.BTree.Tree.Linked.Climb.{
  place, Ended, Rises, Conditions, Inserts, first_free,
}

place-room :
    (fuel : ℕ) (root key : ℕ) (r leaf : Ptr) {s s' : Store} {n : Node}
    → Holds s leaf n
    → n.num_keys < s.order - 1
    → insert_into_leaf leaf key r s ≡ done leaf s'
    → place fuel root leaf key r s ≡ done root s'
place-room fuel root key r leaf {s} {s'} {n} held room run =
    rw (load_lem held, lt→ltb n.num_keys (s.order - 1) room, run) refl

place-full :
    (fuel : ℕ) (root key : ℕ) (r leaf : Ptr) {s s' : Store} {n : Node} (k : ℕ) (x : Ptr)
    → Holds s leaf n
    → n.num_keys ≡ s.order - 1
    → split_leaf leaf key r s ≡ done (k, x) s'
    → place fuel root leaf key r s ≡ insert_into_parent fuel root leaf k x s'
unfolding insert_into_leaf_after_splitting
place-full fuel root key r leaf {s} {s'} {n} k x held full run =
    let no_room : ltb n.num_keys (s.order - 1) ≡ false = ground arith in
    rw (load_lem held, no_room, run) refl

one_leaf :
    (fuel o : ℕ) (q root : Ptr) (s : Store) (p : Ptr) (free : List Ptr) (key : ℕ) (r : Ptr)
    (es : Entries) (n : Node)
    → Leaf s p es n
    → HasShape o q n
    → s.order ≡ o
    → 2 < o
    → o < 2 ^ 64
    → IsNew key es
    → IsSorted es
    → Ready s free
    → Distinct free
    → Disjoint (p ∷ []) free
    → 1 ≤ length free
    → Ended (place fuel root p key r) o 0 q root p s (p ∷ []) free (insert_entry key r es)
      ⊎ Rises (place fuel root p key r) fuel o 0 q root p s (p ∷ []) free (insert_entry key r es)
one_leaf fuel o q root s p free key r es n l shape order wide word new sorted ready d apart enough =
    elim (dec_lt n.num_keys (o - 1)) [
      | yes room ↦
          let (s', run, step, subtree) =
            insert_into_leaf-Replaced o q key r p s es n free l shape room word ready
              (λ i. apart p (inl refl) i) in
          inl (record {
            after = s';
            used = [];
            rest = free;
            taken = refl;
            few = omega arith;
            runs = place-room fuel root key r p l.at (omega arith) run;
            step = step;
            subtree = subtree;
          })
      | no full ↦
          let count = shape.count in
          let (x, rest, e) = first_free 0 free enough in
          let (x_rest, d_rest) = rw e at d in
          let (k, s', run, step, subtrees) =
            split_leaf-Divided o q key r p x s es n rest order l shape (omega arith) new sorted wide
              word (subst (Ready s) e ready) (subst (Disjoint (p ∷ [])) e apart) x_rest in
          inr (record {
            after = s';
            used = x ∷ [];
            rest = rest;
            taken = e;
            count = refl;
            key = k;
            new = x;
            is_free = inl refl;
            runs = place-full fuel root key r p k x l.at (omega arith) run;
            step = step;
            subtrees = subtrees;
          })
    ]

find_leaf_from-Leaf :
    (d key : ℕ) (s : Store) (p : Ptr) (es : Entries) (n : Node)
    → Leaf s p es n
    → 0 < d
    → find_leaf_from d p key s ≡ done p s
unfolding find_leaf_from
find_leaf_from-Leaf zero key s p es n l h = absurd (omega arith)
find_leaf_from-Leaf (suc d) key s p es n l h = rw (load_lem l.at, l.is_leaf) refl

pub at_leaf :
    (fuel o : ℕ) (q root : Ptr) (s : Store) (p : Ptr) (ns free : List Ptr) (key : ℕ) (r : Ptr)
    (es : Entries)
    → Conditions o 0 q s p ns free key es
    → Inserts fuel fuel o 0 q root s p ns free key r es
at_leaf fuel o q root s p ns free key r es given =
    let (n, l, shape, some_key, e) = given.tree in
    (
      p,
      (λ d lt. find_leaf_from-Leaf d key s p es n l lt),
      subst
          (λ ms.
            Ended (place fuel root p key r) o 0 q root p s ms free (insert_entry key r es)
            ⊎ Rises (place fuel root p key r) fuel o 0 q root p s ms free (insert_entry key r es))
          (sym e)
          (one_leaf fuel o q root s p free key r es n l shape given.order given.wide given.word
            given.new given.sorted given.ready given.free_distinct
            (subst (λ ms. Disjoint ms free) e given.apart) given.enough),
    )
