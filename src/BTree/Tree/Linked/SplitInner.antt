-- ===== src/BTree/Tree/Linked/SplitInner.antt =====
-- `insert_into_node_after_splitting`, up to its last call, on a node of a whole well-formed tree.
use mathlib.Core.Path.{subst}
use nu_ksm_pact21_artifact.Base.{
  ℕ, suc, ◌+◌, ◌-◌, ◌*◌, ◌^◌, ◌≤◌, ◌<◌, ◌≡◌, ◌≢◌, refl, sym, ◌∙◌, inl, inr, false, List, [], ◌∷◌,
  arith, length, get_or, length-replicate,
}
use nu_ksm_pact21_artifact.BTree.Store.{Ptr, Node, Store, done, put}
use nu_ksm_pact21_artifact.BTree.Store.Laws.{Holds, put-Holds}
use nu_ksm_pact21_artifact.BTree.Alloc.Leaves.{new_node}
use nu_ksm_pact21_artifact.BTree.Find.{cut}
use nu_ksm_pact21_artifact.BTree.Insert.{split_node}
use nu_ksm_pact21_artifact.BTree.Tree.Edit.{Entries}
use nu_ksm_pact21_artifact.BTree.Tree.Split.{cut-bounds, temporary, HasArrays}
use nu_ksm_pact21_artifact.BTree.Tree.Owned.{NotIn, Distinct, Holds-same}
use nu_ksm_pact21_artifact.BTree.Tree.Addresses.{Disjoint, NotIn-not, not-NotIn}
use nu_ksm_pact21_artifact.BTree.Tree.Nest.{Nest}
use nu_ksm_pact21_artifact.BTree.Tree.Nest.Focus.{splice}
use nu_ksm_pact21_artifact.BTree.Tree.Linked.{HasShape, first_pointer, rest_of, Linked}
use nu_ksm_pact21_artifact.BTree.Tree.Linked.SplitRun.{left_node, right_node, split_node-run}
use nu_ksm_pact21_artifact.BTree.Tree.Linked.Ready.{Ready}
use nu_ksm_pact21_artifact.BTree.Tree.Linked.Divide.{halved}
use nu_ksm_pact21_artifact.BTree.Tree.Linked.Effects.{Step, Divided, Ready-taken}
use nu_ksm_pact21_artifact.BTree.Tree.Linked.SplitNode.{supplied, divide}

split_at :
    (h g key : ℕ) (right : Ptr) (s : Store) (p x : Ptr) (n : Node) (es : Entries)
    (below rest : List Ptr)
    → Holds s p n
    → n.is_leaf ≡ false
    → HasShape s.order n.parent n
    → n.num_keys ≡ s.order - 1
    → g ≤ n.num_keys
    → 2 < s.order
    → s.order < 2 ^ 64
    → Nest
        (Linked s.order h p s)
        (first_pointer n)
        (splice g ((key, right) ∷ []) (rest_of n))
        es
        below
    → Distinct (p ∷ below)
    → Ready s (x ∷ rest)
    → Disjoint (p ∷ below) (x ∷ rest)
    → NotIn x rest
    → (k : ℕ) × (s' : Store) × (split_node p g key right s ≡ done (k, x) s')
      × Step s s' (p ∷ below) (x ∷ []) rest
      × Divided s.order (suc h) n.parent s' p x (p ∷ below) (x ∷ []) k es
split_at h g key right s p x n es below rest held inner shape full le wide word nest d ready apart
      x_rest =
    let o = s.order in
    let c = cut o in
    let (some_left, some_right) = cut-bounds o (omega arith) in
    let (s2, made) = supplied s x rest ready in
    let b = new_node o in
    let ab : HasArrays o b = record {
      keys = length-replicate {A = ℕ} (o - 1) 0;
      pointers = length-replicate {A = ℕ} o 0;
    } in
    let ks = temporary g key n.num_keys n.keys o in
    let ps = temporary (g + 1) right (n.num_keys + 1) n.pointers (o + 1) in
    let hv = halved o g key right n.parent n b shape ab full le wide in
    let l = left_node c ks ps n in
    let r = right_node o c n.parent ks ps b in
    let p_x : p ≢ x = λ e. apart p (inl refl) (inl e) in
    let held2 : Holds s2 p n = Holds-same (made.others p p_x) held in
    let hp : Holds (put p l s2) p l = put-Holds s2 l held.ne_null in
    let hx : Holds (put x r (put p l s2)) x r = put-Holds (put p l s2) r made.at.ne_null in
    let total = hv.total in
    let (s', run, kept, outside, halves) =
      divide o h (c - 1) (get_or ks (c - 1) 0) n.parent p x s s2 l r
        (splice g ((key, right) ∷ []) (rest_of n)) es below (omega arith) (omega arith)
        (rw hv.left_first nest) hv.left_shape hv.right_shape inner refl hv.left_rest hv.right_first
        hv.right_rest hv.separator made.others hp hx d
        (not-NotIn x (p ∷ below) (λ i. apart x i (inl refl))) in
    (
      get_or ks (c - 1) 0,
      s',
      split_node-run g key right p x made.p made.q made.more s s2 s' n b made.supply made.made held
          held2 made.at p_x shape.arrays ab full refl le wide word run,
      record {
        outside = λ y out not_used. outside y out (λ e. not_used (inl e));
        order = kept.order ∙ made.order;
        records = kept.records ∙ made.records;
        free_recs = kept.free_recs ∙ made.free_recs;
        ready =
            Ready-taken s s' made.b rest made.chain (kept.free_nodes ∙ made.free)
              (λ y i. outside y (λ j. apart y j (inr i)) (λ e. NotIn-not x rest x_rest (rw e at i)))
              (subst (λ t. 4 * length rest ≤ length t) (sym kept.supply) made.memory);
      },
      halves,
    )

abbrev SplitsAt :
    ℕ → Ptr → ℕ → ℕ → ℕ → Ptr → Store → Ptr → Ptr → Node → Entries → List Ptr → List Ptr → Type 0
SplitsAt o q h g key right s p x n es below rest =
    HasShape o q n
    → n.num_keys ≡ o - 1
    → 2 < o
    → o < 2 ^ 64
    → Nest (Linked o h p s) (first_pointer n) (splice g ((key, right) ∷ []) (rest_of n)) es below
    → (k : ℕ) × (s' : Store) × (split_node p g key right s ≡ done (k, x) s')
      × Step s s' (p ∷ below) (x ∷ []) rest
      × Divided o (suc h) q s' p x (p ∷ below) (x ∷ []) k es

-- A full internal node of a tree of order at least 3, with the new child at its place among the others:
-- all nodes at different addresses, the subtrees holding the given entries between the keys; and a
-- free node elsewhere, with memory for four arrays. Then `insert_into_node_after_splitting` comes to
-- its last call with the old node and the free one, which lead to two well-formed trees of the old
-- height under the old parent: their entries together are the given ones, the key handed up is greater
-- than all on the left and not greater than any on the right, and every child points to the node above
-- it. The free node is taken off its list, and no node outside the subtree and no record has changed.
pub split_node-Divided :
    (o : ℕ) (q : Ptr) (h g key : ℕ) (right : Ptr) (s : Store) (p x : Ptr) (n : Node) (es : Entries)
    (below rest : List Ptr)
    → s.order ≡ o
    → Holds s p n
    → n.is_leaf ≡ false
    → HasShape o q n
    → n.num_keys ≡ o - 1
    → g ≤ n.num_keys
    → 2 < o
    → o < 2 ^ 64
    → Nest (Linked o h p s) (first_pointer n) (splice g ((key, right) ∷ []) (rest_of n)) es below
    → Distinct (p ∷ below)
    → Ready s (x ∷ rest)
    → Disjoint (p ∷ below) (x ∷ rest)
    → NotIn x rest
    → (k : ℕ) × (s' : Store) × (split_node p g key right s ≡ done (k, x) s')
      × Step s s' (p ∷ below) (x ∷ []) rest
      × Divided o (suc h) q s' p x (p ∷ below) (x ∷ []) k es
split_node-Divided o q h g key right s p x n es below rest order held inner shape full le wide word
      nest d ready apart x_rest =
    let own : SplitsAt s.order n.parent h g key right s p x n es below rest = λ sh f w b t.
      split_at h g key right s p x n es below rest held inner sh f le w b t d ready apart x_rest in
    let of_order : SplitsAt o n.parent h g key right s p x n es below rest =
      subst (λ o'. SplitsAt o' n.parent h g key right s p x n es below rest) order own in
    let of_parent : SplitsAt o q h g key right s p x n es below rest =
      subst (λ q'. SplitsAt o q' h g key right s p x n es below rest) shape.parent_is of_order in
    of_parent shape full wide word nest
