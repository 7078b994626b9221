-- ===== src/BTree/Tree/Linked/Root.antt =====
-- A split of the root of a whole well-formed tree: the new root over the two parts.
use mathlib.Core.Path.{subst}
use nu_ksm_pact21_artifact.Base.{
  ℕ, suc, ◌-◌, ◌*◌, ◌≤◌, ◌<◌, ◌≡◌, ◌≢◌, refl, sym, ap, ◌∙◌, ◌⊎◌, inl, inr, List, [], ◌∷◌, ◌++◌,
  arith, length, get_or, set, drop, replicate, length-set, length-replicate,
}
use nu_ksm_pact21_artifact.BTree.Store.{Ptr, null, Store, done, put}
use nu_ksm_pact21_artifact.BTree.Store.Laws.{Holds, put-Holds, put-Holds_ne, load_lem}
use nu_ksm_pact21_artifact.BTree.Alloc.Leaves.{new_node, make_node-Grown_at}
use nu_ksm_pact21_artifact.BTree.Insert.{insert_into_parent}
use nu_ksm_pact21_artifact.BTree.Entries.Leaf.{pairs}
use nu_ksm_pact21_artifact.BTree.Tree.Edit.{Entries}
use nu_ksm_pact21_artifact.BTree.Tree.NewRoot.Run.{
  keys_shape, pointers_shape, root_node, new_root-run,
}
use nu_ksm_pact21_artifact.BTree.Tree.Owned.{In, NotIn, In-append_left, In-append_right, Holds-same}
use nu_ksm_pact21_artifact.BTree.Tree.Addresses.{
  NotIn-not, not-NotIn, Distinct-Disjoint, Distinct-left, Distinct-right,
}
use nu_ksm_pact21_artifact.BTree.Tree.Nest.{Nest}
use nu_ksm_pact21_artifact.BTree.Tree.Linked.{
  HasShape, first_pointer, rest_of, Linked, Linked-Family, Linked-reparent,
}
use nu_ksm_pact21_artifact.BTree.Tree.Linked.Adopt.{put_ne}
use nu_ksm_pact21_artifact.BTree.Tree.Linked.Ready.{Ready, four_addresses}
use nu_ksm_pact21_artifact.BTree.Tree.Linked.Effects.{Step, Divided, Replaced, Ready-taken}

root_shape :
    (o k : ℕ) (p x : Ptr)
    → 2 < o
    → let n = root_node o p k x in
      HasShape o null n × (first_pointer n ≡ p) × (rest_of n ≡ (k, x) ∷ [])
unfolding pairs
root_shape o k p x wide =
    let (ks, keys) = keys_shape o k (omega arith) in
    let (ps, pointers) = pointers_shape o p x (omega arith) in
    let n = root_node o p k x in
    (
      record {
        arrays = record {
          keys = length-set (replicate (o - 1) 0) 0 k ∙ length-replicate {A = ℕ} (o - 1) 0;
          pointers =
              length-set (set (replicate o null) 0 p) 1 x
              ∙ length-set (replicate o null) 0 p
              ∙ length-replicate {A = ℕ} o null;
        };
        parent_is = refl;
        count = omega arith;
      },
      ap (λ l. get_or l 0 0) pointers,
      ap (λ l. pairs 1 l (drop 1 n.pointers)) keys ∙ ap (λ l. pairs 1 (k ∷ ks) (drop 1 l)) pointers,
    )

-- The climb reaches a root that has split.
pub root_full :
    (o h fuel k : ℕ) (root p new x : Ptr) (s : Store) (es : Entries) (ns used rest : List Ptr)
    → s.order ≡ o
    → 2 < o
    → Divided o h null s p new ns used k es
    → Ready s (x ∷ rest)
    → ((y : Ptr) → In y ns ⊎ In y used → In y (x ∷ rest) → ⊥)
    → NotIn x rest
    → (s' : Store) × (insert_into_parent (suc fuel) root p k new s ≡ done x s')
      × Step s s' (ns ++ used) (x ∷ []) rest
      × Replaced o (suc h) null s' x ns (used ++ (x ∷ [])) es
unfolding insert_into_parent
root_full o h fuel k root p new x s es ns used rest order wide d ready apart x_rest =
    let ln = d.ln in
    let rn = d.rn in
    let both = Distinct-Disjoint ln rn d.distinct in
    let fam = Linked-Family o h null in
    let (e, b, held, chain) = ready.chain in
    let (a1, a2, a3, a4, more, supply, memory) =
      four_addresses s.supply (length rest) ready.memory in
    let (s1, made, grown) = make_node-Grown_at s b x a1 a2 (a3 ∷ a4 ∷ more) e held supply in
    let old : (y : Ptr) → In y (ln ++ rn) → In y (x ∷ rest) → ⊥ = λ y i. apart y (d.grows y i) in
    let x_l : In x ln → ⊥ = λ i. old x (In-append_left x ln rn i) (inl refl) in
    let x_r : In x rn → ⊥ = λ i. old x (In-append_right x ln rn i) (inl refl) in
    let (l, hl, parent_l, back_l) =
      Linked-reparent o h null x s p d.left ln (Distinct-left ln rn d.distinct) d.at_left in
    let (r, hr, parent_r, back_r) =
      Linked-reparent o h null x s new d.right rn (Distinct-right ln rn d.distinct) d.at_right in
    let p_in = fam.rooted s p d.left ln d.at_left in
    let new_in = fam.rooted s new d.right rn d.at_right in
    let p_x : p ≢ x = λ eq. x_l (rw eq at p_in) in
    let new_x : new ≢ x = λ eq. x_r (rw eq at new_in) in
    let p_new : p ≢ new = λ eq. both p p_in (rw (← eq) at new_in) in
    let hx : Holds s1 x (new_node o) = subst (λ i. Holds s1 x (new_node i)) order grown.at in
    let hl1 : Holds s1 p l = Holds-same (grown.others p p_x) hl in
    let hr1 : Holds s1 new r = Holds-same (grown.others new new_x) hr in
    let n = root_node o p k new in
    let l' = record l { parent = x } in
    let r' = record r { parent = x } in
    let t1 = put x n s1 in
    let t2 = put p l' t1 in
    let s' = put new r' t2 in
    let others : (y : Ptr) → y ≢ x → y ≢ p → y ≢ new → s'.nodes y ≡ s.nodes y =
      λ y a b c. put_ne t2 new y r' c ∙ put_ne t1 p y l' b ∙ put_ne s1 x y n a ∙ grown.others y a in
    let root_in : Holds s' x n =
      put-Holds_ne r' (put-Holds_ne l' (put-Holds s1 n hx.ne_null) (λ eq. p_x (sym eq)))
        (λ eq. new_x (sym eq)) in
    let left' : Linked o h x s' p d.left ln =
      back_l s' (put-Holds_ne r' (put-Holds t1 l' hl.ne_null) p_new)
        (λ y i ne. others y (λ eq. x_l (rw eq at i)) ne (λ eq. both y i (rw (← eq) at new_in))) in
    let right' : Linked o h x s' new d.right rn =
      back_r s' (put-Holds t2 r' hr.ne_null)
        (λ y i ne. others y (λ eq. x_r (rw eq at i)) (λ eq. both p p_in (rw eq at i)) ne) in
    let (shape, first, rest_is) = root_shape o k p new wide in
    let nest : Nest (Linked o h x s') p ((k, new) ∷ []) es (ln ++ rn) =
      (d.left, d.right, ln, rn, d.all, refl, left', d.below, d.from, right') in
    (
      s',
      rw (load_lem hl, parent_l)
          (new_root-run k p new x s s1 o l r made hx hl1 hr1 p_x new_x p_new (omega arith)),
      record {
        outside = λ y a b.
            others y (λ eq. b (inl eq))
              (λ eq. a (was ns used y (rw (← eq) at (d.grows p (In-append_left p ln rn p_in)))))
              (λ eq.
                a (was ns used y (rw (← eq) at (d.grows new (In-append_right new ln rn new_in)))));
        order = grown.order;
        records = grown.records;
        free_recs = grown.free_recs;
        ready =
            Ready-taken s s' b rest chain grown.free
              (λ y i.
                others y (λ eq. NotIn-not x rest x_rest (rw eq at i))
                  (λ eq. old p (In-append_left p ln rn p_in) (inr (rw eq at i)))
                  (λ eq. old new (In-append_right new ln rn new_in) (inr (rw eq at i))))
              (subst (λ v. 4 * length rest ≤ length v) (sym grown.supply) (omega arith));
      },
      record {
        addresses = x ∷ (ln ++ rn);
        at = (n, ln ++ rn, root_in, refl, shape, refl, rw (first, rest_is) nest);
        distinct = (not-NotIn x (ln ++ rn) (λ i. old x i (inl refl)), d.distinct);
        grows = λ y i. elim i [
          | inl eq ↦ inr (rw eq (In-append_right x used (x ∷ []) (inl refl)))
          | inr j ↦ elim (d.grows y j) [
            | inl before ↦ inl before
            | inr taken ↦ inr (In-append_left y used (x ∷ []) taken)
          ]
        ];
      },
    )
  where
    was : (xs ys : List Ptr) (y : Ptr) → In y xs ⊎ In y ys → In y (xs ++ ys)
    was xs ys y (inl i) = In-append_left y xs ys i
    was xs ys y (inr i) = In-append_right y xs ys i
