-- ===== src/BTree/Tree/Linked/SplitNode.antt =====
-- The split of a full internal node: the two subtrees that it leaves.
use mathlib.Core.Path.{subst}
use nu_ksm_pact21_artifact.Base.{
  ℕ, suc, ◌+◌, ◌*◌, ◌≤◌, ◌<◌, ◌≡◌, ◌≢◌, refl, sym, ap, ◌∙◌, inl, inr, false, List, [], ◌∷◌, ◌++◌,
  arith, length, get_or, take, drop,
}
use nu_ksm_pact21_artifact.BTree.Store.{Ptr, Node, Store, done, put}
use nu_ksm_pact21_artifact.BTree.Store.Laws.{Holds, put-Holds_ne}
use nu_ksm_pact21_artifact.BTree.Alloc.{make_node}
use nu_ksm_pact21_artifact.BTree.Alloc.Leaves.{new_node, make_node-Grown_at}
use nu_ksm_pact21_artifact.BTree.Entries.{adopt}
use nu_ksm_pact21_artifact.BTree.Tree.Edit.{Entries}
use nu_ksm_pact21_artifact.BTree.Tree.Deletion.{length-pairs}
use nu_ksm_pact21_artifact.BTree.Tree.Split.Lists.{length-drop}
use nu_ksm_pact21_artifact.BTree.Tree.Owned.{
  In, NotIn, Distinct, In-append_left, In-append_right, Holds-same,
}
use nu_ksm_pact21_artifact.BTree.Tree.Addresses.{
  Disjoint, NotIn-not, not-NotIn, In-append, Distinct-both, Distinct-Disjoint, Distinct-left,
  Distinct-right,
}
use nu_ksm_pact21_artifact.BTree.Tree.Nest.{Nest, Nest-cut, key_at, pointer_at}
use nu_ksm_pact21_artifact.BTree.Tree.Nest.Focus.{Nest-same}
use nu_ksm_pact21_artifact.BTree.Tree.Linked.{
  HasShape, first_pointer, rest_of, Linked, Linked-Family,
}
use nu_ksm_pact21_artifact.BTree.Tree.Linked.Arrays.{pointers-pairs}
use nu_ksm_pact21_artifact.BTree.Tree.Linked.Adopt.{Kept, put_ne, adopt-Nest}
use nu_ksm_pact21_artifact.BTree.Tree.Linked.SplitRun.{with_arrays}
use nu_ksm_pact21_artifact.BTree.Tree.Linked.Ready.{Free, Ready, four_addresses}
use nu_ksm_pact21_artifact.BTree.Tree.Linked.Effects.{Divided}

-- A node of the free list and memory for its arrays and for two more.
pub record Supplied (s s2 : Store) (x : Ptr) (rest : List Ptr) : Type 0 where
  pub p : Ptr
  pub q : Ptr
  pub more : List Ptr
  pub b : Node
  pub supply : s.supply ≡ p ∷ q ∷ more
  pub made : make_node (with_arrays more s) ≡ done x s2
  pub chain : Free s b.next rest
  pub at : Holds s2 x (new_node s.order)
  pub order : s2.order ≡ s.order
  pub records : s2.records ≡ s.records
  pub free_recs : s2.free_recs ≡ s.free_recs
  pub free : s2.free_nodes ≡ b.next
  pub memory : 4 * length rest ≤ length s2.supply
  pub others : (y : Ptr) → y ≢ x → s2.nodes y ≡ s.nodes y

pub supplied :
    (s : Store) (x : Ptr) (rest : List Ptr)
    → Ready s (x ∷ rest)
    → (s2 : Store) × Supplied s s2 x rest
supplied s x rest ready =
    let (e, b, held, chain) = ready.chain in
    let (a1, a2, a3, a4, more, supply, memory) =
      four_addresses s.supply (length rest) ready.memory in
    let t = with_arrays (a3 ∷ a4 ∷ more) s in
    let held_t : Holds t x b = record { ne_null = held.ne_null; holds = held.holds } in
    let (s2, run, grown) = make_node-Grown_at t b x a3 a4 more e held_t refl in
    (
      s2,
      record {
        p = a1;
        q = a2;
        more = a3 ∷ a4 ∷ more;
        b = b;
        supply = supply;
        made = run;
        chain = chain;
        at = grown.at;
        order = grown.order;
        records = grown.records;
        free_recs = grown.free_recs;
        free = grown.free;
        memory = subst (λ l. 4 * length rest ≤ length l) (sym grown.supply) memory;
        others = grown.others;
      },
    )

-- A nest cut between two nodes, and the children of the second node adopted.
pub divide :
    (o h a k : ℕ) (parent p x : Ptr) (s s2 : Store) (l b : Node) (R es : Entries) (below : List Ptr)
    → 0 < o
    → a < length R
    → Nest (Linked o h p s) (first_pointer l) R es below
    → HasShape o parent l
    → HasShape o parent b
    → l.is_leaf ≡ false
    → b.is_leaf ≡ false
    → rest_of l ≡ take a R
    → first_pointer b ≡ pointer_at a R
    → rest_of b ≡ drop (suc a) R
    → k ≡ key_at a R
    → ((y : Ptr) → y ≢ x → s2.nodes y ≡ s.nodes y)
    → Holds (put p l s2) p l
    → Holds (put x b (put p l s2)) x b
    → Distinct (p ∷ below)
    → NotIn x (p ∷ below)
    → (s' : Store) × (adopt (b.num_keys + 1) x 0 (put x b (put p l s2)) ≡ done tt s')
      × Kept s2 s'
      × ((y : Ptr) → (In y (p ∷ below) → ⊥) → y ≢ x → s'.nodes y ≡ s.nodes y)
      × Divided o (suc h) parent s' p x (p ∷ below) (x ∷ []) k es
divide o h a k parent p x s s2 l b R es below wide inside nest sl sb il ib rl fb rb sep others hp hx
      (p_new, d) (x_p, x_new) =
    let fam = Linked-Family o h p in
    let fam' = Linked-Family o h x in
    let (left, right, ln, rn, ee, en, nl, under, from, nr) =
      Nest-cut (Linked o h p s) (first_pointer l) a R es below (fam.filled s) inside nest in
    let t = put x b (put p l s2) in
    let kept_in : (y : Ptr) → In y below → t.nodes y ≡ s.nodes y = λ y i.
      let y_x : y ≢ x = λ e. NotIn-not x below x_new (rw e at i) in
      let y_p : y ≢ p = λ e. NotIn-not p below p_new (rw e at i) in
      put_ne (put p l s2) x y b y_x ∙ put_ne s2 p y l y_p ∙ others y y_x in
    let d' : Distinct (ln ++ rn) = rw en at d in
    let in_l : (y : Ptr) → In y ln → In y below = λ y i. rw en (In-append_left y ln rn i) in
    let in_r : (y : Ptr) → In y rn → In y below = λ y i. rw en (In-append_right y ln rn i) in
    let nl' : Nest (Linked o h p t) (first_pointer l) (rest_of l) left ln = rw rl (
      Nest-same (Linked o h p) s t (first_pointer l) (take a R) left ln fam
        (λ y i. kept_in y (in_l y i)) nl) in
    let nr' : Nest (Linked o h p t) (first_pointer b) (rest_of b) right rn =
      rw (fb, rb)
        (Nest-same (Linked o h p) s t (pointer_at a R) (drop (suc a) R) right rn fam
          (λ y i. kept_in y (in_r y i)) nr) in
    let size = sb.count in
    let bk = sb.arrays.keys in
    let bp = sb.arrays.pointers in
    let ld = length-drop 1 b.pointers in
    let lr : length (rest_of b) ≡ b.num_keys =
      length-pairs b.num_keys b.keys (drop 1 b.pointers) (omega arith) (omega arith) in
    let rounds : suc (length (rest_of b)) ≡ b.num_keys + 1 = omega arith in
    let (s', run, nr2, rest_same, kept) =
      adopt-Nest o h p x 0 t b (first_pointer b) (rest_of b) right rn hx
        (λ i. NotIn-not x below x_new (in_r x i)) (Distinct-right ln rn d') (omega arith)
        (λ v le.
          let z : 0 + v ≡ v = omega arith in
          ap (λ i. get_or b.pointers i 0) z
          ∙ sym (
              pointers-pairs b.num_keys b.keys b.pointers v (omega arith) (omega arith)
                (omega arith)))
        nr' in
    let p_out : In p rn → ⊥ = λ i. NotIn-not p below p_new (in_r p i) in
    let x_out : In x rn → ⊥ = λ i. NotIn-not x below x_new (in_r x i) in
    let hp' : Holds s' p l =
      Holds-same (rest_same p p_out) (put-Holds_ne b hp (λ e. x_p (sym e))) in
    let hx' : Holds s' x b = Holds-same (rest_same x x_out) hx in
    let apart = Distinct-Disjoint ln rn d' in
    (
      s',
      rw rounds at run,
      record {
        order = kept.order;
        free_nodes = kept.free_nodes;
        records = kept.records;
        free_recs = kept.free_recs;
        supply = kept.supply;
      },
      (λ y out y_x.
          rest_same y (λ i. out (inr (in_r y i)))
          ∙ put_ne (put p l s2) x y b y_x
          ∙ put_ne s2 p y l (λ e. out (inl e))
          ∙ others y y_x),
      record {
        left = left;
        right = right;
        ln = p ∷ ln;
        rn = x ∷ rn;
        at_left = (
          l,
          ln,
          hp',
          il,
          sl,
          refl,
          Nest-same (Linked o h p) t s' (first_pointer l) (rest_of l) left ln fam
              (λ y i. rest_same y (λ j. apart y i j)) nl',
        );
        at_right = (b, rn, hx', ib, sb, refl, nr2);
        all = ee;
        below = rw sep under;
        from = rw sep from;
        distinct =
            Distinct-both (p ∷ ln) (x ∷ rn)
              (not-NotIn p ln (λ i. NotIn-not p below p_new (in_l p i)), Distinct-left ln rn d')
              (not-NotIn x rn x_out, Distinct-right ln rn d')
              (meet ln rn x_p p_out (λ i. NotIn-not x below x_new (in_l x i)) apart);
        grows = λ y i. elim (In-append y (p ∷ ln) (x ∷ rn) i) [
          | inl j ↦ inl (elim j [ inl e ↦ inl e | inr m ↦ inr (in_l y m) ])
          | inr j ↦ elim j [ inl e ↦ inr (inl e) | inr m ↦ inl (inr (in_r y m)) ]
        ];
      },
    )
  where
    meet :
        (ln rn : List Ptr)
        → x ≢ p
        → (In p rn → ⊥)
        → (In x ln → ⊥)
        → Disjoint ln rn
        → Disjoint (p ∷ ln) (x ∷ rn)
    meet ln rn x_p p_out x_out apart y (inl e) (inl e') = x_p (sym e' ∙ e)
    meet ln rn x_p p_out x_out apart y (inl e) (inr j) = p_out (rw e at j)
    meet ln rn x_p p_out x_out apart y (inr i) (inl e') = x_out (rw e' at i)
    meet ln rn x_p p_out x_out apart y (inr i) (inr j) = apart y i j
