-- ===== src/BTree/Map/FirstLeaf.antt =====
-- `start_new_tree`: the tree of one leaf.
use mathlib.Core.Path.{subst}
use nu_ksm_pact21_artifact.Base.{
  ℕ, zero, suc, ◌-◌, ◌*◌, ◌^◌, ◌≤◌, ◌<◌, ◌≡◌, ◌≢◌, refl, sym, ap, ◌∙◌, inl, inr, List, [], ◌∷◌,
  arith, length, set, replicate, length-set, length-replicate,
}
use nu_ksm_pact21_artifact.BTree.Store.{Ptr, null, Node, Store, done, put}
use nu_ksm_pact21_artifact.BTree.Store.Laws.{
  Holds, put-Holds, put-put, load_lem, set_key_lem, set_pointer_lem, set_num_keys_lem,
  set_parent_lem,
}
use nu_ksm_pact21_artifact.BTree.Alloc.{make_leaf}
use nu_ksm_pact21_artifact.BTree.Alloc.Leaves.{new_leaf, make_leaf-Grown_at}
use nu_ksm_pact21_artifact.BTree.Insert.{start_new_tree}
use nu_ksm_pact21_artifact.BTree.Entries.Leaf.{pairs}
use nu_ksm_pact21_artifact.BTree.Tree.NewRoot.Run.{keys_shape}
use nu_ksm_pact21_artifact.BTree.Tree.Owned.{In, NotIn, Distinct}
use nu_ksm_pact21_artifact.BTree.Tree.Addresses.{NotIn-not}
use nu_ksm_pact21_artifact.BTree.Tree.Linked.{Linked}
use nu_ksm_pact21_artifact.BTree.Tree.Linked.Adopt.{put_ne}
use nu_ksm_pact21_artifact.BTree.Tree.Linked.Ready.{Ready, four_addresses}
use nu_ksm_pact21_artifact.BTree.Tree.Linked.Effects.{Ready-taken}
use nu_ksm_pact21_artifact.BTree.Tree.Linked.Whole.{WellFormed}

-- The only leaf.
abbrev one_leaf : ℕ → ℕ → Ptr → Node
one_leaf o key r = record (new_leaf o) {
  keys = set (replicate (o - 1) 0) 0 key;
  pointers = set (set (replicate o null) 0 r) (o - 1) null;
  num_keys = 1;
}

start_new_tree-run :
    (key : ℕ) (r x : Ptr) (s s1 : Store)
    → make_leaf s ≡ done x s1
    → Holds s1 x (new_leaf s1.order)
    → 2 < s1.order
    → start_new_tree key r s ≡ done x (put x (one_leaf s1.order key r) s1)
unfolding start_new_tree
start_new_tree-run key r x s s1 made hn wide =
    let o = s1.order in
    let n0 = new_leaf o in
    let lk = length-replicate {A = ℕ} (o - 1) 0 in
    let lp = length-replicate {A = ℕ} o null in
    let n1 = record n0 { keys = set n0.keys 0 key } in
    let h1 : Holds (put x n1 s1) x n1 = put-Holds s1 n1 hn.ne_null in
    let n2 = record n1 { pointers = set n1.pointers 0 r } in
    let lp2 = length-set n1.pointers 0 r in
    let h2 : Holds (put x n2 s1) x n2 = put-Holds s1 n2 hn.ne_null in
    let n3 = record n2 { pointers = set n2.pointers (o - 1) null } in
    let h3 : Holds (put x n3 s1) x n3 = put-Holds s1 n3 hn.ne_null in
    let n4 = one_leaf o key r in
    rw
      (
        made,
        set_key_lem hn 0 key (omega arith),
        set_pointer_lem h1 0 r (omega arith),
        put-put s1 x n2 n1,
        set_pointer_lem h2 (o - 1) null (omega arith),
        put-put s1 x n3 n2,
        set_parent_lem h3 null,
        put-put s1 x n3 n3,
        load_lem h3,
        set_num_keys_lem h3 1,
        put-put s1 x n4 n3,
      )
      refl

one_leaf-Linked :
    (o key : ℕ) (r x : Ptr) (s : Store)
    → 2 < o
    → Holds s x (one_leaf o key r)
    → Linked o 0 null s x ((key, r) ∷ []) (x ∷ [])
unfolding pairs
one_leaf-Linked zero key r x s wide held = absurd (omega arith)
one_leaf-Linked (suc zero) key r x s wide held = absurd (omega arith)
one_leaf-Linked (suc (suc o)) key r x s wide held =
    let lk : length (set (replicate (suc (suc o) - 1) 0) 0 key) ≡ suc (suc o) - 1 =
      length-set (replicate (suc (suc o) - 1) 0) 0 key
      ∙ length-replicate {A = ℕ} (suc (suc o) - 1) 0 in
    let ps = set (replicate (suc (suc o)) null) 0 r in
    let lp : length (set ps (suc (suc o) - 1) null) ≡ suc (suc o) =
      length-set ps (suc (suc o) - 1) null
      ∙ length-set (replicate (suc (suc o)) null) 0 r
      ∙ length-replicate {A = ℕ} (suc (suc o)) null in
    let (ks, keys) = keys_shape (suc (suc o)) key (omega arith) in
    let e : suc (suc o) - 1 ≡ suc o = omega arith in
    (
      one_leaf (suc (suc o)) key r,
      record {
        at = held;
        is_leaf = refl;
        keys = omega arith;
        pointers = omega arith;
        entries = sym (
            ap (λ l. pairs 1 l (set ps (suc (suc o) - 1) null)) keys
            ∙ ap (λ i. pairs 1 (key ∷ ks) (set ps i null)) e);
      },
      record {
        arrays = record { keys = lk; pointers = lp };
        parent_is = refl;
        count = omega arith;
      },
      omega arith,
      refl,
    )

-- The tree that `start_new_tree` leaves.
pub started :
    (o key : ℕ) (r x : Ptr) (s : Store) (rest : List Ptr)
    → s.order ≡ o
    → 2 < o
    → o < 2 ^ 64
    → Ready s (x ∷ rest)
    → Distinct (x ∷ rest)
    → (s' : Store) × (start_new_tree key r s ≡ done x s')
      × WellFormed o 0 s' x ((key, r) ∷ []) (x ∷ []) rest
      × (s'.records ≡ s.records)
      × (s'.free_recs ≡ s.free_recs)
started o key r x s rest order wide word ready (x_rest, d) =
    let (e, b, held, chain) = ready.chain in
    let (a1, a2, a3, a4, more, supply, memory) =
      four_addresses s.supply (length rest) ready.memory in
    let (s1, made, grown) = make_leaf-Grown_at s b x a1 a2 (a3 ∷ a4 ∷ more) e held supply in
    let same : s1.order ≡ o = grown.order ∙ order in
    let n = one_leaf o key r in
    let s' = put x n s1 in
    let held' : Holds s' x n = put-Holds s1 n grown.at.ne_null in
    let out : (y : Ptr) → In y rest → y ≢ x = λ y i eq. NotIn-not x rest x_rest (rw eq at i) in
    (
      s',
      subst (λ i. start_new_tree key r s ≡ done x (put x (one_leaf i key r) s1)) same
          (start_new_tree-run key r x s s1 made
            (subst (λ i. Holds s1 x (new_leaf i)) (sym grown.order) grown.at) (omega arith)),
      record {
        order = same;
        wide = wide;
        word = word;
        tree = one_leaf-Linked o key r x s' wide held';
        distinct = (tt, tt);
        sorted = (tt, tt);
        ready =
            Ready-taken s s' b rest chain grown.free
              (λ y i. put_ne s1 x y n (out y i) ∙ grown.others y (out y i))
              (subst (λ v. 4 * length rest ≤ length v) (sym grown.supply) (omega arith));
        free_distinct = d;
        apart = alone x rest x_rest;
      },
      grown.records,
      grown.free_recs,
    )
  where
    alone : (x : Ptr) (rest : List Ptr) → NotIn x rest → (y : Ptr) → In y (x ∷ []) → In y rest → ⊥
    alone x rest x_rest y (inl e) i = NotIn-not x rest x_rest (rw e at i)
    alone x rest x_rest y (inr nowhere) i = absurd nowhere
