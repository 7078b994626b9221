-- ===== src/BTree/Tree/NewRoot.antt =====
-- `insert_into_new_root`: two trees under a new root.
pub mod Run
use nu_ksm_pact21_artifact.Base.{
  ℕ, zero, suc, ◌+◌, ◌-◌, ◌*◌, ◌^◌, ◌≤◌, ◌<◌, ◌≡◌, ◌≢◌, refl, sym, ap, ◌∙◌, true, false, inl, inr,
  some, List, [], ◌∷◌, ◌++◌, arith, ◌==◌, if◌then◌else◌, length, set, replicate, length-set,
  length-replicate,
}
use nu_ksm_pact21_artifact.BTree.Store.{Ptr, null, Node, Store, done, put, add64}
use nu_ksm_pact21_artifact.BTree.Store.Laws.{
  Holds, put-Holds, put-Holds_ne, put-put, load_lem, set_key_lem, set_pointer_lem, set_num_keys_lem,
  set_parent_lem,
}
use nu_ksm_pact21_artifact.BTree.Alloc.{make_node}
use nu_ksm_pact21_artifact.BTree.Alloc.Leaves.{new_node, Grown, make_node-Grown}
use nu_ksm_pact21_artifact.BTree.Insert.{insert_into_new_root}
use nu_ksm_pact21_artifact.BTree.Tree.{AllBelow, AllFrom, Leaf}
use nu_ksm_pact21_artifact.BTree.Tree.Edit.{Entries}
use nu_ksm_pact21_artifact.BTree.Tree.NewRoot.Run.{
  keys_shape, pointers_shape, root_node, new_root-run,
}
use nu_ksm_pact21_artifact.BTree.Tree.Owned.{
  In, NotIn, Distinct, Agree, AgreeBut, NotIn-In, NotIn-append, Apart, Distinct-append,
  Agree-AgreeBut, Owns, InnerNode, Owned, Owned-Agree, Owns-Agree,
}

-- A tree does not depend on the parent of its root.
abbrev Reparented : Store → ℕ → Ptr → Entries → List Ptr → Ptr → Type 0
Reparented s h p es ns q =
    (n : Node) × Holds s p n
    × In p ns
    × ((after : Store)
        → Holds after p (record n { parent = q })
        → AgreeBut p s after
        → Owned after h p es ns)

Owned-Reparented :
    (s : Store) (h : ℕ) (p : Ptr) (es : Entries) (ns : List Ptr) (q : Ptr)
    → Distinct ns
    → Owned s h p es ns
    → Reparented s h p es ns q
Owned-Reparented s zero p es ns q d (n, l, e) = (
  n,
  l.at,
  rw e (inl refl),
  λ after held same. (
    record n { parent = q },
    record {
      at = held;
      is_leaf = l.is_leaf;
      keys = l.keys;
      pointers = l.pointers;
      entries = l.entries;
    },
    e,
  ),
)
Owned-Reparented s (suc h) p es ns q d (n, below, node, e, c) =
    let (fresh, rest) = rw e at d in
    (
      n,
      node.at,
      rw e (inl refl),
      λ after held same. (
        record n { parent = q },
        below,
        record { at = held; not_leaf = node.not_leaf; keys = node.keys },
        e,
        Owns-Agree s after h n.num_keys n.keys n.pointers es below (Owned-Agree s after h)
            (Agree-AgreeBut p s after below same fresh) c,
      ),
    )

Agree-each :
    (s s' : Store) (xs : List Ptr) → ((x : Ptr) → In x xs → s'.nodes x ≡ s.nodes x) → Agree s s' xs
Agree-each s s' [] h = tt
Agree-each s s' (x ∷ xs) h = (h x (inl refl), Agree-each s s' xs (λ y i. h y (inr i)))

eq_ne : (a b : Ptr) → a ≢ b → (a == b) ≡ false
eq_ne a b h = ground arith

-- A tree in the store `s1` after its root has a new parent and two nodes outside it have changed.
reparented :
    (s1 after : Store) (h : ℕ) (p root : Ptr) (es : Entries) (ns : List Ptr) (n : Node)
    → Holds s1 p n
    → ((after : Store)
        → Holds after p (record n { parent = root })
        → AgreeBut p s1 after
        → Owned after h p es ns)
    → ((x : Ptr) → In x ns → after.nodes x ≡ (put p (record n { parent = root }) s1).nodes x)
    → Owned after h p es ns
reparented s1 after h p root es ns n held back same =
    let m = record n { parent = root } in
    let between = put p m s1 in
    Owned-Agree between after h p es ns (Agree-each between after ns same)
      (back between (put-Holds s1 m held.ne_null) (λ q ne. rw (eq_ne q p ne) refl))

under_root :
    (key h : ℕ) (left right root : Ptr) (s1 : Store) (o : ℕ) (les res : Entries) (ln rn : List Ptr)
    (l r : Node)
    → (root ≢ null)
    → Holds s1 left l
    → Holds s1 right r
    → In left ln
    → In right rn
    → Distinct (root ∷ (ln ++ rn))
    → ((after : Store)
        → Holds after left (record l { parent = root })
        → AgreeBut left s1 after
        → Owned after h left les ln)
    → ((after : Store)
        → Holds after right (record r { parent = root })
        → AgreeBut right s1 after
        → Owned after h right res rn)
    → AllBelow key les
    → AllFrom key res
    → 1 < o
    → let after =
        put right
          (record r { parent = root })
          (put left (record l { parent = root }) (put root (root_node o left key right) s1)) in
      Owned after (suc h) root (les ++ res) (root ∷ (ln ++ rn))
under_root key h left right root s1 o les res ln rn l r there hl hr il ir (fresh, d) backl backr
      below from wide =
    let apart = Distinct-append ln rn d in
    let (root_l, root_r) = NotIn-append root ln rn fresh in
    let l' = record l { parent = root } in
    let r' = record r { parent = root } in
    let n = root_node o left key right in
    let after = put right r' (put left l' (put root n s1)) in
    let (ks, keys) = keys_shape o key wide in
    let (ps, pointers) = pointers_shape o left right wide in
    let root_left = eq_ne root left (λ e. NotIn-In left root ln root_l il (sym e)) in
    let root_right = eq_ne root right (λ e. NotIn-In right root rn root_r ir (sym e)) in
    let self : (root == root) ≡ true = ground arith in
    let tl : Owned after h left les ln = reparented s1 after h left root les ln l hl backl (λ x i.
      rw
        (
          eq_ne x right (NotIn-In x right ln (apart.not_left right ir) i),
          eq_ne x root (NotIn-In x root ln root_l i),
        )
        refl) in
    let tr : Owned after h right res rn = reparented s1 after h right root res rn r hr backr (λ x i.
      rw
        (
          eq_ne x left (NotIn-In x left rn (apart.not_right left il) i),
          eq_ne x root (NotIn-In x root rn root_r i),
        )
        refl) in
    let children : Owns (Owned after h) 1 (key ∷ ks) (left ∷ right ∷ ps) (les ++ res) (ln ++ rn) =
      (les, res, ln, rn, refl, refl, tl, below, from, tr) in
    (
      n,
      ln ++ rn,
      record {
        at = record { ne_null = there; holds = rw (root_right, root_left, self) refl };
        not_leaf = refl;
        keys = rw keys (omega arith);
      },
      refl,
      rw (keys, pointers) children,
    )

-- Two trees of one height, all of whose nodes are at different addresses, also from that of a free
-- node; a key that is greater than all keys of the left tree and not greater than any of the right;
-- an order of at least 2, and memory for two arrays. Then `insert_into_new_root` returns the free
-- node; it leads to a tree one level higher with the entries of the two trees one after the other,
-- over their nodes and the new one; and both old roots have it as their parent.
pub insert_into_new_root-Owned :
    (key h : ℕ) (left right : Ptr) (s : Store) (les res : Entries) (ln rn : List Ptr) (b : Node)
    (p q : Ptr) (rest : List Ptr)
    → Owned s h left les ln
    → Owned s h right res rn
    → Distinct (s.free_nodes ∷ (ln ++ rn))
    → AllBelow key les
    → AllFrom key res
    → Holds s s.free_nodes b
    → s.supply ≡ p ∷ q ∷ rest
    → 1 < s.order
    → (after : Store) × (insert_into_new_root left key right s ≡ done s.free_nodes after)
      × Owned after (suc h) s.free_nodes (les ++ res) (s.free_nodes ∷ (ln ++ rn))
      × (l : Node) × (r : Node) × (after.nodes left ≡ some l)
      × (after.nodes right ≡ some r)
      × (l.parent ≡ s.free_nodes)
      × (r.parent ≡ s.free_nodes)
insert_into_new_root-Owned key h left right s les res ln rn b p q rest below_left below_right
      (fresh, d) below from free memory wide =
    let root = s.free_nodes in
    let (s1, made, g) = make_node-Grown s b p q rest free memory in
    let (root_l, root_r) = NotIn-append root ln rn fresh in
    let apart = Distinct-append ln rn d in
    let tl1 =
      Owned-Agree s s1 h left les ln (Agree-AgreeBut root s s1 ln g.others root_l) below_left in
    let tr1 =
      Owned-Agree s s1 h right res rn (Agree-AgreeBut root s s1 rn g.others root_r) below_right in
    let (l, hl, il, backl) = Owned-Reparented s1 h left les ln root apart.left tl1 in
    let (r, hr, ir, backr) = Owned-Reparented s1 h right res rn root apart.right tr1 in
    let l' = record l { parent = root } in
    let r' = record r { parent = root } in
    let ne = NotIn-In left right ln (apart.not_left right ir) il in
    let after = put right r' (put left l' (put root (root_node s.order left key right) s1)) in
    let self : (left == left) ≡ true = ground arith in
    let self' : (right == right) ≡ true = ground arith in
    (
      after,
      new_root-run key left right root s s1 s.order l r made g.at hl hr
          (NotIn-In left root ln root_l il) (NotIn-In right root rn root_r ir) ne wide,
      under_root key h left right root s1 s.order les res ln rn l r free.ne_null hl hr il ir
          (fresh, d) backl backr below from wide,
      l',
      r',
      rw (eq_ne left right ne, self) refl,
      rw self' refl,
      refl,
      refl,
    )
