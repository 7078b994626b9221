-- ===== src/BTree/Tree/Descent.antt =====
-- The descent of `find_leaf` to the leaf that is about to change: where it ends, and what the whole tree is after the
-- leaf at its end has been edited.
use nu_ksm_pact21_artifact.Base.{
  ℕ, zero, suc, ◌<◌, ◌≡◌, refl, sym, ap, ◌∙◌, inl, inr, List, [], ◌∷◌, arith, leb, Bool-cases,
  length, get_or,
}
use nu_ksm_pact21_artifact.BTree.Store.{Ptr, Node, Store, done}
use nu_ksm_pact21_artifact.BTree.Store.Laws.{load_lem, get_pointer_lem}
use nu_ksm_pact21_artifact.BTree.Find.{find_leaf_from}
use nu_ksm_pact21_artifact.BTree.Entries.Scan.{scan, scan_keys_lem}
use nu_ksm_pact21_artifact.BTree.Tree.{Leaf}
use nu_ksm_pact21_artifact.BTree.Tree.Edit.{Entries, Edit}
use nu_ksm_pact21_artifact.BTree.Tree.Owned.{
  In, Distinct, Agree, AgreeBut, In-append_left, In-append_right, NotIn-In, Distinct-append,
  Agree-append, Agree-AgreeBut, Owns, InnerNode, InnerNode-same, Owned, Owned-Agree, Owns-Agree,
  Leaf-same,
}

-- The leaf at the end of the descent from `p`, the same in both stores; and that `T` holds of every
-- store that differs from the second in this leaf only, which has the edited entries there.
abbrev pub Descent :
    Store → Store → ℕ → (Entries → Entries) → ℕ → Ptr → List Ptr → (Store → Type 0) → Type 0
Descent s s' key f fuel p ns T =
    (leaf : Ptr) × (part : List (ℕ × Ptr)) × (n : Node) × Leaf s leaf part n
    × In leaf ns
    × (find_leaf_from fuel p key s ≡ done leaf s)
    × (find_leaf_from fuel p key s' ≡ done leaf s')
    × ((after : Store) (m : Node) → Leaf after leaf (f part) m → AgreeBut leaf s after → T after)

abbrev DescentAt : Store → Store → ℕ → (Entries → Entries) → ℕ → ℕ → Type 0
DescentAt s s' key f h fuel =
    (p : Ptr) (es : List (ℕ × Ptr)) (ns : List Ptr)
    → Agree s s' ns
    → Distinct ns
    → Owned s h p es ns
    → Descent s s' key f fuel p ns (λ after. Owned after h p (f es) ns)

-- The child that the scan selects.
Owns-descent :
    (s s' : Store) (key : ℕ) (f : Entries → Entries) (h fuel m : ℕ) (ks : List ℕ) (ps : List Ptr)
    (es : List (ℕ × Ptr)) (ns : List Ptr)
    → Edit key f
    → DescentAt s s' key f h fuel
    → Agree s s' ns
    → Distinct ns
    → Owns (Owned s h) m ks ps es ns
    → let i = scan (λ k. leb k key) m ks in
      (i < length ps)
      × Descent s s' key f fuel (get_or ps i 0) ns (λ after. Owns (Owned after h) m ks ps (f es) ns)
unfolding scan
Owns-descent s s' key f h fuel zero ks [] es ns edit ih a d c = absurd c
Owns-descent s s' key f h fuel zero ks (p ∷ ps) es ns edit ih a d c =
    (omega arith, ih p es ns a d c)
Owns-descent s s' key f h fuel (suc m) [] ps es ns edit ih a d c = absurd c
Owns-descent s s' key f h fuel (suc m) (k ∷ ks) [] es ns edit ih a d c = absurd c
Owns-descent s s' key f h fuel (suc m) (k ∷ ks) (p ∷ ps) es ns edit ih a d
      (left, right, ln, rn, ee, en, t, below, from, rest) =
    let apart = Distinct-append ln rn (rw (← en) d) in
    let (al, ar) = Agree-append s s' ln rn (rw (← en) a) in
    elim (Bool-cases (leb k key)) [
      | inl on ↦
          let (inside, (leaf, part, n, l, here, run, run', back)) =
            Owns-descent s s' key f h fuel m ks ps right rn edit ih ar apart.right rest in
          rw on (
            omega arith,
            (
              leaf,
              part,
              n,
              l,
              rw en (In-append_right leaf ln rn here),
              run,
              run',
              λ after m' l' same. (
                left,
                f right,
                ln,
                rn,
                ap f ee ∙ edit.right k left right (ground arith) below,
                en,
                Owned-Agree s after h p left ln
                    (Agree-AgreeBut leaf s after ln same (apart.not_left leaf here)) t,
                below,
                edit.from k right (ground arith) from,
                back after m' l' same,
              ),
            ),
          )
      | inr off ↦
          let (leaf, part, n, l, here, run, run', back) = ih p left ln al apart.left t in
          rw off (
            omega arith,
            (
              leaf,
              part,
              n,
              l,
              rw en (In-append_left leaf ln rn here),
              run,
              run',
              λ after m' l' same. (
                f left,
                right,
                ln,
                rn,
                ap f ee ∙ edit.left k left right (ground arith) from,
                en,
                back after m' l' same,
                edit.below k left (ground arith) below,
                from,
                Owns-Agree s after h m ks ps right rn (Owned-Agree s after h)
                    (Agree-AgreeBut leaf s after rn same (apart.not_right leaf here)) rest,
              ),
            ),
          )
    ]

pub find_leaf_from-descent :
    (s s' : Store) (key : ℕ) (f : Entries → Entries) (h fuel : ℕ)
    → Edit key f
    → h < fuel
    → DescentAt s s' key f h fuel
unfolding find_leaf_from
find_leaf_from-descent s s' key f zero zero edit lt p es ns a d t = absurd (omega arith)
find_leaf_from-descent s s' key f zero (suc fuel) edit lt p es ns a d (n, l, e) =
    let (here, none) = rw e at a in
    let l' : Leaf s' p es n = Leaf-same here l in
    (
      p,
      es,
      n,
      l,
      rw e (inl refl),
      rw (load_lem l.at, l.is_leaf) refl,
      rw (load_lem l'.at, l.is_leaf) refl,
      λ after m l'' same. (m, l'', e),
    )
find_leaf_from-descent s s' key f (suc h) zero edit lt p es ns a d t = absurd (omega arith)
find_leaf_from-descent s s' key f (suc h) (suc fuel) edit lt p es ns a d (n, below, node, e, c) =
    let (here, al) = rw e at a in
    let (fresh, dl) = rw e at d in
    let node' : InnerNode s' p n = InnerNode-same here node in
    let i = scan (λ k. leb k key) n.num_keys n.keys in
    let (inside, (leaf, part, n', l, there, run, run', back)) =
      Owns-descent s s' key f h fuel n.num_keys n.keys n.pointers es below edit
        (find_leaf_from-descent s s' key f h fuel edit (omega arith)) al dl c in
    (
      leaf,
      part,
      n',
      l,
      rw e (inr there),
      rw
          (
            load_lem node.at,
            node.not_leaf,
            scan_keys_lem (λ k. leb k key) node.at node.keys,
            get_pointer_lem node.at i inside,
          )
          run,
      rw
          (
            load_lem node'.at,
            node.not_leaf,
            scan_keys_lem (λ k. leb k key) node'.at node.keys,
            get_pointer_lem node'.at i inside,
          )
          run',
      λ after m l' same. (
        n,
        below,
        InnerNode-same (same p (λ eq. NotIn-In leaf p below fresh there (sym eq))) node,
        e,
        back after m l' same,
      ),
    )
