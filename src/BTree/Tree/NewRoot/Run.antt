-- ===== src/BTree/Tree/NewRoot/Run.antt =====
-- The run of `insert_into_new_root`.
use nu_ksm_pact21_artifact.Base.{
  ℕ, zero, suc, ◌-◌, ◌<◌, ◌≡◌, ◌≢◌, refl, sym, List, ◌∷◌, arith, set, replicate, length-set,
  length-replicate,
}
use nu_ksm_pact21_artifact.BTree.Store.{Ptr, null, Node, Store, done, put}
use nu_ksm_pact21_artifact.BTree.Store.Laws.{
  Holds, put-Holds, put-Holds_ne, put-put, load_lem, set_key_lem, set_pointer_lem, set_num_keys_lem,
  set_parent_lem,
}
use nu_ksm_pact21_artifact.BTree.Alloc.{make_node}
use nu_ksm_pact21_artifact.BTree.Alloc.Leaves.{new_node}
use nu_ksm_pact21_artifact.BTree.Insert.{insert_into_new_root}

-- The arrays of the new root.
pub keys_shape : (o key : ℕ) → 1 < o → (ks : List ℕ) × (set (replicate (o - 1) 0) 0 key ≡ key ∷ ks)
keys_shape zero key h = absurd (omega arith)
keys_shape (suc zero) key h = absurd (omega arith)
keys_shape (suc (suc o)) key h =
    let e : suc (suc o) - 1 ≡ suc o = omega arith in (replicate o 0, rw e refl)

pub pointers_shape :
    (o : ℕ) (l r : Ptr)
    → 1 < o
    → (ps : List Ptr) × (set (set (replicate o null) 0 l) 1 r ≡ l ∷ r ∷ ps)
pointers_shape zero l r h = absurd (omega arith)
pointers_shape (suc zero) l r h = absurd (omega arith)
pointers_shape (suc (suc o)) l r h = (replicate o null, refl)

-- The root's node at the end.
abbrev pub root_node : ℕ → Ptr → ℕ → Ptr → Node
root_node o left key right = record (new_node o) {
  keys = set (replicate (o - 1) 0) 0 key;
  pointers = set (set (replicate o null) 0 left) 1 right;
  num_keys = 1;
}

-- The run, once `make_node` has returned `root`.
pub new_root-run :
    (key : ℕ) (left right root : Ptr) (s s1 : Store) (o : ℕ) (l r : Node)
    → make_node s ≡ done root s1
    → Holds s1 root (new_node o)
    → Holds s1 left l
    → Holds s1 right r
    → left ≢ root
    → right ≢ root
    → left ≢ right
    → 1 < o
    → insert_into_new_root left key right s
      ≡ done root (
          put right
            (record r { parent = root })
            (put left (record l { parent = root }) (put root (root_node o left key right) s1)))
unfolding insert_into_new_root
new_root-run key left right root s s1 o l r made hn hl hr nl nr ne wide =
    let n0 = new_node o in
    let lk = length-replicate {A = ℕ} (o - 1) 0 in
    let lp = length-replicate {A = ℕ} o null in
    let n1 = record n0 { keys = set n0.keys 0 key } in
    let h1 : Holds (put root n1 s1) root n1 = put-Holds s1 n1 hn.ne_null in
    let n2 = record n1 { pointers = set n1.pointers 0 left } in
    let lp2 = length-set n1.pointers 0 left in
    let h2 : Holds (put root n2 s1) root n2 = put-Holds s1 n2 hn.ne_null in
    let n3 = record n2 { pointers = set n2.pointers 1 right } in
    let h3 : Holds (put root n3 s1) root n3 = put-Holds s1 n3 hn.ne_null in
    let n4 = root_node o left key right in
    let h4 : Holds (put root n4 s1) root n4 = put-Holds s1 n4 hn.ne_null in
    let s2 = put root n4 s1 in
    let hl2 : Holds s2 left l = put-Holds_ne n4 hl nl in
    let l' = record l { parent = root } in
    let hr2 : Holds (put left l' s2) right r =
      put-Holds_ne l' (put-Holds_ne n4 hr nr) (λ e. ne (sym e)) in
    rw
      (
        made,
        set_key_lem hn 0 key (omega arith),
        set_pointer_lem h1 0 left (omega arith),
        put-put s1 root n2 n1,
        set_pointer_lem h2 1 right (omega arith),
        put-put s1 root n3 n2,
        load_lem h3,
        set_num_keys_lem h3 1,
        put-put s1 root n4 n3,
        set_parent_lem h4 null,
        put-put s1 root n4 n4,
        set_parent_lem hl2 root,
        set_parent_lem hr2 root,
      )
      refl
