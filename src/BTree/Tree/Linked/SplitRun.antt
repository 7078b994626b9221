-- ===== src/BTree/Tree/Linked/SplitRun.antt =====
-- The run of `insert_into_node_after_splitting` up to its last call.
use nu_ksm_pact21_artifact.Base.{
  ℕ, ◌+◌, ◌-◌, ◌*◌, ◌^◌, ◌≤◌, ◌<◌, ◌≡◌, ◌≢◌, refl, sym, List, ◌∷◌, arith, length, get_or, set,
  replicate, length-replicate,
}
use nu_ksm_pact21_artifact.BTree.Store.{Ptr, Node, Store, done, put, add64, get_pointer, get_key}
use nu_ksm_pact21_artifact.BTree.Store.Laws.{
  Holds, put-Holds, put-Holds_ne, put-put, at_lem, write_at_lem, load_lem, get_key_lem,
  get_pointer_lem, set_pointer_lem, set_num_keys_lem, set_parent_lem,
}
use nu_ksm_pact21_artifact.BTree.Alloc.{make_node}
use nu_ksm_pact21_artifact.BTree.Alloc.Leaves.{allocate_lem}
use nu_ksm_pact21_artifact.BTree.Find.{cut}
use nu_ksm_pact21_artifact.BTree.Insert.{split_node}
use nu_ksm_pact21_artifact.BTree.Entries.{adopt}
use nu_ksm_pact21_artifact.BTree.Entries.Copy.{
  copied, length-copied, fill_entries-copied, spreaded, length-spreaded,
}
use nu_ksm_pact21_artifact.BTree.Entries.Children.{spread-spreaded}
use nu_ksm_pact21_artifact.BTree.Tree.Split.{cut-bounds, temporary, length-temporary, HasArrays}

-- The two nodes, once `ks` and `ps` are the temporary arrays and `h` is where they are cut.
abbrev pub left_node : ℕ → List ℕ → List Ptr → Node → Node
left_node h ks ps n = record n {
  keys = copied (h - 1) ks 0 n.keys 0;
  pointers = set (copied (h - 1) ps 0 n.pointers 0) (h - 1) (get_or ps (h - 1) 0);
  num_keys = h - 1;
}

abbrev pub right_node : ℕ → ℕ → Ptr → List ℕ → List Ptr → Node → Node
right_node o h parent ks ps b = record b {
  keys = copied (o - h) ks h b.keys 0;
  pointers = set (copied (o - h) ps h b.pointers 0) (o - h) (get_or ps o 0);
  num_keys = o - h;
  parent = parent;
}

-- The store after the allocation of the temporary arrays.
abbrev pub with_arrays : List Ptr → Store → Store
with_arrays rest s = record s {
  supply = rest;
  allocator_stat = add64 (add64 s.allocator_stat ((s.order + 1) * 8)) (s.order * 8);
}

pub split_node-run :
    (g key : ℕ) (right old new p q : Ptr) (rest : List Ptr) (s s2 s4 : Store) (n b : Node)
    → s.supply ≡ p ∷ q ∷ rest
    → make_node (with_arrays rest s) ≡ done new s2
    → Holds s old n
    → Holds s2 old n
    → Holds s2 new b
    → old ≢ new
    → HasArrays s.order n
    → HasArrays s.order b
    → n.num_keys ≡ s.order - 1
    → b.num_keys ≡ 0
    → g ≤ n.num_keys
    → 2 < s.order
    → s.order < 2 ^ 64
    → let o = s.order in
      let h = cut o in
      let ks = temporary g key n.num_keys n.keys o in
      let ps = temporary (g + 1) right (n.num_keys + 1) n.pointers (o + 1) in
      adopt
          (o - h + 1)
          new
          0
          (put new (right_node o h n.parent ks ps b) (put old (left_node h ks ps n) s2))
        ≡ done tt s4
      → split_node old g key right s ≡ done (get_or ks (h - 1) 0, new) s4
unfolding split_node
split_node-run g key right old new p q rest s s2 s4 n b supply made ho ho2 hn ne an ab full empty le
      wide word adopted =
    let o = s.order in
    let h = cut o in
    let (some_left, some_right) = cut-bounds o (omega arith) in
    let m = n.num_keys in
    let keys = an.keys in
    let pointers = an.pointers in
    let keys_b = ab.keys in
    let pointers_b = ab.pointers in
    let k0 : List ℕ = replicate o 0 in
    let lk : length k0 ≡ o = length-replicate o 0 in
    let p0 : List Ptr = replicate (o + 1) 0 in
    let lp : length p0 ≡ o + 1 = length-replicate (o + 1) 0 in
    let ks = temporary g key m n.keys o in
    let ps = temporary (g + 1) right (m + 1) n.pointers (o + 1) in
    let lks = length-temporary g key m n.keys o in
    let lps = length-temporary (g + 1) right (m + 1) n.pointers (o + 1) in
    let t2 = with_arrays rest s in
    let ho1 : Holds t2 old n = record { ne_null = ho.ne_null; holds = ho.holds } in
    let n1 = record n { num_keys = 0 } in
    let h1 = put-Holds s2 n1 ho2.ne_null in
    let n2 = record n1 {
      keys = copied (h - 1) ks 0 n.keys 0;
      pointers = copied (h - 1) ps 0 n.pointers 0;
      num_keys = h - 1;
    } in
    let h2 : Holds (put old n2 s2) old n2 = put-Holds s2 n2 ho2.ne_null in
    let n3 = left_node h ks ps n in
    let t3 = put old n3 s2 in
    let hn3 : Holds t3 new b = put-Holds_ne n3 hn (λ e. ne (sym e)) in
    let b1 = record b {
      keys = copied (o - h) ks h b.keys 0;
      pointers = copied (o - h) ps h b.pointers 0;
      num_keys = o - h;
    } in
    let hb1 : Holds (put new b1 t3) new b1 = put-Holds t3 b1 hn.ne_null in
    let b2 = record b1 { pointers = set b1.pointers (o - h) (get_or ps o 0) } in
    let hb2 : Holds (put new b2 t3) new b2 = put-Holds t3 b2 hn.ne_null in
    let b3 = right_node o h n.parent ks ps b in
    let hb3 : Holds (put new b3 t3) new b3 = put-Holds t3 b3 hn.ne_null in
    let h3 : Holds (put new b2 t3) old n3 = put-Holds_ne b2 (put-Holds s2 n3 ho2.ne_null) ne in
    let ln2 = length-copied (h - 1) ps 0 n.pointers 0 in
    let lb1 = length-copied (o - h) ps h b.pointers 0 in
    let left_count : 0 + (h - 1) ≡ h - 1 = omega arith in
    let right_count : b.num_keys + (o - h) ≡ o - h = omega arith in
    rw
      (
        allocate_lem ((o + 1) * 8) s p (q ∷ rest) supply,
        load_lem ho1,
        spread-spreaded (m + 1) (g + 1) 0 0 (get_pointer old) n.pointers p0 t2
            (λ t lt. get_pointer_lem ho1 t (omega arith)) (ground arith) (omega arith),
        spread-spreaded m g 0 0 (get_key old) n.keys k0 t2 (λ t lt. get_key_lem ho1 t (omega arith))
            (ground arith) (omega arith),
        write_at_lem (spreaded (m + 1) n.pointers (g + 1) 0 p0) (g + 1) right t2
            (omega (arith, length-spreaded (m + 1) n.pointers (g + 1) 0 p0)),
        write_at_lem (spreaded m n.keys g 0 k0) g key t2
            (omega (arith, length-spreaded m n.keys g 0 k0)),
        made,
        set_num_keys_lem ho2 0,
        fill_entries-copied (h - 1) ks ps 0 0 h1 (omega arith) (omega arith) (omega arith)
            (omega arith) (omega arith),
        left_count,
        put-put s2 old n2 n1,
        at_lem ps (h - 1) 0 (put old n2 s2) (omega arith),
        set_pointer_lem h2 (h - 1) (get_or ps (h - 1) 0) (omega arith),
        put-put s2 old n3 n2,
        at_lem ks (h - 1) 0 t3 (omega arith),
        fill_entries-copied (o - h) ks ps h 0 hn3 (omega arith) (omega arith) (omega arith)
            (omega arith) (omega arith),
        right_count,
        at_lem ps o 0 (put new b1 t3) (omega arith),
        set_pointer_lem hb1 (o - h) (get_or ps o 0) (omega arith),
        put-put t3 new b2 b1,
        load_lem h3,
        set_parent_lem hb2 n.parent,
        put-put t3 new b3 b2,
        load_lem hb3,
        adopted,
      )
      refl
