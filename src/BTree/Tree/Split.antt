-- ===== src/BTree/Tree/Split.antt =====
-- `insert_into_leaf_after_splitting` up to its last call: what it leaves in the two leaves.
pub mod Lists
pub mod Halves
pub mod Leaves
use nu_ksm_pact21_artifact.Base.{
  ℕ, zero, suc, ◌+◌, ◌-◌, ◌*◌, ◌/◌, ◌%◌, ◌^◌, ◌≤◌, ◌<◌, ◌≡◌, ◌≢◌, refl, sym, ap, ◌∙◌, fun_ext, true,
  false, inl, inr, Option, some, List, [], ◌∷◌, ◌++◌, arith, ltb, leb, ◌==◌, if◌then◌else◌,
  Bool-cases, length, get_or, set, drop, replicate, length-set, length-replicate, get_or-set_ne,
  get_or-set_self,
}
use nu_ksm_pact21_artifact.BTree.Store.{Ptr, null, Node, Store, done, put, update, add64}
use nu_ksm_pact21_artifact.BTree.Store.Laws.{
  Holds, put-Holds, put-Holds_ne, put-put, write_at_lem, load_lem, get_key_lem, get_pointer_lem,
  set_pointer_lem, set_num_keys_lem, set_parent_lem,
}
use nu_ksm_pact21_artifact.BTree.Alloc.{make_leaf}
use nu_ksm_pact21_artifact.BTree.Alloc.Leaves.{new_leaf, Grown, allocate_lem, make_leaf-Grown}
use nu_ksm_pact21_artifact.BTree.Find.{cut, scan_keys}
use nu_ksm_pact21_artifact.BTree.Insert.{split_leaf}
use nu_ksm_pact21_artifact.BTree.Entries.Scan.{scan, scan-le, scan_keys_lem}
use nu_ksm_pact21_artifact.BTree.Entries.Leaf.{pairs, insert_entry}
use nu_ksm_pact21_artifact.BTree.Entries.Copy.{
  copied, length-copied, copied-inside, copied-after, fill_entries-copied, spreaded,
  length-spreaded, spread_entries-spreaded,
}
use nu_ksm_pact21_artifact.BTree.Shrink.Close.{cleared, length-cleared, clear_pointers-cleared}
use nu_ksm_pact21_artifact.BTree.Tree.{Leaf}

pub cut-bounds : (n : ℕ) → 1 < n → (0 < cut n) × (cut n < n)
unfolding cut
cut-bounds n h = ground arith

-- The temporary array with the new element in its gap.
abbrev pub temporary : ℕ → ℕ → ℕ → List ℕ → ℕ → List ℕ
temporary g v n xs size = set (spreaded n xs g 0 (replicate size 0)) g v

pub length-temporary :
    (g v n : ℕ) (xs : List ℕ) (size : ℕ) → length (temporary g v n xs size) ≡ size
length-temporary g v n xs size =
    length-set (spreaded n xs g 0 (replicate size 0)) g v
    ∙ length-spreaded n xs g 0 (replicate size 0)
    ∙ length-replicate size 0

-- The two leaves, once `ks` and `ps` are the temporary arrays, `h` is where they are cut, and `o` is
-- the order.
abbrev pub left_half : ℕ → ℕ → Ptr → List ℕ → List Ptr → Node → Node
left_half o h new ks ps n = record n {
  keys = copied h ks 0 n.keys 0;
  pointers = cleared (set (copied h ps 0 n.pointers 0) (o - 1) new) h (o - 1 - h);
  num_keys = h;
}

abbrev pub right_half : ℕ → ℕ → Ptr → Ptr → List ℕ → List Ptr → Node → Node
right_half o h right parent ks ps b = record b {
  keys = copied (o - h) ks h b.keys 0;
  pointers =
      cleared (set (copied (o - h) ps h b.pointers 0) (o - 1) right) (o - h) (o - 1 - (o - h));
  num_keys = o - h;
  parent = parent;
}

put-swap :
    (s : Store) (p q : Ptr) (a b c : Node)
    → p ≢ q
    → put p a (put q b (put p c s)) ≡ put q b (put p a s)
put-swap s p q a b c ne =
    ap (λ f. record s { nodes = f })
      (fun_ext λ x.
        let other : (q == p) ≡ false = ground arith in
        elim (Bool-cases (x == p)) [
          | inl here ↦ let there : (x == q) ≡ false = ground arith in rw (here, there) refl
          | inr not_here ↦ rw not_here refl
        ])

-- The arrays of a node of a tree of order `o`.
pub record HasArrays (o : ℕ) (n : Node) : Type 0 where
  pub keys : length n.keys ≡ o - 1
  pub pointers : length n.pointers ≡ o

-- The run, once `make_leaf` has returned `new`, which holds the empty leaf `b`.
split_leaf-halves :
    (key : ℕ) (r leaf new p q : Ptr) (rest : List Ptr) (s s1 : Store) (n b : Node)
    → make_leaf s ≡ done new s1
    → s1.supply ≡ p ∷ q ∷ rest
    → Holds s1 leaf n
    → Holds s1 new b
    → leaf ≢ new
    → HasArrays s1.order n
    → HasArrays s1.order b
    → n.num_keys ≡ s1.order - 1
    → b.num_keys ≡ 0
    → 2 < s1.order
    → s1.order < 2 ^ 64
    → let o = s1.order in
      let h = cut (o - 1) in
      let g = scan (λ k. ltb k key) n.num_keys n.keys in
      let ks = temporary g key n.num_keys n.keys (o + 1) in
      let ps = temporary g r n.num_keys n.pointers (o + 1) in
      let right = get_or (copied h ps 0 n.pointers 0) (o - 1) 0 in
      split_leaf leaf key r s
      ≡ done
          (get_or (copied (o - h) ks h b.keys 0) 0 0, new)
          (put new (right_half o h right n.parent ks ps b) (
            put leaf (left_half o h new ks ps n) (record s1 {
              supply = rest;
              allocator_stat = add64 (add64 s1.allocator_stat ((o + 1) * 8)) ((o + 1) * 8);
            })))
unfolding split_leaf
split_leaf-halves key r leaf new p q rest s s1 n b made supply hl hn ne an ab full empty wide word =
    let o = s1.order in
    let h = cut (o - 1) in
    let (some_left, some_right) = cut-bounds (o - 1) (omega arith) in
    let m = n.num_keys in
    let g = scan (λ k. ltb k key) m n.keys in
    let inside = scan-le (λ k. ltb k key) m n.keys in
    let k0 : List ℕ = replicate (o + 1) 0 in
    let lk : length k0 ≡ o + 1 = length-replicate (o + 1) 0 in
    let ks = temporary g key m n.keys (o + 1) in
    let ps = temporary g r m n.pointers (o + 1) in
    let lks = length-temporary g key m n.keys (o + 1) in
    let lps = length-temporary g r m n.pointers (o + 1) in
    let t1 = record s1 {
      supply = q ∷ rest;
      allocator_stat = add64 s1.allocator_stat ((o + 1) * 8);
    } in
    let t2 = record t1 { supply = rest; allocator_stat = add64 t1.allocator_stat ((o + 1) * 8) } in
    let hl2 : Holds t2 leaf n = record { ne_null = hl.ne_null; holds = hl.holds } in
    let hn2 : Holds t2 new b = record { ne_null = hn.ne_null; holds = hn.holds } in
    let keys = an.keys in
    let pointers = an.pointers in
    let scanned : scan_keys (λ k. ltb k key) (o - 1) leaf 0 t2 ≡ done g t2 =
      rw (← full) (scan_keys_lem (λ k. ltb k key) hl2 (omega arith)) in
    let n1 = record n { num_keys = 0 } in
    let hl3 = put-Holds t2 n1 hl2.ne_null in
    let n2 = record n1 {
      keys = copied h ks 0 n.keys 0;
      pointers = copied h ps 0 n.pointers 0;
      num_keys = h;
    } in
    let b1 = record b {
      keys = copied (o - h) ks h b.keys 0;
      pointers = copied (o - h) ps h b.pointers 0;
      num_keys = o - h;
    } in
    let t3 = put leaf n2 t2 in
    let hn3 : Holds t3 new b = put-Holds_ne n2 hn2 (λ e. ne (sym e)) in
    let hl4 : Holds (put new b1 t3) leaf n2 = put-Holds_ne b1 (put-Holds t2 n2 hl2.ne_null) ne in
    let keys_b = ab.keys in
    let pointers_b = ab.pointers in
    let ln2 = length-copied h ps 0 n.pointers 0 in
    let lb1 = length-copied (o - h) ps h b.pointers 0 in
    let right = get_or n2.pointers (o - 1) 0 in
    let b2 = record b1 { pointers = set b1.pointers (o - 1) right } in
    let hl5 : Holds (put new b2 t3) leaf n2 = put-Holds_ne b2 (put-Holds t2 n2 hl2.ne_null) ne in
    let n3 = record n2 { pointers = set n2.pointers (o - 1) new } in
    let hl6 : Holds (put new b2 (put leaf n3 t2)) leaf n3 =
      put-Holds_ne b2 (put-Holds t2 n3 hl2.ne_null) ne in
    let ln3 = length-set n2.pointers (o - 1) new in
    let lb2 = length-set b1.pointers (o - 1) right in
    let lbk = length-copied (o - h) ks h b.keys 0 in
    let n4 = left_half o h new ks ps n in
    let t4 = put leaf n4 t2 in
    let hn4 : Holds (put new b2 t4) new b2 = put-Holds t4 b2 hn2.ne_null in
    let b3 = record b2 { pointers = cleared b2.pointers (o - h) (o - 1 - (o - h)) } in
    let b4 = right_half o h right n.parent ks ps b in
    let left_count : 0 + h ≡ h = omega arith in
    let right_count : b.num_keys + (o - h) ≡ o - h = omega arith in
    rw
      (
        made,
        allocate_lem ((o + 1) * 8) s1 p (q ∷ rest) supply,
        scanned,
        load_lem hl2,
        spread_entries-spreaded m g 0 0 k0 k0 hl2 (ground arith) (omega arith) (omega arith)
            (omega arith) (omega arith),
        write_at_lem (spreaded m n.keys g 0 k0) g key t2
            (omega (arith, length-spreaded m n.keys g 0 k0)),
        write_at_lem (spreaded m n.pointers g 0 k0) g r t2
            (omega (arith, length-spreaded m n.pointers g 0 k0)),
        set_num_keys_lem hl2 0,
        fill_entries-copied h ks ps 0 0 hl3 (omega arith) (omega arith) (omega arith) (omega arith)
            (omega arith),
        left_count,
        put-put t2 leaf n2 n1,
        fill_entries-copied (o - h) ks ps h 0 hn3 (omega arith) (omega arith) (omega arith)
            (omega arith) (omega arith),
        right_count,
        get_pointer_lem hl4 (o - 1) (omega arith),
        set_pointer_lem (put-Holds t3 b1 hn2.ne_null) (o - 1) right (omega arith),
        put-put t3 new b2 b1,
        set_pointer_lem hl5 (o - 1) new (omega arith),
        put-swap t2 leaf new n3 b2 n2 ne,
        load_lem hl6,
        clear_pointers-cleared (o - 1 - h) h hl6 (omega arith),
        put-swap t2 leaf new n4 b2 n3 ne,
        load_lem hn4,
        clear_pointers-cleared (o - 1 - (o - h)) (o - h) hn4 (omega arith),
        put-put t4 new b3 b2,
        set_parent_lem (put-Holds t4 b3 hn2.ne_null) n.parent,
        put-put t4 new b4 b3,
        get_key_lem (put-Holds t4 b4 hn2.ne_null) 0 (omega arith),
      )
      refl
