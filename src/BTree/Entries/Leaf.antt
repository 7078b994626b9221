-- ===== src/BTree/Entries/Leaf.antt =====
-- A leaf as the list of its entries, and `insert_into_leaf` on it.
use nu_ksm_pact21_artifact.Base.{
  ℕ, zero, suc, ◌+◌, ◌-◌, ◌^◌, ◌≤◌, ◌<◌, ◌≡◌, refl, ap, inl, inr, List, [], ◌∷◌, ◌++◌, arith, ltb,
  if◌then◌else◌, Bool-cases, length, set, take, drop,
}
use nu_ksm_pact21_artifact.BTree.Store.{Ptr, Node, Store, done, put, add64}
use nu_ksm_pact21_artifact.BTree.Store.Laws.{
  Holds, put-Holds, put-put, load_lem, set_key_lem, set_pointer_lem, set_num_keys_lem,
}
use nu_ksm_pact21_artifact.BTree.Entries.{insert_into_leaf}
use nu_ksm_pact21_artifact.BTree.Entries.Scan.{scan, scan-le, scan_keys_lem}
use nu_ksm_pact21_artifact.BTree.Entries.Shift.{
  shifted, gap, length-shifted, shift_entries-shifted, set-shifted,
}

-- The first `n` keys, each with its pointer.
unfoldable pub pairs : ℕ → List ℕ → List Ptr → List (ℕ × Ptr)
pairs zero ks ps = []
pairs (suc n) [] ps = []
pairs (suc n) (k ∷ ks) [] = []
pairs (suc n) (k ∷ ks) (p ∷ ps) = (k, p) ∷ pairs n ks ps

abbrev pub entries : Node → List (ℕ × Ptr)
entries n = pairs n.num_keys n.keys n.pointers

-- The specification: the new entry goes in front of the first key that is not smaller.
unfoldable pub insert_entry : ℕ → Ptr → List (ℕ × Ptr) → List (ℕ × Ptr)
insert_entry key p [] = (key, p) ∷ []
insert_entry key p ((k, q) ∷ es) =
    if ltb k key then (k, q) ∷ insert_entry key p es else (key, p) ∷ (k, q) ∷ es

pairs-take :
    (n : ℕ) (ks bs : List ℕ) (ps qs : List Ptr)
    → n ≤ length ks
    → n ≤ length ps
    → pairs n (take n ks ++ bs) (take n ps ++ qs) ≡ pairs n ks ps
unfolding pairs
pairs-take zero ks bs ps qs hk hp = refl
pairs-take (suc n) [] bs ps qs hk hp = absurd (omega arith)
pairs-take (suc n) (k ∷ ks) bs [] qs hk hp = absurd (omega arith)
pairs-take (suc n) (k ∷ ks) bs (p ∷ ps) qs hk hp =
    ap (λ l. (k, p) ∷ l) (pairs-take n ks bs ps qs (omega arith) (omega arith))

-- The gap opened at the insertion point is the specification's insertion.
pub pairs-gap :
    (key : ℕ) (r : Ptr) (n : ℕ) (ks : List ℕ) (ps : List Ptr)
    → n ≤ length ks
    → n ≤ length ps
    → let i = scan (λ k. ltb k key) n ks in
      pairs (suc n) (gap i (n - i) key ks) (gap i (n - i) r ps) ≡ insert_entry key r (pairs n ks ps)
unfolding pairs gap insert_entry scan
pairs-gap key r zero ks ps hk hp = refl
pairs-gap key r (suc n) [] ps hk hp = absurd (omega arith)
pairs-gap key r (suc n) (k ∷ ks) [] hk hp = absurd (omega arith)
pairs-gap key r (suc n) (k ∷ ks) (p ∷ ps) hk hp = elim (Bool-cases (ltb k key)) [
  | inl below ↦
      let i = scan (λ j. ltb j key) n ks in
      let less : suc n - suc i ≡ n - i = omega arith in
      rw (below, less) (ap (λ l. (k, p) ∷ l) (pairs-gap key r n ks ps (omega arith) (omega arith)))
  | inr above ↦
      let all : suc n - 0 ≡ suc n = omega arith in
      rw (above, all)
        (ap (λ l. (key, r) ∷ (k, p) ∷ l)
          (pairs-take n ks (drop (suc n) ks) ps (drop (suc n) ps) (omega arith) (omega arith)))
]

-- Room for one more entry.
pub record HasRoom (n : Node) : Type 0 where
  pub keys : n.num_keys < length n.keys
  pub pointers : n.num_keys < length n.pointers
  pub count : n.num_keys + 1 < 2 ^ 64

-- The node after the insertion.
unfoldable pub leaf_with : ℕ → Ptr → Node → Node
leaf_with key r n =
    let i = scan (λ k. ltb k key) n.num_keys n.keys in
    record n {
      keys = gap i (n.num_keys - i) key n.keys;
      pointers = gap i (n.num_keys - i) r n.pointers;
      num_keys = n.num_keys + 1;
    }

pub insert_into_leaf-leaf_with :
    (key : ℕ) (r : Ptr) {s : Store} {leaf : Ptr} {n : Node}
    → Holds s leaf n
    → HasRoom n
    → insert_into_leaf leaf key r s ≡ done leaf (put leaf (leaf_with key r n) s)
unfolding insert_into_leaf leaf_with
insert_into_leaf-leaf_with key r {s} {leaf} {n} h room =
    let i = scan (λ k. ltb k key) n.num_keys n.keys in
    let m = n.num_keys - i in
    let inside = scan-le (λ k. ltb k key) n.num_keys n.keys in
    let ks = shifted n.keys i m in
    let ps = shifted n.pointers i m in
    let n1 = record n { keys = ks; pointers = ps } in
    let h1 = put-Holds s n1 h.ne_null in
    let n2 = record n1 { keys = set ks i key } in
    let h2 = put-Holds (put leaf n1 s) n2 h.ne_null in
    let n3 = record n2 { pointers = set ps i r } in
    let h3 = put-Holds (put leaf n2 (put leaf n1 s)) n3 h.ne_null in
    let whole : add64 n.num_keys 1 ≡ n.num_keys + 1 = omega arith in
    rw (
      load_lem h,
      scan_keys_lem (λ k. ltb k key) h (omega arith),
      shift_entries-shifted m i h (omega arith) (omega arith),
      set_key_lem h1 i key (omega (arith, length-shifted n.keys i m)),
      set_pointer_lem h2 i r (omega (arith, length-shifted n.pointers i m)),
      set_num_keys_lem h3 (add64 n.num_keys 1),
      put-put,
      put-put,
      put-put,
      set-shifted i m key n.keys (omega arith),
      set-shifted i m r n.pointers (omega arith),
      whole,
    )
