-- ===== src/BTree/Tree/Removal.antt =====
-- `remove_entry_from_node` on a leaf.
pub mod Lists
use nu_ksm_pact21_artifact.Base.{
  ℕ, zero, suc, ◌+◌, ◌-◌, ◌^◌, ◌≤◌, ◌<◌, ◌≡◌, ◌∙◌, refl, sym, ap, false, List, [], ◌∷◌, ◌++◌, arith,
  ◌==◌, not, if◌then◌else◌, length, get_or, set,
}
use nu_ksm_pact21_artifact.BTree.Store.{Ptr, null, Node, Store, done, put}
use nu_ksm_pact21_artifact.BTree.Store.Laws.{put-Holds, put-put, load_lem, set_num_keys_lem}
use nu_ksm_pact21_artifact.BTree.Entries.{clear_pointers}
use nu_ksm_pact21_artifact.BTree.Entries.Scan.{scan}
use nu_ksm_pact21_artifact.BTree.Entries.Leaf.{pairs}
use nu_ksm_pact21_artifact.BTree.Shrink.{dec64, remove_entry_from_node}
use nu_ksm_pact21_artifact.BTree.Shrink.Close.{
  closed, cleared, length-closed, length-cleared, close_keys-closed, close_pointers-closed,
  clear_pointers-cleared, seek_key-scan, seek_pointer-scan,
}
use nu_ksm_pact21_artifact.BTree.Tree.{Leaf}
use nu_ksm_pact21_artifact.BTree.Tree.Insertion.{IsNew}
use nu_ksm_pact21_artifact.BTree.Tree.Removal.Lists.{
  IsNewPtr, remove_at, remove_at-append, pairs-closed, pairs-cleared, pairs-scan,
}

-- The leaf after the three loops.
abbrev removed : ℕ → ℕ → Node → Node
removed i order n = record n {
  keys = closed n.keys i (n.num_keys - (i + 1));
  pointers =
      cleared (closed n.pointers i (n.num_keys - (i + 1))) (n.num_keys - 1)
        (order - 1 - (n.num_keys - 1));
  num_keys = n.num_keys - 1;
}

removed-Leaf :
    (key : ℕ) (r leaf : Ptr) (s : Store) (before after : List (ℕ × Ptr)) (n : Node)
    → Leaf s leaf (before ++ ((key, r) ∷ after)) n
    → length before < n.num_keys
    → let m = removed (length before) s.order n in Leaf (put leaf m s) leaf (before ++ after) m
removed-Leaf key r leaf s before after n l inside =
    let i = length before in
    let moves = n.num_keys - (i + 1) in
    let clears = s.order - 1 - (n.num_keys - 1) in
    let room_keys = l.keys in
    let room_ptrs = l.pointers in
    let same_keys = length-closed moves i n.keys in
    let same_ptrs = length-closed moves i n.pointers in
    let same_clear = length-cleared clears (n.num_keys - 1) (closed n.pointers i moves) in
    let fewer : i + moves ≡ n.num_keys - 1 = omega arith in
    let all : suc (i + moves) ≡ n.num_keys = omega arith in
    record {
      at = put-Holds s _ l.at.ne_null;
      is_leaf = l.is_leaf;
      keys = omega arith;
      pointers = omega arith;
      entries = sym (
          pairs-cleared clears (n.num_keys - 1) (n.num_keys - 1) (closed n.keys i moves)
            (closed n.pointers i moves) (omega arith)
          ∙ ap (λ k. pairs k (closed n.keys i moves) (closed n.pointers i moves)) (sym fewer)
          ∙ pairs-closed i moves n.keys n.pointers (omega arith) (omega arith)
          ∙ ap (λ k. remove_at i (pairs k n.keys n.pointers)) all
          ∙ ap (remove_at i) (sym l.entries)
          ∙ remove_at-append before after (key, r));
    }

-- A leaf in which the entry of the key and the pointer stands behind entries of other keys and other
-- pointers: `remove_entry_from_node` ends with a store that differs in this leaf only, and the leaf
-- then has the other entries in their order. The arrays have at least `order - 1` pointers, and the
-- number of keys is a 64-bit number.
pub remove_entry_from_node-entries :
    (key : ℕ) (r leaf : Ptr) (s : Store) (before after : List (ℕ × Ptr)) (n : Node)
    → Leaf s leaf (before ++ ((key, r) ∷ after)) n
    → s.order ≤ length n.pointers + 1
    → n.num_keys < 2 ^ 64
    → IsNew key before
    → IsNewPtr r before
    → (m : Node) × (remove_entry_from_node leaf key r s ≡ done leaf (put leaf m s))
      × Leaf (put leaf m s) leaf (before ++ after) m
unfolding remove_entry_from_node
remove_entry_from_node-entries key r leaf s before after n l fits word new newp =
    let (at_key, at_ptr, inside) =
      pairs-scan n.num_keys key r n.keys n.pointers before after (sym l.entries) new newp in
    let i = length before in
    let moves = n.num_keys - (i + 1) in
    let left : dec64 n.num_keys ≡ n.num_keys - 1 = omega arith in
    let h0 = l.at in
    let room_keys = l.keys in
    let room_ptrs = l.pointers in
    let n1 = record n { keys = closed n.keys i moves } in
    let h1 = put-Holds s n1 h0.ne_null in
    let s1 = put leaf n1 s in
    let n2 = record n1 { pointers = closed n.pointers i moves } in
    let h2 = put-Holds s1 n2 h0.ne_null in
    let s2 = put leaf n2 s1 in
    let n3 = record n2 { num_keys = n.num_keys - 1 } in
    let h3 = put-Holds s2 n3 h0.ne_null in
    let clears = s.order - 1 - (n.num_keys - 1) in
    let m = record n3 { pointers = cleared n2.pointers (n.num_keys - 1) clears } in
    let found_key =
      seek_key-scan n.num_keys (length n.keys + 1) 0 key h0 (omega arith) (omega arith)
        (omega arith) in
    let found_ptr =
      seek_pointer-scan n.num_keys (length n.pointers + 1) 0 r h1 (omega arith) (omega arith)
        (omega arith) in
    let to_key : 0 + scan (λ k. not (k == key)) n.num_keys n.keys ≡ i = omega arith in
    let to_ptr : 0 + scan (λ q. not (q == r)) n.num_keys n.pointers ≡ i = omega arith in
    let num_pointers : (if n.is_leaf then n.num_keys else n.num_keys + 1) ≡ n.num_keys =
      rw l.is_leaf refl in
    let branch : (if n.is_leaf
          then clear_pointers clears leaf (n.num_keys - 1)
          else clear_pointers (s.order - (n.num_keys - 1 + 1)) leaf (n.num_keys - 1 + 1))
        ≡ clear_pointers clears leaf (n.num_keys - 1) =
      rw l.is_leaf refl in
    let same_length = length-closed moves i n.pointers in
    (
      m,
      rw
          (
            load_lem h0,
            found_key,
            to_key,
            close_keys-closed moves i h0 (omega arith),
            num_pointers,
            found_ptr,
            to_ptr,
            close_pointers-closed moves i h1 (omega arith),
            left,
            set_num_keys_lem h2 (n.num_keys - 1),
            branch,
            clear_pointers-cleared clears (n.num_keys - 1) h3 (omega arith),
            put-put,
            put-put,
            put-put,
          )
          refl,
      removed-Leaf key r leaf s before after n l inside,
    )
