-- ===== src/BTree/Tree/Range.antt =====
-- `find_range`: what it collects from one leaf on, and where it gives up.
pub mod Lists
use native.Mathlib.Numerals.{add-one}
use nu_ksm_pact21_artifact.Base.{
  ℕ, zero, suc, ◌+◌, ◌-◌, ◌≤◌, ◌<◌, ◌≡◌, ◌≢◌, ◌∙◌, refl, sym, ap, true, false, inl, inr, List, [],
  ◌∷◌, ◌++◌, arith, ◌==◌, leb, ltb, if◌then◌else◌, Bool-cases, length, get_or, drop,
}
use nu_ksm_pact21_artifact.BTree.Store.{Ptr, null, Node, Store, done}
use nu_ksm_pact21_artifact.BTree.Store.Laws.{Holds, not_null, at_lem, get_key_lem, get_pointer_lem}
use nu_ksm_pact21_artifact.BTree.Find.{find_leaf, collect_leaf, collect, find_range}
use nu_ksm_pact21_artifact.BTree.Entries.Scan.{scan, scan-le, drop-cons, scan_keys_lem}
use nu_ksm_pact21_artifact.BTree.Entries.Leaf.{pairs}
use nu_ksm_pact21_artifact.BTree.Tree.{AllBelow, Leaf}
use nu_ksm_pact21_artifact.BTree.Tree.Insertion.{IsSorted}
use nu_ksm_pact21_artifact.BTree.Tree.Range.Lists.{
  scan-AllBelow, up_to, at_most, from_key, joined, up_to-at_most, at_most-append, from_key-IsSorted,
  from_key-append, pairs-from_key,
}

-- If all keys of the leaf that `find_leaf` reaches for `key_start` are smaller than `key_start`, then
-- `find_range` finds nothing and changes nothing, whatever the leaves to the right hold.
pub find_range-lost :
    (key_start key_end fuel : ℕ) (s : Store) (root leaf : Ptr) (part : List (ℕ × Ptr)) (n : Node)
    → find_leaf fuel root key_start s ≡ done leaf s
    → Leaf s leaf part n
    → AllBelow key_start part
    → find_range fuel root key_start key_end s ≡ done [] s
unfolding find_range
find_range-lost key_start key_end fuel s root leaf part n run l all =
    let passed =
      scan-AllBelow key_start n.num_keys n.keys n.pointers l.keys l.pointers
        (rw (sym l.entries) all) in
    let full : (n.num_keys == n.num_keys) ≡ true = ground arith in
    rw
      (
        run,
        not_null l.at,
        l.at.holds,
        scan_keys_lem (λ k. ltb k key_start) l.at l.keys,
        passed,
        full,
      )
      refl

pub collect_leaf-up_to :
    (rounds i key_end : ℕ) {s : Store} {p : Ptr} {n : Node}
    → Holds s p n
    → i + rounds ≤ length n.keys
    → i + rounds ≤ length n.pointers
    → collect_leaf key_end rounds p i s
      ≡ done (up_to key_end (pairs rounds (drop i n.keys) (drop i n.pointers))) s
unfolding collect_leaf up_to pairs
collect_leaf-up_to zero i key_end h bk bp = refl
collect_leaf-up_to (suc r) i key_end {s} {p} {n} h bk bp =
    let k = get_or n.keys i 0 in
    rw
      (
        get_key_lem h i (omega arith),
        drop-cons i n.keys (omega arith),
        drop-cons i n.pointers (omega arith),
      )
      (elim (Bool-cases (leb k key_end)) [
        | inl on ↦
            rw
              (
                on,
                get_pointer_lem h i (omega arith),
                collect_leaf-up_to r (i + 1) key_end h (omega arith) (omega arith),
                add-one,
              )
              refl
        | inr off ↦ rw off refl
      ])

-- The leaves from `p` on, linked by their last pointers, with sorted entries.
abbrev pub Chain : Store → Ptr → List (List (ℕ × Ptr)) → Type 0
Chain s p [] = p ≡ null
Chain s p (es ∷ parts) =
    (n : Node) × Leaf s p es n
    × (s.order - 1 < length n.pointers)
    × IsSorted es
    × Chain s (get_or n.pointers (s.order - 1) 0) parts

collect-at_most :
    (fuel key_end : ℕ) (s : Store) (p : Ptr) (parts : List (List (ℕ × Ptr)))
    → Chain s p parts
    → length parts < fuel
    → collect fuel key_end p 0 s ≡ done (at_most key_end (joined parts)) s
unfolding collect at_most
collect-at_most zero key_end s p parts c h = absurd (omega arith)
collect-at_most (suc fuel) key_end s p [] c h =
    let nil : (p == null) ≡ true = ground arith in rw nil refl
collect-at_most (suc fuel) key_end s p (es ∷ parts) (n, l, inside, sorted, c) h =
    let all : n.num_keys - 0 ≡ n.num_keys = omega arith in
    let found : up_to key_end (pairs n.num_keys n.keys n.pointers) ≡ at_most key_end es =
      ap (up_to key_end) (sym l.entries) ∙ up_to-at_most key_end es sorted in
    let room_keys = l.keys in
    let room_ptrs = l.pointers in
    rw
      (
        not_null l.at,
        l.at.holds,
        all,
        collect_leaf-up_to n.num_keys 0 key_end l.at (omega arith) (omega arith),
        l.at.holds,
        at_lem n.pointers (s.order - 1) 0 s inside,
        collect-at_most fuel key_end s (get_or n.pointers (s.order - 1) 0) parts c (omega arith),
        found,
        at_most-append key_end es (joined parts),
      )
      refl

-- A key that is not below the bound stops the scan.
stops :
    (b : ℕ) (n : Node)
    → n.num_keys ≤ length n.keys
    → n.num_keys ≤ length n.pointers
    → from_key b (pairs n.num_keys n.keys n.pointers) ≢ []
    → (scan (λ k. ltb k b) n.num_keys n.keys == n.num_keys) ≡ false
unfolding pairs
stops b n hk hp ne =
    let i = scan (λ k. ltb k b) n.num_keys n.keys in
    elim (Bool-cases (i == n.num_keys)) [
      | inr more ↦ more
      | inl full ↦
          let none : n.num_keys - i ≡ 0 = ground arith in
          let split = pairs-from_key b n.num_keys n.keys n.pointers hk hp in
          absurd (ne (sym split ∙ ap (λ m. pairs m (drop i n.keys) (drop i n.pointers)) none))
    ]

-- Where the leaf that `find_leaf` reaches for `key_start` has a key that is not smaller, and from it
-- on the leaves are linked and have sorted entries, `find_range`, with fuel above the number of these
-- leaves, ends without a change. What it finds, in this order, is the entries of these leaves from the
-- first key that is not below `key_start` on, less those with keys above `key_end`.
pub find_range-at_most :
    (key_start key_end fuel : ℕ) (s : Store) (root leaf : Ptr) (part : List (ℕ × Ptr))
    (parts : List (List (ℕ × Ptr)))
    → find_leaf (suc fuel) root key_start s ≡ done leaf s
    → Chain s leaf (part ∷ parts)
    → from_key key_start part ≢ []
    → length parts < fuel
    → find_range (suc fuel) root key_start key_end s
      ≡ done (at_most key_end (from_key key_start (part ++ joined parts))) s
unfolding find_range
find_range-at_most key_start key_end fuel s root leaf part parts run (n, l, inside, sorted, c) ne
      enough =
    let i = scan (λ k. ltb k key_start) n.num_keys n.keys in
    let upto = scan-le (λ k. ltb k key_start) n.num_keys n.keys in
    let room_keys = l.keys in
    let room_ptrs = l.pointers in
    let same : pairs (n.num_keys - i) (drop i n.keys) (drop i n.pointers)
        ≡ from_key key_start part =
      pairs-from_key key_start n.num_keys n.keys n.pointers l.keys l.pointers
      ∙ ap (from_key key_start) (sym l.entries) in
    let found : up_to key_end (pairs (n.num_keys - i) (drop i n.keys) (drop i n.pointers))
        ≡ at_most key_end (from_key key_start part) =
      ap (up_to key_end) same
      ∙ up_to-at_most key_end (from_key key_start part) (from_key-IsSorted key_start part sorted) in
    let more : (i == n.num_keys) ≡ false =
      stops key_start n l.keys l.pointers (λ e. ne (ap (from_key key_start) l.entries ∙ e)) in
    rw
      (
        run,
        not_null l.at,
        l.at.holds,
        scan_keys_lem (λ k. ltb k key_start) l.at l.keys,
        more,
        l.at.holds,
        collect_leaf-up_to (n.num_keys - i) i key_end l.at (omega arith) (omega arith),
        l.at.holds,
        at_lem n.pointers (s.order - 1) 0 s inside,
        collect-at_most fuel key_end s (get_or n.pointers (s.order - 1) 0) parts c enough,
        found,
        from_key-append key_start part (joined parts) ne,
        at_most-append key_end (from_key key_start part) (joined parts),
      )
      refl
