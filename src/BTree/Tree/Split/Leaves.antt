-- ===== src/BTree/Tree/Split/Leaves.antt =====
-- The two leaves of a split hold the entries of the full leaf and the new one, in order.
use mathlib.Core.Path.{subst}
use nu_ksm_pact21_artifact.Base.{
  ℕ, ◌+◌, ◌-◌, ◌*◌, ◌^◌, ◌≤◌, ◌<◌, ◌≡◌, ◌≢◌, refl, sym, ◌∙◌, true, false, List, ◌∷◌, ◌++◌, arith,
  ltb, ◌==◌, length, get_or, set, drop, length-set, length-replicate,
}
use nu_ksm_pact21_artifact.BTree.Store.{Ptr, Node, Store, done, put, add64}
use nu_ksm_pact21_artifact.BTree.Store.Laws.{Holds, put-Holds, put-Holds_ne}
use nu_ksm_pact21_artifact.BTree.Alloc.{make_leaf}
use nu_ksm_pact21_artifact.BTree.Alloc.Leaves.{new_leaf, make_leaf-Grown}
use nu_ksm_pact21_artifact.BTree.Find.{cut}
use nu_ksm_pact21_artifact.BTree.Insert.{split_leaf}
use nu_ksm_pact21_artifact.BTree.Entries.Scan.{scan}
use nu_ksm_pact21_artifact.BTree.Entries.Leaf.{pairs, insert_entry}
use nu_ksm_pact21_artifact.BTree.Entries.Copy.{copied, length-copied, copied-inside, copied-after}
use nu_ksm_pact21_artifact.BTree.Shrink.Close.{cleared, length-cleared}
use nu_ksm_pact21_artifact.BTree.Tree.{AllBelow, AllFrom, Leaf}
use nu_ksm_pact21_artifact.BTree.Tree.Insertion.{IsNew, IsSorted, insert_entry-IsSorted}
use nu_ksm_pact21_artifact.BTree.Tree.Deletion.{length-pairs}
use nu_ksm_pact21_artifact.BTree.Tree.Split.{
  cut-bounds, temporary, length-temporary, left_half, right_half, HasArrays, split_leaf-halves,
}
use nu_ksm_pact21_artifact.BTree.Tree.Split.Lists.{get_or-drop, length-drop}
use nu_ksm_pact21_artifact.BTree.Tree.Split.Halves.{
  pairs-first, IsSorted-append, halves, left-Leaf, right-Leaf, half_link,
}

-- What a split of the leaf `n` at `leaf` has to leave, where `es` are its entries with the new one:
-- the two parts of the entries in two leaves, separated by `new_key`, the links from leaf to leaf and
-- to the parent, and the rest of the nodes as they were.
-- `next` is the free node that comes first then, and `supply` the memory left.
pub record IsSplit (s after : Store) (leaf new : Ptr) (n : Node) (new_key : ℕ) (es : List (ℕ × Ptr))
    (next : Ptr) (supply : List Ptr) : Type 0 where
  pub left : List (ℕ × Ptr)
  pub right : List (ℕ × Ptr)
  pub l : Node
  pub m : Node
  pub at_left : Leaf after leaf left l
  pub at_right : Leaf after new right m
  pub all : left ++ right ≡ es
  pub size : length left ≡ cut (s.order - 1)
  pub below : AllBelow new_key left
  pub from : AllFrom new_key right
  pub link_left : get_or l.pointers (s.order - 1) 0 ≡ new
  pub link_right : get_or m.pointers (s.order - 1) 0 ≡ get_or n.pointers (s.order - 1) 0
  pub parent : m.parent ≡ n.parent
  pub parent_left : l.parent ≡ n.parent
  pub arrays_left : HasArrays s.order l
  pub arrays_right : HasArrays s.order m
  pub count_left : l.num_keys ≡ cut (s.order - 1)
  pub count_right : m.num_keys ≡ s.order - cut (s.order - 1)
  pub order : after.order ≡ s.order
  pub records : after.records ≡ s.records
  pub free_recs : after.free_recs ≡ s.free_recs
  pub free : after.free_nodes ≡ next
  pub memory : after.supply ≡ supply
  pub others : (q : Ptr) → q ≢ leaf → q ≢ new → after.nodes q ≡ s.nodes q

-- The separator of two parts of sorted entries.
separates :
    (c k : ℕ) (ks : List ℕ) (ps : List Ptr) (left es : List (ℕ × Ptr))
    → 0 < c
    → c ≤ length ks
    → c ≤ length ps
    → k ≡ get_or ks 0 0
    → left ++ pairs c ks ps ≡ es
    → IsSorted es
    → AllBelow k left × AllFrom k (pairs c ks ps)
separates c k ks ps left es some_right hk hp e all sorted =
    let (q, rest, first) = pairs-first c ks ps some_right hk hp in
    let whole : left ++ ((k, q) ∷ rest) ≡ es = rw (e, ← first) all in
    let (below, from) = IsSorted-append k q left rest (rw (whole) sorted) in
    (below, rw (first, ← e) from)

length-half :
    (o count lo from link : ℕ) (ps old : List ℕ)
    → length (cleared (set (copied count ps from old 0) (o - 1) link) lo (o - 1 - count))
      ≡ length old
length-half o count lo from link ps old =
    length-cleared (o - 1 - count) lo (set (copied count ps from old 0) (o - 1) link)
    ∙ length-set (copied count ps from old 0) (o - 1) link
    ∙ length-copied count ps from old 0

-- `split_leaf` after `make_leaf`.
split_leaf-made :
    (key : ℕ) (r leaf new p q : Ptr) (rest : List Ptr) (s s1 : Store) (n b : Node)
    → make_leaf s ≡ done new s1
    → s1.supply ≡ p ∷ q ∷ rest
    → Holds s1 leaf n
    → Holds s1 new b
    → leaf ≢ new
    → HasArrays s1.order n
    → HasArrays s1.order b
    → n.num_keys ≡ s1.order - 1
    → b.num_keys ≡ 0
    → n.is_leaf ≡ true
    → b.is_leaf ≡ true
    → 2 < s1.order
    → s1.order < 2 ^ 64
    → IsSorted (insert_entry key r (pairs n.num_keys n.keys n.pointers))
    → (new_key : ℕ) × (after : Store) × (split_leaf leaf key r s ≡ done (new_key, new) after)
      × IsSplit s1 after leaf new n new_key
          (insert_entry key r (pairs n.num_keys n.keys n.pointers))
          s1.free_nodes
          rest
split_leaf-made key r leaf new p q rest s s1 n b made supply hl hn ne an ab full empty ln lb wide
      word sorted =
    let o = s1.order in
    let h = cut (o - 1) in
    let c = o - h in
    let (some_left, some_right) = cut-bounds (o - 1) (omega arith) in
    let g = scan (λ k. ltb k key) n.num_keys n.keys in
    let ks = temporary g key n.num_keys n.keys (o + 1) in
    let ps = temporary g r n.num_keys n.pointers (o + 1) in
    let lks = length-temporary g key n.num_keys n.keys (o + 1) in
    let lps = length-temporary g r n.num_keys n.pointers (o + 1) in
    let keys_b = ab.keys in
    let pointers_b = ab.pointers in
    let pointers_n = an.pointers in
    let right = get_or (copied h ps 0 n.pointers 0) (o - 1) 0 in
    let t = record s1 {
      supply = rest;
      allocator_stat = add64 (add64 s1.allocator_stat ((o + 1) * 8)) ((o + 1) * 8);
    } in
    let ml = left_half o h new ks ps n in
    let mr = right_half o h right n.parent ks ps b in
    let after = put new mr (put leaf ml t) in
    let held : Holds after leaf ml = put-Holds_ne mr (put-Holds t ml hl.ne_null) ne in
    let all = halves key r n o an full wide in
    let new_key = get_or (copied c ks h b.keys 0) 0 0 in
    let at_0 : h + 0 ≡ h = omega arith in
    let is_first : new_key ≡ get_or (drop h ks) 0 0 =
      copied-inside c ks h b.keys 0 0 (omega arith) (omega arith) ∙ sym (get_or-drop h 0 ks) in
    let lk = length-drop h ks in
    let lp = length-drop h ps in
    let (below, from) =
      separates c new_key (drop h ks) (drop h ps) (pairs h ks ps)
        (insert_entry key r (pairs n.num_keys n.keys n.pointers)) (omega arith) (omega arith)
        (omega arith) is_first all sorted in
    (
      new_key,
      after,
      split_leaf-halves key r leaf new p q rest s s1 n b made supply hl hn ne an ab full empty wide
          word,
      record {
        left = pairs h ks ps;
        right = pairs c (drop h ks) (drop h ps);
        l = ml;
        m = mr;
        at_left = left-Leaf key r leaf new n o ks ps after held ln an wide lks lps;
        at_right =
            right-Leaf new right n.parent b o ks ps after (put-Holds (put leaf ml t) mr hn.ne_null)
              lb ab wide lks lps;
        all = all;
        size = length-pairs h ks ps (omega arith) (omega arith);
        below = below;
        from = from;
        link_left = half_link h 0 new (o - 1) ps n.pointers (omega arith) (omega arith);
        link_right =
            half_link c h right (o - 1) ps b.pointers (omega arith) (omega arith)
            ∙ copied-after h ps 0 n.pointers 0 (o - 1) (omega arith);
        parent = refl;
        parent_left = refl;
        arrays_left = record {
          keys = length-copied h ks 0 n.keys 0 ∙ an.keys;
          pointers = length-half o h h 0 new ps n.pointers ∙ pointers_n;
        };
        arrays_right = record {
          keys = length-copied c ks h b.keys 0 ∙ keys_b;
          pointers = length-half o c c h right ps b.pointers ∙ pointers_b;
        };
        count_left = refl;
        count_right = refl;
        order = refl;
        records = refl;
        free_recs = refl;
        free = refl;
        memory = refl;
        others = λ x not_leaf not_new.
            let a : (x == leaf) ≡ false = ground arith in
            let b : (x == new) ≡ false = ground arith in rw (b, a) refl;
      },
    )

-- A split is one of the store before, if that has the same order, and the same nodes but for the new.
IsSplit-before :
    (s s1 after : Store) (leaf new : Ptr) (n : Node) (new_key : ℕ) (es : List (ℕ × Ptr))
    (next : Ptr) (supply : List Ptr)
    → s1.order ≡ s.order
    → s1.records ≡ s.records
    → s1.free_recs ≡ s.free_recs
    → s1.free_nodes ≡ next
    → ((q : Ptr) → q ≢ new → s1.nodes q ≡ s.nodes q)
    → IsSplit s1 after leaf new n new_key es s1.free_nodes supply
    → IsSplit s after leaf new n new_key es next supply
IsSplit-before s s1 after leaf new n new_key es next supply same records free_recs free others
      split =
    record {
      left = split.left;
      right = split.right;
      l = split.l;
      m = split.m;
      at_left = split.at_left;
      at_right = split.at_right;
      all = split.all;
      size = rw (← same) split.size;
      below = split.below;
      from = split.from;
      link_left = rw (← same) split.link_left;
      link_right = rw (← same) split.link_right;
      parent = split.parent;
      parent_left = split.parent_left;
      arrays_left = rw (← same) split.arrays_left;
      arrays_right = rw (← same) split.arrays_right;
      count_left = rw (← same) split.count_left;
      count_right = rw (← same) split.count_right;
      order = split.order ∙ same;
      records = split.records ∙ records;
      free_recs = split.free_recs ∙ free_recs;
      free = split.free ∙ free;
      memory = split.memory;
      others = λ q not_leaf not_new. split.others q not_leaf not_new ∙ others q not_new;
    }

-- A full leaf of a tree of order at least 3, with sorted entries and with arrays of the order's
-- lengths; a key that is new; a node free at another address, and memory for four arrays. Then
-- `insert_into_leaf_after_splitting` comes to its last call with two leaves, the old one and the free
-- node: their entries together are those of the leaf with the new one in its place, cut after half of
-- them; the key that it hands to the parent is greater than all on the left and not greater than any
-- on the right; the left leaf links to the right one and this to the leaf that came next, under the
-- same parent, in arrays of the order's lengths; the free node is taken off its list, and no other node
-- and no record has changed.
pub split_leaf-IsSplit :
    (key : ℕ) (r leaf : Ptr) (s : Store) (es : List (ℕ × Ptr)) (n b : Node) (supply : List Ptr)
    (p1 p2 p3 p4 : Ptr)
    → Leaf s leaf es n
    → HasArrays s.order n
    → n.num_keys ≡ s.order - 1
    → IsNew key es
    → IsSorted es
    → 2 < s.order
    → s.order < 2 ^ 64
    → Holds s s.free_nodes b
    → leaf ≢ s.free_nodes
    → s.supply ≡ p1 ∷ p2 ∷ p3 ∷ p4 ∷ supply
    → (new_key : ℕ) × (after : Store) × (split_leaf leaf key r s
        ≡ done (new_key, s.free_nodes) after)
      × IsSplit s after leaf s.free_nodes n new_key (insert_entry key r es) b.next supply
split_leaf-IsSplit key r leaf s es n b supply p1 p2 p3 p4 l arrays full new sorted wide word free ne
      memory =
    let (s1, made, g) = make_leaf-Grown s b p1 p2 (p3 ∷ p4 ∷ supply) free memory in
    let same = g.order in
    let keys = arrays.keys in
    let pointers = arrays.pointers in
    let hl : Holds s1 leaf n = record {
      ne_null = l.at.ne_null;
      holds = g.others leaf ne ∙ l.at.holds;
    } in
    let an : HasArrays s1.order n = record { keys = omega arith; pointers = omega arith } in
    let ab : HasArrays s1.order (new_leaf s.order) = record {
      keys = omega (arith, length-replicate {A = ℕ} (s.order - 1) 0);
      pointers = omega (arith, length-replicate {A = ℕ} s.order 0);
    } in
    let in_order = insert_entry-IsSorted key r es new sorted in
    let (new_key, after, run, split) =
      split_leaf-made key r leaf s.free_nodes p3 p4 supply s s1 n (new_leaf s.order) made g.supply
        hl g.at ne an ab (omega arith) refl l.is_leaf refl (omega arith) (omega arith)
        (rw l.entries at in_order) in
    let split_es : IsSplit s1 after leaf s.free_nodes n new_key (insert_entry key r es)
        s1.free_nodes supply =
      subst
        (λ fs.
          IsSplit s1 after leaf s.free_nodes n new_key (insert_entry key r fs) s1.free_nodes supply)
        (sym l.entries) split in
    (
      new_key,
      after,
      run,
      IsSplit-before s s1 after leaf s.free_nodes n new_key (insert_entry key r es) b.next supply
          same g.records g.free_recs g.free g.others split_es,
    )
