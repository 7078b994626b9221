-- ===== src/BTree/Tree/Growth.antt =====
-- `insert` of a new key into a whole tree whose leaf for the key has room.
use nu_ksm_pact21_artifact.Base.{
  ℕ, ◌-◌, ◌<◌, ◌≡◌, ◌≢◌, refl, sym, ap, ◌∙◌, true, false, some, List, arith, lt→ltb, ◌==◌,
  if◌then◌else◌,
}
use nu_ksm_pact21_artifact.BTree.Store.{Ptr, null, Node, Rec, Store, done, put}
use nu_ksm_pact21_artifact.BTree.Store.Laws.{Holds, load_lem}
use nu_ksm_pact21_artifact.BTree.Find.{find_leaf_from, find}
use nu_ksm_pact21_artifact.BTree.Insert.{insert_new, insert}
use nu_ksm_pact21_artifact.BTree.Alloc.{make_record}
use nu_ksm_pact21_artifact.BTree.Alloc.Records.{HasRecord, make_record-Recorded}
use nu_ksm_pact21_artifact.BTree.Entries.Leaf.{
  insert_entry, HasRoom, leaf_with, insert_into_leaf-leaf_with,
}
use nu_ksm_pact21_artifact.BTree.Tree.{lookup, Leaf}
use nu_ksm_pact21_artifact.BTree.Tree.Search.{find-lookup, root_not_null}
use nu_ksm_pact21_artifact.BTree.Tree.Insertion.{leaf_with-Leaf, lookup-insert_entry}
use nu_ksm_pact21_artifact.BTree.Tree.Owned.{
  Distinct, AgreeBut-put, done_inj, some_inj, Agree-equal, Owned, Owned-Tree, Leaf-same,
}
use nu_ksm_pact21_artifact.BTree.Tree.Edit.{insert_entry-Edit}
use nu_ksm_pact21_artifact.BTree.Tree.Descent.{find_leaf_from-descent}

-- The leaf of the key has room for one more entry.
pub record HasRoomFor (fuel : ℕ) (root : Ptr) (key : ℕ) (s : Store) (leaf : Ptr) (n : Node)
    : Type 0 where
  pub reached : find_leaf_from fuel root key s ≡ done leaf s
  pub holds : s.nodes leaf ≡ some n
  pub below : n.num_keys < s.order - 1
  pub room : HasRoom n

-- `insert` from `make_record` on, once it is known where the descent ends.
insert_new-room :
    (key value fuel : ℕ) (s s' : Store) (root r leaf : Ptr) (n : Node)
    → make_record value s ≡ done r s'
    → (root == null) ≡ false
    → find_leaf_from fuel root key s' ≡ done leaf s'
    → Holds s' leaf n
    → n.num_keys < s'.order - 1
    → HasRoom n
    → insert_new fuel root key value s ≡ done root (put leaf (leaf_with key r n) s')
unfolding insert_new
insert_new-room key value fuel s s' root r leaf n made there found h below room =
    rw
      (
        made,
        there,
        found,
        load_lem h,
        lt→ltb n.num_keys (s'.order - 1) below,
        insert_into_leaf-leaf_with key r h room,
      )
      refl

-- A tree of any height whose nodes are all at different addresses, with more fuel than its height;
-- a key that no entry has and whose leaf has room; and a record free, or memory for a slab of them.
-- Then `insert` returns the same root. The root leads to a tree of the same height, over the same
-- nodes, that has the new entry in its place among the others; and the entry's record has the value.
pub insert-insert_entry :
    (key value h fuel : ℕ) (s : Store) (root : Ptr) (es : List (ℕ × Ptr)) (ns : List Ptr)
    (leaf : Ptr) (n : Node)
    → Owned s h root es ns
    → Distinct ns
    → h < fuel
    → lookup key es ≡ null
    → HasRecord s
    → HasRoomFor fuel root key s leaf n
    → (r : Ptr) × (after : Store) × (insert fuel root key value s ≡ done root after)
      × Owned after h root (insert_entry key r es) ns
      × (made : Rec) × (after.records r ≡ some made)
      × (made.word ≡ value)
      × (r ≢ null)
unfolding insert
insert-insert_entry key value h fuel s root es ns leaf n t distinct lt missing free room =
    let (r, s', run, made) = make_record-Recorded s value free in
    let whole = Owned-Tree s h root es ns t in
    let there = root_not_null h s root es whole in
    let (l0, part0, n0, leaf0, found) = find-lookup key h fuel s root es whole lt in
    let none_yet : (lookup key es == null) ≡ true = ground arith in
    let (leaf', part, n', l, inside, down, down', back) =
      find_leaf_from-descent s s' key (insert_entry key r) h fuel (insert_entry-Edit key r) lt root
        es ns (Agree-equal s s' ns made.nodes) distinct t in
    let same_leaf : leaf ≡ leaf' = done_inj (sym room.reached ∙ down) in
    let held : s.nodes leaf' ≡ some n = rw same_leaf at room.holds in
    let same_node : n ≡ n' = some_inj (sym held ∙ l.at.holds) in
    let space : HasRoom n' = rw same_node at room.room in
    let below : n'.num_keys < s'.order - 1 = rw (made.order, ← same_node) room.below in
    let l' : Leaf s' leaf' part n' = Leaf-same (ap (λ f. f leaf') made.nodes) l in
    let m = leaf_with key r n' in
    let (record_made, there_made, value_made) = made.there in
    (
      r,
      put leaf' m s',
      rw (found, none_yet)
          (insert_new-room key value fuel s s' root r leaf' n' run there down' l'.at below space),
      back (put leaf' m s') m (rw l'.entries (leaf_with-Leaf key r l'.at l'.is_leaf space))
          (AgreeBut-put s s' leaf' m made.nodes),
      record_made,
      there_made,
      value_made,
      made.ne_null,
    )

-- Under the same conditions, after `insert` of the key, `find` of any key returns, with the memory
-- unchanged, the record of the new entry if it is that key, and otherwise what the tree held for it
-- before.
pub find-insert :
    (key value j h fuel : ℕ) (s : Store) (root : Ptr) (es : List (ℕ × Ptr)) (ns : List Ptr)
    (leaf : Ptr) (n : Node)
    → Owned s h root es ns
    → Distinct ns
    → h < fuel
    → lookup key es ≡ null
    → HasRecord s
    → HasRoomFor fuel root key s leaf n
    → (r : Ptr) × (after : Store) × (insert fuel root key value s ≡ done root after)
      × (made : Rec) × (after.records r ≡ some made)
      × (made.word ≡ value)
      × (found : Ptr) × (find fuel root j after
          ≡ done (if key == j then r else lookup j es, found) after)
find-insert key value j h fuel s root es ns leaf n t distinct lt missing free room =
    let (r, after, run, t', made, there, word, ne) =
      insert-insert_entry key value h fuel s root es ns leaf n t distinct lt missing free room in
    let whole = Owned-Tree after h root (insert_entry key r es) ns t' in
    let (found, part, m, l, search) =
      find-lookup j h fuel after root (insert_entry key r es) whole lt in
    (
      r,
      after,
      run,
      made,
      there,
      word,
      found,
      search ∙ ap (λ p. done (p, found) after) (lookup-insert_entry j key r es),
    )
