-- ===== src/BTree/Tree/Deletion.antt =====
-- `delete` of a key in a whole tree whose leaf for the key has entries to spare.
pub mod Lookup
use nu_ksm_pact21_artifact.Base.{
  ℕ, zero, suc, ◌+◌, ◌-◌, ◌*◌, ◌^◌, ◌≤◌, ◌<◌, ◌≡◌, ◌≢◌, refl, sym, ap, ◌∙◌, inl, inr, true, false,
  Option, some, List, [], ◌∷◌, ◌++◌, arith, ltb, leb, ◌==◌, not, if◌then◌else◌, Bool-cases, length,
  length-append,
}
use nu_ksm_pact21_artifact.BTree.Store.{Ptr, null, Node, Rec, Store, done, put, update}
use nu_ksm_pact21_artifact.BTree.Store.Laws.{Holds, not_null, load_lem}
use nu_ksm_pact21_artifact.BTree.Find.{find_leaf_from, find}
use nu_ksm_pact21_artifact.BTree.Entries.Leaf.{pairs, entries}
use nu_ksm_pact21_artifact.BTree.Shrink.{remove_entry_from_node}
use nu_ksm_pact21_artifact.BTree.Delete.{min_keys, delete_entry, delete}
use nu_ksm_pact21_artifact.BTree.Tree.{lookup, Leaf, Tree}
use nu_ksm_pact21_artifact.BTree.Tree.Search.{
  find-lookup, find_lem, find_leaf_from_lem, root_not_null,
}
use nu_ksm_pact21_artifact.BTree.Tree.Insertion.{IsNew, AllAbove, IsSorted}
use nu_ksm_pact21_artifact.BTree.Tree.Removal.{remove_entry_from_node-entries}
use nu_ksm_pact21_artifact.BTree.Tree.Removal.Lists.{IsNewPtr}
use nu_ksm_pact21_artifact.BTree.Tree.Owned.{
  NotIn, Distinct, AgreeBut-put, Agree-equal, Owned, Owned-Tree, Leaf-same, done_inj, some_inj,
}
use nu_ksm_pact21_artifact.BTree.Tree.Edit.{Entries, remove_entry, remove_entry-Edit}
use nu_ksm_pact21_artifact.BTree.Tree.Descent.{find_leaf_from-descent}

-- The record pointers of the entries.
abbrev pub record_pointers : Entries → List Ptr
record_pointers [] = []
record_pointers ((k, p) ∷ es) = p ∷ record_pointers es

-- The entry that a lookup finds, between the ones before it and the ones behind it.
split-lookup :
    (key : ℕ) (es : Entries)
    → lookup key es ≢ null
    → (before : Entries) × (after : Entries) × (es ≡ before ++ ((key, lookup key es) ∷ after))
      × IsNew key before
      × (remove_entry key es ≡ before ++ after)
unfolding lookup remove_entry
split-lookup key [] ne = absurd (ne refl)
split-lookup key ((k, p) ∷ es) ne = elim (Bool-cases (k == key)) [
  | inl hit ↦
      let same : k ≡ key = ground arith in rw hit ([], es, ap (λ j. (j, p) ∷ es) same, tt, refl)
  | inr miss ↦
      let (before, after, e, new, gone) = split-lookup key es (rw miss at ne) in
      rw miss
        ((k, p) ∷ before, after, ap (λ l. (k, p) ∷ l) e, (miss, new), ap (λ l. (k, p) ∷ l) gone)
]

NotIn-pointers :
    (p key : ℕ) (r : Ptr) (before after : Entries)
    → NotIn p (record_pointers (before ++ ((key, r) ∷ after)))
    → (p == r) ≡ false
NotIn-pointers p key r [] after (ne, rest) = ground arith
NotIn-pointers p key r ((k, q) ∷ before) after (ne, rest) = NotIn-pointers p key r before after rest

Distinct-IsNewPtr :
    (key : ℕ) (r : Ptr) (before after : Entries)
    → Distinct (record_pointers (before ++ ((key, r) ∷ after)))
    → IsNewPtr r before
Distinct-IsNewPtr key r [] after d = tt
Distinct-IsNewPtr key r ((k, p) ∷ before) after (n, d) =
    (NotIn-pointers p key r before after n, Distinct-IsNewPtr key r before after d)

pub length-pairs :
    (n : ℕ) (ks : List ℕ) (ps : List Ptr)
    → n ≤ length ks
    → n ≤ length ps
    → length (pairs n ks ps) ≡ n
unfolding pairs
length-pairs zero ks ps hk hp = refl
length-pairs (suc n) [] ps hk hp = absurd (omega arith)
length-pairs (suc n) (k ∷ ks) [] hk hp = absurd (omega arith)
length-pairs (suc n) (k ∷ ks) (p ∷ ps) hk hp =
    omega (arith, length-pairs n ks ps (omega arith) (omega arith))

num_keys-length :
    (s : Store) (leaf : Ptr) (es : Entries) (n : Node) → Leaf s leaf es n → n.num_keys ≡ length es
num_keys-length s leaf es n l = sym (
    ap (λ (x : Entries). length x) l.entries
    ∙ length-pairs n.num_keys n.keys n.pointers l.keys l.pointers)

-- The leaf of the key has more entries than it must keep, each with a record of its own, and arrays
-- of the tree's order.
pub record HasSpareFor (fuel : ℕ) (root : Ptr) (key : ℕ) (s : Store) (leaf : Ptr) (n : Node)
    : Type 0 where
  pub reached : find_leaf_from fuel root key s ≡ done leaf s
  pub holds : s.nodes leaf ≡ some n
  pub above : min_keys s.order true < n.num_keys
  pub not_last : 1 < n.num_keys
  pub word : n.num_keys < 2 ^ 64
  pub fits : s.order ≤ length n.pointers + 1
  pub own : Distinct (record_pointers (entries n))

-- A leaf that keeps enough entries ends the climb at once, also if it is the root.
delete_entry-enough :
    (fuel key : ℕ) (root leaf r : Ptr) (s : Store) (m : Node)
    → remove_entry_from_node leaf key r s ≡ done leaf (put leaf m s)
    → Holds (put leaf m s) leaf m
    → m.is_leaf ≡ true
    → 0 < m.num_keys
    → min_keys s.order true ≤ m.num_keys
    → delete_entry (suc fuel) root leaf key r s ≡ done root (put leaf m s)
unfolding delete_entry
delete_entry-enough fuel key root leaf r s m run h is_leaf some_key enough =
    elim (Bool-cases (leaf == root)) [
      | inl top ↦
          let same : leaf ≡ root = ground arith in
          let more : ltb 0 m.num_keys ≡ true = ground arith in
          rw (run, top, ← same, load_lem h, more) refl
      | inr below ↦
          let kept : leb (min_keys s.order true) m.num_keys ≡ true = ground arith in
          rw (run, below, load_lem h, is_leaf, kept) refl
    ]

Leaf-entries :
    {s : Store} {p : Ptr} {es fs : Entries} {n : Node} → es ≡ fs → Leaf s p es n → Leaf s p fs n
Leaf-entries e l = record {
  at = l.at;
  is_leaf = l.is_leaf;
  keys = l.keys;
  pointers = l.pointers;
  entries = sym e ∙ l.entries;
}

-- Two descents to a leaf end at the same entries.
same_entries :
    {s : Store} {leaf leaf' : Ptr} {part part' : Entries} {n n' : Node}
    → leaf ≡ leaf'
    → Leaf s leaf part n
    → Leaf s leaf' part' n'
    → part ≡ part'
same_entries {s} {leaf} {leaf'} {part} {part'} {n} {n'} e l l' =
    let held : s.nodes leaf' ≡ some n = rw e at l.at.holds in
    let same : n ≡ n' = some_inj (sym held ∙ l'.at.holds) in
    l.entries ∙ ap (λ (m : Node). entries m) same ∙ sym l'.entries

-- The store after the leaf has lost the entry and the record has gone to the free list.
abbrev pub freed : Ptr → Rec → Ptr → Node → Store → Store
freed r old leaf m s = record (put leaf m s) {
  records = update s.records r (record old { word = s.free_recs });
  free_recs = r;
}

delete-freed :
    (fuel key : ℕ) (s : Store) (root leaf r : Ptr) (m : Node) (old : Rec)
    → find fuel root key s ≡ done (r, leaf) s
    → (r == null) ≡ false
    → (leaf == null) ≡ false
    → s.records r ≡ some old
    → delete_entry fuel root leaf key r s ≡ done root (put leaf m s)
    → delete fuel root key s ≡ done root (freed r old leaf m s)
unfolding delete
delete-freed fuel key s root leaf r m old found there leaf_there held run =
    rw (found, there, leaf_there, run, held, held) refl

-- `delete_entry` on the leaf at the end of the descent.
delete_entry-spare :
    (fuel key : ℕ) (s : Store) (root leaf : Ptr) (part : Entries) (n : Node)
    → Leaf s leaf part n
    → lookup key part ≢ null
    → HasSpareFor (suc fuel) root key s leaf n
    → (m : Node) × (delete_entry (suc fuel) root leaf key (lookup key part) s
        ≡ done root (put leaf m s))
      × Leaf (put leaf m s) leaf (remove_entry key part) m
delete_entry-spare fuel key s root leaf part n l ne spare =
    let (before, after, e, new, gone) = split-lookup key part ne in
    let r = lookup key part in
    let whole : Leaf s leaf (before ++ ((key, r) ∷ after)) n = Leaf-entries e l in
    let own = rw (← l.entries, e) at spare.own in
    let (m, run, l') =
      remove_entry_from_node-entries key r leaf s before after n whole spare.fits spare.word new
        (Distinct-IsNewPtr key r before after own) in
    let left : m.num_keys ≡ length (before ++ after) =
      num_keys-length (put leaf m s) leaf (before ++ after) m l' in
    let held : n.num_keys ≡ length (before ++ ((key, r) ∷ after)) =
      num_keys-length s leaf (before ++ ((key, r) ∷ after)) n whole in
    let sum = length-append before after in
    let sum' = length-append before ((key, r) ∷ after) in
    let above = spare.above in
    let more = spare.not_last in
    (
      m,
      delete_entry-enough fuel key root leaf r s m run l'.at l'.is_leaf (omega arith) (omega arith),
      Leaf-entries (sym gone) l',
    )

-- A tree of any height whose nodes are all at different addresses, with more fuel than its height; a
-- key of the tree, whose record is there, and whose leaf has at least two entries and more of them
-- than a leaf must keep, each with a record pointer of its own. Then `delete` returns the same root.
-- The root leads to a tree of the same height, over the same nodes, that has lost the key's first
-- entry and no other; and the entry's record stands at the head of the free list.
pub delete-remove_entry :
    (key h fuel : ℕ) (s : Store) (root : Ptr) (es : Entries) (ns : List Ptr) (leaf : Ptr) (n : Node)
    (old : Rec)
    → Owned s h root es ns
    → Distinct ns
    → h < fuel
    → lookup key es ≢ null
    → s.records (lookup key es) ≡ some old
    → HasSpareFor fuel root key s leaf n
    → (after : Store) × (delete fuel root key s ≡ done root after)
      × Owned after h root (remove_entry key es) ns
      × (after.free_recs ≡ lookup key es)
delete-remove_entry key h zero s root es ns leaf n old t distinct lt ne held spare =
    absurd (omega arith)
delete-remove_entry key h (suc fuel) s root es ns leaf n old t distinct lt ne held spare =
    let r = lookup key es in
    let whole = Owned-Tree s h root es ns t in
    let there = root_not_null h s root es whole in
    let (leaf1, part1, n1, l1, down1, same) =
      find_leaf_from_lem key h (suc fuel) s root es whole lt in
    let (leaf2, part, n2, l, inside, down, down', back) =
      find_leaf_from-descent s s key (remove_entry key) h (suc fuel) (remove_entry-Edit key) lt root
        es ns (Agree-equal s s ns refl) distinct t in
    let answer : r ≡ lookup key part =
      same ∙ ap (lookup key) (same_entries (done_inj (sym down1 ∙ down)) l1 l) in
    let to_leaf : leaf ≡ leaf2 = done_inj (sym spare.reached ∙ down) in
    let kept : s.nodes leaf2 ≡ some n = rw to_leaf at spare.holds in
    let to_node : n ≡ n2 = some_inj (sym kept ∙ l.at.holds) in
    let spare' : HasSpareFor (suc fuel) root key s leaf2 n2 = rw (to_leaf, to_node) at spare in
    let (m, run, l') =
      delete_entry-spare fuel key s root leaf2 part n2 l (λ e. ne (answer ∙ e)) spare' in
    let found = find_lem key (suc fuel) s root leaf2 part n2 there down l in
    let after = freed r old leaf2 m s in
    let some_record : (r == null) ≡ false = ground arith in
    (
      after,
      delete-freed (suc fuel) key s root leaf2 r m old (rw (← answer) at found) some_record
          (not_null l.at) held (rw (← answer) at run),
      back after m (Leaf-same refl l') (AgreeBut-put s s leaf2 m refl),
      refl,
    )
