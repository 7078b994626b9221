-- ===== src/BTree/Tree/Search.antt =====
-- `find_leaf` and `find` on a B+ tree: the descent ends in a leaf that answers for the whole tree.
use nu_ksm_pact21_artifact.Base.{
  ℕ, zero, suc, ◌≤◌, ◌<◌, ◌≡◌, refl, sym, ap, ◌∙◌, false, inl, inr, List, [], ◌∷◌, ◌++◌, arith,
  ◌==◌, not, leb, if◌then◌else◌, Bool-cases, length, get_or,
}
use nu_ksm_pact21_artifact.BTree.Store.{Ptr, null, Node, Store, done}
use nu_ksm_pact21_artifact.BTree.Store.Laws.{load_lem, get_pointer_lem, not_null}
use nu_ksm_pact21_artifact.BTree.Find.{find_leaf_from, find_leaf, find}
use nu_ksm_pact21_artifact.BTree.Entries.Scan.{scan, scan-le, scan_keys_lem}
use nu_ksm_pact21_artifact.BTree.Entries.Leaf.{pairs}
use nu_ksm_pact21_artifact.BTree.Tree.{lookup, AllBelow, AllFrom, Children, Leaf, Tree}

lookup-append_below :
    (key b : ℕ) (left right : List (ℕ × Ptr))
    → AllBelow b left
    → b ≤ key
    → lookup key (left ++ right) ≡ lookup key right
unfolding lookup
lookup-append_below key b [] right below h = refl
lookup-append_below key b ((k, p) ∷ left) right below h =
    ground (arith, lookup-append_below key b left right below.1 h)

lookup-AllFrom : (key b : ℕ) (es : List (ℕ × Ptr)) → AllFrom b es → key < b → lookup key es ≡ null
unfolding lookup
lookup-AllFrom key b [] from h = refl
lookup-AllFrom key b ((k, p) ∷ es) from h = ground (arith, lookup-AllFrom key b es from.1 h)

lookup-append_from :
    (key b : ℕ) (left right : List (ℕ × Ptr))
    → AllFrom b right
    → key < b
    → lookup key (left ++ right) ≡ lookup key left
unfolding lookup
lookup-append_from key b [] right from h = lookup-AllFrom key b right from h
lookup-append_from key b ((k, p) ∷ left) right from h =
    ground (arith, lookup-append_from key b left right from h)

-- The child that the scan of the keys selects answers for the node.
Children-select :
    (P : Ptr → List (ℕ × Ptr) → Type 0) (key m : ℕ) (ks : List ℕ) (ps : List Ptr)
    (es : List (ℕ × Ptr))
    → Children P m ks ps es
    → let i = scan (λ k. leb k key) m ks in
      (part : List (ℕ × Ptr)) × P (get_or ps i 0) part
      × (i < length ps)
      × (lookup key es ≡ lookup key part)
unfolding scan
Children-select P key zero ks [] es c = absurd c
Children-select P key zero ks (p ∷ ps) es c = (es, c, omega arith, refl)
Children-select P key (suc m) [] ps es c = absurd c
Children-select P key (suc m) (k ∷ ks) [] es c = absurd c
Children-select P key (suc m) (k ∷ ks) (p ∷ ps) es (left, right, e, child, below, from, rest) =
    elim (Bool-cases (leb k key)) [
      | inl on ↦
          let (part, sub, inside, same) = Children-select P key m ks ps right rest in
          rw on (
            part,
            sub,
            omega arith,
            ap (lookup key) e ∙ lookup-append_below key k left right below (ground arith) ∙ same,
          )
      | inr off ↦ rw off (
        left,
        child,
        omega arith,
        ap (lookup key) e ∙ lookup-append_from key k left right from (ground arith),
      )
    ]

-- The descent ends in a leaf whose entries answer for the tree.
pub find_leaf_from_lem :
    (key h fuel : ℕ) (s : Store) (p : Ptr) (es : List (ℕ × Ptr))
    → Tree s h p es
    → h < fuel
    → (leaf : Ptr) × (part : List (ℕ × Ptr)) × (n : Node) × Leaf s leaf part n
      × (find_leaf_from fuel p key s ≡ done leaf s)
      × (lookup key es ≡ lookup key part)
unfolding find_leaf_from
find_leaf_from_lem key zero zero s p es t lt = absurd (omega arith)
find_leaf_from_lem key zero (suc fuel) s p es (n, l) lt =
    (p, es, n, l, rw (load_lem l.at, l.is_leaf), refl)
find_leaf_from_lem key (suc h) zero s p es t lt = absurd (omega arith)
find_leaf_from_lem key (suc h) (suc fuel) s p es (n, t) lt =
    let i = scan (λ k. leb k key) n.num_keys n.keys in
    let (part, sub, inside, same) =
      Children-select (Tree s h) key n.num_keys n.keys n.pointers es t.children in
    let (leaf, part', n', l, run, same') =
      find_leaf_from_lem key h fuel s (get_or n.pointers i 0) part sub (omega arith) in
    (
      leaf,
      part',
      n',
      l,
      rw
          (
            load_lem t.at,
            t.not_leaf,
            scan_keys_lem (λ k. leb k key) t.at t.keys,
            get_pointer_lem t.at i inside,
          )
          run,
      same ∙ same',
    )

-- The loop of `find` over a leaf stops at the entry that `lookup` takes, or at `num_keys`.
pub lookup-pairs :
    (key n : ℕ) (ks : List ℕ) (ps : List Ptr)
    → n ≤ length ks
    → n ≤ length ps
    → let i = scan (λ k. not (k == key)) n ks in
      lookup key (pairs n ks ps) ≡ (if i == n then null else get_or ps i 0)
unfolding lookup pairs scan
lookup-pairs key zero ks ps hk hp = refl
lookup-pairs key (suc n) [] ps hk hp = absurd (omega arith)
lookup-pairs key (suc n) (k ∷ ks) [] hk hp = absurd (omega arith)
lookup-pairs key (suc n) (k ∷ ks) (p ∷ ps) hk hp = elim (Bool-cases (k == key)) [
  | inl hit ↦ rw hit (ground arith)
  | inr miss ↦ rw miss (ground (arith, lookup-pairs key n ks ps))
]

pub root_not_null :
    (h : ℕ) (s : Store) (root : Ptr) (es : List (ℕ × Ptr))
    → Tree s h root es
    → (root == null) ≡ false
root_not_null zero s root es (n, l) = not_null l.at
root_not_null (suc h) s root es (n, t) = not_null t.at

-- What `find` returns once it is known in which leaf the descent ends.
pub find_lem :
    (key fuel : ℕ) (s : Store) (root leaf : Ptr) (part : List (ℕ × Ptr)) (n : Node)
    → (root == null) ≡ false
    → find_leaf_from fuel root key s ≡ done leaf s
    → Leaf s leaf part n
    → find fuel root key s ≡ done (lookup key part, leaf) s
unfolding find find_leaf
find_lem key fuel s root leaf part n there run l =
    let i = scan (λ k. not (k == key)) n.num_keys n.keys in
    let answer : lookup key part ≡ (if i == n.num_keys then null else get_or n.pointers i 0) =
      ap (lookup key) l.entries ∙ lookup-pairs key n.num_keys n.keys n.pointers l.keys l.pointers in
    let upto = scan-le (λ k. not (k == key)) n.num_keys n.keys in
    elim (Bool-cases (i == n.num_keys)) [
      | inl missing ↦
          rw
            (
              there,
              run,
              load_lem l.at,
              scan_keys_lem (λ k. not (k == key)) l.at l.keys,
              answer,
              missing,
            )
            refl
      | inr found ↦
          rw
            (
              there,
              run,
              load_lem l.at,
              scan_keys_lem (λ k. not (k == key)) l.at l.keys,
              answer,
              found,
              get_pointer_lem l.at i (ground arith),
            )
            refl
    ]

-- In a tree, with more rounds than its height, `find` returns the record pointer that the tree's
-- entries hold for the key, or NULL if they hold none, and the leaf that it looked in; it reads no
-- freed or missing memory and changes nothing.
pub find-lookup :
    (key h fuel : ℕ) (s : Store) (root : Ptr) (es : List (ℕ × Ptr))
    → Tree s h root es
    → h < fuel
    → (leaf : Ptr) × (part : List (ℕ × Ptr)) × (n : Node) × Leaf s leaf part n
      × (find fuel root key s ≡ done (lookup key es, leaf) s)
find-lookup key h fuel s root es t lt =
    let (leaf, part, n, l, run, same) = find_leaf_from_lem key h fuel s root es t lt in
    (
      leaf,
      part,
      n,
      l,
      find_lem key fuel s root leaf part n (root_not_null h s root es t) run l
          ∙ ap (λ p. done (p, leaf) s) (sym same),
    )
