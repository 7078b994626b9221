-- ===== src/BTree/Tree/Linked/Climb.antt =====
-- An insertion into a subtree of a whole well-formed tree: the descent to the leaf, and the climb as far
-- as the subtree's root.
use nu_ksm_pact21_artifact.Base.{
  ℕ, suc, ◌-◌, ◌^◌, ◌≤◌, ◌<◌, ◌≡◌, refl, ◌⊎◌, List, [], ◌∷◌, ◌++◌, arith, ltb, if◌then◌else◌,
  length,
}
use nu_ksm_pact21_artifact.BTree.Store.{Ptr, Prog, Store, done, pure, ◌>>=◌, gets, load}
use nu_ksm_pact21_artifact.BTree.Find.{find_leaf_from}
use nu_ksm_pact21_artifact.BTree.Insert.{insert_into_parent, insert_into_leaf_after_splitting}
use nu_ksm_pact21_artifact.BTree.Entries.{insert_into_leaf}
use nu_ksm_pact21_artifact.BTree.Entries.Leaf.{insert_entry}
use nu_ksm_pact21_artifact.BTree.Tree.Edit.{Entries}
use nu_ksm_pact21_artifact.BTree.Tree.Insertion.{AllAbove, IsNew, IsSorted}
use nu_ksm_pact21_artifact.BTree.Tree.Owned.{In, Distinct}
use nu_ksm_pact21_artifact.BTree.Tree.Addresses.{Disjoint}
use nu_ksm_pact21_artifact.BTree.Tree.Linked.{Linked}
use nu_ksm_pact21_artifact.BTree.Tree.Linked.Ready.{Ready}
use nu_ksm_pact21_artifact.BTree.Tree.Linked.Effects.{Step, Divided, Replaced}

-- The rest of `insert`, once the leaf is found.
abbrev pub place : ℕ → Ptr → Ptr → ℕ → Ptr → Prog Ptr
place fuel root leaf key r = do
  n ← load leaf
  order ← gets (λ s. s.order)
  if ltb n.num_keys (order - 1)
      then (do same ← insert_into_leaf leaf key r; pure root)
      else insert_into_leaf_after_splitting fuel root leaf key r

-- The insertion has ended inside the subtree.
pub record Ended (run : Prog Ptr) (o h : ℕ) (q root p : Ptr) (s : Store) (ns free : List Ptr)
    (es : Entries) : Type 0 where
  pub after : Store
  pub used : List Ptr
  pub rest : List Ptr
  pub taken : free ≡ used ++ rest
  pub few : length used ≤ suc h
  pub runs : run s ≡ done root after
  pub step : Step s after ns used rest
  pub subtree : Replaced o h q after p ns used es

-- The subtree has split, and its parent has to take the new one.
pub record Rises (run : Prog Ptr) (fuel o h : ℕ) (q root p : Ptr) (s : Store) (ns free : List Ptr)
    (es : Entries) : Type 0 where
  pub after : Store
  pub used : List Ptr
  pub rest : List Ptr
  pub taken : free ≡ used ++ rest
  pub count : length used ≡ suc h
  pub key : ℕ
  pub new : Ptr
  pub is_free : In new used
  pub runs : run s ≡ insert_into_parent fuel root p key new after
  pub step : Step s after ns used rest
  pub subtrees : Divided o h q after p new ns used key es

pub record Conditions (o h : ℕ) (q : Ptr) (s : Store) (p : Ptr) (ns free : List Ptr) (key : ℕ)
    (es : Entries) : Type 0 where
  pub order : s.order ≡ o
  pub wide : 2 < o
  pub word : o < 2 ^ 64
  pub tree : Linked o h q s p es ns
  pub distinct : Distinct ns
  pub ready : Ready s free
  pub free_distinct : Distinct free
  pub apart : Disjoint ns free
  pub enough : suc h ≤ length free
  pub new : IsNew key es
  pub sorted : IsSorted es

-- Where the descent goes, and the two ways in which the insertion can come back.
abbrev pub Inserts :
    ℕ → ℕ → ℕ → ℕ → Ptr → Ptr → Store → Ptr → List Ptr → List Ptr → ℕ → Ptr → Entries → Type 0
Inserts fuel left o h q root s p ns free key r es =
    (leaf : Ptr) × ((d : ℕ) → h < d → find_leaf_from d p key s ≡ done leaf s)
    × (Ended (place fuel root leaf key r) o h q root p s ns free (insert_entry key r es)
        ⊎ Rises (place fuel root leaf key r) left o h q root p s ns free (insert_entry key r es))

AllAbove-left : (b : ℕ) (xs ys : Entries) → AllAbove b (xs ++ ys) → AllAbove b xs
AllAbove-left b [] ys h = tt
AllAbove-left b ((k, p) ∷ xs) ys (less, h) = (less, AllAbove-left b xs ys h)

IsSorted-left : (xs ys : Entries) → IsSorted (xs ++ ys) → IsSorted xs
IsSorted-left [] ys h = tt
IsSorted-left ((k, p) ∷ xs) ys (above, h) = (AllAbove-left k xs ys above, IsSorted-left xs ys h)

pub IsSorted-part : (pre part post : Entries) → IsSorted (pre ++ (part ++ post)) → IsSorted part
IsSorted-part [] part post h = IsSorted-left part post h
IsSorted-part ((k, p) ∷ pre) part post (above, h) = IsSorted-part pre part post h

IsNew-left : (key : ℕ) (xs ys : Entries) → IsNew key (xs ++ ys) → IsNew key xs
IsNew-left key [] ys h = tt
IsNew-left key ((k, p) ∷ xs) ys (ne, h) = (ne, IsNew-left key xs ys h)

pub IsNew-part :
    (key : ℕ) (pre part post : Entries) → IsNew key (pre ++ (part ++ post)) → IsNew key part
IsNew-part key [] part post h = IsNew-left key part post h
IsNew-part key ((k, p) ∷ pre) part post (ne, h) = IsNew-part key pre part post h

-- At least one free node.
pub first_free :
    (n : ℕ) (free : List Ptr)
    → suc n ≤ length free
    → (x : Ptr) × (rest : List Ptr) × (free ≡ x ∷ rest)
first_free n [] h = absurd (omega arith)
first_free n (x ∷ rest) h = (x, rest, refl)
