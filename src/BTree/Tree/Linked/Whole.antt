-- ===== src/BTree/Tree/Linked/Whole.antt =====
-- An insertion into a whole well-formed tree, once the record is made.
use mathlib.Core.Path.{subst}
use nu_ksm_pact21_artifact.Base.{
  ℕ, zero, suc, ◌+◌, ◌-◌, ◌^◌, ◌≤◌, ◌<◌, ◌≡◌, refl, sym, ap, ◌∙◌, ◌⊎◌, inl, inr, List, [], ◌∷◌,
  ◌++◌, arith, length, length-append,
}
use nu_ksm_pact21_artifact.BTree.Store.{Ptr, null, Prog, Store, done}
use nu_ksm_pact21_artifact.BTree.Store.Laws.{not_null}
use nu_ksm_pact21_artifact.BTree.Find.{find_leaf}
use nu_ksm_pact21_artifact.BTree.Entries.Leaf.{insert_entry}
use nu_ksm_pact21_artifact.BTree.Tree.Edit.{Entries}
use nu_ksm_pact21_artifact.BTree.Tree.Insertion.{IsNew, IsSorted, insert_entry-IsSorted}
use nu_ksm_pact21_artifact.BTree.Tree.Owned.{In, Distinct, In-append_left, In-append_right}
use nu_ksm_pact21_artifact.BTree.Tree.Addresses.{
  Disjoint, Grows, In-append, Distinct-Disjoint, Distinct-right,
}
use nu_ksm_pact21_artifact.BTree.Tree.Nest.{append_assoc_lem}
use nu_ksm_pact21_artifact.BTree.Tree.Linked.{Linked, Linked-reparent}
use nu_ksm_pact21_artifact.BTree.Tree.Linked.Ready.{Ready}
use nu_ksm_pact21_artifact.BTree.Tree.Linked.Effects.{Step, Replaced}
use nu_ksm_pact21_artifact.BTree.Tree.Linked.Climb.{place, Rises, first_free}
use nu_ksm_pact21_artifact.BTree.Tree.Linked.AtNode.{in_right}
use nu_ksm_pact21_artifact.BTree.Tree.Linked.Induction.{inserts}
use nu_ksm_pact21_artifact.BTree.Tree.Linked.Root.{root_full}

-- A well-formed tree of order `o` and height `h`: its entries are sorted, its nodes are at different
-- addresses, and none of them is among the free nodes.
pub record WellFormed (o h : ℕ) (s : Store) (root : Ptr) (es : Entries) (ns free : List Ptr)
    : Type 0 where
  pub order : s.order ≡ o
  pub wide : 2 < o
  pub word : o < 2 ^ 64
  pub tree : Linked o h null s root es ns
  pub distinct : Distinct ns
  pub sorted : IsSorted es
  pub ready : Ready s free
  pub free_distinct : Distinct free
  pub apart : Disjoint ns free

-- What a run leaves: a well-formed tree with these entries, at most one level higher, whose nodes are
-- the old ones and nodes taken from the free list, two more than the height at most.
pub record Leaves (run : Prog Ptr) (o h : ℕ) (s : Store) (ns free : List Ptr) (es : Entries)
    : Type 0 where
  pub after : Store
  pub root : Ptr
  pub height : ℕ
  pub addresses : List Ptr
  pub used : List Ptr
  pub rest : List Ptr
  pub runs : run s ≡ done root after
  pub tree : WellFormed o height after root es addresses rest
  pub level : (height ≡ h) ⊎ (height ≡ suc h)
  pub taken : free ≡ used ++ rest
  pub few : length used ≤ suc (suc h)
  pub grows : Grows ns used addresses
  pub outside : (x : Ptr) → (In x ns → ⊥) → (In x used → ⊥) → after.nodes x ≡ s.nodes x
  pub records : after.records ≡ s.records
  pub free_recs : after.free_recs ≡ s.free_recs

-- The new tree, from the step and the subtree at the root.
leaves :
    {run : Prog Ptr} {o h : ℕ} {s : Store} {root p : Ptr} {es fs : Entries} {ns free : List Ptr}
    (g : ℕ) (after : Store) (used rest : List Ptr)
    → WellFormed o h s p es ns free
    → IsSorted fs
    → run s ≡ done root after
    → (g ≡ h) ⊎ (g ≡ suc h)
    → free ≡ used ++ rest
    → length used ≤ suc (suc h)
    → Step s after ns used rest
    → Replaced o g null after root ns used fs
    → Leaves run o h s ns free fs
leaves {run} {o} {h} {s} {root} {p} {es} {fs} {ns} {free} g after used rest w sorted runs level
      taken few step t =
    let d : Distinct (used ++ rest) = subst Distinct taken w.free_distinct in
    record {
      after = after;
      root = root;
      height = g;
      addresses = t.addresses;
      used = used;
      rest = rest;
      runs = runs;
      tree = record {
        order = step.order ∙ w.order;
        wide = w.wide;
        word = w.word;
        tree = t.at;
        distinct = t.distinct;
        sorted = sorted;
        ready = step.ready;
        free_distinct = Distinct-right used rest d;
        apart = λ x i j. elim (t.grows x i) [
          | inl old ↦ w.apart x old (in_right free used rest taken x j)
          | inr new ↦ Distinct-Disjoint used rest d x new j
        ];
      };
      level = level;
      taken = taken;
      few = few;
      grows = t.grows;
      outside = step.outside;
      records = step.records;
      free_recs = step.free_recs;
    }

-- A root that has split.
root_splits :
    {run : Prog Ptr} {o h fuel : ℕ} {s : Store} {root : Ptr} {es fs : Entries} {ns free : List Ptr}
    → WellFormed o h s root es ns free
    → IsSorted fs
    → suc (suc h) ≤ length free
    → Rises run (suc fuel) o h null root root s ns free fs
    → Leaves run o h s ns free fs
root_splits {run} {o} {h} {fuel} {s} {root} {es} {fs} {ns} {free} w sorted enough r =
    let count = r.count in
    let all : length free ≡ length r.used + length r.rest =
      ap (λ (l : List Ptr). length l) r.taken ∙ length-append r.used r.rest in
    let (x, rest, e) = first_free 0 r.rest (omega arith) in
    let taken : free ≡ r.used ++ (x ∷ rest) = subst (λ l. free ≡ r.used ++ l) e r.taken in
    let d : Distinct (r.used ++ (x ∷ rest)) = subst Distinct taken w.free_distinct in
    let (x_rest, d_rest) = Distinct-right r.used (x ∷ rest) d in
    let (s2, run2, step, subtree) =
      root_full o h fuel r.key root root r.new x r.after fs ns r.used rest (r.step.order ∙ w.order)
        w.wide r.subtrees (subst (Ready r.after) e r.step.ready)
        (λ y i j. elim i [
          | inl old ↦ w.apart y old (in_right free r.used (x ∷ rest) taken y j)
          | inr new ↦ Distinct-Disjoint r.used (x ∷ rest) d y new j
        ])
        x_rest in
    leaves (suc h) s2 (r.used ++ (x ∷ [])) rest w sorted (r.runs ∙ run2) (inr refl)
      (taken ∙ sym (append_assoc_lem r.used (x ∷ []) rest))
      (omega (arith, length-append r.used (x ∷ [])))
      (record {
        outside = λ y a b.
            step.outside y
              (λ i. elim (In-append y ns r.used i) [
                | inl j ↦ a j
                | inr j ↦ b (In-append_left y r.used (x ∷ []) j)
              ])
              (λ i. b (In-append_right y r.used (x ∷ []) i))
            ∙ r.step.outside y a (λ i. b (In-append_left y r.used (x ∷ []) i));
        order = step.order ∙ r.step.order;
        records = step.records ∙ r.step.records;
        free_recs = step.free_recs ∙ r.step.free_recs;
        ready = step.ready;
      })
      subtree

fuel_lem : (h fuel : ℕ) → h < fuel → (left : ℕ) × (fuel ≡ suc left + h)
fuel_lem h zero lt = absurd (omega arith)
fuel_lem h (suc fuel) lt = (fuel - h, omega arith)

-- The insertion of a new key with its record into a well-formed tree, with more fuel than the height
-- and two more free nodes than it: `find_leaf` returns a leaf, and the rest of the insertion returns
-- the root of a well-formed tree with the new entry.
pub place-Leaves :
    (o h fuel : ℕ) (s : Store) (root : Ptr) (es : Entries) (ns free : List Ptr) (key : ℕ) (r : Ptr)
    → WellFormed o h s root es ns free
    → h < fuel
    → suc (suc h) ≤ length free
    → IsNew key es
    → (leaf : Ptr) × (find_leaf fuel root key s ≡ done leaf s)
      × Leaves (place fuel root leaf key r) o h s ns free (insert_entry key r es)
unfolding find_leaf
place-Leaves o h fuel s root es ns free key r w lt enough new =
    let (left, e) = fuel_lem h fuel lt in
    let (leaf, down, back) =
      inserts h fuel (suc left) o null root s root ns free key r es e (record {
        order = w.order;
        wide = w.wide;
        word = w.word;
        tree = w.tree;
        distinct = w.distinct;
        ready = w.ready;
        free_distinct = w.free_distinct;
        apart = w.apart;
        enough = omega arith;
        new = new;
        sorted = w.sorted;
      }) in
    let (n, held, parent, other) = Linked-reparent o h null null s root es ns w.distinct w.tree in
    let sorted = insert_entry-IsSorted key r es new w.sorted in
    (
      leaf,
      rw (not_null held) (down fuel lt),
      elim back [
        | inl ended ↦
            let few = ended.few in
            leaves h ended.after ended.used ended.rest w sorted ended.runs (inl refl) ended.taken
              (omega arith) ended.step ended.subtree
        | inr rises ↦ root_splits w sorted enough rises
      ],
    )
