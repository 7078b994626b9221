-- ===== src/BTree/Tree/Linked/Adopt.antt =====
-- The loop of `insert_into_node_after_splitting` that gives the children of the new node their parent.
use nu_ksm_pact21_artifact.Base.{
  ℕ, suc, ◌+◌, ◌≤◌, ◌<◌, ◌≡◌, ◌≢◌, refl, ◌∙◌, false, List, [], ◌∷◌, ◌++◌, arith, ◌==◌, length,
  get_or,
}
use nu_ksm_pact21_artifact.BTree.Store.{Ptr, Node, Store, done, put}
use nu_ksm_pact21_artifact.BTree.Store.Laws.{Holds, put-Holds, get_pointer_lem, set_parent_lem}
use nu_ksm_pact21_artifact.BTree.Entries.{adopt}
use nu_ksm_pact21_artifact.BTree.Tree.Edit.{Entries}
use nu_ksm_pact21_artifact.BTree.Tree.Owned.{
  In, Distinct, In-append_left, In-append_right, Holds-same,
}
use nu_ksm_pact21_artifact.BTree.Tree.Addresses.{Distinct-Disjoint, Distinct-left, Distinct-right}
use nu_ksm_pact21_artifact.BTree.Tree.Nest.{Nest}
use nu_ksm_pact21_artifact.BTree.Tree.Nest.Focus.{Nest-same, pointers_of}
use nu_ksm_pact21_artifact.BTree.Tree.Linked.{Linked, Linked-Family, Linked-reparent}

-- The two stores differ in their nodes at most.
pub record Kept (s s' : Store) : Type 0 where
  pub order : s'.order ≡ s.order
  pub free_nodes : s'.free_nodes ≡ s.free_nodes
  pub records : s'.records ≡ s.records
  pub free_recs : s'.free_recs ≡ s.free_recs
  pub supply : s'.supply ≡ s.supply

pub put_ne : (s : Store) (p x : Ptr) (n : Node) → x ≢ p → (put p n s).nodes x ≡ s.nodes x
put_ne s p x n ne = let other : (x == p) ≡ false = ground arith in rw other refl

-- One child: its tree is linked to the new parent afterwards.
reparent_one :
    (o h : ℕ) (old new : Ptr) (s : Store) (p : Ptr) (es : Entries) (ns : List Ptr)
    → Distinct ns
    → Linked o h old s p es ns
    → (n : Node) × Holds s p n × Linked o h new (put p (record n { parent = new }) s) p es ns
reparent_one o h old new s p es ns d t =
    let (n, held, parent, back) = Linked-reparent o h old new s p es ns d t in
    let m = record n { parent = new } in
    (n, held, back (put p m s) (put-Holds s m held.ne_null) (λ x i ne. put_ne s p x m ne))

pub adopt-Nest :
    (o h : ℕ) (old new : Ptr) (i : ℕ) (s : Store) (b : Node) (p : Ptr) (R es : Entries)
    (ns : List Ptr)
    → Holds s new b
    → (In new ns → ⊥)
    → Distinct ns
    → i + length R < length b.pointers
    → ((t : ℕ) → t ≤ length R → get_or b.pointers (i + t) 0 ≡ get_or (p ∷ pointers_of R) t 0)
    → Nest (Linked o h old s) p R es ns
    → (s' : Store) × (adopt (suc (length R)) new i s ≡ done tt s')
      × Nest (Linked o h new s') p R es ns
      × ((x : Ptr) → (In x ns → ⊥) → s'.nodes x ≡ s.nodes x)
      × Kept s s'
unfolding adopt
adopt-Nest o h old new i s b p [] es ns held out d room reads t =
    let (n, at, u) = reparent_one o h old new s p es ns d t in
    let m = record n { parent = new } in
    let e : i + 0 ≡ i = omega arith in
    let first : get_or b.pointers i 0 ≡ p = rw e at (reads 0 (omega arith)) in
    let fam = Linked-Family o h old in
    let root_in = fam.rooted s p es ns t in
    (
      put p m s,
      rw (get_pointer_lem held i (omega arith), first, set_parent_lem at new) refl,
      u,
      λ x off. put_ne s p x m (λ eq. off (rw eq root_in)),
      record { order = refl; free_nodes = refl; records = refl; free_recs = refl; supply = refl },
    )
adopt-Nest o h old new i s b p ((k, q) ∷ R) es ns held out d room reads
      (left, right, ln, rn, ee, en, t, below, from, rest) =
    let dd : Distinct (ln ++ rn) = rw en at d in
    let dl = Distinct-left ln rn dd in
    let (n, at, u) = reparent_one o h old new s p left ln dl t in
    let m = record n { parent = new } in
    let s1 = put p m s in
    let e : i + 0 ≡ i = omega arith in
    let first : get_or b.pointers i 0 ≡ p = rw e at (reads 0 (omega arith)) in
    let fam = Linked-Family o h old in
    let fam' = Linked-Family o h new in
    let root_in = fam.rooted s p left ln t in
    let new_out : new ≢ p = λ eq. out (rw (en, eq) (In-append_left p ln rn root_in)) in
    let held1 : Holds s1 new b = Holds-same (put_ne s p new m new_out) held in
    let rest1 =
      Nest-same (Linked o h old) s s1 q R right rn fam
        (λ x j. put_ne s p x m (λ eq. Distinct-Disjoint ln rn dd p root_in (rw eq at j))) rest in
    let (s2, run, nest, others, kept) =
      adopt-Nest o h old new (i + 1) s1 b q R right rn held1
        (λ j. out (rw en (In-append_right new ln rn j))) (Distinct-right ln rn dd) (omega arith)
        (λ v le.
          let shift : i + suc v ≡ i + 1 + v = omega arith in
          rw shift at (reads (suc v) (omega arith)))
        rest1 in
    (
      s2,
      rw (get_pointer_lem held i (omega arith), first, set_parent_lem at new) run,
      (
        left,
        right,
        ln,
        rn,
        ee,
        en,
        fam'.same s1 s2 p left ln (λ x j. others x (λ r. Distinct-Disjoint ln rn dd x j r)) u,
        below,
        from,
        nest,
      ),
      (λ x off.
          others x (λ j. off (rw en (In-append_right x ln rn j)))
          ∙ put_ne s p x m (λ eq. off (rw (en, eq) (In-append_left p ln rn root_in)))),
      record {
        order = kept.order;
        free_nodes = kept.free_nodes;
        records = kept.records;
        free_recs = kept.free_recs;
        supply = kept.supply;
      },
    )
