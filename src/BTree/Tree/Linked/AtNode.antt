-- ===== src/BTree/Tree/Linked/AtNode.antt =====
-- An insertion into a tree whose root is an internal node, given the insertion into the child.
use mathlib.Core.Path.{subst}
use nu_ksm_pact21_artifact.Base.{ℕ, suc, ◌≡◌, refl, inl, inr, false, List, [], ◌∷◌, ◌++◌, arith}
use nu_ksm_pact21_artifact.BTree.Store.{Ptr, Prog, Node, Store}
use nu_ksm_pact21_artifact.BTree.Store.Laws.{Holds}
use nu_ksm_pact21_artifact.BTree.Tree.Edit.{Entries}
use nu_ksm_pact21_artifact.BTree.Tree.Owned.{
  In, Distinct, In-append_left, In-append_right, Holds-same,
}
use nu_ksm_pact21_artifact.BTree.Tree.Addresses.{Disjoint, Within, Grows, NotIn-not, not-NotIn}
use nu_ksm_pact21_artifact.BTree.Tree.Nest.{Nest}
use nu_ksm_pact21_artifact.BTree.Tree.Nest.Focus.{passed, child, splice, splice_nil, Plug}
use nu_ksm_pact21_artifact.BTree.Tree.Linked.{HasShape, first_pointer, rest_of, Linked}
use nu_ksm_pact21_artifact.BTree.Tree.Linked.Effects.{Step, Step-within}
use nu_ksm_pact21_artifact.BTree.Tree.Linked.Level.{Selects}
use nu_ksm_pact21_artifact.BTree.Tree.Linked.Climb.{Ended}

-- The node, its child for the key, and what the whole is once the child has changed.
pub record Focused (o h : ℕ) (q : Ptr) (s : Store) (p : Ptr) (n : Node) (key : ℕ)
    (f : Entries → Entries) (es part : Entries) (below cn free : List Ptr) : Type 0 where
  pub held : Holds s p n
  pub inner : n.is_leaf ≡ false
  pub shape : HasShape o q n
  pub selects : Selects key n
  pub within : Within cn below
  pub plug :
      Plug
        (Linked o h p)
        s
        f
        (passed key (rest_of n))
        (first_pointer n)
        (rest_of n)
        es
        below
        (child key (first_pointer n) (rest_of n))
        part
        cn
  pub distinct : Distinct (p ∷ below)
  pub apart : Disjoint (p ∷ below) free

-- The node in the second store, with `sub` in place of the child.
pub record Plugged (o h : ℕ) (s : Store) (p : Ptr) (n : Node) (g : ℕ) (sub es : Entries)
    (below used : List Ptr) : Type 0 where
  pub addresses : List Ptr
  pub held : Holds s p n
  pub nest : Nest (Linked o h p s) (first_pointer n) (splice g sub (rest_of n)) es addresses
  pub distinct : Distinct (p ∷ addresses)
  pub grows : Grows (p ∷ below) used (p ∷ addresses)

pub plugged :
    {o h : ℕ} {q : Ptr} {s s' : Store} {p : Ptr} {n : Node} {key : ℕ} {f : Entries → Entries}
    {es part : Entries} {below cn free : List Ptr} (sub : Entries) (cn' used rest : List Ptr)
    → Focused o h q s p n key f es part below cn free
    → Within used free
    → Step s s' cn used rest
    → Nest (Linked o h p s') (child key (first_pointer n) (rest_of n)) sub (f part) cn'
    → Distinct cn'
    → Grows cn used cn'
    → Plugged o h s' p n (passed key (rest_of n)) sub (f es) below used
plugged {o} {h} {q} {s} {s'} {p} {n} {key} {f} {es} {part} {below} {cn} {free} sub cn' used rest z
      usable step nest d grows =
    let (p_new, d_below) = z.distinct in
    let apart = z.apart in
    let apart_used : Disjoint below used = λ x i j. apart x (inr i) (usable x j) in
    let p_used : In p used → ⊥ = λ j. apart p (inl refl) (usable p j) in
    let (ns', nest', d', grows') =
      z.plug s' sub cn' used (λ x i out. step.outside x out (λ j. apart_used x i j)) nest d grows
        apart_used in
    record {
      addresses = ns';
      held =
          Holds-same (step.outside p (λ i. NotIn-not p below p_new (z.within p i)) p_used) z.held;
      nest = nest';
      distinct = (
        not-NotIn p ns' (λ i. elim (grows' p i) [
          | inl old ↦ NotIn-not p below p_new old
          | inr new ↦ p_used new
        ]),
        d',
      );
      grows = λ x i. elim i [
        | inl e ↦ inl (inl e)
        | inr j ↦ elim (grows' x j) [ inl old ↦ inl (inr old) | inr new ↦ inr new ]
      ];
    }

pub in_left : (free used rest : List Ptr) → free ≡ used ++ rest → Within used free
in_left free used rest e x i = rw e (In-append_left x used rest i)

pub in_right : (free used rest : List Ptr) → free ≡ used ++ rest → Within rest free
in_right free used rest e x i = rw e (In-append_right x used rest i)

-- The insertion has ended below.
pub node_ended :
    {o h : ℕ} {q : Ptr} {s : Store} {p : Ptr} {n : Node} {key : ℕ} {f : Entries → Entries}
    {es part : Entries} {below cn free : List Ptr} {run : Prog Ptr} {root : Ptr}
    → Focused o h q s p n key f es part below cn free
    → Ended run o h p root (child key (first_pointer n) (rest_of n)) s cn free (f part)
    → Ended run o (suc h) q root p s (p ∷ below) free (f es)
node_ended {o} {h} {q} {s} {p} {n} {key} {f} {es} {part} {below} {cn} {free} z r =
    let usable = in_left free r.used r.rest r.taken in
    let t = r.subtree in
    let few = r.few in
    let u = plugged [] t.addresses r.used r.rest z usable r.step t.at t.distinct t.grows in
    record {
      after = r.after;
      used = r.used;
      rest = r.rest;
      taken = r.taken;
      few = omega arith;
      runs = r.runs;
      step = Step-within cn (p ∷ below) (λ x i. inr (z.within x i)) r.step;
      subtree = record {
        addresses = p ∷ u.addresses;
        at = (
          n,
          u.addresses,
          u.held,
          z.inner,
          z.shape,
          refl,
          subst (λ R. Nest (Linked o h p r.after) (first_pointer n) R (f es) u.addresses)
              (splice_nil (passed key (rest_of n)) (rest_of n)) u.nest,
        );
        distinct = u.distinct;
        grows = u.grows;
      };
    }
