-- ===== src/BTree/Tree/Linked/Rising.antt =====
-- An insertion that comes back to an internal node with a new child: into a node with room, and into a
-- full one.
use mathlib.Core.Path.{subst}
use nu_ksm_pact21_artifact.Base.{
  ℕ, suc, ◌+◌, ◌-◌, ◌^◌, ◌≤◌, ◌<◌, ◌≡◌, refl, sym, ap, ◌∙◌, inl, inr, List, [], ◌∷◌, ◌++◌, arith,
  length, length-append,
}
use nu_ksm_pact21_artifact.BTree.Store.{Ptr, Prog, Node, Store, put}
use nu_ksm_pact21_artifact.BTree.Store.Laws.{Holds, put-Holds}
use nu_ksm_pact21_artifact.BTree.Entries.Children.{node_with}
use nu_ksm_pact21_artifact.BTree.Tree.Edit.{Entries}
use nu_ksm_pact21_artifact.BTree.Tree.Owned.{In, Distinct, In-append_right}
use nu_ksm_pact21_artifact.BTree.Tree.Addresses.{
  Disjoint, NotIn-not, Distinct-Disjoint, Distinct-left, Distinct-right,
}
use nu_ksm_pact21_artifact.BTree.Tree.Nest.{Nest, append_assoc_lem}
use nu_ksm_pact21_artifact.BTree.Tree.Nest.Focus.{passed, child, splice, Nest-same}
use nu_ksm_pact21_artifact.BTree.Tree.Linked.{
  first_pointer, rest_of, Linked, Linked-Family, Linked-reparent,
}
use nu_ksm_pact21_artifact.BTree.Tree.Linked.Adopt.{put_ne}
use nu_ksm_pact21_artifact.BTree.Tree.Linked.Nodes.{node_with-rest}
use nu_ksm_pact21_artifact.BTree.Tree.Linked.Ready.{Ready, Free-same}
use nu_ksm_pact21_artifact.BTree.Tree.Linked.Effects.{
  Step, Grows-then, Step-within, Step-then, Divided-Grows,
}
use nu_ksm_pact21_artifact.BTree.Tree.Linked.SplitInner.{split_node-Divided}
use nu_ksm_pact21_artifact.BTree.Tree.Linked.Level.{
  insert_into_parent-room, insert_into_parent-full,
}
use nu_ksm_pact21_artifact.BTree.Tree.Linked.Climb.{Ended, Rises, first_free}
use nu_ksm_pact21_artifact.BTree.Tree.Linked.AtNode.{Focused, Plugged, plugged, in_left, in_right}

-- The two parts of the child under the node.
two_parts :
    {o h : ℕ} {q : Ptr} {s : Store} {p : Ptr} {n : Node} {key : ℕ} {f : Entries → Entries}
    {es part : Entries} {below cn free : List Ptr} {run : Prog Ptr} {root : Ptr} {fuel : ℕ}
    → Focused o h q s p n key f es part below cn free
    → (r : Rises run fuel o h p root (child key (first_pointer n) (rest_of n)) s cn free (f part))
    → Plugged o h r.after p n (passed key (rest_of n)) ((r.key, r.new) ∷ []) (f es) below r.used
two_parts {free} z r =
    let d = r.subtrees in
    plugged ((r.key, r.new) ∷ []) (d.ln ++ d.rn) r.used r.rest z
      (in_left free r.used r.rest r.taken) r.step
      (d.left, d.right, d.ln, d.rn, d.all, refl, d.at_left, d.below, d.from, d.at_right) d.distinct
      d.grows

-- The store after `insert_into_node`.
room_step :
    {s s' : Store} {p : Ptr} {n : Node} {ns used rest : List Ptr} (m : Node)
    → Step s s' ns used rest
    → Holds s' p n
    → In p ns
    → (In p rest → ⊥)
    → Step s (put p m s') ns used rest
room_step {s} {s'} {p} {n} {ns} {used} {rest} m step held inside out = record {
  outside = λ x a b. put_ne s' p x m (λ e. a (rw e inside)) ∙ step.outside x a b;
  order = step.order;
  records = step.records;
  free_recs = step.free_recs;
  ready = record {
    chain =
        Free-same s' (put p m s') s'.free_nodes rest (λ y j. put_ne s' p y m (λ e. out (rw e at j)))
          step.ready.chain;
    memory = step.ready.memory;
  };
}

-- The node has room for the new child.
pub node_room :
    {o h : ℕ} {q : Ptr} {s : Store} {p : Ptr} {n : Node} {key : ℕ} {f : Entries → Entries}
    {es part : Entries} {below cn free : List Ptr} {run : Prog Ptr} {root : Ptr} {left : ℕ}
    → s.order ≡ o
    → o < 2 ^ 64
    → n.num_keys < o - 1
    → Focused o h q s p n key f es part below cn free
    → Rises run (suc left) o h p root (child key (first_pointer n) (rest_of n)) s cn free (f part)
    → Ended run o (suc h) q root p s (p ∷ below) free (f es)
node_room {o} {h} {q} {s} {p} {n} {key} {f} {es} {part} {below} {cn} {free} {run} {root} {left}
      order word room z r =
    let g = passed key (rest_of n) in
    let c = child key (first_pointer n) (rest_of n) in
    let d = r.subtrees in
    let u = two_parts z r in
    let sel = z.selects in
    let inside = sel.inside in
    let keys = z.shape.arrays.keys in
    let pointers = z.shape.arrays.pointers in
    let same_order = r.step.order in
    let (nc, hc, parent, back) =
      Linked-reparent o h p p r.after c d.left d.ln (Distinct-left d.ln d.rn d.distinct)
        d.at_left in
    let m = node_with g r.key r.new n in
    let count = r.count in
    let (shape_m, first_m, rest_m) = node_with-rest o g r.key r.new q n z.shape inside room in
    let (p_new, d_new) = u.distinct in
    let s2 = put p m r.after in
    let usable = in_right free r.used r.rest r.taken in
    let nest2 : Nest (Linked o h p s2) (first_pointer m) (rest_of m) (f es) u.addresses =
      rw (first_m, rest_m)
        (Nest-same (Linked o h p) r.after s2 (first_pointer n)
          (splice g ((r.key, r.new) ∷ []) (rest_of n)) (f es) u.addresses (Linked-Family o h p)
          (λ x i. put_ne r.after p x m (λ e. NotIn-not p u.addresses p_new (rw e at i))) u.nest) in
    record {
      after = s2;
      used = r.used;
      rest = r.rest;
      taken = r.taken;
      few = omega arith;
      runs =
          r.runs
          ∙ insert_into_parent-room left g r.key root c r.new hc parent u.held sel.pointers inside
              (omega arith) (omega arith) (omega arith) (omega arith);
      step =
          room_step m (Step-within cn (p ∷ below) (λ x i. inr (z.within x i)) r.step) u.held
            (inl refl) (λ i. z.apart p (inl refl) (usable p i));
      subtree = record {
        addresses = p ∷ u.addresses;
        at = (m, u.addresses, put-Holds r.after m z.held.ne_null, z.inner, shape_m, refl, nest2);
        distinct = u.distinct;
        grows = u.grows;
      };
    }

-- The node is full, and splits.
pub node_full :
    {o h : ℕ} {q : Ptr} {s : Store} {p : Ptr} {n : Node} {key : ℕ} {f : Entries → Entries}
    {es part : Entries} {below cn free : List Ptr} {run : Prog Ptr} {root : Ptr} {left : ℕ}
    → s.order ≡ o
    → 2 < o
    → o < 2 ^ 64
    → n.num_keys ≡ o - 1
    → Distinct free
    → suc (suc h) ≤ length free
    → Focused o h q s p n key f es part below cn free
    → Rises run (suc left) o h p root (child key (first_pointer n) (rest_of n)) s cn free (f part)
    → Rises run left o (suc h) q root p s (p ∷ below) free (f es)
node_full {o} {h} {q} {s} {p} {n} {key} {f} {es} {part} {below} {cn} {free} {run} {root} {left}
      order wide word full d_free enough z r =
    let g = passed key (rest_of n) in
    let c = child key (first_pointer n) (rest_of n) in
    let d = r.subtrees in
    let u = two_parts z r in
    let sel = z.selects in
    let inside = sel.inside in
    let pointers = z.shape.arrays.pointers in
    let same_order = r.step.order in
    let (nc, hc, parent, back) =
      Linked-reparent o h p p r.after c d.left d.ln (Distinct-left d.ln d.rn d.distinct)
        d.at_left in
    let count = r.count in
    let all : length free ≡ length r.used + length r.rest =
      ap (λ (l : List Ptr). length l) r.taken ∙ length-append r.used r.rest in
    let (x, rest, e) = first_free 0 r.rest (omega arith) in
    let taken : free ≡ r.used ++ (x ∷ rest) = subst (λ l. free ≡ r.used ++ l) e r.taken in
    let d_split : Distinct (r.used ++ (x ∷ rest)) = subst Distinct taken d_free in
    let (x_rest, d_rest) = Distinct-right r.used (x ∷ rest) d_split in
    let usable = in_right free r.used (x ∷ rest) taken in
    let apart : Disjoint (p ∷ u.addresses) (x ∷ rest) = λ y i j. elim (u.grows y i) [
      | inl old ↦ z.apart y old (usable y j)
      | inr new ↦ Distinct-Disjoint r.used (x ∷ rest) d_split y new j
    ] in
    let (k, s2, split, step, subtrees) =
      split_node-Divided o q h g r.key r.new r.after p x n (f es) u.addresses rest
        (same_order ∙ order) u.held z.inner z.shape full inside wide word u.nest u.distinct
        (subst (Ready r.after) e r.step.ready) apart x_rest in
    record {
      after = s2;
      used = r.used ++ (x ∷ []);
      rest = rest;
      taken = taken ∙ sym (append_assoc_lem r.used (x ∷ []) rest);
      count = omega (arith, length-append r.used (x ∷ []));
      key = k;
      new = x;
      is_free = In-append_right x r.used (x ∷ []) (inl refl);
      runs =
          r.runs
          ∙ insert_into_parent-full left g r.key k root c r.new x hc parent u.held sel.pointers
              (omega arith) (omega arith) split;
      step =
          Step-then (p ∷ below) r.used (p ∷ u.addresses) r.rest rest x u.grows
            (Step-within cn (p ∷ below) (λ y i. inr (z.within y i)) r.step) step;
      subtrees =
          Divided-Grows (p ∷ u.addresses) (x ∷ []) (p ∷ below) (r.used ++ (x ∷ []))
            (λ l grows. Grows-then (p ∷ below) r.used (p ∷ u.addresses) l x u.grows grows) subtrees;
    }
