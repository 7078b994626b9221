-- ===== src/BTree/Tree/Split/Halves.antt =====
-- The parts of the temporary arrays of a split, as the entries of two leaves.
use nu_ksm_pact21_artifact.Base.{
  ℕ, zero, suc, ◌+◌, ◌-◌, ◌≤◌, ◌<◌, ◌≡◌, refl, sym, ap, ◌∙◌, true, List, [], ◌∷◌, ◌++◌, arith, ltb,
  length, get_or, set, drop, replicate, length-set, length-replicate, get_or-set_ne,
  get_or-set_self,
}
use nu_ksm_pact21_artifact.BTree.Store.{Ptr, null, Node, Store}
use nu_ksm_pact21_artifact.BTree.Store.Laws.{Holds}
use nu_ksm_pact21_artifact.BTree.Find.{cut}
use nu_ksm_pact21_artifact.BTree.Entries.Scan.{scan, scan-le}
use nu_ksm_pact21_artifact.BTree.Entries.Leaf.{pairs, insert_entry}
use nu_ksm_pact21_artifact.BTree.Entries.Copy.{copied, length-copied, copied-inside}
use nu_ksm_pact21_artifact.BTree.Shrink.Close.{cleared, length-cleared}
use nu_ksm_pact21_artifact.BTree.Tree.{AllBelow, AllFrom, Leaf}
use nu_ksm_pact21_artifact.BTree.Tree.Insertion.{AllAbove, IsSorted}
use nu_ksm_pact21_artifact.BTree.Tree.Removal.Lists.{pairs-set, pairs-cleared}
use nu_ksm_pact21_artifact.BTree.Tree.Split.{
  cut-bounds, temporary, length-temporary, left_half, right_half, HasArrays,
}
use nu_ksm_pact21_artifact.BTree.Tree.Split.Lists.{
  pairs-same, pairs-split, get_or-drop, length-drop, pairs-Inserted, spreaded-Inserted,
}

cleared-after :
    (rounds : ℕ) (a : List ℕ) (lo t : ℕ)
    → lo + rounds ≤ t
    → get_or (cleared a lo rounds) t 0 ≡ get_or a t 0
unfolding cleared
cleared-after zero a lo t h = refl
cleared-after (suc r) a lo t h =
    cleared-after r (set a lo null) (lo + 1) t (omega arith)
    ∙ get_or-set_ne a lo t null 0 (λ e. absurd (omega arith))

-- The entries of a half, less what the cut leaves in the arrays behind them.
half_entries :
    (count from link o : ℕ) (ks : List ℕ) (ps : List Ptr) (old_ks : List ℕ) (old_ps : List Ptr)
    → from + count ≤ length ks
    → from + count ≤ length ps
    → count ≤ length old_ks
    → count ≤ length old_ps
    → count ≤ o
    → pairs count
        (copied count ks from old_ks 0)
        (cleared (set (copied count ps from old_ps 0) o link) count (o - count))
      ≡ pairs count (drop from ks) (drop from ps)
half_entries count from link o ks ps old_ks old_ps a b c d le =
    let new_ks = copied count ks from old_ks 0 in
    let new_ps = copied count ps from old_ps 0 in
    let at_0 : (k : ℕ) → 0 + k ≡ k = λ k. omega arith in
    pairs-cleared (o - count) count count new_ks (set new_ps o link) (omega arith)
    ∙ pairs-set count o link new_ks new_ps le
    ∙ pairs-same count new_ks (drop from ks) new_ps (drop from ps)
        (omega (arith, length-copied count ks from old_ks 0)) (omega (arith, length-drop from ks))
        (omega (arith, length-copied count ps from old_ps 0)) (omega (arith, length-drop from ps))
        (λ t h.
          rw (at_0 t) at (copied-inside count ks from old_ks 0 t (omega arith) h)
          ∙ sym (get_or-drop from t ks))
        (λ t h.
          rw (at_0 t) at (copied-inside count ps from old_ps 0 t (omega arith) h)
          ∙ sym (get_or-drop from t ps))

pub pairs-first :
    (n : ℕ) (ks : List ℕ) (ps : List Ptr)
    → 0 < n
    → n ≤ length ks
    → n ≤ length ps
    → (q : Ptr) × (es : List (ℕ × Ptr)) × (pairs n ks ps ≡ (get_or ks 0 0, q) ∷ es)
unfolding pairs
pairs-first zero ks ps h a b = absurd (omega arith)
pairs-first (suc n) [] ps h a b = absurd (omega arith)
pairs-first (suc n) (k ∷ ks) [] h a b = absurd (omega arith)
pairs-first (suc n) (k ∷ ks) (p ∷ ps) h a b = (p, pairs n ks ps, refl)

AllAbove-AllFrom : (b : ℕ) (es : List (ℕ × Ptr)) → AllAbove b es → AllFrom b es
AllAbove-AllFrom b [] h = tt
AllAbove-AllFrom b ((k, p) ∷ es) (less, h) = (omega arith, AllAbove-AllFrom b es h)

AllAbove-middle :
    (a k : ℕ) (p : Ptr) (left es : List (ℕ × Ptr)) → AllAbove a (left ++ ((k, p) ∷ es)) → a < k
AllAbove-middle a k p [] es (less, h) = less
AllAbove-middle a k p ((j, q) ∷ left) es (less, h) = AllAbove-middle a k p left es h

-- In sorted entries, the first key of the right part separates the two parts.
pub IsSorted-append :
    (k : ℕ) (p : Ptr) (left es : List (ℕ × Ptr))
    → IsSorted (left ++ ((k, p) ∷ es))
    → AllBelow k left × AllFrom k ((k, p) ∷ es)
IsSorted-append k p [] es (above, sorted) = (tt, (omega arith, AllAbove-AllFrom k es above))
IsSorted-append k p ((j, q) ∷ left) es (above, sorted) =
    let (below, from) = IsSorted-append k p left es sorted in
    ((AllAbove-middle j k p left es above, below), from)

-- The two parts of the temporary arrays.
pub halves :
    (key : ℕ) (r : Ptr) (n : Node) (o : ℕ)
    → HasArrays o n
    → n.num_keys ≡ o - 1
    → 2 < o
    → let h = cut (o - 1) in
      let g = scan (λ k. ltb k key) n.num_keys n.keys in
      let ks = temporary g key n.num_keys n.keys (o + 1) in
      let ps = temporary g r n.num_keys n.pointers (o + 1) in
      pairs h ks ps ++ pairs (o - h) (drop h ks) (drop h ps)
      ≡ insert_entry key r (pairs n.num_keys n.keys n.pointers)
halves key r n o a full wide =
    let h = cut (o - 1) in
    let m = n.num_keys in
    let (some_left, some_right) = cut-bounds (o - 1) (omega arith) in
    let g = scan (λ k. ltb k key) m n.keys in
    let inside = scan-le (λ k. ltb k key) m n.keys in
    let k0 : List ℕ = replicate (o + 1) 0 in
    let lk : length k0 ≡ o + 1 = length-replicate (o + 1) 0 in
    let ks = temporary g key m n.keys (o + 1) in
    let ps = temporary g r m n.pointers (o + 1) in
    let lks = length-temporary g key m n.keys (o + 1) in
    let lps = length-temporary g r m n.pointers (o + 1) in
    let keys = a.keys in
    let pointers = a.pointers in
    let sum : h + (o - h) ≡ suc m = omega arith in
    sym (pairs-split h (o - h) ks ps (omega arith) (omega arith))
    ∙ ap (λ i. pairs i ks ps) sum
    ∙ pairs-Inserted key r m n.keys ks n.pointers ps (omega arith) (omega arith) (omega arith)
        (omega arith) (spreaded-Inserted g key m n.keys k0 inside (omega arith))
        (spreaded-Inserted g r m n.pointers k0 inside (omega arith))

pub left-Leaf :
    (key : ℕ) (r leaf new : Ptr) (n : Node) (o : ℕ) (ks : List ℕ) (ps : List Ptr) (s : Store)
    → Holds s leaf (left_half o (cut (o - 1)) new ks ps n)
    → n.is_leaf ≡ true
    → HasArrays o n
    → 2 < o
    → length ks ≡ o + 1
    → length ps ≡ o + 1
    → let h = cut (o - 1) in Leaf s leaf (pairs h ks ps) (left_half o h new ks ps n)
left-Leaf key r leaf new n o ks ps s held is_leaf a wide lks lps =
    let h = cut (o - 1) in
    let (some_left, some_right) = cut-bounds (o - 1) (omega arith) in
    let keys = a.keys in
    let pointers = a.pointers in
    let new_ps = copied h ps 0 n.pointers 0 in
    record {
      at = held;
      is_leaf = is_leaf;
      keys = omega (arith, length-copied h ks 0 n.keys 0);
      pointers = omega (
        arith,
        length-cleared (o - 1 - h) h (set new_ps (o - 1) new),
        length-set new_ps (o - 1) new,
        length-copied h ps 0 n.pointers 0,
      );
      entries = sym (
          half_entries h 0 new (o - 1) ks ps n.keys n.pointers (omega arith) (omega arith)
            (omega arith) (omega arith) (omega arith));
    }

pub right-Leaf :
    (new right parent : Ptr) (b : Node) (o : ℕ) (ks : List ℕ) (ps : List Ptr) (s : Store)
    → let h = cut (o - 1) in
      Holds s new (right_half o h right parent ks ps b)
      → b.is_leaf ≡ true
      → HasArrays o b
      → 2 < o
      → length ks ≡ o + 1
      → length ps ≡ o + 1
      → Leaf s new (pairs (o - h) (drop h ks) (drop h ps)) (right_half o h right parent ks ps b)
right-Leaf new right parent b o ks ps s held is_leaf a wide lks lps =
    let h = cut (o - 1) in
    let (some_left, some_right) = cut-bounds (o - 1) (omega arith) in
    let keys = a.keys in
    let pointers = a.pointers in
    let c = o - h in
    let new_ps = copied c ps h b.pointers 0 in
    record {
      at = held;
      is_leaf = is_leaf;
      keys = omega (arith, length-copied c ks h b.keys 0);
      pointers = omega (
        arith,
        length-cleared (o - 1 - c) c (set new_ps (o - 1) right),
        length-set new_ps (o - 1) right,
        length-copied c ps h b.pointers 0,
      );
      entries = sym (
          half_entries c h right (o - 1) ks ps b.keys b.pointers (omega arith) (omega arith)
            (omega arith) (omega arith) (omega arith));
    }

-- The last pointer of a half is its link.
pub half_link :
    (count from link o : ℕ) (ps old : List ℕ)
    → count ≤ o
    → o < length old
    → get_or (cleared (set (copied count ps from old 0) o link) count (o - count)) o 0 ≡ link
half_link count from link o ps old le room =
    let new_ps = copied count ps from old 0 in
    cleared-after (o - count) (set new_ps o link) count o (omega arith)
    ∙ get_or-set_self new_ps o link 0 (omega (arith, length-copied count ps from old 0))
