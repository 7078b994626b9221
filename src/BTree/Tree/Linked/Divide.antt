-- ===== src/BTree/Tree/Linked/Divide.antt =====
-- The split of a full internal node that takes one more child.
use mathlib.Core.Path.{subst}
use nu_ksm_pact21_artifact.Base.{
  ℕ, suc, ◌+◌, ◌-◌, ◌≤◌, ◌<◌, ◌≡◌, refl, sym, ap, ◌∙◌, List, [], ◌∷◌, arith, length, get_or, set,
  take, drop, replicate, length-replicate,
}
use nu_ksm_pact21_artifact.BTree.Store.{Ptr, Node}
use nu_ksm_pact21_artifact.BTree.Find.{cut}
use nu_ksm_pact21_artifact.BTree.Entries.Leaf.{pairs}
use nu_ksm_pact21_artifact.BTree.Entries.Copy.{copied, length-copied}
use nu_ksm_pact21_artifact.BTree.Tree.Edit.{Entries}
use nu_ksm_pact21_artifact.BTree.Tree.Split.{cut-bounds, temporary, length-temporary, HasArrays}
use nu_ksm_pact21_artifact.BTree.Tree.Split.Lists.{
  Inserted, spreaded-Inserted, get_or-drop, length-drop,
}
use nu_ksm_pact21_artifact.BTree.Tree.Deletion.{length-pairs}
use nu_ksm_pact21_artifact.BTree.Tree.Nest.{key_at, pointer_at}
use nu_ksm_pact21_artifact.BTree.Tree.Nest.Focus.{splice}
use nu_ksm_pact21_artifact.BTree.Tree.Linked.{HasShape, first_pointer, rest_of}
use nu_ksm_pact21_artifact.BTree.Tree.Linked.Arrays.{
  pairs-splice, Inserted-drop, take-pairs, drop-pairs, at-pairs,
}
use nu_ksm_pact21_artifact.BTree.Tree.Linked.Nodes.{length-half_pointers, half_rest}
use nu_ksm_pact21_artifact.BTree.Tree.Linked.SplitRun.{left_node, right_node}

-- The two nodes of a split of `n`, with `b` the new one, as first pointers and rests.
pub record Halved (o g key : ℕ) (right parent : Ptr) (n b : Node) (ks : List ℕ) (ps : List Ptr)
    : Type 0 where
  pub left_shape : HasShape o parent (left_node (cut o) ks ps n)
  pub right_shape : HasShape o parent (right_node o (cut o) parent ks ps b)
  pub left_first : first_pointer (left_node (cut o) ks ps n) ≡ first_pointer n
  pub left_rest :
      rest_of (left_node (cut o) ks ps n)
      ≡ take (cut o - 1) (splice g ((key, right) ∷ []) (rest_of n))
  pub right_first :
      first_pointer (right_node o (cut o) parent ks ps b)
      ≡ pointer_at (cut o - 1) (splice g ((key, right) ∷ []) (rest_of n))
  pub right_rest :
      rest_of (right_node o (cut o) parent ks ps b)
      ≡ drop (suc (cut o - 1)) (splice g ((key, right) ∷ []) (rest_of n))
  pub separator :
      get_or ks (cut o - 1) 0 ≡ key_at (cut o - 1) (splice g ((key, right) ∷ []) (rest_of n))
  pub total : length (splice g ((key, right) ∷ []) (rest_of n)) ≡ o

pub halved :
    (o g key : ℕ) (right parent : Ptr) (n b : Node)
    → HasShape o parent n
    → HasArrays o b
    → n.num_keys ≡ o - 1
    → g ≤ n.num_keys
    → 2 < o
    → Halved o g key right parent n b
        (temporary g key n.num_keys n.keys o)
        (temporary (g + 1) right (n.num_keys + 1) n.pointers (o + 1))
halved o g key right parent n b shape ab full le wide =
    let h = cut o in
    let (some_left, some_right) = cut-bounds o (omega arith) in
    let m = n.num_keys in
    let ks = temporary g key m n.keys o in
    let ps = temporary (g + 1) right (m + 1) n.pointers (o + 1) in
    let lks = length-temporary g key m n.keys o in
    let lps = length-temporary (g + 1) right (m + 1) n.pointers (o + 1) in
    let keys = shape.arrays.keys in
    let pointers = shape.arrays.pointers in
    let keys_b = ab.keys in
    let pointers_b = ab.pointers in
    let k0 : List ℕ = replicate o 0 in
    let lk : length k0 ≡ o = length-replicate o 0 in
    let p0 : List Ptr = replicate (o + 1) 0 in
    let lp : length p0 ≡ o + 1 = length-replicate (o + 1) 0 in
    let ik = spreaded-Inserted g key m n.keys k0 le (omega arith) in
    let up : g + 1 ≡ suc g = omega arith in
    let one : m + 1 ≡ suc m = omega arith in
    let ip : Inserted (suc g) right (suc m) n.pointers ps =
      subst (λ i. Inserted i right (suc m) n.pointers ps) up
        (subst (λ i. Inserted (g + 1) right i n.pointers ps) one
          (spreaded-Inserted (g + 1) right (m + 1) n.pointers p0 (omega arith) (omega arith))) in
    let lr = length-drop 1 n.pointers in
    let lr' = length-drop 1 ps in
    let all : suc m ≡ o = omega arith in
    let whole : pairs o ks (drop 1 ps) ≡ splice g ((key, right) ∷ []) (rest_of n) =
      ap (λ i. pairs i ks (drop 1 ps)) (sym all)
      ∙ pairs-splice g key right m n.keys ks (drop 1 n.pointers) (drop 1 ps) le (omega arith)
          (omega arith) (omega arith) (omega arith) ik (Inserted-drop g right m n.pointers ps ip) in
    let (lf, lrest) =
      half_rest (h - 1) 0 ks n.keys ps n.pointers (omega arith) (omega arith) (omega arith)
        (omega arith) in
    let (rf, rrest) =
      half_rest (o - h) h ks b.keys ps b.pointers (omega arith) (omega arith) (omega arith)
        (omega arith) in
    let left_last : 0 + (h - 1) ≡ h - 1 = omega arith in
    let right_last : h + (o - h) ≡ o = omega arith in
    let up_h : suc (h - 1) ≡ h = omega arith in
    let less : o - suc (h - 1) ≡ o - h = omega arith in
    let (sep, ptr) = at-pairs (h - 1) o ks (drop 1 ps) (omega arith) (omega arith) (omega arith) in
    let ln = length-half_pointers (h - 1) 0 ps n.pointers in
    let lb = length-half_pointers (o - h) h ps b.pointers in
    record {
      left_shape = record {
        arrays = record {
          keys = length-copied (h - 1) ks 0 n.keys 0 ∙ keys;
          pointers =
              ap (λ i. length (set (copied (h - 1) ps 0 n.pointers 0) (h - 1) (get_or ps i 0)))
                (sym left_last)
              ∙ ln
              ∙ pointers;
        };
        parent_is = shape.parent_is;
        count = omega arith;
      };
      right_shape = record {
        arrays = record {
          keys = length-copied (o - h) ks h b.keys 0 ∙ keys_b;
          pointers =
              ap (λ i. length (set (copied (o - h) ps h b.pointers 0) (o - h) (get_or ps i 0)))
                (sym right_last)
              ∙ lb
              ∙ pointers_b;
        };
        parent_is = refl;
        count = omega arith;
      };
      left_first =
          ap (λ i. get_or (set (copied (h - 1) ps 0 n.pointers 0) (h - 1) (get_or ps i 0)) 0 0)
            (sym left_last)
          ∙ lf
          ∙ ip.before 0 (omega arith);
      left_rest =
          ap
            (λ i.
              pairs (h - 1) (copied (h - 1) ks 0 n.keys 0)
                (drop 1 (set (copied (h - 1) ps 0 n.pointers 0) (h - 1) (get_or ps i 0))))
            (sym left_last)
          ∙ lrest
          ∙ sym (take-pairs (h - 1) o ks (drop 1 ps) (omega arith))
          ∙ ap (take (h - 1)) whole;
      right_first =
          ap (λ i. get_or (set (copied (o - h) ps h b.pointers 0) (o - h) (get_or ps i 0)) 0 0)
            (sym right_last)
          ∙ rf
          ∙ (ap (λ i. get_or ps i 0) (sym up_h)
              ∙ sym (get_or-drop 1 (h - 1) ps ∙ ap (λ i. get_or ps i 0) (one_more (h - 1))))
          ∙ sym ptr
          ∙ ap (pointer_at (h - 1)) whole;
      right_rest =
          ap
            (λ i.
              pairs (o - h) (copied (o - h) ks h b.keys 0)
                (drop 1 (set (copied (o - h) ps h b.pointers 0) (o - h) (get_or ps i 0))))
            (sym right_last)
          ∙ rrest
          ∙ ap (λ i. pairs (o - h) (drop i ks) (drop i (drop 1 ps))) (sym up_h)
          ∙ ap (λ i. pairs i (drop (suc (h - 1)) ks) (drop (suc (h - 1)) (drop 1 ps))) (sym less)
          ∙ sym
              (drop-pairs (suc (h - 1)) o ks (drop 1 ps) (omega arith) (omega arith) (omega arith))
          ∙ ap (drop (suc (h - 1))) whole;
      separator = sym sep ∙ ap (key_at (h - 1)) whole;
      total =
          sym (ap (λ (x : Entries). length x) whole)
          ∙ length-pairs o ks (drop 1 ps) (omega arith) (omega arith);
    }
  where
    one_more : (i : ℕ) → 1 + i ≡ suc i
    one_more i = omega arith
