-- ===== src/BTree/Tree/Linked/Nodes.antt =====
-- An internal node after an insertion into it, and the two nodes of its split, as lists.
use nu_ksm_pact21_artifact.Base.{
  ℕ, zero, suc, ◌+◌, ◌-◌, ◌≤◌, ◌<◌, ◌≡◌, refl, sym, ap, ◌∙◌, List, [], ◌∷◌, ◌++◌, arith, length,
  get_or, set, take, drop, length-set, get_or-set_self, get_or-set_ne,
}
use mathlib.Core.Path.{subst}
use native.Mathlib.Decide.{dec_lt}
use nu_ksm_pact21_artifact.BTree.Store.{Ptr, Node}
use nu_ksm_pact21_artifact.BTree.Entries.Leaf.{pairs}
use nu_ksm_pact21_artifact.BTree.Entries.Shift.{gap, length-gap}
use nu_ksm_pact21_artifact.BTree.Entries.Copy.{copied, length-copied, copied-inside}
use nu_ksm_pact21_artifact.BTree.Entries.Children.{node_with}
use nu_ksm_pact21_artifact.BTree.Tree.Split.Lists.{Inserted, pairs-same, get_or-drop, length-drop}
use nu_ksm_pact21_artifact.BTree.Tree.Nest.Focus.{splice}
use nu_ksm_pact21_artifact.BTree.Tree.Linked.{HasShape, first_pointer, rest_of}
use nu_ksm_pact21_artifact.BTree.Tree.Linked.Arrays.{pairs-splice, Inserted-drop}

get_or-take :
    (n : ℕ) (xs ys : List ℕ) (t : ℕ)
    → t < n
    → n ≤ length xs
    → get_or (take n xs ++ ys) t 0 ≡ get_or xs t 0
get_or-take zero xs ys t h b = absurd (omega arith)
get_or-take (suc n) [] ys t h b = absurd (omega arith)
get_or-take (suc n) (x ∷ xs) ys zero h b = refl
get_or-take (suc n) (x ∷ xs) ys (suc t) h b = get_or-take n xs ys t (omega arith) (omega arith)

Inserted-cons :
    (g v n x : ℕ) (xs ys : List ℕ)
    → Inserted g v n xs ys
    → Inserted (suc g) v (suc n) (x ∷ xs) (x ∷ ys)
Inserted-cons g v n x xs ys i = record { before = before; here = i.here; after = after }
  where
    before : (t : ℕ) → t < suc g → get_or (x ∷ ys) t 0 ≡ get_or (x ∷ xs) t 0
    before zero h = refl
    before (suc t) h = i.before t (omega arith)

    after : (t : ℕ) → suc g ≤ t → t < suc n → get_or (x ∷ ys) (suc t) 0 ≡ get_or (x ∷ xs) t 0
    after zero le h = absurd (omega arith)
    after (suc t) le h = i.after t (omega arith) (omega arith)

pub gap-Inserted :
    (g v m : ℕ) (xs : List ℕ) → g + m < length xs → Inserted g v (g + m) xs (gap g m v xs)
unfolding gap
gap-Inserted zero v m xs h =
    let e : 0 + m ≡ m = omega arith in
    rw e (record {
      before = λ t lt. absurd (omega arith);
      here = refl;
      after = λ t le lt. get_or-take m xs (drop (suc m) xs) t lt (omega arith);
    })
gap-Inserted (suc g) v m [] h = absurd (omega arith)
gap-Inserted (suc g) v m (x ∷ xs) h =
    let e : suc g + m ≡ suc (g + m) = omega arith in
    rw e (Inserted-cons g v (g + m) x xs (gap g m v xs) (gap-Inserted g v m xs (omega arith)))

-- The node after `insert_into_node`.
pub node_with-rest :
    (o g key : ℕ) (right parent : Ptr) (n : Node)
    → HasShape o parent n
    → g ≤ n.num_keys
    → n.num_keys < o - 1
    → let m = node_with g key right n in
      HasShape o parent m
      × (first_pointer m ≡ first_pointer n)
      × (rest_of m ≡ splice g ((key, right) ∷ []) (rest_of n))
node_with-rest o g key right parent n shape le room =
    let k = n.num_keys in
    let keys = shape.arrays.keys in
    let pointers = shape.arrays.pointers in
    let ks = gap g (k - g) key n.keys in
    let ps = gap (g + 1) (k - g) right n.pointers in
    let lk = length-gap g (k - g) key n.keys (omega arith) in
    let lp = length-gap (g + 1) (k - g) right n.pointers (omega arith) in
    let lr = length-drop 1 n.pointers in
    let lr' = length-drop 1 ps in
    let sum : g + (k - g) ≡ k = omega arith in
    let sum' : g + 1 + (k - g) ≡ suc k = omega arith in
    let up : g + 1 ≡ suc g = omega arith in
    let ik : Inserted g key k n.keys ks =
      rw sum at (gap-Inserted g key (k - g) n.keys (omega arith)) in
    let ip : Inserted (suc g) right (suc k) n.pointers ps =
      subst (λ i. Inserted i right (suc k) n.pointers ps) up
        (rw sum' at (gap-Inserted (g + 1) right (k - g) n.pointers (omega arith))) in
    let one : k + 1 ≡ suc k = omega arith in
    (
      record {
        arrays = record { keys = lk ∙ keys; pointers = lp ∙ pointers };
        parent_is = shape.parent_is;
        count = omega arith;
      },
      ip.before 0 (omega arith),
      rw one (
          pairs-splice g key right k n.keys ks (drop 1 n.pointers) (drop 1 ps) le (omega arith)
            (omega arith) (omega arith) (omega arith) ik
            (Inserted-drop g right k n.pointers ps ip)),
    )

-- The pointers of a half: one more than its keys.
abbrev pub half_pointers : ℕ → ℕ → List Ptr → List Ptr → List Ptr
half_pointers count from ps old =
    set (copied count ps from old 0) count (get_or ps (from + count) 0)

half_pointer :
    (count from : ℕ) (ps old : List Ptr) (t : ℕ)
    → count < length old
    → t ≤ count
    → get_or (half_pointers count from ps old) t 0 ≡ get_or ps (from + t) 0
half_pointer count from ps old t room h =
    let lc = length-copied count ps from old 0 in
    let v = get_or ps (from + count) 0 in
    let e : 0 + t ≡ t = omega arith in
    elim (dec_lt t count) [
      | yes lt ↦
          get_or-set_ne (copied count ps from old 0) count t v 0 (λ eq. absurd (omega arith))
          ∙ rw e at (copied-inside count ps from old 0 t (omega arith) lt)
      | no ge ↦
          let last : t ≡ count = omega arith in
          rw last (get_or-set_self (copied count ps from old 0) count v 0 (omega arith))
    ]

pub length-half_pointers :
    (count from : ℕ) (ps old : List Ptr) → length (half_pointers count from ps old) ≡ length old
length-half_pointers count from ps old =
    length-set (copied count ps from old 0) count (get_or ps (from + count) 0)
    ∙ length-copied count ps from old 0

drop-drop : (a : ℕ) (xs : List ℕ) → drop a (drop 1 xs) ≡ drop (suc a) xs
drop-drop zero xs = refl
drop-drop (suc a) [] = refl
drop-drop (suc a) (x ∷ xs) = refl

-- A half of the temporary arrays as a first pointer and a rest.
pub half_rest :
    (count from : ℕ) (ks old_ks : List ℕ) (ps old_ps : List Ptr)
    → from + count ≤ length ks
    → from + count < length ps
    → count ≤ length old_ks
    → count < length old_ps
    → (get_or (half_pointers count from ps old_ps) 0 0 ≡ get_or ps from 0)
      × (pairs count (copied count ks from old_ks 0) (drop 1 (half_pointers count from ps old_ps))
          ≡ pairs count (drop from ks) (drop from (drop 1 ps)))
half_rest count from ks old_ks ps old_ps a b c d =
    let hp = half_pointers count from ps old_ps in
    let lh = length-half_pointers count from ps old_ps in
    let e : from + 0 ≡ from = omega arith in
    (
      half_pointer count from ps old_ps 0 d (omega arith) ∙ ap (λ i. get_or ps i 0) e,
      pairs-same count (copied count ks from old_ks 0) (drop from ks) (drop 1 hp)
          (drop from (drop 1 ps)) (omega (arith, length-copied count ks from old_ks 0))
          (omega (arith, length-drop from ks)) (omega (arith, length-drop 1 hp))
          (omega (arith, length-drop from (drop 1 ps), length-drop 1 ps))
          (λ t h.
            let z : 0 + t ≡ t = omega arith in
            rw z at (copied-inside count ks from old_ks 0 t (omega arith) h)
            ∙ sym (get_or-drop from t ks))
          (λ t h.
            let z : 1 + t ≡ t + 1 = omega arith in
            let w : 1 + (from + t) ≡ from + (t + 1) = omega arith in
            get_or-drop 1 t hp
            ∙ ap (λ i. get_or hp i 0) z
            ∙ half_pointer count from ps old_ps (t + 1) d (omega arith)
            ∙ sym (
                get_or-drop from t (drop 1 ps)
                ∙ get_or-drop 1 (from + t) ps
                ∙ ap (λ i. get_or ps i 0) w)),
    )
