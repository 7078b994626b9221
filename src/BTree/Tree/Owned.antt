-- ===== src/BTree/Tree/Owned.antt =====
-- A tree of benchmarks/btree/btree.c together with the addresses of its nodes, each of them once. What
-- changes elsewhere in memory does not change such a tree.
use nu_ksm_pact21_artifact.Base.{
  ℕ, zero, suc, ◌≤◌, ◌≡◌, ◌≢◌, ◌⊎◌, inl, inr, sym, ap, ◌∙◌, false, Option, some, List, arith, ◌==◌,
  [], ◌∷◌, ◌++◌, length,
}
use nu_ksm_pact21_artifact.BTree.Store.{Ptr, Node, Outcome, Store, done, put}
use nu_ksm_pact21_artifact.BTree.Store.Laws.{Holds}
use nu_ksm_pact21_artifact.BTree.Tree.{AllBelow, AllFrom, Children, Leaf, Tree}

abbrev pub In : Ptr → List Ptr → Type 0
In q [] = ⊥
In q (x ∷ xs) = (q ≡ x) ⊎ In q xs

abbrev pub NotIn : Ptr → List Ptr → Type 0
NotIn q [] = Unit
NotIn q (x ∷ xs) = (q ≢ x) × NotIn q xs

abbrev pub Distinct : List Ptr → Type 0
Distinct [] = Unit
Distinct (x ∷ xs) = NotIn x xs × Distinct xs

-- The two stores have the same nodes at these addresses.
abbrev pub Agree : Store → Store → List Ptr → Type 0
Agree s s' [] = Unit
Agree s s' (x ∷ xs) = (s'.nodes x ≡ s.nodes x) × Agree s s' xs

abbrev pub AgreeBut : Ptr → Store → Store → Type 0
AgreeBut p s s' = (q : Ptr) → q ≢ p → s'.nodes q ≡ s.nodes q

pub In-append_left : (q : Ptr) (xs ys : List Ptr) → In q xs → In q (xs ++ ys)
In-append_left q [] ys h = absurd h
In-append_left q (x ∷ xs) ys (inl e) = inl e
In-append_left q (x ∷ xs) ys (inr h) = inr (In-append_left q xs ys h)

pub In-append_right : (q : Ptr) (xs ys : List Ptr) → In q ys → In q (xs ++ ys)
In-append_right q [] ys h = h
In-append_right q (x ∷ xs) ys h = inr (In-append_right q xs ys h)

pub NotIn-append : (q : Ptr) (xs ys : List Ptr) → NotIn q (xs ++ ys) → NotIn q xs × NotIn q ys
NotIn-append q [] ys h = (tt, h)
NotIn-append q (x ∷ xs) ys (ne, h) = let (l, r) = NotIn-append q xs ys h in ((ne, l), r)

pub NotIn-In : (q x : Ptr) (xs : List Ptr) → NotIn x xs → In q xs → q ≢ x
NotIn-In q x [] n h = absurd h
NotIn-In q x (y ∷ ys) (ne, n) (inl e) = λ same. ne (sym same ∙ e)
NotIn-In q x (y ∷ ys) (ne, n) (inr h) = NotIn-In q x ys n h

-- The addresses of two neighbours.
pub record Apart (xs ys : List Ptr) : Type 0 where
  pub left : Distinct xs
  pub right : Distinct ys
  pub not_right : (q : Ptr) → In q xs → NotIn q ys
  pub not_left : (q : Ptr) → In q ys → NotIn q xs

pub Distinct-append : (xs ys : List Ptr) → Distinct (xs ++ ys) → Apart xs ys
Distinct-append [] ys d = record {
  left = tt;
  right = d;
  not_right = λ q h. absurd h;
  not_left = λ q h. tt;
}
Distinct-append (x ∷ xs) ys (n, d) =
    let rest = Distinct-append xs ys d in
    let (nx, ny) = NotIn-append x xs ys n in
    record {
      left = (nx, rest.left);
      right = rest.right;
      not_right = λ q h. elim h [ inl e ↦ rw e ny | inr later ↦ rest.not_right q later ];
      not_left = λ q h. (NotIn-In q x ys ny h, rest.not_left q h);
    }

pub Agree-append :
    (s s' : Store) (xs ys : List Ptr) → Agree s s' (xs ++ ys) → Agree s s' xs × Agree s s' ys
Agree-append s s' [] ys h = (tt, h)
Agree-append s s' (x ∷ xs) ys (e, h) = let (l, r) = Agree-append s s' xs ys h in ((e, l), r)

pub Agree-AgreeBut :
    (p : Ptr) (s s' : Store) (xs : List Ptr) → AgreeBut p s s' → NotIn p xs → Agree s s' xs
Agree-AgreeBut p s s' [] h n = tt
Agree-AgreeBut p s s' (x ∷ xs) h (ne, n) = (h x (λ e. ne (sym e)), Agree-AgreeBut p s s' xs h n)

pub Agree-equal : (s s' : Store) (xs : List Ptr) → s'.nodes ≡ s.nodes → Agree s s' xs
Agree-equal s s' [] e = tt
Agree-equal s s' (x ∷ xs) e = (ap (λ f. f x) e, Agree-equal s s' xs e)

-- `Children` with the addresses of each child's tree.
abbrev pub Owns :
    (Ptr → List (ℕ × Ptr) → List Ptr → Type 0)
    → ℕ
    → List ℕ
    → List Ptr
    → List (ℕ × Ptr)
    → List Ptr
    → Type 0
Owns P zero ks [] es ns = ⊥
Owns P zero ks (p ∷ ps) es ns = P p es ns
Owns P (suc m) [] ps es ns = ⊥
Owns P (suc m) (k ∷ ks) [] es ns = ⊥
Owns P (suc m) (k ∷ ks) (p ∷ ps) es ns =
    (left : List (ℕ × Ptr)) × (right : List (ℕ × Ptr)) × (ln : List Ptr) × (rn : List Ptr) × (es
      ≡ left ++ right)
    × (ns ≡ ln ++ rn)
    × P p left ln
    × AllBelow k left
    × AllFrom k right
    × Owns P m ks ps right rn

pub record InnerNode (s : Store) (p : Ptr) (n : Node) : Type 0 where
  pub at : Holds s p n
  pub not_leaf : n.is_leaf ≡ false
  pub keys : n.num_keys ≤ length n.keys

-- A tree of height `h` with the entries `es` whose nodes stand at the addresses `ns`.
abbrev pub Owned : Store → ℕ → Ptr → List (ℕ × Ptr) → List Ptr → Type 0
Owned s zero p es ns = (n : Node) × Leaf s p es n × (ns ≡ p ∷ [])
Owned s (suc h) p es ns =
    (n : Node) × (below : List Ptr) × InnerNode s p n
    × (ns ≡ p ∷ below)
    × Owns (Owned s h) n.num_keys n.keys n.pointers es below

pub Holds-same :
    {s s' : Store} {p : Ptr} {n : Node} → s'.nodes p ≡ s.nodes p → Holds s p n → Holds s' p n
Holds-same e h = record { ne_null = h.ne_null; holds = e ∙ h.holds }

pub InnerNode-same :
    {s s' : Store} {p : Ptr} {n : Node}
    → s'.nodes p ≡ s.nodes p
    → InnerNode s p n
    → InnerNode s' p n
InnerNode-same e i = record { at = Holds-same e i.at; not_leaf = i.not_leaf; keys = i.keys }

pub Leaf-same :
    {s s' : Store} {p : Ptr} {es : List (ℕ × Ptr)} {n : Node}
    → s'.nodes p ≡ s.nodes p
    → Leaf s p es n
    → Leaf s' p es n
Leaf-same e l = record {
  at = Holds-same e l.at;
  is_leaf = l.is_leaf;
  keys = l.keys;
  pointers = l.pointers;
  entries = l.entries;
}

pub Owns-Agree :
    (s s' : Store) (h m : ℕ) (ks : List ℕ) (ps : List Ptr) (es : List (ℕ × Ptr)) (ns : List Ptr)
    → ((p : Ptr) (es : List (ℕ × Ptr)) (ns : List Ptr)
        → Agree s s' ns
        → Owned s h p es ns
        → Owned s' h p es ns)
    → Agree s s' ns
    → Owns (Owned s h) m ks ps es ns
    → Owns (Owned s' h) m ks ps es ns
Owns-Agree s s' h zero ks [] es ns keep a c = absurd c
Owns-Agree s s' h zero ks (p ∷ ps) es ns keep a c = keep p es ns a c
Owns-Agree s s' h (suc m) [] ps es ns keep a c = absurd c
Owns-Agree s s' h (suc m) (k ∷ ks) [] es ns keep a c = absurd c
Owns-Agree s s' h (suc m) (k ∷ ks) (p ∷ ps) es ns keep a
      (left, right, ln, rn, ee, en, t, below, from, rest) =
    let (al, ar) = Agree-append s s' ln rn (rw (← en) a) in
    (
      left,
      right,
      ln,
      rn,
      ee,
      en,
      keep p left ln al t,
      below,
      from,
      Owns-Agree s s' h m ks ps right rn keep ar rest,
    )

-- A tree is the same in a store that has the same nodes at its addresses.
pub Owned-Agree :
    (s s' : Store) (h : ℕ) (p : Ptr) (es : List (ℕ × Ptr)) (ns : List Ptr)
    → Agree s s' ns
    → Owned s h p es ns
    → Owned s' h p es ns
Owned-Agree s s' zero p es ns a (n, l, e) = let (here, none) = rw e at a in (n, Leaf-same here l, e)
Owned-Agree s s' (suc h) p es ns a (n, below, i, e, c) =
    let (here, rest) = rw e at a in
    (
      n,
      below,
      InnerNode-same here i,
      e,
      Owns-Agree s s' h n.num_keys n.keys n.pointers es below (Owned-Agree s s' h) rest c,
    )

Owns-Children :
    (s : Store) (h m : ℕ) (ks : List ℕ) (ps : List Ptr) (es : List (ℕ × Ptr)) (ns : List Ptr)
    → ((p : Ptr) (es : List (ℕ × Ptr)) (ns : List Ptr) → Owned s h p es ns → Tree s h p es)
    → Owns (Owned s h) m ks ps es ns
    → Children (Tree s h) m ks ps es
Owns-Children s h zero ks [] es ns forget c = absurd c
Owns-Children s h zero ks (p ∷ ps) es ns forget c = forget p es ns c
Owns-Children s h (suc m) [] ps es ns forget c = absurd c
Owns-Children s h (suc m) (k ∷ ks) [] es ns forget c = absurd c
Owns-Children s h (suc m) (k ∷ ks) (p ∷ ps) es ns forget
      (left, right, ln, rn, ee, en, t, below, from, rest) =
    (
      left,
      right,
      ee,
      forget p left ln t,
      below,
      from,
      Owns-Children s h m ks ps right rn forget rest,
    )

pub Owned-Tree :
    (s : Store) (h : ℕ) (p : Ptr) (es : List (ℕ × Ptr)) (ns : List Ptr)
    → Owned s h p es ns
    → Tree s h p es
Owned-Tree s zero p es ns (n, l, e) = (n, l)
Owned-Tree s (suc h) p es ns (n, below, i, e, c) = (
  n,
  record {
    at = i.at;
    not_leaf = i.not_leaf;
    keys = i.keys;
    children = Owns-Children s h n.num_keys n.keys n.pointers es below (Owned-Tree s h) c;
  },
)

pub AgreeBut-put :
    (s s' : Store) (leaf : Ptr) (m : Node) → s'.nodes ≡ s.nodes → AgreeBut leaf s (put leaf m s')
AgreeBut-put s s' leaf m same q ne =
    let other : (q == leaf) ≡ false = ground arith in rw other (ap (λ f. f q) same)

pub done_inj : {p q : Ptr} {s t : Store} → ◌≡◌ {A = Outcome Ptr} (done p s) (done q t) → p ≡ q
done_inj e = cc

pub some_inj : {m n : Node} → ◌≡◌ {A = Option Node} (some m) (some n) → m ≡ n
some_inj e = cc
