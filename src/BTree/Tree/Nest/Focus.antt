-- ===== src/BTree/Tree/Nest/Focus.antt =====
-- The child of an internal node that the descent for a key goes to, and what the node's nest is after
-- the child has been replaced.
use nu_ksm_pact21_artifact.Base.{
  ℕ, zero, suc, ◌≤◌, ◌<◌, ◌≡◌, ◌≢◌, refl, sym, ap, ◌∙◌, inl, inr, List, [], ◌∷◌, ◌++◌, arith, leb,
  if◌then◌else◌, Bool-cases, length, get_or,
}
use nu_ksm_pact21_artifact.BTree.Store.{Ptr, Store}
use nu_ksm_pact21_artifact.BTree.Tree.Edit.{Entries, Edit}
use nu_ksm_pact21_artifact.BTree.Tree.Owned.{In, Distinct, In-append_left, In-append_right}
use nu_ksm_pact21_artifact.BTree.Tree.Addresses.{
  Disjoint, Within, Grows, Distinct-Disjoint, Distinct-left, Distinct-right, replace_left,
  replace_right,
}
use nu_ksm_pact21_artifact.BTree.Tree.Nest.{
  Part, Nest, Filled, Nest-append, Nest-map, append_nil, append_assoc_lem,
}

-- How many keys the descent passes.
unfoldable pub passed : ℕ → Entries → ℕ
passed key [] = 0
passed key ((k, q) ∷ R) = if leb k key then suc (passed key R) else 0

-- The pointer that it takes.
unfoldable pub child : ℕ → Ptr → Entries → Ptr
child key p [] = p
child key p ((k, q) ∷ R) = if leb k key then child key q R else p

-- `sub` goes in behind the first `g` elements.
unfoldable pub splice : ℕ → Entries → Entries → Entries
splice zero sub R = sub ++ R
splice (suc g) sub [] = sub
splice (suc g) sub (e ∷ R) = e ∷ splice g sub R

abbrev pub pointers_of : Entries → List Ptr
pointers_of [] = []
pointers_of ((k, q) ∷ R) = q ∷ pointers_of R

-- A family of parts: one for each store, which depends on the nodes at its addresses only, has its
-- root among them, and is not empty.
pub record Family (F : Store → Part) : Type 0 where
  pub same :
      (s s' : Store) (p : Ptr) (es : Entries) (ns : List Ptr)
      → ((x : Ptr) → In x ns → s'.nodes x ≡ s.nodes x)
      → F s p es ns
      → F s' p es ns
  pub rooted : (s : Store) (p : Ptr) (es : Entries) (ns : List Ptr) → F s p es ns → In p ns
  pub filled : (s : Store) → Filled (F s)

pub Nest-same :
    (F : Store → Part) (s s' : Store) (p : Ptr) (R es : Entries) (ns : List Ptr)
    → Family F
    → ((x : Ptr) → In x ns → s'.nodes x ≡ s.nodes x)
    → Nest (F s) p R es ns
    → Nest (F s') p R es ns
Nest-same F s s' p R es ns fam same t =
    Nest-map (F s) (F s') ns p R es ns
      (λ q fs ms sub u. fam.same s s' q fs ms (λ x i. same x (sub x i)) u) (λ x i. i) t

pub Nest-rooted :
    (F : Store → Part) (s : Store) (p : Ptr) (R es : Entries) (ns : List Ptr)
    → Family F
    → Nest (F s) p R es ns
    → In p ns
Nest-rooted F s p [] es ns fam t = fam.rooted s p es ns t
Nest-rooted F s p ((k, q) ∷ R) es ns fam (left, right, ln, rn, ee, en, t, below, from, rest) =
    rw en (In-append_left p ln rn (fam.rooted s p left ln t))

-- Neighbours in the whole.
abbrev pub PartOf : Entries → Entries → Type 0
PartOf part es = (pre : Entries) × (post : Entries) × (es ≡ pre ++ (part ++ post))

-- The child has been replaced by a nest `c, sub`; the other parts are as they were.
abbrev pub Plug :
    (Store → Part)
    → Store
    → (Entries → Entries)
    → ℕ
    → Ptr
    → Entries
    → Entries
    → List Ptr
    → Ptr
    → Entries
    → List Ptr
    → Type 0
Plug F s f g p R es ns c part cn =
    (s' : Store) (sub : Entries) (cn' used : List Ptr)
    → ((x : Ptr) → In x ns → (In x cn → ⊥) → s'.nodes x ≡ s.nodes x)
    → Nest (F s') c sub (f part) cn'
    → Distinct cn'
    → Grows cn used cn'
    → Disjoint ns used
    → (ns' : List Ptr) × Nest (F s') p (splice g sub R) (f es) ns'
      × Distinct ns'
      × Grows ns used ns'

pub Nest-focus :
    (F : Store → Part) (s : Store) (key : ℕ) (f : Entries → Entries) (p : Ptr) (R es : Entries)
    (ns : List Ptr)
    → Family F
    → Edit key f
    → Distinct ns
    → Nest (F s) p R es ns
    → (part : Entries) × (cn : List Ptr) × F s (child key p R) part cn
      × PartOf part es
      × Within cn ns
      × Distinct cn
      × Plug F s f (passed key R) p R es ns (child key p R) part cn
unfolding passed child splice
Nest-focus F s key f p [] es ns fam edit d t = (
  es,
  ns,
  t,
  ([], [], sym (append_nil es)),
  (λ x i. i),
  d,
  λ s' sub cn' used same u d' grows apart. (cn', rw (append_nil sub) u, d', grows),
)
Nest-focus F s key f p ((k, q) ∷ R) es ns fam edit d
      (left, right, ln, rn, ee, en, t, below, from, rest) =
    let dd : Distinct (ln ++ rn) = rw en at d in
    elim (Bool-cases (leb k key)) [
      | inl on ↦
          let (part, cn, u, (pre, post, around), within, dc, plug) =
            Nest-focus F s key f q R right rn fam edit (Distinct-right ln rn dd) rest in
          rw on (
            part,
            cn,
            u,
            (
              left ++ pre,
              post,
              ee ∙ ap (λ l. left ++ l) around ∙ sym (append_assoc_lem left pre (part ++ post)),
            ),
            (λ x i. rw en (In-append_right x ln rn (within x i))),
            dc,
            λ s' sub cn' used same v d' grows apart.
                let apart' : Disjoint (ln ++ rn) used = rw en at apart in
                let (rn', w, dr, grows') =
                  plug s' sub cn' used (λ x i. same x (rw en (In-append_right x ln rn i))) v d'
                    grows (λ x i. apart' x (In-append_right x ln rn i)) in
                let (dn, gn) = replace_right ln rn rn' used dd apart' dr grows' in
                (
                  ln ++ rn',
                  (
                    left,
                    f right,
                    ln,
                    rn',
                    ap f ee ∙ edit.right k left right (ground arith) below,
                    refl,
                    fam.same s s' p left ln
                        (λ x i.
                          same x (rw en (In-append_left x ln rn i))
                            (λ j. Distinct-Disjoint ln rn dd x i (within x j)))
                        t,
                    below,
                    edit.from k right (ground arith) from,
                    w,
                  ),
                  dn,
                  rw en gn,
                ),
          )
      | inr off ↦ rw off (
        left,
        ln,
        t,
        ([], right, ee),
        (λ x i. rw en (In-append_left x ln rn i)),
        Distinct-left ln rn dd,
        λ s' sub cn' used same v d' grows apart.
            let (dn, gn) = replace_left ln rn cn' used dd (rw en at apart) d' grows in
            (
              cn' ++ rn,
              rw (ap f ee ∙ edit.left k left right (ground arith) from) (
                  Nest-append (F s') p k q sub R (f left) right cn' rn (fam.filled s') v
                    (edit.below k left (ground arith) below) from
                    (Nest-same F s s' q R right rn fam
                      (λ x i.
                        same x (rw en (In-append_right x ln rn i))
                          (λ j. Distinct-Disjoint ln rn dd x j i))
                      rest)),
              dn,
              rw en gn,
            ),
      )
    ]

pub splice_nil : (g : ℕ) (R : Entries) → splice g [] R ≡ R
unfolding splice
splice_nil zero R = refl
splice_nil (suc g) [] = refl
splice_nil (suc g) (e ∷ R) = ap (λ l. e ∷ l) (splice_nil g R)

-- The place of the child among the pointers, and only there.
pub child-place :
    (F : Store → Part) (s : Store) (key : ℕ) (p : Ptr) (R es : Entries) (ns : List Ptr)
    → Family F
    → Distinct ns
    → Nest (F s) p R es ns
    → (passed key R ≤ length R)
      × (get_or (p ∷ pointers_of R) (passed key R) 0 ≡ child key p R)
      × In (child key p R) ns
      × ((t : ℕ) → t < passed key R → get_or (p ∷ pointers_of R) t 0 ≢ child key p R)
unfolding passed child
child-place F s key p [] es ns fam d t =
    (omega arith, refl, fam.rooted s p es ns t, λ i h. absurd (omega arith))
child-place F s key p ((k, q) ∷ R) es ns fam d (left, right, ln, rn, ee, en, t, below, from, rest) =
    let dd : Distinct (ln ++ rn) = rw en at d in
    elim (Bool-cases (leb k key)) [
      | inl on ↦
          let (inside, here, there, before) =
            child-place F s key q R right rn fam (Distinct-right ln rn dd) rest in
          let first : p ≢ child key q R =
            λ e. Distinct-Disjoint ln rn dd p (fam.rooted s p left ln t) (rw (← e) at there) in
          rw on (
            omega arith,
            here,
            rw en (In-append_right (child key q R) ln rn there),
            λ i h. earlier R q i h first before,
          )
      | inr off ↦ rw off (
        omega arith,
        refl,
        rw en (In-append_left p ln rn (fam.rooted s p left ln t)),
        λ i h. absurd (omega arith),
      )
    ]
  where
    earlier :
        (R : Entries) (q : Ptr) (i : ℕ)
        → i < suc (passed key R)
        → p ≢ child key q R
        → ((t : ℕ) → t < passed key R → get_or (q ∷ pointers_of R) t 0 ≢ child key q R)
        → get_or (p ∷ q ∷ pointers_of R) i 0 ≢ child key q R
    earlier R q zero h first before = first
    earlier R q (suc i) h first before = before i (omega arith)
