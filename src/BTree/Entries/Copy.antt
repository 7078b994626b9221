-- ===== src/BTree/Entries/Copy.antt =====
-- The loops that copy the arrays of a full leaf to the temporary arrays and back, as functions on
-- lists.
use nu_ksm_pact21_artifact.Base.{
  ℕ, zero, suc, ◌+◌, ◌^◌, ◌≤◌, ◌<◌, ◌≡◌, refl, ◌∙◌, List, arith, ltb, leb, if◌then◌else◌, length,
  get_or, set, length-set, get_or-set_self, get_or-set_ne,
}
use nu_ksm_pact21_artifact.BTree.Store.{Ptr, Node, Store, done, put, add64}
use nu_ksm_pact21_artifact.BTree.Store.Laws.{
  Holds, put-Holds, put-put, put_self, at_lem, write_at_lem, load_lem, get_key_lem, get_pointer_lem,
  set_key_lem, set_pointer_lem, set_num_keys_lem,
}
use nu_ksm_pact21_artifact.BTree.Entries.{skip_gap, spread_entries, fill_entries}

-- The elements of `src` from `i` on, `rounds` of them, go to `dst` from `j` on.
unfoldable pub copied : ℕ → List ℕ → ℕ → List ℕ → ℕ → List ℕ
copied zero src i dst j = dst
copied (suc rounds) src i dst j = copied rounds src (i + 1) (set dst j (get_or src i 0)) (j + 1)

pub length-copied :
    (rounds : ℕ) (src : List ℕ) (i : ℕ) (dst : List ℕ) (j : ℕ)
    → length (copied rounds src i dst j) ≡ length dst
unfolding copied
length-copied zero src i dst j = refl
length-copied (suc r) src i dst j =
    length-copied r src (i + 1) (set dst j (get_or src i 0)) (j + 1)
    ∙ length-set dst j (get_or src i 0)

pub copied-outside :
    (rounds : ℕ) (src : List ℕ) (i : ℕ) (dst : List ℕ) (j t : ℕ)
    → t < j
    → get_or (copied rounds src i dst j) t 0 ≡ get_or dst t 0
unfolding copied
copied-outside zero src i dst j t h = refl
copied-outside (suc r) src i dst j t h =
    copied-outside r src (i + 1) (set dst j (get_or src i 0)) (j + 1) t (omega arith)
    ∙ get_or-set_ne dst j t (get_or src i 0) 0 (λ e. absurd (omega arith))

pub copied-after :
    (rounds : ℕ) (src : List ℕ) (i : ℕ) (dst : List ℕ) (j t : ℕ)
    → j + rounds ≤ t
    → get_or (copied rounds src i dst j) t 0 ≡ get_or dst t 0
unfolding copied
copied-after zero src i dst j t h = refl
copied-after (suc r) src i dst j t h =
    copied-after r src (i + 1) (set dst j (get_or src i 0)) (j + 1) t (omega arith)
    ∙ get_or-set_ne dst j t (get_or src i 0) 0 (λ e. absurd (omega arith))

pub copied-inside :
    (rounds : ℕ) (src : List ℕ) (i : ℕ) (dst : List ℕ) (j k : ℕ)
    → j + rounds ≤ length dst
    → k < rounds
    → get_or (copied rounds src i dst j) (j + k) 0 ≡ get_or src (i + k) 0
unfolding copied
copied-inside zero src i dst j k b h = absurd (omega arith)
copied-inside (suc r) src i dst j zero b h =
    let at_j : j + 0 ≡ j = omega arith in
    let at_i : i + 0 ≡ i = omega arith in
    rw (at_j, at_i)
      (copied-outside r src (i + 1) (set dst j (get_or src i 0)) (j + 1) j (omega arith)
        ∙ get_or-set_self dst j (get_or src i 0) 0 (omega arith))
copied-inside (suc r) src i dst j (suc k) b h =
    let at_j : j + suc k ≡ j + 1 + k = omega arith in
    let at_i : i + suc k ≡ i + 1 + k = omega arith in
    rw (at_j, at_i)
      (copied-inside r src (i + 1) (set dst j (get_or src i 0)) (j + 1) k
        (omega (arith, length-set dst j (get_or src i 0))) (omega arith))

pub fill_entries-copied :
    (rounds : ℕ) (ks ps : List ℕ) (i j : ℕ) {s : Store} {p : Ptr} {n : Node}
    → Holds s p n
    → i + rounds ≤ length ks
    → i + rounds ≤ length ps
    → j + rounds ≤ length n.keys
    → j + rounds ≤ length n.pointers
    → n.num_keys + rounds < 2 ^ 64
    → fill_entries rounds p ks ps i j s
      ≡ done tt (
          put p
            (record n {
              keys = copied rounds ks i n.keys j;
              pointers = copied rounds ps i n.pointers j;
              num_keys = n.num_keys + rounds;
            })
            s)
unfolding fill_entries copied
fill_entries-copied zero ks ps i j {s} {p} {n} h bk bp dk dp word =
    let same : n.num_keys + 0 ≡ n.num_keys = omega arith in rw (same, put_self h) refl
fill_entries-copied (suc r) ks ps i j {s} {p} {n} h bk bp dk dp word =
    let q = get_or ps i 0 in
    let n1 = record n { pointers = set n.pointers j q } in
    let h1 = put-Holds s n1 h.ne_null in
    let k = get_or ks i 0 in
    let n2 = record n1 { keys = set n.keys j k } in
    let h2 = put-Holds (put p n1 s) n2 h.ne_null in
    let n3 = record n2 { num_keys = n.num_keys + 1 } in
    let h3 = put-Holds (put p n2 (put p n1 s)) n3 h.ne_null in
    let count : add64 n.num_keys 1 ≡ n.num_keys + 1 = omega arith in
    let all : n.num_keys + 1 + r ≡ n.num_keys + suc r = omega arith in
    rw
      (
        at_lem ps i 0 s (omega arith),
        set_pointer_lem h j q (omega arith),
        at_lem ks i 0 (put p n1 s) (omega arith),
        set_key_lem h1 j k (omega arith),
        load_lem h2,
        count,
        set_num_keys_lem h2 (n.num_keys + 1),
        fill_entries-copied r ks ps (i + 1) (j + 1) h3 (omega arith) (omega arith)
            (omega (arith, length-set n.keys j k)) (omega (arith, length-set n.pointers j q))
            (omega arith),
        all,
        put-put,
        put-put,
        put-put,
      )
      refl

-- Where the element `i` goes around the gap.
abbrev pub place : ℕ → ℕ → ℕ
place gap i = if ltb i gap then i else i + 1

-- The elements of `src` from `i` on go to `temp`, around the gap.
unfoldable pub spreaded : ℕ → List ℕ → ℕ → ℕ → List ℕ → List ℕ
spreaded zero src gap i temp = temp
spreaded (suc rounds) src gap i temp =
    spreaded rounds src gap (i + 1) (set temp (place gap i) (get_or src i 0))

pub length-spreaded :
    (rounds : ℕ) (src : List ℕ) (gap i : ℕ) (temp : List ℕ)
    → length (spreaded rounds src gap i temp) ≡ length temp
unfolding spreaded
length-spreaded zero src gap i temp = refl
length-spreaded (suc r) src gap i temp =
    length-spreaded r src gap (i + 1) (set temp (place gap i) (get_or src i 0))
    ∙ length-set temp (place gap i) (get_or src i 0)

spreaded-before :
    (rounds : ℕ) (src : List ℕ) (gap i : ℕ) (temp : List ℕ) (t : ℕ)
    → t < i
    → get_or (spreaded rounds src gap i temp) (place gap t) 0 ≡ get_or temp (place gap t) 0
unfolding spreaded
spreaded-before zero src gap i temp t h = refl
spreaded-before (suc r) src gap i temp t h =
    spreaded-before r src gap (i + 1) (set temp (place gap i) (get_or src i 0)) t (omega arith)
    ∙ get_or-set_ne temp (place gap i) (place gap t) (get_or src i 0) 0 (λ e. absurd (ground arith))

pub spreaded-inside :
    (rounds : ℕ) (src : List ℕ) (gap i : ℕ) (temp : List ℕ) (k : ℕ)
    → i + rounds < length temp
    → k < rounds
    → get_or (spreaded rounds src gap i temp) (place gap (i + k)) 0 ≡ get_or src (i + k) 0
unfolding spreaded
spreaded-inside zero src gap i temp k b h = absurd (omega arith)
spreaded-inside (suc r) src gap i temp zero b h =
    let at_i : i + 0 ≡ i = omega arith in
    rw at_i (
      spreaded-before r src gap (i + 1) (set temp (place gap i) (get_or src i 0)) i (omega arith)
      ∙ get_or-set_self temp (place gap i) (get_or src i 0) 0 (ground arith))
spreaded-inside (suc r) src gap i temp (suc k) b h =
    let at_i : i + suc k ≡ i + 1 + k = omega arith in
    rw at_i (
      spreaded-inside r src gap (i + 1) (set temp (place gap i) (get_or src i 0)) k
        (omega (arith, length-set temp (place gap i) (get_or src i 0))) (omega arith))

pub spread_entries-spreaded :
    (rounds gap i j : ℕ) (ks ps : List ℕ) {s : Store} {p : Ptr} {n : Node}
    → Holds s p n
    → j ≡ (if leb i gap then i else i + 1)
    → i + rounds ≤ length n.keys
    → i + rounds ≤ length n.pointers
    → i + rounds < length ks
    → i + rounds < length ps
    → spread_entries rounds p gap i j ks ps s
      ≡ done (spreaded rounds n.keys gap i ks, spreaded rounds n.pointers gap i ps) s
unfolding spread_entries spreaded
spread_entries-spreaded zero gap i j ks ps h e bk bp dk dp = refl
spread_entries-spreaded (suc r) gap i j ks ps {s} {p} {n} h e bk bp dk dp =
    let skip : skip_gap gap j ≡ place gap i = ground arith in
    let k = get_or n.keys i 0 in
    let q = get_or n.pointers i 0 in
    rw
      (
        get_key_lem h i (omega arith),
        skip,
        write_at_lem ks (place gap i) k s (ground arith),
        get_pointer_lem h i (omega arith),
        write_at_lem ps (place gap i) q s (ground arith),
        spread_entries-spreaded r gap (i + 1) (place gap i + 1) (set ks (place gap i) k)
            (set ps (place gap i) q) h (ground arith) (omega arith) (omega arith)
            (omega (arith, length-set ks (place gap i) k))
            (omega (arith, length-set ps (place gap i) q)),
      )
      refl
