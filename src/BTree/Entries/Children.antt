-- ===== src/BTree/Entries/Children.antt =====
-- The loops over the pointers of an internal node, and `insert_into_node`.
use nu_ksm_pact21_artifact.Base.{
  ℕ, zero, suc, ◌+◌, ◌-◌, ◌^◌, ◌≤◌, ◌<◌, ◌≡◌, refl, sym, ap, inl, inr, List, arith, leb, not, ◌==◌,
  if◌then◌else◌, Bool-cases, length, get_or, set, drop, length-set,
}
use native.Mathlib.Nat.{zero-add}
use native.Mathlib.Numerals.{add-one}
use nu_ksm_pact21_artifact.BTree.Store.{Ptr, Prog, Node, Store, done, put, add64}
use nu_ksm_pact21_artifact.BTree.Store.Laws.{
  Holds, put-Holds, put-put, put_self, write_at_lem, load_lem, get_key_lem, get_pointer_lem,
  set_key_lem, set_pointer_lem, set_num_keys_lem,
}
use nu_ksm_pact21_artifact.BTree.Entries.{
  skip_gap, scan_pointers, get_left_index, shift_children, insert_into_node, spread,
}
use nu_ksm_pact21_artifact.BTree.Entries.Scan.{scan, drop-cons}
use nu_ksm_pact21_artifact.BTree.Entries.Shift.{shifted, length-shifted, gap, set-shifted}
use nu_ksm_pact21_artifact.BTree.Entries.Copy.{place, spreaded}

scan_pointers-scan :
    (rounds i : ℕ) (left : Ptr) {s : Store} {p : Ptr} {n : Node}
    → Holds s p n
    → i + rounds ≤ length n.pointers
    → scan_pointers rounds p left i s
      ≡ done (i + scan (λ q. not (q == left)) rounds (drop i n.pointers)) s
unfolding scan_pointers scan
scan_pointers-scan zero i left {s} h b = ap (λ k. done k s) (omega arith)
scan_pointers-scan (suc r) i left {s} {p} {n} h b =
    let q = get_or n.pointers i 0 in
    rw (get_pointer_lem h i (omega arith), drop-cons i n.pointers (omega arith))
      (elim (Bool-cases (q == left)) [
        | inl hit ↦ rw hit (ap (λ k. done k s) (omega arith))
        | inr miss ↦
            rw (miss, scan_pointers-scan r (i + 1) left h (omega arith), add-one)
              (ap (λ k. done k s) (omega arith))
      ])

pub get_left_index_lem :
    (left : Ptr) {s : Store} {p : Ptr} {n : Node}
    → Holds s p n
    → n.num_keys + 1 ≤ length n.pointers
    → get_left_index p left s ≡ done (scan (λ q. not (q == left)) (n.num_keys + 1) n.pointers) s
unfolding get_left_index
get_left_index_lem left {n} h b =
    rw (load_lem h, scan_pointers-scan (n.num_keys + 1) 0 left h (omega arith), zero-add)

shift_children-shifted :
    (rounds lo : ℕ) {s : Store} {p : Ptr} {n : Node}
    → Holds s p n
    → lo + rounds < length n.keys
    → lo + 1 + rounds < length n.pointers
    → shift_children p lo rounds s
      ≡ done tt (
          put p
            (record n {
              keys = shifted n.keys lo rounds;
              pointers = shifted n.pointers (lo + 1) rounds;
            })
            s)
unfolding shift_children shifted
shift_children-shifted zero lo h bk bp = ap (done tt) (sym (put_self h))
shift_children-shifted (suc r) lo {s} {p} {n} h bk bp =
    let from : lo + r + 1 ≡ lo + 1 + r = omega arith in
    let to : lo + r + 2 ≡ lo + 1 + r + 1 = omega arith in
    let q = get_or n.pointers (lo + 1 + r) 0 in
    let n1 = record n { pointers = set n.pointers (lo + 1 + r + 1) q } in
    let h1 = put-Holds s n1 h.ne_null in
    let k = get_or n.keys (lo + r) 0 in
    let n2 = record n1 { keys = set n.keys (lo + 1 + r) k } in
    let h2 = put-Holds (put p n1 s) n2 h.ne_null in
    rw
      (
        to,
        from,
        get_pointer_lem h (lo + 1 + r) (omega arith),
        set_pointer_lem h (lo + 1 + r + 1) q (omega arith),
        get_key_lem h1 (lo + r) (omega arith),
        set_key_lem h1 (lo + 1 + r) k (omega arith),
        shift_children-shifted r lo h2 (omega (arith, length-set n.keys (lo + 1 + r) k))
            (omega (arith, length-set n.pointers (lo + 1 + r + 1) q)),
        put-put,
        put-put,
      )
      refl

-- The node with a key at `g` and the pointer on its right.
abbrev pub node_with : ℕ → ℕ → Ptr → Node → Node
node_with g key right n = record n {
  keys = gap g (n.num_keys - g) key n.keys;
  pointers = gap (g + 1) (n.num_keys - g) right n.pointers;
  num_keys = n.num_keys + 1;
}

pub insert_into_node-node_with :
    (root : Ptr) (g key : ℕ) (right : Ptr) {s : Store} {p : Ptr} {n : Node}
    → Holds s p n
    → g ≤ n.num_keys
    → n.num_keys < length n.keys
    → n.num_keys + 1 < length n.pointers
    → n.num_keys + 1 < 2 ^ 64
    → insert_into_node root p g key right s ≡ done root (put p (node_with g key right n) s)
unfolding insert_into_node
insert_into_node-node_with root g key right {s} {p} {n} h le bk bp word =
    let m = n.num_keys - g in
    let ks = shifted n.keys g m in
    let ps = shifted n.pointers (g + 1) m in
    let n1 = record n { keys = ks; pointers = ps } in
    let h1 = put-Holds s n1 h.ne_null in
    let n2 = record n1 { pointers = set ps (g + 1) right } in
    let h2 = put-Holds (put p n1 s) n2 h.ne_null in
    let n3 = record n2 { keys = set ks g key } in
    let h3 = put-Holds (put p n2 (put p n1 s)) n3 h.ne_null in
    let whole : add64 n.num_keys 1 ≡ n.num_keys + 1 = omega arith in
    rw
      (
        load_lem h,
        shift_children-shifted m g h (omega arith) (omega arith),
        set_pointer_lem h1 (g + 1) right (omega (arith, length-shifted n.pointers (g + 1) m)),
        set_key_lem h2 g key (omega (arith, length-shifted n.keys g m)),
        whole,
        set_num_keys_lem h3 (n.num_keys + 1),
        put-put,
        put-put,
        put-put,
        set-shifted g m key n.keys (omega arith),
        set-shifted (g + 1) m right n.pointers (omega arith),
      )
      refl

pub spread-spreaded :
    (rounds gap i j : ℕ) (source : ℕ → Prog ℕ) (src temp : List ℕ) (s : Store)
    → ((t : ℕ) → t < i + rounds → source t s ≡ done (get_or src t 0) s)
    → j ≡ (if leb i gap then i else i + 1)
    → i + rounds < length temp
    → spread rounds source gap i j temp s ≡ done (spreaded rounds src gap i temp) s
unfolding spread spreaded
spread-spreaded zero gap i j source src temp s reads e d = refl
spread-spreaded (suc r) gap i j source src temp s reads e d =
    let skip : skip_gap gap j ≡ place gap i = ground arith in
    let v = get_or src i 0 in
    rw
      (
        reads i (omega arith),
        skip,
        write_at_lem temp (place gap i) v s (ground arith),
        spread-spreaded r gap (i + 1) (place gap i + 1) source src (set temp (place gap i) v) s
            (λ t h. reads t (omega arith)) (ground arith)
            (omega (arith, length-set temp (place gap i) v)),
      )
      refl
