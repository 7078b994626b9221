-- ===== src/BTree/Store/Laws.antt =====
-- What each access to a node does, where the node is there and the index is in range.
use nu_ksm_pact21_artifact.Base.{
  ℕ, ◌<◌, ◌≡◌, ◌≢◌, ap, fun_ext, false, Option, some, List, arith, ◌==◌, lt→ltb, length, get_or,
  set, get_elem?-eq-get_or,
}
use nu_ksm_pact21_artifact.BTree.Store.{
  Ptr, null, Node, Store, done, put, update, load, store, at, write_at, get_key, get_pointer,
  set_key, set_pointer, set_num_keys, set_parent, set_next,
}

-- The pointer `p` leads to the node `n`.
pub record Holds (s : Store) (p : Ptr) (n : Node) : Type 0 where
  pub ne_null : p ≢ null
  pub holds : s.nodes p ≡ some n

pub put-Holds : (s : Store) {p : Ptr} (n : Node) → p ≢ null → Holds (put p n s) p n
put-Holds s n h = record { ne_null = h; holds = ground arith }

pub put-Holds_ne :
    {s : Store} {p q : Ptr} {n : Node} (m : Node) → Holds s p n → p ≢ q → Holds (put q m s) p n
put-Holds_ne m h ne = record { ne_null = h.ne_null; holds = ground arith }

update-update :
    (f : Ptr → Option Node) (p : Ptr) (a b : Node) → update (update f p b) p a ≡ update f p a
update-update f p a b = fun_ext λ q. ground arith

pub put-put : (s : Store) (p : Ptr) (a b : Node) → put p a (put p b s) ≡ put p a s
put-put s p a b = ap (λ f. record s { nodes = f }) (update-update s.nodes p a b)

pub put_self : {s : Store} {p : Ptr} {n : Node} → Holds s p n → put p n s ≡ s
put_self {s} {p} {n} h = ap (λ f. record s { nodes = f }) (fun_ext λ q. same q)
  where
    same : (q : Ptr) → update s.nodes p n q ≡ s.nodes q
    same q = let e = h.holds in ground arith

pub at_lem :
    {A : Type 0} (a : List A) (i : ℕ) (d : A) (s : Store)
    → i < length a
    → at a i s ≡ done (get_or a i d) s
unfolding at
at_lem a i d s h = rw (get_elem?-eq-get_or a i d h)

pub write_at_lem :
    {A : Type 0} (a : List A) (i : ℕ) (v : A) (s : Store)
    → i < length a
    → write_at a i v s ≡ done (set a i v) s
unfolding write_at
write_at_lem a i v s h = rw (lt→ltb i (length a) h)

module _ {s : Store} {p : Ptr} {n : Node} (h : Holds s p n) where
  pub not_null : (p == null) ≡ false
  not_null = let e = h.ne_null in ground arith

  pub load_lem : load p s ≡ done n s
  unfolding load
  load_lem = rw (not_null, h.holds)

  pub store_lem : (m : Node) → store p m s ≡ done tt (put p m s)
  unfolding store
  store_lem m = rw (not_null, h.holds)

  pub get_key_lem : (i : ℕ) → i < length n.keys → get_key p i s ≡ done (get_or n.keys i 0) s
  unfolding get_key
  get_key_lem i b = rw (not_null, h.holds, get_elem?-eq-get_or n.keys i 0 b)

  pub get_pointer_lem :
      (i : ℕ) → i < length n.pointers → get_pointer p i s ≡ done (get_or n.pointers i 0) s
  unfolding get_pointer
  get_pointer_lem i b = rw (not_null, h.holds, get_elem?-eq-get_or n.pointers i 0 b)

  pub set_key_lem :
      (i v : ℕ)
      → i < length n.keys
      → set_key p i v s ≡ done tt (put p (record n { keys = set n.keys i v }) s)
  unfolding set_key
  set_key_lem i v b = rw (not_null, h.holds, lt→ltb i (length n.keys) b, h.holds)

  pub set_pointer_lem :
      (i v : ℕ)
      → i < length n.pointers
      → set_pointer p i v s ≡ done tt (put p (record n { pointers = set n.pointers i v }) s)
  unfolding set_pointer
  set_pointer_lem i v b = rw (not_null, h.holds, lt→ltb i (length n.pointers) b, h.holds)

  pub set_num_keys_lem :
      (k : ℕ) → set_num_keys p k s ≡ done tt (put p (record n { num_keys = k }) s)
  unfolding set_num_keys
  set_num_keys_lem k = rw (not_null, h.holds, h.holds)

  pub set_parent_lem : (q : Ptr) → set_parent p q s ≡ done tt (put p (record n { parent = q }) s)
  unfolding set_parent
  set_parent_lem q = rw (not_null, h.holds, h.holds)

  pub set_next_lem : (q : Ptr) → set_next p q s ≡ done tt (put p (record n { next = q }) s)
  unfolding set_next
  set_next_lem q = rw (not_null, h.holds, h.holds)
