-- ===== src/BTree/Store.antt =====
-- The memory of benchmarks/btree/btree.c: its nodes, records and globals, and the monad in which
-- its functions run. A pointer is an address, 0 is NULL. An access through a pointer that leads to
-- no object, or past the end of an array, is a fault. `exited` is `exit(…)`; `out_of_fuel` marks a
-- loop that is still running when its rounds are used up.
pub mod Laws
use nu_ksm_pact21_artifact.Base.{
  ℕ, ◌+◌, ◌%◌, ◌^◌, Bool, Option, none, some, List, ◌==◌, if◌then◌else◌, ltb, length, get_elem?,
  set,
}

abbrev pub Ptr : Type 0
Ptr = ℕ

abbrev pub null : Ptr
null = 0

-- `struct node`. The two arrays are part of the node: they are never shared.
pub record Node : Type 0 where
  pub pointers : List Ptr
  pub keys : List ℕ
  pub parent : Ptr
  pub is_leaf : Bool
  pub num_keys : ℕ
  pub next : Ptr

-- `struct record`: `word` is the union of `value` and `next`.
pub record Rec : Type 0 where
  pub word : ℕ
  pub flags : ℕ

-- `supply` holds the addresses that `posix_memalign` is going to return; it fails at the end.
pub record Store : Type 0 where
  pub nodes : Ptr → Option Node
  pub records : Ptr → Option Rec
  pub order : ℕ
  pub free_nodes : Ptr
  pub free_recs : Ptr
  pub queue : Ptr
  pub allocator_stat : ℕ
  pub supply : List Ptr

pub data Outcome (A : Type 0) : Type 0 where
  done : A → Store → Outcome A
  fault : Outcome A
  exited : Outcome A
  out_of_fuel : Outcome A

abbrev pub Prog : Type 0 → Type 0
Prog A = Store → Outcome A

abbrev pub pure : {A : Type 0} → A → Prog A
pure = done

abbrev pub continue_with : {A B : Type 0} → Outcome A → (A → Prog B) → Outcome B
continue_with (done a s) k = k a s
continue_with fault k = fault
continue_with exited k = exited
continue_with out_of_fuel k = out_of_fuel

infixl 5 ◌>>=◌ ◌>>◌
abbrev pub ◌>>=◌ : {A B : Type 0} → Prog A → (A → Prog B) → Prog B
◌>>=◌ m k s = continue_with (m s) k

abbrev pub ◌>>◌ : {B : Type 0} → Prog (Unit {0}) → Prog B → Prog B
m >> k = m >>= λ _. k

-- A global variable, or any other value of the store.
abbrev pub gets : {A : Type 0} → (Store → A) → Prog A
gets f s = done (f s) s

abbrev pub modify : (Store → Store) → Prog (Unit {0})
modify f s = done tt (f s)

abbrev pub fail : {A : Type 0} → Prog A
fail s = fault

abbrev pub update : {A : Type 0} → (Ptr → Option A) → Ptr → A → Ptr → Option A
update f p v q = if q == p then some v else f q

abbrev pub put : Ptr → Node → Store → Store
put p n s = record s { nodes = update s.nodes p n }

abbrev pub deref : {A : Type 0} → Option A → Prog A
deref none s = fault
deref (some a) s = done a s

-- `*p` for a node.
unfoldable pub load : Ptr → Prog Node
load p = if p == null then fail else λ s. deref (s.nodes p) s

unfoldable pub store : Ptr → Node → Prog (Unit {0})
unfolding load
store p n = load p >>= λ _. modify (put p n)

unfoldable pub load_record : Ptr → Prog Rec
load_record p = if p == null then fail else λ s. deref (s.records p) s

unfoldable pub store_record : Ptr → Rec → Prog (Unit {0})
unfolding load_record
store_record p r = load_record p >>= λ _. modify (λ s. record s { records = update s.records p r })

-- `a[i]` of a local array, and the array after `a[i] = v`.
unfoldable pub at : {A : Type 0} → List A → ℕ → Prog A
at a i = deref (get_elem? a i)

unfoldable pub write_at : {A : Type 0} → List A → ℕ → A → Prog (List A)
write_at a i v = if ltb i (length a) then pure (set a i v) else fail

-- `p->keys[i]`, `p->pointers[i]` and the assignments to them and to the fields.
unfoldable pub get_key : Ptr → ℕ → Prog ℕ
unfolding load at
get_key p i = do n ← load p; at n.keys i

unfoldable pub get_pointer : Ptr → ℕ → Prog Ptr
unfolding load at
get_pointer p i = do n ← load p; at n.pointers i

unfoldable pub set_key : Ptr → ℕ → ℕ → Prog (Unit {0})
unfolding store write_at
set_key p i v = do n ← load p; a ← write_at n.keys i v; store p (record n { keys = a })

unfoldable pub set_pointer : Ptr → ℕ → Ptr → Prog (Unit {0})
unfolding store write_at
set_pointer p i v = do n ← load p; a ← write_at n.pointers i v; store p (record n { pointers = a })

unfoldable pub set_num_keys : Ptr → ℕ → Prog (Unit {0})
unfolding store
set_num_keys p k = do n ← load p; store p (record n { num_keys = k })

unfoldable pub set_parent : Ptr → Ptr → Prog (Unit {0})
unfolding store
set_parent p q = do n ← load p; store p (record n { parent = q })

unfoldable pub set_next : Ptr → Ptr → Prog (Unit {0})
unfolding store
set_next p q = do n ← load p; store p (record n { next = q })

-- `uint64_t` addition and subtraction.
abbrev pub add64 : ℕ → ℕ → ℕ
add64 a b = (a + b) % 2 ^ 64
