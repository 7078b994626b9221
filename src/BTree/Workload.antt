-- ===== src/BTree/Workload.antt =====
-- The two loops of `main` of benchmarks/btree/btree.c, which fill the tree and look keys up in it. The
-- second is the one of a build without OpenMP.
use nu_ksm_pact21_artifact.Base.{
  ℕ, zero, suc, ◌+◌, ◌-◌, ◌*◌, ◌/◌, ◌%◌, ◌^◌, Option, ◌==◌, if◌then◌else◌,
}
use nu_ksm_pact21_artifact.BTree.Store.{Ptr, null, Prog, pure, ◌>>=◌, deref, load_record, add64}
use nu_ksm_pact21_artifact.BTree.Find.{find}
use nu_ksm_pact21_artifact.BTree.Insert.{insert}
use nu_ksm_pact21_artifact.BTree.Rand48.{State, redis_lrand48}

-- `&elms[i]`: two words of 8 bytes in an element.
abbrev pub element_at : Ptr → ℕ → Ptr
element_at elms i = elms + i * 16

-- `for (size_t i = …; i < n; i += 2)` with so many rounds left; `n` is NELEMENTS.
unfoldable pub fill_tree : ℕ → Ptr → Ptr → ℕ → ℕ → ℕ → Ptr → Prog Ptr
unfolding insert
fill_tree fuel elms elms2 n zero i root = pure root
fill_tree fuel elms elms2 n (suc rounds) i root = do
  root1 ← insert fuel root i (element_at elms (i / 2))
  root2 ← insert fuel root1 (n - i - 1) (element_at elms2 (i / 2))
  fill_tree fuel elms elms2 n rounds (i + 2) root2

-- `if (r) { e = (struct element *)r->value; if (e) sum += e->payload; }`; `elements` is what `payload`
-- holds in each element.
unfoldable pub add_payload : (Ptr → Option ℕ) → Ptr → ℕ → Prog ℕ
unfolding load_record
add_payload elements r sum = if r == null then pure sum else do
  rec ← load_record r
  if rec.word == null
      then pure sum
      else (do payload ← deref (elements rec.word); pure (add64 sum payload))

-- `for (size_t i = 0; i < NLOOKUP; i++)` with so many rounds left; `x` is the generator's state.
unfoldable pub sum_lookups : (Ptr → Option ℕ) → ℕ → Ptr → ℕ → ℕ → State → ℕ → Prog ℕ
unfolding find add_payload
sum_lookups elements fuel root n zero x sum = pure sum
sum_lookups elements fuel root n (suc rounds) x sum = do
  let (rdn, x1) = redis_lrand48 x
  (r, leaf) ← find fuel root (rdn % n)
  sum1 ← add_payload elements r sum
  (r2, leaf2) ← find fuel root ((rdn + 1) % 2 ^ 64 * 4 % 2 ^ 64 % n)
  sum2 ← add_payload elements r2 sum1
  sum_lookups elements fuel root n rounds x1 sum2
