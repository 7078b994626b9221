-- ===== src/BTree/Map/Lookups.antt =====
-- The lookups of benchmarks/btree/btree.c in a tree that the loop of `main` has filled with few keys.
use nu_ksm_pact21_artifact.Base.{ℕ, zero, suc, ◌+◌, ◌*◌, ◌%◌, ◌^◌}
use nu_ksm_pact21_artifact.BTree.Store.{Store, add64}
use nu_ksm_pact21_artifact.BTree.Rand48.{State, redis_lrand48}
use nu_ksm_pact21_artifact.BTree.Map.Initial.{Initial}

-- The sum with no memory: every lookup adds the payload of its key's element.
unfoldable pub expected_sum : (ℕ → ℕ) → ℕ → ℕ → State → ℕ → ℕ
expected_sum payload n zero x sum = sum
expected_sum payload n (suc rounds) x sum =
    let (rdn, x1) = redis_lrand48 x in
    expected_sum payload n rounds x1
      (add64 (add64 sum (payload (rdn % n))) (payload ((rdn + 1) % 2 ^ 64 * 4 % 2 ^ 64 % n)))
