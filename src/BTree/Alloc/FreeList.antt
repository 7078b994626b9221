-- ===== src/BTree/Alloc/FreeList.antt =====
-- The free list of nodes of benchmarks/btree/btree.c.
use nu_ksm_pact21_artifact.Base.{◌≡◌, refl, true, ◌==◌, arith}
use nu_ksm_pact21_artifact.BTree.Store.{Ptr, Node, Store, done, put, ◌>>◌}
use nu_ksm_pact21_artifact.BTree.Store.Laws.{Holds, not_null}
use nu_ksm_pact21_artifact.BTree.Alloc.{alloc_node, free_node}

-- After `free_node` of a node, `alloc_node` takes it from the free list again, without an allocation:
-- it returns the same pointer, the free list is the one before, and the node has lost nothing but its
-- `next`, which is still the list's head.
pub alloc_node-free_node :
    (s : Store) (p : Ptr) (n : Node)
    → Holds s p n
    → (free_node p >> alloc_node) s ≡ done p (put p (record n { next = s.free_nodes }) s)
unfolding alloc_node free_node
alloc_node-free_node s p n h =
    let self : (p == p) ≡ true = ground arith in
    rw (not_null h, h.holds, h.holds, not_null h, not_null h, self) refl
