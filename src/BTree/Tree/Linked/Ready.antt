-- ===== src/BTree/Tree/Linked/Ready.antt =====
-- What the allocator of nodes has in store: the free nodes in the order of their list, and four
-- addresses of new memory for each of them.
use nu_ksm_pact21_artifact.Base.{
  ℕ, suc, ◌*◌, ◌≤◌, ◌≡◌, refl, inl, inr, List, [], ◌∷◌, arith, length,
}
use nu_ksm_pact21_artifact.BTree.Store.{Ptr, Node, Store}
use nu_ksm_pact21_artifact.BTree.Store.Laws.{Holds}
use nu_ksm_pact21_artifact.BTree.Tree.Owned.{In, Holds-same}

-- The free list from `f` on begins with these nodes.
abbrev pub Free : Store → Ptr → List Ptr → Type 0
Free s f [] = Unit
Free s f (x ∷ xs) = (f ≡ x) × (b : Node) × Holds s x b × Free s b.next xs

pub Free-same :
    (s s' : Store) (f : Ptr) (xs : List Ptr)
    → ((x : Ptr) → In x xs → s'.nodes x ≡ s.nodes x)
    → Free s f xs
    → Free s' f xs
Free-same s s' f [] same t = tt
Free-same s s' f (x ∷ xs) same (e, b, held, rest) = (
  e,
  b,
  Holds-same (same x (inl refl)) held,
  Free-same s s' b.next xs (λ y i. same y (inr i)) rest,
)

pub record Ready (s : Store) (free : List Ptr) : Type 0 where
  pub chain : Free s s.free_nodes free
  pub memory : 4 * length free ≤ length s.supply

pub four_addresses :
    (supply : List Ptr) (n : ℕ)
    → 4 * suc n ≤ length supply
    → (a : Ptr) × (b : Ptr) × (c : Ptr) × (d : Ptr) × (rest : List Ptr) × (supply
        ≡ a ∷ b ∷ c ∷ d ∷ rest)
      × (4 * n ≤ length rest)
four_addresses [] n h = absurd (omega arith)
four_addresses (a ∷ []) n h = absurd (omega arith)
four_addresses (a ∷ b ∷ []) n h = absurd (omega arith)
four_addresses (a ∷ b ∷ c ∷ []) n h = absurd (omega arith)
four_addresses (a ∷ b ∷ c ∷ d ∷ rest) n h = (a, b, c, d, rest, refl, omega arith)
