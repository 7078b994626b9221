-- ===== src/Pages/Merge.antt =====
-- The pages that basic-inputpages-pin.c leaves in memory, as the kernel compares them.
use nu_ksm_pact21_artifact.Base.{
  ℕ, suc, ◌+◌, ◌*◌, ◌%◌, ◌^◌, ◌≤◌, ◌<◌, ◌≡◌, ◌↔◌, sym, ap, ◌∙◌, Option, some, arith,
}
use nu_ksm_pact21_artifact.Pages.{Memory, product}
use nu_ksm_pact21_artifact.Pages.Run.{IsFilled}
use nu_ksm_pact21_artifact.Pages.Content.{SamePage, SamePage-iff, SamePage-eq}

-- The page of 4096 bytes at `a` in one memory and the page at `b` in another have the same content.
abbrev pub PageEq : Memory → ℕ → Memory → ℕ → Type 0
PageEq memory a memory' b = (j : ℕ) → j < 1024 → memory (a + 4 * j) ≡ memory' (b + 4 * j)

page_cell :
    (addr n factor p j : ℕ) (before after : Memory)
    → IsFilled addr n factor before after
    → 1024 * suc p ≤ n
    → j < 1024
    → after (addr + 4096 * p + 4 * j) ≡ some (product (1024 * p + j) factor)
page_cell addr n factor p j before after filled inside h =
    let place : addr + 4096 * p + 4 * j ≡ addr + 4 * (1024 * p + j) = omega arith in
    rw place (filled.inside (1024 * p + j) (omega arith))

some_cell : {a b : ℕ} → ◌≡◌ {A = Option ℕ} (some a) (some b) → a ≡ b
some_cell e = cc

PageEq-SamePage :
    (addr n factor p addr' n' factor' q : ℕ) (before after before' after' : Memory)
    → IsFilled addr n factor before after
    → IsFilled addr' n' factor' before' after'
    → 1024 * suc p ≤ n
    → 1024 * suc q ≤ n'
    → PageEq after (addr + 4096 * p) after' (addr' + 4096 * q) ↔ SamePage factor p factor' q
PageEq-SamePage addr n factor p addr' n' factor' q before after before' after' filled filled' hp
      hq =
    (
      λ equal j lt. some_cell (sym (cell j lt) ∙ equal j lt ∙ cell' j lt),
      λ same j lt. cell j lt ∙ ap some (same j lt) ∙ sym (cell' j lt),
    )
  where
    cell :
        (j : ℕ) → j < 1024 → after (addr + 4096 * p + 4 * j) ≡ some (product (1024 * p + j) factor)
    cell j lt = page_cell addr n factor p j before after filled hp lt

    cell' :
        (j : ℕ)
        → j < 1024
        → after' (addr' + 4096 * q + 4 * j) ≡ some (product (1024 * q + j) factor')
    cell' j lt = page_cell addr' n' factor' q j before' after' filled' hq lt

-- Take two processes that have filled their mappings, or one process twice. Page `p` of the one has
-- the same content in memory as page `q` of the other exactly when they filled the pages with the
-- same factor and the first cells agree modulo `2 ^ 32`, wherever the mappings are.
pub IsFilled-PageEq_iff :
    (addr n factor p addr' n' factor' q : ℕ) (before after before' after' : Memory)
    → IsFilled addr n factor before after
    → IsFilled addr' n' factor' before' after'
    → 1024 * suc p ≤ n
    → 1024 * suc q ≤ n'
    → factor < 2 ^ 32
    → factor' < 2 ^ 32
    → PageEq after (addr + 4096 * p) after' (addr' + 4096 * q)
      ↔ ((factor ≡ factor') × (1024 * p * factor % 2 ^ 32 ≡ 1024 * q * factor % 2 ^ 32))
IsFilled-PageEq_iff addr n factor p addr' n' factor' q before after before' after' filled filled' hp
      hq h h' =
    let (there, back) =
      PageEq-SamePage addr n factor p addr' n' factor' q before after before' after' filled filled'
        hp hq in
    let (there', back') = SamePage-iff factor p factor' q h h' in
    (λ equal. there' (there equal), λ same. back (back' same))

-- In a process that has filled its mapping with an odd factor, such as the default of 1, and that has
-- at most `2 ^ 22` pages, two pages with the same content in memory are one page.
pub IsFilled-PageEq :
    (addr n factor p q : ℕ) (before after : Memory)
    → IsFilled addr n factor before after
    → n ≤ 2 ^ 32
    → 1024 * suc p ≤ n
    → 1024 * suc q ≤ n
    → factor < 2 ^ 32
    → factor % 2 ≡ 1
    → PageEq after (addr + 4096 * p) after (addr + 4096 * q)
    → p ≡ q
IsFilled-PageEq addr n factor p q before after filled small hp hq h odd equal =
    let (there, back) =
      PageEq-SamePage addr n factor p addr n factor q before after before after filled filled hp
        hq in
    SamePage-eq factor p q h odd (omega arith) (omega arith) (there equal)
