-- ===== src/Kalloc/Free.antt =====
-- The free list as a list of distinct pages.
use g14_os_project.Prelude.{
  ℕ, zero, suc, ◌+◌, ◌-◌, ◌*◌, ◌/◌, ◌%◌, ◌≤◌, ◌<◌, ◌≡◌, refl, sym, ◌∙◌, ◌≢◌, true, false, some,
  List, [], ◌∷◌, ◌==◌, ltb, leb, arith,
}
use g14_os_project.Prelude.Table.{update, update_self, update_ne}
use g14_os_project.Kalloc.{
  Kmem, kfree, kalloc, free_pages, freerange, kinit, page_size, phystop, round_up,
}

abbrev pub NotIn : ℕ → List ℕ → Type 0
NotIn p [] = p ≡ p
NotIn p (q ∷ qs) = (p ≢ q) × NotIn p qs

module _ (end_addr : ℕ) where
  -- A page of the memory that the allocator manages.
  pub record IsPage (p : ℕ) : Type 0 where
    pub aligned : p % page_size ≡ 0
    pub above : end_addr ≤ p
    pub below : p < phystop

  -- From `head` on, the links run through the pages of the list, and end there.
  abbrev pub Chain : (next : ℕ → ℕ) → ℕ → List ℕ → Type 0
  Chain next head [] = head ≡ 0
  Chain next head (p ∷ ps) = (head ≡ p) × IsPage p × NotIn p ps × Chain next (next p) ps

  Chain-update :
      (next : ℕ → ℕ) (head p v : ℕ) (ps : List ℕ)
      → NotIn p ps
      → Chain next head ps
      → Chain (update next p v) head ps
  Chain-update next head p v [] out c = c
  Chain-update next head p v (q ∷ qs) out (here, page, fresh, rest) =
      let other : update next p v q ≡ next q = update_ne next p q v (λ e. out.0 (sym e)) in
      (here, page, fresh, rw other (Chain-update next (next q) p v qs out.1 rest))

  -- Freeing a page of the managed memory that is not free succeeds and puts it in front of the free
  -- pages, which stay free.
  pub kfree-Chain :
      (k : Kmem) (p : ℕ) (ps : List ℕ)
      → Chain k.next k.freelist ps
      → NotIn p ps
      → IsPage p
      → (k' : Kmem) × (kfree end_addr p k ≡ some k') × Chain k'.next k'.freelist (p ∷ ps)
  unfolding kfree
  kfree-Chain k p ps c out page =
      let aligned : (p % page_size == 0) ≡ true = ground (arith, page.aligned) in
      let above : ltb p end_addr ≡ false = ground (arith, page.above) in
      let below : leb phystop p ≡ false = ground (arith, page.below) in
      let linked : update k.next p k.freelist p ≡ k.freelist = update_self k.next p k.freelist in
      (
        record { freelist = p; next = update k.next p k.freelist; fill = update k.fill p 1 },
        (rw (aligned, above, below) refl),
        (refl, page, out, rw linked (Chain-update k.next k.freelist p k.freelist ps out c)),
      )

  -- How `kalloc` answers when the pages of the list are free.
  abbrev pub AllocOutcome : List ℕ → Kmem × ℕ → Type 0
  AllocOutcome [] (k', p) = (p ≡ 0) × Chain k'.next k'.freelist []
  AllocOutcome (q ∷ qs) (k', p) = (p ≡ q) × IsPage p × NotIn p qs × Chain k'.next k'.freelist qs

  -- With the free pages in the free list, and the kernel not at address 0: `kalloc` returns 0 exactly
  -- when no page is free; otherwise a managed page that was free and now is not, the others staying
  -- free.
  pub kalloc-AllocOutcome :
      (k : Kmem) (ps : List ℕ)
      → 0 < end_addr
      → Chain k.next k.freelist ps
      → AllocOutcome ps (kalloc k)
  unfolding kalloc
  kalloc-AllocOutcome k [] pos c =
      let null : (k.freelist == 0) ≡ true = ground (arith, c) in rw null (refl, c)
  kalloc-AllocOutcome k (q ∷ qs) pos (here, page, fresh, rest) =
      let some_page : (k.freelist == 0) ≡ false = ground (arith, here, page.above) in
      rw (some_page, here) (refl, page, fresh, rest)

-- The pages of the list lie below `p`.
abbrev AllBelow : ℕ → List ℕ → Type 0
AllBelow p [] = p ≡ p
AllBelow p (q ∷ qs) = (q < p) × AllBelow p qs

AllBelow-NotIn : (p : ℕ) (qs : List ℕ) → AllBelow p qs → NotIn p qs
AllBelow-NotIn p [] b = refl
AllBelow-NotIn p (q ∷ qs) b = ((λ e. absurd (omega (arith, b.0, e))), AllBelow-NotIn p qs b.1)

AllBelow-mono : (p r : ℕ) (qs : List ℕ) → p ≤ r → AllBelow p qs → AllBelow r qs
AllBelow-mono p r [] le b = refl
AllBelow-mono p r (q ∷ qs) le b = (omega (arith, b.0), AllBelow-mono p r qs le b.1)

-- The free pages after `n` pages from `p` on are freed, one by one.
abbrev pub pushed : ℕ → ℕ → List ℕ → List ℕ
pushed zero p qs = qs
pushed (suc n) p qs = pushed n (p + page_size) (p ∷ qs)

module _ (end_addr : ℕ) where
  free_pages-suc :
      (n p : ℕ) (k k₁ : Kmem)
      → kfree end_addr p k ≡ some k₁
      → free_pages end_addr (suc n) p k ≡ free_pages end_addr n (p + page_size) k₁
  unfolding free_pages
  free_pages-suc n p k k₁ e = rw (e, free_pages) refl

  free_pages-Chain :
      (n p : ℕ) (k : Kmem) (qs : List ℕ)
      → Chain end_addr k.next k.freelist qs
      → AllBelow p qs
      → p % page_size ≡ 0
      → end_addr ≤ p
      → p + n * page_size ≤ phystop
      → (k' : Kmem) × (free_pages end_addr n p k ≡ some k')
        × Chain end_addr k'.next k'.freelist (pushed n p qs)
  unfolding free_pages
  free_pages-Chain zero p k qs c b aligned above below = (k, refl, c)
  free_pages-Chain (suc n) p k qs c b aligned above below =
      let page : IsPage end_addr p = record {
        aligned = aligned;
        above = above;
        below = omega arith;
      } in
      let (k₁, freed, chain) = kfree-Chain end_addr k p qs c (AllBelow-NotIn p qs b) page in
      let (k₂, rest, last) =
        free_pages-Chain n (p + page_size) k₁ (p ∷ qs) chain
          (omega arith, AllBelow-mono p (p + page_size) qs (omega arith) b) (omega arith)
          (omega arith) (omega arith) in
      (k₂, free_pages-suc n p k k₁ freed ∙ rest, last)

  -- With `end` below PHYSTOP, `kinit` on an empty free list succeeds, and the free pages are then all
  -- the whole pages from the first page boundary at or above `end` up to PHYSTOP, the highest first.
  pub kinit-Chain :
      (k : Kmem)
      → k.freelist ≡ 0
      → end_addr < phystop
      → (k' : Kmem) × (kinit end_addr k ≡ some k')
        × Chain end_addr k'.next k'.freelist
            (pushed ((phystop - round_up end_addr) / page_size) (round_up end_addr) [])
  unfolding kinit freerange
  kinit-Chain k null small =
      free_pages-Chain ((phystop - round_up end_addr) / page_size) (round_up end_addr) k [] null
        refl (omega arith) (omega arith) (omega arith)
