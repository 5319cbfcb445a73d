-- ===== src/Kalloc/Tests.antt =====
-- The allocator with the last three pages of memory, and the theorems there.
use g14_os_project.Prelude.{ℕ, ◌-◌, ◌*◌, ◌≡◌, refl, none, some, [], ◌∷◌, arith}
use g14_os_project.Kalloc.{Kmem, kfree, kalloc, page_size, phystop}
use g14_os_project.Kalloc.Free.{Chain, IsPage, AllocOutcome, kalloc-AllocOutcome}

-- The kernel ends in the middle of a page, three pages before PHYSTOP.
abbrev kernel_end : ℕ
kernel_end = phystop - 3 * page_size - 100

abbrev none_free : Kmem
none_free = record { freelist = 0; next = λ p. 0; fill = λ p. 0 }

abbrev top_page : ℕ
top_page = phystop - page_size

abbrev one_free : Kmem
one_free = elim (kfree kernel_end top_page none_free) [ none ↦ none_free | some k ↦ k ]

kalloc_none : (kalloc none_free).1 ≡ 0
unfolding kalloc
kalloc_none = refl

top_page-IsPage : IsPage kernel_end top_page
top_page-IsPage = record { aligned = omega arith; above = omega arith; below = omega arith }

one_free-Chain : Chain kernel_end one_free.next one_free.freelist (top_page ∷ [])
unfolding kfree
one_free-Chain = (refl, top_page-IsPage, refl, refl)

kalloc-AllocOutcome_example : AllocOutcome kernel_end (top_page ∷ []) (kalloc one_free)
kalloc-AllocOutcome_example =
    kalloc-AllocOutcome kernel_end one_free (top_page ∷ []) (omega arith) one_free-Chain
