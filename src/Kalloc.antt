-- ===== src/Kalloc.antt =====
-- kernel/kalloc.c: the page allocator. The free list runs through the first word of each free page,
-- which `next` gives; `fill` is the byte that the rest of a page was last filled with. `end_addr` is
-- the address `end`, which the linker fixes.
pub mod Free
mod Tests
use g14_os_project.Prelude.{
  ℕ, zero, suc, ◌+◌, ◌-◌, ◌*◌, ◌/◌, ◌%◌, ◌^◌, Bool, true, false, ◌||◌, not, Option, none, some,
  ◌==◌, ltb, leb, if◌then◌else◌,
}
use g14_os_project.Prelude.Table.{update}

abbrev pub page_size : ℕ
page_size = 4096

-- PHYSTOP
abbrev pub phystop : ℕ
phystop = 2 ^ 31 + 128 * 1024 * 1024

pub record Kmem : Type 0 where
  pub freelist : ℕ
  pub next : ℕ → ℕ
  pub fill : ℕ → ℕ

-- PGROUNDUP
abbrev pub round_up : ℕ → ℕ
round_up a = (a + page_size - 1) / page_size * page_size

module _ (end_addr : ℕ) where
  -- `none` is the panic.
  pub kfree : ℕ → Kmem → Option Kmem
  kfree pa k =
      if not (pa % page_size == 0) || ltb pa end_addr || leb phystop pa
      then none
      else some
          (record { freelist = pa; next = update k.next pa k.freelist; fill = update k.fill pa 1 })

  -- The loop of `freerange` with `n` pages left.
  pub free_pages : ℕ → ℕ → Kmem → Option Kmem
  free_pages zero p k = some k
  free_pages (suc n) p k = elim (kfree p k) [
    | none ↦ none
    | some k' ↦ free_pages n (p + page_size) k'
  ]

  -- The loop runs while a whole page fits below `pa_end`.
  pub freerange : (pa_start pa_end : ℕ) → Kmem → Option Kmem
  unfolding free_pages
  freerange pa_start pa_end k =
      free_pages ((pa_end - round_up pa_start) / page_size) (round_up pa_start) k

pub kinit : ℕ → Kmem → Option Kmem
unfolding freerange
kinit end_addr k = freerange end_addr end_addr phystop k

-- A null pointer is 0.
pub kalloc : Kmem → Kmem × ℕ
kalloc k =
    if k.freelist == 0
    then (k, 0)
    else (record k { freelist = k.next k.freelist; fill = update k.fill k.freelist 5 }, k.freelist)
