-- ===== src/Vm/Range.antt =====
-- kernel/vm.c: the ranges of pages that mappages and uvmunmap go through.
use g14_os_project.Prelude.{ℕ, suc, ◌+◌, ◌/◌, ◌≡◌, ◌≢◌, Bool, true, false, ◌&&◌, arith, ltb, leb}
use g14_os_project.Vm.{page_size}

-- Whether va's page is one of the n pages from a on.
unfoldable pub in_range : (n a va : ℕ) → Bool
in_range n a va = leb (a / page_size) (va / page_size) && ltb (va / page_size) (a / page_size + n)

pub next_page : (a : ℕ) → (a + page_size) / page_size ≡ suc (a / page_size)
next_page a = omega arith

pub first_in_range :
    (n a va : ℕ)
    → a / page_size ≡ va / page_size
    → (in_range n (a + page_size) va ≡ false) × (in_range (suc n) a va ≡ true)
unfolding in_range
first_in_range n a va e = let step = next_page a in (ground arith, ground arith)

pub later_in_range :
    (n a va : ℕ)
    → a / page_size ≢ va / page_size
    → in_range n (a + page_size) va ≡ in_range (suc n) a va
unfolding in_range
later_in_range n a va ne = let step = next_page a in ground arith

pub own_page : (n a : ℕ) → in_range (suc n) a a ≡ true
unfolding in_range
own_page n a = ground arith

pub not_first : (n a va : ℕ) → in_range n (a + page_size) va ≡ true → a / page_size ≢ va / page_size
unfolding in_range
not_first n a va h = let step = next_page a in ground arith
