-- ===== src/Vm/Flags.antt =====
-- kernel/riscv.h: the fields of an entry.
use g14_os_project.Prelude.{ℕ, ◌/◌, ◌%◌, ◌^◌, ◌<◌, ◌≡◌, refl, true, false, arith}
use g14_os_project.Prelude.Bits.{test_bit, set_bit}
use g14_os_project.Vm.{page_size, is_valid, pa2pte, pte2pa, px}

-- A physical address of a page.
unfoldable pub IsPage : ℕ → Type 0
IsPage pa = (pa % page_size ≡ 0) × (pa < 2 ^ 56)

pub is_valid-pa2pte : (pa perm : ℕ) → is_valid (pa2pte pa perm) ≡ true
unfolding pa2pte test_bit set_bit
is_valid-pa2pte pa perm = ground arith

pub pte2pa-pa2pte : (pa perm : ℕ) → IsPage pa → pte2pa (pa2pte pa perm) ≡ pa
unfolding pa2pte pte2pa set_bit IsPage
pte2pa-pa2pte pa perm page = omega (arith, page.0, page.1)

pub is_valid-zero : is_valid 0 ≡ false
unfolding test_bit
is_valid-zero = refl

-- The three indices tell the pages below MAXVA apart.
pub px_injective :
    (va vb : ℕ)
    → va < 2 ^ 38
    → vb < 2 ^ 38
    → px 2 va ≡ px 2 vb
    → px 1 va ≡ px 1 vb
    → px 0 va ≡ px 0 vb
    → va / page_size ≡ vb / page_size
unfolding px
px_injective va vb lt_a lt_b e2 e1 e0 = omega arith

pub px-page :
    (va vb : ℕ)
    → va / page_size ≡ vb / page_size
    → (px 2 va ≡ px 2 vb) × (px 1 va ≡ px 1 vb) × (px 0 va ≡ px 0 vb)
unfolding px
px-page va vb e = (omega arith, omega arith, omega arith)
