-- ===== src/Vm.antt =====
-- kernel/vm.c: page tables. The memory has two views, as a page holds either entries or data: `pte`,
-- the 64-bit entries of a page by the page's address and the index, and `bytes`. `free` is the list
-- of the free pages, first the one that kalloc returns; the junk that kalloc and kfree fill a page
-- with is left out, as each page taken is zeroed or overwritten whole. `none` is a panic.
pub mod Flags
pub mod Entries
pub mod Store
pub mod Grow
pub mod Walk
pub mod Range
pub mod Map
pub mod Lookup
pub mod Translate
pub mod Unmap
pub mod Space
pub mod Copy
pub mod CopyIn
mod Tests
use g14_os_project.Prelude.{
  ℕ, zero, suc, ◌+◌, ◌-◌, ◌*◌, ◌/◌, ◌%◌, ◌^◌, Bool, true, false, ◌&&◌, ◌||◌, not, Option, none,
  some, List, [], ◌∷◌, ◌==◌, if◌then◌else◌, ltb, leb,
}
use g14_os_project.Prelude.Bits.{test_bit, set_bit, clear_bit}
use g14_os_project.Prelude.Table.{update}
use g14_os_project.Cstring.{Bytes, memset}

-- PGSIZE
abbrev pub page_size : ℕ
page_size = 4096

abbrev pub max_va : ℕ
max_va = 2 ^ 38

-- The numbers of the bits PTE_V, PTE_R, PTE_W, PTE_X and PTE_U.
abbrev pub v_bit : ℕ
v_bit = 0

abbrev pub r_bit : ℕ
r_bit = 1

abbrev pub w_bit : ℕ
w_bit = 2

abbrev pub x_bit : ℕ
x_bit = 3

abbrev pub u_bit : ℕ
u_bit = 4

abbrev pub is_valid : ℕ → Bool
is_valid pte = test_bit pte v_bit

-- PA2PTE(pa) | perm | PTE_V, for a perm of 10 bits
unfoldable pub pa2pte : (pa perm : ℕ) → ℕ
pa2pte pa perm = (pa / 2 ^ 12 * 2 ^ 10) % 2 ^ 64 + set_bit (perm % 2 ^ 10) v_bit

unfoldable pub pte2pa : ℕ → ℕ
pte2pa pte = (pte / 2 ^ 10 * 2 ^ 12) % 2 ^ 64

-- PX(level, va)
unfoldable pub px : (level va : ℕ) → ℕ
px level va = va / 2 ^ (12 + 9 * level) % 2 ^ 9

abbrev pub round_down : ℕ → ℕ
round_down a = a / page_size * page_size

pub record Vm : Type 0 where
  pub pte : ℕ → ℕ → ℕ
  pub bytes : Bytes
  pub free : List ℕ

-- *pte = value
abbrev pub set_pte : (page i value : ℕ) → Vm → Vm
set_pte page i value s = record s { pte = update s.pte page (update (s.pte page) i value) }

-- memset(page, 0, PGSIZE), in both views
unfoldable pub zero_page : ℕ → Vm → Vm
zero_page page s = record s {
  pte = update s.pte page (λ i. 0);
  bytes = memset s.bytes page 0 page_size;
}

unfoldable pub kalloc : Vm → Option (ℕ × Vm)
kalloc s = elim s.free [ [] ↦ none | q ∷ qs ↦ some (q, record s { free = qs }) ]

-- One round of the loop of `walk`: the page of the next level, `none` at a return of 0.
unfoldable pub descend : (alloc : Bool) → (level page va : ℕ) → Vm → Option ℕ × Vm
unfolding px kalloc zero_page
descend alloc level page va s =
    let i = px level va in
    if is_valid (s.pte page i)
    then (some (pte2pa (s.pte page i)), s)
    else if not alloc
    then (none, s)
    else elim (kalloc s) [
      | none ↦ (none, s)
      | some (q, s₁) ↦ (some q, set_pte page i (pa2pte q 0) (zero_page q s₁))
    ]

abbrev pub then_walk : (ℕ → Vm → Option (ℕ × ℕ) × Vm) → Option ℕ × Vm → Option (ℕ × ℕ) × Vm
then_walk later (none, s) = (none, s)
then_walk later (some next, s) = later next s

-- The loop from `level` down, and where the entry of level 0 is.
unfoldable pub walk_from : (alloc : Bool) → (level page va : ℕ) → Vm → Option (ℕ × ℕ) × Vm
walk_from alloc zero page va s = (some (page, px 0 va), s)
walk_from alloc (suc level) page va s =
    then_walk (λ next. walk_from alloc level next va) (descend alloc (suc level) page va s)

-- The entry's page and index, or 0.
unfoldable pub walk : (pagetable va : ℕ) → (alloc : Bool) → Vm → Option (Option (ℕ × ℕ) × Vm)
unfolding walk_from
walk pagetable va alloc s = if leb max_va va then none else some (walk_from alloc 2 pagetable va s)

abbrev pub user_page : Option (ℕ × ℕ) × Vm → ℕ
user_page (none, s) = 0
user_page (some (page, i), s) =
    if not (is_valid (s.pte page i))
    then 0
    else if not (test_bit (s.pte page i) u_bit)
    then 0
    else pte2pa (s.pte page i)

-- The physical address, 0 for none.
unfoldable pub walkaddr : (pagetable va : ℕ) → Vm → ℕ
unfolding walk_from
walkaddr pagetable va s = if leb max_va va then 0 else user_page (walk_from false 2 pagetable va s)

-- To go on unless a panic.
abbrev pub and_then : {A B : Type 0} → (A → Option B) → Option A → Option B
and_then later none = none
and_then later (some a) = later a

-- What `mappages` does after `walk`.
abbrev pub store_pte :
    (Vm → Option (Bool × Vm)) → (pa perm : ℕ) → Option (ℕ × ℕ) × Vm → Option (Bool × Vm)
store_pte later pa perm (none, s) = some (false, s)
store_pte later pa perm (some (page, i), s) =
    if is_valid (s.pte page i) then none else later (set_pte page i (pa2pte pa perm) s)

-- The loop of `mappages` for `left` pages more from a on: whether it returns 0.
unfoldable pub map_loop : (left pagetable a pa perm : ℕ) → Vm → Option (Bool × Vm)
unfolding walk
map_loop zero pagetable a pa perm s = some (true, s)
map_loop (suc left) pagetable a pa perm s =
    and_then (store_pte (map_loop left pagetable (a + page_size) (pa + page_size) perm) pa perm)
      (walk pagetable a true s)

unfoldable pub mappages : (pagetable va size pa perm : ℕ) → Vm → Option (Bool × Vm)
unfolding map_loop
mappages pagetable va size pa perm s =
    if not (va % page_size == 0)
    then none
    else if not (size % page_size == 0)
    then none
    else if size == 0
    then none
    else map_loop (size / page_size) pagetable va pa perm s

abbrev pub is_mapped_at : Option (ℕ × ℕ) × Vm → Bool
is_mapped_at (none, s) = false
is_mapped_at (some (page, i), s) = is_valid (s.pte page i)

unfoldable pub ismapped : (pagetable va : ℕ) → Vm → Option Bool
unfolding walk
ismapped pagetable va s = and_then (λ found. some (is_mapped_at found)) (walk pagetable va false s)
