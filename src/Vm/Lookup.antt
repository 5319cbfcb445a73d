-- ===== src/Vm/Lookup.antt =====
-- kernel/vm.c: walk without alloc, walkaddr and ismapped, as reads of the map from page numbers to entries.
use g14_os_project.Prelude.{
  ℕ, zero, suc, ◌≡◌, refl, sym, false, ◌&&◌, Option, none, some, if◌then◌else◌, arith, inl, inr,
  Bool-cases, leb,
}
use g14_os_project.Prelude.Bits.{test_bit}
use g14_os_project.Vm.{
  Vm, is_valid, u_bit, pte2pa, px, max_va, descend, walk_from, walk, user_page, walkaddr,
  is_mapped_at, ismapped,
}
use g14_os_project.Vm.Flags.{is_valid-zero}
use g14_os_project.Vm.Entries.{reach, entry, entry_at}

-- Where the entry is, from the page that is reached.
abbrev pub place_of : (va : ℕ) → Vm → Option ℕ → Option (ℕ × ℕ) × Vm
place_of va s none = (none, s)
place_of va s (some page) = (some (page, px 0 va), s)

pub walk_from-reach :
    (level page va : ℕ) (s : Vm)
    → walk_from false level page va s ≡ place_of va s (reach level page va s)
unfolding walk_from descend reach
walk_from-reach zero page va s = refl
walk_from-reach (suc level) page va s =
    elim (Bool-cases (is_valid (s.pte page (px (suc level) va)))) [
      | inl valid ↦
          rw (walk_from, descend, reach, valid)
            (walk_from-reach level (pte2pa (s.pte page (px (suc level) va))) va s)
      | inr other ↦ rw (walk_from, descend, reach, other) refl
    ]

-- The physical address of an entry that a user may use, or 0.
abbrev pub user_pa : ℕ → ℕ
user_pa pte = if is_valid pte && test_bit pte u_bit then pte2pa pte else 0

user_page-place_of :
    (va : ℕ) (s : Vm) (found : Option ℕ)
    → user_page (place_of va s found) ≡ user_pa (entry_at s va found)
user_page-place_of va s none = rw (is_valid-zero) refl
user_page-place_of va s (some page) = ground arith

is_mapped_at-place_of :
    (va : ℕ) (s : Vm) (found : Option ℕ)
    → is_mapped_at (place_of va s found) ≡ is_valid (entry_at s va found)
is_mapped_at-place_of va s none = sym is_valid-zero
is_mapped_at-place_of va s (some page) = refl

-- walkaddr gives the physical page of the entry that the page table has for the address if the entry
-- is valid and for the user, and 0 otherwise and from MAXVA on.
pub walkaddr-entry :
    (root va : ℕ) (s : Vm)
    → walkaddr root va s ≡ (if leb max_va va then 0 else user_pa (entry root va s))
unfolding walkaddr entry
walkaddr-entry root va s =
    rw (walkaddr, walk_from-reach 2 root va s, user_page-place_of va s (reach 2 root va s)) refl

pub ismapped-entry :
    (root va : ℕ) (s : Vm)
    → ismapped root va s ≡ (if leb max_va va then none else some (is_valid (entry root va s)))
unfolding ismapped walk entry
ismapped-entry root va s = elim (Bool-cases (leb max_va va)) [
  | inl out ↦ rw (ismapped, walk, out) refl
  | inr inside ↦
      rw
        (
          ismapped,
          walk,
          inside,
          walk_from-reach 2 root va s,
          is_mapped_at-place_of va s (reach 2 root va s),
        )
        refl
]
