-- ===== src/Vm/Space.antt =====
-- kernel/vm.c: the user part of an address space, made, grown, shrunk and copied. `end_addr` is the
-- address `end`, which the linker fixes. `none` is a panic.
use g14_os_project.Prelude.{
  ℕ, zero, suc, ◌+◌, ◌-◌, ◌/◌, ◌%◌, ◌^◌, Bool, true, false, ◌||◌, not, Option, none, some, ◌∷◌,
  ◌==◌, if◌then◌else◌, ltb, leb,
}
use g14_os_project.Prelude.Bits.{set_bit, clear_bit}
use g14_os_project.Cstring.{memmove}
use g14_os_project.Kalloc.{phystop, round_up}
use g14_os_project.Vm.{
  Vm, page_size, r_bit, u_bit, is_valid, pte2pa, set_pte, zero_page, kalloc, walk, and_then,
  mappages, ismapped, round_down,
}

-- A return of 0 if no page is free.
unfoldable pub uvmcreate : Vm → ℕ × Vm
unfolding kalloc
uvmcreate s = elim (kalloc s) [ none ↦ (0, s) | some (q, s₁) ↦ (q, zero_page q s₁) ]

-- What `uvmclear` does after `walk`.
abbrev pub clear_user : Option (ℕ × ℕ) × Vm → Option Vm
clear_user (none, s) = none
clear_user (some (page, i), s) = some (set_pte page i (clear_bit (s.pte page i) u_bit) s)

unfoldable pub uvmclear : (pagetable va : ℕ) → Vm → Option Vm
unfolding walk
uvmclear pagetable va s = and_then clear_user (walk pagetable va false s)

abbrev pub must_succeed : Bool × Vm → Option Vm
must_succeed (true, s) = some s
must_succeed (false, s) = none

unfoldable pub kvmmap : (pagetable va pa sz perm : ℕ) → Vm → Option Vm
unfolding mappages
kvmmap pagetable va pa sz perm s = and_then must_succeed (mappages pagetable va sz pa perm s)

module _ (end_addr : ℕ) where
  unfoldable pub kfree : (pa : ℕ) → Vm → Option Vm
  kfree pa s =
      if not (pa % page_size == 0) || ltb pa end_addr || leb phystop pa
      then none
      else some (record s { free = pa ∷ s.free })

  -- What `uvmunmap` does after `walk`.
  unfoldable pub unmap_at : (do_free : Bool) → Option (ℕ × ℕ) × Vm → Option Vm
  unfolding kfree
  unmap_at do_free (none, s) = some s
  unmap_at do_free (some (page, i), s) =
      if not (is_valid (s.pte page i))
      then some s
      else and_then (λ s₁. some (set_pte page i 0 s₁))
          (if do_free then kfree (pte2pa (s.pte page i)) s else some s)

  -- The loop of `uvmunmap` for `left` pages more from a on.
  unfoldable pub unmap_loop : (left pagetable a : ℕ) → (do_free : Bool) → Vm → Option Vm
  unfolding walk unmap_at
  unmap_loop zero pagetable a do_free s = some s
  unmap_loop (suc left) pagetable a do_free s =
      and_then
        (λ found.
          and_then (unmap_loop left pagetable (a + page_size) do_free) (unmap_at do_free found))
        (walk pagetable a false s)

  unfoldable pub uvmunmap : (pagetable va npages : ℕ) → (do_free : Bool) → Vm → Option Vm
  unfolding unmap_loop
  uvmunmap pagetable va npages do_free s =
      if not (va % page_size == 0) then none else unmap_loop npages pagetable va do_free s

  -- The new size, and the space.
  unfoldable pub uvmdealloc : (pagetable oldsz newsz : ℕ) → Vm → Option (ℕ × Vm)
  unfolding uvmunmap
  uvmdealloc pagetable oldsz newsz s =
      if leb oldsz newsz
      then some (oldsz, s)
      else and_then (λ s₁. some (newsz, s₁))
          (if ltb (round_up newsz) (round_up oldsz)
            then uvmunmap pagetable (round_up newsz) ((round_up oldsz - round_up newsz) / page_size)
                true s
            else some s)

  -- `uvmdealloc` on the way out of `uvmalloc`, which then returns 0.
  unfoldable pub give_up : (pagetable a oldsz : ℕ) → Vm → Option (ℕ × Vm)
  unfolding uvmdealloc
  give_up pagetable a oldsz s = and_then (λ back. some (0, back.1)) (uvmdealloc pagetable a oldsz s)

  -- What `uvmalloc` does after `mappages`.
  unfoldable pub mapped_or_give_up :
      (Vm → Option (ℕ × Vm)) → (pagetable a oldsz mem : ℕ) → Bool × Vm → Option (ℕ × Vm)
  unfolding kfree give_up
  mapped_or_give_up later pagetable a oldsz mem (true, s) = later s
  mapped_or_give_up later pagetable a oldsz mem (false, s) =
      and_then (give_up pagetable a oldsz) (kfree mem s)

  -- The loop of `uvmalloc` for `left` pages more from a on; oldsz is rounded up.
  unfoldable pub alloc_loop : (left pagetable a oldsz newsz xperm : ℕ) → Vm → Option (ℕ × Vm)
  unfolding kalloc mappages give_up mapped_or_give_up
  alloc_loop zero pagetable a oldsz newsz xperm s = some (newsz, s)
  alloc_loop (suc left) pagetable a oldsz newsz xperm s = elim (kalloc s) [
    | none ↦ give_up pagetable a oldsz s
    | some (mem, s₁) ↦
        and_then
          (mapped_or_give_up (alloc_loop left pagetable (a + page_size) oldsz newsz xperm) pagetable
            a oldsz mem)
          (mappages pagetable a page_size mem (set_bit (set_bit xperm r_bit) u_bit)
            (zero_page mem s₁))
  ]

  -- The new size, 0 on an error.
  unfoldable pub uvmalloc : (pagetable oldsz newsz xperm : ℕ) → Vm → Option (ℕ × Vm)
  unfolding alloc_loop
  uvmalloc pagetable oldsz newsz xperm s =
      if ltb newsz oldsz
      then some (oldsz, s)
      else alloc_loop ((newsz - round_up oldsz + page_size - 1) / page_size) pagetable
          (round_up oldsz) (round_up oldsz) newsz xperm s

  -- The page that `uvmcopy` copies after `walk`: its physical address and its flags.
  abbrev pub present : Option (ℕ × ℕ) × Vm → Option (ℕ × ℕ)
  present (none, s) = none
  present (some (page, i), s) =
      if is_valid (s.pte page i) then some (pte2pa (s.pte page i), s.pte page i % 2 ^ 10) else none

  -- `err` of `uvmcopy`: whether the copy succeeds.
  unfoldable pub undo_copy : (new i : ℕ) → Vm → Option (Bool × Vm)
  unfolding uvmunmap
  undo_copy new i s = and_then (λ s₁. some (false, s₁)) (uvmunmap new 0 (i / page_size) true s)

  -- What `uvmcopy` does after `mappages`.
  unfoldable pub mapped_or_undo :
      (Vm → Option (Bool × Vm)) → (new i mem : ℕ) → Bool × Vm → Option (Bool × Vm)
  unfolding kfree undo_copy
  mapped_or_undo later new i mem (true, s) = later s
  mapped_or_undo later new i mem (false, s) = and_then (undo_copy new i) (kfree mem s)

  -- The loop of `uvmcopy` for `left` pages more from i on.
  unfoldable pub copy_loop : (left old new i : ℕ) → Vm → Option (Bool × Vm)
  unfolding walk kalloc mappages undo_copy mapped_or_undo
  copy_loop zero old new i s = some (true, s)
  copy_loop (suc left) old new i s =
      and_then
        (λ found. elim (present found) [
          | none ↦ copy_loop left old new (i + page_size) s
          | some (pa, flags) ↦ elim (kalloc s) [
            | none ↦ undo_copy new i s
            | some (mem, s₁) ↦
                and_then (mapped_or_undo (copy_loop left old new (i + page_size)) new i mem) (
                  mappages new i page_size mem flags
                    (record s₁ { bytes = memmove s₁.bytes mem pa page_size }))
          ]
        ])
        (walk old i false s)

  unfoldable pub uvmcopy : (old new sz : ℕ) → Vm → Option (Bool × Vm)
  unfolding copy_loop
  uvmcopy old new sz s = copy_loop ((sz + page_size - 1) / page_size) old new 0 s

  -- What `vmfault` does after `mappages`.
  unfoldable pub fault_done : (mem : ℕ) → Bool × Vm → Option (ℕ × Vm)
  unfolding kfree
  fault_done mem (true, s) = some (mem, s)
  fault_done mem (false, s) = and_then (λ s₁. some (0, s₁)) (kfree mem s)

  -- With the size and the page table of myproc(): the physical address, or 0.
  unfoldable pub vmfault : (sz own pagetable va : ℕ) → Vm → Option (ℕ × Vm)
  unfolding ismapped kalloc mappages fault_done
  vmfault sz own pagetable va s =
      if leb sz va
      then some (0, s)
      else and_then
          (λ there. if there then some (0, s) else elim (kalloc s) [
            | none ↦ some (0, s)
            | some (mem, s₁) ↦
                and_then (fault_done mem)
                  (mappages own (round_down va) page_size mem 22 (zero_page mem s₁))
          ])
          (ismapped pagetable (round_down va) s)
