-- ===== src/Vm/Tests.antt =====
-- kernel/vm.c: tests and examples.
use g14_os_project.Prelude.{
  ℕ, zero, suc, ◌+◌, ◌-◌, ◌*◌, ◌/◌, ◌%◌, ◌<◌, ◌≡◌, refl, ap, ◌∙◌, true, not, Option, none, some,
  List, [], ◌∷◌, ◌==◌, if◌then◌else◌, arith, inl, inr, Bool-cases,
}
use g14_os_project.Prelude.Bits.{test_bit, set_bit}
use g14_os_project.Prelude.Table.{update}
use g14_os_project.Vm.{
  Vm, is_valid, pa2pte, pte2pa, px, page_size, max_va, kalloc, zero_page, descend, walk_from, walk,
  walkaddr, map_loop, mappages,
}
use g14_os_project.Vm.Flags.{IsPage, is_valid-zero}
use g14_os_project.Vm.Entries.{reach, entry, Home, IsTree}
use g14_os_project.Vm.Range.{in_range}
use g14_os_project.Vm.Map.{Unmapped, Mapping, mapped, mappages-Mapping}
use g14_os_project.Vm.Translate.{Translating, mappages-walkaddr}
use g14_os_project.Vm.Space.{
  uvmunmap, uvmalloc, alloc_loop, mapped_or_give_up, give_up, uvmdealloc, kfree,
}
use g14_os_project.Vm.Unmap.{IsTable, is_managed, Freeable, Unmapping, uvmunmap-Unmapping}
use g14_os_project.Vm.Copy.{copyin}
use g14_os_project.Vm.CopyIn.{user_byte, Readable, IsApart, Copied, copyin-Copied}

abbrev root : ℕ
root = 8192

-- An empty page table, and three free pages.
abbrev empty_table : Vm
empty_table = record { pte = λ page i. 0; bytes = λ a. 0; free = 12288 ∷ 16384 ∷ 20480 ∷ [] }

abbrev only_root : Home
only_root = update (λ page. none) root (some [])

absent_entry : {P : Type 0} → is_valid 0 ≡ true → P
absent_entry e = absurd (cc (e, is_valid-zero))

empty_table-IsTree : IsTree root only_root empty_table
unfolding IsPage
empty_table-IsTree = record {
  at_root = refl;
  below = λ page i path h lt valid. absent_entry valid;
  unused = (
    refl,
    (refl, omega arith),
    ((λ e. ground arith), ((λ e. ground arith), tt)),
    (refl, (refl, omega arith), ((λ e. ground arith), tt), (refl, (refl, omega arith), tt, tt)),
  );
}

empty_entry : (va : ℕ) → entry root va empty_table ≡ 0
unfolding entry reach
empty_entry va = rw (is_valid-zero) refl

empty_table-Unmapped : Unmapped root 2 4096 empty_table
unfolding Unmapped
empty_table-Unmapped va lt h = rw (empty_entry va) is_valid-zero

mappages-Mapping_example :
    Mapping root 2 4096 28672 22 empty_table (mappages root 4096 8192 28672 22 empty_table)
mappages-Mapping_example =
    mappages-Mapping root 4096 8192 28672 22 only_root empty_table empty_table-IsTree refl refl
      (omega arith) (omega arith) empty_table-Unmapped

IsTable-of : (home : Home) (s : Vm) → IsTree root home s → IsTable root home s
IsTable-of home s t = record { at_root = t.at_root; below = t.below; unused = tt }

-- The space once one page is mapped.
abbrev one_page :
    Mapping root 1 4096 28672 22 empty_table (mappages root 4096 4096 28672 22 empty_table)
unfolding Unmapped
one_page =
    mappages-Mapping root 4096 4096 28672 22 only_root empty_table empty_table-IsTree refl refl
      (omega arith) (omega arith) (λ va lt h. rw (empty_entry va) is_valid-zero)

one_page_entry :
    (va : ℕ)
    → va < max_va
    → entry root va one_page.after ≡ (
        if in_range one_page.count 4096 va
        then pa2pte (28672 + (va / page_size - 4096 / page_size) * page_size) 22
        else 0)
unfolding mapped
one_page_entry va lt =
    one_page.entries va lt ∙ ap (mapped one_page.count 4096 28672 22 va) (empty_entry va)

same_page :
    (va : ℕ)
    → in_range 1 4096 va ≡ true
    → 28672 + (va / page_size - 4096 / page_size) * page_size ≡ 28672
unfolding in_range
same_page va h = ground arith

one_page_pte : is_managed 4096 (pte2pa (pa2pte 28672 22)) ≡ true
unfolding pte2pa pa2pte set_bit
one_page_pte = refl

one_page-Freeable : Freeable 4096 true 1 root 4096 one_page.after
unfolding Freeable
one_page-Freeable va lt h valid =
    let e = one_page_entry va lt in
    elim (Bool-cases (in_range one_page.count 4096 va)) [
      | inl inside_range ↦ rw (rw (inside_range, same_page va h) at e) one_page_pte
      | inr out ↦ absent_entry (rw (rw out at e) at valid)
    ]

uvmunmap-Unmapping_example :
    Unmapping true 1 root 4096 one_page.home one_page.after
      (uvmunmap 4096 root 4096 1 true one_page.after)
uvmunmap-Unmapping_example =
    uvmunmap-Unmapping 4096 true root one_page.home 1 4096 one_page.after
      (IsTable-of one_page.home one_page.after one_page.tree) refl (omega arith) one_page-Freeable

-- Address 0 is mapped, by two pages of the table, to page 28672, whose bytes count up.
abbrev mapped_table : Vm
mapped_table = record {
  pte = λ page i.
      if not (i == 0)
      then 0
      else if page == 8192
      then pa2pte 12288 0
      else if page == 12288
      then pa2pte 16384 0
      else if page == 16384
      then pa2pte 28672 22
      else 0;
  bytes = λ a. a % 256;
  free = [];
}

mapped_table-Readable : Readable root 10 2 mapped_table
unfolding Readable walkaddr walk_from descend pa2pte pte2pa px test_bit set_bit
mapped_table-Readable zero lt = λ e. ground arith
mapped_table-Readable (suc zero) lt = λ e. ground arith
mapped_table-Readable (suc (suc i)) lt = absurd (ground arith)

mapped_table-IsApart : IsApart root 100 2 10 2 mapped_table
unfolding IsApart user_byte walkaddr walk_from descend pa2pte pte2pa px test_bit set_bit
mapped_table-IsApart zero a lt h e = ground arith
mapped_table-IsApart (suc zero) a lt h e = ground arith
mapped_table-IsApart (suc (suc i)) a lt h e = absurd (ground arith)

copyin-Copied_example :
    Copied root 100 10 2 mapped_table (copyin 4096 4096 root root 100 10 2 mapped_table)
copyin-Copied_example =
    copyin-Copied 4096 4096 root root 100 10 2 mapped_table mapped_table-Readable
      mapped_table-IsApart

mappages-walkaddr_example :
    Translating root 2 4096 28672 22 empty_table (mappages root 4096 8192 28672 22 empty_table)
mappages-walkaddr_example =
    mappages-walkaddr root 4096 8192 28672 22 only_root empty_table empty_table-IsTree refl refl
      (omega arith) (omega arith) empty_table-Unmapped refl (omega arith)

-- A space grown by uvmalloc from 0 bytes to one page: the page is user memory.
abbrev grown_address : Option (ℕ × Vm) → ℕ
grown_address none = 0
grown_address (some (size, s)) = walkaddr root 0 s

uvmalloc-test :
    grown_address (
      uvmalloc 4096 root 0 4096 4
        (record { pte = λ page i. 0; bytes = λ a. 0; free = 12288 ∷ 16384 ∷ 20480 ∷ [] }))
    ≡ 12288
unfolding uvmalloc alloc_loop kalloc mappages map_loop walk walk_from descend px zero_page
    mapped_or_give_up pa2pte pte2pa set_bit test_bit walkaddr
uvmalloc-test = refl

-- The one page left goes to the tree, so the space does not grow, and the page for it is free again.
abbrev free_after : Option (ℕ × Vm) → List ℕ
free_after none = []
free_after (some (size, s)) = s.free

uvmalloc-full :
    free_after (
      uvmalloc 4096 root 0 4096 4
        (record { pte = λ page i. 0; bytes = λ a. 0; free = 12288 ∷ 16384 ∷ [] }))
    ≡ 12288 ∷ []
unfolding uvmalloc alloc_loop kalloc mappages map_loop walk walk_from descend px zero_page
    mapped_or_give_up give_up uvmdealloc kfree pa2pte pte2pa set_bit test_bit
uvmalloc-full = refl
