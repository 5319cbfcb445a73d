-- ===== src/Vm/Translate.antt =====
-- kernel/vm.c: walkaddr after mappages.
use g14_os_project.Prelude.{
  ℕ, ◌+◌, ◌-◌, ◌*◌, ◌/◌, ◌%◌, ◌^◌, ◌≤◌, ◌<◌, ◌≡◌, refl, sym, ap, ◌∙◌, Bool, true, false, Option,
  some, List, if◌then◌else◌, arith, inl, inr, Bool-cases, leb,
}
use g14_os_project.Prelude.Bits.{test_bit, set_bit}
use g14_os_project.Vm.{Vm, u_bit, pa2pte, page_size, max_va, mappages, walkaddr}
use g14_os_project.Vm.Flags.{IsPage, is_valid-pa2pte, pte2pa-pa2pte}
use g14_os_project.Vm.Entries.{entry, Home, IsTree}
use g14_os_project.Vm.Range.{in_range}
use g14_os_project.Vm.Map.{mapped, Outcome, Unmapped, mappages-Mapping}
use g14_os_project.Vm.Lookup.{user_pa, walkaddr-entry}

test_bit-pa2pte : (pa perm : ℕ) → test_bit (pa2pte pa perm) u_bit ≡ test_bit perm u_bit
unfolding pa2pte test_bit set_bit
test_bit-pa2pte pa perm = ground arith

user_pa-pa2pte :
    (pa perm : ℕ) → IsPage pa → user_pa (pa2pte pa perm) ≡ (if test_bit perm u_bit then pa else 0)
user_pa-pa2pte pa perm page =
    rw (is_valid-pa2pte pa perm, test_bit-pa2pte pa perm, pte2pa-pa2pte pa perm page) refl

-- The physical address for va once n pages from a on are mapped to the pages from pa on.
abbrev pub translated : (n a pa perm va old : ℕ) → ℕ
translated n a pa perm va old =
    if in_range n a va
    then if test_bit perm u_bit then pa + (va / page_size - a / page_size) * page_size else 0
    else old

IsPage-in :
    (n a pa va : ℕ)
    → pa % page_size ≡ 0
    → pa + n * page_size ≤ 2 ^ 56
    → in_range n a va ≡ true
    → IsPage (pa + (va / page_size - a / page_size) * page_size)
unfolding in_range IsPage
IsPage-in n a pa va aligned fits hit =
    let lo : a / page_size ≤ va / page_size = ground arith in
    let hi : va / page_size < a / page_size + n = ground arith in (omega arith, omega arith)

user_pa-mapped :
    (n a pa perm va old : ℕ)
    → pa % page_size ≡ 0
    → pa + n * page_size ≤ 2 ^ 56
    → user_pa (mapped n a pa perm va old) ≡ translated n a pa perm va (user_pa old)
unfolding mapped
user_pa-mapped n a pa perm va old aligned fits = elim (Bool-cases (in_range n a va)) [
  | inl hit ↦
      rw (mapped, hit)
        (user_pa-pa2pte (pa + (va / page_size - a / page_size) * page_size) perm
          (IsPage-in n a pa va aligned fits hit))
  | inr miss ↦ rw (mapped, miss) refl
]

-- What walkaddr gives after n pages are mapped, or the first `count` of them.
pub record Translating (root n a pa perm : ℕ) (s : Vm) (result : Option (Bool × Vm)) : Type 0 where
  pub ok : Bool
  pub after : Vm
  pub count : ℕ
  pub returns : result ≡ some (ok, after)
  pub outcome : Outcome ok count n after.free
  pub reads :
      (va : ℕ)
      → va < max_va
      → walkaddr root va after ≡ translated count a pa perm va (walkaddr root va s)

count-le : (ok : Bool) (count n : ℕ) (free : List ℕ) → Outcome ok count n free → count ≤ n
unfolding Outcome
count-le true count n free e = omega arith
count-le false count n free o = let lt = o.0 in omega arith

-- Let the pages below root be a tree, va, pa and the size a multiple of 4096 with size not 0, the
-- range below MAXVA and not mapped, and the frames below 2^56. After mappages, walkaddr of an address
-- in the pages that it mapped, all of them when it returns 0 and fewer only when no page is free, gives
-- the frame at the same distance from pa if perm has PTE_U, and 0 if not; for every other address
-- below MAXVA it gives what it gave before.
pub mappages-walkaddr :
    (root va size pa perm : ℕ) (home : Home) (s : Vm)
    → IsTree root home s
    → va % page_size ≡ 0
    → size % page_size ≡ 0
    → 0 < size
    → va + size ≤ max_va
    → Unmapped root (size / page_size) va s
    → pa % page_size ≡ 0
    → pa + size ≤ 2 ^ 56
    → Translating root (size / page_size) va pa perm s (mappages root va size pa perm s)
mappages-walkaddr root va size pa perm home s tree va_page size_page positive le clear aligned
      fits =
    let m = mappages-Mapping root va size pa perm home s tree va_page size_page positive le clear in
    let few = count-le m.ok m.count (size / page_size) m.after.free m.outcome in
    let room : pa + m.count * page_size ≤ 2 ^ 56 = omega (arith, few) in
    record {
      ok = m.ok;
      after = m.after;
      count = m.count;
      returns = m.returns;
      outcome = m.outcome;
      reads = λ v lt.
          let inside : leb max_va v ≡ false = ground arith in
          let before : walkaddr root v s ≡ user_pa (entry root v s) =
            walkaddr-entry root v s ∙ (rw inside refl) in
          let now : walkaddr root v m.after ≡ user_pa (entry root v m.after) =
            walkaddr-entry root v m.after ∙ (rw inside refl) in
          now
          ∙ ap user_pa (m.entries v lt)
          ∙ user_pa-mapped m.count va pa perm v (entry root v s) aligned room
          ∙ ap (translated m.count va pa perm v) (sym before);
    }
