-- ===== src/Vm/Copy.antt =====
-- kernel/vm.c: copies between the kernel and user memory. `sz` and `own` are the size and the page
-- table of myproc(), for vmfault; the kernel's addresses are physical addresses.
use g14_os_project.Prelude.{
  ℕ, zero, suc, ◌+◌, ◌-◌, ◌/◌, ◌%◌, Bool, true, false, not, Option, none, some, ◌==◌, if◌then◌else◌,
  leb, min,
}
use g14_os_project.Prelude.Bits.{test_bit}
use g14_os_project.Prelude.Table.{update}
use g14_os_project.Cstring.{Bytes, memmove}
use g14_os_project.Vm.{Vm, page_size, max_va, w_bit, round_down, walk, walkaddr, and_then}
use g14_os_project.Vm.Space.{vmfault}

-- The rounds of a loop over `len` bytes from va on, one for each page.
unfoldable pub rounds : (va len : ℕ) → ℕ
rounds va len = if len == 0 then 0 else (va % page_size + len - 1) / page_size + 1

-- The bytes of one round: n = PGSIZE - (va - va0), at most len
abbrev pub chunk : (va len : ℕ) → ℕ
chunk va len = min (page_size - (va - round_down va)) len

-- Whether the page may be written. The source does not test walk's result for 0; a load from there
-- is a panic.
abbrev pub may_write : Option (ℕ × ℕ) × Vm → Option Bool
may_write (none, s) = none
may_write (some (page, i), s) = some (test_bit (s.pte page i) w_bit)

module _ (end_addr sz own pagetable : ℕ) where
  -- The physical address of a page, which vmfault may map.
  unfoldable pub resolve : (va0 : ℕ) → Vm → Option (ℕ × Vm)
  unfolding walkaddr vmfault
  resolve va0 s =
      if walkaddr pagetable va0 s == 0
      then vmfault end_addr sz own pagetable va0 s
      else some (walkaddr pagetable va0 s, s)

  -- The rest of a round of `copyout` with the page's address.
  unfoldable pub out_chunk :
      (Vm → Option (Bool × Vm)) → (dstva src n : ℕ) → ℕ × Vm → Option (Bool × Vm)
  unfolding walk
  out_chunk later dstva src n (pa0, s) =
      if pa0 == 0
      then some (false, s)
      else and_then
          (λ writable.
            if not writable
            then some (false, s)
            else later
                (record s { bytes = memmove s.bytes (pa0 + (dstva - round_down dstva)) src n }))
          (and_then may_write (walk pagetable (round_down dstva) false s))

  unfoldable pub out_loop : (left dstva src len : ℕ) → Vm → Option (Bool × Vm)
  unfolding resolve out_chunk
  out_loop zero dstva src len s = some (true, s)
  out_loop (suc left) dstva src len s =
      let n = chunk dstva len in
      let later = out_loop left (round_down dstva + page_size) (src + n) (len - n) in
      if leb max_va (round_down dstva)
      then some (false, s)
      else and_then (out_chunk later dstva src n) (resolve (round_down dstva) s)

  -- Whether all is copied.
  unfoldable pub copyout : (dstva src len : ℕ) → Vm → Option (Bool × Vm)
  unfolding out_loop rounds
  copyout dstva src len s = out_loop (rounds dstva len) dstva src len s

  unfoldable pub in_chunk :
      (Vm → Option (Bool × Vm)) → (dst srcva n : ℕ) → ℕ × Vm → Option (Bool × Vm)
  in_chunk later dst srcva n (pa0, s) =
      if pa0 == 0
      then some (false, s)
      else later (record s { bytes = memmove s.bytes dst (pa0 + (srcva - round_down srcva)) n })

  unfoldable pub in_loop : (left dst srcva len : ℕ) → Vm → Option (Bool × Vm)
  unfolding resolve in_chunk
  in_loop zero dst srcva len s = some (true, s)
  in_loop (suc left) dst srcva len s =
      let n = chunk srcva len in
      let later = in_loop left (dst + n) (round_down srcva + page_size) (len - n) in
      and_then (in_chunk later dst srcva n) (resolve (round_down srcva) s)

  unfoldable pub copyin : (dst srcva len : ℕ) → Vm → Option (Bool × Vm)
  unfolding in_loop rounds
  copyin dst srcva len s = in_loop (rounds srcva len) dst srcva len s

-- The inner loop of `copyinstr`: whether a NUL was copied.
unfoldable pub copy_until_nul : (n p dst : ℕ) → Bytes → Bool × Bytes
copy_until_nul zero p dst m = (false, m)
copy_until_nul (suc n) p dst m =
    let rest = copy_until_nul n (suc p) (suc dst) (update m dst (m p)) in
    if m p == 0 then (true, update m dst 0) else rest

abbrev pub unless_nul : (Vm → Bool × Vm) → Vm → Bool × Bytes → Bool × Vm
unless_nul later s (true, m) = (true, record s { bytes = m })
unless_nul later s (false, m) = later (record s { bytes = m })

unfoldable pub instr_loop : (left pagetable dst srcva max : ℕ) → Vm → Bool × Vm
unfolding walkaddr copy_until_nul
instr_loop zero pagetable dst srcva max s = (false, s)
instr_loop (suc left) pagetable dst srcva max s =
    let n = chunk srcva max in
    let pa0 = walkaddr pagetable (round_down srcva) s in
    let later = instr_loop left pagetable (dst + n) (round_down srcva + page_size) (max - n) in
    if pa0 == 0
    then (false, s)
    else unless_nul later s (copy_until_nul n (pa0 + (srcva - round_down srcva)) dst s.bytes)

-- Whether a NUL came within max bytes.
unfoldable pub copyinstr : (pagetable dst srcva max : ℕ) → Vm → Bool × Vm
unfolding instr_loop rounds
copyinstr pagetable dst srcva max s = instr_loop (rounds srcva max) pagetable dst srcva max s
