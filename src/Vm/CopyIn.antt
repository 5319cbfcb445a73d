-- ===== src/Vm/CopyIn.antt =====
-- kernel/vm.c: copyin reads what the page table says stands at the user's addresses.
use g14_os_project.Prelude.{
  ℕ, zero, suc, ◌+◌, ◌-◌, ◌/◌, ◌%◌, ◌≤◌, ◌<◌, ◌≡◌, ◌≢◌, refl, sym, ap, subst, ◌∙◌, Bool, true,
  false, Option, some, ◌==◌, if◌then◌else◌, arith, inl, inr, Bool-cases, min,
}
use g14_os_project.Cstring.{Bytes, memmove}
use g14_os_project.Cstring.Copy.{inside, memmove_lem}
use g14_os_project.Vm.{Vm, page_size, round_down, walkaddr}
use g14_os_project.Vm.Entries.{reach, entry}
use g14_os_project.Vm.Lookup.{walkaddr-entry}
use g14_os_project.Vm.Copy.{rounds, chunk, resolve, in_chunk, in_loop, copyin}

-- Where the byte at a user's address is in memory.
unfoldable pub user_byte : (pagetable va : ℕ) → Vm → ℕ
user_byte pagetable va s = walkaddr pagetable (round_down va) s + (va - round_down va)

unfoldable pub Readable : (pagetable srcva len : ℕ) → Vm → Type 0
Readable pagetable srcva len s =
    (i : ℕ) → i < len → walkaddr pagetable (round_down (srcva + i)) s ≢ 0

-- No byte that is read is one that is written.
unfoldable pub IsApart : (pagetable dst len srcva count : ℕ) → Vm → Type 0
IsApart pagetable dst len srcva count s =
    (i a : ℕ) → i < count → inside dst len a ≡ true → user_byte pagetable (srcva + i) s ≢ a

pub record Copied (pagetable dst srcva len : ℕ) (s : Vm) (result : Option (Bool × Vm))
    : Type 0 where
  pub bytes : Bytes
  pub returns : result ≡ some (true, record s { bytes = bytes })
  pub contents :
      (a : ℕ)
      → bytes a ≡ (
          if inside dst len a
          then s.bytes (user_byte pagetable (srcva + (a - dst)) s)
          else s.bytes a)

next_rounds :
    (off len : ℕ)
    → 0 < len
    → off < page_size
    → (if len == 0 then 0 else (off + len - 1) / page_size + 1)
      ≡ suc (
          if len - min (page_size - off) len == 0
          then 0
          else (0 + (len - min (page_size - off) len) - 1) / page_size + 1)
next_rounds off len positive bound = ground arith

rounds-step :
    (va len : ℕ)
    → 0 < len
    → rounds va len ≡ suc (rounds (round_down va + page_size) (len - chunk va len))
unfolding rounds
rounds-step va len positive =
    let n = chunk va len in
    let off : va - round_down va ≡ va % page_size = omega arith in
    let aligned : (round_down va + page_size) % page_size ≡ 0 = omega arith in
    let bound : va % page_size < page_size = omega arith in
    rw (aligned, off) (next_rounds (va % page_size) len positive bound)

same_walkaddr :
    (pagetable va : ℕ) (s : Vm) (bytes : Bytes)
    → walkaddr pagetable va (record s { bytes = bytes }) ≡ walkaddr pagetable va s
unfolding entry reach
same_walkaddr pagetable va s bytes =
    walkaddr-entry pagetable va (record s { bytes = bytes }) ∙ sym (walkaddr-entry pagetable va s)

no_rounds : (va len : ℕ) → 0 ≡ rounds va len → len ≡ 0
unfolding rounds
no_rounds va len e = ground arith

some_rounds : (left va len : ℕ) → suc left ≡ rounds va len → 0 < len
unfolding rounds
some_rounds left va len e = ground arith

-- The addresses of the next round, as offsets from the first address.
next_va :
    (srcva len i : ℕ)
    → i < len - chunk srcva len
    → round_down srcva + page_size + i ≡ srcva + (chunk srcva len + i)
next_va srcva len i lt = ground arith

same_round : (srcva len i : ℕ) → i < chunk srcva len → round_down (srcva + i) ≡ round_down srcva
same_round srcva len i lt =
    let bound : i < page_size - (srcva - round_down srcva) = ground arith in omega arith

same_byte :
    (root va : ℕ) (s : Vm) (bytes : Bytes)
    → user_byte root va (record s { bytes = bytes }) ≡ user_byte root va s
unfolding user_byte
same_byte root va s bytes =
    ap (λ p. p + (va - round_down va)) (same_walkaddr root (round_down va) s bytes)

inside_rest :
    (dst n len a : ℕ) → n ≤ len → inside (dst + n) (len - n) a ≡ true → inside dst len a ≡ true
inside_rest dst n len a le h = ground arith

inside_first : (dst n len a : ℕ) → n ≤ len → inside dst n a ≡ true → inside dst len a ≡ true
inside_first dst n len a le h = ground arith

inside_neither :
    (dst n len a : ℕ)
    → inside dst n a ≡ false
    → inside (dst + n) (len - n) a ≡ false
    → inside dst len a ≡ false
inside_neither dst n len a h g = ground arith

not_both : (dst n len a : ℕ) → inside dst n a ≡ true → inside (dst + n) (len - n) a ≡ false
not_both dst n len a h = ground arith

chunk-le : (va len : ℕ) → chunk va len ≤ len
chunk-le va len = ground arith

later_offset :
    (dst n len a : ℕ) → inside (dst + n) (len - n) a ≡ true → n + (a - (dst + n)) ≡ a - dst
later_offset dst n len a h = ground arith

offset_lt : (dst n a : ℕ) → inside dst n a ≡ true → a - dst < n
offset_lt dst n a h = ground arith

module _ (root dst srcva len : ℕ) (s : Vm) (clear : IsApart root dst len srcva len s) where
  abbrev first_copied : Bytes
  first_copied =
      memmove s.bytes dst (walkaddr root (round_down srcva) s + (srcva - round_down srcva))
        (chunk srcva len)

  IsApart-rest :
      IsApart root
        (dst + chunk srcva len)
        (len - chunk srcva len)
        (round_down srcva + page_size)
        (len - chunk srcva len)
        (record s { bytes = first_copied })
  unfolding IsApart
  IsApart-rest i a lt h e =
      let n = chunk srcva len in
      clear (n + i) a (omega (arith, lt)) (inside_rest dst n len a (chunk-le srcva len) h) (
        subst (λ v. user_byte root v s ≡ a) (next_va srcva len i lt)
          (sym (same_byte root (round_down srcva + page_size + i) s first_copied) ∙ e))

  -- A byte that is read later is not one that this round writes.
  unwritten :
      (i : ℕ)
      → i < len
      → first_copied (user_byte root (srcva + i) s) ≡ s.bytes (user_byte root (srcva + i) s)
  unfolding IsApart
  unwritten i lt =
      let n = chunk srcva len in
      let b = user_byte root (srcva + i) s in
      memmove_lem s.bytes dst (walkaddr root (round_down srcva) s + (srcva - round_down srcva)) n b
      ∙ (elim (Bool-cases (inside dst n b)) [
        | inl hit ↦ absurd (clear i b lt (inside_first dst n len b (chunk-le srcva len) hit) refl)
        | inr miss ↦ rw miss refl
      ])

  from_this_page :
      (i : ℕ)
      → i < chunk srcva len
      → i + (walkaddr root (round_down srcva) s + (srcva - round_down srcva))
        ≡ user_byte root (srcva + i) s
  unfolding user_byte
  from_this_page i lt = let same = same_round srcva len i lt in rw same (omega arith)

  contents_lem :
      (last : Bytes) (a : ℕ)
      → last a ≡ (
          if inside (dst + chunk srcva len) (len - chunk srcva len) a
          then first_copied (
              user_byte root
                (round_down srcva + page_size + (a - (dst + chunk srcva len)))
                (record s { bytes = first_copied }))
          else first_copied a)
      → last a
        ≡ (if inside dst len a then s.bytes (user_byte root (srcva + (a - dst)) s) else s.bytes a)
  contents_lem last a e =
      let n = chunk srcva len in
      let va = round_down srcva + page_size in
      let le = chunk-le srcva len in
      elim (Bool-cases (inside (dst + n) (len - n) a)) [
        | inl later ↦
            let off = later_offset dst n len a later in
            let here = next_va srcva len (a - (dst + n)) (offset_lt (dst + n) (len - n) a later) in
            (rw later at e)
            ∙ ap first_copied (
                same_byte root (va + (a - (dst + n))) s first_copied
                ∙ ap (λ v. user_byte root v s) (here ∙ ap (λ k. srcva + k) off))
            ∙ unwritten (a - dst) (ground arith)
            ∙ sym (
                ap
                  (λ (b : Bool).
                    if b then s.bytes (user_byte root (srcva + (a - dst)) s) else s.bytes a)
                  (inside_rest dst n len a le later))
        | inr not_later ↦
            (rw not_later at e)
            ∙ memmove_lem s.bytes dst
                (walkaddr root (round_down srcva) s + (srcva - round_down srcva)) n a
            ∙ (elim (Bool-cases (inside dst n a)) [
              | inl first ↦
                  rw (first, inside_first dst n len a le first)
                    (ap s.bytes (from_this_page (a - dst) (offset_lt dst n a first)))
              | inr neither ↦ rw (neither, inside_neither dst n len a neither not_later) refl
            ])
      ]

module _ (end_addr sz own root : ℕ) where
  resolve-mapped :
      (va0 : ℕ) (s : Vm)
      → walkaddr root va0 s ≢ 0
      → resolve end_addr sz own root va0 s ≡ some (walkaddr root va0 s, s)
  unfolding resolve
  resolve-mapped va0 s ne =
      let there : walkaddr root va0 s == 0 ≡ false = ground arith in rw (resolve, there) refl

  in_loop-Copied :
      (left dst srcva len : ℕ) (s : Vm)
      → left ≡ rounds srcva len
      → Readable root srcva len s
      → IsApart root dst len srcva len s
      → Copied root dst srcva len s (in_loop end_addr sz own root left dst srcva len s)
  unfolding in_loop in_chunk Readable IsApart user_byte
  in_loop-Copied zero dst srcva len s e readable clear = record {
    bytes = s.bytes;
    returns = refl;
    contents = λ a. let e0 = no_rounds srcva len e in ground arith;
  }
  in_loop-Copied (suc left) dst srcva len s e readable clear =
      let positive = some_rounds left srcva len e in
      let n = chunk srcva len in
      let va0 = round_down srcva in
      let pa0 = walkaddr root va0 s in
      let mapped : pa0 ≢ 0 =
        subst (λ x. walkaddr root (round_down x) s ≢ 0) (omega arith) (readable 0 positive) in
      let there : pa0 == 0 ≡ false = ground arith in
      let s₁ = record s { bytes = memmove s.bytes dst (pa0 + (srcva - va0)) n } in
      let rest =
        in_loop-Copied left (dst + n) (va0 + page_size) (len - n) s₁
          (let step = rounds-step srcva len positive in omega arith)
          (λ i lt z. readable (n + i) (omega (arith, lt)) (
            subst (λ v. walkaddr root (round_down v) s ≡ 0) (next_va srcva len i lt)
              (sym (same_walkaddr root (round_down (va0 + page_size + i)) s s₁.bytes) ∙ z)))
          (IsApart-rest root dst srcva len s clear) in
      record {
        bytes = rest.bytes;
        returns = rw (in_loop, resolve-mapped va0 s mapped, there) rest.returns;
        contents = λ a. contents_lem root dst srcva len s clear rest.bytes a (rest.contents a);
      }

-- Let every page from srcva to srcva + len be mapped for the user, and no byte to be read be one of
-- the len bytes at dst. Then copyin returns 0 and changes memory only by writing, at dst + i for
-- each i < len, the byte that the page table gives for srcva + i.
pub copyin-Copied :
    (end_addr sz own root dst srcva len : ℕ) (s : Vm)
    → Readable root srcva len s
    → IsApart root dst len srcva len s
    → Copied root dst srcva len s (copyin end_addr sz own root dst srcva len s)
unfolding copyin
copyin-Copied end_addr sz own root dst srcva len s readable clear =
    in_loop-Copied end_addr sz own root (rounds srcva len) dst srcva len s refl readable clear
