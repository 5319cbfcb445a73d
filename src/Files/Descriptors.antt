-- ===== src/Files/Descriptors.antt =====
-- kernel/sysfile.c: `sys_dup` and `sys_close` keep the reference counts.
use g14_os_project.Prelude.{
  ℕ, suc, ◌+◌, ◌≤◌, ◌<◌, ◌≡◌, ◌≢◌, refl, ap, subst, ◌∙◌, inl, inr, true, false, Option, none, some,
  ◌==◌, if◌then◌else◌, arith, leb, Bool-cases, Option-cases,
}
use g14_os_project.Prelude.Int.{ℤ, pos, negsuc, minus_one, inc_ℤ, dec_ℤ, ltb_ℤ}
use g14_os_project.Prelude.Table.{update, find_from, find_from-IsFirst, find_from-none}
use g14_os_project.Files.{
  nfile, nofile, File, Targets, Process, FdTable, put_file, is_null, argfd, fdalloc, filedup,
  fileclose, close_target, dup_open, sys_dup, close_open, sys_close,
}
use g14_os_project.Files.Counts.{held, Counted, held-update, held-some, Counted-change}

inc_ℤ-pos : (n : ℕ) → inc_ℤ (pos n) ≡ pos (suc n)
inc_ℤ-pos n = let fits : leb 0 (suc n) ≡ true = ground arith in rw fits (ap pos (omega arith))

dec_ℤ-pos : (n : ℕ) → dec_ℤ (pos (suc n)) ≡ pos n
dec_ℤ-pos n = let fits : leb 1 (suc n) ≡ true = ground arith in rw fits (ap pos (omega arith))

referenced : (r : ℤ) (n : ℕ) → r ≡ pos n → 1 ≤ n → ltb_ℤ r (pos 1) ≡ false
referenced r n e le = rw e (ground arith)

none_left : (r : ℤ) (n : ℕ) → r ≡ pos n → (n == 0) ≡ true → ltb_ℤ (pos 0) r ≡ false
none_left r n e h = rw e (ground arith)

some_left : (r : ℤ) (n : ℕ) → r ≡ pos n → (n == 0) ≡ false → ltb_ℤ (pos 0) r ≡ true
some_left r n e h = rw e (ground arith)

-- The descriptor is negative, or too large, or names no file.
abbrev pub NotOpen : FdTable → ℤ → Type 0
NotOpen ofile (negsuc n) = Unit
NotOpen ofile (pos k) = k < nofile → ofile k ≡ none

-- An open descriptor of the process, for the file f, or one that is not open.
pub data ArgfdOutcome (ofile : FdTable) : ℤ → Option (ℕ × ℕ) → Type 0 where
  bad : (fd : ℤ) → NotOpen ofile fd → ArgfdOutcome ofile fd none
  open_fd : (k f : ℕ) → k < nofile → ofile k ≡ some f → ArgfdOutcome ofile (pos k) (some (k, f))

argfd-ArgfdOutcome : (fd : ℤ) (ofile : FdTable) → ArgfdOutcome ofile fd (argfd fd ofile)
unfolding argfd
argfd-ArgfdOutcome (negsuc n) ofile = bad (negsuc n) tt
argfd-ArgfdOutcome (pos k) ofile = elim (Bool-cases (leb nofile k)) [
  | inl large ↦ rw (argfd, large) (bad (pos k) (λ lt. absurd (ground arith)))
  | inr small ↦ elim (Option-cases (ofile k)) [
    | inl null ↦ rw (argfd, small, null) (bad (pos k) (λ lt. null))
    | inr (f, e) ↦ rw (argfd, small, e) (open_fd k f (ground arith) e)
  ]
]

is_null→none : (o : Option ℕ) → is_null o ≡ true → o ≡ none
is_null→none none h = refl
is_null→none (some f) h = absurd (ground arith)

is_null-false : (o : Option ℕ) → is_null o ≡ false → o ≢ none
is_null-false none h e = absurd (ground arith)
is_null-false (some f) h e = absurd (ground arith)

-- What `sys_dup` of a descriptor does: -1 and no change, if it is not open or no descriptor is free,
-- or the first free descriptor, which then names the same file.
pub data DupOutcome {W : Type 0} (other : ℕ → ℕ) (p : Process W)
    : ℤ → Option (ℤ × Process W) → Type 0 where
  refused : (fd : ℤ) → NotOpen p.ofile fd → DupOutcome other p fd (some (minus_one, p))
  no_descriptor :
      (old f : ℕ)
      → old < nofile
      → p.ofile old ≡ some f
      → ((j : ℕ) → j < nofile → p.ofile j ≢ none)
      → DupOutcome other p (pos old) (some (minus_one, p))
  duplicated :
      (old new f : ℕ) (p₁ : Process W)
      → old < nofile
      → p.ofile old ≡ some f
      → new < nofile
      → p.ofile new ≡ none
      → ((j : ℕ) → j < new → p.ofile j ≢ none)
      → p₁.ofile ≡ update p.ofile new (some f)
      → Counted other p₁
      → DupOutcome other p (pos old) (some (pos new, p₁))

module _ {W : Type 0} (other : ℕ → ℕ) (p : Process W) (inv : Counted other p) where
  dup-Counted :
      (old new f : ℕ)
      → old < nofile
      → p.ofile old ≡ some f
      → new < nofile
      → p.ofile new ≡ none
      → Counted other (record {
        files = put_file p.files f (record (p.files.file f) { ref = inc_ℤ (p.files.file f).ref });
        ofile = update p.ofile new (some f);
      })
  dup-Counted old new f lt e lt_new null =
      let lt_f = inv.named old f lt e in
      let self : (f == f) ≡ true = ground arith in
      let step = rw (null, self) at (held-update p.ofile new f (some f) lt_new) in
      let more : suc (held p.ofile f + other f) ≡ held (update p.ofile new (some f)) f + other f =
        omega arith in
      Counted-change other p inv new f (some f)
        (record (p.files.file f) { ref = inc_ℤ (p.files.file f).ref }) p.files.world lt_new
        (ap inc_ℤ (inv.count f lt_f) ∙ inc_ℤ-pos (held p.ofile f + other f) ∙ ap pos more)
        (λ g ne. rw null (ground arith))
        (λ g same. let same_file : f ≡ g = ground arith in subst (λ k. k < nfile) same_file lt_f)

  filedup-counted :
      (f : ℕ)
      → f < nfile
      → 1 ≤ held p.ofile f
      → filedup f p.files
        ≡ some (put_file p.files f (record (p.files.file f) { ref = inc_ℤ (p.files.file f).ref }))
  unfolding filedup
  filedup-counted f lt some_held =
      rw (referenced (p.files.file f).ref (held p.ofile f + other f) (inv.count f lt) (omega arith))
        refl

  dup_open-DupOutcome :
      (fd : ℤ) (r : Option (ℕ × ℕ))
      → ArgfdOutcome p.ofile fd r
      → DupOutcome other p fd (dup_open r p)
  unfolding dup_open fdalloc
  dup_open-DupOutcome fd r (bad k shut) = refused k shut
  dup_open-DupOutcome fd r (open_fd old f lt e) =
      elim (Option-cases (find_from is_null p.ofile nofile 0)) [
        | inl all_used ↦
            rw (dup_open, all_used)
              (no_descriptor old f lt e (λ j lt_j.
                is_null-false (p.ofile j)
                  (find_from-none is_null p.ofile nofile 0 j all_used (omega arith) lt_j)))
        | inr (new, found) ↦
            let first = find_from-IsFirst is_null p.ofile nofile 0 new found in
            let null = is_null→none (p.ofile new) first.passes in
            let lt_new : new < nofile = omega (arith, first.below) in
            rw
              (
                dup_open,
                found,
                filedup-counted f (inv.named old f lt e) (held-some p.ofile old f lt e),
              )
              (duplicated old new f _ lt e lt_new null
                (λ j before. is_null-false (p.ofile j) (first.before j (omega arith) before)) refl
                (dup-Counted old new f lt e lt_new null))
      ]

  -- In a table that counts its references, `sys_dup` of a descriptor does not panic: it returns -1 and
  -- changes nothing when the descriptor is not open, or when none is free; otherwise it returns the
  -- first free descriptor, which now names the file of the given one, and the references are counted.
  pub sys_dup-DupOutcome : (fd : ℤ) → DupOutcome other p fd (sys_dup fd p)
  unfolding sys_dup
  sys_dup-DupOutcome fd = dup_open-DupOutcome fd (argfd fd p.ofile) (argfd-ArgfdOutcome fd p.ofile)

-- What `sys_close` of a descriptor does: -1 and no change if it is not open, or the descriptor is
-- free, and what is behind the file is closed exactly with its last reference.
pub data CloseOutcome {W : Type 0} (to : Targets W) (other : ℕ → ℕ) (p : Process W)
    : ℤ → Option (ℤ × Process W) → Type 0 where
  not_open : (fd : ℤ) → NotOpen p.ofile fd → CloseOutcome to other p fd (some (minus_one, p))
  closed :
      (old f : ℕ) (p₁ : Process W)
      → old < nofile
      → p.ofile old ≡ some f
      → p₁.ofile ≡ update p.ofile old none
      → p₁.files.world ≡ (
          if held p₁.ofile f + other f == 0
          then close_target to (p.files.file f) p.files.world
          else p.files.world)
      → Counted other p₁
      → CloseOutcome to other p (pos old) (some (pos 0, p₁))

module _ {W : Type 0} (to : Targets W) (other : ℕ → ℕ) (p : Process W) (inv : Counted other p) where
  held-closed :
      (old f : ℕ)
      → old < nofile
      → p.ofile old ≡ some f
      → held p.ofile f ≡ suc (held (update p.ofile old none) f)
  held-closed old f lt e =
      let self : (f == f) ≡ true = ground arith in
      let step = rw (e, self) at (held-update p.ofile old f none lt) in omega arith

  -- The file's entry changes to one with a reference less.
  close-Counted :
      (old f : ℕ) (x : File) (w : W)
      → old < nofile
      → p.ofile old ≡ some f
      → x.ref ≡ pos (held (update p.ofile old none) f + other f)
      → Counted other (record {
        files = record { file = update p.files.file f x; world = w };
        ofile = update p.ofile old none;
      })
  close-Counted old f x w lt e r =
      Counted-change other p inv old f none x w lt r (λ g ne. rw e (ground arith))
        (λ g same. absurd (ground arith))

  close_open-CloseOutcome :
      (fd : ℤ) (r : Option (ℕ × ℕ))
      → ArgfdOutcome p.ofile fd r
      → CloseOutcome to other p fd (close_open to r p)
  unfolding close_open fileclose
  close_open-CloseOutcome fd r (bad k shut) = not_open k shut
  close_open-CloseOutcome fd r (open_fd old f lt e) =
      let left = held (update p.ofile old none) f + other f in
      let count : (p.files.file f).ref ≡ pos (suc left) =
        inv.count f (inv.named old f lt e) ∙ ap pos (omega (arith, held-closed old f lt e)) in
      let fewer : dec_ℤ (p.files.file f).ref ≡ pos left = ap dec_ℤ count ∙ dec_ℤ-pos left in
      let here = referenced (p.files.file f).ref (suc left) count (omega arith) in
      elim (Bool-cases (left == 0)) [
        | inl last ↦
            let gone = none_left (dec_ℤ (p.files.file f).ref) left fewer last in
            let zero_ref : pos 0 ≡ pos left = ap pos (ground arith) in
            rw (close_open, fileclose, here, gone)
              (closed old f _ lt e refl (rw last refl) (close-Counted old f _ _ lt e zero_ref))
        | inr more ↦
            let stays = some_left (dec_ℤ (p.files.file f).ref) left fewer more in
            rw (close_open, fileclose, here, stays)
              (closed old f _ lt e refl (rw more refl) (close-Counted old f _ _ lt e fewer))
      ]

  -- In a table that counts its references, `sys_close` of a descriptor does not panic: it returns -1
  -- and changes nothing when the descriptor is not open, and otherwise frees this descriptor and no
  -- other; the references are counted, and the pipe or inode behind its file is closed exactly when no
  -- reference to the file is left.
  pub sys_close-CloseOutcome : (fd : ℤ) → CloseOutcome to other p fd (sys_close to fd p)
  unfolding sys_close
  sys_close-CloseOutcome fd =
      close_open-CloseOutcome fd (argfd fd p.ofile) (argfd-ArgfdOutcome fd p.ofile)
