-- ===== src/Files/Counts.antt =====
-- kernel/file.c and sysfile.c: the reference count of a file is the number of its references.
use g14_os_project.Prelude.{
  ℕ, ◌+◌, ◌≤◌, ◌<◌, ◌≡◌, ◌≢◌, ap, subst, ◌∙◌, inl, inr, Bool, true, false, Option, none, some, ◌==◌,
  ==_iff, arith, Bool-cases,
}
use g14_os_project.Prelude.Int.{pos}
use g14_os_project.Prelude.Table.{update, update_self, count_below, count_below-update, one_if}
use g14_os_project.Files.{nfile, nofile, File, Process, FdTable}

abbrev pub points : ℕ → Option ℕ → Bool
points f none = false
points f (some g) = g == f

-- The descriptors that name file f.
unfoldable pub held : FdTable → ℕ → ℕ
held ofile f = count_below (points f) ofile nofile

-- Each file has a reference for each descriptor that names it, and `other f` more: those of other
-- processes and of calls under way.
pub record Counted {W : Type 0} (other : ℕ → ℕ) (p : Process W) : Type 0 where
  pub count : (f : ℕ) → f < nfile → (p.files.file f).ref ≡ pos (held p.ofile f + other f)
  pub named : (fd f : ℕ) → fd < nofile → p.ofile fd ≡ some f → f < nfile

pub held-update :
    (ofile : FdTable) (fd g : ℕ) (v : Option ℕ)
    → fd < nofile
    → held (update ofile fd v) g + one_if (points g (ofile fd)) ≡ held ofile g + one_if (points g v)
unfolding held
held-update ofile fd g v lt = count_below-update (points g) ofile nofile fd v lt

pub held-some : (ofile : FdTable) (fd f : ℕ) → fd < nofile → ofile fd ≡ some f → 1 ≤ held ofile f
held-some ofile fd f lt e =
    let self : (f == f) ≡ true = ground arith in
    let step = held-update ofile fd f none lt in let less = rw (e, self) at step in omega arith

module _ {W : Type 0} (other : ℕ → ℕ) (p : Process W) (inv : Counted other p) where
  -- A descriptor and the count of one file change together.
  pub Counted-change :
      (fd f : ℕ) (v : Option ℕ) (x : File) (w : W)
      → fd < nofile
      → (x.ref ≡ pos (held (update p.ofile fd v) f + other f))
      → ((g : ℕ) → f ≢ g → points g v ≡ points g (p.ofile fd))
      → ((g : ℕ) → v ≡ some g → g < nfile)
      → Counted other (record {
        files = record { file = update p.files.file f x; world = w };
        ofile = update p.ofile fd v;
      })
  Counted-change fd f v x w lt e same bounded = record {
    count = λ g lt_g. elim (Bool-cases (f == g)) [
      | inl at_f ↦
          subst
            (λ k. (update p.files.file f x k).ref ≡ pos (held (update p.ofile fd v) k + other k))
            ((==_iff f g).0 at_f) (ap (λ (y : File). y.ref) (update_self p.files.file f x) ∙ e)
      | inr not_f ↦
          let step = held-update p.ofile fd g v lt in
          let equal = ap one_if (same g (ground arith)) in
          let stays : held p.ofile g + other g ≡ held (update p.ofile fd v) g + other g =
            omega arith in
          rw not_f (inv.count g lt_g ∙ ap pos stays)
    ];
    named = λ k g lt_k e_k. elim (Bool-cases (fd == k)) [
      | inl at_k ↦ bounded g (rw at_k at e_k)
      | inr not_k ↦ inv.named k g lt_k (rw not_k at e_k)
    ];
  }
