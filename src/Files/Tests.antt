-- ===== src/Files/Tests.antt =====
-- Files and descriptors on concrete tables.
use g14_os_project.Prelude.{
  ℕ, ◌+◌, ◌<◌, ◌≡◌, refl, true, false, none, some, ◌==◌, if◌then◌else◌, arith, Bool-cases, inl, inr,
}
use g14_os_project.Prelude.Int.{pos, minus_one}
use g14_os_project.Prelude.Table.{count_below, update}
use g14_os_project.Files.{
  File, Files, fd_none, fd_inode, Targets, Process, sys_dup, sys_close, filewrite, nfile,
}
use g14_os_project.Files.Counts.{Counted, held}
use g14_os_project.Files.Descriptors.{
  DupOutcome, CloseOutcome, sys_dup-DupOutcome, sys_close-CloseOutcome,
}
use g14_os_project.Files.Transfer.{Written, filewrite-Written}

-- The world is the number of bytes written, and every write is whole.
abbrev counter : Targets ℕ
counter = record {
  pipeclose = λ p writable w. w;
  piperead = λ p addr n w. (n, w);
  pipewrite = λ p addr n w. (n, w);
  devread = λ m. none;
  devwrite = λ m. none;
  begin_op = λ w. w;
  end_op = λ w. w;
  ilock = λ ip w. w;
  iunlock = λ ip w. w;
  iput = λ ip w. w;
  readi = λ ip addr off n w. (n, w);
  writei = λ ip addr off n w. (pos n, w + n);
}

abbrev unused_file : File
unused_file = record {
  type = fd_none;
  ref = pos 0;
  readable = false;
  writable = false;
  pipe = 0;
  ip = 0;
  off = 0;
  major = pos 0;
}

abbrev open_file : File
open_file = record unused_file { type = fd_inode; ref = pos 1; writable = true; ip = 4; off = 100 }

-- File 2 is open, and descriptor 0 names it.
abbrev one_open : Process ℕ
one_open = record {
  files = record { file = update (λ f. unused_file) 2 open_file; world = 0 };
  ofile = update (λ fd. none) 0 (some 2);
}

abbrev no_others : ℕ → ℕ
no_others f = 0

one_open-count : (f : ℕ) → (one_open.files.file f).ref ≡ pos (held one_open.ofile f + no_others f)
unfolding held count_below
one_open-count f = elim (Bool-cases (2 == f)) [
  | inl it_is ↦ rw it_is refl
  | inr other ↦ rw other refl
]

one_open-named : (fd f : ℕ) → one_open.ofile fd ≡ some f → f < nfile
one_open-named fd f e = elim (Bool-cases (0 == fd)) [
  | inl first ↦ let two : 2 ≡ f = ground arith in omega arith
  | inr other ↦ absurd (ground arith)
]

one_open-Counted : Counted no_others one_open
one_open-Counted = record {
  count = λ f lt. one_open-count f;
  named = λ fd f lt. one_open-named fd f;
}

sys_dup-DupOutcome_example : DupOutcome no_others one_open (pos 0) (sys_dup (pos 0) one_open)
sys_dup-DupOutcome_example = sys_dup-DupOutcome no_others one_open one_open-Counted (pos 0)

sys_close-CloseOutcome_example :
    CloseOutcome counter no_others one_open (pos 0) (sys_close counter (pos 0) one_open)
sys_close-CloseOutcome_example =
    sys_close-CloseOutcome counter no_others one_open one_open-Counted (pos 0)

filewrite-Written_example :
    (j : ℕ) × (s₁ : Files ℕ) × (filewrite counter 2 4096 (pos 5000) one_open.files
      ≡ some (if j == 5000 then pos 5000 else minus_one, s₁))
    × Written counter 2 4096 5000 0 one_open.files j s₁
filewrite-Written_example = filewrite-Written counter 2 4096 5000 one_open.files refl refl
