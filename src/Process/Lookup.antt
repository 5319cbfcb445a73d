-- ===== src/Process/Lookup.antt =====
-- The searches of proc.c in a table that satisfies the invariant.
use native.Mathlib.Decide.{dec_lt}
use g14_os_project.Prelude.{
  ℕ, ◌≤◌, ◌<◌, ◌≡◌, ap, inl, inr, Bool, true, false, ◌&&◌, not, some, arith, ◌==◌, Bool-cases,
  Option-cases,
}
use g14_os_project.Prelude.Table.{find_from, find_from-IsFirst, find_from-none, find_from_unique}
use g14_os_project.Process.{Kernel, nproc, is_unused}
use g14_os_project.Process.Table.{find_proc}
use g14_os_project.Process.Inv.{IsValid}

-- A search returns an entry that passes when no earlier one does.
pub find_from-first {ℓ} :
    {A : Type ℓ} (test : A → Bool) (f : ℕ → A) (n i : ℕ)
    → i < n
    → test (f i) ≡ true
    → ((j : ℕ) → j < i → test (f j) ≡ false)
    → find_from test f n 0 ≡ some i
find_from-first test f n i lt hit early = elim (Option-cases (find_from test f n 0)) [
  | inl e ↦ cc (find_from-none test f n 0 i e (omega arith) (omega arith))
  | inr (j, e) ↦
      let first = find_from-IsFirst test f n 0 j e in
      let not_less : i ≤ j = elim (dec_lt j i) [
        | yes less ↦ cc (early j less, first.passes)
        | no more ↦ omega arith
      ] in
      let not_more : j ≤ i = elim (dec_lt i j) [
        | yes less ↦ cc (first.before i (omega arith) less)
        | no more ↦ omega arith
      ] in
      let same : j ≡ i = omega (arith, not_less, not_more) in rw e (ap some same)
]

module _ {W : Type 0} {k : Kernel W} (v : IsValid k) (i : ℕ) (lt : i < nproc)
    (used : is_unused (k.procs i).state ≡ false) where
  owner : (j : ℕ) → j < nproc → (k.procs j).pid ≡ (k.procs i).pid → j ≡ i
  owner j lj e = elim (Bool-cases (is_unused (k.procs j).state)) [
    | inl free ↦
        absurd (omega (arith, (v.table.free j lj free).0, (v.table.numbered i lt used).0, e))
    | inr other ↦ v.table.unique j i lj lt other used e
  ]

  -- A search by pid finds the process that has it.
  pub find_pid : find_proc k (λ p. p.pid == (k.procs i).pid) ≡ some i
  find_pid =
      find_from_unique (λ p. p.pid == (k.procs i).pid) k.procs nproc 0 i (omega arith) (omega arith)
        (ground arith) (λ j lo hi e. owner j (omega arith) (ground arith))

  pub find_used_pid :
      find_proc k (λ p. p.pid == (k.procs i).pid && not (is_unused p.state)) ≡ some i
  find_used_pid =
      find_from_unique (λ p. p.pid == (k.procs i).pid && not (is_unused p.state)) k.procs nproc 0 i
        (omega arith) (omega arith) (ground arith)
        (λ j lo hi e. owner j (omega arith) (ground arith))
