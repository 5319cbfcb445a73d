-- ===== src/Process/Inv/Births.antt =====
-- A free entry that becomes a child, or stays free, keeps the invariant.
use native.Mathlib.Decide.{ℕ_discrete}
use g14_os_project.Prelude.{ℕ, ◌+◌, ◌<◌, ◌≡◌, sym, ap, ◌∙◌, ◌≢◌, true, false, none, some, arith}
use g14_os_project.Process.{Proc, nproc, is_unused}
use g14_os_project.Process.Table.{is_live}
use g14_os_project.Process.Inv.{TableValid}
use g14_os_project.Process.Inv.Frame.{SameLife}

-- From `f` to `g`, the free entry `i` becomes a child of `self` with the pid `n`.
pub record Born (f g : ℕ → Proc) (self i n : ℕ) : Type 0 where
  pub others : (j : ℕ) → j ≢ i → SameLife (f j) (g j)
  pub used : is_unused (g i).state ≡ false
  pub live : is_live (g i) ≡ true
  pub pid : (g i).pid ≡ n
  pub parent : (g i).parent ≡ some self

module _ {f : ℕ → Proc} {n init : ℕ} (v : TableValid f n init) where
  module _ {g : ℕ → Proc} {self i : ℕ} (b : Born f g self i n)
      (free : is_unused (f i).state ≡ true) where
    live_ne : (q : ℕ) → is_live (f q) ≡ true → q ≢ i
    live_ne q live e = ground (arith, ap (λ k. is_unused (f k).state) e)

    module _ (ls : self < nproc) (live : is_live (f self) ≡ true) where
      born_free :
          (j : ℕ)
          → j < nproc
          → is_unused (g j).state ≡ true
          → ((g j).pid ≡ 0) × ((g j).parent ≡ none)
      born_free j lj e = elim (ℕ_discrete j i) [
        | yes ji ↦ cc (b.used, ap (λ k. is_unused (g k).state) ji)
        | no ne ↦ let s = b.others j ne in rw (s.pid, s.parent) (v.free j lj (sym s.used ∙ e))
      ]

      positive : 0 < n
      positive = omega (arith, v.numbered self ls (ground arith))

      born_numbered :
          (j : ℕ)
          → j < nproc
          → is_unused (g j).state ≡ false
          → (0 < (g j).pid) × ((g j).pid < n + 1)
      born_numbered j lj e = elim (ℕ_discrete j i) [
        | yes ji ↦ rw (ji, b.pid) (positive, omega arith)
        | no ne ↦
            let s = b.others j ne in rw s.pid (omega (arith, v.numbered j lj (sym s.used ∙ e)))
      ]

      old_pid_lt : (j : ℕ) → j < nproc → j ≢ i → is_unused (g j).state ≡ false → (g j).pid < n
      old_pid_lt j lj ne e = let s = b.others j ne in rw s.pid (v.numbered j lj (sym s.used ∙ e)).1

      born_unique :
          (j k : ℕ)
          → j < nproc
          → k < nproc
          → is_unused (g j).state ≡ false
          → is_unused (g k).state ≡ false
          → (g j).pid ≡ (g k).pid
          → j ≡ k
      born_unique j k lj lk ej ek e = elim (ℕ_discrete j i) [
        | yes ji ↦ elim (ℕ_discrete k i) [
          | yes ki ↦ ji ∙ sym ki
          | no nk ↦ absurd (omega (arith, old_pid_lt k lk nk ek, b.pid, ap (λ x. (g x).pid) ji))
        ]
        | no nj ↦ elim (ℕ_discrete k i) [
          | yes ki ↦ absurd (omega (arith, old_pid_lt j lj nj ej, b.pid, ap (λ x. (g x).pid) ki))
          | no nk ↦
              let s = b.others j nj in
              let t = b.others k nk in
              v.unique j k lj lk (sym s.used ∙ ej) (sym t.used ∙ ek) (sym s.pid ∙ e ∙ t.pid)
        ]
      ]

      live_after : (q : ℕ) → is_live (f q) ≡ true → is_live (g q) ≡ true
      live_after q e = (b.others q (live_ne q e)).live ∙ e

      born_parents :
          (j q : ℕ) → j < nproc → (g j).parent ≡ some q → (q < nproc) × (is_live (g q) ≡ true)
      born_parents j q lj e = elim (ℕ_discrete j i) [
        | yes ji ↦
            let qs : self ≡ q = ground (arith, b.parent, ap (λ x. (g x).parent) ji) in
            rw (← qs) (ls, live_after self live)
        | no ne ↦
            let (lq, lv) = v.parents j q lj (sym (b.others j ne).parent ∙ e) in
            (lq, live_after q lv)
      ]

      pub born-TableValid : TableValid g (n + 1) init
      born-TableValid = record {
        init_in = v.init_in;
        init_live = live_after init v.init_live;
        free = born_free;
        numbered = born_numbered;
        unique = born_unique;
        parents = born_parents;
      }
