-- ===== src/Process/Inv/Deaths.antt =====
-- An entry that is freed, and a process that exits, keep the invariant.
use native.Mathlib.Decide.{ℕ_discrete}
use g14_os_project.Prelude.{
  ℕ, ◌≤◌, ◌<◌, ◌≡◌, sym, ap, ◌∙◌, ◌≢◌, inl, inr, true, false, none, some, arith, if◌then◌else◌,
  Bool-cases,
}
use g14_os_project.Prelude.Int.{dec_ℤ}
use g14_os_project.Process.{Proc, nproc, is_unused}
use g14_os_project.Process.Table.{is_live, has_parent}
use g14_os_project.Process.Inv.{TableValid}
use g14_os_project.Process.Inv.Frame.{SameView}

-- From `f` to `g`, the entry `i` is free at the end and had no living process at the start.
pub record Freed (f g : ℕ → Proc) (i : ℕ) : Type 0 where
  pub others : (j : ℕ) → j ≢ i → SameView (f j) (g j)
  pub dead : is_live (f i) ≡ false
  pub unused : is_unused (g i).state ≡ true
  pub pid : (g i).pid ≡ 0
  pub parent : (g i).parent ≡ none

module _ {f g : ℕ → Proc} {n n' init i : ℕ} (v : TableValid f n init) (d : Freed f g i)
    (le : n ≤ n') where
  live_ne : (q : ℕ) → is_live (f q) ≡ true → q ≢ i
  live_ne q live e = cc (d.dead, ap (λ k. is_live (f k)) e)

  used_ne : (q : ℕ) → is_unused (g q).state ≡ false → q ≢ i
  used_ne q used e = cc (d.unused, ap (λ k. is_unused (g k).state) e)

  freed_free :
      (j : ℕ) → j < nproc → is_unused (g j).state ≡ true → ((g j).pid ≡ 0) × ((g j).parent ≡ none)
  freed_free j lj e = elim (ℕ_discrete j i) [
    | yes ji ↦ rw ji (d.pid, d.parent)
    | no ne ↦ let s = d.others j ne in rw (s.pid, s.parent) (v.free j lj (sym s.used ∙ e))
  ]

  freed_unique :
      (j k : ℕ)
      → j < nproc
      → k < nproc
      → is_unused (g j).state ≡ false
      → is_unused (g k).state ≡ false
      → (g j).pid ≡ (g k).pid
      → j ≡ k
  freed_unique j k lj lk ej ek e =
      let s = d.others j (used_ne j ej) in
      let t = d.others k (used_ne k ek) in
      v.unique j k lj lk (sym s.used ∙ ej) (sym t.used ∙ ek) (sym s.pid ∙ e ∙ t.pid)

  live_freed : (q : ℕ) → is_live (f q) ≡ true → is_live (g q) ≡ true
  live_freed q e = (d.others q (live_ne q e)).live ∙ e

  freed_parents :
      (j q : ℕ) → j < nproc → (g j).parent ≡ some q → (q < nproc) × (is_live (g q) ≡ true)
  freed_parents j q lj e = elim (ℕ_discrete j i) [
    | yes ji ↦ cc (d.parent, ap (λ x. (g x).parent) ji)
    | no ne ↦
        let (lq, lv) = v.parents j q lj (sym (d.others j ne).parent ∙ e) in (lq, live_freed q lv)
  ]

  pub freed-TableValid : TableValid g n' init
  freed-TableValid = record {
    init_in = v.init_in;
    init_live = live_freed init v.init_live;
    free = freed_free;
    numbered = λ j lj e.
        let s = d.others j (used_ne j e) in
        rw s.pid (omega (arith, v.numbered j lj (sym s.used ∙ e)));
    unique = freed_unique;
    parents = freed_parents;
  }

-- From `f` to `g`, `self` dies and its children go to init.
pub record Ended (f g : ℕ → Proc) (self init : ℕ) : Type 0 where
  pub others : (j : ℕ) → j ≢ self → is_live (g j) ≡ is_live (f j)
  pub dead : is_live (g self) ≡ false
  pub used : (j : ℕ) → is_unused (g j).state ≡ is_unused (f j).state
  pub pid : (j : ℕ) → (g j).pid ≡ (f j).pid
  pub parent :
      (j : ℕ)
      → j < nproc
      → (g j).parent ≡ (if has_parent self (f j) then some init else (f j).parent)

-- From `f` to `g`, `self` exits: it dies, and its parent counts one child less.
pub record Exited (f g : ℕ → Proc) (self init : ℕ) : Type 0 where
  pub ended : Ended f g self init
  pub fork_count :
      (j : ℕ)
      → j ≢ self
      → (g j).fork_count
        ≡ (if has_parent j (f self) then dec_ℤ (f j).fork_count else (f j).fork_count)

module _ {f g : ℕ → Proc} {n init self : ℕ} (v : TableValid f n init) (x : Ended f g self init)
    (ne_init : self ≢ init) where
  live_after : (q : ℕ) → q ≢ self → is_live (f q) ≡ true → is_live (g q) ≡ true
  live_after q ne e = x.others q ne ∙ e

  exited_free :
      (j : ℕ) → j < nproc → is_unused (g j).state ≡ true → ((g j).pid ≡ 0) × ((g j).parent ≡ none)
  exited_free j lj e =
      let (no_pid, no_parent) = v.free j lj (sym (x.used j) ∙ e) in
      (x.pid j ∙ no_pid, x.parent j lj ∙ ground arith)

  exited_parents :
      (j q : ℕ) → j < nproc → (g j).parent ≡ some q → (q < nproc) × (is_live (g q) ≡ true)
  exited_parents j q lj e = elim (Bool-cases (has_parent self (f j))) [
    | inl orphan ↦
        let qi : init ≡ q = ground (arith, x.parent j lj) in
        rw (← qi) (v.init_in, live_after init (λ e'. ne_init (sym e')) v.init_live)
    | inr other ↦
        let kept : (f j).parent ≡ some q = ground (arith, x.parent j lj) in
        let (lq, lv) = v.parents j q lj kept in
        (lq, live_after q (λ (qs : q ≡ self). ground arith) lv)
  ]

  pub ended-TableValid : TableValid g n init
  ended-TableValid = record {
    init_in = v.init_in;
    init_live = live_after init (λ e. ne_init (sym e)) v.init_live;
    free = exited_free;
    numbered = λ j lj e. rw (x.pid j) (v.numbered j lj (sym (x.used j) ∙ e));
    unique = λ j k lj lk ej ek e.
        v.unique j k lj lk (sym (x.used j) ∙ ej) (sym (x.used k) ∙ ek)
          (sym (x.pid j) ∙ e ∙ x.pid k);
    parents = exited_parents;
  }
