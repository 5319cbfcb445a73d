-- ===== src/Process/Inv/Reparent.antt =====
-- What `release_all` and `reparent` do to the table.
use native.Mathlib.Decide.{ℕ_discrete, dec_lt}
use g14_os_project.Prelude.{
  ℕ, zero, suc, ◌+◌, ◌≤◌, ◌<◌, ◌≡◌, refl, ◌∙◌, ◌⊎◌, inl, inr, true, false, none, some, Option, List,
  [], ◌∷◌, arith, ◌==◌, if◌then◌else◌, Bool-cases,
}
use g14_os_project.Process.{Proc, Kernel, Services, Chan, nproc, is_unused}
use g14_os_project.Process.Table.{is_live, has_parent, put_proc}
use g14_os_project.Process.Sleep.{wakeup, wakeup_all}
use g14_os_project.Process.Exit.{
  reparent_one, reparent_from, reparent, close_files, put_cwd, release_all, chan_of,
}
use g14_os_project.Process.Inv.Frame.{Frame, Frame-put, Frame-refl, Frame-trans, Frame-wakeup}
use g14_os_project.Process.Inv.Waits.{Frame-world}

module _ {W : Type 0} where
  Frame-wakeup_all :
      (self : Option ℕ) (cs : List Chan) (k : Kernel W) → Frame k (wakeup_all self cs k)
  Frame-wakeup_all self [] k = Frame-refl k
  Frame-wakeup_all self (c ∷ cs) k =
      Frame-trans (Frame-wakeup self c k) (Frame-wakeup_all self cs (wakeup self c k))

module _ {W : Type 0} (sv : Services W) (self : ℕ) where
  Frame-woken :
      (k : Kernel W) (o : W × List Chan)
      → Frame k (wakeup_all (some self) o.1 (record k { world = o.0 }))
  Frame-woken k o =
      Frame-trans (Frame-world k o.0) (Frame-wakeup_all (some self) o.1 (record k { world = o.0 }))

  Frame-close_files : (fs : List (Option ℕ)) (k : Kernel W) → Frame k (close_files sv self fs k)
  unfolding close_files
  Frame-close_files [] k = Frame-refl k
  Frame-close_files (none ∷ fs) k = Frame-close_files fs k
  Frame-close_files (some f ∷ fs) k =
      let o = sv.fileclose k.world f in
      let woken : Kernel W = wakeup_all (some self) o.1 (record k { world = o.0 }) in
      Frame-trans (Frame-woken k o) (Frame-close_files fs woken)

  Frame-put_cwd : (cwd : Option ℕ) (k : Kernel W) → Frame k (put_cwd sv self cwd k)
  unfolding put_cwd
  Frame-put_cwd none k = Frame-refl k
  Frame-put_cwd (some ip) k = Frame-woken k (sv.iput k.world ip)

  pub Frame-release_all : (k : Kernel W) → Frame k (release_all sv self k)
  unfolding release_all
  Frame-release_all k =
      let k₁ = close_files sv self (k.procs self).ofile k in
      let k₂ = put_cwd sv self (k₁.procs self).cwd k₁ in
      Frame-trans (Frame-close_files (k.procs self).ofile k) (
        Frame-trans (Frame-put_cwd (k₁.procs self).cwd k₁) (
          Frame-put k₂ self _
            (record { used = refl; live = refl; pid = refl; parent = refl; fork_count = refl })))

-- The same process but for its parent.
pub record SameButParent (p q : Proc) : Type 0 where
  pub used : is_unused q.state ≡ is_unused p.state
  pub live : is_live q ≡ is_live p
  pub pid : q.pid ≡ p.pid
  pub fork_count : q.fork_count ≡ p.fork_count

-- The children of `self` among the `n` entries from `i` on go to init.
pub record Adopted {W : Type 0} (self i n : ℕ) (k k' : Kernel W) : Type 0 where
  pub same : (j : ℕ) → SameButParent (k.procs j) (k'.procs j)
  pub inside :
      (j : ℕ)
      → i ≤ j
      → j < i + n
      → (k'.procs j).parent
        ≡ (if has_parent self (k.procs j) then k.initproc else (k.procs j).parent)
  pub outside : (j : ℕ) → (j < i) ⊎ (i + n ≤ j) → (k'.procs j).parent ≡ (k.procs j).parent
  pub nextpid : k'.nextpid ≡ k.nextpid
  pub initproc : k'.initproc ≡ k.initproc

module _ {W : Type 0} (self : ℕ) where
  Frame-Adopted : (i : ℕ) {k k' : Kernel W} → Frame k k' → Adopted self i 0 k k'
  Frame-Adopted i f = record {
    same = λ j. record {
      used = (f.same j).used;
      live = (f.same j).live;
      pid = (f.same j).pid;
      fork_count = (f.same j).fork_count;
    };
    inside = λ j lo hi. absurd (omega arith);
    outside = λ j h. (f.same j).parent;
    nextpid = f.nextpid;
    initproc = f.initproc;
  }

  Adopted-trans :
      {i n : ℕ} {a b c : Kernel W}
      → Adopted self i 1 a b
      → Adopted self (suc i) n b c
      → Adopted self i (suc n) a c
  Adopted-trans {i} {n} {a} {b} {c} x y = record {
    same = λ j. record {
      used = (y.same j).used ∙ (x.same j).used;
      live = (y.same j).live ∙ (x.same j).live;
      pid = (y.same j).pid ∙ (x.same j).pid;
      fork_count = (y.same j).fork_count ∙ (x.same j).fork_count;
    };
    inside = λ j lo hi. elim (dec_lt i j) [
      | yes later ↦
          let kept : (b.procs j).parent ≡ (a.procs j).parent = x.outside j (inr (omega arith)) in
          y.inside j later (omega arith) ∙ rw (kept, x.initproc)
      | no here ↦ y.outside j (inl (omega arith)) ∙ x.inside j lo (omega arith)
    ];
    outside = λ j h. y.outside j (after j n h) ∙ x.outside j (before j n h);
    nextpid = y.nextpid ∙ x.nextpid;
    initproc = y.initproc ∙ x.initproc;
  }
    where
      after : (j n : ℕ) → (j < i) ⊎ (i + suc n ≤ j) → (j < suc i) ⊎ (suc i + n ≤ j)
      after j n (inl lt) = inl (omega arith)
      after j n (inr ge) = inr (omega arith)

      before : (j n : ℕ) → (j < i) ⊎ (i + suc n ≤ j) → (j < i) ⊎ (i + 1 ≤ j)
      before j n (inl lt) = inl lt
      before j n (inr ge) = inr (omega arith)

  Adopted-Frame :
      {i n : ℕ} {a b c : Kernel W} → Adopted self i n a b → Frame b c → Adopted self i n a c
  Adopted-Frame x f = record {
    same = λ j. record {
      used = (f.same j).used ∙ (x.same j).used;
      live = (f.same j).live ∙ (x.same j).live;
      pid = (f.same j).pid ∙ (x.same j).pid;
      fork_count = (f.same j).fork_count ∙ (x.same j).fork_count;
    };
    inside = λ j lo hi. (f.same j).parent ∙ x.inside j lo hi;
    outside = λ j h. (f.same j).parent ∙ x.outside j h;
    nextpid = f.nextpid ∙ x.nextpid;
    initproc = f.initproc ∙ x.initproc;
  }

  adopt_one :
      (i : ℕ) (k : Kernel W)
      → has_parent self (k.procs i) ≡ true
      → Adopted self i 1 k (put_proc k i (record (k.procs i) { parent = k.initproc }))
  adopt_one i k mine = record {
    same = λ j. elim (ℕ_discrete j i) [
      | yes e ↦
          let hit : (i == j) ≡ true = ground arith in
          rw (hit, e) (record { used = refl; live = refl; pid = refl; fork_count = refl })
      | no ne ↦
          let miss : (i == j) ≡ false = ground arith in
          rw miss (record { used = refl; live = refl; pid = refl; fork_count = refl })
    ];
    inside = λ j lo hi.
        let e : j ≡ i = omega arith in
        let hit : (i == j) ≡ true = ground arith in rw (hit, e, mine);
    outside = λ j h. let miss : (i == j) ≡ false = ground arith in rw miss;
    nextpid = refl;
    initproc = refl;
  }

  adopt_none : (i : ℕ) (k : Kernel W) → has_parent self (k.procs i) ≡ false → Adopted self i 1 k k
  adopt_none i k other = record {
    same = λ j. record { used = refl; live = refl; pid = refl; fork_count = refl };
    inside = λ j lo hi. let e : j ≡ i = omega arith in rw (e, other);
    outside = λ j h. refl;
    nextpid = refl;
    initproc = refl;
  }

module _ {W : Type 0} (sv : Services W) (self : ℕ) where
  reparent_one-Adopted : (i : ℕ) (k : Kernel W) → Adopted self i 1 k (reparent_one sv self i k)
  reparent_one-Adopted i k = elim (Bool-cases (has_parent self (k.procs i))) [
    | inl mine ↦ rw mine (
        Adopted-Frame self (adopt_one self i k mine) (
          Frame-wakeup (some self) (chan_of k.initproc)
            (put_proc k i (record (k.procs i) { parent = k.initproc }))))
    | inr other ↦ rw other (adopt_none self i k other)
  ]

  reparent_from-Adopted :
      (n i : ℕ) (k : Kernel W) → Adopted self i n k (reparent_from sv self n i k)
  unfolding reparent_from
  reparent_from-Adopted zero i k = Frame-Adopted self i (Frame-refl k)
  reparent_from-Adopted (suc n) i k =
      Adopted-trans self (reparent_one-Adopted i k)
        (reparent_from-Adopted n (suc i) (reparent_one sv self i k))

  -- After `reparent` every entry whose parent was `self` has `initproc` as its parent; no other parent
  -- changes, and no entry's pid, `fork_count`, or being in use or alive.
  pub reparent-Adopted : (k : Kernel W) → Adopted self 0 nproc k (reparent sv self k)
  unfolding reparent
  reparent-Adopted k = reparent_from-Adopted nproc 0 k
