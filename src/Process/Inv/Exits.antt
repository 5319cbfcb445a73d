-- ===== src/Process/Inv/Exits.antt =====
-- The sections of `kexit` keep the invariant.
use native.Mathlib.Decide.{ℕ_discrete}
use g14_os_project.Prelude.{
  ℕ, ◌<◌, ◌≡◌, refl, sym, ap, subst, ◌∙◌, ◌≢◌, inl, inr, true, false, none, some, Option, arith,
  ◌==◌, if◌then◌else◌, Bool-cases,
}
use g14_os_project.Prelude.Int.{ℤ, dec_ℤ}
use g14_os_project.Prelude.Table.{update_ne}
use g14_os_project.Process.{Proc, Kernel, Services, nproc, is_unused}
use g14_os_project.Process.Table.{is_live, has_parent}
use g14_os_project.Process.Sleep.{wakeup}
use g14_os_project.Process.Exit.{
  reparent, count_exit, release_all, become_zombie, exit_end, kexit, chan_of,
}
use g14_os_project.Process.Inv.{IsValid}
use g14_os_project.Process.Inv.Frame.{
  SameLife, Frame, Frame-refl, Frame-wakeup, SameView-refl, SameView-life,
}
use g14_os_project.Process.Inv.Reparent.{Adopted, Frame-release_all, reparent-Adopted}
use g14_os_project.Process.Inv.Deaths.{Ended, ended-TableValid}

-- The parent of `self` counts one child less.
record Counted {W : Type 0} (self : ℕ) (k k' : Kernel W) : Type 0 where
  life : (j : ℕ) → SameLife (k.procs j) (k'.procs j)
  fork_count :
      (j : ℕ)
      → (k'.procs j).fork_count ≡ (
          if has_parent j (k.procs self)
          then dec_ℤ (k.procs j).fork_count
          else (k.procs j).fork_count)
  nextpid : k'.nextpid ≡ k.nextpid
  initproc : k'.initproc ≡ k.initproc

module _ {W : Type 0} (sv : Services W) (self : ℕ) where
  count_exit-Counted :
      (o : Option ℕ) (k : Kernel W) → (k.procs self).parent ≡ o → Counted self k (count_exit sv o k)
  unfolding count_exit
  count_exit-Counted none k e = record {
    life = λ j. record { used = refl; live = refl; pid = refl; parent = refl };
    fork_count = λ j. rw e;
    nextpid = refl;
    initproc = refl;
  }
  count_exit-Counted (some q) k e = record {
    life = λ j. elim (Bool-cases (q == j)) [
      | inl hit ↦
          let same : q ≡ j = ground arith in
          rw (hit, same) (record { used = refl; live = refl; pid = refl; parent = refl })
      | inr miss ↦ rw miss (record { used = refl; live = refl; pid = refl; parent = refl })
    ];
    fork_count = λ j. elim (Bool-cases (q == j)) [
      | inl hit ↦ (let same : q ≡ j = ground arith in rw (e, hit, same))
      | inr miss ↦ rw (e, miss)
    ];
    nextpid = refl;
    initproc = refl;
  }

  -- The steps of an exit, one after the other; the first leaves the counts `count`.
  pub record Stages (status : ℕ) (count : ℕ → ℤ) (k k' : Kernel W) : Type 0 where
    one : Kernel W
    two : Kernel W
    three : Kernel W
    life : (j : ℕ) → SameLife (k.procs j) (one.procs j)
    counts : (j : ℕ) → (one.procs j).fork_count ≡ count j
    nextpid : one.nextpid ≡ k.nextpid
    initproc : one.initproc ≡ k.initproc
    released : Frame one two
    adopted : Adopted self 0 nproc two three
    pub woken : Kernel W
    wakes : Frame three woken
    pub result : k' ≡ become_zombie sv self status woken

  zombie_elsewhere :
      (status : ℕ) (k : Kernel W) (j : ℕ)
      → j ≢ self
      → (become_zombie sv self status k).procs j ≡ k.procs j
  unfolding become_zombie
  zombie_elsewhere status k j ne = update_ne k.procs self j _ ne

  -- What the exit leaves alone, at every entry.
  record Kept (p q : Proc) : Type 0 where
    pid : q.pid ≡ p.pid
    parent : q.parent ≡ p.parent

  zombie-Kept :
      (status : ℕ) (k : Kernel W) (j : ℕ)
      → Kept (k.procs j) ((become_zombie sv self status k).procs j)
  unfolding become_zombie
  zombie-Kept status k j = elim (Bool-cases (self == j)) [
    | inl hit ↦
        let same : self ≡ j = ground arith in rw (hit, same) (record { pid = refl; parent = refl })
    | inr miss ↦ rw miss (record { pid = refl; parent = refl })
  ]

  zombie_dead :
      (status : ℕ) (k : Kernel W)
      → (is_live ((become_zombie sv self status k).procs self) ≡ false)
        × (is_unused ((become_zombie sv self status k).procs self).state ≡ false)
  unfolding become_zombie
  zombie_dead status k = let hit : (self == self) ≡ true = ground arith in rw hit (refl, refl)

  module _ {status : ℕ} {count : ℕ → ℤ} {k k' : Kernel W} (s : Stages status count k k') (init : ℕ)
      (is_init : k.initproc ≡ some init) (live : is_live (k.procs self) ≡ true) where
    open s use {one, two, three, woken, life, counts, nextpid, initproc, released, adopted, wakes}

    abbrev last : Kernel W
    last = become_zombie sv self status woken

    last_live : (j : ℕ) → j ≢ self → is_live (last.procs j) ≡ is_live (k.procs j)
    last_live j ne =
        ap is_live (zombie_elsewhere status woken j ne)
        ∙ (wakes.same j).live
        ∙ (adopted.same j).live
        ∙ (released.same j).live
        ∙ (life j).live

    last_used : (j : ℕ) → is_unused (last.procs j).state ≡ is_unused (k.procs j).state
    last_used j = elim (ℕ_discrete j self) [
      | yes e ↦
          let was : is_unused (k.procs self).state ≡ false = ground arith in
          rw e ((zombie_dead status woken).1 ∙ sym was)
      | no ne ↦
          ap (λ (p : Proc). is_unused p.state) (zombie_elsewhere status woken j ne)
          ∙ (wakes.same j).used
          ∙ (adopted.same j).used
          ∙ (released.same j).used
          ∙ (life j).used
    ]

    last_pid : (j : ℕ) → (last.procs j).pid ≡ (k.procs j).pid
    last_pid j =
        (zombie-Kept status woken j).pid
        ∙ (wakes.same j).pid
        ∙ (adopted.same j).pid
        ∙ (released.same j).pid
        ∙ (life j).pid

    two_parent : (j : ℕ) → (two.procs j).parent ≡ (k.procs j).parent
    two_parent j = (released.same j).parent ∙ (life j).parent

    last_parent :
        (j : ℕ)
        → j < nproc
        → (last.procs j).parent
          ≡ (if has_parent self (k.procs j) then some init else (k.procs j).parent)
    last_parent j lj =
        (zombie-Kept status woken j).parent
        ∙ (wakes.same j).parent
        ∙ adopted.inside j (omega arith) lj
        ∙ rw (two_parent j, released.initproc, initproc, is_init)

    pub stages-counts : (j : ℕ) → j ≢ self → (last.procs j).fork_count ≡ count j
    stages-counts j ne =
        ap (λ (p : Proc). p.fork_count) (zombie_elsewhere status woken j ne)
        ∙ (wakes.same j).fork_count
        ∙ (adopted.same j).fork_count
        ∙ (released.same j).fork_count
        ∙ counts j

    pub stages-Ended : Ended k.procs last.procs self init
    stages-Ended = record {
      others = last_live;
      dead = (zombie_dead status woken).0;
      used = last_used;
      pid = last_pid;
      parent = last_parent;
    }

    last_nextpid : last.nextpid ≡ k.nextpid
    unfolding become_zombie
    last_nextpid = wakes.nextpid ∙ adopted.nextpid ∙ released.nextpid ∙ nextpid

    last_initproc : last.initproc ≡ k.initproc
    unfolding become_zombie
    last_initproc = wakes.initproc ∙ adopted.initproc ∙ released.initproc ∙ initproc

  exit_end-Stages :
      (status : ℕ) (count : ℕ → ℤ) (k one : Kernel W)
      → ((j : ℕ) → SameLife (k.procs j) (one.procs j))
      → ((j : ℕ) → (one.procs j).fork_count ≡ count j)
      → one.nextpid ≡ k.nextpid
      → one.initproc ≡ k.initproc
      → (two : Kernel W) → Frame one two
      → Stages status count k (exit_end sv self status two)
  exit_end-Stages status count k one life counts nextpid initproc two released =
      let three = reparent sv self two in
      record {
        one = one;
        two = two;
        three = three;
        woken = wakeup (some self) (chan_of (three.procs self).parent) three;
        life = life;
        counts = counts;
        nextpid = nextpid;
        initproc = initproc;
        released = released;
        adopted = reparent-Adopted sv self two;
        wakes = Frame-wakeup (some self) (chan_of (three.procs self).parent) three;
        result = refl;
      }

  -- The counts once the parent of `self` has one child less.
  abbrev pub one_less : Kernel W → ℕ → ℤ
  one_less k j =
      if has_parent j (k.procs self) then dec_ℤ (k.procs j).fork_count else (k.procs j).fork_count

  pub kexit-Stages :
      {k k' : Kernel W} (status : ℕ)
      → kexit sv self status k ≡ some k'
      → Stages status (one_less k) k k'
  unfolding kexit
  kexit-Stages {k} {k'} status e =
      let one = count_exit sv (k.procs self).parent k in
      let counted = count_exit-Counted (k.procs self).parent k refl in
      let same : exit_end sv self status (release_all sv self one) ≡ k' = ground arith in
      subst (Stages status (one_less k) k) same (
        exit_end-Stages status (one_less k) k one counted.life counted.fork_count counted.nextpid
          counted.initproc (release_all sv self one) (Frame-release_all sv self one))

  pub count_exit-initproc :
      (k : Kernel W) → (count_exit sv (k.procs self).parent k).initproc ≡ k.initproc
  count_exit-initproc k = (count_exit-Counted (k.procs self).parent k refl).initproc

  pub kexit-ne-init :
      (k : Kernel W) {k' : Kernel W} (status init : ℕ)
      → k.initproc ≡ some init
      → kexit sv self status k ≡ some k'
      → self ≢ init
  unfolding kexit
  kexit-ne-init k status init is_init e same =
      let kept = (count_exit-Counted (k.procs self).parent k refl).initproc in ground (arith, kept)

  -- The last section of an exit keeps the invariant, whatever the counts are.
  pub exit_end-IsValid :
      {k : Kernel W} (status : ℕ) (v : IsValid k)
      → self ≢ v.init
      → is_live (k.procs self) ≡ true
      → IsValid (exit_end sv self status k)
  unfolding exit_end-Stages
  exit_end-IsValid {k} status v ne live =
      let s =
        exit_end-Stages status (λ j. (k.procs j).fork_count) k k
          (λ j. SameView-life (SameView-refl (k.procs j))) (λ j. refl) refl refl k (Frame-refl k) in
      record {
        init = v.init;
        is_init = last_initproc s v.init v.is_init live ∙ v.is_init;
        table =
            rw (last_nextpid s v.init v.is_init live)
              (ended-TableValid v.table (stages-Ended s v.init v.is_init live) ne);
      }
