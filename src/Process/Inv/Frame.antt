-- ===== src/Process/Inv/Frame.antt =====
-- What the invariant depends on, and the operations that leave it alone.
use g14_os_project.Prelude.{
  ℕ, ◌≡◌, refl, sym, ◌∙◌, inl, inr, Bool, false, none, some, Option, arith, ◌==◌, subst, Bool-cases,
}
use g14_os_project.Process.{Proc, Kernel, Chan, is_unused}
use g14_os_project.Process.Table.{is_live, put_proc}
use g14_os_project.Process.Sleep.{wake_one, wakeup}
use g14_os_project.Process.Inv.{TableValid, IsValid}

-- The same process but for `fork_count`.
pub record SameLife (p q : Proc) : Type 0 where
  pub used : is_unused q.state ≡ is_unused p.state
  pub live : is_live q ≡ is_live p
  pub pid : q.pid ≡ p.pid
  pub parent : q.parent ≡ p.parent

-- The same process for the invariant, and the same `fork_count`.
pub record SameView (p q : Proc) : Type 0 where
  pub used : is_unused q.state ≡ is_unused p.state
  pub live : is_live q ≡ is_live p
  pub pid : q.pid ≡ p.pid
  pub parent : q.parent ≡ p.parent
  pub fork_count : q.fork_count ≡ p.fork_count

pub SameView-refl : (p : Proc) → SameView p p
SameView-refl p = record { used = refl; live = refl; pid = refl; parent = refl; fork_count = refl }

pub wake_one-SameView : (c : Chan) (p : Proc) → SameView p (wake_one c p)
wake_one-SameView c p = record {
  used = ground arith;
  live = ground arith;
  pid = ground arith;
  parent = ground arith;
  fork_count = ground arith;
}

module _ {f g : ℕ → Proc} (same : (i : ℕ) → SameLife (f i) (g i)) where
  pub TableValid-life : {nextpid init : ℕ} → TableValid f nextpid init → TableValid g nextpid init
  TableValid-life {nextpid} {init} v = record {
    init_in = v.init_in;
    init_live = (same init).live ∙ v.init_live;
    free = λ i lt e. rw ((same i).pid, (same i).parent) (v.free i lt (sym (same i).used ∙ e));
    numbered = λ i lt e. rw (same i).pid (v.numbered i lt (sym (same i).used ∙ e));
    unique = λ i j li lj ei ej e.
        v.unique i j li lj (sym (same i).used ∙ ei) (sym (same j).used ∙ ej)
          (sym (same i).pid ∙ e ∙ (same j).pid);
    parents = λ i q lt e.
        let (lq, live) = v.parents i q lt (sym (same i).parent ∙ e) in (lq, (same q).live ∙ live);
  }

pub SameView-life : {p q : Proc} → SameView p q → SameLife p q
SameView-life s = record { used = s.used; live = s.live; pid = s.pid; parent = s.parent }

module _ {W : Type 0} where
  -- `k'` has the same table as `k` for the invariant.
  pub record Frame (k k' : Kernel W) : Type 0 where
    pub same : (i : ℕ) → SameView (k.procs i) (k'.procs i)
    pub nextpid : k'.nextpid ≡ k.nextpid
    pub initproc : k'.initproc ≡ k.initproc

  pub Frame-IsValid : {k k' : Kernel W} → Frame k k' → IsValid k → IsValid k'
  Frame-IsValid f v = record {
    init = v.init;
    is_init = f.initproc ∙ v.is_init;
    table = rw f.nextpid (TableValid-life (λ i. SameView-life (f.same i)) v.table);
  }

  pub Frame-refl : (k : Kernel W) → Frame k k
  Frame-refl k = record { same = λ i. SameView-refl (k.procs i); nextpid = refl; initproc = refl }

  pub Frame-trans : {a b c : Kernel W} → Frame a b → Frame b c → Frame a c
  Frame-trans f g = record {
    same = λ i. record {
      used = (g.same i).used ∙ (f.same i).used;
      live = (g.same i).live ∙ (f.same i).live;
      pid = (g.same i).pid ∙ (f.same i).pid;
      parent = (g.same i).parent ∙ (f.same i).parent;
      fork_count = (g.same i).fork_count ∙ (f.same i).fork_count;
    };
    nextpid = g.nextpid ∙ f.nextpid;
    initproc = g.initproc ∙ f.initproc;
  }

  pub Frame-put :
      (k : Kernel W) (i : ℕ) (p : Proc) → SameView (k.procs i) p → Frame k (put_proc k i p)
  Frame-put k i p s = record {
    same = λ j. elim (Bool-cases (i == j)) [
      | inl e ↦
          (let ij : i ≡ j = ground arith in rw e (subst (λ (x : ℕ). SameView (k.procs x) p) ij s))
      | inr ne ↦ rw ne (SameView-refl (k.procs j))
    ];
    nextpid = refl;
    initproc = refl;
  }

  pub Frame-wakeup : (self : Option ℕ) (c : Chan) (k : Kernel W) → Frame k (wakeup self c k)
  Frame-wakeup self c k = record {
    same = λ j.
        let mine : Bool = elim self [ none ↦ false | some i ↦ i == j ] in
        elim (Bool-cases mine) [
          | inl e ↦ rw e (SameView-refl (k.procs j))
          | inr e ↦ rw e (wake_one-SameView c (k.procs j))
        ];
    nextpid = refl;
    initproc = refl;
  }
