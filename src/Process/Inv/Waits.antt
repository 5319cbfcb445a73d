-- ===== src/Process/Inv/Waits.antt =====
-- `kwait` and `kwaitpid` keep the invariant.
use g14_os_project.Prelude.{
  ℕ, ◌≡◌, refl, inl, inr, Bool, true, false, ◌&&◌, ◌||◌, not, arith, ◌==◌, Bool-cases, Option-cases,
}
use g14_os_project.Prelude.Table.{find_from-IsFirst}
use g14_os_project.Process.{Kernel, Services, Chan, nproc, is_zombie, at_proc}
use g14_os_project.Process.Table.{is_live, has_parent, find_proc}
use g14_os_project.Process.Alloc.{freeproc}
use g14_os_project.Process.Sleep.{sleep_on}
use g14_os_project.Process.Wait.{store_status, reap, wait_more, kwait, kwaitpid}
use g14_os_project.Process.Inv.{IsValid}
use g14_os_project.Process.Inv.Frame.{SameView-refl, Frame, Frame-IsValid, Frame-put}
use g14_os_project.Process.Inv.Forks.{Refused, Refused-IsValid}

module _ {W : Type 0} where
  pub Frame-sleep :
      {k : Kernel W} (self : ℕ) (c : Chan)
      → is_live (k.procs self) ≡ true
      → Frame k (sleep_on self c k)
  unfolding sleep_on
  Frame-sleep {k} self c live = Frame-put k self _ (record {
    used = ground arith;
    live = ground arith;
    pid = refl;
    parent = refl;
    fork_count = refl;
  })

  pub Frame-world : (k : Kernel W) (w : W) → Frame k (record k { world = w })
  Frame-world k w = record {
    same = λ i. SameView-refl (k.procs i);
    nextpid = refl;
    initproc = refl;
  }

module _ {W : Type 0} (sv : Services W) (trampoline_page forkret : ℕ) where
  freeproc-Refused :
      (k : Kernel W) (i : ℕ) (w : W)
      → is_zombie (k.procs i).state ≡ true
      → Refused k (freeproc sv trampoline_page forkret i (record k { world = w }))
  unfolding freeproc
  freeproc-Refused k i w e = record {
    slot = i;
    freed = record {
      others =
          λ j ne. let miss : (i == j) ≡ false = ground arith in rw miss (SameView-refl (k.procs j));
      dead = ground arith;
      unused = ground arith;
      pid = ground arith;
      parent = ground arith;
    };
    nextpid = omega arith;
    initproc = refl;
  }

  reap-IsValid :
      {k : Kernel W} (self i addr : ℕ)
      → is_zombie (k.procs i).state ≡ true
      → IsValid k
      → IsValid (reap sv trampoline_page forkret self i addr k).0
  unfolding reap
  reap-IsValid {k} self i addr e v =
      let o = store_status sv trampoline_page forkret self i addr k in
      elim (Bool-cases o.1) [
        | inl stored ↦ rw stored (Refused-IsValid (freeproc-Refused k i o.0 e) v)
        | inr fault ↦ rw fault (Frame-IsValid (Frame-world k o.0) v)
      ]

  wait_more-IsValid :
      {k : Kernel W} (self : ℕ) (havekids : Bool)
      → is_live (k.procs self) ≡ true
      → IsValid k
      → IsValid (wait_more sv trampoline_page forkret self havekids k).0
  unfolding wait_more
  wait_more-IsValid {k} self havekids live v =
      elim (Bool-cases (not havekids || (k.procs self).killed)) [
        | inl stop ↦ rw stop v
        | inr go ↦ rw go (Frame-IsValid (Frame-sleep self (at_proc self) live) v)
      ]

  pub kwait-IsValid :
      {k : Kernel W} (self addr : ℕ)
      → is_live (k.procs self) ≡ true
      → IsValid k
      → IsValid (kwait sv trampoline_page forkret self addr k).0
  unfolding kwait
  kwait-IsValid {k} self addr live v =
      elim (Option-cases (find_proc k (λ p. has_parent self p && is_zombie p.state))) [
        | inl none_dead ↦ rw (none_dead, kwait) (wait_more-IsValid self _ live v)
        | inr (i, found) ↦
            let first =
              find_from-IsFirst (λ p. has_parent self p && is_zombie p.state) k.procs nproc 0 i
                found in
            rw (found, kwait) (reap-IsValid self i addr (ground (arith, first.passes)) v)
      ]

  pub kwaitpid-IsValid :
      {k : Kernel W} (self pid addr : ℕ)
      → is_live (k.procs self) ≡ true
      → IsValid k
      → IsValid (kwaitpid sv trampoline_page forkret self pid addr k).0
  unfolding kwaitpid
  kwaitpid-IsValid {k} self pid addr live v =
      elim (Option-cases (find_proc k (λ p. has_parent self p && p.pid == pid))) [
        | inl no_child ↦ rw (no_child, kwaitpid) (wait_more-IsValid self false live v)
        | inr (i, found) ↦
            rw (found, kwaitpid)
              (elim (Bool-cases (is_zombie (k.procs i).state)) [
                | inl dead ↦ rw dead (reap-IsValid self i addr dead v)
                | inr alive ↦ rw alive (wait_more-IsValid self true live v)
              ])
      ]
