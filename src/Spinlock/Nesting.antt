-- ===== src/Spinlock/Nesting.antt =====
-- Nested critical sections.
use g14_os_project.Prelude.{
  ℕ, ◌+◌, ◌-◌, ◌<◌, ◌≡◌, refl, sym, inl, inr, true, false, ◌&&◌, none, some, ◌==◌, ltb,
  if◌then◌else◌, arith, Bool-cases,
}
use g14_os_project.Spinlock.{Cpu, Spinlock, push_off, pop_off, holding, got, acquire, release}

-- Inside a critical section interrupts are off.
pub record IsNested (c : Cpu) : Type 0 where
  pub off : 0 < c.noff → c.intr ≡ false

-- The same depth and interrupt bit, and in a section the same bit to go back to.
pub record SameDepth (c c' : Cpu) : Type 0 where
  pub noff : c'.noff ≡ c.noff
  pub intr : c'.intr ≡ c.intr
  pub intena : 0 < c.noff → c'.intena ≡ c.intena

intr_back :
    (c : Cpu)
    → IsNested c
    → (c.noff + 1 - 1 == 0 && (if c.noff == 0 then c.intr else c.intena)) ≡ c.intr
intr_back c v =
    let back : c.noff + 1 - 1 ≡ c.noff = omega arith in
    elim (Bool-cases (c.noff == 0)) [
      | inl outermost ↦ rw (back, outermost) refl
      | inr inner ↦ rw (back, inner) (sym (v.off (ground (arith, inner))))
    ]

-- `acquire` of a free lock gets it with interrupts off, and its `release` frees the lock and puts the
-- CPU back to the nesting depth and the interrupt bit it had, whether or not it was inside other
-- sections.
pub acquire-release :
    (me : ℕ) (c : Cpu) (l : Spinlock)
    → IsNested c
    → l.locked ≡ false
    → (held : Cpu) × (taken : Spinlock) × (c' : Cpu) × (free : Spinlock) × (acquire me c l
        ≡ got held taken)
      × (holding me taken ≡ true)
      × (held.intr ≡ false)
      × (release me held taken ≡ some (c', free))
      × (free.locked ≡ false)
      × SameDepth c c'
unfolding acquire release push_off pop_off holding
acquire-release me c l v free =
    let same : (me == me) ≡ true = ground arith in
    let depth : ltb (c.noff + 1) 1 ≡ false = ground arith in
    let back : c.noff + 1 - 1 ≡ c.noff = omega arith in
    let taken : Spinlock = record { locked = true; cpu = some me } in
    let unlocked : Spinlock = record { locked = false; cpu = none } in
    let c' : Cpu = record {
      noff = c.noff + 1 - 1;
      intena = if c.noff == 0 then c.intr else c.intena;
      intr = c.noff + 1 - 1 == 0 && (if c.noff == 0 then c.intr else c.intena);
    } in
    (
      push_off c,
      taken,
      c',
      unlocked,
      (rw free refl),
      same,
      refl,
      (rw (same, depth) refl),
      refl,
      record { noff = back; intr = intr_back c v; intena = λ pos. ground arith },
    )
