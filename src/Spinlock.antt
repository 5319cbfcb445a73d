-- ===== src/Spinlock.antt =====
-- kernel/spinlock.c, as one CPU runs it: `push_off`, `pop_off`, `acquire` and `release`. The CPU's
-- interrupt enable bit stands beside `noff` and `intena` of its `struct cpu`; a CPU is its number.
pub mod Nesting
mod Tests
use g14_os_project.Prelude.{
  ℕ, zero, suc, ◌+◌, ◌-◌, Bool, true, false, ◌&&◌, not, Option, none, some, ◌==◌, ltb,
  if◌then◌else◌,
}

pub record Cpu : Type 0 where
  pub noff : ℕ
  pub intena : Bool
  pub intr : Bool

pub record Spinlock : Type 0 where
  pub locked : Bool
  pub cpu : Option ℕ

abbrev pub initlock : Spinlock
initlock = record { locked = false; cpu = none }

pub push_off : Cpu → Cpu
push_off c = record {
  noff = c.noff + 1;
  intena = if c.noff == 0 then c.intr else c.intena;
  intr = false;
}

-- `none` stands for the two panics.
pub pop_off : Cpu → Option Cpu
pop_off c =
    if c.intr
    then none
    else if ltb c.noff 1
    then none
    else some (record c { noff = c.noff - 1; intr = c.noff - 1 == 0 && c.intena })

abbrev pub is_cpu : Option ℕ → ℕ → Bool
is_cpu none me = false
is_cpu (some i) me = i == me

pub holding : ℕ → Spinlock → Bool
holding me l = l.locked && is_cpu l.cpu me

-- How `acquire` goes on from its first swap.
pub data Acquired : Type 0 where
  panics : Acquired
  spins : Cpu → Acquired
  got : Cpu → Spinlock → Acquired

pub acquire : ℕ → Cpu → Spinlock → Acquired
unfolding push_off holding
acquire me c l =
    if holding me l
    then panics
    else if l.locked
    then spins (push_off c)
    else got (push_off c) (record { locked = true; cpu = some me })

pub release : ℕ → Cpu → Spinlock → Option (Cpu × Spinlock)
unfolding pop_off holding
release me c l = if not (holding me l) then none else elim (pop_off c) [
  | none ↦ none
  | some c' ↦ some (c', record { locked = false; cpu = none })
]
