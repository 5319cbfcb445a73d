-- ===== src/Pipe.antt =====
-- kernel/pipe.c: a pipe is a ring of PIPESIZE bytes between two free-running `uint` counters.
-- A call holds `pi->lock` from its start, or from a wakeup, to its return or its next sleep. Each
-- function below is one such section; what a call does after a wakeup is a section again, from the
-- index that it had reached. `copyin` and `copyout` of single bytes, and `killed(pr)`, enter as
-- functions of the index `i`.
pub mod Inv
pub mod Ring
pub mod Write
pub mod Read
pub mod Fifo
mod Tests
use g14_os_project.Prelude.{
  ℕ, zero, suc, ◌+◌, ◌-◌, ◌%◌, ◌≡◌, Bool, true, false, ◌&&◌, ◌||◌, not, Option, none, some, List,
  [], ◌∷◌, ◌++◌, ◌==◌, if◌then◌else◌, get_or, set, add32, sub32,
}
use g14_os_project.Prelude.Int.{ℤ, pos, minus_one, pos_part}

abbrev pub pipe_size : ℕ
pipe_size = 512

-- `struct pipe`; `buffer` is its `data`.
pub record Pipe : Type 0 where
  pub buffer : List ℕ
  pub nread : ℕ
  pub nwrite : ℕ
  pub readopen : Bool
  pub writeopen : Bool

-- The two addresses on which readers and writers sleep.
pub data Chan : Type 0 where
  on_nread on_nwrite : Chan

-- How a section ends: the call returns, or it sleeps with `i` bytes behind it.
pub data Stop : Type 0 where
  returned : ℤ → Stop
  asleep : ℕ → Stop

-- The fields as `pipealloc` sets them, over a page with the content `junk`.
pub fresh : List ℕ → Pipe
fresh junk = record { buffer = junk; nread = 0; nwrite = 0; readopen = true; writeopen = true }

-- The new pipe, the channel that is woken, and whether the page is freed.
pub pipeclose : Pipe → Bool → Pipe × Chan × Bool
pipeclose p writable =
    let q : Pipe =
      if writable then record p { writeopen = false } else record p { readopen = false } in
    (q, if writable then on_nread else on_nwrite, not q.readopen && not q.writeopen)

-- pi->data[pi->nwrite++ % PIPESIZE] = ch;
pub put : Pipe → ℕ → Pipe
put p ch = record p { buffer = set p.buffer (p.nwrite % pipe_size) ch; nwrite = add32 p.nwrite 1 }

pub is_full : Pipe → Bool
is_full p = p.nwrite == add32 p.nread pipe_size

pub is_empty : Pipe → Bool
is_empty p = p.nread == p.nwrite

-- The loop of `pipewrite` with `k` bytes left; the flag says whether readers are woken.
pub write_loop : ℕ → ℕ → (ℕ → Option ℕ) → (ℕ → Bool) → Pipe → Pipe × Bool × Stop
write_loop zero i src killed p = (p, true, returned (pos i))
write_loop (suc k) i src killed p =
    if not p.readopen || killed i
    then (p, false, returned minus_one)
    else if is_full p
    then (p, true, asleep i)
    else elim (src i) [
      | none ↦ (p, true, returned (pos i))
      | some ch ↦ write_loop k (suc i) src killed (put p ch)
    ]

pub pipewrite : Pipe → (ℕ → Option ℕ) → (ℕ → Bool) → ℤ → Pipe × Bool × Stop
unfolding write_loop
pipewrite p src killed n = write_loop (pos_part n) 0 src killed p

-- ch = pi->data[pi->nread % PIPESIZE]; … pi->nread++;
pub oldest : Pipe → ℕ
oldest p = get_or p.buffer (p.nread % pipe_size) 0

pub advance : Pipe → Pipe
advance p = record p { nread = add32 p.nread 1 }

-- The copying loop of `piperead` with `k` rounds left; the list is what `copyout` stored.
pub read_loop : ℕ → ℕ → (ℕ → Bool) → Pipe → Pipe × List ℕ × ℤ
read_loop zero i dst p = (p, [], pos i)
read_loop (suc k) i dst p = if is_empty p then (p, [], pos i) else elim (dst i) [
  | false ↦ (p, [], if i == 0 then minus_one else pos i)
  | true ↦ let (q, bs, r) = read_loop k (suc i) dst (advance p) in (q, oldest p ∷ bs, r)
]

-- The third part says whether writers are woken.
pub piperead : Pipe → (ℕ → Bool) → Bool → ℤ → Pipe × List ℕ × Bool × Stop
unfolding read_loop
piperead p dst killed n =
    if is_empty p && p.writeopen
    then if killed then (p, [], false, returned minus_one) else (p, [], false, asleep 0)
    else let (q, bs, r) = read_loop (pos_part n) 0 dst p in (q, bs, true, returned r)
