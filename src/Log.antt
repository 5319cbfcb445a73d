-- ===== src/Log.antt =====
-- kernel/log.c: the write-ahead log. `B` is the content of a block; the header block is read and
-- written as its list of block numbers, `lh.n` being the list's length. A call of `bwrite` is one
-- `Write`, which the disk does whole or not at all. `cache` is what `bread` returns for a home block:
-- the content in the buffer cache, where `log_write` pins the blocks of a transaction.
pub mod Writes
pub mod Crash
mod Tests
use g14_os_project.Prelude.{
  ℕ, suc, ◌+◌, ◌*◌, Bool, true, false, ◌&&◌, ◌||◌, Option, none, some, List, [], ◌∷◌, ◌++◌, ◌==◌,
  leb, ltb, if◌then◌else◌, length, ◌-◌,
}
use g14_os_project.Prelude.Int.{ℤ, pos, pos_part, neg_part, inc_ℤ, dec_ℤ, ltb_ℤ}
use g14_os_project.Prelude.Table.{update}

-- MAXOPBLOCKS
abbrev pub max_op_blocks : ℕ
max_op_blocks = 10

-- LOGBLOCKS
abbrev pub log_blocks : ℕ
log_blocks = max_op_blocks * 3

pub record Disk (B : Type 0) : Type 0 where
  pub header : List ℕ
  pub slots : ℕ → B
  pub home : ℕ → B

pub data Write (B : Type 0) : Type 0 where
  write_slot : ℕ → B → Write B
  write_head : List ℕ → Write B
  write_home : ℕ → B → Write B

module _ {B : Type 0} where
  pub apply : Write B → Disk B → Disk B
  apply (write_slot i b) d = record d { slots = update d.slots i b }
  apply (write_head bs) d = record d { header = bs }
  apply (write_home n b) d = record d { home = update d.home n b }

  pub run_writes : List (Write B) → Disk B → Disk B
  run_writes [] d = d
  run_writes (w ∷ ws) d = run_writes ws (apply w d)

  -- `write_log` from the block `tail` on.
  pub write_log : (cache : ℕ → B) → List ℕ → ℕ → List (Write B)
  write_log cache [] tail = []
  write_log cache (b ∷ bs) tail = write_slot tail (cache b) ∷ write_log cache bs (suc tail)

  -- `install_trans` from the block `tail` on.
  pub install_trans : (slots : ℕ → B) → List ℕ → ℕ → List (Write B)
  install_trans slots [] tail = []
  install_trans slots (b ∷ bs) tail = write_home b (slots tail) ∷ install_trans slots bs (suc tail)

  -- What `commit` writes; the log blocks that it installs are those that it wrote.
  pub commit : (cache : ℕ → B) → List ℕ → Disk B → List (Write B)
  commit cache [] d = []
  commit cache (b ∷ bs) d =
      let logged = write_log cache (b ∷ bs) 0 in
      logged
      ++ (write_head (b ∷ bs)
          ∷ (install_trans (run_writes logged d).slots (b ∷ bs) 0 ++ (write_head [] ∷ [])))

  -- What `recover_from_log` writes: it reads the header first.
  pub recover_from_log : Disk B → List (Write B)
  recover_from_log d = install_trans d.slots d.header 0 ++ (write_head [] ∷ [])

  pub recovered : Disk B → Disk B
  recovered d = run_writes (recover_from_log d) d

-- `struct log` in memory.
pub record Log : Type 0 where
  pub outstanding : ℤ
  pub committing : Bool
  pub lh : List ℕ

-- log.lh.n + (log.outstanding+1)*MAXOPBLOCKS > LOGBLOCKS, with the negative part on the right side.
abbrev pub might_exhaust : Log → Bool
might_exhaust l =
    ltb (log_blocks + neg_part l.outstanding * max_op_blocks)
      (length l.lh + (pos_part l.outstanding + 1) * max_op_blocks)

-- One round of `begin_op`: `none` if it sleeps.
pub begin_op : Log → Option Log
begin_op l =
    if l.committing
    then none
    else if might_exhaust l
    then none
    else some (record l { outstanding = inc_ℤ l.outstanding })

abbrev pub mem : ℕ → List ℕ → Bool
mem n [] = false
mem n (b ∷ bs) = n == b || mem n bs

-- Where the loop of `log_write` ends without a break, the block goes to the end.
pub absorb : ℕ → List ℕ → List ℕ
absorb n bs = if mem n bs then bs else bs ++ (n ∷ [])

-- `none` stands for the two panics.
pub log_write : ℕ → Log → Option Log
unfolding absorb
log_write n l =
    if leb log_blocks (length l.lh)
    then none
    else if ltb_ℤ l.outstanding (pos 1)
    then none
    else some (record l { lh = absorb n l.lh })

-- `end_op` up to its call of `commit`; the flag says whether it commits. `none` is the panic.
pub end_op : Log → Option (Log × Bool)
end_op l =
    let left = dec_ℤ l.outstanding in
    if l.committing
    then none
    else if pos_part left == 0 && neg_part left == 0
    then some (record l { outstanding = left; committing = true }, true)
    else some (record l { outstanding = left }, false)

-- `end_op` after `commit`, which left `lh.n` at 0.
pub committed_log : Log → Log
committed_log l = record l { committing = false; lh = [] }
