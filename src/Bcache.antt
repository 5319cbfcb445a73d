-- ===== src/Bcache.antt =====
-- kernel/bio.c: the buffer cache. A buffer is named by its index in `bcache.buf`; the list through
-- `next` and `prev` is the list of the indices from `head.next`, the most recently used, on. `B` is
-- the content of a block; the disk is what `virtio_disk_rw` reads and writes.
pub mod Inv
pub mod Read
pub mod Calls
pub mod Locked
mod Tests
use g14_os_project.Prelude.{
  ℕ, zero, suc, ◌+◌, ◌-◌, ◌%◌, ◌^◌, Bool, true, false, ◌&&◌, not, Option, none, some, List, [], ◌∷◌,
  ◌++◌, ◌==◌, if◌then◌else◌,
}
use g14_os_project.Prelude.Table.{update}
use g14_os_project.Sleeplock.{Sleeplock, initsleeplock, acquiresleep, holdingsleep, releasesleep}

-- NBUF
abbrev pub nbuf : ℕ
nbuf = 30

pub record Buf (B : Type 0) : Type 0 where
  pub valid : Bool
  pub dev : ℕ
  pub blockno : ℕ
  pub lock : Sleeplock
  pub refcnt : ℕ
  pub content : B

pub record Bcache (B : Type 0) : Type 0 where
  pub buf : ℕ → Buf B
  pub lru : List ℕ

-- How `bread` ends: in the panic of `bget`, asleep in `acquiresleep` on the lock of a buffer, or with
-- a locked buffer.
pub data Bread (B : Type 0) : Type 0 where
  panics : Bread B
  waits : Bcache B → ℕ → Bread B
  locked : Bcache B → ℕ → Bread B

abbrev pub holds_block : {B : Type 0} → ℕ → ℕ → Buf B → Bool
holds_block dev blockno b = b.dev == dev && b.blockno == blockno

abbrev pub is_unused : {B : Type 0} → Buf B → Bool
is_unused b = b.refcnt == 0

-- The loop of `binit`: each buffer goes in front.
unfoldable pub link_all : ℕ → List ℕ
link_all zero = []
link_all (suc n) = n ∷ link_all n

-- The other entries of the list.
unfoldable pub unlink : ℕ → List ℕ → List ℕ
unlink i [] = []
unlink i (j ∷ js) = let rest = unlink i js in if j == i then rest else j ∷ rest

unfoldable pub backward : List ℕ → List ℕ
backward [] = []
backward (i ∷ is) = backward is ++ (i ∷ [])

module _ {B : Type 0} where
  pub binit : (ℕ → Buf B) → Bcache B
  unfolding link_all
  binit zeroed = record {
    buf = λ i. record (zeroed i) { lock = initsleeplock };
    lru = link_all nbuf;
  }

  -- The first buffer of the list that passes the test.
  unfoldable pub scan : (Buf B → Bool) → (ℕ → Buf B) → List ℕ → Option ℕ
  scan test buf [] = none
  scan test buf (i ∷ is) = let rest = scan test buf is in if test (buf i) then some i else rest

  abbrev pub put_buf : Bcache B → ℕ → Buf B → Bcache B
  put_buf c i b = record c { buf = update c.buf i b }

  -- refcnt is a `uint`.
  abbrev pub more_refs : Buf B → Buf B
  more_refs b = record b { refcnt = (b.refcnt + 1) % 2 ^ 32 }

  abbrev pub fewer_refs : Buf B → Buf B
  fewer_refs b = record b { refcnt = (b.refcnt + 2 ^ 32 - 1) % 2 ^ 32 }

  abbrev pub recycled : ℕ → ℕ → Buf B → Buf B
  recycled dev blockno b = record b { dev = dev; blockno = blockno; valid = false; refcnt = 1 }

  -- `bget` under `bcache.lock`; its `acquiresleep` is in `locking`. `none` is the panic.
  pub bget : (dev blockno : ℕ) → Bcache B → Option (Bcache B × ℕ)
  bget dev blockno c = elim (scan (holds_block dev blockno) c.buf c.lru) [
    | some i ↦ some (put_buf c i (more_refs (c.buf i)), i)
    | none ↦ elim (scan is_unused c.buf (backward c.lru)) [
      | some i ↦ some (put_buf c i (recycled dev blockno (c.buf i)), i)
      | none ↦ none
    ]
  ]

  -- The rest of `bread`, with the buffer's lock held.
  pub fill : (disk : ℕ → ℕ → B) → ℕ → Bcache B → Bcache B
  fill disk i c =
      let b = c.buf i in
      if b.valid then c else put_buf c i (record b { content = disk b.dev b.blockno; valid = true })

  -- From the buffer that the list gave: `acquiresleep` at the end of `bget`, and the read.
  pub locking : (disk : ℕ → ℕ → B) → (me : ℕ) → Option (Bcache B × ℕ) → Bread B
  unfolding fill
  locking disk me none = panics
  locking disk me (some (c, i)) = elim (acquiresleep me (c.buf i).lock) [
    | none ↦ waits c i
    | some held ↦ locked (fill disk i (put_buf c i (record (c.buf i) { lock = held }))) i
  ]

  pub bread : (disk : ℕ → ℕ → B) → (me dev blockno : ℕ) → Bcache B → Bread B
  unfolding bget locking
  bread disk me dev blockno c = locking disk me (bget dev blockno c)

  -- `none` is the panic.
  pub bwrite : (disk : ℕ → ℕ → B) → (me i : ℕ) → Bcache B → Option (ℕ → ℕ → B)
  bwrite disk me i c =
      let b = c.buf i in
      if holdingsleep me b.lock
      then some (update disk b.dev (update (disk b.dev) b.blockno b.content))
      else none

  abbrev pub released : Buf B → Buf B
  released b = fewer_refs (record b { lock = releasesleep b.lock })

  pub brelse : (me i : ℕ) → Bcache B → Option (Bcache B)
  brelse me i c =
      let b = released (c.buf i) in
      if holdingsleep me (c.buf i).lock
      then some (record (put_buf c i b) { lru = if is_unused b then i ∷ unlink i c.lru else c.lru })
      else none

  pub bpin : ℕ → Bcache B → Bcache B
  bpin i c = put_buf c i (more_refs (c.buf i))

  pub bunpin : ℕ → Bcache B → Bcache B
  bunpin i c = put_buf c i (fewer_refs (c.buf i))
