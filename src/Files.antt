-- ===== src/Files.antt =====
-- kernel/file.c, and the descriptors of sysfile.c. A file is named by its index in `ftable.file`;
-- `ofile` is the table of one process. The pipes, devices and inodes behind the files are the record
-- `Targets W`. `none` is a panic, and a result is a C int.
pub mod Counts
pub mod Descriptors
pub mod Transfer
mod Tests
use g14_os_project.Prelude.{
  ℕ, zero, suc, ◌+◌, ◌-◌, ◌%◌, ◌^◌, Bool, true, false, ◌&&◌, ◌||◌, not, Option, none, some, ◌==◌,
  if◌then◌else◌, ltb, leb, min,
}
use g14_os_project.Prelude.Int.{ℤ, pos, negsuc, minus_one, pos_part, neg_part, inc_ℤ, dec_ℤ, ltb_ℤ}
use g14_os_project.Prelude.Table.{update, find_from}

-- NFILE, NOFILE and NDEV
abbrev pub nfile : ℕ
nfile = 100

abbrev pub nofile : ℕ
nofile = 16

abbrev pub ndev : ℕ
ndev = 10

-- ((MAXOPBLOCKS-1-1-2) / 2) * BSIZE
abbrev pub max_write : ℕ
max_write = 3072

pub data FdType : Type 0 where
  fd_none : FdType
  fd_pipe : FdType
  fd_inode : FdType
  fd_device : FdType

pub record File : Type 0 where
  pub type : FdType
  pub ref : ℤ
  pub readable : Bool
  pub writable : Bool
  pub pipe : ℕ
  pub ip : ℕ
  pub off : ℕ
  pub major : ℤ

pub record Targets (W : Type 0) : Type 0 where
  pub pipeclose : (pipe : ℕ) → (writable : Bool) → W → W
  pub piperead : (pipe addr : ℕ) → ℤ → W → ℤ × W
  pub pipewrite : (pipe addr : ℕ) → ℤ → W → ℤ × W
  -- devsw[major].read and .write, `none` for a null pointer
  pub devread : ℕ → Option (ℕ → ℤ → W → ℤ × W)
  pub devwrite : ℕ → Option (ℕ → ℤ → W → ℤ × W)
  pub begin_op : W → W
  pub end_op : W → W
  pub ilock : (ip : ℕ) → W → W
  pub iunlock : (ip : ℕ) → W → W
  pub iput : (ip : ℕ) → W → W
  pub readi : (ip addr off : ℕ) → ℤ → W → ℤ × W
  pub writei : (ip addr off n : ℕ) → W → ℤ × W

pub record Files (W : Type 0) : Type 0 where
  pub file : ℕ → File
  pub world : W

abbrev pub is_free : File → Bool
is_free f = pos_part f.ref == 0 && neg_part f.ref == 0

module _ {W : Type 0} where
  abbrev pub put_file : Files W → ℕ → File → Files W
  put_file s f v = record s { file = update s.file f v }

  -- The file and the table; `none` when no entry is free.
  unfoldable pub filealloc : Files W → Option (ℕ × Files W)
  filealloc s = elim (find_from is_free s.file nfile 0) [
    | none ↦ none
    | some f ↦ some (f, put_file s f (record (s.file f) { ref = pos 1 }))
  ]

  unfoldable pub filedup : ℕ → Files W → Option (Files W)
  filedup f s =
      if ltb_ℤ (s.file f).ref (pos 1)
      then none
      else some (put_file s f (record (s.file f) { ref = inc_ℤ (s.file f).ref }))

module _ {W : Type 0} (to : Targets W) where
  -- What is behind a file whose last reference is gone.
  unfoldable pub close_target : File → W → W
  close_target ff w = elim ff.type [
    | fd_pipe ↦ to.pipeclose ff.pipe ff.writable w
    | fd_inode ↦ to.end_op (to.iput ff.ip (to.begin_op w))
    | fd_device ↦ to.end_op (to.iput ff.ip (to.begin_op w))
    | fd_none ↦ w
  ]

  unfoldable pub fileclose : ℕ → Files W → Option (Files W)
  unfolding close_target
  fileclose f s =
      if ltb_ℤ (s.file f).ref (pos 1)
      then none
      else if ltb_ℤ (pos 0) (dec_ℤ (s.file f).ref)
      then some (put_file s f (record (s.file f) { ref = dec_ℤ (s.file f).ref }))
      else some (record {
        file = update s.file f (record (s.file f) { ref = pos 0; type = fd_none });
        world = close_target (s.file f) s.world;
      })

  -- f->off += r, a 32-bit word, when r > 0
  abbrev pub advance : ℕ → ℤ → Files W → Files W
  advance f r s = put_file s f (record (s.file f) {
    off = if ltb_ℤ (pos 0) r then ((s.file f).off + pos_part r) % 2 ^ 32 else (s.file f).off;
  })

  abbrev pub with_world : Files W → W → Files W
  with_world s w = record s { world = w }

  abbrev pub device_of : (ℕ → Option (ℕ → ℤ → W → ℤ × W)) → ℤ → Option (ℕ → ℤ → W → ℤ × W)
  device_of functions (negsuc m) = none
  device_of functions (pos m) = if leb ndev m then none else functions m

  abbrev pub call : Option (ℕ → ℤ → W → ℤ × W) → ℕ → ℤ → Files W → ℤ × Files W
  call none addr n s = (minus_one, s)
  call (some go) addr n s = (let (r, w) = go addr n s.world in (r, with_world s w))

  unfoldable pub fileread : (f addr : ℕ) → ℤ → Files W → Option (ℤ × Files W)
  fileread f addr n s =
      let ff = s.file f in
      if not ff.readable then some (minus_one, s) else elim ff.type [
        | fd_pipe ↦ some (call (some (to.piperead ff.pipe)) addr n s)
        | fd_device ↦ some (call (device_of to.devread ff.major) addr n s)
        | fd_inode ↦
            (let (r, w) = to.readi ff.ip addr ff.off n (to.ilock ff.ip s.world) in
              some (r, advance f r (with_world s (to.iunlock ff.ip w))))
        | fd_none ↦ none
      ]

  -- One transaction of `filewrite`, on n1 bytes.
  unfoldable pub write_once : (f addr n1 : ℕ) → Files W → ℤ × Files W
  write_once f addr n1 s =
      let ff = s.file f in
      let (r, w) = to.writei ff.ip addr ff.off n1 (to.ilock ff.ip (to.begin_op s.world)) in
      (r, advance f r (with_world s (to.end_op (to.iunlock ff.ip w))))

  abbrev pub is_whole : ℤ → ℕ → Bool
  is_whole r n1 = pos_part r == n1 && neg_part r == 0

  -- The loop from byte i on; `none` when the fuel ends.
  unfoldable pub write_loop : ℕ → (f addr n i : ℕ) → Files W → Option (ℕ × Files W)
  unfolding write_once
  write_loop zero f addr n i s = if ltb i n then none else some (i, s)
  write_loop (suc fuel) f addr n i s =
      let n1 = min (n - i) max_write in
      let done = write_once f (addr + i) n1 s in
      let rest = write_loop fuel f addr n (i + n1) done.1 in
      if ltb i n then if is_whole done.0 n1 then rest else some (i, done.1) else some (i, s)

  abbrev pub finished : ℤ → Option (ℕ × Files W) → Option (ℤ × Files W)
  finished n none = none
  finished n (some (i, s)) = some (if is_whole n i then n else minus_one, s)

  unfoldable pub filewrite : (f addr : ℕ) → ℤ → Files W → Option (ℤ × Files W)
  unfolding write_loop
  filewrite f addr n s =
      let ff = s.file f in
      if not ff.writable then some (minus_one, s) else elim ff.type [
        | fd_pipe ↦ some (call (some (to.pipewrite ff.pipe)) addr n s)
        | fd_device ↦ some (call (device_of to.devwrite ff.major) addr n s)
        | fd_inode ↦ finished n (write_loop (pos_part n) f addr (pos_part n) 0 s)
        | fd_none ↦ none
      ]

-- The descriptors of a process: NOFILE entries, `none` a null pointer.
abbrev pub FdTable : Type 0
FdTable = ℕ → Option ℕ

-- The file of descriptor fd; `none` is -1.
unfoldable pub argfd : ℤ → FdTable → Option (ℕ × ℕ)
argfd (negsuc n) ofile = none
argfd (pos fd) ofile =
    if leb nofile fd then none else elim (ofile fd) [ none ↦ none | some f ↦ some (fd, f) ]

abbrev pub is_null : Option ℕ → Bool
is_null none = true
is_null (some f) = false

unfoldable pub fdalloc : ℕ → FdTable → Option (ℕ × FdTable)
fdalloc f ofile = elim (find_from is_null ofile nofile 0) [
  | none ↦ none
  | some fd ↦ some (fd, update ofile fd (some f))
]

pub record Process (W : Type 0) : Type 0 where
  pub files : Files W
  pub ofile : FdTable

module _ {W : Type 0} where
  -- After `argfd`.
  unfoldable pub dup_open : Option (ℕ × ℕ) → Process W → Option (ℤ × Process W)
  unfolding fdalloc filedup
  dup_open none p = some (minus_one, p)
  dup_open (some (old, f)) p = elim (fdalloc f p.ofile) [
    | none ↦ some (minus_one, p)
    | some (new, ofile) ↦ elim (filedup f p.files) [
      | none ↦ none
      | some files ↦ some (pos new, record { files = files; ofile = ofile })
    ]
  ]

  unfoldable pub sys_dup : ℤ → Process W → Option (ℤ × Process W)
  unfolding argfd dup_open
  sys_dup fd p = dup_open (argfd fd p.ofile) p

  unfoldable pub close_open : Targets W → Option (ℕ × ℕ) → Process W → Option (ℤ × Process W)
  unfolding fileclose
  close_open to none p = some (minus_one, p)
  close_open to (some (old, f)) p = elim (fileclose to f p.files) [
    | none ↦ none
    | some files ↦ some (pos 0, record { files = files; ofile = update p.ofile old none })
  ]

  unfoldable pub sys_close : Targets W → ℤ → Process W → Option (ℤ × Process W)
  unfolding argfd close_open
  sys_close to fd p = close_open to (argfd fd p.ofile) p
