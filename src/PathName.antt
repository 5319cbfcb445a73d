-- ===== src/PathName.antt =====
-- kernel/fs.c: paths. A path is a C string, a byte list without the closing 0; `name` is the buffer of
-- DIRSIZ bytes. What `namex` does with inodes is the record `Tree S`, an inode being a number and
-- `none` a panic.
pub mod Elements
pub mod Walk
mod Tests
use g14_os_project.Prelude.{
  ℕ, zero, suc, ◌+◌, Bool, true, false, ◌&&◌, not, Option, none, some, List, [], ◌∷◌, ◌++◌, ◌==◌,
  if◌then◌else◌, length, take, drop, leb,
}

abbrev pub dirsiz : ℕ
dirsiz = 14

abbrev pub is_slash : ℕ → Bool
is_slash c = c == b'/'

-- The first and the last loop of `skipelem`.
unfoldable pub skip_slashes : List ℕ → List ℕ
skip_slashes [] = []
skip_slashes (c ∷ s) = let rest = skip_slashes s in if is_slash c then rest else c ∷ s

-- The second loop: what it passes, and where it stops.
unfoldable pub take_elem : List ℕ → List ℕ × List ℕ
take_elem [] = ([], [])
take_elem (c ∷ s) = let (e, rest) = take_elem s in if is_slash c then ([], c ∷ s) else (c ∷ e, rest)

unfoldable pub copy_name : List ℕ → List ℕ → List ℕ
copy_name name e =
    if leb dirsiz (length e) then take dirsiz e else e ++ 0 ∷ drop (length e + 1) name

unfoldable pub elem_of : List ℕ → List ℕ → Option (List ℕ × List ℕ)
unfolding take_elem copy_name skip_slashes
elem_of [] name = none
elem_of (c ∷ s) name =
    some (skip_slashes (take_elem (c ∷ s)).1, copy_name name (take_elem (c ∷ s)).0)

-- The path after the element, and the name; `none` is the null pointer.
unfoldable pub skipelem : List ℕ → List ℕ → Option (List ℕ × List ℕ)
unfolding elem_of skip_slashes
skipelem path name = elem_of (skip_slashes path) name

pub record Tree (S : Type 0) : Type 0 where
  -- iget(ROOTDEV, ROOTINO) and idup(myproc()->cwd)
  pub root : S → Option (ℕ × S)
  pub cwd : S → Option (ℕ × S)
  pub ilock : ℕ → S → Option S
  pub is_dir : ℕ → S → Bool
  pub dirlookup : ℕ → List ℕ → S → Option (Option ℕ × S)
  pub iunlock : ℕ → S → Option S
  pub iput : ℕ → S → Option S

-- One round of the loop of `namex`: a return, or the next inode.
pub data Visit (S : Type 0) : Type 0 where
  panics : Visit S
  returns : Option ℕ → S → Visit S
  enters : ℕ → S → Visit S

abbrev pub is_end : List ℕ → Bool
is_end [] = true
is_end (c ∷ s) = false

abbrev pub starts_at_root : List ℕ → Bool
starts_at_root [] = false
starts_at_root (c ∷ s) = is_slash c

module _ {S : Type 0} (tree : Tree S) (parent : Bool) where
  abbrev pub iunlockput : ℕ → S → Option S
  iunlockput ip s = elim (tree.iunlock ip s) [ none ↦ none | some s₁ ↦ tree.iput ip s₁ ]

  abbrev pub after : Option S → (S → Visit S) → Visit S
  after none k = panics
  after (some s) k = k s

  unfoldable pub visit : (last : Bool) (name : List ℕ) → ℕ → S → Visit S
  visit last name ip s = after (tree.ilock ip s) (λ s₁.
      if not (tree.is_dir ip s₁)
      then after (iunlockput ip s₁) (returns none)
      else if parent && last
      then after (tree.iunlock ip s₁) (returns (some ip))
      else elim (tree.dirlookup ip name s₁) [
        | none ↦ panics
        | some (none, s₂) ↦ after (iunlockput ip s₂) (returns none)
        | some (some next, s₂) ↦ after (iunlockput ip s₂) (enters next)
      ])

  -- After the loop.
  unfoldable pub leave : (name : List ℕ) → ℕ → S → Option (Option ℕ × List ℕ × S)
  leave name ip s =
      if parent
      then elim (tree.iput ip s) [ none ↦ none | some s₁ ↦ some (none, name, s₁) ]
      else some (some ip, name, s)

  abbrev pub Result : Type 0
  Result = Option (Option ℕ × List ℕ × S)

  -- After a visit, with the rounds that follow in the next inode.
  abbrev pub continue : List ℕ → (ℕ → S → Result) → Visit S → Result
  continue name later panics = none
  continue name later (returns r s) = some (r, name, s)
  continue name later (enters next s) = later next s

  -- The loop; `none` is a panic, or the end of the fuel.
  unfoldable pub namex_loop : ℕ → (path name : List ℕ) → ℕ → S → Result
  unfolding skipelem visit leave
  namex_loop zero path name ip s = none
  namex_loop (suc fuel) path name ip s = elim (skipelem path name) [
    | none ↦ leave name ip s
    | some (rest, name₁) ↦
        continue name₁ (namex_loop fuel rest name₁) (visit (is_end rest) name₁ ip s)
  ]

  abbrev pub start : (ℕ → S → Result) → Option (ℕ × S) → Result
  start loop none = none
  start loop (some (ip, s)) = loop ip s

  unfoldable pub namex : (path name : List ℕ) → S → Result
  unfolding namex_loop
  namex path name s =
      start (namex_loop (suc (length path)) path name)
        (if starts_at_root path then tree.root s else tree.cwd s)

module _ {S : Type 0} (tree : Tree S) where
  -- `name` is an uninitialised buffer.
  unfoldable pub namei : (path name : List ℕ) → S → Option (Option ℕ × List ℕ × S)
  unfolding namex
  namei path name s = namex tree false path name s

  unfoldable pub nameiparent : (path name : List ℕ) → S → Option (Option ℕ × List ℕ × S)
  unfolding namex
  nameiparent path name s = namex tree true path name s
