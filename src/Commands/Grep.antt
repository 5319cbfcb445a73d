-- ===== src/Commands/Grep.antt =====
-- custom_grep.c. `realloc n` says whether an allocation of n bytes succeeds; a compiled pattern is
-- its test on a C string.
pub mod Lines
pub mod Main
pub mod Select
use g14_os_project.Prelude.{
  ℕ, zero, suc, ◌+◌, ◌*◌, ◌≡◌, Bool, true, false, ◌&&◌, ◌||◌, not, Option, none, some, List, [],
  ◌∷◌, ◌++◌, ◌==◌, if◌then◌else◌, length, leb, ltb,
}
use g14_os_project.Commands.{newline, codes, str_eq, is_option, letters, until_nul}

pub record GrepOptions : Type 0 where
  pub ignore_case : Bool
  pub line_number : Bool
  pub invert_match : Bool
  pub count_only : Bool
  pub list_files : Bool

-- The bytes stored, and the size of the allocation that `data` points to (0 for NULL).
pub record LineBuffer : Type 0 where
  pub bytes : List ℕ
  pub capacity : ℕ

-- What `read_line` does: a line and the rest of the stream, -1 at the end or without memory, or
-- a write beyond the allocation.
pub data Reading : Type 0 where
  line : List ℕ → List ℕ → Reading
  failed : Reading
  overflow : Reading

module _ (realloc : ℕ → Bool) where
  -- The first `if` of the loop: room for the byte and the closing 0.
  unfoldable pub grow : LineBuffer → Option LineBuffer
  grow b =
      let new_capacity = if b.capacity == 0 then 128 else b.capacity * 2 in
      if leb b.capacity (length b.bytes + 1)
      then if realloc new_capacity then some (record b { capacity = new_capacity }) else none
      else some b

  abbrev pub append : ℕ → LineBuffer → LineBuffer
  append ch b = record b { bytes = b.bytes ++ ch ∷ [] }

  -- After the loop, at the end of the stream or not: the closing 0 is stored at `length`.
  unfoldable pub finish : (at_end : Bool) → LineBuffer → List ℕ → Reading
  finish at_end b rest =
      let fits = if ltb (length b.bytes) b.capacity then line b.bytes rest else overflow in
      if at_end && length b.bytes == 0
      then failed
      else if leb b.capacity (length b.bytes + 1)
      then if realloc (length b.bytes + 1)
        then if ltb (length b.bytes) (length b.bytes + 1) then line b.bytes rest else overflow
        else failed
      else fits

  unfoldable pub read_loop : List ℕ → LineBuffer → Reading
  unfolding grow finish
  read_loop [] b = finish true b []
  read_loop (ch ∷ s) b = elim (grow b) [
    | none ↦ failed
    | some b₁ ↦
        let more = read_loop s (append ch b₁) in
        if ltb (length b₁.bytes) b₁.capacity
        then if ch == newline then finish false (append ch b₁) s else more
        else overflow
  ]

  unfoldable pub read_line : List ℕ → Reading
  unfolding read_loop
  read_line s = read_loop s (record { bytes = []; capacity = 0 })

-- One `printf` of `process_stream`: a line with its label and number, a count, a file name.
pub data Printed : Type 0 where
  line_of : Option (List ℕ) → Option ℕ → List ℕ → Printed
  count_of : Option (List ℕ) → ℕ → Printed
  name_of : Option (List ℕ) → Printed

abbrev pub ends_line : List ℕ → Bool
ends_line [] = false
ends_line (c ∷ []) = c == newline
ends_line (c ∷ d ∷ s) = ends_line (d ∷ s)

module _ (matches : List ℕ → Bool) (filename : Option (List ℕ)) (options : GrepOptions)
    (multiple_files : Bool) where
  abbrev pub file_label : Option (List ℕ)
  file_label = if multiple_files then filename else none

  unfoldable pub matched : List ℕ → Bool
  matched l = if options.invert_match then not (matches (until_nul l)) else matches (until_nul l)

  -- `fputs` and the newline that a last line may lack.
  abbrev pub print_line : ℕ → List ℕ → Printed
  print_line n l =
      line_of file_label (if options.line_number then some n else none)
        (until_nul l ++ (if ends_line l then [] else newline ∷ []))

  -- After the loop.
  abbrev pub summary : ℕ → List Printed
  summary match_count = if options.count_only then count_of file_label match_count ∷ [] else []

  abbrev pub also : Printed → Option (List Printed) → Option (List Printed)
  also p none = none
  also p (some ps) = some (p ∷ ps)

  module _ (realloc : ℕ → Bool) where
    -- The loop over the lines; `none` when the fuel ends or a write overflows.
    unfoldable pub stream_loop : ℕ → List ℕ → ℕ → ℕ → Option (List Printed)
    unfolding read_line matched
    stream_loop zero s line_number match_count = none
    stream_loop (suc fuel) s line_number match_count = elim (read_line realloc s) [
      | failed ↦ some (summary match_count)
      | overflow ↦ none
      | line l rest ↦
          let skip = stream_loop fuel rest (line_number + 1) match_count in
          let next = stream_loop fuel rest (line_number + 1) (match_count + 1) in
          if matched l
          then if options.list_files
            then some (name_of filename ∷ [])
            else if options.count_only
            then next
            else also (print_line (line_number + 1) l) next
          else skip
    ]

    unfoldable pub process_stream : List ℕ → Option (List Printed)
    unfolding stream_loop
    process_stream s = stream_loop (suc (length s)) s 0 0
