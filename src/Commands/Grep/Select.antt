-- ===== src/Commands/Grep/Select.antt =====
-- custom_grep.c: `process_stream` against a description by the lines of the whole stream.
use g14_os_project.Prelude.{
  ℕ, zero, suc, ◌+◌, ◌≤◌, ◌<◌, ◌≡◌, refl, ap, Bool, true, false, ◌&&◌, Option, some, List, [], ◌∷◌,
  ◌++◌, ◌==◌, if◌then◌else◌, length, arith, inl, inr, Bool-cases,
}
use g14_os_project.Commands.{newline}
use g14_os_project.Commands.Grep.{
  GrepOptions, Printed, count_of, name_of, matched, print_line, file_label, stream_loop,
  process_stream, also,
}
use g14_os_project.Commands.Grep.Lines.{
  cut_line, cut_line-newline, cut_line-other, read_line-memory,
}

-- The lines of a text, each with its newline; the last may lack one.
abbrev pub join_line : ℕ → List (List ℕ) → List (List ℕ)
join_line c [] = (c ∷ []) ∷ []
join_line c (l ∷ ls) = (c ∷ l) ∷ ls

unfoldable pub lines : List ℕ → List (List ℕ)
lines [] = []
lines (c ∷ s) = let ls = lines s in if c == newline then (c ∷ []) ∷ ls else join_line c ls

abbrev pub concat : List (List ℕ) → List ℕ
concat [] = []
concat (l ∷ ls) = l ++ concat ls

concat-join_line : (c : ℕ) (ls : List (List ℕ)) → concat (join_line c ls) ≡ c ∷ concat ls
concat-join_line c [] = refl
concat-join_line c (l ∷ ls) = refl

lines-newline : (c : ℕ) (s : List ℕ) → (c == newline) ≡ true → lines (c ∷ s) ≡ (c ∷ []) ∷ lines s
unfolding lines
lines-newline c s e = rw e refl

lines-other : (c : ℕ) (s : List ℕ) → (c == newline) ≡ false → lines (c ∷ s) ≡ join_line c (lines s)
unfolding lines
lines-other c s e = rw e refl

-- The lines are a cut of the text: no byte is lost or added.
concat-lines : (s : List ℕ) → concat (lines s) ≡ s
unfolding lines
concat-lines [] = refl
concat-lines (c ∷ s) = elim (Bool-cases (c == newline)) [
  | inl e ↦ rw (e, concat-lines s) refl
  | inr e ↦ rw (e, concat-join_line c (lines s), concat-lines s) refl
]

lines-cut_line :
    (c : ℕ) (s : List ℕ)
    → (lines (c ∷ s) ≡ (cut_line (c ∷ s)).0 ∷ lines (cut_line (c ∷ s)).1)
      × (length (cut_line (c ∷ s)).1 ≤ length s)
unfolding lines cut_line
lines-cut_line c [] = elim (Bool-cases (c == newline)) [
  | inl e ↦ rw e (refl, omega arith)
  | inr e ↦ rw e (refl, omega arith)
]
lines-cut_line c (d ∷ s) = elim (Bool-cases (c == newline)) [
  | inl e ↦ rw (lines-newline c (d ∷ s) e, cut_line-newline c (d ∷ s) e) (refl, omega arith)
  | inr e ↦
      (let (eq, le) = lines-cut_line d s in
        rw (lines-other c (d ∷ s) e, cut_line-other c (d ∷ s) e, eq) (refl, omega arith))
]

add_suc : (m k : ℕ) → m + 1 + k ≡ m + suc k
add_suc m k = omega arith

add_zero : (m : ℕ) → m + 0 ≡ m
add_zero m = omega arith

module _ (matches : List ℕ → Bool) (filename : Option (List ℕ)) (options : GrepOptions)
    (multiple_files : Bool) where
  abbrev is_match : List ℕ → Bool
  is_match = matched matches filename options multiple_files

  -- The selected lines with their numbers, the first line having number n.
  abbrev pub select : ℕ → List (List ℕ) → List (ℕ × List ℕ)
  select n [] = []
  select n (l ∷ ls) = let rest = select (n + 1) ls in if is_match l then (n, l) ∷ rest else rest

  abbrev pub print_all : List (ℕ × List ℕ) → List Printed
  print_all [] = []
  print_all (nl ∷ rest) =
      print_line matches filename options multiple_files nl.0 nl.1 ∷ print_all rest

  abbrev pub is_any : List (ℕ × List ℕ) → Bool
  is_any [] = false
  is_any (nl ∷ rest) = true

  -- What is printed when m lines were selected before those of `found`.
  abbrev pub report : (list_files count_only : Bool) → ℕ → List (ℕ × List ℕ) → List Printed
  report list_files count_only m found =
      if list_files && is_any found
      then name_of filename ∷ []
      else if count_only
      then count_of (file_label matches filename options multiple_files) (m + length found) ∷ []
      else print_all found

  report-nil :
      (list_files count_only : Bool) (m : ℕ)
      → (if count_only
          then count_of (file_label matches filename options multiple_files) m ∷ []
          else [])
        ≡ report list_files count_only m []
  report-nil true true m = rw (add_zero m) refl
  report-nil true false m = refl
  report-nil false true m = rw (add_zero m) refl
  report-nil false false m = refl

  report-cons :
      (list_files count_only : Bool) (n m : ℕ) (l : List ℕ) (found : List (ℕ × List ℕ))
      (next : Option (List Printed))
      → next ≡ some (report list_files count_only (m + 1) found)
      → (if list_files
          then some (name_of filename ∷ [])
          else if count_only
          then next
          else also matches filename options multiple_files
              (print_line matches filename options multiple_files n l)
              next)
        ≡ some (report list_files count_only m ((n, l) ∷ found))
  report-cons true count_only n m l found next h = refl
  report-cons false true n m l found next h = rw (h, add_suc m (length found)) refl
  report-cons false false n m l found next h = rw h refl

  module _ (realloc : ℕ → Bool) (memory : (n : ℕ) → realloc n ≡ true) where
    stream_loop_lem :
        (fuel : ℕ) (s : List ℕ) (n m : ℕ)
        → length s < fuel
        → stream_loop matches filename options multiple_files realloc fuel s n m
          ≡ some (report options.list_files options.count_only m (select (n + 1) (lines s)))
    unfolding stream_loop lines
    stream_loop_lem zero s n m lt = absurd (omega arith)
    stream_loop_lem (suc fuel) [] n m lt =
        ap some (report-nil options.list_files options.count_only m)
    stream_loop_lem (suc fuel) (c ∷ s) n m lt =
        let (eq, le) = lines-cut_line c s in
        let l = (cut_line (c ∷ s)).0 in
        let rest = (cut_line (c ∷ s)).1 in
        elim (Bool-cases (is_match l)) [
          | inl e ↦
              rw (stream_loop, read_line-memory realloc memory c s, eq, e)
                (report-cons options.list_files options.count_only (n + 1) m l
                  (select (n + 1 + 1) (lines rest))
                  (stream_loop matches filename options multiple_files realloc fuel rest (n + 1)
                    (m + 1))
                  (stream_loop_lem fuel rest (n + 1) (m + 1) (omega arith)))
          | inr e ↦
              rw (stream_loop, read_line-memory realloc memory c s, eq, e)
                (stream_loop_lem fuel rest (n + 1) m (omega arith))
        ]

    -- When allocations succeed, grep of a stream prints what a description by its lines says: with
    -- `-l` the file's name if some line is selected, with `-c` the number of selected lines, else
    -- these lines with their labels and numbers. The loop ends, and no write overflows.
    pub process_stream_lem :
        (s : List ℕ)
        → process_stream matches filename options multiple_files realloc s
          ≡ some (report options.list_files options.count_only 0 (select 1 (lines s)))
    unfolding process_stream
    process_stream_lem s = stream_loop_lem (suc (length s)) s 0 0 (omega arith)
