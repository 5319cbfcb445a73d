-- ===== src/Commands/Wc.antt =====
-- custom_wc.c. A row is one call of `print_counts`: the numbers it prints, and its label.
pub mod Counting
use g14_os_project.Prelude.{
  ℕ, suc, ◌+◌, ◌≡◌, refl, ◌∙◌, Bool, true, false, ◌&&◌, ◌||◌, not, Option, none, some, List, [],
  ◌∷◌, ◌++◌, ◌==◌, if◌then◌else◌, length, arith, inl, inr, Bool-cases, ltb,
}
use g14_os_project.Prelude.Split.{pieces, add_letter, is_word}
use g14_os_project.Prelude.Table.{one_if}
use g14_os_project.Commands.{codes, newline, is_option, letters}

pub record Counts : Type 0 where
  pub lines : ℕ
  pub words : ℕ
  pub chars : ℕ

abbrev pub no_counts : Counts
no_counts = record { lines = 0; words = 0; chars = 0 }

pub record Flags : Type 0 where
  pub flag_lines : Bool
  pub flag_words : Bool
  pub flag_chars : Bool

pub record Row : Type 0 where
  pub numbers : List ℕ
  pub label : Option (List ℕ)

-- `None` of the flags set prints all three.
unfoldable pub print_counts : Flags → Counts → Option (List ℕ) → Row
print_counts f c label =
    let print_all = not f.flag_lines && not f.flag_words && not f.flag_chars in
    record {
      numbers =
          (if print_all || f.flag_lines then c.lines ∷ [] else [])
          ++ ((if print_all || f.flag_words then c.words ∷ [] else [])
              ++ (if print_all || f.flag_chars then c.chars ∷ [] else []));
      label = label;
    }

-- The flags that the letters of one option set; `none` at an invalid one.
unfoldable pub set_flags : List ℕ → Flags → Option Flags
set_flags [] f = some f
set_flags (c ∷ s) f =
    let for_lines = set_flags s (record f { flag_lines = true }) in
    let for_words = set_flags s (record f { flag_words = true }) in
    let for_chars = set_flags s (record f { flag_chars = true }) in
    if c == b'l'
    then for_lines
    else if c == b'w'
    then for_words
    else if c == b'c'
    then for_chars
    else none

-- The options, and the arguments from the first that is none on.
unfoldable pub parse_options : List (List ℕ) → Flags → Option (Flags × List (List ℕ))
parse_options [] f = some (f, [])
parse_options (a ∷ rest) f =
    if is_option a
    then elim (set_flags (letters a) f) [ none ↦ none | some g ↦ parse_options rest g ]
    else some (f, a ∷ rest)

module _ (isspace : ℕ → Bool) where
  -- The loop of `count_stream`.
  unfoldable pub count_from : List ℕ → Counts → Bool → Counts
  count_from [] c in_word = c
  count_from (ch ∷ s) c in_word =
      let c₁ = record c { chars = c.chars + 1; lines = c.lines + one_if (ch == newline) } in
      let after_space = count_from s c₁ false in
      let after_letter =
        count_from s (record c₁ { words = c₁.words + one_if (not in_word) }) true in
      if isspace ch then after_space else after_letter

  unfoldable pub count_stream : List ℕ → Counts
  unfolding count_from
  count_stream s = count_from s no_counts false

  abbrev pub add_counts : Counts → Counts → Counts
  add_counts total c = record {
    lines = total.lines + c.lines;
    words = total.words + c.words;
    chars = total.chars + c.chars;
  }

  module _ (content : List ℕ → Option (List ℕ)) (flags : Flags) where
    -- The loop over the files: rows, total and number of errors. `content` is what `fopen` and
    -- reading to the end give.
    unfoldable pub process_files : List (List ℕ) → Counts → List Row × Counts × ℕ
    process_files [] total = ([], total, 0)
    process_files (name ∷ names) total = elim (content name) [
      | none ↦ (let (rows, sum, errors) = process_files names total in (rows, sum, suc errors))
      | some s ↦
          let c = count_stream s in
          let (rows, sum, errors) = process_files names (add_counts total c) in
          (print_counts flags c (some name) ∷ rows, sum, errors)
    ]

    -- The rows printed and the exit status for the file arguments `names`.
    unfoldable pub run : (stdin : List ℕ) → List (List ℕ) → List Row × ℕ
    unfolding process_files
    run stdin [] = (print_counts flags (count_stream stdin) none ∷ [], 0)
    run stdin (name ∷ names) =
        let (rows, total, errors) = process_files (name ∷ names) no_counts in
        (
          rows
              ++ (if ltb 1 (length (name ∷ names))
                  then print_counts flags total (some (codes "total")) ∷ []
                  else []),
          if ltb 0 errors then 1 else 0,
        )

abbrev pub no_flags : Flags
no_flags = record { flag_lines = false; flag_words = false; flag_chars = false }

-- `main`: the rows printed and the exit status.
unfoldable pub custom_wc :
    (isspace : ℕ → Bool) (content : List ℕ → Option (List ℕ)) (stdin : List ℕ)
    → List (List ℕ)
    → List Row × ℕ
unfolding parse_options run
custom_wc isspace content stdin args = elim (parse_options args no_flags) [
  | none ↦ ([], 1)
  | some parsed ↦ run isspace content parsed.0 stdin parsed.1
]
