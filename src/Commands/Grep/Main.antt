-- ===== src/Commands/Grep/Main.antt =====
-- custom_grep.c: `main`. `compile` is regcomp, by whether case is ignored; `content` is what fopen
-- and reading to the end give.
use g14_os_project.Prelude.{
  ℕ, Bool, true, false, not, Option, none, some, List, [], ◌∷◌, ◌++◌, ◌==◌, if◌then◌else◌, length,
  ltb,
}
use g14_os_project.Commands.{codes, str_eq, is_option, letters}
use g14_os_project.Commands.Grep.{GrepOptions, Printed, process_stream}

abbrev pub no_options : GrepOptions
no_options = record {
  ignore_case = false;
  line_number = false;
  invert_match = false;
  count_only = false;
  list_files = false;
}

unfoldable pub set_options : List ℕ → GrepOptions → Option GrepOptions
set_options [] o = some o
set_options (c ∷ s) o =
    let for_i = set_options s (record o { ignore_case = true }) in
    let for_n = set_options s (record o { line_number = true }) in
    let for_v = set_options s (record o { invert_match = true }) in
    let for_c = set_options s (record o { count_only = true }) in
    let for_l = set_options s (record o { list_files = true }) in
    if c == b'i'
    then for_i
    else if c == b'n'
    then for_n
    else if c == b'v'
    then for_v
    else if c == b'c'
    then for_c
    else if c == b'l'
    then for_l
    else none

-- The end of the loop over the arguments: a return, or the pattern and the files.
pub data Parsed : Type 0 where
  returned : ℕ → Parsed
  search_for : GrepOptions → List ℕ → List (List ℕ) → Parsed

abbrev pub is_long : List ℕ → Bool
is_long [] = false
is_long (c ∷ []) = false
is_long (c ∷ d ∷ s) = d == b'-'

unfoldable pub parse_options : GrepOptions → List (List ℕ) → Parsed
unfolding set_options
parse_options o [] = returned 1
parse_options o (a ∷ rest) =
    if str_eq a (codes "--help")
    then returned 0
    else if not (is_option a)
    then search_for o a rest
    else if is_long a
    then returned 1
    else elim (set_options (letters a) o) [ none ↦ returned 1 | some o₁ ↦ parse_options o₁ rest ]

abbrev pub then_print :
    Option (List Printed) → Option (List Printed × ℕ) → Option (List Printed × ℕ)
then_print none later = none
then_print (some ps) none = none
then_print (some ps) (some later) = some (ps ++ later.0, later.1)

abbrev pub failing : Option (List Printed × ℕ) → Option (List Printed × ℕ)
failing none = none
failing (some (ps, status)) = some (ps, 1)

module _ (realloc : ℕ → Bool) (compile : Bool → List ℕ → Option (List ℕ → Bool))
    (content : List ℕ → Option (List ℕ)) where
  unfoldable pub grep_files :
      (matches : List ℕ → Bool) (o : GrepOptions) (multiple_files : Bool)
      → List (List ℕ)
      → Option (List Printed × ℕ)
  unfolding process_stream
  grep_files matches o multiple_files [] = some ([], 0)
  grep_files matches o multiple_files (name ∷ names) = elim (content name) [
    | none ↦ failing (grep_files matches o multiple_files names)
    | some s ↦
        then_print (process_stream matches (some name) o multiple_files realloc s)
          (grep_files matches o multiple_files names)
  ]

  -- What is printed, and the exit status; `none` at a write out of bounds.
  unfoldable pub custom_grep : (stdin : List ℕ) → List (List ℕ) → Option (List Printed × ℕ)
  unfolding parse_options grep_files process_stream
  custom_grep stdin args = elim (parse_options no_options args) [
    | returned status ↦ some ([], status)
    | search_for o pattern files ↦ elim (compile o.ignore_case pattern) [
      | none ↦ some ([], 1)
      | some matches ↦ elim files [
        | [] ↦ then_print (process_stream matches none o false realloc stdin) (some ([], 0))
        | name ∷ names ↦ grep_files matches o (ltb 1 (length (name ∷ names))) (name ∷ names)
      ]
    ]
  ]
