-- ===== src/Commands/Echo.antt =====
-- custom_echo.c. Arguments are C strings: byte lists without the closing 0. `malloc` is taken to
-- succeed: the exit at its failure is left out.
pub mod Escapes
pub mod Quoted
use g14_os_project.Prelude.{
  ℕ, zero, suc, ◌+◌, ◌-◌, ◌*◌, ◌%◌, ◌^◌, ◌≤◌, ◌≡◌, refl, ap, ◌∙◌, Bool, true, false, ◌&&◌, ◌||◌,
  not, Option, none, some, List, [], ◌∷◌, ◌++◌, ◌==◌, if◌then◌else◌, length, arith, inl, inr,
  Bool-cases, leb, ltb, ◌⊎◌,
}
use g14_os_project.Commands.{until_nul, codes, newline, str_eq, is_option, letters}

abbrev pub backslash : ℕ
backslash = 92

abbrev pub is_octal : ℕ → Bool
is_octal d = leb b'0' d && leb d b'7'

-- The value of at most k more octal digits, and what is left.
unfoldable pub octal : (k : ℕ) → ℕ → List ℕ → ℕ × List ℕ
octal zero v s = (v, s)
octal (suc k) v [] = (v, [])
octal (suc k) v (d ∷ s) =
    let more = octal k (v * 8 + (d - b'0')) s in if is_octal d then more else (v, d ∷ s)

-- The bytes written for a backslash and the byte e after it, and what is left.
unfoldable pub escape : ℕ → List ℕ → List ℕ × List ℕ
unfolding octal
escape e s =
    if e == backslash
    then (backslash ∷ [], s)
    else if e == b'n'
    then (10 ∷ [], s)
    else if e == b't'
    then (9 ∷ [], s)
    else if e == b'r'
    then (13 ∷ [], s)
    else if e == b'a'
    then (7 ∷ [], s)
    else if e == b'b'
    then (8 ∷ [], s)
    else if e == b'0'
    then (let (v, rest) = octal 3 0 s in (v % 2 ^ 8 ∷ [], rest))
    else (backslash ∷ e ∷ [], s)

-- One round of the loop of `process_escapes`.
unfoldable pub process_one : ℕ → List ℕ → List ℕ × List ℕ
unfolding escape
process_one c [] = (c ∷ [], [])
process_one c (e ∷ s) = if c == backslash then escape e s else (c ∷ [], e ∷ s)

abbrev pub append_to : List ℕ → Option (List ℕ) → Option (List ℕ)
append_to out none = none
append_to out (some later) = some (out ++ later)

-- The loop; `none` when the fuel ends before the string.
unfoldable pub process_loop : ℕ → List ℕ → Option (List ℕ)
process_loop fuel [] = some []
process_loop zero (c ∷ s) = none
process_loop (suc fuel) (c ∷ s) =
    append_to ((process_one c s).0) (process_loop fuel ((process_one c s).1))

unfoldable pub process_escapes : List ℕ → Option (List ℕ)
unfolding process_loop
process_escapes src = process_loop (length src) src

pub record Flags : Type 0 where
  pub no_newline : Bool
  pub escape_enabled : Bool

-- The flags after one option, and whether all its letters were flags.
unfoldable pub set_flags : List ℕ → Flags → Flags × Bool
set_flags [] f = (f, true)
set_flags (c ∷ s) f =
    let for_n = set_flags s (record f { no_newline = true }) in
    let for_e = set_flags s (record f { escape_enabled = true }) in
    let for_E = set_flags s (record f { escape_enabled = false }) in
    if c == b'n'
    then for_n
    else if c == b'e'
    then for_e
    else if c == b'E'
    then for_E
    else (f, false)

unfoldable pub shown : Flags → List ℕ → Option (List ℕ)
unfolding process_escapes
shown f a =
    if f.escape_enabled
    then elim (process_escapes a) [ none ↦ none | some buf ↦ some (until_nul buf) ]
    else some a

abbrev pub both : Option (List ℕ) → Option (List ℕ) → Option (List ℕ)
both none later = none
both (some s) later = append_to s later

-- The strings with a space between two of them.
unfoldable pub spaced : Flags → List (List ℕ) → Option (List ℕ)
unfolding shown
spaced f [] = some []
spaced f (a ∷ []) = shown f a
spaced f (a ∷ b ∷ rest) =
    let later = spaced f (b ∷ rest) in both (shown f a) (append_to (b' ' ∷ []) later)

unfoldable pub say : Flags → List (List ℕ) → Option (List ℕ)
unfolding spaced
say f args = both (spaced f args) (some (if f.no_newline then [] else newline ∷ []))

-- What is printed: the texts of `print_usage` and `print_version`, or the strings.
pub data Said : Type 0 where
  usage : Said
  version : Said
  text : Option (List ℕ) → Said

-- The loop over the options.
unfoldable pub read_options : Flags → List (List ℕ) → Said
unfolding say set_flags
read_options f [] = text (say f [])
read_options f (a ∷ rest) =
    let next = read_options ((set_flags (letters a) f).0) rest in
    if str_eq a (codes "--help")
    then usage
    else if str_eq a (codes "--version")
    then version
    else if is_option a
    then if (set_flags (letters a) f).1
      then next
      else text (say ((set_flags (letters a) f).0) (a ∷ rest))
    else text (say f (a ∷ rest))

unfoldable pub custom_echo : List (List ℕ) → Said
unfolding read_options
custom_echo args = read_options (record { no_newline = false; escape_enabled = false }) args
