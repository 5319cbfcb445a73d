-- ===== src/Commands/Tests.antt =====
-- The text commands on concrete inputs.
use g14_os_project.Prelude.{
  ℕ, ◌≡◌, ◌⊎◌, ltb, if◌then◌else◌, refl, Bool, true, false, none, some, List, [], ◌∷◌, ◌++◌, ◌==◌,
  ◌||◌, length,
}
use g14_os_project.Prelude.Split.{pieces}
use g14_os_project.Commands.{codes}
use g14_os_project.Commands.Wc
use g14_os_project.Commands.Wc.Counting
use g14_os_project.Commands.Echo
use g14_os_project.Commands.Echo.Escapes
use g14_os_project.Commands.Echo.Quoted
use g14_os_project.Commands.Grep
use g14_os_project.Commands.Grep.Lines
use g14_os_project.Commands.Grep.Select
use g14_os_project.Commands.Grep.Main

abbrev space : ℕ → Bool
space c = c == 32 || c == 10

abbrev some_text : List ℕ
some_text = codes "ab c" ++ 10 ∷ codes " d"

count_stream_lem_example :
    Wc.count_stream space some_text ≡ record { lines = 1; words = 3; chars = 7 }
unfolding pieces
count_stream_lem_example = Counting.count_stream_lem space some_text

escape_octal : Echo.process_escapes (codes "\\0101\\x") ≡ some (codes "A\\x")
unfolding Echo.process_escapes Echo.process_loop Echo.process_one Echo.escape Echo.octal
escape_octal = refl

-- `-nx` is printed as a word, and its n still takes the newline away.
echo_partial_option : Echo.custom_echo (codes "-nx" ∷ []) ≡ Echo.Said.text (some (codes "-nx"))
unfolding Echo.custom_echo Echo.read_options Echo.set_flags Echo.say Echo.spaced Echo.shown
echo_partial_option = refl

custom_echo-quote_example :
    Echo.custom_echo (codes "-e" ∷ codes "a\\\\b" ∷ codes "c" ∷ [])
    ≡ Echo.Said.text (some (codes "a\\b c" ++ 10 ∷ []))
unfolding Escapes.quote
custom_echo-quote_example = Quoted.custom_echo-quote (codes "a\\b") (codes "c" ∷ []) refl refl

abbrev with_a : List ℕ → Bool
with_a [] = false
with_a (c ∷ s) = c == b'a' || with_a s

abbrev numbered : Grep.GrepOptions
numbered = record Main.no_options { line_number = true }

abbrev always : ℕ → Bool
always n = true

read_line-outcome_example :
    (Grep.read_line (λ n. ltb n 1000) some_text ≡ Grep.Reading.failed)
    ⊎ (Grep.read_line (λ n. ltb n 1000) some_text
        ≡ Grep.Reading.line (codes "ab c" ++ 10 ∷ []) (codes " d"))
unfolding Lines.cut_line
read_line-outcome_example = Lines.read_line-outcome (λ n. ltb n 1000) some_text

process_stream_lem_example :
    Grep.process_stream with_a none numbered false always some_text
    ≡ some (Grep.Printed.line_of none (some 1) (codes "ab c" ++ 10 ∷ []) ∷ [])
unfolding Select.lines Grep.matched
process_stream_lem_example =
    Select.process_stream_lem with_a none numbered false always (λ n. refl) some_text

-- With -l on the standard input there is no file name to print.
list_stdin :
    Main.custom_grep always
      (λ icase pattern. some with_a)
      (λ name. none)
      some_text
      (codes "-l" ∷ codes "a" ∷ [])
    ≡ some (Grep.Printed.name_of none ∷ [], 0)
unfolding Main.custom_grep Main.parse_options Main.set_options Grep.process_stream Grep.stream_loop
    Grep.read_line Grep.read_loop Grep.grow Grep.finish Grep.matched
list_stdin = refl

wc_files :
    Wc.custom_wc space
      (λ name. if length name == 1 then some some_text else none)
      []
      (codes "-l" ∷ codes "f" ∷ codes "none" ∷ codes "g" ∷ [])
    ≡ (
      record { numbers = 1 ∷ []; label = some (codes "f") }
          ∷ record { numbers = 1 ∷ []; label = some (codes "g") }
          ∷ record { numbers = 2 ∷ []; label = some (codes "total") }
          ∷ [],
      1,
    )
unfolding Wc.custom_wc Wc.parse_options Wc.set_flags Wc.run Wc.process_files Wc.count_stream
    Wc.count_from Wc.print_counts
wc_files = refl
