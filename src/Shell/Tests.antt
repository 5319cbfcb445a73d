-- ===== src/Shell/Tests.antt =====
-- user/sh.c: tests and examples.
use g14_os_project.Prelude.{ℕ, true, List, [], ◌∷◌, ◌≡◌, refl, ◌<◌, arith}
use g14_os_project.Shell.{
  Cmd, exec, redir, pipe, list, back, parsed, syntax_error, and_then, strchr, skip, is_word_char,
  word_of, after_word, greater, token_at, gettoken, peek, redircmd, parseredirs, parseargs,
  parseline, parsecmd,
}
use g14_os_project.Shell.Print.{print, AreWordChars, AreWords, IsNamed}
use g14_os_project.Shell.Termination.{Ends, parsecmd-Ends}
use g14_os_project.Shell.RoundTrip.{parsecmd-print}

-- "a>b|(c;d&)"
abbrev line : List ℕ
line = 97 ∷ 62 ∷ 98 ∷ 124 ∷ 40 ∷ 99 ∷ 59 ∷ 100 ∷ 38 ∷ 41 ∷ []

abbrev a_word : List ℕ
a_word = 97 ∷ []

abbrev b_word : List ℕ
b_word = 98 ∷ []

-- a > b | ( c ; d & )
abbrev command : Cmd
command =
    pipe (redir (exec (a_word ∷ [])) b_word 1537 1)
      (list (exec ((99 ∷ []) ∷ [])) (back (exec ((100 ∷ []) ∷ []))))

parsecmd-test : parsecmd line ≡ parsed command []
unfolding parsecmd parseline parseredirs parseargs gettoken peek redircmd and_then token_at skip
    greater word_of after_word is_word_char strchr
parsecmd-test = refl

-- "a|(b"
parsecmd-unclosed : parsecmd (97 ∷ 124 ∷ 40 ∷ 98 ∷ []) ≡ syntax_error
unfolding parsecmd parseline parseredirs parseargs gettoken peek redircmd and_then token_at skip
    greater word_of after_word is_word_char strchr
parsecmd-unclosed = refl

parsecmd-Ends_example : Ends 0 (parsecmd line)
parsecmd-Ends_example = parsecmd-Ends line

one_word : (a : ℕ) → 0 < a → is_word_char a ≡ true → IsNamed (exec ((a ∷ []) ∷ []))
unfolding IsNamed AreWords AreWordChars
one_word a byte char = (omega arith, ((omega arith, (byte, char, tt)), tt))

command-IsNamed : IsNamed command
unfolding IsNamed AreWords AreWordChars is_word_char strchr
command-IsNamed = (
  (refl, (omega arith, (omega arith, refl, tt)), one_word 97 (omega arith) refl),
  (one_word 99 (omega arith) refl, one_word 100 (omega arith) refl),
)

parsecmd-print_example : parsecmd (print command) ≡ parsed command []
parsecmd-print_example = parsecmd-print command command-IsNamed
