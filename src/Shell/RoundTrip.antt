-- ===== src/Shell/RoundTrip.antt =====
-- user/sh.c: parsecmd reads back a command that is written as a line.
use g14_os_project.Prelude.{
  ℕ, suc, ◌≤◌, ◌≡◌, refl, subst, false, [], ◌∷◌, ◌++◌, ◌==◌, ltb, length, arith, inl, inr,
  Bool-cases, append-nil, length-append,
}
use g14_os_project.Shell.{
  Cmd, exec, redir, pipe, list, back, parsed, and_then, strchr, skip, parseline, parsecmd, enough,
}
use g14_os_project.Shell.Print.{
  Tokens, spaced, text, operator, grouped, tokens, print, IsNamed, AreClean, AreClean-append,
}
use g14_os_project.Shell.Words.{IsWord-clean, AreWords-clean}
use g14_os_project.Shell.Simple.{sees}
use g14_os_project.Shell.Core.{Core-exec, Core-redir}
use g14_os_project.Shell.Levels.{
  beyond_backs, ReadsSimple, Reads, pipe_of_simple, backs_of_pipe, simple_of_line, line_of_backs,
  list_line, back_backs, pipe_pipe, symbol_clean,
}

operator-clean : (mode : ℕ) (ts : Tokens) → AreClean ts → AreClean (operator mode ∷ ts)
unfolding operator AreClean
operator-clean mode ts c = elim (Bool-cases (mode == 0)) [
  | inl input ↦ rw (input) (omega arith, omega arith, refl, c)
  | inr other ↦ elim (Bool-cases (mode == 1537)) [
    | inl output ↦ rw (other, output) (omega arith, omega arith, refl, c)
    | inr both ↦ rw (other, both) (omega arith, omega arith, refl, c)
  ]
]

operator_no_block : (mode : ℕ) (ts : Tokens) → sees (operator mode ∷ ts) (40 ∷ []) ≡ false
unfolding operator strchr
operator_no_block mode ts = elim (Bool-cases (mode == 0)) [
  | inl input ↦ rw (input) refl
  | inr other ↦ elim (Bool-cases (mode == 1537)) [
    | inl output ↦ rw (other, output) refl
    | inr both ↦ rw (other, both) refl
  ]
]

nil_clean : AreClean []
unfolding AreClean
nil_clean = tt

grouped-clean : (level form : ℕ) (ts : Tokens) → AreClean ts → AreClean (grouped level form ts)
unfolding grouped strchr
grouped-clean level form ts c = elim (Bool-cases (ltb form level)) [
  | inl group ↦ rw (group) (
      symbol_clean 40 (ts ++ ((41 ∷ []) ∷ [])) refl
        (AreClean-append ts ((41 ∷ []) ∷ []) c (symbol_clean 41 [] refl nil_clean)))
  | inr plain ↦ rw (plain) c
]

tokens-clean : (cmd : Cmd) (level : ℕ) → IsNamed cmd → AreClean (tokens level cmd)
unfolding tokens IsNamed strchr
tokens-clean (exec argv) level named =
    subst (λ l. AreClean l) (append-nil argv) (AreWords-clean argv [] named.1 nil_clean)
tokens-clean (redir cmd file mode fd) level named =
    AreClean-append (tokens 3 cmd) (operator mode ∷ file ∷ []) (tokens-clean cmd 3 named.2)
      (operator-clean mode (file ∷ []) (IsWord-clean file [] named.1 nil_clean))
tokens-clean (pipe left right) level named =
    grouped-clean level 2 (tokens 3 left ++ (124 ∷ []) ∷ tokens 2 right) (
      AreClean-append (tokens 3 left) ((124 ∷ []) ∷ tokens 2 right) (tokens-clean left 3 named.0)
        (symbol_clean 124 (tokens 2 right) refl (tokens-clean right 2 named.1)))
tokens-clean (list left right) level named =
    grouped-clean level 0 (tokens 1 left ++ (59 ∷ []) ∷ tokens 0 right) (
      AreClean-append (tokens 1 left) ((59 ∷ []) ∷ tokens 0 right) (tokens-clean left 1 named.0)
        (symbol_clean 59 (tokens 0 right) refl (tokens-clean right 0 named.1)))
tokens-clean (back cmd) level named = grouped-clean level 1 (tokens 1 cmd ++ (38 ∷ []) ∷ []) (
    AreClean-append (tokens 1 cmd) ((38 ∷ []) ∷ []) (tokens-clean cmd 1 named)
      (symbol_clean 38 [] refl nil_clean))

-- A command whose tokens are the same at every level.
Reads-simple :
    (cmd : Cmd)
    → tokens 2 cmd ≡ tokens 3 cmd
    → tokens 1 cmd ≡ tokens 2 cmd
    → tokens 0 cmd ≡ tokens 1 cmd
    → ((f : ℕ) → beyond_backs cmd f ≡ f)
    → ReadsSimple cmd
    → Reads cmd
Reads-simple cmd same2 same1 same0 no_backs simple =
    let pipes = pipe_of_simple cmd same2 simple in
    let backs = backs_of_pipe cmd same1 no_backs pipes in
    record { simple = simple; pipes = pipes; backs = backs; line = line_of_backs cmd same0 backs }

all-Reads : (cmd : Cmd) → IsNamed cmd → Reads cmd
unfolding tokens grouped IsNamed
all-Reads (exec argv) named =
    Reads-simple (exec argv) refl refl refl (λ f. refl)
      (λ k f ts c unseen le. Core-exec argv k f ts named.0 named.1 c (omega arith) unseen)
all-Reads (redir cmd file mode fd) named =
    let size = length-append (tokens 3 cmd) (operator mode ∷ file ∷ []) in
    Reads-simple (redir cmd file mode fd) refl refl refl (λ f. refl)
      (λ k f ts c unseen le. Core-redir cmd file mode fd k f ts named.0 named.1 c (
        (all-Reads cmd named.2).simple (suc k) f (operator mode ∷ file ∷ ts)
          (operator-clean mode (file ∷ ts) (IsWord-clean file ts named.1 c))
          (operator_no_block mode (file ∷ ts)) (omega arith)))
all-Reads (pipe left right) named =
    let pipes =
      pipe_pipe left right (all-Reads left named.0).simple (all-Reads right named.1).pipes
        (tokens-clean right 2 named.1) in
    let backs = backs_of_pipe (pipe left right) refl (λ f. refl) pipes in
    let line = line_of_backs (pipe left right) refl backs in
    let simple =
      simple_of_line (pipe left right) refl (tokens-clean (pipe left right) 0 named) line in
    record { simple = simple; pipes = pipes; backs = backs; line = line }
all-Reads (list left right) named =
    let line =
      list_line left right (all-Reads left named.0).backs (all-Reads right named.1).line
        (tokens-clean right 0 named.1) in
    let simple =
      simple_of_line (list left right) refl (tokens-clean (list left right) 0 named) line in
    let pipes = pipe_of_simple (list left right) refl simple in
    let backs = backs_of_pipe (list left right) refl (λ f. refl) pipes in
    record { simple = simple; pipes = pipes; backs = backs; line = line }
all-Reads (back cmd) named =
    let backs = back_backs cmd (all-Reads cmd named).backs in
    let line = line_of_backs (back cmd) refl backs in
    let simple = simple_of_line (back cmd) refl (tokens-clean (back cmd) 0 named) line in
    let pipes = pipe_of_simple (back cmd) refl simple in
    record { simple = simple; pipes = pipes; backs = backs; line = line }

length-spaced : (ts : Tokens) → AreClean ts → length ts ≤ length (spaced ts)
unfolding spaced AreClean
length-spaced [] c = omega arith
length-spaced (t ∷ ts) c = omega (arith, length-spaced ts c.3, length-append t (spaced ts))

length-text : (ts : Tokens) → AreClean ts → length ts ≤ length (text ts)
unfolding text AreClean
length-text [] c = omega arith
length-text (t ∷ ts) c = omega (arith, c.0, length-spaced ts c.3, length-append t (spaced ts))

-- A command whose words hold no NUL, whitespace or symbol, with fewer than MAXARGS arguments in each
-- part, is what parsecmd reads from the line that it is printed as.
pub parsecmd-print : (cmd : Cmd) → IsNamed cmd → parsecmd (print cmd) ≡ parsed cmd []
unfolding parsecmd print and_then skip text
parsecmd-print cmd named =
    let clean = tokens-clean cmd 0 named in
    let whole =
      (all-Reads cmd named).line (enough (length (print cmd))) [] nil_clean refl
        (omega (arith, length-text (tokens 0 cmd) clean)) in
    let read : parseline (enough (length (print cmd))) (print cmd) ≡ parsed cmd [] =
      subst (λ ts. parseline (enough (length (print cmd))) (text ts) ≡ parsed cmd [])
        (append-nil (tokens 0 cmd)) whole in
    rw (parsecmd, read) refl
