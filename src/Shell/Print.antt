-- ===== src/Shell/Print.antt =====
-- user/sh.c: a command written as a line, with one space between tokens. A part is put in parentheses
-- where the grammar of the parser asks for it.
use g14_os_project.Prelude.{
  ℕ, ◌<◌, ◌≡◌, refl, Bool, true, false, ◌&&◌, ◌||◌, List, [], ◌∷◌, ◌++◌, ◌==◌, if◌then◌else◌, ltb,
  length, get_or, arith,
}
use g14_os_project.Shell.{
  Cmd, exec, redir, pipe, list, back, strchr, whitespace, skip, is_word_char, peek, max_args,
}

abbrev pub Tokens : Type 0
Tokens = List (List ℕ)

unfoldable pub spaced : Tokens → List ℕ
spaced [] = []
spaced (t ∷ ts) = 32 ∷ t ++ spaced ts

unfoldable pub text : Tokens → List ℕ
unfolding spaced
text [] = []
text (t ∷ ts) = t ++ spaced ts

-- The grammar: 0 a line, 1 commands with `&`, 2 a pipe, 3 a command with redirections.
unfoldable pub grouped : (level form : ℕ) → Tokens → Tokens
grouped level form ts = if ltb form level then (40 ∷ []) ∷ ts ++ ((41 ∷ []) ∷ []) else ts

unfoldable pub operator : (mode : ℕ) → List ℕ
operator mode = if mode == 0 then 60 ∷ [] else if mode == 1537 then 62 ∷ [] else 62 ∷ 62 ∷ []

unfoldable pub tokens : (level : ℕ) → Cmd → Tokens
unfolding grouped operator
tokens level (exec argv) = argv
tokens level (redir cmd file mode fd) = tokens 3 cmd ++ (operator mode ∷ file ∷ [])
tokens level (pipe left right) = grouped level 2 (tokens 3 left ++ (124 ∷ []) ∷ tokens 2 right)
tokens level (list left right) = grouped level 0 (tokens 1 left ++ (59 ∷ []) ∷ tokens 0 right)
tokens level (back cmd) = grouped level 1 (tokens 1 cmd ++ (38 ∷ []) ∷ [])

unfoldable pub print : Cmd → List ℕ
unfolding tokens text
print cmd = text (tokens 0 cmd)

unfoldable pub AreWordChars : List ℕ → Type 0
AreWordChars [] = Unit
AreWordChars (a ∷ w) = (0 < a) × (is_word_char a ≡ true) × AreWordChars w

abbrev pub IsWord : List ℕ → Type 0
IsWord w = (0 < length w) × AreWordChars w

unfoldable pub AreWords : Tokens → Type 0
AreWords [] = Unit
AreWords (w ∷ ws) = IsWord w × AreWords ws

-- The mode and the descriptor that one of the three redirections has.
abbrev pub is_redir : (mode fd : ℕ) → Bool
is_redir mode fd = (mode == 0 && fd == 0) || ((mode == 1537 && fd == 1) || (mode == 513 && fd == 1))

-- A command that a line can name: words that are no symbols, and not too many arguments.
unfoldable pub IsNamed : Cmd → Type 0
unfolding AreWords
IsNamed (exec argv) = (length argv < max_args) × AreWords argv
IsNamed (redir cmd file mode fd) = (is_redir mode fd ≡ true) × IsWord file × IsNamed cmd
IsNamed (pipe left right) = IsNamed left × IsNamed right
IsNamed (list left right) = IsNamed left × IsNamed right
IsNamed (back cmd) = IsNamed cmd

-- The first byte, 0 for none.
abbrev pub next : Tokens → ℕ
next [] = 0
next ([] ∷ ts) = 0
next ((a ∷ t) ∷ ts) = a

-- No token is empty or starts with whitespace.
unfoldable pub AreClean : Tokens → Type 0
unfolding strchr
AreClean [] = Unit
AreClean (t ∷ ts) =
    (0 < length t) × (0 < get_or t 0 0) × (strchr whitespace (get_or t 0 0) ≡ false) × AreClean ts

pub AreClean-append : (ts us : Tokens) → AreClean ts → AreClean us → AreClean (ts ++ us)
unfolding AreClean
AreClean-append [] us c d = d
AreClean-append (t ∷ ts) us c d = (c.0, c.1, c.2, AreClean-append ts us c.3 d)

pub skip-text : (ts : Tokens) → AreClean ts → skip (text ts) ≡ text ts
unfolding text skip AreClean
skip-text [] c = refl
skip-text ([] ∷ ts) c = absurd (omega (arith, c.0))
skip-text ((a ∷ t) ∷ ts) c = rw (skip, c.2) refl

pub skip-spaced : (ts : Tokens) → AreClean ts → skip (spaced ts) ≡ text ts
unfolding spaced skip AreClean text
skip-spaced [] c = refl
skip-spaced (t ∷ ts) c = skip-text (t ∷ ts) c

pub peek-text :
    (ts : Tokens) (toks : List ℕ)
    → AreClean ts
    → peek (text ts) toks ≡ (if next ts == 0 then false else strchr toks (next ts))
unfolding peek text AreClean
peek-text [] toks c = refl
peek-text ([] ∷ ts) toks c = absurd (omega (arith, c.0))
peek-text ((a ∷ t) ∷ ts) toks c =
    let some_byte : a == 0 ≡ false = (let lt = c.1 in ground arith) in
    rw (peek, skip, c.2, some_byte) refl
