-- ===== src/Shell.antt =====
-- user/sh.c: the parser of command lines. A line is the list of the bytes before its NUL, and a
-- position is what is left of it. A word is the bytes from q up to eq, which is what it is once
-- `nulterminate` has ended it there. The parser recurses on fuel.
pub mod Lexer
pub mod Termination
pub mod Print
pub mod Words
pub mod Simple
pub mod Core
pub mod Levels
pub mod RoundTrip
mod Tests
use g14_os_project.Prelude.{
  ℕ, zero, suc, ◌+◌, ◌*◌, Bool, true, false, ◌&&◌, ◌||◌, not, List, [], ◌∷◌, ◌++◌, ◌==◌,
  if◌then◌else◌, leb, length,
}

-- MAXARGS
abbrev pub max_args : ℕ
max_args = 10

-- The structs `execcmd`, `redircmd`, `pipecmd`, `listcmd` and `backcmd`.
pub data Cmd : Type 0 where
  exec : (argv : List (List ℕ)) → Cmd
  redir : (cmd : Cmd) (file : List ℕ) (mode fd : ℕ) → Cmd
  pipe : (left right : Cmd) → Cmd
  list : (left right : Cmd) → Cmd
  back : (cmd : Cmd) → Cmd

-- `panic` exits, so an error has no value.
pub data Parse (A : Type 0) : Type 0 where
  parsed : (value : A) (rest : List ℕ) → Parse A
  syntax_error : Parse A
  no_fuel : Parse A

unfoldable pub and_then : {A B : Type 0} → (A → List ℕ → Parse B) → Parse A → Parse B
and_then later (parsed value rest) = later value rest
and_then later syntax_error = syntax_error
and_then later no_fuel = no_fuel

-- strchr(chars, c) != 0, for a c that is not 0
unfoldable pub strchr : List ℕ → ℕ → Bool
strchr [] c = false
strchr (a ∷ chars) c = let rest = strchr chars c in if a == c then true else rest

-- " \t\r\n\v"
abbrev pub whitespace : List ℕ
whitespace = 32 ∷ 9 ∷ 13 ∷ 10 ∷ 11 ∷ []

-- "<|>&;()"
abbrev pub symbols : List ℕ
symbols = 60 ∷ 124 ∷ 62 ∷ 38 ∷ 59 ∷ 40 ∷ 41 ∷ []

pub skip : List ℕ → List ℕ
unfolding strchr
skip [] = []
skip (a ∷ s) = let rest = skip s in if strchr whitespace a then rest else a ∷ s

pub is_word_char : ℕ → Bool
unfolding strchr
is_word_char a = not (strchr whitespace a) && not (strchr symbols a)

-- The bytes of a word, and what follows them.
pub word_of : List ℕ → List ℕ
unfolding is_word_char
word_of [] = []
word_of (a ∷ s) = let rest = word_of s in if is_word_char a then a ∷ rest else []

pub after_word : List ℕ → List ℕ
unfolding is_word_char
after_word [] = []
after_word (a ∷ s) = let rest = after_word s in if is_word_char a then rest else a ∷ s

pub record Token : Type 0 where
  pub kind : ℕ
  pub text : List ℕ
  pub rest : List ℕ

-- The byte '>' was read.
pub greater : List ℕ → Token
unfolding skip
greater [] = record { kind = 62; text = 62 ∷ []; rest = [] }
greater (b ∷ s) =
    if b == 62
    then record { kind = 43; text = 62 ∷ 62 ∷ []; rest = skip s }
    else record { kind = 62; text = 62 ∷ []; rest = skip (b ∷ s) }

-- The token at a byte that is no whitespace; 'a' is the kind of a word.
pub token_at : List ℕ → Token
unfolding strchr skip word_of after_word greater
token_at [] = record { kind = 0; text = []; rest = [] }
token_at (a ∷ s) =
    if a == 62
    then greater s
    else if strchr symbols a
    then record { kind = a; text = a ∷ []; rest = skip s }
    else record { kind = 97; text = word_of (a ∷ s); rest = skip (after_word (a ∷ s)) }

pub gettoken : List ℕ → Token
unfolding skip token_at
gettoken s = token_at (skip s)

-- Whether the next byte is one of toks. The caller goes on at `skip s`.
pub peek : (s toks : List ℕ) → Bool
unfolding skip strchr
peek s toks = elim (skip s) [ [] ↦ false | a ∷ rest ↦ strchr toks a ]

-- O_RDONLY, 0; O_WRONLY|O_CREATE|O_TRUNC, 1; O_WRONLY|O_CREATE, 1
unfoldable pub redircmd : (tok : ℕ) → Cmd → (file : List ℕ) → Cmd
redircmd tok cmd file =
    if tok == 60
    then redir cmd file 0 0
    else if tok == 62
    then redir cmd file 1537 1
    else if tok == 43
    then redir cmd file 513 1
    else cmd

-- The commands that parseredirs puts around the one it is given: a function, as `parseexec` goes on
-- to store arguments in the command inside.
abbrev pub Wrap : Type 0
Wrap = Cmd → Cmd

unfoldable pub parseredirs : (fuel : ℕ) → Wrap → List ℕ → Parse Wrap
unfolding peek gettoken redircmd
parseredirs zero wrap s = no_fuel
parseredirs (suc fuel) wrap s =
    let tok = gettoken s in
    let name = gettoken tok.rest in
    let rest = parseredirs fuel (λ cmd. redircmd tok.kind (wrap cmd) name.text) name.rest in
    if not (peek s (60 ∷ 62 ∷ []))
    then parsed wrap (skip s)
    else if not (name.kind == 97)
    then syntax_error
    else rest

-- The loop of `parseexec` with the arguments so far.
unfoldable pub parseargs : (fuel : ℕ) → (argv : List (List ℕ)) → Wrap → List ℕ → Parse Cmd
unfolding peek gettoken parseredirs and_then
parseargs zero argv wrap s = no_fuel
parseargs (suc fuel) argv wrap s =
    let tok = gettoken s in
    let argv' = argv ++ (tok.text ∷ []) in
    let rest =
      and_then (λ wrap' s'. parseargs fuel argv' wrap' s') (parseredirs fuel wrap tok.rest) in
    if peek s (124 ∷ 41 ∷ 38 ∷ 59 ∷ [])
    then parsed (wrap (exec argv)) (skip s)
    else if tok.kind == 0
    then parsed (wrap (exec argv)) tok.rest
    else if not (tok.kind == 97)
    then syntax_error
    else if leb max_args (length argv')
    then syntax_error
    else rest

mutual
  unfolding peek gettoken and_then parseredirs parseargs

  pub parseline : (fuel : ℕ) → List ℕ → Parse Cmd
  parseline zero s = no_fuel
  parseline (suc fuel) s = and_then (line_loop fuel) (parsepipe fuel s)

  -- parseline after parsepipe, with its loop over `&`.
  pub line_loop : (fuel : ℕ) → Cmd → List ℕ → Parse Cmd
  line_loop zero cmd s = no_fuel
  line_loop (suc fuel) cmd s =
      let next = line_loop fuel (back cmd) (gettoken s).rest in
      let right = parseline fuel (gettoken s).rest in
      if peek s (38 ∷ [])
      then next
      else if peek s (59 ∷ [])
      then and_then (λ cmd' s'. parsed (list cmd cmd') s') right
      else parsed cmd (skip s)

  pub parsepipe : (fuel : ℕ) → List ℕ → Parse Cmd
  parsepipe zero s = no_fuel
  parsepipe (suc fuel) s =
      and_then
        (λ cmd s'.
          let right = parsepipe fuel (gettoken s').rest in
          if peek s' (124 ∷ [])
          then and_then (λ cmd' s''. parsed (pipe cmd cmd') s'') right
          else parsed cmd (skip s'))
        (parseexec fuel s)

  pub parseexec : (fuel : ℕ) → List ℕ → Parse Cmd
  parseexec zero s = no_fuel
  parseexec (suc fuel) s =
      let block = parseblock fuel s in
      if peek s (40 ∷ [])
      then block
      else and_then (λ wrap s'. parseargs fuel [] wrap s') (parseredirs fuel (λ cmd. cmd) s)

  pub parseblock : (fuel : ℕ) → List ℕ → Parse Cmd
  parseblock zero s = no_fuel
  parseblock (suc fuel) s =
      let inner = parseline fuel (gettoken s).rest in
      if not (peek s (40 ∷ []))
      then syntax_error
      else and_then
          (λ cmd s'.
            if not (peek s' (41 ∷ []))
            then syntax_error
            else and_then (λ wrap s''. parsed (wrap cmd) s'')
                (parseredirs fuel (λ c. c) (gettoken s').rest))
          inner

-- The fuel for a line of n bytes.
abbrev pub enough : ℕ → ℕ
enough n = 4 * n + 8

pub parsecmd : List ℕ → Parse Cmd
unfolding parseline skip
parsecmd s =
    and_then (λ cmd s'. elim (skip s') [ [] ↦ parsed cmd [] | a ∷ rest ↦ syntax_error ])
      (parseline (enough (length s)) s)
