-- ===== src/Shell/Levels.antt =====
-- user/sh.c: each level of the grammar on a printed command, from the level below it.
use g14_os_project.Prelude.{
  ℕ, zero, suc, ◌+◌, ◌*◌, ◌≤◌, ◌<◌, ◌≡◌, refl, ap, ◌∙◌, Bool, true, false, ◌||◌, [], ◌∷◌, ◌++◌,
  ◌==◌, length, arith, append_assoc, length-append,
}
use g14_os_project.Shell.{
  Cmd, exec, redir, pipe, list, back, parsed, and_then, strchr, parseline, line_loop, parsepipe,
}
use g14_os_project.Shell.Print.{
  Tokens, text, grouped, tokens, next, AreClean, AreClean-append, skip-text, peek-text,
}
use g14_os_project.Shell.Words.{gettoken-symbol}
use g14_os_project.Shell.Simple.{sees}
use g14_os_project.Shell.Core.{Core, Core-block, Core-parsed, peek_symbol}

-- What may follow a pipe, and a line.
abbrev pub ends_pipe : Tokens → Bool
ends_pipe ts = next ts == 0 || strchr (41 ∷ 38 ∷ 59 ∷ []) (next ts)

abbrev pub ends_line : Tokens → Bool
ends_line ts = next ts == 0 || next ts == 41

-- f, and one for each `&` that stands behind.
abbrev pub beyond_backs : Cmd → ℕ → ℕ
beyond_backs (exec argv) f = f
beyond_backs (redir cmd file mode fd) f = f
beyond_backs (pipe left right) f = f
beyond_backs (list left right) f = f
beyond_backs (back cmd) f = beyond_backs cmd (suc f)

-- What each level makes of the command's tokens at that level.
abbrev pub ReadsSimple : Cmd → Type 0
ReadsSimple cmd =
    (k f : ℕ) (ts : Tokens)
    → AreClean ts
    → sees ts (40 ∷ []) ≡ false
    → 4 * length (tokens 3 cmd) + 6 + k ≤ f
    → Core cmd k f ts

abbrev pub ReadsPipe : Cmd → Type 0
ReadsPipe cmd =
    (f : ℕ) (ts : Tokens)
    → AreClean ts
    → ends_pipe ts ≡ true
    → 4 * length (tokens 2 cmd) + 7 ≤ f
    → parsepipe f (text (tokens 2 cmd ++ ts)) ≡ parsed cmd (text ts)

abbrev pub ReadsBacks : Cmd → Type 0
ReadsBacks cmd =
    (f : ℕ) (ts : Tokens)
    → AreClean ts
    → ends_pipe ts ≡ true
    → 4 * length (tokens 1 cmd) + 7 ≤ beyond_backs cmd f
    → parseline (suc (beyond_backs cmd f)) (text (tokens 1 cmd ++ ts)) ≡ line_loop f cmd (text ts)

abbrev pub ReadsLine : Cmd → Type 0
ReadsLine cmd =
    (f : ℕ) (ts : Tokens)
    → AreClean ts
    → ends_line ts ≡ true
    → 4 * length (tokens 0 cmd) + 8 ≤ f
    → parseline f (text (tokens 0 cmd ++ ts)) ≡ parsed cmd (text ts)

pub record Reads (cmd : Cmd) : Type 0 where
  pub simple : ReadsSimple cmd
  pub pipes : ReadsPipe cmd
  pub backs : ReadsBacks cmd
  pub line : ReadsLine cmd

module _ (cmd : Cmd) where
  pub pipe_of_simple : tokens 2 cmd ≡ tokens 3 cmd → ReadsSimple cmd → ReadsPipe cmd
  unfolding parsepipe and_then strchr
  pipe_of_simple same simple zero ts c ends le = absurd (omega arith)
  pipe_of_simple same simple (suc f) ts c ends le =
      let core = simple 0 f ts c (ground arith) (rw (← same) (omega arith)) in
      let unseen : sees ts (124 ∷ []) ≡ false = ground arith in
      rw
        (
          parsepipe,
          same,
          Core-parsed cmd 0 f ts core c (ground arith),
          peek-text ts (124 ∷ []) c,
          unseen,
          skip-text ts c,
        )
        refl

  pub backs_of_pipe :
      tokens 1 cmd ≡ tokens 2 cmd
      → ((f : ℕ) → beyond_backs cmd f ≡ f)
      → ReadsPipe cmd
      → ReadsBacks cmd
  unfolding parseline and_then
  backs_of_pipe same no_backs pipes f ts c ends le =
      let bound : 4 * length (tokens 2 cmd) + 7 ≤ f =
        (let len = ap length same in let e = no_backs f in omega arith) in
      rw (no_backs f, parseline, same, pipes f ts c ends bound) refl

  pub simple_of_line :
      tokens 3 cmd ≡ (40 ∷ []) ∷ tokens 0 cmd ++ ((41 ∷ []) ∷ [])
      → AreClean (tokens 0 cmd)
      → ReadsLine cmd
      → ReadsSimple cmd
  unfolding AreClean
  simple_of_line shape clean line k zero ts c unseen le = absurd (omega arith)
  simple_of_line shape clean line k (suc zero) ts c unseen le = absurd (omega arith)
  simple_of_line shape clean line k (suc (suc f)) ts c unseen le =
      let size : length (tokens 3 cmd) ≡ length (tokens 0 cmd) + 2 =
        ap length shape ∙ omega (arith, length-append (tokens 0 cmd) ((41 ∷ []) ∷ [])) in
      let close : AreClean ((41 ∷ []) ∷ ts) = (omega arith, omega arith, refl, c) in
      Core-block cmd k f ts shape c (AreClean-append (tokens 0 cmd) ((41 ∷ []) ∷ ts) clean close)
        (omega arith) (line f ((41 ∷ []) ∷ ts) close refl (omega arith))

-- Fuel f as what is beyond the `&`s of a command, with more than m left.
beyond_backs-split :
    (cmd : Cmd) (m f : ℕ)
    → length (tokens 1 cmd) + m < f
    → (g : ℕ) × (f ≡ beyond_backs cmd g) × (m < g)
unfolding tokens grouped
beyond_backs-split (exec argv) m f lt = (f, refl, omega arith)
beyond_backs-split (redir cmd file mode fd) m f lt = (f, refl, omega arith)
beyond_backs-split (pipe left right) m f lt = (f, refl, omega arith)
beyond_backs-split (list left right) m f lt = (f, refl, omega arith)
beyond_backs-split (back cmd) m f lt =
    let size = length-append (tokens 1 cmd) ((38 ∷ []) ∷ []) in
    let (g, e, more) = beyond_backs-split cmd (suc m) f (omega arith) in one_less g e more
  where
    one_less :
        (g : ℕ)
        → f ≡ beyond_backs cmd g
        → suc m < g
        → (g : ℕ) × (f ≡ beyond_backs (back cmd) g) × (m < g)
    one_less zero e more = absurd (omega arith)
    one_less (suc g) e more = (g, e, omega arith)

line_loop-stop :
    (f : ℕ) (cmd : Cmd) (ts : Tokens)
    → 0 < f
    → AreClean ts
    → ends_line ts ≡ true
    → line_loop f cmd (text ts) ≡ parsed cmd (text ts)
unfolding line_loop strchr
line_loop-stop zero cmd ts lt c ends = absurd (omega arith)
line_loop-stop (suc f) cmd ts lt c ends =
    let no_back : sees ts (38 ∷ []) ≡ false = ground arith in
    let no_list : sees ts (59 ∷ []) ≡ false = ground arith in
    rw
      (
        line_loop,
        peek-text ts (38 ∷ []) c,
        no_back,
        peek-text ts (59 ∷ []) c,
        no_list,
        skip-text ts c,
      )
      refl

pub line_of_backs : (cmd : Cmd) → tokens 0 cmd ≡ tokens 1 cmd → ReadsBacks cmd → ReadsLine cmd
unfolding strchr
line_of_backs cmd same backs zero ts c ends le = absurd (omega arith)
line_of_backs cmd same backs (suc f) ts c ends le =
    let len = ap length same in
    let (g, e, more) = beyond_backs-split cmd 0 f (omega arith) in
    rw (same, e)
      (backs g ts c (ground arith) (omega (arith, e, le, len))
        ∙ line_loop-stop g cmd ts more c ends)

pub symbol_clean :
    (a : ℕ) (ts : Tokens)
    → strchr (40 ∷ 41 ∷ 124 ∷ 38 ∷ 59 ∷ []) a ≡ true
    → AreClean ts
    → AreClean ((a ∷ []) ∷ ts)
unfolding AreClean strchr
symbol_clean a ts symbol c =
    let byte : 0 < a = ground arith in
    let ink : strchr (32 ∷ 9 ∷ 13 ∷ 10 ∷ 11 ∷ []) a ≡ false = ground arith in
    (omega arith, byte, ink, c)

list_rest :
    (left right : Cmd) (ts : Tokens)
    → ReadsLine right
    → AreClean (tokens 0 right)
    → AreClean ts
    → ends_line ts ≡ true
    → (g : ℕ) → 4 * length (tokens 0 right) + 9 < g
    → line_loop g left (text ((59 ∷ []) ∷ tokens 0 right ++ ts))
      ≡ parsed (list left right) (text ts)
unfolding line_loop and_then strchr
list_rest left right ts reads clean c ends zero more = absurd (omega arith)
list_rest left right ts reads clean c ends (suc g) more =
    let rest = tokens 0 right ++ ts in
    let rest_clean = AreClean-append (tokens 0 right) ts clean c in
    let all_clean = symbol_clean 59 rest refl rest_clean in
    rw
      (
        line_loop,
        peek-text ((59 ∷ []) ∷ rest) (38 ∷ []) all_clean,
        peek-text ((59 ∷ []) ∷ rest) (59 ∷ []) all_clean,
        gettoken-symbol 59 rest refl refl rest_clean,
        reads g ts c ends (omega arith),
      )
      refl

pub list_line :
    (left right : Cmd)
    → ReadsBacks left
    → ReadsLine right
    → AreClean (tokens 0 right)
    → ReadsLine (list left right)
unfolding tokens grouped line_loop and_then strchr AreClean
list_line left right reads_left reads_right clean zero ts c ends le = absurd (omega arith)
list_line left right reads_left reads_right clean (suc f) ts c ends le =
    let size = length-append (tokens 1 left) ((59 ∷ []) ∷ tokens 0 right) in
    let (g, e, more) =
      beyond_backs-split left (4 * length (tokens 0 right) + 9) f (omega (arith, size, le)) in
    let rest_clean = AreClean-append (tokens 0 right) ts clean c in
    let all_clean : AreClean ((59 ∷ []) ∷ tokens 0 right ++ ts) =
      (omega arith, omega arith, refl, rest_clean) in
    rw (e) (
      ap (λ l. parseline (suc (beyond_backs left g)) (text l))
        (append_assoc (tokens 1 left) ((59 ∷ []) ∷ tokens 0 right) ts)
      ∙ reads_left g ((59 ∷ []) ∷ tokens 0 right ++ ts) all_clean refl (omega (arith, e, size, le))
      ∙ list_rest left right ts reads_right clean c ends g more)

pub back_backs : (cmd : Cmd) → ReadsBacks cmd → ReadsBacks (back cmd)
unfolding tokens grouped line_loop strchr
back_backs cmd reads f ts c ends le =
    let size = length-append (tokens 1 cmd) ((38 ∷ []) ∷ []) in
    let all_clean = symbol_clean 38 ts refl c in
    ap (λ l. parseline (suc (beyond_backs cmd (suc f))) (text l))
      (append_assoc (tokens 1 cmd) ((38 ∷ []) ∷ []) ts)
    ∙ reads (suc f) ((38 ∷ []) ∷ ts) all_clean refl (omega (arith, size, le))
    ∙ rw (line_loop, peek_symbol 38 ts refl c, gettoken-symbol 38 ts refl refl c) refl

pub pipe_pipe :
    (left right : Cmd)
    → ReadsSimple left
    → ReadsPipe right
    → AreClean (tokens 2 right)
    → ReadsPipe (pipe left right)
unfolding tokens grouped parsepipe and_then strchr
pipe_pipe left right reads_left reads_right clean zero ts c ends le = absurd (omega arith)
pipe_pipe left right reads_left reads_right clean (suc f) ts c ends le =
    let size = length-append (tokens 3 left) ((124 ∷ []) ∷ tokens 2 right) in
    let rest = tokens 2 right ++ ts in
    let rest_clean = AreClean-append (tokens 2 right) ts clean c in
    let all_clean = symbol_clean 124 rest refl rest_clean in
    let core = reads_left 0 f ((124 ∷ []) ∷ rest) all_clean refl (omega (arith, size, le)) in
    rw
      (
        parsepipe,
        append_assoc (tokens 3 left) ((124 ∷ []) ∷ tokens 2 right) ts,
        Core-parsed left 0 f ((124 ∷ []) ∷ rest) core all_clean refl,
        peek_symbol 124 rest refl rest_clean,
        gettoken-symbol 124 rest refl refl rest_clean,
        reads_right f ts c ends (omega (arith, size, le)),
      )
      refl
