-- ===== src/Shell/Core.antt =====
-- user/sh.c: parseexec on a printed command, up to the redirections that may still follow.
use g14_os_project.Prelude.{
  ℕ, zero, suc, ◌+◌, ◌≤◌, ◌<◌, ◌≡◌, refl, ap, ◌∙◌, true, false, List, [], ◌∷◌, ◌++◌, length, arith,
  append_assoc,
}
use g14_os_project.Shell.{
  Cmd, exec, redir, Parse, parsed, and_then, strchr, peek, Wrap, parseredirs, parseargs, parseline,
  parseexec, parseblock, max_args,
}
use g14_os_project.Shell.Print.{
  Tokens, text, operator, IsWord, AreWords, is_redir, tokens, AreClean, peek-text,
}
use g14_os_project.Shell.Words.{gettoken-symbol, AreWords-clean}
use g14_os_project.Shell.Simple.{
  ends_command, sees, redirs_stop, redirs_step, args_stop, args_all, word_unseen, beyond,
}

-- After the tokens of cmd, parseexec is left with the redirections from ts on, which go around what
-- it has read, and then with `later`.
pub record Core (cmd : Cmd) (k fuel : ℕ) (ts : Tokens) : Type 0 where
  pub inner : Cmd
  pub wrap : Wrap
  pub left : ℕ
  pub later : Wrap → List ℕ → Parse Cmd
  pub lt : k < left
  pub runs :
      parseexec fuel (text (tokens 3 cmd ++ ts)) ≡ and_then later (parseredirs left wrap (text ts))
  pub same : wrap inner ≡ cmd
  pub finish :
      (wrap₁ : Wrap) (us : Tokens)
      → AreClean us
      → ends_command us ≡ true
      → later wrap₁ (text us) ≡ parsed (wrap₁ inner) (text us)

args_finish :
    (fuel : ℕ) (argv : List (List ℕ)) (wrap : Wrap) (ts : Tokens)
    → 0 < fuel
    → AreClean ts
    → ends_command ts ≡ true
    → parseargs fuel argv wrap (text ts) ≡ parsed (wrap (exec argv)) (text ts)
args_finish zero argv wrap ts lt c ends = absurd (omega arith)
args_finish (suc fuel) argv wrap ts lt c ends = args_stop fuel argv wrap ts c ends

beyond-le :
    (ws : Tokens) (f : ℕ) (k : ℕ) → length ws + k < f → (h : ℕ) × (f ≡ beyond ws h) × (k < h)
beyond-le [] f k lt = (f, refl, omega arith)
beyond-le (w ∷ ws) zero k lt = absurd (omega arith)
beyond-le (w ∷ ws) (suc f) k lt =
    let (h, e, le) = beyond-le ws f k (omega (arith, lt)) in (h, ap suc e, le)

pub Core-exec :
    (argv : List (List ℕ)) (k fuel : ℕ) (ts : Tokens)
    → length argv < max_args
    → AreWords argv
    → AreClean ts
    → length argv + k + 2 ≤ fuel
    → sees ts (40 ∷ []) ≡ false
    → Core (exec argv) k fuel ts
unfolding parseexec tokens AreWords and_then
Core-exec argv k zero ts few words c le unseen = absurd (omega arith)
Core-exec [] k (suc fuel) ts few words c le unseen = record {
  inner = exec [];
  wrap = λ cmd. cmd;
  left = fuel;
  later = λ wrap s. parseargs fuel [] wrap s;
  lt = omega arith;
  runs = rw (parseexec, peek-text ts (40 ∷ []) c, unseen) refl;
  same = refl;
  finish = λ wrap₁ us clean ends. args_finish fuel [] wrap₁ us (omega arith) clean ends;
}
Core-exec (w ∷ ws) k (suc zero) ts few words c le unseen = absurd (omega (arith, le))
Core-exec (w ∷ ws) k (suc (suc fuel)) ts few words c le unseen =
    let (h, e, lt_h) = beyond-le ws fuel k (omega (arith, le)) in
    let clean = AreWords-clean (w ∷ ws) ts words c in
    let (stop, no_redir, no_block) = word_unseen w (ws ++ ts) words.0 in
    record {
      inner = exec (w ∷ ws);
      wrap = λ cmd. cmd;
      left = h;
      later = λ wrap s. parseargs h (w ∷ ws) wrap s;
      lt = lt_h;
      runs =
          rw (parseexec, peek-text ((w ∷ ws) ++ ts) (40 ∷ []) clean, no_block)
            (ap (and_then (λ wrap s. parseargs (suc fuel) [] wrap s))
                (redirs_stop fuel (λ cmd. cmd) ((w ∷ ws) ++ ts) clean no_redir)
              ∙ ap (λ f. parseargs (suc f) [] (λ cmd. cmd) (text ((w ∷ ws) ++ ts))) e
              ∙ args_all h [] (λ cmd. cmd) w ws ts words.0 words.1 c few);
      same = refl;
      finish = λ wrap₁ us clean_us ends.
          args_finish h (w ∷ ws) wrap₁ us (omega (arith, lt_h)) clean_us ends;
    }

Core-redir_step :
    (cmd : Cmd) (file : List ℕ) (mode fd k fuel left : ℕ) (ts : Tokens)
    → is_redir mode fd ≡ true
    → IsWord file
    → AreClean ts
    → suc k < left
    → (core : Core cmd (suc k) fuel (operator mode ∷ file ∷ ts)) → core.left ≡ left
    → Core (redir cmd file mode fd) k fuel ts
unfolding tokens
Core-redir_step cmd file mode fd k fuel zero ts valid word c lt core e = absurd (omega arith)
Core-redir_step cmd file mode fd k fuel (suc left) ts valid word c lt core e = record {
  inner = core.inner;
  wrap = λ x. redir (core.wrap x) file mode fd;
  left = left;
  later = core.later;
  lt = omega arith;
  runs =
      ap (λ l. parseexec fuel (text l)) (append_assoc (tokens 3 cmd) (operator mode ∷ file ∷ []) ts)
      ∙ core.runs
      ∙ ap (λ g. and_then core.later (parseredirs g core.wrap (text (operator mode ∷ file ∷ ts)))) e
      ∙ ap (and_then core.later) (redirs_step left core.wrap file ts word c mode fd valid);
  same = ap (λ x. redir x file mode fd) core.same;
  finish = core.finish;
}

pub Core-redir :
    (cmd : Cmd) (file : List ℕ) (mode fd k fuel : ℕ) (ts : Tokens)
    → is_redir mode fd ≡ true
    → IsWord file
    → AreClean ts
    → Core cmd (suc k) fuel (operator mode ∷ file ∷ ts)
    → Core (redir cmd file mode fd) k fuel ts
Core-redir cmd file mode fd k fuel ts valid word c core =
    Core-redir_step cmd file mode fd k fuel core.left ts valid word c core.lt core refl

pub peek_symbol :
    (a : ℕ) (ts : Tokens)
    → strchr (40 ∷ 41 ∷ 124 ∷ 38 ∷ 59 ∷ []) a ≡ true
    → AreClean ts
    → peek (text ((a ∷ []) ∷ ts)) (a ∷ []) ≡ true
unfolding AreClean strchr
peek_symbol a ts symbol c =
    let byte : 0 < a = ground arith in
    let ink : strchr (32 ∷ 9 ∷ 13 ∷ 10 ∷ 11 ∷ []) a ≡ false = ground arith in
    peek-text ((a ∷ []) ∷ ts) (a ∷ []) (omega arith, byte, ink, c) ∙ ground arith

-- A command in parentheses, by what parseline makes of what is inside.
pub Core-block :
    (cmd : Cmd) (k fuel : ℕ) (ts : Tokens)
    → tokens 3 cmd ≡ (40 ∷ []) ∷ tokens 0 cmd ++ ((41 ∷ []) ∷ [])
    → AreClean ts
    → AreClean (tokens 0 cmd ++ ((41 ∷ []) ∷ ts))
    → k < fuel
    → parseline fuel (text (tokens 0 cmd ++ ((41 ∷ []) ∷ ts))) ≡ parsed cmd (text ((41 ∷ []) ∷ ts))
    → Core cmd k (suc (suc fuel)) ts
unfolding parseexec parseblock and_then
Core-block cmd k fuel ts grouping c clean lt inside =
    let rest = tokens 0 cmd ++ ((41 ∷ []) ∷ ts) in
    let shape : tokens 3 cmd ++ ts ≡ (40 ∷ []) ∷ rest =
      ap (λ l. l ++ ts) grouping
      ∙ ap (λ l. (40 ∷ []) ∷ l) (append_assoc (tokens 0 cmd) ((41 ∷ []) ∷ []) ts) in
    let opened = peek_symbol 40 rest refl clean in
    let closed = peek_symbol 41 ts refl c in
    record {
      inner = cmd;
      wrap = λ x. x;
      left = fuel;
      later = λ wrap s. parsed (wrap cmd) s;
      lt = lt;
      runs =
          rw
            (
              shape,
              parseexec,
              opened,
              gettoken-symbol 40 rest refl refl clean,
              inside,
              closed,
              gettoken-symbol 41 ts refl refl c,
            )
            refl;
      same = refl;
      finish = λ wrap₁ us clean_us ends. refl;
    }

redirs_stop_lt :
    (g : ℕ) (wrap : Wrap) (ts : Tokens)
    → 0 < g
    → AreClean ts
    → ends_command ts ≡ true
    → parseredirs g wrap (text ts) ≡ parsed wrap (text ts)
unfolding strchr
redirs_stop_lt zero wrap ts lt c ends = absurd (omega arith)
redirs_stop_lt (suc g) wrap ts lt c ends = redirs_stop g wrap ts c (ground arith)

-- With no redirection to follow, the command is read.
pub Core-parsed :
    (cmd : Cmd) (k fuel : ℕ) (ts : Tokens)
    → Core cmd k fuel ts
    → AreClean ts
    → ends_command ts ≡ true
    → parseexec fuel (text (tokens 3 cmd ++ ts)) ≡ parsed cmd (text ts)
unfolding and_then
Core-parsed cmd k fuel ts core c ends =
    let lt = core.lt in
    core.runs
    ∙ ap (and_then core.later) (redirs_stop_lt core.left core.wrap ts (omega arith) c ends)
    ∙ core.finish core.wrap ts c ends
    ∙ ap (λ x. parsed x (text ts)) core.same
