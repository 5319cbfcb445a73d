-- ===== src/Shell/Simple.antt =====
-- user/sh.c: the arguments and redirections of a printed command, read back.
use g14_os_project.Prelude.{
  ℕ, suc, ◌<◌, ◌≡◌, refl, sym, ap, subst, ◌∙◌, Bool, true, false, ◌||◌, List, [], ◌∷◌, ◌++◌, ◌==◌,
  ==_iff, if◌then◌else◌, leb, length, get_or, arith, inl, inr, Bool-cases, append_assoc,
  length-append,
}
use g14_os_project.Shell.{
  exec, redir, parsed, and_then, strchr, gettoken, peek, Wrap, redircmd, parseredirs, parseargs,
  max_args,
}
use g14_os_project.Shell.Print.{
  Tokens, text, operator, AreWordChars, IsWord, AreWords, is_redir, next, AreClean, skip-text,
  peek-text,
}
use g14_os_project.Shell.Words.{
  gettoken-symbol, gettoken-greater, gettoken-append, gettoken-word, word_char_is_ink, IsWord-clean,
  AreWords-clean,
}

-- What may follow a command: the end, or one of "|)&;".
abbrev pub ends_command : Tokens → Bool
ends_command ts = next ts == 0 || strchr (124 ∷ 41 ∷ 38 ∷ 59 ∷ []) (next ts)

-- What peek then sees.
abbrev pub sees : Tokens → (toks : List ℕ) → Bool
sees ts toks = if next ts == 0 then false else strchr toks (next ts)

pub redirs_stop :
    (g : ℕ) (wrap : Wrap) (ts : Tokens)
    → AreClean ts
    → sees ts (60 ∷ 62 ∷ []) ≡ false
    → parseredirs (suc g) wrap (text ts) ≡ parsed wrap (text ts)
unfolding parseredirs
redirs_stop g wrap ts c unseen =
    rw (parseredirs, peek-text ts (60 ∷ 62 ∷ []) c, unseen, skip-text ts c) refl

redirs_step_of :
    (g : ℕ) (wrap : Wrap) (op file : List ℕ) (ts : Tokens) (kind : ℕ)
    → IsWord file
    → AreClean ts
    → peek (text (op ∷ file ∷ ts)) (60 ∷ 62 ∷ []) ≡ true
    → gettoken (text (op ∷ file ∷ ts)) ≡ record { kind = kind; text = op; rest = text (file ∷ ts) }
    → parseredirs (suc g) wrap (text (op ∷ file ∷ ts))
      ≡ parseredirs g (λ cmd. redircmd kind (wrap cmd) file) (text ts)
unfolding parseredirs
redirs_step_of g wrap op file ts kind word c seen token =
    rw (parseredirs, seen, token, gettoken-word file ts word c) refl

module _ (g : ℕ) (wrap : Wrap) (file : List ℕ) (ts : Tokens) (word : IsWord file)
    (c : AreClean ts) where
  rest_clean : AreClean (file ∷ ts)
  rest_clean = IsWord-clean file ts word c

  op_clean :
      (op : List ℕ)
      → 0 < length op
      → 0 < get_or op 0 0
      → strchr (32 ∷ 9 ∷ 13 ∷ 10 ∷ 11 ∷ []) (get_or op 0 0) ≡ false
      → AreClean (op ∷ file ∷ ts)
  unfolding AreClean
  op_clean op some_byte byte ink = (some_byte, byte, ink, rest_clean)

  pub redirs_step :
      (mode fd : ℕ)
      → is_redir mode fd ≡ true
      → parseredirs (suc g) wrap (text (operator mode ∷ file ∷ ts))
        ≡ parseredirs g (λ cmd. redir (wrap cmd) file mode fd) (text ts)
  unfolding operator redircmd strchr
  redirs_step mode fd valid = elim (Bool-cases (mode == 0)) [
    | inl input ↦
        let m = (==_iff mode 0).0 input in
        let f : fd ≡ 0 = ground arith in
        rw (m, f)
          (redirs_step_of g wrap (60 ∷ []) file ts 60 word c
            (rw
              (peek-text ((60 ∷ []) ∷ file ∷ ts) (60 ∷ 62 ∷ [])
                (op_clean (60 ∷ []) (omega arith) (omega arith) refl))
              refl)
            (gettoken-symbol 60 (file ∷ ts) refl refl rest_clean))
    | inr other ↦ elim (Bool-cases (mode == 1537)) [
      | inl output ↦
          let m = (==_iff mode 1537).0 output in
          let f : fd ≡ 1 = ground arith in
          rw (m, f)
            (redirs_step_of g wrap (62 ∷ []) file ts 62 word c
              (rw
                (peek-text ((62 ∷ []) ∷ file ∷ ts) (60 ∷ 62 ∷ [])
                  (op_clean (62 ∷ []) (omega arith) (omega arith) refl))
                refl)
              (gettoken-greater (file ∷ ts) rest_clean))
      | inr not_output ↦
          let m : mode ≡ 513 = ground arith in
          let f : fd ≡ 1 = ground arith in
          rw (m, f)
            (redirs_step_of g wrap (62 ∷ 62 ∷ []) file ts 43 word c
              (rw
                (peek-text ((62 ∷ 62 ∷ []) ∷ file ∷ ts) (60 ∷ 62 ∷ [])
                  (op_clean (62 ∷ 62 ∷ []) (omega arith) (omega arith) refl))
                refl)
              (gettoken-append (file ∷ ts) rest_clean))
    ]
  ]

args_seen :
    (t : List ℕ) (ts : Tokens)
    → AreClean (t ∷ ts)
    → ends_command (t ∷ ts) ≡ true
    → sees (t ∷ ts) (124 ∷ 41 ∷ 38 ∷ 59 ∷ []) ≡ true
unfolding AreClean
args_seen [] ts c ends = absurd (omega (arith, c.0))
args_seen (a ∷ t) ts c ends = let lt = c.1 in ground arith

args_none :
    (g : ℕ) (argv : List (List ℕ)) (wrap : Wrap)
    → parseargs (suc g) argv wrap (text []) ≡ parsed (wrap (exec argv)) (text [])
unfolding text parseargs
args_none g argv wrap = refl

pub args_stop :
    (g : ℕ) (argv : List (List ℕ)) (wrap : Wrap) (ts : Tokens)
    → AreClean ts
    → ends_command ts ≡ true
    → parseargs (suc g) argv wrap (text ts) ≡ parsed (wrap (exec argv)) (text ts)
unfolding parseargs
args_stop g argv wrap [] c ends = args_none g argv wrap
args_stop g argv wrap (t ∷ ts) c ends =
    rw
      (
        parseargs,
        peek-text (t ∷ ts) (124 ∷ 41 ∷ 38 ∷ 59 ∷ []) c,
        args_seen t ts c ends,
        skip-text (t ∷ ts) c,
      )
      refl

-- No part of the grammar's symbols is seen at a word.
pub word_unseen :
    (w : List ℕ) (ts : Tokens)
    → IsWord w
    → (sees (w ∷ ts) (124 ∷ 41 ∷ 38 ∷ 59 ∷ []) ≡ false)
      × (sees (w ∷ ts) (60 ∷ 62 ∷ []) ≡ false)
      × (sees (w ∷ ts) (40 ∷ []) ≡ false)
unfolding AreWordChars strchr
word_unseen [] ts word = absurd (omega (arith, word.0))
word_unseen (a ∷ w) ts word =
    let plain = (word_char_is_ink a word.1.1).1 in (ground arith, ground arith, ground arith)

pub args_step :
    (g : ℕ) (argv : List (List ℕ)) (wrap : Wrap) (w : List ℕ) (ts : Tokens)
    → IsWord w
    → AreClean ts
    → length (argv ++ (w ∷ [])) < max_args
    → parseargs (suc g) argv wrap (text (w ∷ ts))
      ≡ and_then
          (λ wrap' s'. parseargs g (argv ++ (w ∷ [])) wrap' s')
          (parseredirs g wrap (text ts))
unfolding parseargs
args_step g argv wrap w ts word c few =
    let unseen = (word_unseen w ts word).0 in
    let not_many : leb max_args (length (argv ++ (w ∷ []))) ≡ false = ground arith in
    rw
      (
        parseargs,
        peek-text (w ∷ ts) (124 ∷ 41 ∷ 38 ∷ 59 ∷ []) (IsWord-clean w ts word c),
        unseen,
        gettoken-word w ts word c,
        not_many,
      )
      refl

-- h, and one for each word.
abbrev pub beyond : Tokens → ℕ → ℕ
beyond [] h = h
beyond (w ∷ ws) h = suc (beyond ws h)

-- All the words of a command; what follows them is for parseredirs.
pub args_all :
    (h : ℕ) (argv : List (List ℕ)) (wrap : Wrap) (w : List ℕ) (ws ts : Tokens)
    → IsWord w
    → AreWords ws
    → AreClean ts
    → length (argv ++ (w ∷ ws)) < max_args
    → parseargs (suc (beyond ws h)) argv wrap (text ((w ∷ ws) ++ ts))
      ≡ and_then
          (λ wrap' s'. parseargs h (argv ++ (w ∷ ws)) wrap' s')
          (parseredirs h wrap (text ts))
unfolding AreWords and_then
args_all h argv wrap w [] ts word words c few = args_step h argv wrap w ts word c few
args_all h argv wrap w (v ∷ ws) ts word words c few =
    let rest_clean = AreWords-clean (v ∷ ws) ts words c in
    let regroup = append_assoc argv (w ∷ []) (v ∷ ws) in
    let few_now : length (argv ++ (w ∷ [])) < max_args =
      omega (arith, few, length-append argv (w ∷ []), length-append argv (w ∷ v ∷ ws)) in
    args_step (suc (beyond ws h)) argv wrap w ((v ∷ ws) ++ ts) word rest_clean few_now
    ∙ ap (and_then (λ wrap' s'. parseargs (suc (beyond ws h)) (argv ++ (w ∷ [])) wrap' s')) (
        redirs_stop (beyond ws h) wrap ((v ∷ ws) ++ ts) rest_clean
          (word_unseen v (ws ++ ts) words.0).1)
    ∙ args_all h (argv ++ (w ∷ [])) wrap v ws ts words.0 words.1 c
        (subst (λ l. length l < max_args) (sym regroup) few)
    ∙ ap (λ l. and_then (λ wrap' s'. parseargs h l wrap' s') (parseredirs h wrap (text ts)))
        (regroup)
