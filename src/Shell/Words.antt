-- ===== src/Shell/Words.antt =====
-- user/sh.c: gettoken reads back each token that a command is printed with.
use g14_os_project.Prelude.{ℕ, ◌≡◌, refl, ap, true, false, List, [], ◌∷◌, ◌++◌, ◌==◌, arith}
use g14_os_project.Shell.{
  strchr, whitespace, symbols, skip, is_word_char, word_of, after_word, greater, token_at, gettoken,
}
use g14_os_project.Shell.Print.{
  Tokens, spaced, text, AreWordChars, IsWord, AreWords, AreClean, skip-text, skip-spaced,
}

symbol_is_ink : (a : ℕ) → strchr symbols a ≡ true → strchr whitespace a ≡ false
unfolding strchr
symbol_is_ink a symbol = ground arith

-- A symbol that is one byte, and is not '>'.
pub gettoken-symbol :
    (a : ℕ) (ts : Tokens)
    → strchr symbols a ≡ true
    → a == 62 ≡ false
    → AreClean ts
    → gettoken (text ((a ∷ []) ∷ ts)) ≡ record { kind = a; text = a ∷ []; rest = text ts }
unfolding gettoken token_at text skip
gettoken-symbol a ts symbol other c =
    rw (gettoken, skip, symbol_is_ink a symbol, token_at, other, symbol, skip-spaced ts c) refl

pub gettoken-greater :
    (ts : Tokens)
    → AreClean ts
    → gettoken (text ((62 ∷ []) ∷ ts)) ≡ record { kind = 62; text = 62 ∷ []; rest = text ts }
unfolding gettoken token_at text skip greater spaced
gettoken-greater [] c = refl
gettoken-greater (t ∷ ts) c =
    ap (λ r. record { kind = 62; text = 62 ∷ []; rest = r }) (skip-spaced (t ∷ ts) c)

pub gettoken-append :
    (ts : Tokens)
    → AreClean ts
    → gettoken (text ((62 ∷ 62 ∷ []) ∷ ts))
      ≡ record { kind = 43; text = 62 ∷ 62 ∷ []; rest = text ts }
unfolding gettoken token_at text skip greater
gettoken-append ts c = rw (← skip-spaced ts c) refl

word_of-text : (w : List ℕ) (ts : Tokens) → AreWordChars w → word_of (w ++ spaced ts) ≡ w
unfolding word_of AreWordChars spaced is_word_char
word_of-text [] [] chars = refl
word_of-text [] (t ∷ ts) chars = refl
word_of-text (a ∷ w) ts chars = rw (word_of, chars.1, word_of-text w ts chars.2) refl

after_word-text :
    (w : List ℕ) (ts : Tokens) → AreWordChars w → after_word (w ++ spaced ts) ≡ spaced ts
unfolding after_word AreWordChars spaced is_word_char
after_word-text [] [] chars = refl
after_word-text [] (t ∷ ts) chars = refl
after_word-text (a ∷ w) ts chars = rw (after_word, chars.1) (after_word-text w ts chars.2)

pub word_char_is_ink :
    (a : ℕ)
    → is_word_char a ≡ true
    → (strchr whitespace a ≡ false) × (strchr symbols a ≡ false) × (a == 62 ≡ false)
unfolding is_word_char strchr
word_char_is_ink a h = (ground arith, ground arith, ground arith)

token_at-word :
    (a : ℕ) (s : List ℕ)
    → is_word_char a ≡ true
    → token_at (a ∷ s)
      ≡ record { kind = 97; text = word_of (a ∷ s); rest = skip (after_word (a ∷ s)) }
unfolding token_at
token_at-word a s h =
    let (space, symbol, angle) = word_char_is_ink a h in rw (token_at, angle, symbol) refl

pub IsWord-clean : (w : List ℕ) (ts : Tokens) → IsWord w → AreClean ts → AreClean (w ∷ ts)
unfolding AreClean AreWordChars
IsWord-clean [] ts word c = absurd (omega (arith, word.0))
IsWord-clean (a ∷ w) ts word c = (word.0, word.1.0, (word_char_is_ink a word.1.1).0, c)

pub gettoken-word :
    (w : List ℕ) (ts : Tokens)
    → IsWord w
    → AreClean ts
    → gettoken (text (w ∷ ts)) ≡ record { kind = 97; text = w; rest = text ts }
unfolding gettoken text AreWordChars
gettoken-word [] ts word c = absurd (omega (arith, word.0))
gettoken-word (a ∷ w) ts word c =
    rw
      (
        gettoken,
        skip-text ((a ∷ w) ∷ ts) (IsWord-clean (a ∷ w) ts word c),
        token_at-word a (w ++ spaced ts) word.1.1,
        word_of-text (a ∷ w) ts word.1,
        after_word-text (a ∷ w) ts word.1,
        skip-spaced ts c,
      )
      refl

pub AreWords-clean : (ws ts : Tokens) → AreWords ws → AreClean ts → AreClean (ws ++ ts)
unfolding AreWords
AreWords-clean [] ts words c = c
AreWords-clean (w ∷ ws) ts words c =
    IsWord-clean w (ws ++ ts) words.0 (AreWords-clean ws ts words.1 c)
