-- ===== src/Shell/Lexer.antt =====
-- user/sh.c: skip, peek and gettoken go forward in the line.
use g14_os_project.Prelude.{
  ℕ, ◌≤◌, ◌<◌, ◌≡◌, refl, ap, subst, true, false, List, [], ◌∷◌, ◌==◌, length, get_or, arith, inl,
  inr, Bool-cases, List-cases,
}
use g14_os_project.Shell.{
  strchr, whitespace, symbols, skip, is_word_char, after_word, greater, token_at, gettoken, peek,
}

pub skip-le : (s : List ℕ) → length (skip s) ≤ length s
unfolding skip
skip-le [] = omega arith
skip-le (a ∷ s) = let rest = skip-le s in ground arith

pub after_word-le : (s : List ℕ) → length (after_word s) ≤ length s
unfolding after_word
after_word-le [] = omega arith
after_word-le (a ∷ s) = let rest = after_word-le s in ground arith

-- What skip stops at is no whitespace.
pub skip-head :
    (s : List ℕ) (a : ℕ) (t : List ℕ)
    → skip s ≡ a ∷ t
    → (strchr whitespace a ≡ false) × (length t < length s)
unfolding skip
skip-head [] a t e = absurd (cc e)
skip-head (b ∷ s) a t e = elim (Bool-cases (strchr whitespace b)) [
  | inl space ↦
      let rest = skip-head s a t (rw (space) at e) in (rest.0, let lt = rest.1 in omega arith)
  | inr other ↦
      let same : b ∷ s ≡ a ∷ t = rw (other) at e in
      let len = ap length same in
      (
        subst (λ c. strchr whitespace c ≡ false) (ap (λ (l : List ℕ). get_or l 0 0) same) other,
        omega arith,
      )
]

greater-le : (s : List ℕ) → length (greater s).rest ≤ length s
unfolding greater
greater-le [] = omega arith
greater-le (b ∷ s) = let le = skip-le s in let le_all = skip-le (b ∷ s) in ground arith

-- A token that does not start with whitespace takes a byte at least.
token_at-lt :
    (a : ℕ) (t : List ℕ) → strchr whitespace a ≡ false → length (token_at (a ∷ t)).rest ≤ length t
unfolding token_at after_word is_word_char
token_at-lt a t ink = elim (Bool-cases (a == 62)) [
  | inl is_greater ↦ rw (token_at, is_greater) (greater-le t)
  | inr other ↦ elim (Bool-cases (strchr symbols a)) [
    | inl symbol ↦ rw (token_at, other, symbol) (skip-le t)
    | inr plain ↦
        let first = skip-le (after_word t) in
        let later = after_word-le t in
        rw (token_at, other, plain, after_word, is_word_char, ink) (omega arith)
  ]
]

pub gettoken-some :
    (s : List ℕ) (a : ℕ) (t : List ℕ) → skip s ≡ a ∷ t → length (gettoken s).rest < length s
unfolding gettoken
gettoken-some s a t e =
    let (ink, lt) = skip-head s a t e in
    let le = token_at-lt a t ink in rw (gettoken, e) (omega arith)

gettoken-none : (s : List ℕ) → skip s ≡ [] → ((gettoken s).kind ≡ 0) × ((gettoken s).rest ≡ [])
unfolding gettoken token_at
gettoken-none s e = (rw (gettoken, e) refl, rw (gettoken, e) refl)

pub gettoken-le : (s : List ℕ) → length (gettoken s).rest ≤ length s
gettoken-le s = elim (List-cases (skip s)) [
  | inl empty ↦ rw ((gettoken-none s empty).1) (omega arith)
  | inr (a, t, e) ↦ let lt = gettoken-some s a t e in omega arith
]

pub gettoken-lt :
    (s : List ℕ) → (gettoken s).kind == 0 ≡ false → length (gettoken s).rest < length s
gettoken-lt s word = elim (List-cases (skip s)) [
  | inl empty ↦ let zero_kind = (gettoken-none s empty).0 in absurd (ground arith)
  | inr (a, t, e) ↦ gettoken-some s a t e
]

pub peek-lt : (s toks : List ℕ) → peek s toks ≡ true → length (gettoken s).rest < length s
unfolding peek
peek-lt s toks seen = elim (List-cases (skip s)) [
  | inl empty ↦ absurd (cc (rw (peek, empty) at seen))
  | inr (a, t, e) ↦ gettoken-some s a t e
]
