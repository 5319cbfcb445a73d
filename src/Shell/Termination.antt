-- ===== src/Shell/Termination.antt =====
-- user/sh.c: each function of the parser leaves no more of the line than it is given, and the fuel
-- that parsecmd gives is enough.
use g14_os_project.Prelude.{
  ℕ, zero, suc, ◌+◌, ◌*◌, ◌≤◌, ◌<◌, ◌≡◌, refl, Bool, true, false, not, List, [], ◌∷◌, ◌++◌, ◌==◌,
  if◌then◌else◌, leb, length, arith,
}
use g14_os_project.Shell.{
  Cmd, back, Parse, parsed, syntax_error, no_fuel, and_then, skip, gettoken, peek, Wrap,
  parseredirs, parseargs, parseline, line_loop, parsepipe, parseexec, parseblock, enough, parsecmd,
  max_args,
}
use g14_os_project.Shell.Lexer.{skip-le, gettoken-le, gettoken-lt, peek-lt}

-- A value or a syntax error, with at most n bytes left.
abbrev pub Ends : {A : Type 0} → (n : ℕ) → Parse A → Type 0
Ends n (parsed value rest) = length rest ≤ n
Ends n syntax_error = Unit
Ends n no_fuel = ⊥

Ends-then :
    {A B : Type 0} (m n : ℕ) (p : Parse A) (later : A → List ℕ → Parse B)
    → Ends m p
    → ((value : A) (rest : List ℕ) → length rest ≤ m → Ends n (later value rest))
    → Ends n (and_then later p)
unfolding and_then
Ends-then m n (parsed value rest) later e next = next value rest e
Ends-then m n syntax_error later e next = tt
Ends-then m n no_fuel later e next = elim e [ ]

Ends-le : {A : Type 0} (m n : ℕ) (p : Parse A) → m ≤ n → Ends m p → Ends n p
Ends-le m n (parsed value rest) le e = omega (arith, e)
Ends-le m n syntax_error le e = tt
Ends-le m n no_fuel le e = elim e [ ]

Ends-if :
    {A : Type 0} (n : ℕ) (b : Bool) (p q : Parse A)
    → (b ≡ true → Ends n p)
    → (b ≡ false → Ends n q)
    → Ends n (if b then p else q)
Ends-if n true p q yes_case no_case = yes_case refl
Ends-if n false p q yes_case no_case = no_case refl

parseredirs-Ends :
    (fuel : ℕ) (wrap : Wrap) (s : List ℕ)
    → length s < fuel
    → Ends (length s) (parseredirs fuel wrap s)
unfolding parseredirs
parseredirs-Ends zero wrap s lt = absurd (omega arith)
parseredirs-Ends (suc fuel) wrap s lt =
    let name = gettoken (gettoken s).rest in
    Ends-if (length s) (not (peek s (60 ∷ 62 ∷ []))) _ _ (λ over. skip-le s)
      (λ seen.
        let first = peek-lt s (60 ∷ 62 ∷ []) (ground arith) in
        let second = gettoken-le (gettoken s).rest in
        Ends-if (length s) (not (name.kind == 97)) _ _ (λ missing. tt)
          (λ word.
            Ends-le (length name.rest) (length s) _ (omega arith)
              (parseredirs-Ends fuel _ name.rest (omega arith))))

parseargs-Ends :
    (fuel : ℕ) (argv : List (List ℕ)) (wrap : Wrap) (s : List ℕ)
    → length s < fuel
    → Ends (length s) (parseargs fuel argv wrap s)
unfolding parseargs
parseargs-Ends zero argv wrap s lt = absurd (omega arith)
parseargs-Ends (suc fuel) argv wrap s lt =
    let tok = gettoken s in
    Ends-if (length s) (peek s (124 ∷ 41 ∷ 38 ∷ 59 ∷ [])) _ _ (λ stop. skip-le s)
      (λ more.
        Ends-if (length s) (tok.kind == 0) _ _ (λ over. gettoken-le s)
          (λ some_token.
            let shorter = gettoken-lt s some_token in
            Ends-if (length s) (not (tok.kind == 97)) _ _ (λ other. tt)
              (λ word.
                Ends-if (length s) (leb max_args (length (argv ++ (tok.text ∷ [])))) _ _
                  (λ many. tt)
                  (λ few.
                    Ends-then (length tok.rest) (length s) _ _
                      (parseredirs-Ends fuel wrap tok.rest (omega arith))
                      (λ wrap' s' le.
                        Ends-le (length s') (length s) _ (omega arith)
                          (parseargs-Ends fuel _ wrap' s' (omega arith)))))))

-- What each function of the grammar needs for n bytes.
record AllEnd (fuel : ℕ) : Type 0 where
  line : (s : List ℕ) → 4 * length s + 8 ≤ fuel → Ends (length s) (parseline fuel s)
  loop : (cmd : Cmd) (s : List ℕ) → 4 * length s + 7 ≤ fuel → Ends (length s) (line_loop fuel cmd s)
  pipes : (s : List ℕ) → 4 * length s + 7 ≤ fuel → Ends (length s) (parsepipe fuel s)
  simple : (s : List ℕ) → 4 * length s + 6 ≤ fuel → Ends (length s) (parseexec fuel s)
  block : (s : List ℕ) → 4 * length s + 5 ≤ fuel → Ends (length s) (parseblock fuel s)

module _ (fuel : ℕ) (below : AllEnd fuel) where
  line-Ends : (s : List ℕ) → 4 * length s + 8 ≤ suc fuel → Ends (length s) (parseline (suc fuel) s)
  unfolding parseline
  line-Ends s le =
      Ends-then (length s) (length s) _ _ (below.pipes s (omega arith))
        (λ cmd s' le'. Ends-le (length s') (length s) _ le' (below.loop cmd s' (omega arith)))

  loop-Ends :
      (cmd : Cmd) (s : List ℕ)
      → 4 * length s + 7 ≤ suc fuel
      → Ends (length s) (line_loop (suc fuel) cmd s)
  unfolding line_loop
  loop-Ends cmd s le =
      let next = (gettoken s).rest in
      Ends-if (length s) (peek s (38 ∷ [])) _ _
        (λ seen.
          let lt = peek-lt s (38 ∷ []) seen in
          Ends-le (length next) (length s) _ (omega arith)
            (below.loop (back cmd) next (omega arith)))
        (λ no_back.
          Ends-if (length s) (peek s (59 ∷ [])) _ _
            (λ seen.
              let lt = peek-lt s (59 ∷ []) seen in
              Ends-then (length next) (length s) _ _ (below.line next (omega arith))
                (λ cmd' s' le'. omega arith))
            (λ over. skip-le s))

  pipes-Ends : (s : List ℕ) → 4 * length s + 7 ≤ suc fuel → Ends (length s) (parsepipe (suc fuel) s)
  unfolding parsepipe
  pipes-Ends s le =
      Ends-then (length s) (length s) _ _ (below.simple s (omega arith)) (λ cmd s' le'.
        let next = (gettoken s').rest in
        Ends-if (length s) (peek s' (124 ∷ [])) _ _
          (λ seen.
            let lt = peek-lt s' (124 ∷ []) seen in
            Ends-then (length next) (length s) _ _ (below.pipes next (omega arith))
              (λ cmd' s'' le''. omega arith))
          (λ over. let skipped = skip-le s' in omega arith))

  simple-Ends :
      (s : List ℕ) → 4 * length s + 6 ≤ suc fuel → Ends (length s) (parseexec (suc fuel) s)
  unfolding parseexec
  simple-Ends s le =
      Ends-if (length s) (peek s (40 ∷ [])) _ _ (λ seen. below.block s (omega arith))
        (λ plain.
          Ends-then (length s) (length s) _ _ (parseredirs-Ends fuel (λ cmd. cmd) s (omega arith))
            (λ wrap s' le'.
              Ends-le (length s') (length s) _ le' (parseargs-Ends fuel [] wrap s' (omega arith))))

  block-Ends :
      (s : List ℕ) → 4 * length s + 5 ≤ suc fuel → Ends (length s) (parseblock (suc fuel) s)
  unfolding parseblock
  block-Ends s le =
      Ends-if (length s) (not (peek s (40 ∷ []))) _ _ (λ unseen. tt)
        (λ seen.
          let lt = peek-lt s (40 ∷ []) (ground arith) in
          Ends-then (length (gettoken s).rest) (length s) _ _
            (below.line (gettoken s).rest (omega arith))
            (λ cmd s' le'.
              Ends-if (length s) (not (peek s' (41 ∷ []))) _ _ (λ unclosed. tt)
                (λ closed.
                  let rest = gettoken-le s' in
                  Ends-then (length (gettoken s').rest) (length s) _ _
                    (parseredirs-Ends fuel (λ c. c) (gettoken s').rest (omega arith))
                    (λ wrap s'' le''. omega arith))))

all-AllEnd : (fuel : ℕ) → AllEnd fuel
all-AllEnd zero = record {
  line = λ s le. absurd (omega arith);
  loop = λ cmd s le. absurd (omega arith);
  pipes = λ s le. absurd (omega arith);
  simple = λ s le. absurd (omega arith);
  block = λ s le. absurd (omega arith);
}
all-AllEnd (suc fuel) =
    let below = all-AllEnd fuel in
    record {
      line = line-Ends fuel below;
      loop = loop-Ends fuel below;
      pipes = pipes-Ends fuel below;
      simple = simple-Ends fuel below;
      block = block-Ends fuel below;
    }

-- The fuel of parsecmd is enough: for every line it returns a command, with nothing left over, or a
-- syntax error.
pub parsecmd-Ends : (s : List ℕ) → Ends 0 (parsecmd s)
unfolding parsecmd
parsecmd-Ends s =
    Ends-then (length s) 0 _ _ ((all-AllEnd (enough (length s))).line s (omega arith))
      (λ cmd s' le. over (skip s') cmd)
  where
    over :
        (left : List ℕ) (cmd : Cmd)
        → Ends 0 (elim left [ [] ↦ parsed cmd [] | a ∷ rest ↦ syntax_error ])
    over [] cmd = omega arith
    over (a ∷ rest) cmd = tt
