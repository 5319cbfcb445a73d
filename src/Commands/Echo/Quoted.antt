-- ===== src/Commands/Echo/Quoted.antt =====
-- custom_echo.c: `main` on `-e` and quoted strings.
use g14_os_project.Prelude.{
  ℕ, ◌≡◌, refl, ap, ◌∙◌, Bool, true, false, ◌&&◌, not, some, List, [], ◌∷◌, ◌++◌, ◌==◌, arith,
}
use g14_os_project.Commands.{until_nul, codes, newline, str_eq, is_option}
use g14_os_project.Commands.Echo.{Flags, Said, shown, spaced, say, read_options, custom_echo}
use g14_os_project.Commands.Echo.Escapes.{quote, process_escapes-quote}

-- What C can pass as an argument: no byte is 0.
abbrev pub is_text : List ℕ → Bool
is_text [] = true
is_text (c ∷ s) = not (c == 0) && is_text s

abbrev pub all_text : List (List ℕ) → Bool
all_text [] = true
all_text (s ∷ ss) = is_text s && all_text ss

-- The strings joined by spaces.
abbrev pub join : List (List ℕ) → List ℕ
join [] = []
join (a ∷ []) = a
join (a ∷ b ∷ rest) = a ++ b' ' ∷ join (b ∷ rest)

abbrev pub quote_all : List (List ℕ) → List (List ℕ)
quote_all [] = []
quote_all (a ∷ rest) = quote a ∷ quote_all rest

abbrev with_escapes : Flags
with_escapes = record { no_newline = false; escape_enabled = true }

and_true : (a b : Bool) → (a && b) ≡ true → (a ≡ true) × (b ≡ true)
and_true true b h = (refl, h)
and_true false b h = ground arith

until_nul-text : (s : List ℕ) → is_text s ≡ true → until_nul s ≡ s
until_nul-text [] t = refl
until_nul-text (c ∷ s) t =
    let rest = until_nul-text s ((and_true (not (c == 0)) (is_text s) t).1) in
    let other = (and_true (not (c == 0)) (is_text s) t).0 in ground arith

shown-quote : (s : List ℕ) → is_text s ≡ true → shown with_escapes (quote s) ≡ some s
unfolding shown
shown-quote s t = rw (process_escapes-quote s, until_nul-text s t) refl

spaced-quote :
    (ss : List (List ℕ)) → all_text ss ≡ true → spaced with_escapes (quote_all ss) ≡ some (join ss)
unfolding spaced
spaced-quote [] t = refl
spaced-quote (a ∷ []) t = shown-quote a ((and_true (is_text a) true t).0)
spaced-quote (a ∷ b ∷ rest) t =
    let both_texts = and_true (is_text a) (all_text (b ∷ rest)) t in
    rw (shown-quote a both_texts.0, spaced-quote (b ∷ rest) both_texts.1) refl

say-quote :
    (ss : List (List ℕ))
    → all_text ss ≡ true
    → say with_escapes (quote_all ss) ≡ some (join ss ++ newline ∷ [])
unfolding say
say-quote ss t = rw (spaced-quote ss t) refl

is_option-quote : (s : List ℕ) → is_option s ≡ false → is_option (quote s) ≡ false
unfolding quote
is_option-quote [] h = refl
is_option-quote (c ∷ []) h = ground arith
is_option-quote (c ∷ d ∷ s) h = ground arith

not_option-str_eq : (s t : List ℕ) → is_option s ≡ false → str_eq s (b'-' ∷ b'-' ∷ t) ≡ false
not_option-str_eq [] t h = refl
not_option-str_eq (c ∷ []) t h = ground arith
not_option-str_eq (c ∷ d ∷ s) t h = rw h refl

read_options-string :
    (f : Flags) (a : List ℕ) (rest : List (List ℕ))
    → is_option a ≡ false
    → read_options f (a ∷ rest) ≡ Said.text (say f (a ∷ rest))
unfolding read_options
read_options-string f a rest h =
    rw (not_option-str_eq a (codes "help") h, not_option-str_eq a (codes "version") h, h) refl

-- With `-e` before them, strings whose backslashes were doubled, the first of them no option, are
-- printed with a space between two of them and a newline at the end.
pub custom_echo-quote :
    (a : List ℕ) (rest : List (List ℕ))
    → is_option a ≡ false
    → all_text (a ∷ rest) ≡ true
    → custom_echo (codes "-e" ∷ quote_all (a ∷ rest))
      ≡ Said.text (some (join (a ∷ rest) ++ newline ∷ []))
unfolding custom_echo
custom_echo-quote a rest h t =
    read_options-string with_escapes (quote a) (quote_all rest) (is_option-quote a h)
    ∙ ap Said.text (say-quote (a ∷ rest) t)
