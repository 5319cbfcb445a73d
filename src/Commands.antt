-- ===== src/Commands.antt =====
-- G14_Project2_1_Linux_Commands/src: the text commands. A string, a stream and an output are lists of
-- bytes; `isspace` and a compiled pattern of the C library are parameters.
pub mod Wc
pub mod Echo
pub mod Grep
mod Tests
use Prim.Native.Char.{code}
use Prim.Native.String.{String}
use g14_os_project.Prelude.{
  ℕ, zero, suc, ◌+◌, Bool, true, false, ◌&&◌, List, [], ◌∷◌, ◌==◌, if◌then◌else◌,
}

abbrev pub newline : ℕ
newline = 10

-- strcmp(s, t) == 0
abbrev pub str_eq : List ℕ → List ℕ → Bool
str_eq [] [] = true
str_eq [] (b ∷ t) = false
str_eq (a ∷ s) [] = false
str_eq (a ∷ s) (b ∷ t) = a == b && str_eq s t

-- argv[i][0]=='-' && argv[i][1]!='\0'
abbrev pub is_option : List ℕ → Bool
is_option [] = false
is_option (c ∷ []) = false
is_option (c ∷ d ∷ s) = c == b'-'

abbrev pub letters : List ℕ → List ℕ
letters [] = []
letters (c ∷ s) = s

-- The bytes of an ASCII text.
abbrev pub codes : String → List ℕ
codes String.[] = []
codes (String.◌∷◌ c s) = code c ∷ codes s

-- `fputs` stops at the first 0.
abbrev pub until_nul : List ℕ → List ℕ
until_nul [] = []
until_nul (c ∷ s) = let rest = c ∷ until_nul s in if c == 0 then [] else rest
