-- ===== src/Cstring.antt =====
-- kernel/string.c. Memory is a function from addresses to bytes where a function writes through
-- pointers that may overlap; a string argument is the list of the bytes from its address on.
pub mod Copy
pub mod Text
mod Tests
use g14_os_project.Prelude.{
  ℕ, zero, suc, ◌+◌, ◌-◌, ◌%◌, Bool, true, false, ◌&&◌, not, List, [], ◌∷◌, ◌==◌, ltb,
  if◌then◌else◌,
}
use g14_os_project.Prelude.Int.{ℤ, pos, sub_ℕ}
use g14_os_project.Prelude.Table.{update}

abbrev pub Bytes : Type 0
Bytes = ℕ → ℕ

-- `memset`, the loop with `n` rounds left; the value is stored as a `char`.
pub memset : Bytes → ℕ → ℕ → ℕ → Bytes
memset m dst c zero = m
memset m dst c (suc n) = memset (update m dst (c % 256)) (suc dst) c n

-- while(n-- > 0) *--d = *--s;
pub copy_down : Bytes → (d s n : ℕ) → Bytes
copy_down m d s zero = m
copy_down m d s (suc n) = copy_down (update m (d + n) (m (s + n))) d s n

-- while(n-- > 0) *d++ = *s++;
pub copy_up : Bytes → (d s n : ℕ) → Bytes
copy_up m d s zero = m
copy_up m d s (suc n) = copy_up (update m d (m s)) (suc d) (suc s) n

-- With n = 0 the code returns before the test; neither loop would run.
pub memmove : Bytes → (dst src n : ℕ) → Bytes
unfolding copy_down copy_up
memmove m dst src n =
    if n == 0
    then m
    else if ltb src dst && ltb dst (src + n)
    then copy_down m dst src n
    else copy_up m dst src n

pub memcmp : List ℕ → List ℕ → ℕ → ℤ
memcmp s t zero = pos 0
memcmp [] t (suc n) = pos 0
memcmp (a ∷ s) [] (suc n) = pos 0
memcmp (a ∷ s) (b ∷ t) (suc n) = let rest = memcmp s t n in if a == b then rest else sub_ℕ a b

-- The end of a list is a NUL byte.
unfoldable pub strncmp : List ℕ → List ℕ → ℕ → ℤ
strncmp p q zero = pos 0
strncmp [] [] (suc n) = pos 0
strncmp [] (b ∷ q) (suc n) = sub_ℕ 0 b
strncmp (a ∷ p) [] (suc n) = sub_ℕ a 0
strncmp (a ∷ p) (b ∷ q) (suc n) =
    let rest = strncmp p q n in if not (a == 0) && (a == b) then rest else sub_ℕ a b

-- *s = 0;
abbrev pub store_nul : List ℕ → List ℕ
store_nul [] = []
store_nul (d ∷ ds) = 0 ∷ ds

-- The loop of `safestrcpy` with `n` more bytes before the last one, and its final store.
unfoldable pub safe_loop : ℕ → List ℕ → List ℕ → List ℕ
safe_loop zero ds t = store_nul ds
safe_loop (suc n) [] t = []
safe_loop (suc n) (d ∷ ds) [] = 0 ∷ store_nul ds
safe_loop (suc n) (d ∷ ds) (c ∷ t) =
    let rest = safe_loop n ds t in if c == 0 then 0 ∷ store_nul ds else c ∷ rest

unfoldable pub safestrcpy : List ℕ → List ℕ → ℕ → List ℕ
unfolding safe_loop
safestrcpy ds t zero = ds
safestrcpy ds t (suc n) = safe_loop n ds t

unfoldable pub strlen : List ℕ → ℕ
strlen [] = 0
strlen (c ∷ s) = let rest = suc (strlen s) in if c == 0 then 0 else rest

-- while(n-- > 0) *s++ = 0;
pub pad_loop : ℕ → List ℕ → List ℕ
pad_loop zero ds = ds
pad_loop (suc n) [] = []
pad_loop (suc n) (d ∷ ds) = 0 ∷ pad_loop n ds

pub strncpy : List ℕ → List ℕ → ℕ → List ℕ
unfolding pad_loop
strncpy ds t zero = ds
strncpy [] t (suc n) = []
strncpy (d ∷ ds) [] (suc n) = 0 ∷ pad_loop n ds
strncpy (d ∷ ds) (c ∷ t) (suc n) =
    let rest = strncpy ds t n in if c == 0 then 0 ∷ pad_loop n ds else c ∷ rest
