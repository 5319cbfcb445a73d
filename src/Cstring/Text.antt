-- ===== src/Cstring/Text.antt =====
-- The strings that bounded copies and comparisons stand for.
use g14_os_project.Prelude.{
  ℕ, zero, suc, ◌≤◌, ◌<◌, ◌≡◌, refl, ap, ◌↔◌, List, [], ◌∷◌, arith, length, take, ◌==◌,
  if◌then◌else◌, Bool-cases, inl, inr, length-take,
}
use g14_os_project.Prelude.Int.{pos}
use g14_os_project.Cstring.{strncmp, store_nul, safe_loop, safestrcpy, strlen}

-- The bytes before the first NUL.
abbrev pub text : List ℕ → List ℕ
text [] = []
text (c ∷ s) = if c == 0 then [] else c ∷ text s

length-store_nul : (ds : List ℕ) → length (store_nul ds) ≡ length ds
length-store_nul [] = refl
length-store_nul (d ∷ ds) = refl

length-safe_loop : (n : ℕ) (ds t : List ℕ) → length (safe_loop n ds t) ≡ length ds
unfolding safe_loop
length-safe_loop zero ds t = length-store_nul ds
length-safe_loop (suc n) [] t = refl
length-safe_loop (suc n) (d ∷ ds) [] = ap suc (length-store_nul ds)
length-safe_loop (suc n) (d ∷ ds) (c ∷ t) =
    ground (arith, length-store_nul ds, length-safe_loop n ds t)

text-safe_loop : (n : ℕ) (ds t : List ℕ) → n < length ds → text (safe_loop n ds t) ≡ take n (text t)
unfolding safe_loop
text-safe_loop zero [] t h = absurd (omega arith)
text-safe_loop zero (d ∷ ds) t h = refl
text-safe_loop (suc n) [] t h = absurd (omega arith)
text-safe_loop (suc n) (d ∷ ds) [] h = refl
text-safe_loop (suc n) (d ∷ ds) (c ∷ t) h = elim (Bool-cases (c == 0)) [
  | inl nul ↦ rw nul refl
  | inr more ↦ rw (more, more) (ap (λ s. c ∷ s) (text-safe_loop n ds t (omega arith)))
]

pub strlen-text : (s : List ℕ) → strlen s ≡ length (text s)
unfolding strlen
strlen-text [] = refl
strlen-text (c ∷ s) = ground (arith, strlen-text s)

-- `safestrcpy` into a buffer of at least `n > 0` bytes leaves the longest prefix of the source
-- string that has room before a NUL; the result is terminated within the `n` bytes, and the
-- buffer keeps its size.
pub safestrcpy_lem :
    (ds t : List ℕ) (n : ℕ)
    → n < length ds
    → (text (safestrcpy ds t (suc n)) ≡ take n (text t))
      × (strlen (safestrcpy ds t (suc n)) ≤ n)
      × (length (safestrcpy ds t (suc n)) ≡ length ds)
unfolding safestrcpy
safestrcpy_lem ds t n h = (
  text-safe_loop n ds t h,
  omega (
    arith,
    strlen-text (safe_loop n ds t),
    ap (length {A = ℕ}) (text-safe_loop n ds t h),
    length-take n (text t),
  ),
  length-safe_loop n ds t,
)

-- `strncmp` is 0 exactly where the strings agree in their first `n` bytes.
pub strncmp_iff :
    (p q : List ℕ) (n : ℕ) → (strncmp p q n ≡ pos 0) ↔ (take n (text p) ≡ take n (text q))
unfolding strncmp
strncmp_iff p q zero = (λ e. refl, λ e. refl)
strncmp_iff [] [] (suc n) = (λ e. refl, λ e. refl)
strncmp_iff [] (b ∷ q) (suc n) = (λ e. ground arith, λ e. ground arith)
strncmp_iff (a ∷ p) [] (suc n) = (λ e. ground arith, λ e. ground arith)
strncmp_iff (a ∷ p) (b ∷ q) (suc n) =
    (λ e. ground (arith, strncmp_iff p q n), λ e. ground (arith, strncmp_iff p q n))
