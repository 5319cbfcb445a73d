-- ===== src/UserLib/Tests.antt =====
-- Numbers printed and read.
use g14_os_project.Prelude.{ℕ, ◌<◌, ◌≡◌, refl, true, false, some, List, [], ◌∷◌, ◌^◌, ◌-◌, arith}
use g14_os_project.UserLib.{printint, digit_loop, atoi}
use g14_os_project.UserLib.Numbers.{atoi-printint}

print_minus : printint (2 ^ 64 - 105) 10 true ≡ some (b'-' ∷ b'1' ∷ b'0' ∷ b'5' ∷ [])
unfolding printint digit_loop
print_minus = refl

print_hex : printint 2748 16 false ≡ some (b'A' ∷ b'B' ∷ b'C' ∷ [])
unfolding printint digit_loop
print_hex = refl

atoi-printint_example :
    (out : List ℕ) × (printint 1234 10 true ≡ some out) × (1234 < 2 ^ 31 → atoi out ≡ 1234)
atoi-printint_example = atoi-printint 1234 true (omega arith)
