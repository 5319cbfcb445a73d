-- ===== src/Prelude/Bits.antt =====
-- Single bits of a word: `x & (1 << i)`, `x | (1 << i)` and `x & ~(1 << i)`, by recursion on `i`.
use Prim.Native.Nat.{ℕ, zero, suc, ◌+◌, ◌*◌, ◌/◌, ◌%◌, ◌^◌, ◌<◌}
use mathlib.Core.Path.{◌≡◌}
use mathlib.Core.Bool.{Bool, true, false}
use native.Mathlib.Omega.{arith}
use native.Mathlib.Nat.{pow-suc}
use g14_os_project.Prelude.Tests.{◌==◌, if◌then◌else◌}

unfoldable pub test_bit : ℕ → ℕ → Bool
test_bit x zero = x % 2 == 1
test_bit x (suc i) = test_bit (x / 2) i

unfoldable pub set_bit : ℕ → ℕ → ℕ
set_bit x zero = x / 2 * 2 + 1
set_bit x (suc i) = set_bit (x / 2) i * 2 + x % 2

unfoldable pub clear_bit : ℕ → ℕ → ℕ
clear_bit x zero = x / 2 * 2
clear_bit x (suc i) = clear_bit (x / 2) i * 2 + x % 2

half_of : (y b : ℕ) → b < 2 → (y * 2 + b) / 2 ≡ y
half_of y b h = omega arith

pub test_bit-set_bit :
    (x i j : ℕ) → test_bit (set_bit x i) j ≡ (if i == j then true else test_bit x j)
unfolding test_bit set_bit
test_bit-set_bit x zero zero = ground arith
test_bit-set_bit x zero (suc j) = rw (half_of (x / 2) 1 (omega arith)) (ground arith)
test_bit-set_bit x (suc i) zero = ground arith
test_bit-set_bit x (suc i) (suc j) =
    rw (half_of (set_bit (x / 2) i) (x % 2) (omega arith), test_bit-set_bit (x / 2) i j)
      (ground arith)

pub test_bit-clear_bit :
    (x i j : ℕ) → test_bit (clear_bit x i) j ≡ (if i == j then false else test_bit x j)
unfolding test_bit clear_bit
test_bit-clear_bit x zero zero = ground arith
test_bit-clear_bit x zero (suc j) =
    let same : x / 2 * 2 / 2 ≡ x / 2 = omega arith in rw same (ground arith)
test_bit-clear_bit x (suc i) zero = ground arith
test_bit-clear_bit x (suc i) (suc j) =
    rw (half_of (clear_bit (x / 2) i) (x % 2) (omega arith), test_bit-clear_bit (x / 2) i j)
      (ground arith)

pub set_bit-lt : (w x i : ℕ) → i < w → x < 2 ^ w → set_bit x i < 2 ^ w
unfolding set_bit
set_bit-lt zero x i h b = absurd (omega arith)
set_bit-lt (suc w) x zero h b = omega (arith, pow-suc 2 w)
set_bit-lt (suc w) x (suc i) h b =
    omega (arith, pow-suc 2 w, set_bit-lt w (x / 2) i (omega arith) (omega (arith, pow-suc 2 w)))
