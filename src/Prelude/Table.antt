-- ===== src/Prelude/Table.antt =====
-- Fixed tables such as `proc[NPROC]` as functions of the index: update, search, counting.
use Prim.Native.Nat.{ℕ, zero, suc, ◌+◌, ◌≤◌, ◌<◌}
use mathlib.Core.Path.{◌≡◌, refl, ap}
use mathlib.Core.Logic.{◌≢◌, inl, inr}
use mathlib.Core.Bool.{Bool, true, false}
use mathlib.Core.Option.{Option, none, some}
use native.Mathlib.Omega.{arith}
use native.Mathlib.Decide.{dec_lt}
use g14_os_project.Prelude.Tests.{◌==◌, if◌then◌else◌, Bool-cases, Option-cases}

abbrev pub one_if : Bool → ℕ
one_if true = 1
one_if false = 0

module _ {ℓ} {A : Type ℓ} where
  abbrev pub update : (ℕ → A) → ℕ → A → ℕ → A
  update f i v j = if i == j then v else f j

  pub update_self : (f : ℕ → A) (i : ℕ) (v : A) → update f i v i ≡ v
  update_self f i v = let hit : (i == i) ≡ true = ground arith in rw hit

  pub update_ne : (f : ℕ → A) (i j : ℕ) (v : A) → j ≢ i → update f i v j ≡ f j
  update_ne f i j v ne = let miss : (i == j) ≡ false = ground arith in rw miss

  -- The first of the `n` entries from `i` on that passes the test.
  unfoldable pub find_from : (A → Bool) → (ℕ → A) → ℕ → ℕ → Option ℕ
  find_from test f zero i = none
  find_from test f (suc n) i =
      let rest = find_from test f n (suc i) in if test (f i) then some i else rest

  -- How many of the first `n` entries pass the test.
  unfoldable pub count_below : (A → Bool) → (ℕ → A) → ℕ → ℕ
  count_below test f zero = 0
  count_below test f (suc n) = count_below test f n + one_if (test (f n))

  -- The entry found passes the test, and no earlier one does.
  pub record IsFirst (test : A → Bool) (f : ℕ → A) (i n j : ℕ) : Type ℓ where
    pub from : i ≤ j
    pub below : j < i + n
    pub passes : test (f j) ≡ true
    pub before : (k : ℕ) → i ≤ k → k < j → test (f k) ≡ false

  pub find_from-IsFirst :
      (test : A → Bool) (f : ℕ → A) (n i j : ℕ)
      → find_from test f n i ≡ some j
      → IsFirst test f i n j
  unfolding find_from
  find_from-IsFirst test f zero i j e = cc
  find_from-IsFirst test f (suc n) i j e = elim (Bool-cases (test (f i))) [
    | inl hit ↦
        let same : i ≡ j = ground arith in
        record {
          from = omega arith;
          below = omega arith;
          passes = rw (← same) hit;
          before = λ k lo hi. absurd (omega arith);
        }
    | inr miss ↦
        let rest : IsFirst test f (suc i) n j =
          find_from-IsFirst test f n (suc i) j (rw miss at e) in
        record {
          from = omega (arith, rest.from);
          below = omega (arith, rest.below);
          passes = rest.passes;
          before = λ k lo hi. elim (dec_lt i k) [
            | yes later ↦ rest.before k later hi
            | no here ↦ (let same : k ≡ i = omega arith in rw same miss)
          ];
        }
  ]

  pub find_from-none :
      (test : A → Bool) (f : ℕ → A) (n i k : ℕ)
      → find_from test f n i ≡ none
      → i ≤ k
      → k < i + n
      → test (f k) ≡ false
  unfolding find_from
  find_from-none test f zero i k e lo hi = absurd (omega arith)
  find_from-none test f (suc n) i k e lo hi = elim (Bool-cases (test (f i))) [
    | inl hit ↦ cc (rw hit at e)
    | inr miss ↦ elim (dec_lt i k) [
      | yes later ↦ find_from-none test f n (suc i) k (rw miss at e) later (omega arith)
      | no here ↦ (let same : k ≡ i = omega arith in rw same miss)
    ]
  ]

  -- A search finds the only entry that passes.
  pub find_from_unique :
      (test : A → Bool) (f : ℕ → A) (n i k : ℕ)
      → i ≤ k
      → k < i + n
      → test (f k) ≡ true
      → ((j : ℕ) → i ≤ j → j < i + n → test (f j) ≡ true → j ≡ k)
      → find_from test f n i ≡ some k
  find_from_unique test f n i k lo hi hit only = elim (Option-cases (find_from test f n i)) [
    | inl e ↦ cc (find_from-none test f n i k e lo hi)
    | inr (j, e) ↦
        let first = find_from-IsFirst test f n i j e in
        rw e (ap some (only j first.from first.below first.passes))
  ]

  pub count_below-le : (test : A → Bool) (f : ℕ → A) (n : ℕ) → count_below test f n ≤ n
  unfolding count_below
  count_below-le test f zero = omega arith
  count_below-le test f (suc n) = ground (arith, count_below-le test f n)

  pub count_below-congr :
      (test test' : A → Bool) (f g : ℕ → A) (n : ℕ)
      → ((k : ℕ) → k < n → test (f k) ≡ test' (g k))
      → count_below test f n ≡ count_below test' g n
  unfolding count_below
  count_below-congr test test' f g zero same = refl
  count_below-congr test test' f g (suc n) same = rw (same n (omega arith)) (
      ap (λ c. c + one_if (test' (g n)))
        (count_below-congr test test' f g n (λ k lt. same k (omega arith))))

  count_below-update_ge :
      (test : A → Bool) (f : ℕ → A) (n i : ℕ) (v : A)
      → n ≤ i
      → count_below test (update f i v) n ≡ count_below test f n
  count_below-update_ge test f n i v h =
      count_below-congr test test (update f i v) f n (λ k lt. ground arith)

  pub count_below_step :
      (test : A → Bool) (f : ℕ → A) (n : ℕ)
      → count_below test f (suc n) ≡ count_below test f n + one_if (test (f n))
  unfolding count_below
  count_below_step test f n = refl

  pub count_below-update :
      (test : A → Bool) (f : ℕ → A) (n i : ℕ) (v : A)
      → i < n
      → count_below test (update f i v) n + one_if (test (f i))
        ≡ count_below test f n + one_if (test v)
  count_below-update test f zero i v h = absurd (omega arith)
  count_below-update test f (suc n) i v h = elim (dec_lt i n) [
    | yes lt ↦
        let other : update f i v n ≡ f n = ground arith in
        omega (
          arith,
          count_below_step test (update f i v) n,
          count_below_step test f n,
          ap (λ a. one_if (test a)) other,
          count_below-update test f n i v lt,
        )
    | no ge ↦
        let here : update f i v n ≡ v = ground arith in
        let same : i ≡ n = omega arith in
        omega (
          arith,
          count_below_step test (update f i v) n,
          count_below_step test f n,
          ap (λ a. one_if (test a)) here,
          ap (λ k. one_if (test (f k))) same,
          count_below-update_ge test f n i v (omega arith),
        )
  ]
