-- ===== src/Prelude/Runs.antt =====
-- Sums over a run of numbers, and over a group of members and a run together.
use prism_auto_compounding_c.Prelude.{
  ℕ, zero, suc, ◌+◌, ◌≤◌, ◌<◌, ◌≡◌, ◌≢◌, refl, List, [], ◌∷◌, arith, sum_by,
}
use native.Mathlib.Decide.{ℕ_discrete}

-- `f first + … + f (first + n - 1)`.
abbrev pub run_sum : (ℕ → ℕ) → ℕ → ℕ → ℕ
run_sum f first zero = 0
run_sum f first (suc n) = f first + run_sum f (suc first) n

pub run_sum-same :
    (f g : ℕ → ℕ) (first n : ℕ)
    → ((k : ℕ) → first ≤ k → k < first + n → g k ≡ f k)
    → run_sum g first n ≡ run_sum f first n
run_sum-same f g first zero same = refl
run_sum-same f g first (suc n) same =
    let here = same first (omega arith) (omega arith) in
    let ih = run_sum-same f g (suc first) n (λ k low high. same k (omega arith) (omega arith)) in
    omega arith

-- One value of the run grows.
pub run_sum-grows :
    (f g : ℕ → ℕ) (j x first n : ℕ)
    → ((k : ℕ) → k ≢ j → g k ≡ f k)
    → g j ≡ f j + x
    → first ≤ j
    → j < first + n
    → run_sum g first n ≡ run_sum f first n + x
run_sum-grows f g j x first zero same grown low high = absurd (omega arith)
run_sum-grows f g j x first (suc n) same grown low high = elim (ℕ_discrete first j) [
  | yes here ↦
      let rest = run_sum-same f g (suc first) n (λ k above below. same k (λ e. omega arith)) in
      rw here (let grows = grown in let rest' = rw here at rest in omega arith)
  | no there ↦
      let ih = run_sum-grows f g j x (suc first) n same grown (omega arith) (omega arith) in
      let here = same first there in omega arith
]

pub run_sum-split :
    (f : ℕ → ℕ) (first a b : ℕ)
    → run_sum f first (a + b) ≡ run_sum f first a + run_sum f (first + a) b
run_sum-split f first zero b =
    let none_more : 0 + b ≡ b = omega arith in
    let at : first + 0 ≡ first = omega arith in rw (none_more, at) (omega arith)
run_sum-split f first (suc a) b =
    let ih = run_sum-split f (suc first) a b in
    let more : suc a + b ≡ suc (a + b) = omega arith in
    let at : suc first + a ≡ first + suc a = omega arith in
    let ih' = rw at at ih in rw more (omega arith)

-- Member by member or number by number: the same sum.
pub sum_by-run_sum {ℓ} :
    {A : Type ℓ} (f : A → ℕ → ℕ) (us : List A) (first n : ℕ)
    → sum_by (λ u. run_sum (f u) first n) us ≡ run_sum (λ k. sum_by (λ u. f u k) us) first n
sum_by-run_sum f [] first n = none_to_sum first n
  where
    none_to_sum : (first n : ℕ) → 0 ≡ run_sum (λ k. 0) first n
    none_to_sum first zero = refl
    none_to_sum first (suc n) = let ih = none_to_sum (suc first) n in omega arith
sum_by-run_sum f (u ∷ us) first n =
    let ih = sum_by-run_sum f us first n in
    let both = run_sum-add (f u) (λ k. sum_by (λ v. f v k) us) first n in omega arith
  where
    run_sum-add :
        (g h : ℕ → ℕ) (first n : ℕ)
        → run_sum (λ k. g k + h k) first n ≡ run_sum g first n + run_sum h first n
    run_sum-add g h first zero = refl
    run_sum-add g h first (suc n) = let ih = run_sum-add g h (suc first) n in omega arith
