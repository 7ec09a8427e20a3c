-- ===== src/Hub/Withdraw/Sums.antt =====
-- A run of batches of a release, summed up.
use native.Mathlib.Nat.{le_of_mul-le-mul_left}
use prism_auto_compounding_c.Prelude.{refl, ℕ, zero, suc, ◌+◌, ◌*◌, ◌-◌, ◌≤◌, ◌<◌, ◌≡◌, some, arith}
use prism_auto_compounding_c.Prelude.Assoc.{lookup}
use prism_auto_compounding_c.Platform.{decimal_one}
use prism_auto_compounding_c.Protocol.Hub.{UnbondHistory}
use prism_auto_compounding_c.Hub.Store.{Store}
use prism_auto_compounding_c.Hub.Withdraw.Counting.{expected, expected_run}
use prism_auto_compounding_c.Hub.Withdraw.Shares.{unbonded_of, Loses, Gains}

pub loss_sum :
    (total mag : ℕ) (s s' : Store) (n first : ℕ)
    → ((k : ℕ)
        → first ≤ k
        → k < first + n
        → Loses total mag 1 (expected (lookup k s.histories)) (expected (lookup k s'.histories)))
    → Loses total mag n (expected_run s first n) (expected_run s' first n)
loss_sum total mag s s' zero first steps = omega arith
loss_sum total mag s s' (suc n) first steps =
    let ih =
      loss_sum total mag s s' n (suc first) (λ k low high. steps k (omega arith) (omega arith)) in
    let step = steps first (omega arith) (omega arith) in omega arith

pub gain_sum :
    (total mag : ℕ) (s s' : Store) (n first : ℕ)
    → ((k : ℕ)
        → first ≤ k
        → k < first + n
        → Gains total mag 1 (expected (lookup k s.histories)) (expected (lookup k s'.histories)))
    → Gains total mag n (expected_run s first n) (expected_run s' first n)
gain_sum total mag s s' zero first steps = omega arith
gain_sum total mag s s' (suc n) first steps =
    let ih =
      gain_sum total mag s s' n (suc first) (λ k low high. steps k (omega arith) (omega arith)) in
    let step = steps first (omega arith) (omega arith) in omega arith

pub exact_sum :
    (s s' : Store) (n first : ℕ)
    → ((k : ℕ)
        → first ≤ k
        → k < first + n
        → expected (lookup k s'.histories) ≤ expected (lookup k s.histories))
    → expected_run s' first n ≤ expected_run s first n
exact_sum s s' zero first steps = omega arith
exact_sum s s' (suc n) first steps =
    let ih = exact_sum s s' n (suc first) (λ k low high. steps k (omega arith) (omega arith)) in
    let step = steps first (omega arith) (omega arith) in omega arith

-- The sums, with the common factor taken out.
pub loss_total :
    (total mag n e : ℕ)
    → 0 < total
    → 0 < n
    → n * mag ≤ decimal_one
    → Loses total mag n total e
    → e + mag ≤ total
loss_total total mag n e pos any few loses =
    let scaled : total * (e * decimal_one + mag * decimal_one + n)
        ≤ total * (total * decimal_one + n * mag) =
      omega arith in
    let bound = le_of_mul-le-mul_left scaled pos in omega arith

pub gain_total : (total mag n e : ℕ) → 0 < total → Gains total mag n total e → e ≤ total + mag
gain_total total mag n e pos gains =
    let scaled : total * (e * decimal_one + n * decimal_one)
        ≤ total * (total * decimal_one + mag * decimal_one) =
      omega arith in
    let bound = le_of_mul-le-mul_left scaled pos in omega arith

-- The batches of a run, each with its old and its new history.
pub each_batch :
    (Step : ℕ → ℕ → Type 0) (s s' : Store) (first last : ℕ)
    → ((k : ℕ)
        → first ≤ k
        → k ≤ last
        → (h h' : UnbondHistory) × (lookup k s.histories ≡ some h)
          × (lookup k s'.histories ≡ some h')
          × Step (unbonded_of h) (unbonded_of h'))
    → (k : ℕ) → first ≤ k
    → k < first + (suc last - first)
    → Step (expected (lookup k s.histories)) (expected (lookup k s'.histories))
each_batch Step s s' first last batches k low high =
    let (h, h', old, new, step) = batches k low (omega arith) in rw (old, new) step

pub expected_run_zero : (s : Store) (first n : ℕ) → n ≡ 0 → expected_run s first n ≡ 0
expected_run_zero s first n e = rw e

pub expected_run_histories :
    (s t : Store) (first n : ℕ)
    → s.histories ≡ t.histories
    → expected_run s first n ≡ expected_run t first n
expected_run_histories s t first zero e = refl
expected_run_histories s t first (suc n) e = rw (e, expected_run_histories s t (suc first) n e)
