-- ===== src/Hub/Withdraw/Solvency.antt =====
-- What a release makes payable is covered by what came back.
use native.Mathlib.Decide.{dec_lt}
use prism_auto_compounding_c.Prelude.{refl, ℕ, suc, ◌+◌, ◌*◌, ◌-◌, ◌≤◌, ◌<◌, ◌≡◌, some, arith}
use prism_auto_compounding_c.Prelude.Assoc.{lookup}
use prism_auto_compounding_c.Outcome.{ok}
use prism_auto_compounding_c.Platform.{Platform, decimal_one}
use prism_auto_compounding_c.SignedInt.{SignedInt}
use prism_auto_compounding_c.Protocol.Hub.{UnbondHistory}
use prism_auto_compounding_c.Hub.Store.{Store}
use prism_auto_compounding_c.Hub.Withdraw.{release_history, process_withdraw_rate}
use prism_auto_compounding_c.Hub.Withdraw.Process.{process_withdraw_rate_lem}
use prism_auto_compounding_c.Hub.Withdraw.Counting.{distance, difference, expected_run}
use prism_auto_compounding_c.Hub.Withdraw.Loops.{Releases, due_history-lookup}
use prism_auto_compounding_c.Hub.Withdraw.Shares.{
  unbonded_of, share_of, Loses, Gains, lost, gained, loss_batch, gain_batch, exact_batch,
  release_history-Reckoned,
}
use prism_auto_compounding_c.Hub.Withdraw.Sums.{
  loss_sum, gain_sum, exact_sum, loss_total, gain_total, each_batch, expected_run_zero,
  expected_run_histories,
}

-- The first batch that a release can mark, how many it marked, and what it counts as arrived for
-- them: also a fall of the balance is counted, as if it were growth.
abbrev pub first_of : Store → ℕ
first_of s = s.state.last_processed_batch + 1

abbrev pub run_of : Store → Store → ℕ
run_of s s' = suc s'.state.last_processed_batch - first_of s

abbrev pub arrived : Store → ℕ → ℕ
arrived s balance = s.state.actual_unbonded_amount + distance balance s.state.prev_hub_balance

-- What the hub has received where its balance has grown.
abbrev pub received : Store → ℕ → ℕ
received s balance = s.state.actual_unbonded_amount + (balance - s.state.prev_hub_balance)

module _ ⦃p : Platform⦄ where
  -- The history of a batch of a run before and after its release.
  released_batch :
      (slashed : SignedInt) (total ht first last : ℕ) (s t : Store)
      → Releases slashed total ht first last s t
      → (k : ℕ) → first ≤ k
      → k ≤ last
      → (h h' : UnbondHistory) × (lookup k s.histories ≡ some h)
        × (lookup k t.histories ≡ some h')
        × (release_history slashed total h ≡ ok h')
  released_batch slashed total ht first last s t r k low high =
      let (h, h', due, done, found) = r.released k low high in
      (h, h', due_history-lookup s ht k h due, found, done)

  loss_covered :
      (s t : Store) (total mag ht first last : ℕ)
      → Releases (lost mag) total ht first last s t
      → expected_run s first (suc last - first) ≡ total
      → 0 < mag
      → 0 < total
      → 0 < suc last - first
      → (suc last - first) * mag ≤ decimal_one
      → ((k : ℕ) (h : UnbondHistory)
          → first ≤ k
          → k ≤ last
          → lookup k s.histories ≡ some h
          → share_of total mag h < unbonded_of h)
      → expected_run t first (suc last - first) + mag ≤ total
  loss_covered s t total mag ht first last r sum any pos run few small =
      let n : ℕ = suc last - first in
      let summed = loss_sum total mag s t n first (
        each_batch (Loses total mag 1) s t first last λ k low high.
          let (h, h', old, new, done) =
            released_batch (lost mag) total ht first last s t r k low high in
          (h, h', old, new, loss_batch total mag h h' done any (small k h low high old))) in
      loss_total total mag n (expected_run t first n) pos run few (rw sum at summed)

  gain_covered :
      (s t : Store) (total mag ht first last : ℕ)
      → Releases (gained mag) total ht first last s t
      → expected_run s first (suc last - first) ≡ total
      → 0 < total
      → expected_run t first (suc last - first) ≤ total + mag
  gain_covered s t total mag ht first last r sum pos =
      let n : ℕ = suc last - first in
      let summed = gain_sum total mag s t n first (
        each_batch (Gains total mag 1) s t first last λ k low high.
          let (h, h', old, new, done) =
            released_batch (gained mag) total ht first last s t r k low high in
          (h, h', old, new, gain_batch total mag h h' done)) in
      gain_total total mag n (expected_run t first n) pos (rw sum at summed)

  exact_covered :
      (s t : Store) (total ht first last : ℕ)
      → Releases (lost 0) total ht first last s t
      → expected_run t first (suc last - first) ≤ expected_run s first (suc last - first)
  exact_covered s t total ht first last r = exact_sum s t (suc last - first) first (
      each_batch (λ u e. e ≤ u) s t first last
        λ k low high.
          let (h, h', old, new, done) =
            released_batch (lost 0) total ht first last s t r k low high in
          (h, h', old, new, exact_batch total h h' done))

  -- A run that is not empty has something to share out.
  total_positive :
      (s t : Store) (slashed : SignedInt) (total ht first last : ℕ)
      → Releases slashed total ht first last s t
      → 0 < suc last - first
      → 0 < total
  total_positive s t slashed total ht first last r run =
      let (h, h', old, new, done) =
        released_batch slashed total ht first last s t r first (omega arith) (omega arith) in
      (release_history-Reckoned slashed total h h' done).0

  released_covered :
      (s t : Store) (total actual ht first last : ℕ)
      → Releases (difference total actual) total ht first last s t
      → expected_run s first (suc last - first) ≡ total
      → (suc last - first) * (total - actual) ≤ decimal_one
      → ((k : ℕ) (h : UnbondHistory)
          → first ≤ k
          → k ≤ last
          → lookup k s.histories ≡ some h
          → actual < total
          → share_of total (total - actual) h < unbonded_of h)
      → expected_run t first (suc last - first) ≤ actual
  released_covered s t total actual ht first last r sum few small =
      let n : ℕ = suc last - first in
      elim (dec_lt 0 n) [
        | no empty ↦ let none_left = expected_run_zero t first n (omega arith) in omega arith
        | yes run ↦
            let pos = total_positive s t (difference total actual) total ht first last r run in
            elim (dec_lt actual total) [
              | yes loss ↦
                  let same : difference total actual ≡ lost (total - actual) = ground arith in
                  let covered =
                    loss_covered s t total (total - actual) ht first last (rw same at r) sum
                      (omega arith) pos run few
                      (λ k h low high found. small k h low high found loss) in
                  omega arith
              | no no_loss ↦ elim (dec_lt total actual) [
                | yes gain ↦
                    let same : difference total actual ≡ gained (actual - total) = ground arith in
                    let covered =
                      gain_covered s t total (actual - total) ht first last (rw same at r) sum
                        pos in
                    omega arith
                | no exact ↦
                    let same : difference total actual ≡ lost 0 = ground arith in
                    let covered = exact_covered s t total ht first last (rw same at r) in
                    omega arith
              ]
            ]
      ]

  -- What the batches of a release owe at their new rates is at most what the release counts as
  -- arrived, where the loss is small enough.
  pub process_withdraw_rate-counted :
      (ht balance : ℕ) (s s' : Store)
      → process_withdraw_rate ht balance s ≡ ok s'
      → run_of s s' * (expected_run s (first_of s) (run_of s s') - arrived s balance) ≤ decimal_one
      → ((k : ℕ) (h : UnbondHistory)
          → s.state.last_processed_batch < k
          → k ≤ s'.state.last_processed_batch
          → lookup k s.histories ≡ some h
          → arrived s balance < expected_run s (first_of s) (run_of s s')
          → share_of
              (expected_run s (first_of s) (run_of s s'))
              (expected_run s (first_of s) (run_of s s') - arrived s balance)
              h
            < unbonded_of h)
      → expected_run s' (first_of s) (run_of s s') ≤ arrived s balance
  process_withdraw_rate-counted ht balance s s' e few small =
      let done = process_withdraw_rate_lem ht balance s s' e in
      let after : Store = record s { histories = s'.histories } in
      let covered =
        released_covered s after (expected_run s (first_of s) (run_of s s')) (arrived s balance) ht
          (first_of s) s'.state.last_processed_batch (done.run) refl few
          (λ k h low high found loss. small k h (omega arith) high found loss) in
      rw (expected_run_histories s' after (first_of s) (run_of s s') refl) covered

  -- Where the balance has not fallen below what the hub remembers of it, what the batches of a
  -- release owe together at their new rates is at most what the hub has received: the growth of
  -- its balance and what was set aside before. The loss, if there is one, times their number is
  -- at most 10^18, and leaves each of them something of its amount.
  pub process_withdraw_rate_covers :
      (ht balance : ℕ) (s s' : Store)
      → process_withdraw_rate ht balance s ≡ ok s'
      → s.state.prev_hub_balance ≤ balance
      → run_of s s' * (expected_run s (first_of s) (run_of s s') - received s balance) ≤ decimal_one
      → ((k : ℕ) (h : UnbondHistory)
          → s.state.last_processed_batch < k
          → k ≤ s'.state.last_processed_batch
          → lookup k s.histories ≡ some h
          → received s balance < expected_run s (first_of s) (run_of s s')
          → share_of
              (expected_run s (first_of s) (run_of s s'))
              (expected_run s (first_of s) (run_of s s') - received s balance)
              h
            < unbonded_of h)
      → expected_run s' (first_of s) (run_of s s') ≤ received s balance
  process_withdraw_rate_covers ht balance s s' e grown few small =
      let same : arrived s balance ≡ received s balance = ground arith in
      rw same at (process_withdraw_rate-counted ht balance s s' e) few small
