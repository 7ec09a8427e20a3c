-- ===== src/Hub/Solvent.antt =====
-- What the hub owes on its released batches against the balance it remembers from the last
-- withdrawal (the wait lists, the histories and `prev_hub_balance` of state.rs together).
pub mod Listed
pub mod Owed
pub mod Release
pub mod Steps
pub mod Runs
pub mod Payment
pub mod Spending
pub mod Bank
mod Tests
mod BankTests
use mathlib.Core.Option
use prism_auto_compounding_c.Prelude.{
  ℕ, zero, suc, String, ◌≤◌, ◌≡◌, refl, List, [], ◌∷◌, arith, sum_by,
}
use prism_auto_compounding_c.Prelude.Assoc.{lookup}
use prism_auto_compounding_c.Prelude.Runs.{run_sum, run_sum-same}
use prism_auto_compounding_c.Hub.Store.{Store}
use prism_auto_compounding_c.Hub.Validators.Whitelist.{Distinct}
use prism_auto_compounding_c.Hub.Unbond.Asked.{asked}
use prism_auto_compounding_c.Hub.Claims.Payable.{worth_at}

-- What a user's entry for a batch is worth, and all his entries for released batches.
abbrev pub claim : Store → String → ℕ → ℕ
claim s u k = worth_at (lookup k s.histories) (asked s u k)

abbrev pub owed : Store → String → ℕ
owed s u = run_sum (claim s u) 0 (suc s.state.last_processed_batch)

-- What any group of different users is owed is at most what the hub remembers to have, and no
-- amount is left over from a release.
pub record IsSolvent (s : Store) : Type 0 where
  pub claims :
      (us : List String) → Distinct us → sum_by (λ u. owed s u) us ≤ s.state.prev_hub_balance
  pub settled : s.state.actual_unbonded_amount ≡ 0

pub same_sum :
    (f g : String → ℕ) (us : List String) → ((u : String) → g u ≡ f u) → sum_by g us ≡ sum_by f us
same_sum f g [] same = refl
same_sum f g (u ∷ us) same = let here = same u in let ih = same_sum f g us same in omega arith

-- A user is owed the same where the released batches and his entries for them are the same.
pub owed-same :
    (s s' : Store) (u : String)
    → s'.state.last_processed_batch ≡ s.state.last_processed_batch
    → ((k : ℕ) → k ≤ s.state.last_processed_batch → lookup k s'.histories ≡ lookup k s.histories)
    → ((k : ℕ) → k ≤ s.state.last_processed_batch → asked s' u k ≡ asked s u k)
    → owed s' u ≡ owed s u
owed-same s s' u last histories lists = rw last (
    run_sum-same (claim s u) (claim s' u) 0 (suc s.state.last_processed_batch)
      (λ k low high. rw (histories k (omega arith), lists k (omega arith)) refl))

-- Changes that do not concern the released batches keep the hub solvent.
pub later-IsSolvent :
    (s s' : Store)
    → s'.state.last_processed_batch ≡ s.state.last_processed_batch
    → s'.state.prev_hub_balance ≡ s.state.prev_hub_balance
    → s'.state.actual_unbonded_amount ≡ s.state.actual_unbonded_amount
    → ((k : ℕ) → k ≤ s.state.last_processed_batch → lookup k s'.histories ≡ lookup k s.histories)
    → ((u : String) (k : ℕ) → k ≤ s.state.last_processed_batch → asked s' u k ≡ asked s u k)
    → IsSolvent s
    → IsSolvent s'
later-IsSolvent s s' last prev unbonded histories lists v = record {
  claims = λ us d.
      let same =
        same_sum (λ u. owed s u) (λ u. owed s' u) us
          (λ u. owed-same s s' u last histories (lists u)) in
      let old = v.claims us d in omega arith;
  settled = let old = v.settled in omega arith;
}
