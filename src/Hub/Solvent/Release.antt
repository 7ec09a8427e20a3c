-- ===== src/Hub/Solvent/Release.antt =====
-- A release and the payment behind it: what the users are owed against the hub's balance.
use prism_auto_compounding_c.Prelude.{
  ℕ, suc, String, ◌+◌, ◌-◌, ◌*◌, ◌≤◌, ◌<◌, ◌≡◌, ◌≢◌, refl, inl, inr, some, List, [], ◌∷◌, arith,
  sum_by, true, str_eq, eq_iff, Bool-cases,
}
use prism_auto_compounding_c.Prelude.Assoc.{lookup}
use prism_auto_compounding_c.Prelude.Runs.{run_sum, run_sum-same, run_sum-split, sum_by-run_sum}
use prism_auto_compounding_c.Outcome.{ok}
use prism_auto_compounding_c.Platform.{Platform, decimal_one}
use prism_auto_compounding_c.Protocol.Hub.{UnbondHistory}
use prism_auto_compounding_c.Hub.Store.{Store, contains}
use prism_auto_compounding_c.Hub.Validators.Whitelist.{Distinct}
use prism_auto_compounding_c.Hub.Withdraw.{process_withdraw_rate}
use prism_auto_compounding_c.Hub.Withdraw.Counting.{expected_run}
use prism_auto_compounding_c.Hub.Withdraw.Process.{process_withdraw_rate_lem}
use prism_auto_compounding_c.Hub.Withdraw.Shares.{unbonded_of, share_of}
use prism_auto_compounding_c.Hub.Withdraw.Solvency.{first_of, run_of, arrived}
use prism_auto_compounding_c.Hub.Invariant.Reach.{Reach}
use prism_auto_compounding_c.Hub.Claims.{sum_others}
use prism_auto_compounding_c.Hub.Claims.Payable.{payable, payable_covered}
use prism_auto_compounding_c.Hub.Solvent.{claim, owed, IsSolvent}
use prism_auto_compounding_c.Hub.Solvent.Listed.{process_withdraw_rate-lists}

-- A loss that the release of `s` to `s1` shares out at this balance is small: times the number of
-- batches it is at most 10^18, and it leaves each of them something of its amount.
pub record IsShared (balance : ℕ) (s s1 : Store) : Type 0 where
  pub few :
      run_of s s1 * (expected_run s (first_of s) (run_of s s1) - arrived s balance) ≤ decimal_one
  pub small :
      (k : ℕ) (h : UnbondHistory)
      → s.state.last_processed_batch < k
      → k ≤ s1.state.last_processed_batch
      → lookup k s.histories ≡ some h
      → arrived s balance < expected_run s (first_of s) (run_of s s1)
      → share_of
          (expected_run s (first_of s) (run_of s s1))
          (expected_run s (first_of s) (run_of s s1) - arrived s balance)
          h
        < unbonded_of h

-- A balance at which the release of `s` to `s1` can be paid: the hub has not lost coins since the
-- last withdrawal, and a loss is small.
pub record Affords (balance : ℕ) (s s1 : Store) : Type 0 where
  pub grown : s.state.prev_hub_balance ≤ balance
  pub shared : IsShared balance s s1

module _ ⦃p : Platform⦄ where
  -- What the batches of before owe is as it was.
  old_claims :
      (ht balance : ℕ) (s s1 : Store) (us : List String)
      → process_withdraw_rate ht balance s ≡ ok s1
      → run_sum (payable s1 us) 0 (suc s.state.last_processed_batch) ≡ sum_by (λ u. owed s u) us
  old_claims ht balance s s1 us e =
      let lists = process_withdraw_rate-lists ht balance s s1 e in
      let kept = (process_withdraw_rate_lem ht balance s s1 e).run.kept in
      let n : ℕ = suc s.state.last_processed_batch in
      let same =
        run_sum-same (payable s us) (payable s1 us) 0 n
          (λ k low high. rw (kept k (inl (omega arith)), lists) refl) in
      let both = sum_by-run_sum (λ u k. claim s u k) us 0 n in omega arith

  -- After a release at a balance that affords it, that balance covers all that is owed.
  pub released_owed :
      (ht balance : ℕ) (s s1 : Store) (us : List String)
      → Reach s
      → IsSolvent s
      → process_withdraw_rate ht balance s ≡ ok s1
      → Affords balance s s1
      → Distinct us
      → sum_by (λ u. owed s1 u) us ≤ balance
  released_owed ht balance s s1 us r v e a d =
      let last : ℕ = s.state.last_processed_batch in
      let n : ℕ = run_of s s1 in
      let reached = (process_withdraw_rate_lem ht balance s s1 e).run.reached in
      let length : suc s1.state.last_processed_batch ≡ suc last + n = omega arith in
      let at : 0 + suc last ≡ first_of s = omega arith in
      let both = sum_by-run_sum (λ u k. claim s1 u k) us 0 (suc s1.state.last_processed_batch) in
      let split = run_sum-split (payable s1 us) 0 (suc last) n in
      let parts = rw (← length, at) at split in
      let before = old_claims ht balance s s1 us e in
      let new = payable_covered ht balance s s1 us r e d (a.shared.few) (a.shared.small) in
      let old = v.claims us d in let settled = v.settled in let grown = a.grown in ground arith

-- A user who is paid leaves room: the others' sum and his payment fit what covered them all.
drop_member :
    (f g : String → ℕ) (user : String) (us : List String)
    → ((u : String) → u ≢ user → g u ≡ f u)
    → g user ≡ 0
    → Distinct us
    → contains us user ≡ true
    → sum_by g us + f user ≡ sum_by f us
drop_member f g user [] others nothing d m = absurd (ground arith)
drop_member f g user (u ∷ us) others nothing d m = elim (Bool-cases (str_eq u user)) [
  | inl here ↦
      let it : u ≡ user = (eq_iff u user).0 here in
      let rest = sum_others f g user us others (rw it at d.0) in rw it (omega arith)
  | inr there ↦
      let ih = drop_member f g user us others nothing (d.1) (ground arith) in
      let here = others u (λ e. ground (arith, eq_iff u user)) in omega arith
]

pub paid_sum :
    (f g : String → ℕ) (user : String) (most : ℕ)
    → ((u : String) → u ≢ user → g u ≡ f u)
    → g user ≡ 0
    → ((us : List String) → Distinct us → sum_by f us ≤ most)
    → (us : List String) → Distinct us
    → sum_by g us ≤ most - f user
paid_sum f g user most others nothing bound us d = elim (Bool-cases (contains us user)) [
  | inl member ↦
      let dropped = drop_member f g user us others nothing d member in
      let all = bound us d in omega arith
  | inr out ↦
      let same = sum_others f g user us others out in
      let all = bound (user ∷ us) (out, d) in omega arith
]
