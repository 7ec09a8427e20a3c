-- ===== src/Hub/Withdraw/Surplus.antt =====
-- A surplus that is too small to be shared out stops the release (`process_withdraw_rate`, the
-- second loop).
use prism_auto_compounding_c.Prelude.{
  ℕ, suc, ◌+◌, ◌-◌, ◌*◌, ◌≤◌, ◌<◌, ◌≡◌, ◌≢◌, some, some-injective, ◌/◌, arith, sym, ◌∙◌,
}
use prism_auto_compounding_c.Prelude.Assoc.{lookup}
use prism_auto_compounding_c.Outcome.{ok}
use prism_auto_compounding_c.Platform.{Platform, decimal_one}
use prism_auto_compounding_c.Protocol.Hub.{UnbondHistory}
use prism_auto_compounding_c.Hub.Store.{Store}
use prism_auto_compounding_c.Hub.Withdraw.{actual_unbonded, release_history, process_withdraw_rate}
use prism_auto_compounding_c.Hub.Withdraw.Loops.{due_history-lookup}
use prism_auto_compounding_c.Hub.Withdraw.Counting.{difference, expected_run, Counts}
use prism_auto_compounding_c.Hub.Withdraw.Process.{process_withdraw_rate_lem, same_run}
use prism_auto_compounding_c.Hub.Withdraw.Shares.{share_of, gained, unbonded_of}
use prism_auto_compounding_c.Hub.Withdraw.Solvency.{first_of, arrived}

module _ ⦃p : Platform⦄ where
  open p use {uint_checked_sub_lem, uint_mul_decimal_lem, decimal_from_ratio_lem}

  shared_surplus :
      (total mag : ℕ) (h h' : UnbondHistory)
      → release_history (gained mag) total h ≡ ok h'
      → 0 < share_of total mag h
  unfolding release_history actual_unbonded
  shared_surplus total mag h h' e =
      let share : ℕ = share_of total mag h in
      ground (
        arith,
        uint_mul_decimal_lem h.amount h.withdraw_rate,
        decimal_from_ratio_lem (unbonded_of h) total,
        uint_mul_decimal_lem mag (unbonded_of h * decimal_one / total),
        uint_checked_sub_lem share 1,
      )

  -- Where more came back than the due batches were expected to bring, and the surplus's share of
  -- one of them rounds down to nothing, the release does not return, whatever the other batches
  -- are.
  pub process_withdraw_rate_surplus :
      (ht balance : ℕ) (s : Store) (n k : ℕ) (h : UnbondHistory)
      → Counts s ht (first_of s) n
      → expected_run s (first_of s) n < arrived s balance
      → first_of s ≤ k
      → k < first_of s + n
      → lookup k s.histories ≡ some h
      → share_of
          (expected_run s (first_of s) n)
          (arrived s balance - expected_run s (first_of s) n)
          h
        ≡ 0
      → (s' : Store) → process_withdraw_rate ht balance s ≢ ok s'
  process_withdraw_rate_surplus ht balance s n k h c more low high found none_shared s' e =
      let first : ℕ = first_of s in
      let last : ℕ = s'.state.last_processed_batch in
      let run = (process_withdraw_rate_lem ht balance s s' e).run in
      let same = same_run s _ _ _ ht first n last c run in
      let length : suc last - first ≡ n = omega arith in
      let signed : difference (expected_run s first n) (arrived s balance)
          ≡ gained (arrived s balance - expected_run s first n) =
        ground arith in
      let (g, h', due, done, stored) = rw (length, signed) at run.released k low (omega arith) in
      let total : ℕ = expected_run s first n in
      let shared = shared_surplus total (arrived s balance - total) g h' done in
      let old = due_history-lookup s ht k g due in
      let same_batch : g ≡ h = some-injective g h (sym old ∙ found) in
      let shared' = rw same_batch at shared in omega arith
