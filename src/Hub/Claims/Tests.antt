-- ===== src/Hub/Claims/Tests.antt =====
-- Alice's claim on the first batch, of whose ninety coins eighty come back.
use prism_auto_compounding_c.Prelude.{ℕ, ◌≡◌, ◌≤◌, ◌<◌, refl, true, some, [], ◌∷◌, arith}
use prism_auto_compounding_c.Prelude.Assoc.{lookup}
use prism_auto_compounding_c.Outcome.{ok}
use prism_auto_compounding_c.Platform.Reference.{reference}
use prism_auto_compounding_c.Protocol.Hub.{UnbondHistory, receive}
use prism_auto_compounding_c.SignedInt.{from_subtraction}
use prism_auto_compounding_c.Hub.Store.{Store, read_unbond_history, store_unbond_history}
use prism_auto_compounding_c.Hub.Withdraw.{
  due_history, count_unbonded, actual_unbonded, release_history, release_batches, release_counted,
  process_withdraw_rate,
}
use prism_auto_compounding_c.Hub.Withdraw.Shares.{unbonded_of, share_of}
use prism_auto_compounding_c.Hub.Sample.{querier, from_user}
use prism_auto_compounding_c.Hub.Invariant.Reach.{Reach-IsValid}
use prism_auto_compounding_c.Hub.Invariant.Scenario.{
  closed_batch, closed_store, closed-Reach, token_store, token-Reach, later, from_alice,
  unbond_messages, unbond_run,
}
use prism_auto_compounding_c.Hub.Claims.Own.{Claimed, execute-Claimed}
use prism_auto_compounding_c.Hub.Claims.{IsCovered}
use prism_auto_compounding_c.Hub.Claims.Reach.{Reach-IsCovered}

Reach-IsCovered_example : IsCovered closed_store
Reach-IsCovered_example = Reach-IsCovered closed_store closed-Reach

abbrev released_store : Store
released_store = record closed_store {
  histories = (1, record closed_batch { withdraw_rate = 877777777777777777; released = true }) ∷ [];
  state = record (closed_store.state) { last_processed_batch = 1 };
}

release_run : process_withdraw_rate 200 80 closed_store ≡ ok released_store
unfolding process_withdraw_rate from_subtraction count_unbonded due_history read_unbond_history
    release_counted release_batches release_history actual_unbonded store_unbond_history
release_run = refl

the_first :
    (k : ℕ) (h : UnbondHistory)
    → 0 < k
    → k ≤ 1
    → lookup k closed_store.histories ≡ some h
    → 80 < 90
    → share_of 90 10 h < unbonded_of h
the_first k h low high found loss =
    let only : k ≡ 1 = omega arith in
    let here : some closed_batch ≡ some h = rw only at found in
    let same : h ≡ closed_batch = cc in rw same (omega arith)

-- Alice's request is her own doing, and leaves Bob's claim.
execute-Claimed_example :
    Claimed (from_user "token") token_store (receive from_alice) closed_store "alice" 1
execute-Claimed_example =
    execute-Claimed querier later (from_user "token") (receive from_alice) token_store closed_store
      unbond_messages "alice" 1 unbond_run (Reach-IsValid token_store token-Reach)
