-- ===== src/Hub/Invariant/Handlers.antt =====
-- Each handler of the hub keeps the invariant of the batches.
use prism_auto_compounding_c.Prelude.{ℕ, String, ◌≡◌, refl, inl, inr, List, ap, ◌∙◌}
use prism_auto_compounding_c.Outcome.{ok}
use prism_auto_compounding_c.Platform.{Platform}
use prism_auto_compounding_c.Chain.{Env, MessageInfo, Querier, CosmosMsg}
use prism_auto_compounding_c.Protocol.Hub.{State, CurrentBatch}
use prism_auto_compounding_c.Hub.Store.{Store, store_unbond_history}
use prism_auto_compounding_c.Hub.Slashing.{slashing}
use prism_auto_compounding_c.Hub.Slashing.Laws.{slashing_frame, update_exchange_rate_frame}
use prism_auto_compounding_c.Hub.Unbond.{execute_unbond}
use prism_auto_compounding_c.Hub.Unbond.Effect.{Requests, Saves, execute_unbond_lem}
use prism_auto_compounding_c.Hub.Unbond.Closing.{closing_history}
use prism_auto_compounding_c.Hub.Withdraw.{process_withdraw_rate, execute_withdraw_unbonded}
use prism_auto_compounding_c.Hub.Withdraw.Process.{process_withdraw_rate_lem}
use prism_auto_compounding_c.Hub.Withdraw.Payout.{withdraw_once}
use prism_auto_compounding_c.Hub.Invariant.Frames.{Untouched, SameButBond-Untouched}
use prism_auto_compounding_c.Hub.Invariant.{
  IsValid, Keeps, Keeps-IsValid, closed-IsValid, Releases-IsValid,
}

Untouched-Keeps : {s s' : Store} → Untouched s s' → Keeps s s'
Untouched-Keeps u = record {
  histories = u.histories;
  batch = ap (λ (b : CurrentBatch). b.id) u.batch;
  last = u.last;
}

pub Untouched-IsValid : {s s' : Store} → Untouched s s' → IsValid s → IsValid s'
Untouched-IsValid u v = Keeps-IsValid (Untouched-Keeps u) v

module _ ⦃p : Platform⦄ where
  open p use {
    uint_add, uint_checked_sub, uint_mul_decimal, decimal_from_ratio, decimal_add, addr_humanize,
    addr_canonicalize, gen_range,
  }

  saved-IsValid :
      (q : Querier) (env : Env) (amount : ℕ) (batch : CurrentBatch) (st : State) (s s' : Store)
      (ms : List CosmosMsg)
      → Saves q env amount batch st s s' ms
      → IsValid (record s { current_batch = batch; state = st })
      → IsValid s'
  unfolding store_unbond_history
  saved-IsValid q env amount batch st s s' ms saves v = elim (saves.outcome) [
    | inl (early, none_sent, same_batch, same_state, same_histories) ↦
        Keeps-IsValid
          (record {
            histories = same_histories;
            batch = ap (λ (b : CurrentBatch). b.id) same_batch;
            last = ap (λ (t : State). t.last_processed_batch) same_state;
          })
          v
    | inr (late, closes) ↦
        closed-IsValid _ s' (closing_history env batch st) refl refl
          (ap (λ (t : Store). t.histories) closes.recorded)
          (ap (λ (b : CurrentBatch). b.id) closes.next_batch)
          (ap (λ (t : State). t.last_processed_batch) closes.left) v
  ]

  -- The store between the request and its saving.
  pub requested-IsValid :
      (q : Querier) (env : Env) (amount supply : ℕ) (user : String) (s s1 s2 : Store)
      (batch : CurrentBatch) (st : State)
      → slashing q env s ≡ ok s1
      → Requests amount supply user s.current_batch s1 batch st s2
      → IsValid s
      → IsValid (record s2 { current_batch = batch; state = st })
  requested-IsValid q env amount supply user s s1 s2 batch st checked requests v =
      let first = Untouched-Keeps (SameButBond-Untouched (slashing_frame q env s s1 checked)) in
      let rated = update_exchange_rate_frame _ st _ _ requests.rate in
      Keeps-IsValid
        (record {
          histories = ap (λ (t : Store). t.histories) requests.only_lists ∙ first.histories;
          batch = ap (λ (b : CurrentBatch). b.id) requests.joined;
          last = ap (λ (t : State). t.last_processed_batch) rated ∙ first.last;
        })
        v

  pub execute_unbond-IsValid :
      (q : Querier) (env : Env) (amount : ℕ) (user : String) (s s' : Store) (ms : List CosmosMsg)
      → execute_unbond q env amount user s ≡ ok (ms, s')
      → IsValid s
      → IsValid s'
  execute_unbond-IsValid q env amount user s s' ms e v =
      let (s1, supply, batch, st, s2, checked, issued, requests, saves) =
        execute_unbond_lem q env amount user s s' ms e in
      saved-IsValid q env amount batch st s2 s' ms saves
        (requested-IsValid q env amount supply user s s1 s2 batch st checked requests v)

  pub process_withdraw_rate-IsValid :
      (ht balance : ℕ) (s s' : Store)
      → process_withdraw_rate ht balance s ≡ ok s'
      → IsValid s
      → IsValid s'
  process_withdraw_rate-IsValid ht balance s s' e v =
      let released = process_withdraw_rate_lem ht balance s s' e in
      Releases-IsValid _ _ _ s'.state.last_processed_batch s (record s { histories = s'.histories })
        s' (released.run) refl (ap (λ (t : Store). t.current_batch.id) released.rest) refl v

  pub execute_withdraw_unbonded-IsValid :
      (q : Querier) (env : Env) (info : MessageInfo) (s s' : Store) (ms : List CosmosMsg)
      → execute_withdraw_unbonded q env info s ≡ ok (ms, s')
      → IsValid s
      → IsValid s'
  execute_withdraw_unbonded-IsValid q env info s s' ms e v =
      let (balance, s1, asked, processed, pays) = withdraw_once q env info s s' ms e in
      Keeps-IsValid
        (record {
          histories = ap (λ (t : Store). t.histories) pays.kept;
          batch = ap (λ (t : Store). t.current_batch.id) pays.kept;
          last = ap (λ (t : Store). t.state.last_processed_batch) pays.kept;
        })
        (process_withdraw_rate-IsValid _ balance s s1 processed v)
