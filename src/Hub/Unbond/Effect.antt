-- ===== src/Hub/Unbond/Effect.antt =====
-- What an unbond request does: it joins the current batch and the user's list, its tokens are
-- burnt, and when the epoch has passed the batch is undelegated and recorded.
use prism_auto_compounding_c.Prelude.{
  ℕ, String, ◌+◌, ◌-◌, ◌*◌, ◌/◌, ◌≤◌, ◌<◌, ◌≡◌, ◌≢◌, ◌⊎◌, inl, inr, some, List, [], ◌∷◌, ◌++◌,
  arith, ltb, Option-cases, Bool-cases, ap, subst,
}
use prism_auto_compounding_c.Prelude.Assoc.{lookup, insert}
use prism_auto_compounding_c.Outcome.{ok, Outcome-cases, unwrap_or}
use prism_auto_compounding_c.Platform.{Platform, decimal_one}
use prism_auto_compounding_c.Chain.{Env, Querier, CosmosMsg, wasm_execute, token_burn}
use prism_auto_compounding_c.Protocol.Hub.{State, CurrentBatch}
use prism_auto_compounding_c.Hub.Store.{Store, store_unbond_wait_list, store_unbond_history}
use prism_auto_compounding_c.Hub.Rates.{update_exchange_rate}
use prism_auto_compounding_c.Hub.Slashing.{query_total_issued, slashing}
use prism_auto_compounding_c.Hub.Unbond.{
  amount_less_fee, close_if_due, request_unbond, save_unbond, execute_unbond,
}
use prism_auto_compounding_c.Hub.Unbond.Asked.{asked, store_unbond_wait_list_lem}
use prism_auto_compounding_c.Hub.Unbond.Closing.{Closes, close_batch_lem, amount_less_fee_bounds}

-- A request of `amount` tokens, of which `counted` count as unbonded.
pub record Requests ⦃p : Platform⦄ (amount supply : ℕ) (user : String) (batch : CurrentBatch)
    (s : Store) (batch' : CurrentBatch) (st' : State) (s' : Store) : Type 0 where
  pub counted : ℕ
  pub counted_le : counted ≤ amount
  pub fee_bound : amount ≤ counted + amount * s.parameters.peg_recovery_fee / decimal_one
  pub full : s.parameters.er_threshold ≤ s.state.exchange_rate → counted ≡ amount
  pub joined : batch' ≡ record batch { requested_with_fee = batch.requested_with_fee + counted }
  pub supplied : amount ≤ supply
  pub listed : lookup batch.id (s'.wait_lists user) ≡ some (asked s user batch.id + counted)
  pub other_batches :
      (b : ℕ) → b ≢ batch.id → lookup b (s'.wait_lists user) ≡ lookup b (s.wait_lists user)
  pub other_users : (u : String) → u ≢ user → s'.wait_lists u ≡ s.wait_lists u
  pub only_lists : s' ≡ record s { wait_lists = s'.wait_lists }
  pub inserted :
      s'.wait_lists user ≡ insert batch.id (asked s user batch.id + counted) (s.wait_lists user)
  pub rate :
      update_exchange_rate s.state (supply - amount) (batch.requested_with_fee + counted) ≡ ok st'

-- How the request is saved: either the epoch goes on, or the batch is closed.
pub record Saves ⦃p : Platform⦄ (q : Querier) (env : Env) (amount : ℕ) (batch : CurrentBatch)
    (st : State) (s s' : Store) (ms : List CosmosMsg) : Type 0 where
  pub undelegations : List CosmosMsg
  pub token_raw : String
  pub token_set : s.config.token_contract ≡ some token_raw
  pub token : String
  pub token_human : p.api.addr_humanize token_raw ≡ ok token
  pub sent : ms ≡ undelegations ++ wasm_execute token (token_burn amount) [] ∷ []
  pub kept :
      s' ≡ record s { histories = s'.histories; current_batch = s'.current_batch; state = s'.state }
  pub outcome :
      ((env.time ≤ st.last_unbonded_time + s.parameters.epoch_period)
        × (undelegations ≡ [])
        × (s'.current_batch ≡ batch)
        × (s'.state ≡ st)
        × (s'.histories ≡ s.histories))
      ⊎ ((st.last_unbonded_time + s.parameters.epoch_period < env.time)
          × Closes q env batch st s undelegations s'.current_batch s'.state
              (record s { histories = s'.histories }))

module _ ⦃p : Platform⦄ where
  open p use {uint_add, uint_add_lem, uint_checked_sub_lem, addr_humanize}

  amount_less_fee_full :
      (s : Store) (batch : CurrentBatch) (supply amount counted : ℕ)
      → amount_less_fee s batch supply amount ≡ ok counted
      → s.parameters.er_threshold ≤ s.state.exchange_rate
      → counted ≡ amount
  unfolding amount_less_fee
  amount_less_fee_full s batch supply amount counted e priced = ground arith

  request_unbond_lem :
      (amount supply : ℕ) (user : String) (batch batch' : CurrentBatch) (st' : State) (s s' : Store)
      → request_unbond amount user batch supply s ≡ ok (batch', st', s')
      → Requests amount supply user batch s batch' st' s'
  unfolding request_unbond
  request_unbond_lem amount supply user batch batch' st' s s' e =
      elim (Outcome-cases (amount_less_fee s batch supply amount)) [
        | inr other ↦ absurd (ground arith)
        | inl (counted, less) ↦
            elim (Outcome-cases (store_unbond_wait_list s batch.id user counted)) [
              | inr other ↦ absurd (ground (arith, uint_add_lem batch.requested_with_fee counted))
              | inl (s2, stored) ↦
                  let add = uint_add_lem batch.requested_with_fee counted in
                  let sub = uint_checked_sub_lem supply amount in
                  let same : s' ≡ s2 = ground (arith, add, sub) in
                  let (listed, batches, users, frame, inserted) =
                    store_unbond_wait_list_lem s s2 batch.id counted user stored in
                  let (le, fee) = amount_less_fee_bounds s batch supply amount counted less in
                  rw same (record {
                    counted = counted;
                    counted_le = le;
                    fee_bound = fee;
                    full = amount_less_fee_full s batch supply amount counted less;
                    joined = ground (arith, add, sub);
                    supplied = ground (arith, add, sub);
                    listed = listed;
                    other_batches = batches;
                    other_users = users;
                    only_lists = frame;
                    inserted = inserted;
                    rate = ground (arith, add, sub);
                  })
            ]
      ]

  -- `close_if_due`, by whether the epoch has passed.
  close_if_due_lem :
      (q : Querier) (env : Env) (batch batch' : CurrentBatch) (st st' : State) (s s' : Store)
      (ms : List CosmosMsg)
      → close_if_due q env batch st s ≡ ok (ms, batch', st', s')
      → ((env.time ≤ st.last_unbonded_time + s.parameters.epoch_period)
          × (ms ≡ [])
          × (batch' ≡ batch)
          × (st' ≡ st)
          × (s' ≡ s))
        ⊎ ((st.last_unbonded_time + s.parameters.epoch_period < env.time)
            × Closes q env batch st s ms batch' st' s')
  unfolding close_if_due
  close_if_due_lem q env batch batch' st st' s s' ms e =
      elim (Bool-cases (ltb s.parameters.epoch_period (env.time - st.last_unbonded_time))) [
        | inr open_epoch ↦
            inl (ground arith, ground arith, ground arith, ground arith, ground arith)
        | inl due ↦
            inr (ground arith, close_batch_lem q env batch batch' st st' s s' ms (ground arith))
      ]

  close_if_due_frame :
      (q : Querier) (env : Env) (batch batch' : CurrentBatch) (st st' : State) (s s' : Store)
      (ms : List CosmosMsg)
      → close_if_due q env batch st s ≡ ok (ms, batch', st', s')
      → s' ≡ record s { histories = s'.histories }
  unfolding store_unbond_history
  close_if_due_frame q env batch batch' st st' s s' ms e =
      elim (close_if_due_lem q env batch batch' st st' s s' ms e) [
        | inl (_, _, _, _, same) ↦ rw same
        | inr (_, c) ↦ rw (c.recorded)
      ]

  save_unbond_lem :
      (q : Querier) (env : Env) (amount : ℕ) (batch : CurrentBatch) (st : State) (s s' : Store)
      (ms : List CosmosMsg)
      → save_unbond q env amount batch st s ≡ ok (ms, s')
      → Saves q env amount batch st s s' ms
  unfolding save_unbond
  save_unbond_lem q env amount batch st s s' ms e =
      elim (Outcome-cases (close_if_due q env batch st s)) [
        | inr other ↦ absurd (ground arith)
        | inl ((undelegations, batch', st', s2), closed) ↦
            elim (Option-cases (s2.config.token_contract)) [
              | inl unset ↦ absurd (ground arith)
              | inr (raw, set) ↦ elim (Outcome-cases (addr_humanize raw)) [
                | inr other ↦ absurd (ground arith)
                | inl (token, human) ↦
                    let frame =
                      close_if_due_frame q env batch batch' st st' s s2 undelegations closed in
                    let same : s' ≡ record s2 { current_batch = batch'; state = st' } =
                      ground arith in
                    rw same (record {
                      undelegations = undelegations;
                      token_raw = raw;
                      token_set = ground (arith, frame);
                      token = token;
                      token_human = human;
                      sent = ground arith;
                      kept =
                          ap (λ (t : Store). record t { current_batch = batch'; state = st' })
                            frame;
                      outcome =
                          elim (close_if_due_lem q env batch batch' st st' s s2 undelegations
                            closed) [
                              | inl (early, none_sent, b, t, r) ↦
                                  inl (early, none_sent, b, t, ap (λ (x : Store). x.histories) r)
                              | inr (late, c) ↦ inr (
                                late,
                                subst
                                    (λ (x : Store).
                                      Closes q env batch st s undelegations batch' st' x)
                                    frame c,
                              )
                            ];
                    })
              ]
            ]
      ]

  -- An unbond request that returns: after the check for slashing the request joins the current
  -- batch and the user's list, less at most the recovery fee and with no fee at the threshold
  -- or above, and its tokens are burnt by the last message. Within the epoch nothing is
  -- undelegated; after it the batch is closed, its worth at the new rate undelegated and taken
  -- off the bond, and its history recorded.
  pub execute_unbond_lem :
      (q : Querier) (env : Env) (amount : ℕ) (user : String) (s s' : Store) (ms : List CosmosMsg)
      → execute_unbond q env amount user s ≡ ok (ms, s')
      → (s1 : Store) × (supply : ℕ) × (batch : CurrentBatch) × (st : State) × (s2 : Store)
        × (slashing q env s ≡ ok s1)
        × (unwrap_or (query_total_issued q s1) 0 ≡ ok supply)
        × Requests amount supply user s.current_batch s1 batch st s2
        × Saves q env amount batch st s2 s' ms
  unfolding execute_unbond
  execute_unbond_lem q env amount user s s' ms e = elim (Outcome-cases (slashing q env s)) [
    | inr other ↦ absurd (ground arith)
    | inl (s1, checked) ↦ elim (Outcome-cases (unwrap_or (query_total_issued q s1) 0)) [
      | inr other ↦ absurd (ground arith)
      | inl (supply, issued) ↦
          elim (Outcome-cases (request_unbond amount user s.current_batch supply s1)) [
            | inr other ↦ absurd (ground arith)
            | inl ((batch, st, s2), requested) ↦ (
              s1,
              supply,
              batch,
              st,
              s2,
              checked,
              issued,
              request_unbond_lem amount supply user s.current_batch batch st s1 s2 requested,
              save_unbond_lem q env amount batch st s2 s' ms (ground arith),
            )
          ]
    ]
  ]
