-- ===== src/Hub/Unbond/Closing.antt =====
-- A batch that is closed, and the fee of a request.
use Prim.Native.Nat.{min}
use prism_auto_compounding_c.Prelude.{
  ℕ, ◌+◌, ◌-◌, ◌*◌, ◌/◌, ◌≤◌, ◌≡◌, ◌≢◌, refl, inl, inr, false, List, arith,
}
use prism_auto_compounding_c.Outcome.{ok, Outcome-cases}
use prism_auto_compounding_c.Platform.{Platform, decimal_one}
use prism_auto_compounding_c.Chain.{Env, Querier, CosmosMsg}
use prism_auto_compounding_c.Protocol.Hub.{State, CurrentBatch, UnbondHistory}
use prism_auto_compounding_c.Hub.Store.{Store, store_unbond_history}
use prism_auto_compounding_c.Hub.Pick.{pick_validator}
use prism_auto_compounding_c.Hub.Unbond.{amount_less_fee, close_batch}

-- The history that a closed batch leaves, at the rate of its closing.
abbrev pub closing_history : Env → CurrentBatch → State → UnbondHistory
closing_history env batch st = record {
  batch_id = batch.id;
  time = env.time;
  amount = batch.requested_with_fee;
  applied_exchange_rate = st.exchange_rate;
  withdraw_rate = st.exchange_rate;
  released = false;
}

-- A batch that is closed: what it is worth at the rate is undelegated and leaves the bond.
pub record Closes ⦃p : Platform⦄ (q : Querier) (env : Env) (batch : CurrentBatch) (st : State)
    (s : Store) (ms : List CosmosMsg) (batch' : CurrentBatch) (st' : State) (s' : Store)
    : Type 0 where
  pub worth : ℕ
  pub priced : worth ≡ batch.requested_with_fee * st.exchange_rate / decimal_one
  pub not_one : worth ≢ 1
  pub picked : pick_validator q s worth env.contract env.height ≡ ok ms
  pub covered : worth ≤ st.total_bond_amount
  pub next_batch : batch' ≡ record { id = batch.id + 1; requested_with_fee = 0 }
  pub left : st' ≡ record st {
    total_bond_amount = st.total_bond_amount - worth;
    last_unbonded_time = env.time;
  }
  pub recorded : s' ≡ store_unbond_history s batch.id (closing_history env batch st)

module _ ⦃p : Platform⦄ where
  open p use {uint_add, uint_add_lem, uint_checked_sub_lem, uint_mul_decimal_lem, addr_humanize}

  pub close_batch_lem :
      (q : Querier) (env : Env) (batch batch' : CurrentBatch) (st st' : State) (s s' : Store)
      (ms : List CosmosMsg)
      → close_batch q env batch st s ≡ ok (ms, batch', st', s')
      → Closes q env batch st s ms batch' st' s'
  unfolding close_batch
  close_batch_lem q env batch batch' st st' s s' ms e =
      let worth : ℕ = batch.requested_with_fee * st.exchange_rate / decimal_one in
      let mul = uint_mul_decimal_lem batch.requested_with_fee st.exchange_rate in
      elim (Outcome-cases (pick_validator q s worth env.contract env.height)) [
        | inr other ↦ absurd (ground (arith, mul, uint_checked_sub_lem st.total_bond_amount worth))
        | inl (ms', picked) ↦
            let sub = uint_checked_sub_lem st.total_bond_amount worth in
            record {
              worth = worth;
              priced = refl;
              not_one = λ one. ground (arith, mul);
              picked = ground (arith, mul, sub);
              covered = ground (arith, mul, sub);
              next_batch = ground (arith, mul, sub);
              left = ground (arith, mul, sub);
              recorded = ground (arith, mul, sub);
            }
      ]

  -- The fee is at most the recovery fee's share.
  pub amount_less_fee_bounds :
      (s : Store) (batch : CurrentBatch) (supply amount counted : ℕ)
      → amount_less_fee s batch supply amount ≡ ok counted
      → (counted ≤ amount)
        × (amount ≤ counted + amount * s.parameters.peg_recovery_fee / decimal_one)
  unfolding amount_less_fee
  amount_less_fee_bounds s batch supply amount counted e =
      let fee : ℕ = amount * s.parameters.peg_recovery_fee / decimal_one in
      let claims : ℕ = supply + batch.requested_with_fee in
      let required : ℕ = claims - s.state.total_bond_amount in
      ground (
        arith,
        uint_mul_decimal_lem amount s.parameters.peg_recovery_fee,
        uint_add_lem supply batch.requested_with_fee,
        uint_checked_sub_lem claims s.state.total_bond_amount,
        uint_checked_sub_lem amount (min fee required),
      )
