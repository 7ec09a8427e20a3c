-- ===== src/Hub/Unbond/Returns.antt =====
-- An unbond request in a hub that was not slashed goes through, whether its epoch goes on or the
-- batch is closed.
use prism_auto_compounding_c.Prelude.{
  ℕ, String, ◌+◌, ◌-◌, ◌≤◌, ◌<◌, ◌≡◌, ◌≢◌, refl, inl, inr, List, [], ◌∷◌, ◌++◌, arith, length, ltb,
  str_eq_refl, Bool-cases,
}
use prism_auto_compounding_c.Prelude.Assoc.{insert, lookup-insert_self}
use prism_auto_compounding_c.Outcome.{ok, expect, token_not_registered, ◌>>=◌}
use prism_auto_compounding_c.Machine.{u64_max}
use prism_auto_compounding_c.Platform.{Platform, uint128_max}
use prism_auto_compounding_c.Chain.{Delegation, Env, Querier, CosmosMsg, wasm_execute, token_burn}
use prism_auto_compounding_c.Protocol.Hub.{State, CurrentBatch}
use prism_auto_compounding_c.Hub.Store.{
  Store, set_wait_list, store_unbond_wait_list, store_unbond_history,
}
use prism_auto_compounding_c.Hub.Rates.{update_exchange_rate}
use prism_auto_compounding_c.Hub.Slashing.{query_total_issued}
use prism_auto_compounding_c.Hub.Slashing.Laws.{bonded_in}
use prism_auto_compounding_c.Hub.Slashing.Idle.{slashing_idle, the_token}
use prism_auto_compounding_c.Hub.Pick.Total.{delegated, pick_validator_exact}
use prism_auto_compounding_c.Hub.Unbond.{
  amount_less_fee, close_batch, close_if_due, request_unbond, save_unbond, execute_unbond,
}
use prism_auto_compounding_c.Hub.Unbond.Closing.{closing_history}
use prism_auto_compounding_c.Hub.Unbond.Asked.{asked}
use prism_auto_compounding_c.Hub.Invariant.Reach.{Reach}
use prism_auto_compounding_c.Hub.Claims.Reach.{Reach-IsCovered}
use prism_auto_compounding_c.Hub.Unbond.Worth.{
  rate_for, closing_worth, bonded_in-le, closing_worth-le,
}

-- The store and the batch behind the request.
abbrev listed_store : Store → String → ℕ → Store
listed_store s user amount =
    let id = s.current_batch.id in
    set_wait_list s user (insert id (asked s user id + amount) (s.wait_lists user))

abbrev joined_batch : Store → ℕ → CurrentBatch
joined_batch s amount = record (s.current_batch) {
  requested_with_fee = s.current_batch.requested_with_fee + amount;
}

abbrev rated_state : Store → ℕ → State
rated_state s supply = record (s.state) { exchange_rate = rate_for s supply }

module _ ⦃p : Platform⦄ where
  open p use {
    uint_add_lem, uint_checked_sub_lem, uint_mul_decimal_lem, decimal_from_ratio_lem, addr_humanize,
  }

  request_unbond_returns :
      (s : Store) (user : String) (amount supply : ℕ)
      → s.parameters.er_threshold ≤ s.state.exchange_rate
      → 0 < s.state.total_bond_amount
      → amount ≤ supply
      → 0 < supply
      → asked s user s.current_batch.id + amount ≤ uint128_max
      → supply + s.current_batch.requested_with_fee ≤ uint128_max
      → rate_for s supply ≤ uint128_max
      → request_unbond amount user s.current_batch supply s
        ≡ ok (joined_batch s amount, rated_state s supply, listed_store s user amount)
  unfolding request_unbond amount_less_fee store_unbond_wait_list update_exchange_rate
  request_unbond_returns s user amount supply priced bonded le some_supply listed fits rate =
      let id = s.current_batch.id in
      let requested : ℕ = s.current_batch.requested_with_fee in
      let claims : supply - amount + (requested + amount) ≡ supply + requested = omega arith in
      ground (
        arith,
        uint_add_lem requested amount,
        uint_add_lem (asked s user id) amount,
        uint_checked_sub_lem supply amount,
        uint_add_lem (supply - amount) (requested + amount),
        decimal_from_ratio_lem s.state.total_bond_amount (supply + requested),
      )

  close_if_due_returns :
      (q : Querier) (env : Env) (s s2 : Store) (supply amount : ℕ) (ds : List Delegation)
      → q.all_delegations env.contract ≡ ok ds
      → s.state.total_bond_amount ≤ delegated ds
      → s.state.total_bond_amount ≤ uint128_max
      → amount ≤ supply
      → env.height + length ds ≤ u64_max
      → s.current_batch.id + 1 ≤ u64_max
      → s.state.last_unbonded_time ≤ env.time
      → closing_worth s supply amount ≢ 1
      → (ms : List CosmosMsg) × (batch : CurrentBatch) × (st : State) × (s' : Store) × (close_if_due
            q env
            (joined_batch s amount)
            (rated_state s supply)
            s2
          ≡ ok (ms, batch, st, s'))
        × (s'.wait_lists ≡ s2.wait_lists)
        × (s'.config ≡ s2.config)
  unfolding close_if_due close_batch store_unbond_history
  close_if_due_returns q env s s2 supply amount ds asked held fits le low next since not_one =
      let worth : ℕ = closing_worth s supply amount in
      let most = closing_worth-le s supply amount le in
      let (ms, picked, _) =
        pick_validator_exact q s2 worth env.height env.contract ds asked (omega arith) low in
      let mul =
        uint_mul_decimal_lem (s.current_batch.requested_with_fee + amount) (rate_for s supply) in
      let sub = uint_checked_sub_lem s.state.total_bond_amount worth in
      elim (Bool-cases (ltb s2.parameters.epoch_period (env.time - s.state.last_unbonded_time))) [
        | inl due ↦ (
          ms,
          record { id = s.current_batch.id + 1; requested_with_fee = 0 },
          record (rated_state s supply) {
            total_bond_amount = s.state.total_bond_amount - worth;
            last_unbonded_time = env.time;
          },
          store_unbond_history s2 s.current_batch.id
              (closing_history env (joined_batch s amount) (rated_state s supply)),
          ground (arith, mul, sub),
          refl,
          refl,
        )
        | inr waits ↦
            ([], joined_batch s amount, rated_state s supply, s2, ground arith, refl, refl)
      ]

  -- What the hub needs for a request: the bond is delegated, the answers and sums fit.
  pub record Healthy (q : Querier) (env : Env) (s : Store) (supply : ℕ) (ds : List Delegation)
      : Type 0 where
    pub delegations : q.all_delegations env.contract ≡ ok ds
    pub issued : query_total_issued q s ≡ ok supply
    pub held : s.state.total_bond_amount ≤ bonded_in s.parameters.underlying_coin_denom ds
    pub held_fits : bonded_in s.parameters.underlying_coin_denom ds ≤ uint128_max
    pub bonded : 0 < s.state.total_bond_amount
    pub priced : s.parameters.er_threshold ≤ s.state.exchange_rate
    pub claims_fit : supply + s.current_batch.requested_with_fee ≤ uint128_max
    pub rate_fits : rate_for s supply ≤ uint128_max
    pub height_fits : env.height + length ds ≤ u64_max
    pub id_fits : s.current_batch.id + 1 ≤ u64_max
    pub since : s.state.last_unbonded_time ≤ env.time

  save_unbond_returns :
      (q : Querier) (env : Env) (s s2 : Store) (supply amount : ℕ) (ds : List Delegation)
      (token : String)
      → Healthy q env s supply ds
      → amount ≤ supply
      → closing_worth s supply amount ≢ 1
      → s2.config ≡ s.config
      → expect s.config.token_contract token_not_registered >>= addr_humanize ≡ ok token
      → (ms : List CosmosMsg) × (s' : Store) × (save_unbond q env amount
            (joined_batch s amount)
            (rated_state s supply)
            s2
          ≡ ok (ms, s'))
        × (s'.wait_lists ≡ s2.wait_lists)
  unfolding save_unbond
  save_unbond_returns q env s s2 supply amount ds token h le not_one same human =
      let held = h.held in
      let fits = h.held_fits in
      let more = bonded_in-le s.parameters.underlying_coin_denom ds in
      let (ms, batch, st, s', closed, lists, config) =
        close_if_due_returns q env s s2 supply amount ds (h.delegations) (omega arith) (omega arith)
          le (h.height_fits) (h.id_fits) (h.since) not_one in
      (
        ms ++ wasm_execute token (token_burn amount) [] ∷ [],
        record s' { current_batch = batch; state = st },
        ground (arith, closed, config, same, human),
        lists,
      )

  -- In a hub that can be reached, whose bond is delegated and positive, whose rate is at the
  -- threshold of the recovery fee or above, and whose sums, ids and rate fit, a request to unbond
  -- at most the issued tokens, at which the open batch is not worth exactly 1, goes through:
  -- whether the epoch goes on or the batch is closed and undelegated, the whole amount joins the
  -- user's claim on the batch.
  pub execute_unbond_returns :
      (q : Querier) (env : Env) (user : String) (amount supply : ℕ) (s : Store)
      (ds : List Delegation)
      → Reach s
      → Healthy q env s supply ds
      → 0 < amount
      → amount ≤ supply
      → closing_worth s supply amount ≢ 1
      → (ms : List CosmosMsg) × (s' : Store) × (execute_unbond q env amount user s ≡ ok (ms, s'))
        × (asked s' user s.current_batch.id ≡ asked s user s.current_batch.id + amount)
  unfolding execute_unbond
  execute_unbond_returns q env user amount supply s ds reach h positive le not_one =
      let id = s.current_batch.id in
      let claim = (Reach-IsCovered s reach).claims (user ∷ []) id (refl, tt) in
      let all_fit = h.claims_fit in
      let own_fits : asked s user id + amount ≤ uint128_max = ground arith in
      let idle =
        slashing_idle q env s ds supply (h.delegations) (h.issued) (h.held_fits) (h.held) in
      let (token, human) = the_token q s supply (h.issued) in
      let issued = h.issued in
      let requested =
        request_unbond_returns s user amount supply (h.priced) (h.bonded) le (omega arith) own_fits
          all_fit (h.rate_fits) in
      let (ms, s', saved, lists) =
        save_unbond_returns q env s (listed_store s user amount) supply amount ds token h le not_one
          refl human in
      (
        ms,
        s',
        ground (arith, idle, issued, requested, saved),
        rw
            (
              lists,
              str_eq_refl user,
              lookup-insert_self id (asked s user id + amount) (s.wait_lists user),
            )
            refl,
      )
