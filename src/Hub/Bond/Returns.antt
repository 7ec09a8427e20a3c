-- ===== src/Hub/Bond/Returns.antt =====
-- A bond in a hub that was not slashed goes through.
use prism_auto_compounding_c.Prelude.{
  ℕ, String, ◌+◌, ◌*◌, ◌/◌, ◌≤◌, ◌<◌, ◌≡◌, refl, true, List, [], ◌∷◌, arith, str_eq_refl,
}
use prism_auto_compounding_c.Outcome.{ok, expect, token_not_registered, ◌>>=◌}
use prism_auto_compounding_c.Platform.{Platform, decimal_one, uint128_max}
use prism_auto_compounding_c.Chain.{
  Coin, Delegation, Env, MessageInfo, Querier, delegate, wasm_execute, token_mint,
}
use prism_auto_compounding_c.Hub.Store.{Store, is_valid_validator}
use prism_auto_compounding_c.Hub.Rates.{decimal_fractional, update_exchange_rate}
use prism_auto_compounding_c.Hub.Rates.Bounds.{decimal_division_lem}
use prism_auto_compounding_c.Hub.Slashing.{query_total_issued}
use prism_auto_compounding_c.Hub.Slashing.Laws.{bonded_in}
use prism_auto_compounding_c.Hub.Slashing.Idle.{slashing_idle, the_token}
use prism_auto_compounding_c.Hub.Bond.{
  find_payment, mint_with_fee, bond_payment, settle_bond, execute_bond,
}

-- What a payment mints at the stored rate.
abbrev pub minted_for : Store → ℕ → ℕ
minted_for s payment = payment * decimal_fractional / (s.state.exchange_rate / decimal_fractional)

module _ ⦃p : Platform⦄ where
  open p use {uint_add_lem, decimal_from_ratio_lem, addr_humanize}

  -- What the hub needs for a payment: the bond is delegated, the answers and sums fit.
  pub record Accepts (q : Querier) (env : Env) (s : Store) (payment supply : ℕ)
      (ds : List Delegation) : Type 0 where
    pub delegations : q.all_delegations env.contract ≡ ok ds
    pub issued : query_total_issued q s ≡ ok supply
    pub held : s.state.total_bond_amount ≤ bonded_in s.parameters.underlying_coin_denom ds
    pub held_fits : bonded_in s.parameters.underlying_coin_denom ds ≤ uint128_max
    pub priced : s.parameters.er_threshold ≤ s.state.exchange_rate
    pub rate_low : decimal_fractional ≤ s.state.exchange_rate
    pub rate_high : s.state.exchange_rate ≤ uint128_max
    pub worth_fits :
        payment * decimal_one / (s.state.exchange_rate / decimal_fractional) ≤ uint128_max
    pub bond_fits : s.state.total_bond_amount + payment ≤ uint128_max
    pub claims_fit :
        supply + minted_for s payment + s.current_batch.requested_with_fee ≤ uint128_max
    pub rate_fits :
        (s.state.total_bond_amount + payment)
          * decimal_one
          / (supply + minted_for s payment + s.current_batch.requested_with_fee)
        ≤ uint128_max

  -- The store behind the payment.
  abbrev bonded_store : Store → ℕ → ℕ → Store
  bonded_store s payment supply = record s {
    state = record (s.state) {
      total_bond_amount = s.state.total_bond_amount + payment;
      exchange_rate =
          (s.state.total_bond_amount + payment)
          * decimal_one
          / (supply + minted_for s payment + s.current_batch.requested_with_fee);
    };
  }

  bond_payment_returns :
      (q : Querier) (env : Env) (s : Store) (payment supply : ℕ) (ds : List Delegation)
      → Accepts q env s payment supply ds
      → 0 < payment
      → 0 < minted_for s payment
      → bond_payment s payment supply (minted_for s payment) ≡ ok (bonded_store s payment supply)
  unfolding bond_payment update_exchange_rate
  bond_payment_returns q env s payment supply ds a positive some_minted =
      let minted : ℕ = minted_for s payment in
      let bond_fits = a.bond_fits in
      let claims_fit = a.claims_fit in
      let rate_fits = a.rate_fits in
      ground (
        arith,
        uint_add_lem supply minted,
        uint_add_lem s.state.total_bond_amount payment,
        uint_add_lem (supply + minted) s.current_batch.requested_with_fee,
        decimal_from_ratio_lem (s.state.total_bond_amount + payment)
            (supply + minted + s.current_batch.requested_with_fee),
      )

  settle_bond_returns :
      (q : Querier) (env : Env) (s : Store) (user v : String) (payment : Coin) (supply : ℕ)
      (ds : List Delegation) (token : String)
      → Accepts q env s payment.amount supply ds
      → 0 < payment.amount
      → 0 < minted_for s payment.amount
      → expect s.config.token_contract token_not_registered >>= addr_humanize ≡ ok token
      → settle_bond user v payment supply s
        ≡ ok (
          delegate v payment
              ∷ wasm_execute token (token_mint user (minted_for s payment.amount)) []
              ∷ [],
          bonded_store s payment.amount supply,
        )
  unfolding settle_bond mint_with_fee
  settle_bond_returns q env s user v payment supply ds token a positive some_minted human =
      let priced = a.priced in
      let (worth, _) =
        decimal_division_lem payment.amount s.state.exchange_rate (a.rate_low) (a.rate_high)
          (a.worth_fits) in
      let settled = bond_payment_returns q env s payment.amount supply ds a positive some_minted in
      ground (arith, priced, worth, settled, human)

  -- Where the bond is delegated, the rate is at the threshold of the recovery fee or above and the
  -- sums and rates fit, a bond for a whitelisted validator, paid by one coin, the underlying one,
  -- that is worth at least a token, goes through: the payment is delegated and joins the bond, and
  -- the tokens that it is worth at the rate, cut to nine digits, are minted without a fee.
  pub execute_bond_returns :
      (q : Querier) (env : Env) (info : MessageInfo) (v : String) (supply : ℕ) (payment : Coin)
      (s : Store) (ds : List Delegation)
      → is_valid_validator s v ≡ true
      → info.funds ≡ payment ∷ []
      → payment.denom ≡ s.parameters.underlying_coin_denom
      → Accepts q env s payment.amount supply ds
      → 0 < payment.amount
      → 0 < minted_for s payment.amount
      → (token : String) × (s' : Store) × (execute_bond q env info v s
          ≡ ok (
            delegate v payment
                ∷ wasm_execute token (token_mint info.sender (minted_for s payment.amount)) []
                ∷ [],
            s',
          ))
        × (s'.state.total_bond_amount ≡ s.state.total_bond_amount + payment.amount)
  unfolding execute_bond find_payment
  execute_bond_returns q env info v supply payment s ds listed funds coin a positive some_minted =
      let idle =
        slashing_idle q env s ds supply (a.delegations) (a.issued) (a.held_fits) (a.held) in
      let issued = a.issued in
      let (token, human) = the_token q s supply issued in
      let settled =
        settle_bond_returns q env s info.sender v payment supply ds token a positive some_minted
          human in
      let same = str_eq_refl s.parameters.underlying_coin_denom in
      (
        token,
        bonded_store s payment.amount supply,
        ground (arith, listed, funds, coin, idle, issued, settled, same),
        refl,
      )
