-- ===== src/Hub/Bond/Effect.antt =====
-- What bonding does: the bond grows by the payment, and no more is minted than it is worth.
use Prim.Native.Nat.{min}
use prism_auto_compounding_c.Prelude.{
  ℕ, String, ◌+◌, ◌-◌, ◌*◌, ◌/◌, ◌≤◌, ◌<◌, ◌≡◌, inl, inr, true, some, List, [], ◌∷◌, arith, eq_iff,
  Option-cases, length,
}
use prism_auto_compounding_c.Outcome.{ok, Outcome-cases, unwrap_or}
use prism_auto_compounding_c.Platform.{Platform, decimal_one}
use prism_auto_compounding_c.Chain.{
  Coin, Env, MessageInfo, Querier, CosmosMsg, delegate, wasm_execute, token_mint,
}
use prism_auto_compounding_c.Hub.Store.{Store, is_valid_validator}
use prism_auto_compounding_c.Hub.Rates.{update_exchange_rate, decimal_division}
use prism_auto_compounding_c.Hub.Slashing.{query_total_issued, slashing}
use prism_auto_compounding_c.Hub.Slashing.Laws.{SameButBond, update_exchange_rate_frame}
use prism_auto_compounding_c.Hub.Bond.{
  find_payment, mint_with_fee, bond_payment, settle_bond, execute_bond,
}

-- A payment that is found is a positive amount of the coin.
pub find_payment_lem :
    (denom : String) (funds : List Coin) (c : Coin)
    → find_payment denom funds ≡ some c
    → (c.denom ≡ denom) × (0 < c.amount)
unfolding find_payment
find_payment_lem denom [] c e = cc
find_payment_lem denom (x ∷ funds) c e =
    ground (arith, eq_iff x.denom denom, find_payment_lem denom funds c)

module _ ⦃p : Platform⦄ where
  open p use {uint_add, uint_add_lem, uint_checked_sub_lem, uint_mul_decimal_lem}

  -- The fee is at most the recovery fee's share.
  pub mint_with_fee_bounds :
      (s : Store) (payment supply amount minted : ℕ)
      → mint_with_fee s payment supply amount ≡ ok minted
      → (minted ≤ amount) × (amount ≤ minted + amount * s.parameters.peg_recovery_fee / decimal_one)
  unfolding mint_with_fee
  mint_with_fee_bounds s payment supply amount minted e =
      let fee : ℕ = amount * s.parameters.peg_recovery_fee / decimal_one in
      let claims : ℕ = supply + amount + s.current_batch.requested_with_fee in
      let bonded : ℕ = s.state.total_bond_amount + payment in
      ground (
        arith,
        uint_mul_decimal_lem amount s.parameters.peg_recovery_fee,
        uint_add_lem supply amount,
        uint_add_lem (supply + amount) s.current_batch.requested_with_fee,
        uint_add_lem s.state.total_bond_amount payment,
        uint_checked_sub_lem claims bonded,
        uint_checked_sub_lem amount (min fee (claims - bonded)),
      )

  mint_with_fee_full :
      (s : Store) (payment supply amount minted : ℕ)
      → mint_with_fee s payment supply amount ≡ ok minted
      → s.parameters.er_threshold ≤ s.state.exchange_rate
      → minted ≡ amount
  unfolding mint_with_fee
  mint_with_fee_full s payment supply amount minted e priced = ground arith

  bond_payment_lem :
      (s s' : Store) (payment supply minted : ℕ)
      → bond_payment s payment supply minted ≡ ok s'
      → SameButBond s s'
        × (s'.state.total_bond_amount ≡ s.state.total_bond_amount + payment)
        × (update_exchange_rate
              (record (s.state) { total_bond_amount = s.state.total_bond_amount + payment })
              (supply + minted)
              s.current_batch.requested_with_fee
            ≡ ok s'.state)
  unfolding bond_payment
  bond_payment_lem s s' payment supply minted e =
      let st0 = record (s.state) { total_bond_amount = s.state.total_bond_amount + payment } in
      elim (Outcome-cases
        (update_exchange_rate st0 (supply + minted) s.current_batch.requested_with_fee)) [
          | inr other ↦ absurd (
              ground
                (arith, uint_add_lem supply minted, uint_add_lem s.state.total_bond_amount payment))
          | inl (st, updated) ↦
              let frame = update_exchange_rate_frame _ st (supply + minted) _ updated in
              let same : s' ≡ record s { state = st } = ground (
                arith,
                uint_add_lem supply minted,
                uint_add_lem s.state.total_bond_amount payment,
              ) in
              rw same (
                record {
                  bond = s.state.total_bond_amount + payment;
                  rate = st.exchange_rate;
                  only = ground (arith, frame);
                },
                ground (arith, frame),
                updated,
              )
        ]

-- What a bond of a user does, from the store `s1` that the check for slashing leaves.
pub record Bonds ⦃p : Platform⦄ (q : Querier) (user validator denom : String) (funds : List Coin)
    (s1 s' : Store) (ms : List CosmosMsg) : Type 0 where
  pub payment : Coin
  pub found : find_payment denom funds ≡ some payment
  pub in_coin : payment.denom ≡ denom
  pub positive : 0 < payment.amount
  pub worth : ℕ
  pub priced : decimal_division payment.amount s1.state.exchange_rate ≡ ok worth
  pub minted : ℕ
  pub minted_le : minted ≤ worth
  pub fee_bound : worth ≤ minted + worth * s1.parameters.peg_recovery_fee / decimal_one
  pub full : s1.parameters.er_threshold ≤ s1.state.exchange_rate → minted ≡ worth
  pub supply : ℕ
  pub issued : unwrap_or (query_total_issued q s1) 0 ≡ ok supply
  pub only_bond : SameButBond s1 s'
  pub bonded : s'.state.total_bond_amount ≡ s1.state.total_bond_amount + payment.amount
  pub rated :
      update_exchange_rate
        (record (s1.state) { total_bond_amount = s1.state.total_bond_amount + payment.amount })
        (supply + minted)
        s1.current_batch.requested_with_fee
      ≡ ok s'.state
  pub token_raw : String
  pub token_set : s1.config.token_contract ≡ some token_raw
  pub token : String
  pub token_human : p.api.addr_humanize token_raw ≡ ok token
  pub sent : ms ≡ delegate validator payment ∷ wasm_execute token (token_mint user minted) [] ∷ []

module _ ⦃p : Platform⦄ where
  open p use {addr_humanize}

  settle_bond_lem :
      (q : Querier) (user validator denom : String) (funds : List Coin) (payment : Coin)
      (supply : ℕ) (s s' : Store) (ms : List CosmosMsg)
      → find_payment denom funds ≡ some payment
      → unwrap_or (query_total_issued q s) 0 ≡ ok supply
      → settle_bond user validator payment supply s ≡ ok (ms, s')
      → Bonds q user validator denom funds s s' ms
  unfolding settle_bond
  settle_bond_lem q user validator denom funds payment supply s s' ms found issued e =
      let (in_coin, positive) = find_payment_lem denom funds payment found in
      elim (Outcome-cases (decimal_division payment.amount s.state.exchange_rate)) [
        | inr other ↦ absurd (ground arith)
        | inl (worth, priced) ↦ elim (Outcome-cases (mint_with_fee s payment.amount supply worth)) [
          | inr other ↦ absurd (ground arith)
          | inl (minted, less) ↦
              elim (Outcome-cases (bond_payment s payment.amount supply minted)) [
                | inr other ↦ absurd (ground arith)
                | inl (s2, settled) ↦ elim (Option-cases (s2.config.token_contract)) [
                  | inl unset ↦ absurd (ground arith)
                  | inr (raw, set) ↦ elim (Outcome-cases (addr_humanize raw)) [
                    | inr other ↦ absurd (ground arith)
                    | inl (token, human) ↦
                        let (frame, bonded, updated) =
                          bond_payment_lem s s2 payment.amount supply minted settled in
                        let (le, fee) =
                          mint_with_fee_bounds s payment.amount supply worth minted less in
                        let same : s' ≡ s2 = ground arith in
                        record {
                          payment = payment;
                          found = found;
                          supply = supply;
                          issued = issued;
                          rated = rw same updated;
                          token_raw = raw;
                          token_set = ground (arith, frame.only);
                          token_human = human;
                          in_coin = in_coin;
                          positive = positive;
                          worth = worth;
                          priced = priced;
                          minted = minted;
                          minted_le = le;
                          fee_bound = fee;
                          full = mint_with_fee_full s payment.amount supply worth minted less;
                          only_bond = rw same frame;
                          bonded = rw same bonded;
                          token = token;
                          sent = ground arith;
                        }
                  ]
                ]
              ]
        ]
      ]

  -- A bond that returns was for a whitelisted validator and paid by one coin, a positive amount
  -- of the underlying coin. It delegates the payment to the validator, mints at most the tokens
  -- that the payment is worth at the rate after the check for slashing, less at most the
  -- recovery fee and with no fee at the threshold or above, raises the bond by the payment, and
  -- changes nothing else but the rate.
  pub execute_bond_lem :
      (q : Querier) (env : Env) (info : MessageInfo) (validator : String) (s s' : Store)
      (ms : List CosmosMsg)
      → execute_bond q env info validator s ≡ ok (ms, s')
      → (is_valid_validator s validator ≡ true)
        × (length info.funds ≤ 1)
        × (s1 : Store) × (slashing q env s ≡ ok s1)
        × Bonds q info.sender validator s.parameters.underlying_coin_denom info.funds s1 s' ms
  unfolding execute_bond
  execute_bond_lem q env info validator s s' ms e =
      let denom = s.parameters.underlying_coin_denom in
      elim (Option-cases (find_payment denom info.funds)) [
        | inl missing ↦ absurd (ground arith)
        | inr (payment, found) ↦ elim (Outcome-cases (slashing q env s)) [
          | inr other ↦ absurd (ground arith)
          | inl (s1, checked) ↦ elim (Outcome-cases (unwrap_or (query_total_issued q s1) 0)) [
            | inr other ↦ absurd (ground arith)
            | inl (supply, issued) ↦ (
              ground arith,
              ground arith,
              s1,
              checked,
              settle_bond_lem q info.sender validator denom info.funds payment supply s1 s' ms found
                  issued (ground arith),
            )
          ]
        ]
      ]
