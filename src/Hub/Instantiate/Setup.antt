-- ===== src/Hub/Instantiate/Setup.antt =====
-- A new hub and its first message, the registration of its validator.
use prism_auto_compounding_c.Prelude.{
  String, ◌≡◌, refl, true, false, Option-cases, inl, inr, some, List, [], ◌∷◌, arith, eq_iff,
}
use prism_auto_compounding_c.Outcome.{ok}
use prism_auto_compounding_c.Platform.{Platform}
use prism_auto_compounding_c.Chain.{Coin, Env, MessageInfo, Querier, CosmosMsg}
use prism_auto_compounding_c.Protocol.Hub.{InstantiateMsg, register_validator}
use prism_auto_compounding_c.Hub.Store.{Store, contains, store_white_validators}
use prism_auto_compounding_c.Hub.Bond.{find_payment}
use prism_auto_compounding_c.Hub.Admin.{is_contract_paused}
use prism_auto_compounding_c.Hub.Validators.{execute_register_validator}
use prism_auto_compounding_c.Hub.Contract.{execute}
use prism_auto_compounding_c.Hub.Instantiate.{
  validate_params, first_messages, new_store, instantiate,
}

-- The hub as the sender of its own message.
abbrev pub by_hub : Env → MessageInfo
by_hub env = record { sender = env.contract; funds = [] }

module _ ⦃p : Platform⦄ where
  open p use {addr_canonicalize, addr_validate}

  -- A hub is set up with whatever parameters are asked for, also those that the check of the
  -- parameters names as wrong: it takes a positive amount of the coin that the message names and
  -- valid addresses, and no more.
  pub instantiate_accepts :
      (env : Env) (info : MessageInfo) (msg : InstantiateMsg) (payment : Coin)
      (raw admin rewards : String)
      → find_payment msg.underlying_coin_denom info.funds ≡ some payment
      → addr_canonicalize info.sender ≡ ok raw
      → addr_validate info.sender ≡ ok admin
      → addr_canonicalize msg.rewards_contract ≡ ok rewards
      → (ms : List CosmosMsg) × (s : Store) × (instantiate env info msg ≡ ok (ms, s))
        × (s.parameters ≡ record {
          epoch_period = msg.epoch_period;
          underlying_coin_denom = msg.underlying_coin_denom;
          unbonding_period = msg.unbonding_period;
          peg_recovery_fee = msg.peg_recovery_fee;
          er_threshold = msg.er_threshold;
          protocol_fee = msg.protocol_fee;
        })
        × (s.state.total_bond_amount ≡ payment.amount)
  unfolding instantiate validate_params
  instantiate_accepts env info msg payment raw admin rewards paid known valid set =
      let s = new_store env msg admin rewards payment.amount in
      (first_messages env msg payment, s, ground arith, refl, refl)

  -- The message that a new hub sends itself registers its validator, where that is one of the
  -- chain's: after it the whitelist is that validator alone.
  pub instantiate-register_validator :
      (q : Querier) (env : Env) (info : MessageInfo) (msg : InstantiateMsg) (s : Store)
      (ms : List CosmosMsg) (all : List String) (raw : String)
      → instantiate env info msg ≡ ok (ms, s)
      → q.all_validators ≡ ok all
      → contains all msg.validator ≡ true
      → addr_canonicalize env.contract ≡ ok raw
      → execute q env (by_hub env) s (register_validator msg.validator)
        ≡ ok ([], record s { validators = msg.validator ∷ [] })
  unfolding instantiate execute is_contract_paused execute_register_validator store_white_validators
  instantiate-register_validator q env info msg s ms all raw e asked listed known =
      let empty : s.validators ≡ [] = ground arith in
      let running : s.paused ≡ false = ground arith in
      elim (Option-cases (s.admin)) [
        | inl unset ↦ absurd (ground arith)
        | inr (admin, owner) ↦ ground (arith, eq_iff raw raw)
      ]
