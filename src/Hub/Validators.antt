-- ===== src/Hub/Validators.antt =====
-- contracts/prism_hub/src/config.rs: the whitelist of validators.
pub mod Whitelist
pub mod Kept
mod Tests
use prism_auto_compounding_c.Prelude.{
  String, not, ◌&&◌, Option, none, some, List, [], ◌∷◌, ◌==◌, str_eq, length, get_elem?,
}
use prism_auto_compounding_c.Outcome.{
  Outcome, ok, err, panic, ensure, reject_if, expect, not_admin, not_a_validator, last_validator,
  unwrapped, ◌>>=◌, ◌>>◌,
}
use prism_auto_compounding_c.Platform.{Platform}
use prism_auto_compounding_c.Chain.{
  Coin, Env, MessageInfo, Querier, CosmosMsg, redelegate, wasm_execute, to_hub,
}
use prism_auto_compounding_c.Protocol.Hub.{update_global_index}
use prism_auto_compounding_c.Hub.Store.{
  Store, contains, store_white_validators, remove_white_validators, read_validators,
}
use prism_auto_compounding_c.Hub.Admin.{unwrap_assert_admin}

module _ ⦃p : Platform⦄ where
  open p use {addr_canonicalize, gen_range}

  -- The admin and the contract itself may register; the validator must exist on the chain.
  unfoldable pub execute_register_validator :
      Querier → Env → MessageInfo → String → Store → Outcome (List CosmosMsg × Store)
  execute_register_validator q env info validator s = do
    admin ← expect s.admin unwrapped
    sender_raw ← addr_canonicalize info.sender
    contract_raw ← addr_canonicalize env.contract
    reject_if (not (str_eq info.sender admin) && not (str_eq contract_raw sender_raw)) not_admin
    all_validators ← q.all_validators
    ensure (contains all_validators validator) not_a_validator
    ok ([], store_white_validators s validator)

  redelegation : Env → String → String → Option Coin → List CosmosMsg
  redelegation env validator replaced_val none = []
  redelegation env validator replaced_val (some amount) =
      redelegate validator replaced_val amount
      ∷ wasm_execute env.contract (to_hub update_global_index) []
      ∷ []

  -- What is delegated to the removed validator goes to a remaining one, drawn at random.
  unfoldable pub move_delegation :
      Env → String → List String → Outcome (Option Coin) → Outcome (List CosmosMsg)
  unfolding redelegation
  move_delegation env validator validators (err _) = ok []
  move_delegation env validator validators (panic x) = panic x
  move_delegation env validator validators (ok delegated_amount) = do
    random_index ← gen_range env.height (length validators)
    replaced_val ← expect (get_elem? validators random_index) unwrapped
    ok (redelegation env validator replaced_val delegated_amount)

  unfoldable pub execute_deregister_validator :
      Querier → Env → MessageInfo → String → Store → Outcome (List CosmosMsg × Store)
  execute_deregister_validator q env info validator s = do
    unwrap_assert_admin s info.sender
    reject_if (length (read_validators s) == 1) last_validator
    let s1 = remove_white_validators s validator
    messages ←
        move_delegation env validator (read_validators s1) (q.delegation env.contract validator)
    ok (messages, s1)
