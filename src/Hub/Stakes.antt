-- ===== src/Hub/Stakes.antt =====
-- What a handler's messages stake and unstake, against the stored bond.
pub mod Flows
pub mod Messages
mod Tests
use prism_auto_compounding_c.Prelude.{
  ℕ, ◌+◌, ◌≡◌, refl, List, [], ◌∷◌, ◌++◌, arith, append-nil, All, All-imp, sum_by, sum_by-append,
  sum_by_zero,
}
use prism_auto_compounding_c.Chain.{
  CosmosMsg, IsTokenless, IsMute, delegate, undelegate, redelegate, withdraw_delegator_reward,
  set_withdraw_address, bank_send, wasm_execute, token_mint, token_burn, to_hub, to_rewards,
}

abbrev delegated_by : CosmosMsg → ℕ
delegated_by (delegate _ c) = c.amount
delegated_by _ = 0

abbrev undelegated_by : CosmosMsg → ℕ
undelegated_by (undelegate _ c) = c.amount
undelegated_by _ = 0

abbrev pub delegated : List CosmosMsg → ℕ
delegated = sum_by delegated_by

abbrev pub undelegated : List CosmosMsg → ℕ
undelegated = sum_by undelegated_by

pub delegated-append : (a b : List CosmosMsg) → delegated (a ++ b) ≡ delegated a + delegated b
delegated-append = sum_by-append delegated_by

pub undelegated-append :
    (a b : List CosmosMsg) → undelegated (a ++ b) ≡ undelegated a + undelegated b
undelegated-append = sum_by-append undelegated_by

mute_one :
    (m : CosmosMsg) → IsMute m → IsTokenless m × (delegated_by m ≡ 0) × (undelegated_by m ≡ 0)
mute_one (redelegate _ _ _) h = (tt, refl, refl)
mute_one (withdraw_delegator_reward _) h = (tt, refl, refl)
mute_one (set_withdraw_address _) h = (tt, refl, refl)
mute_one (wasm_execute _ (to_hub _) _) h = (tt, refl, refl)
mute_one (wasm_execute _ (to_rewards _) _) h = (tt, refl, refl)
mute_one (wasm_execute _ (token_mint _ _) _) h = absurd h
mute_one (wasm_execute _ (token_burn _) _) h = absurd h
mute_one (delegate _ _) h = absurd h
mute_one (undelegate _ _) h = absurd h
mute_one (bank_send _ _) h = absurd h

-- Mute messages mint, burn, stake and unstake nothing.
pub mute_flow :
    (ms : List CosmosMsg)
    → All IsMute ms
    → All IsTokenless ms × (delegated ms ≡ 0) × (undelegated ms ≡ 0)
mute_flow ms h = (
  All-imp IsMute _ (λ m mute. (mute_one m mute).0) ms h,
  sum_by_zero delegated_by ms (All-imp IsMute _ (λ m mute. (mute_one m mute).1) ms h),
  sum_by_zero undelegated_by ms (All-imp IsMute _ (λ m mute. (mute_one m mute).2) ms h),
)

-- What a handler's messages stake, unstake, mint and burn.
pub record Flow : Type 0 where
  pub staked : ℕ
  pub unstaked : ℕ
  pub minted : ℕ
  pub burnt : ℕ

abbrev minted_by : CosmosMsg → ℕ
minted_by (wasm_execute _ (token_mint _ n) _) = n
minted_by _ = 0

abbrev burnt_by : CosmosMsg → ℕ
burnt_by (wasm_execute _ (token_burn n) _) = n
burnt_by _ = 0

abbrev pub minted_in : List CosmosMsg → ℕ
minted_in = sum_by minted_by

abbrev pub burnt_in : List CosmosMsg → ℕ
burnt_in = sum_by burnt_by

abbrev pub flow_of : List CosmosMsg → Flow
flow_of ms = record {
  staked = delegated ms;
  unstaked = undelegated ms;
  minted = minted_in ms;
  burnt = burnt_in ms;
}

abbrev pub still : Flow
still = record { staked = 0; unstaked = 0; minted = 0; burnt = 0 }

-- Messages that mint and burn nothing leave the rest's amounts.
pub tokenless-append :
    (a b : List CosmosMsg)
    → All IsTokenless a
    → (minted_in (a ++ b) ≡ minted_in b) × (burnt_in (a ++ b) ≡ burnt_in b)
tokenless-append (delegate _ _ ∷ a) b h =
    let (x, y) = tokenless-append a b h.1 in (omega arith, omega arith)
tokenless-append (undelegate _ _ ∷ a) b h =
    let (x, y) = tokenless-append a b h.1 in (omega arith, omega arith)
tokenless-append (redelegate _ _ _ ∷ a) b h =
    let (x, y) = tokenless-append a b h.1 in (omega arith, omega arith)
tokenless-append (withdraw_delegator_reward _ ∷ a) b h =
    let (x, y) = tokenless-append a b h.1 in (omega arith, omega arith)
tokenless-append (set_withdraw_address _ ∷ a) b h =
    let (x, y) = tokenless-append a b h.1 in (omega arith, omega arith)
tokenless-append (bank_send _ _ ∷ a) b h =
    let (x, y) = tokenless-append a b h.1 in (omega arith, omega arith)
tokenless-append (wasm_execute _ (to_hub _) _ ∷ a) b h =
    let (x, y) = tokenless-append a b h.1 in (omega arith, omega arith)
tokenless-append (wasm_execute _ (to_rewards _) _ ∷ a) b h =
    let (x, y) = tokenless-append a b h.1 in (omega arith, omega arith)
tokenless-append (wasm_execute _ (token_mint _ _) _ ∷ a) b h = absurd h.0
tokenless-append (wasm_execute _ (token_burn _) _ ∷ a) b h = absurd h.0
tokenless-append [] b h = (refl, refl)

pub tokenless_flow :
    (ms : List CosmosMsg) → All IsTokenless ms → (minted_in ms ≡ 0) × (burnt_in ms ≡ 0)
tokenless_flow ms h = let all = tokenless-append ms [] h in rw append-nil at all
