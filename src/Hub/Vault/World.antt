-- ===== src/Hub/Vault/World.antt =====
-- The hub with its token as a vault. Of the token contract, a cw20 contract, only what a mint and
-- a burn make of its total supply is used.
use prism_auto_compounding_c.Prelude.{
  ℕ, String, ◌+◌, ◌-◌, ◌≤◌, ◌≡◌, refl, List, [], ◌∷◌, ◌++◌, append-nil, All, some,
}
use prism_auto_compounding_c.Outcome.{ok}
use prism_auto_compounding_c.Platform.{Platform}
use prism_auto_compounding_c.Chain.{
  Env, MessageInfo, Querier, CosmosMsg, IsTokenless, delegate, undelegate, redelegate,
  withdraw_delegator_reward, set_withdraw_address, bank_send, wasm_execute, token_mint, token_burn,
  to_hub, to_rewards,
}
use prism_auto_compounding_c.Protocol.Hub.{ExecuteMsg}
use prism_auto_compounding_c.Hub.Stakes.{flow_of}
use prism_auto_compounding_c.Hub.Store.{Store}
use prism_auto_compounding_c.Hub.Slashing.Left.{bond_before}
use prism_auto_compounding_c.Hub.Contract.{execute}
use prism_auto_compounding_c.Hub.Vault.{Vault, Terms, Event}

-- What a mint and a burn of an amount make of the token's total supply.
pub record Token : Type 0 where
  pub minted : ℕ → ℕ → ℕ
  pub burnt : ℕ → ℕ → ℕ
  pub minted_lem : (n supply : ℕ) → minted n supply ≡ supply + n
  pub burnt_lem : (n supply : ℕ) → n ≤ supply → burnt n supply ≡ supply - n

pub record World : Type 0 where
  pub hub : Store
  pub supply : ℕ

abbrev pub vault : Store → ℕ → Vault
vault s supply = record {
  assets = s.state.total_bond_amount;
  claims = supply + s.current_batch.requested_with_fee;
  rate = s.state.exchange_rate;
}

abbrev pub vault_of : World → Vault
vault_of w = vault w.hub w.supply

abbrev pub terms_of : Store → Terms
terms_of s = record { threshold = s.parameters.er_threshold; fee = s.parameters.peg_recovery_fee }

-- The event of a message: the bond on which it builds and what its own messages do.
abbrev pub event_of : Querier → Env → Store → ExecuteMsg → List CosmosMsg → Event
event_of q env s msg ms = record {
  left = bond_before q env s msg;
  terms = terms_of s;
  flow = flow_of ms;
}

module _ ⦃p : Platform⦄ where
  -- The registered token contract answers with the supply.
  abbrev pub Answers : Querier → Store → ℕ → Type 0
  Answers q s supply =
      (raw token : String)
      → s.config.token_contract ≡ some raw
      → p.api.addr_humanize raw ≡ ok token
      → q.token_supply token ≡ ok supply

module _ ⦃t : Token⦄ where
  -- The supply once the messages of a handler are done.
  abbrev pub supply_after : List CosmosMsg → ℕ → ℕ
  supply_after [] n = n
  supply_after (wasm_execute _ (token_mint _ m) _ ∷ ms) n = supply_after ms (t.minted m n)
  supply_after (wasm_execute _ (token_burn m) _ ∷ ms) n = supply_after ms (t.burnt m n)
  supply_after (_ ∷ ms) n = supply_after ms n

  pub supply_after-append :
      (a b : List CosmosMsg) (n : ℕ)
      → All IsTokenless a
      → supply_after (a ++ b) n ≡ supply_after b n
  supply_after-append [] b n h = refl
  supply_after-append (delegate _ _ ∷ a) b n h = supply_after-append a b n h.1
  supply_after-append (undelegate _ _ ∷ a) b n h = supply_after-append a b n h.1
  supply_after-append (redelegate _ _ _ ∷ a) b n h = supply_after-append a b n h.1
  supply_after-append (withdraw_delegator_reward _ ∷ a) b n h = supply_after-append a b n h.1
  supply_after-append (set_withdraw_address _ ∷ a) b n h = supply_after-append a b n h.1
  supply_after-append (bank_send _ _ ∷ a) b n h = supply_after-append a b n h.1
  supply_after-append (wasm_execute _ (to_hub _) _ ∷ a) b n h = supply_after-append a b n h.1
  supply_after-append (wasm_execute _ (to_rewards _) _ ∷ a) b n h = supply_after-append a b n h.1
  supply_after-append (wasm_execute _ (token_mint _ _) _ ∷ a) b n h = absurd h.0
  supply_after-append (wasm_execute _ (token_burn _) _ ∷ a) b n h = absurd h.0

  pub supply_after-IsTokenless :
      (a : List CosmosMsg) (n : ℕ) → All IsTokenless a → supply_after a n ≡ n
  supply_after-IsTokenless a n h = let all = supply_after-append a [] n h in rw append-nil at all

  -- One message to the hub that succeeds, where the query for the supply answers it truly, and
  -- the token contract does what the hub's messages tell it; with its event.
  pub data WorldStep ⦃p : Platform⦄ (w : World) (e : Event) (w' : World) : Type 0 where
    act :
        (q : Querier) (env : Env) (info : MessageInfo) (msg : ExecuteMsg) (ms : List CosmosMsg)
        → Answers q w.hub w.supply
        → execute q env info w.hub msg ≡ ok (ms, w'.hub)
        → w'.supply ≡ supply_after ms w.supply
        → e ≡ event_of q env w.hub msg ms
        → WorldStep w e w'

  -- Messages that succeed, with the event of each, the last one first.
  pub data WorldRun ⦃p : Platform⦄ (w : World) : List Event → World → Type 0 where
    rest : WorldRun w [] w
    on :
        {es : List Event} {e : Event} {u v : World}
        → WorldRun w es u
        → WorldStep u e v
        → WorldRun w (e ∷ es) v
