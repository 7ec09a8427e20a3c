-- ===== src/Hub/Vault/Tests.antt =====
-- Alice's request closes the first batch: ninety of 990 tokens are burnt, and ninety of a thousand
-- coins leave the bond.
use prism_auto_compounding_c.Prelude.{ℕ, ◌+◌, ◌-◌, ◌≡◌, ◌≤◌, refl, arith, [], ◌∷◌}
use prism_auto_compounding_c.Platform.Reference.{reference}
use prism_auto_compounding_c.Protocol.Hub.{receive}
use prism_auto_compounding_c.Hub.Sample.{querier, from_user}
use prism_auto_compounding_c.Hub.Invariant.Scenario.{
  closed_store, later, token_store, from_alice, unbond_messages, unbond_run,
}
use prism_auto_compounding_c.Hub.Vault.{Event, VaultHistory}
use prism_auto_compounding_c.Hub.Vault.World.{
  terms_of, Token, World, vault_of, supply_after, WorldStep, act, rest, on,
}
use prism_auto_compounding_c.Hub.Vault.Refines.{WorldRun-VaultHistory}
use prism_auto_compounding_c.Hub.Vault.Backed.{IsBackedUnlessEmpty, WorldStep-IsBacked}

mint_adds : (n supply : ℕ) → supply + n ≡ supply + n
mint_adds n supply = refl

burn_takes : (n supply : ℕ) → n ≤ supply → supply - n ≡ supply - n
burn_takes n supply le = refl

instance token : Token
token = record {
  minted = λ n supply. supply + n;
  burnt = λ n supply. supply - n;
  minted_lem = mint_adds;
  burnt_lem = burn_takes;
}

abbrev before : World
before = record { hub = token_store; supply = 990 }

abbrev after : World
after = record { hub = closed_store; supply = 900 }

burnt_supply : 900 ≡ supply_after ⦃t = token⦄ unbond_messages 990
unfolding token
burnt_supply = refl

-- The delegations hold the whole bond of a thousand.
abbrev alice_event : Event
alice_event = record {
  left = 1000;
  terms = terms_of token_store;
  flow = record { staked = 0; unstaked = 90; minted = 0; burnt = 90 };
}

alice_step : WorldStep ⦃t = token⦄ before alice_event after
alice_step =
    act querier later (from_user "token") (receive from_alice) unbond_messages (λ _ _ _ _. refl)
      unbond_run burnt_supply refl

WorldRun-VaultHistory_example : VaultHistory (vault_of before) (alice_event ∷ []) (vault_of after)
WorldRun-VaultHistory_example =
    WorldRun-VaultHistory before after (alice_event ∷ []) (on rest alice_step)

WorldStep-IsBacked_example : IsBackedUnlessEmpty (vault_of after)
WorldStep-IsBacked_example = WorldStep-IsBacked before after alice_event alice_step (omega arith)
