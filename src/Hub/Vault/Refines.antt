-- ===== src/Hub/Vault/Refines.antt =====
-- The hub's messages as acts of the vault (contracts/prism_hub/src/contract.rs, `execute`).
use prism_auto_compounding_c.Prelude.{refl, ℕ, ◌≡◌, List, arith}
use prism_auto_compounding_c.Outcome.{ok}
use prism_auto_compounding_c.Platform.{Platform}
use prism_auto_compounding_c.Chain.{Env, MessageInfo, Querier, CosmosMsg}
use prism_auto_compounding_c.Protocol.Hub.{ExecuteMsg}
use prism_auto_compounding_c.Hub.Stakes.{flow_of, tokenless_flow}
use prism_auto_compounding_c.Hub.Store.{Store}
use prism_auto_compounding_c.Hub.Contract.{execute}
use prism_auto_compounding_c.Hub.Vault.{
  Event, VaultAct, stays, deposits, VaultHistory, begin, then_act,
}
use prism_auto_compounding_c.Hub.Vault.World.{
  terms_of, event_of, Token, World, vault, vault_of, supply_after, supply_after-IsTokenless,
  Answers, WorldStep, act, WorldRun, rest, on,
}
use prism_auto_compounding_c.Hub.Vault.Quiet.{Still, Quiet-Still, execute_withdraw_unbonded-Still}
use prism_auto_compounding_c.Hub.Vault.Acts.{
  Acts, bonds, asks, compounds, checks, pays, rests, execute-Acts,
}
use prism_auto_compounding_c.Hub.Vault.Steps.{
  slashing-seen, execute_bond-VaultDeposit, execute_update_exchange_rate-VaultAct,
}
use prism_auto_compounding_c.Hub.Vault.Requests.{execute_unbond-VaultAct}

-- What a message that is still leaves of the vault, and what it does.
abbrev still_event : Store → List CosmosMsg → Event
still_event s ms = record {
  left = s.state.total_bond_amount;
  terms = terms_of s;
  flow = flow_of ms;
}

module _ ⦃t : Token⦄ where
  Still-VaultAct :
      (s s' : Store) (ms : List CosmosMsg) (supply : ℕ)
      → Still s s' ms
      → VaultAct (vault s supply) (still_event s ms) (vault s' (supply_after ms supply))
  Still-VaultAct s s' ms supply silent =
      let bond = silent.bond in
      let rate = silent.rate in
      let batch = silent.batch in
      let after = supply_after-IsTokenless ms supply (silent.tokenless) in
      let staked = silent.staked in
      let unstaked = silent.unstaked in
      let (minted, burnt) = tokenless_flow ms (silent.tokenless) in
      stays (ground arith) (ground arith)

module _ ⦃p : Platform⦄ ⦃t : Token⦄ where
  Acts-VaultAct :
      (q : Querier) (env : Env) (info : MessageInfo) (s s' : Store) {msg : ExecuteMsg}
      (ms : List CosmosMsg) (n : ℕ)
      → Answers q s n
      → Acts q env info s msg s' ms
      → VaultAct (vault s n) (event_of q env s msg ms) (vault s' (supply_after ms n))
  Acts-VaultAct q env info s s' ms n h (bonds v set e) =
      rw set (deposits (execute_bond-VaultDeposit q env info v s s' ms n h e))
  Acts-VaultAct q env info s s' ms n h (asks amount user set e) =
      rw set (execute_unbond-VaultAct q env amount user s s' ms n h e)
  Acts-VaultAct q env info s s' ms n h (compounds set e) =
      rw set (execute_update_exchange_rate-VaultAct q env info s s' ms n h e)
  Acts-VaultAct q env info s s' ms n h (checks set e silent) =
      rw (set, silent) (stays refl (slashing-seen q env s s' n h e))
  Acts-VaultAct q env info s s' ms n h (pays withdrawal e) =
      rw withdrawal
        (Still-VaultAct s s' ms n (execute_withdraw_unbonded-Still q env info s s' ms e))
  Acts-VaultAct q env info s s' ms n h (rests set silent) =
      rw set (Still-VaultAct s s' ms n (Quiet-Still silent))

  execute-VaultAct :
      (q : Querier) (env : Env) (info : MessageInfo) (msg : ExecuteMsg) (s s' : Store)
      (ms : List CosmosMsg) (n : ℕ)
      → Answers q s n
      → execute q env info s msg ≡ ok (ms, s')
      → VaultAct (vault s n) (event_of q env s msg ms) (vault s' (supply_after ms n))
  execute-VaultAct q env info msg s s' ms n h e =
      Acts-VaultAct q env info s s' ms n h (execute-Acts q env info s s' msg ms e)

  pub WorldStep-VaultAct :
      (w w' : World) (e : Event) → WorldStep w e w' → VaultAct (vault_of w) e (vault_of w')
  WorldStep-VaultAct w w' e (act q env info msg ms answers run supplied same) =
      rw (same, supplied)
        (execute-VaultAct q env info msg (w.hub) (w'.hub) ms (w.supply) answers run)

  -- The hub with its token refines the vault: whatever messages succeed, what they make of the
  -- bond, of the tokens and open requests, and of the rate is a history of the vault with the
  -- same events. An event is what the message's own messages stake, unstake, mint and burn, the
  -- threshold and the recovery fee, and what is left of the bond: for a bond, a cw20 message
  -- and a check for slashing the smaller of the bond and of what the delegations hold in the
  -- coin (the bond where there are none), else the bond. The vault first takes a loss that has
  -- left it less than its assets. Then it stays, or a positive payment is staked, joins the
  -- assets, and mints its worth at the rate cut to nine digits, or a request burns tokens and
  -- adds as many open claims, both less at most the recovery fee and with no fee at the
  -- threshold or above; claims that are settled with a request unstake their worth at the rate,
  -- which is at most their share of the assets; or a reward is staked, joins the assets, and
  -- raises the rate by its share for each claim. A loss, a payment and a request set the rate
  -- to the share of the assets for each claim, or to 1 where there are no assets or no claims.
  -- The queries for the supply are answered truly and the token contract mints and burns what
  -- it is told.
  pub WorldRun-VaultHistory :
      (w w' : World) (es : List Event)
      → WorldRun w es w'
      → VaultHistory (vault_of w) es (vault_of w')
  WorldRun-VaultHistory w _ _ rest = begin
  WorldRun-VaultHistory w _ _ (on {es} {e} {u} {v} run step) =
      then_act (WorldRun-VaultHistory w u es run) (WorldStep-VaultAct u v e step)
