-- ===== src/Hub/Stakes/Messages.antt =====
-- Every message's stakes are booked in the bond.
use prism_auto_compounding_c.Prelude.{◌≡◌, List, arith}
use prism_auto_compounding_c.Outcome.{ok}
use prism_auto_compounding_c.Platform.{Platform}
use prism_auto_compounding_c.Chain.{Env, MessageInfo, Querier, CosmosMsg}
use prism_auto_compounding_c.Protocol.Hub.{ExecuteMsg}
use prism_auto_compounding_c.Hub.Store.{Store}
use prism_auto_compounding_c.Hub.Slashing.Left.{bond_before, slashing-left}
use prism_auto_compounding_c.Hub.Contract.{execute}
use prism_auto_compounding_c.Hub.Vault.Quiet.{Still, Quiet-Still, execute_withdraw_unbonded-Still}
use prism_auto_compounding_c.Hub.Vault.Acts.{
  Acts, bonds, asks, compounds, checks, pays, rests, execute-Acts,
}
use prism_auto_compounding_c.Hub.Stakes.Flows.{
  Booked, execute_bond-Booked, execute_update_exchange_rate-Booked, execute_unbond-Booked,
}

Still-Booked :
    (s s' : Store) (ms : List CosmosMsg) → Still s s' ms → Booked (s.state.total_bond_amount) s' ms
Still-Booked s s' ms silent =
    let bond = silent.bond in
    let staked = silent.staked in let unstaked = silent.unstaked in omega arith

module _ ⦃p : Platform⦄ where
  Acts-Booked :
      (q : Querier) (env : Env) (info : MessageInfo) (s s' : Store) {msg : ExecuteMsg}
      (ms : List CosmosMsg)
      → Acts q env info s msg s' ms
      → Booked (bond_before q env s msg) s' ms
  Acts-Booked q env info s s' ms (bonds v set e) =
      rw set (execute_bond-Booked q env info v s s' ms e)
  Acts-Booked q env info s s' ms (asks amount user set e) =
      rw set (execute_unbond-Booked q env amount user s s' ms e)
  Acts-Booked q env info s s' ms (compounds set e) =
      rw set (execute_update_exchange_rate-Booked q env info s s' ms e)
  Acts-Booked q env info s s' ms (checks set e silent) =
      let left = slashing-left q env s s' e in rw (set, silent) (omega arith)
  Acts-Booked q env info s s' ms (pays withdrawal e) =
      rw withdrawal (Still-Booked s s' ms (execute_withdraw_unbonded-Still q env info s s' ms e))
  Acts-Booked q env info s s' ms (rests set silent) =
      rw set (Still-Booked s s' ms (Quiet-Still silent))

  -- Every message that succeeds books in the bond what its own messages stake and unstake: the
  -- new bond and the undelegated amounts are together the bond that is left and the delegated
  -- amounts. For a bond, a cw20 message and a check for slashing, the bond that is left is the
  -- smaller of the old bond and of what the delegations hold in the coin, or the old bond where
  -- there are none; for any other message it is the old bond.
  pub execute-Booked :
      (q : Querier) (env : Env) (info : MessageInfo) (msg : ExecuteMsg) (s s' : Store)
      (ms : List CosmosMsg)
      → execute q env info s msg ≡ ok (ms, s')
      → Booked (bond_before q env s msg) s' ms
  execute-Booked q env info msg s s' ms e =
      Acts-Booked q env info s s' ms (execute-Acts q env info s s' msg ms e)
