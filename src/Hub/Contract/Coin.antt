-- ===== src/Hub/Contract/Coin.antt =====
-- The coin that the hub bonds is named when it is set up; no message and no migration changes it.
use prism_auto_compounding_c.Prelude.{
  ℕ, String, ◌≡◌, Option, Bool-cases, inl, inr, Bool, List, arith, ap, true, false,
}
use prism_auto_compounding_c.Outcome.{Outcome, ok}
use prism_auto_compounding_c.Platform.{Platform}
use prism_auto_compounding_c.Chain.{Env, MessageInfo, Querier, CosmosMsg}
use prism_auto_compounding_c.Protocol.Hub.{ExecuteMsg, MigrateMsg, InstantiateMsg, Parameters}
use prism_auto_compounding_c.Hub.Store.{Store}
use prism_auto_compounding_c.Hub.Admin.{
  LegacyConfig, execute_pause, execute_update_params, execute_update_config, execute_update_admin,
  migrate, migrate_config,
}
use prism_auto_compounding_c.Hub.Instantiate.{instantiate}
use prism_auto_compounding_c.Hub.Contract.{execute}
use prism_auto_compounding_c.Hub.Contract.Dispatch.{
  Ran, ran_params, ran_config, ran_admin, ran_pause, ran_unpause, execute-Ran,
}
use prism_auto_compounding_c.Hub.Contract.Settings.{sets, execute-SameSettings}

abbrev pub coin_of : Store → String
coin_of s = s.parameters.underlying_coin_denom

module _ ⦃p : Platform⦄ where
  params-coin :
      (sender : String) (a b c d f : Option ℕ) (s s' : Store) (ms : List CosmosMsg)
      → execute_update_params sender a b c d f s ≡ ok (ms, s')
      → coin_of s' ≡ coin_of s
  unfolding execute_update_params
  params-coin sender a b c d f s s' ms e = ground arith

  config-coin :
      (sender : String) (token collector : Option String) (s s' : Store) (ms : List CosmosMsg)
      → execute_update_config sender token collector s ≡ ok (ms, s')
      → coin_of s' ≡ coin_of s
  unfolding execute_update_config
  config-coin sender token collector s s' ms e = ground arith

  pause-coin :
      (sender : String) (b : Bool) (s s' : Store) (ms : List CosmosMsg)
      → execute_pause sender b s ≡ ok (ms, s')
      → coin_of s' ≡ coin_of s
  unfolding execute_pause
  pause-coin sender b s s' ms e = ground arith

  admin-coin :
      (sender admin : String) (s s' : Store) (ms : List CosmosMsg)
      → execute_update_admin sender admin s ≡ ok (ms, s')
      → coin_of s' ≡ coin_of s
  unfolding execute_update_admin
  admin-coin sender admin s s' ms e = ground arith

  setting-coin :
      (q : Querier) (env : Env) (info : MessageInfo) (s s' : Store) {msg : ExecuteMsg}
      (ms : List CosmosMsg)
      → sets msg ≡ true
      → Ran q env info s s' ms msg
      → coin_of s' ≡ coin_of s
  setting-coin q env info s s' ms set (ran_params a b c d f e) =
      params-coin info.sender a b c d f s s' ms e
  setting-coin q env info s s' ms set (ran_config token collector e) =
      config-coin info.sender token collector s s' ms e
  setting-coin q env info s s' ms set (ran_admin admin e) = admin-coin info.sender admin s s' ms e
  setting-coin q env info s s' ms set (ran_pause e) = pause-coin info.sender true s s' ms e
  setting-coin q env info s s' ms set (ran_unpause e) = pause-coin info.sender false s s' ms e
  setting-coin q env info s s' ms set _ = absurd (cc)

  pub execute-coin :
      (q : Querier) (env : Env) (info : MessageInfo) (s s' : Store) (msg : ExecuteMsg)
      (ms : List CosmosMsg)
      → execute q env info s msg ≡ ok (ms, s')
      → coin_of s' ≡ coin_of s
  execute-coin q env info s s' msg ms e = elim (Bool-cases (sets msg)) [
    | inl set ↦ setting-coin q env info s s' ms set (execute-Ran q env info s s' msg ms e)
    | inr other ↦
        ap (λ (t : Parameters). t.underlying_coin_denom)
          ((execute-SameSettings q env info s s' msg ms other e).parameters)
  ]

  pub migrate-coin :
      (legacy : Outcome LegacyConfig) (msg : MigrateMsg) (s s' : Store) (ms : List CosmosMsg)
      → migrate legacy msg s ≡ ok (ms, s')
      → coin_of s' ≡ coin_of s
  unfolding migrate migrate_config
  migrate-coin legacy msg s s' ms e = ground arith

  pub instantiate-coin :
      (env : Env) (info : MessageInfo) (msg : InstantiateMsg) (s : Store) (ms : List CosmosMsg)
      → instantiate env info msg ≡ ok (ms, s)
      → coin_of s ≡ msg.underlying_coin_denom
  unfolding instantiate
  instantiate-coin env info msg s ms e = ground arith
