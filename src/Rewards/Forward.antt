-- ===== src/Rewards/Forward.antt =====
-- What the rewards contract forwards, and who may make it do what (contract.rs, `execute`).
use prism_auto_compounding_c.Prelude.{
  ℕ, String, ◌≡◌, inl, inr, true, false, some, List, [], ◌∷◌, arith, eq_iff,
}
use prism_auto_compounding_c.Outcome.{ok, Outcome-cases}
use prism_auto_compounding_c.Platform.{Platform}
use prism_auto_compounding_c.Chain.{Env, MessageInfo, Querier, CosmosMsg, wasm_execute, to_hub}
use prism_auto_compounding_c.Protocol.Hub.{update_exchange_rate}
use prism_auto_compounding_c.Protocol.Rewards.{
  ExecuteMsg, pause, unpause, update_admin, process_rewards,
}
use prism_auto_compounding_c.Hub.Contract.Access.{is_admin_lem}
use prism_auto_compounding_c.Rewards.{
  Store, is_contract_paused, unwrap_assert_admin, execute_process_rewards, execute,
}

module _ ⦃p : Platform⦄ where
  open p use {addr_humanize, addr_validate}

  -- The two ways a message can succeed: the owner changed a setting and nothing is sent, or the
  -- hub asked for the whole balance while the contract was not paused, and nothing changed.
  abbrev pub Executed :
      Querier → Env → String → Store → ExecuteMsg → List CosmosMsg → Store → Type 0
  Executed q env sender s process_rewards ms s' =
      (s.paused ≡ false)
      × (addr_humanize s.config.hub_contract ≡ ok sender)
      × (balance : ℕ) × (q.balance env.contract s.config.underlying_coin_denom ≡ ok balance)
      × (ms
          ≡ wasm_execute sender (to_hub update_exchange_rate)
              (record { denom = s.config.underlying_coin_denom; amount = balance } ∷ [])
            ∷ [])
      × (s' ≡ s)
  Executed q env sender s pause ms s' =
      (s.admin ≡ some sender) × (ms ≡ []) × (s' ≡ record s { paused = true })
  Executed q env sender s unpause ms s' =
      (s.admin ≡ some sender) × (ms ≡ []) × (s' ≡ record s { paused = false })
  Executed q env sender s (update_admin new) ms s' =
      (s.paused ≡ false)
      × (s.admin ≡ some sender)
      × (ms ≡ [])
      × (admin : String) × (addr_validate new ≡ ok admin)
      × (s' ≡ record s { admin = some admin })

  process_rewards_lem :
      (q : Querier) (env : Env) (info : MessageInfo) (s s' : Store) (ms : List CosmosMsg)
      → execute q env info s process_rewards ≡ ok (ms, s')
      → Executed q env info.sender s process_rewards ms s'
  unfolding execute is_contract_paused execute_process_rewards
  process_rewards_lem q env info s s' ms e =
      elim (Outcome-cases (addr_humanize s.config.hub_contract)) [
        | inr failed ↦ absurd (ground arith)
        | inl (hub, there) ↦
            elim (Outcome-cases (q.balance env.contract s.config.underlying_coin_denom)) [
              | inr failed ↦ absurd (ground arith)
              | inl (balance, asked) ↦
                  let same : info.sender ≡ hub = ground (arith, eq_iff info.sender hub) in
                  (
                    ground arith,
                    rw same there,
                    balance,
                    asked,
                    rw same (ground arith),
                    ground arith,
                  )
            ]
      ]

  update_admin_lem :
      (q : Querier) (env : Env) (info : MessageInfo) (s s' : Store) (new : String)
      (ms : List CosmosMsg)
      → execute q env info s (update_admin new) ≡ ok (ms, s')
      → Executed q env info.sender s (update_admin new) ms s'
  unfolding execute is_contract_paused unwrap_assert_admin
  update_admin_lem q env info s s' new ms e = elim (Outcome-cases (addr_validate new)) [
    | inr failed ↦ absurd (ground arith)
    | inl (admin, valid) ↦ (
      ground arith,
      is_admin_lem (s.admin) info.sender (ground arith),
      ground arith,
      admin,
      valid,
      ground arith,
    )
  ]

  -- Every message to the rewards contract that succeeds was either the owner's, changed the one
  -- setting that it names and sent nothing; or the hub's, while the contract was not paused, sent
  -- the hub the whole balance of the coin with the message that compounds it, and changed nothing.
  pub execute_lem :
      (q : Querier) (env : Env) (info : MessageInfo) (s s' : Store) (msg : ExecuteMsg)
      (ms : List CosmosMsg)
      → execute q env info s msg ≡ ok (ms, s')
      → Executed q env info.sender s msg ms s'
  unfolding execute unwrap_assert_admin
  execute_lem q env info s s' pause ms e =
      (is_admin_lem (s.admin) info.sender (ground arith), ground arith, ground arith)
  execute_lem q env info s s' unpause ms e =
      (is_admin_lem (s.admin) info.sender (ground arith), ground arith, ground arith)
  execute_lem q env info s s' (update_admin new) ms e = update_admin_lem q env info s s' new ms e
  execute_lem q env info s s' process_rewards ms e = process_rewards_lem q env info s s' ms e
