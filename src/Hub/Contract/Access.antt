-- ===== src/Hub/Contract/Access.antt =====
-- Who may send which message, and when: the pause switch, the owner and the token contract.
use prism_auto_compounding_c.Prelude.{
  String, ◌≡◌, ◌≢◌, ◌⊎◌, inl, inr, Bool, true, false, none, some, Option, List, arith, str_eq,
  eq_iff, Option-cases, Bool-cases,
}
use prism_auto_compounding_c.Outcome.{Outcome, ok, err, Outcome-cases, paused, >>=-eq-ok, ◌>>=◌}
use prism_auto_compounding_c.Platform.{Platform}
use prism_auto_compounding_c.Chain.{Env, MessageInfo, Querier, CosmosMsg}
use prism_auto_compounding_c.Protocol.Hub.{
  ExecuteMsg, Cw20ReceiveMsg, Cw20HookMsg, unbond, pause, unpause, update_config, update_admin,
  update_exchange_rate, register_validator, deregister_validator, update_params, bond,
  update_global_index, withdraw_unbonded, check_slashing, receive,
}
use prism_auto_compounding_c.Hub.Store.{Store}
use prism_auto_compounding_c.Hub.Admin.{
  is_contract_paused, unwrap_assert_admin, execute_pause, execute_update_params,
  execute_update_config, execute_update_admin,
}
use prism_auto_compounding_c.Hub.Validators.{
  execute_register_validator, execute_deregister_validator,
}
use prism_auto_compounding_c.Hub.Compound.{execute_update_exchange_rate}
use prism_auto_compounding_c.Hub.Compound.Effect.{execute_update_exchange_rate_lem}
use prism_auto_compounding_c.Hub.Contract.{receive_unbond, receive_cw20, execute}

-- The messages that the pause switch does not stop.
abbrev pub switches : ExecuteMsg → Bool
switches pause = true
switches unpause = true
switches _ = false

module _ ⦃p : Platform⦄ where
  open p use {
    addr_canonicalize, addr_humanize, addr_validate, is_admin, is_admin-none, is_admin-some,
  }

  -- Who may send a message: the stored owner, the token contract, the rewards contract, the
  -- owner or the hub itself, or anyone.
  abbrev pub Allowed : Env → Store → String → ExecuteMsg → Type 0
  Allowed env s sender pause = s.admin ≡ some sender
  Allowed env s sender unpause = s.admin ≡ some sender
  Allowed env s sender (update_params _ _ _ _ _) = s.admin ≡ some sender
  Allowed env s sender (update_config _ _) = s.admin ≡ some sender
  Allowed env s sender (update_admin _) = s.admin ≡ some sender
  Allowed env s sender (deregister_validator _) = s.admin ≡ some sender
  Allowed env s sender (register_validator _) =
      (s.admin ≡ some sender)
      ⊎ ((s.admin ≢ none) × (addr_canonicalize sender ≡ addr_canonicalize env.contract))
  Allowed env s sender (receive _) =
      (raw : String) × (s.config.token_contract ≡ some raw) × (addr_canonicalize sender ≡ ok raw)
  Allowed env s sender update_exchange_rate =
      (raw : String) × (s.config.rewards_contract ≡ some raw) × (addr_humanize raw ≡ ok sender)
  Allowed env s sender (bond _) = Unit
  Allowed env s sender update_global_index = Unit
  Allowed env s sender withdraw_unbonded = Unit
  Allowed env s sender check_slashing = Unit

  -- While the hub is paused, every message but pausing and unpausing ends in the error "paused",
  -- whoever sends it.
  pub execute-paused :
      (q : Querier) (env : Env) (info : MessageInfo) (s : Store) (msg : ExecuteMsg)
      → s.paused ≡ true
      → switches msg ≡ false
      → execute q env info s msg ≡ err paused
  unfolding execute is_contract_paused
  execute-paused q env info s (receive _) on other = rw on
  execute-paused q env info s (bond _) on other = rw on
  execute-paused q env info s update_global_index on other = rw on
  execute-paused q env info s update_exchange_rate on other = rw on
  execute-paused q env info s withdraw_unbonded on other = rw on
  execute-paused q env info s (register_validator _) on other = rw on
  execute-paused q env info s (deregister_validator _) on other = rw on
  execute-paused q env info s check_slashing on other = rw on
  execute-paused q env info s (update_params _ _ _ _ _) on other = rw on
  execute-paused q env info s (update_config _ _) on other = rw on
  execute-paused q env info s (update_admin _) on other = rw on
  execute-paused q env info s pause on other = cc
  execute-paused q env info s unpause on other = cc

  -- The owner's check passes for the stored owner alone.
  pub is_admin_lem :
      (admin : Option String) (sender : String) → is_admin admin sender ≡ true → admin ≡ some sender
  is_admin_lem none sender e = ground (arith, is_admin-none sender)
  is_admin_lem (some admin) sender e =
      ground (arith, is_admin-some admin sender, eq_iff admin sender)

  -- What runs behind the owner's check has the owner as its sender.
  owned :
      {r : List CosmosMsg × Store} (s : Store) (sender : String)
      (m : Outcome (List CosmosMsg × Store))
      → (unwrap_assert_admin s sender >>= λ _. m) ≡ ok r
      → s.admin ≡ some sender
  unfolding unwrap_assert_admin
  owned s sender m e = is_admin_lem (s.admin) sender (ground arith)

  behind :
      {r : List CosmosMsg × Store} (s : Store) (m : Outcome (List CosmosMsg × Store))
      → (is_contract_paused s >>= λ _. m) ≡ ok r
      → m ≡ ok r
  behind s m e = (>>=-eq-ok (is_contract_paused s) (λ _. m) e).2

  register-Allowed :
      (q : Querier) (env : Env) (info : MessageInfo) (v : String) (s : Store)
      (r : List CosmosMsg × Store)
      → execute_register_validator q env info v s ≡ ok r
      → Allowed env s info.sender (register_validator v)
  unfolding execute_register_validator
  register-Allowed q env info v s r e = elim (Option-cases (s.admin)) [
    | inl unset ↦ absurd (ground arith)
    | inr (admin, set) ↦ elim (Bool-cases (str_eq info.sender admin)) [
      | inl same ↦ inl (ground (arith, eq_iff info.sender admin))
      | inr other ↦ elim (Outcome-cases (addr_canonicalize info.sender)) [
        | inr failed ↦ absurd (ground arith)
        | inl (sender_raw, there) ↦ elim (Outcome-cases (addr_canonicalize env.contract)) [
          | inr failed ↦ absurd (ground arith)
          | inl (contract_raw, here) ↦ inr (λ n. cc, ground (arith, eq_iff contract_raw sender_raw))
        ]
      ]
    ]
  ]

  receive_unbond-Allowed :
      (q : Querier) (env : Env) (info : MessageInfo) (msg : Cw20ReceiveMsg) (s : Store)
      (hook : Cw20HookMsg) (r : List CosmosMsg × Store)
      → receive_unbond q env info msg s hook ≡ ok r
      → Allowed env s info.sender (receive msg)
  unfolding receive_unbond
  receive_unbond-Allowed q env info msg s unbond r e =
      elim (Outcome-cases (addr_canonicalize info.sender)) [
        | inr failed ↦ absurd (ground arith)
        | inl (sender_raw, there) ↦ elim (Option-cases (s.config.token_contract)) [
          | inl unset ↦ absurd (ground arith)
          | inr (raw, set) ↦ (raw, set, ground (arith, eq_iff sender_raw raw))
        ]
      ]

  receive-Allowed :
      (q : Querier) (env : Env) (info : MessageInfo) (msg : Cw20ReceiveMsg) (s : Store)
      (r : List CosmosMsg × Store)
      → receive_cw20 q env info msg s ≡ ok r
      → Allowed env s info.sender (receive msg)
  unfolding receive_cw20
  receive-Allowed q env info msg s r e =
      let (hook, decoded, run) = >>=-eq-ok (q.decode_hook msg.msg) _ e in
      receive_unbond-Allowed q env info msg s hook r run

  update_exchange_rate-Allowed :
      (q : Querier) (env : Env) (info : MessageInfo) (s : Store) (r : List CosmosMsg × Store)
      → execute_update_exchange_rate q env info s ≡ ok r
      → Allowed env s info.sender update_exchange_rate
  update_exchange_rate-Allowed q env info s (ms, s') e =
      let (raw, payment, set, human, found, _) =
        execute_update_exchange_rate_lem q env info s s' ms e in
      (raw, set, human)

  update_admin-Allowed :
      (env : Env) (s : Store) (sender admin : String) (r : List CosmosMsg × Store)
      → execute_update_admin sender admin s ≡ ok r
      → Allowed env s sender (update_admin admin)
  unfolding execute_update_admin unwrap_assert_admin
  update_admin-Allowed env s sender admin r e = elim (Outcome-cases (addr_validate admin)) [
    | inr failed ↦ absurd (ground arith)
    | inl (valid, _) ↦ is_admin_lem (s.admin) sender (ground arith)
  ]

  -- A message that succeeds was sent by who may send it: pausing, unpausing, the updates of
  -- parameters, config and owner and the removal of a validator by the stored owner; a new
  -- validator by the owner or the hub itself; a transfer of tokens by the registered token
  -- contract; and a compounding by the registered rewards contract.
  pub execute-Allowed :
      (q : Querier) (env : Env) (info : MessageInfo) (s s' : Store) (msg : ExecuteMsg)
      (ms : List CosmosMsg)
      → execute q env info s msg ≡ ok (ms, s')
      → Allowed env s info.sender msg
  unfolding execute execute_pause execute_update_params execute_update_config
      execute_deregister_validator
  execute-Allowed q env info s s' pause ms e = owned s info.sender _ e
  execute-Allowed q env info s s' unpause ms e = owned s info.sender _ e
  execute-Allowed q env info s s' (update_params _ _ _ _ _) ms e =
      owned s info.sender _ (behind s _ e)
  execute-Allowed q env info s s' (update_config _ _) ms e = owned s info.sender _ (behind s _ e)
  execute-Allowed q env info s s' (update_admin admin) ms e =
      update_admin-Allowed env s info.sender admin (ms, s') (behind s _ e)
  execute-Allowed q env info s s' (deregister_validator _) ms e =
      owned s info.sender _ (behind s _ e)
  execute-Allowed q env info s s' (register_validator v) ms e =
      register-Allowed q env info v s (ms, s') (behind s _ e)
  execute-Allowed q env info s s' (receive msg) ms e =
      receive-Allowed q env info msg s (ms, s') (behind s _ e)
  execute-Allowed q env info s s' update_exchange_rate ms e =
      update_exchange_rate-Allowed q env info s (ms, s') (behind s _ e)
  execute-Allowed q env info s s' (bond _) ms e = tt
  execute-Allowed q env info s s' update_global_index ms e = tt
  execute-Allowed q env info s s' withdraw_unbonded ms e = tt
  execute-Allowed q env info s s' check_slashing ms e = tt
