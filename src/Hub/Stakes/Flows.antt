-- ===== src/Hub/Stakes/Flows.antt =====
-- Every message's stakes are booked in the bond (contracts/prism_hub/src/contract.rs, `execute`).
use prism_auto_compounding_c.Prelude.{
  ℕ, zero, suc, String, ◌+◌, ◌≡◌, refl, inl, inr, List, [], ◌∷◌, arith, ltb, length, Bool-cases, ap,
}
use prism_auto_compounding_c.Outcome.{ok}
use prism_auto_compounding_c.Platform.{Platform}
use prism_auto_compounding_c.Chain.{
  Env, MessageInfo, Delegation, Querier, CosmosMsg, wasm_execute, token_burn,
}
use prism_auto_compounding_c.Protocol.Hub.{State, CurrentBatch}
use prism_auto_compounding_c.Hub.Store.{Store}
use prism_auto_compounding_c.Hub.Slashing.Laws.{update_exchange_rate_frame}
use prism_auto_compounding_c.Hub.Slashing.Left.{left_of_bond, slashing-left}
use prism_auto_compounding_c.Hub.Pick.Rounds.{pick_rounds_cases, pick_validator_rounds}
use prism_auto_compounding_c.Hub.Pick.{undelegate_some, pick_rounds, pick_validator}
use prism_auto_compounding_c.Hub.Bond.{execute_bond}
use prism_auto_compounding_c.Hub.Bond.Effect.{execute_bond_lem}
use prism_auto_compounding_c.Hub.Unbond.{execute_unbond}
use prism_auto_compounding_c.Hub.Unbond.Effect.{Saves, execute_unbond_lem}
use prism_auto_compounding_c.Hub.Compound.{execute_update_exchange_rate}
use prism_auto_compounding_c.Hub.Compound.Effect.{execute_update_exchange_rate_lem}
use prism_auto_compounding_c.Hub.Stakes.{
  delegated, undelegated, delegated-append, undelegated-append,
}

-- The bond is what was left of it and what the messages stake, less what they unstake.
abbrev pub Booked : ℕ → Store → List CosmosMsg → Type 0
Booked left s' ms = s'.state.total_bond_amount + undelegated ms ≡ left + delegated ms

undelegate_some-stakes :
    (denom validator : String) (n : ℕ)
    → (delegated (undelegate_some denom validator n) ≡ 0)
      × (undelegated (undelegate_some denom validator n) ≡ n)
unfolding undelegate_some
undelegate_some-stakes denom validator n = elim (Bool-cases (ltb 0 n)) [
  | inl some_left ↦ rw some_left (refl, omega arith)
  | inr empty ↦ let none_left : n ≡ 0 = ground arith in rw empty (refl, omega arith)
]

module _ ⦃p : Platform⦄ where
  open p use {uint_checked_sub, uint_checked_sub_lem, gen_range, addr_humanize}

  -- A pick that returns undelegates its claim exactly.
  pick_rounds-stakes :
      (denom : String) (height fuel i claimed : ℕ) (ds : List Delegation) (ms : List CosmosMsg)
      → pick_rounds denom height fuel i claimed ds ≡ ok ms
      → (delegated ms ≡ 0) × (undelegated ms ≡ claimed)
  unfolding pick_rounds
  pick_rounds-stakes denom height zero i claimed ds ms e = absurd (cc)
  pick_rounds-stakes denom height (suc fuel) i claimed ds ms e =
      elim (pick_rounds_cases denom height fuel i claimed ds ms e) [
        | inl (empty, none_sent) ↦ rw none_sent (refl, omega arith)
        | inr r ↦
            let taken = undelegate_some denom (r.validator) (r.part) in
            let split = r.split in
            let (a, b) = undelegate_some-stakes denom (r.validator) (r.part) in
            let (a', b') =
              pick_rounds-stakes denom height fuel (r.index) (r.left) (r.others) (r.rest) (r.run) in
            let sums = delegated-append taken (r.rest) in
            let sums' = undelegated-append taken (r.rest) in rw (r.sent) (omega arith, omega arith)
      ]

  pick_validator-stakes :
      (q : Querier) (s : Store) (claim : ℕ) (delegator : String) (height : ℕ) (ms : List CosmosMsg)
      → pick_validator q s claim delegator height ≡ ok ms
      → (delegated ms ≡ 0) × (undelegated ms ≡ claim)
  pick_validator-stakes q s claim delegator height ms e =
      let (ds, run) = pick_validator_rounds q s claim delegator height ms e in
      pick_rounds-stakes _ height (suc (length ds)) 0 claim ds ms run

  pub execute_bond-Booked :
      (q : Querier) (env : Env) (info : MessageInfo) (v : String) (s s' : Store)
      (ms : List CosmosMsg)
      → execute_bond q env info v s ≡ ok (ms, s')
      → Booked (left_of_bond q env s) s' ms
  execute_bond-Booked q env info v s s' ms e =
      let (_, _, s1, checked, bonds) = execute_bond_lem q env info v s s' ms e in
      let left = slashing-left q env s s1 checked in
      let bonded = bonds.bonded in let sent = bonds.sent in rw (sent, ← left) (omega arith)

  pub execute_update_exchange_rate-Booked :
      (q : Querier) (env : Env) (info : MessageInfo) (s s' : Store) (ms : List CosmosMsg)
      → execute_update_exchange_rate q env info s ≡ ok (ms, s')
      → Booked (s.state.total_bond_amount) s' ms
  execute_update_exchange_rate-Booked q env info s s' ms e =
      let (_, _, _, _, _, c) = execute_update_exchange_rate_lem q env info s s' ms e in
      let bond = ap (λ (x : Store). x.state.total_bond_amount) (c.only_bond) in
      let staked = c.staked in let unstaked = c.unstaked in omega arith

  -- What leaves the bond with a batch is undelegated.
  pub Saves-stakes :
      (q : Querier) (env : Env) (amount : ℕ) (batch : CurrentBatch) (st : State) (s s' : Store)
      (ms : List CosmosMsg)
      → Saves q env amount batch st s s' ms
      → (delegated ms ≡ 0) × (s'.state.total_bond_amount + undelegated ms ≡ st.total_bond_amount)
  Saves-stakes q env amount batch st s s' ms saves =
      let und = saves.undelegations in
      let burn = wasm_execute (saves.token) (token_burn amount) [] ∷ [] in
      let sums = delegated-append und burn in
      let sums' = undelegated-append und burn in
      elim (saves.outcome) [
        | inl (_, none_sent, _, same, _) ↦
            let a : delegated und ≡ 0 = rw none_sent in
            let b : undelegated und ≡ 0 = rw none_sent in
            let bond = ap (λ (x : State). x.total_bond_amount) same in
            rw (saves.sent) (omega arith, omega arith)
        | inr (_, c) ↦
            let (a, b) = pick_validator-stakes q s (c.worth) _ _ und (c.picked) in
            let bond = ap (λ (x : State). x.total_bond_amount) (c.left) in
            let covered = c.covered in rw (saves.sent) (omega arith, omega arith)
      ]

  pub execute_unbond-Booked :
      (q : Querier) (env : Env) (amount : ℕ) (user : String) (s s' : Store) (ms : List CosmosMsg)
      → execute_unbond q env amount user s ≡ ok (ms, s')
      → Booked (left_of_bond q env s) s' ms
  execute_unbond-Booked q env amount user s s' ms e =
      let (s1, _, batch, st, s2, checked, _, requests, saves) =
        execute_unbond_lem q env amount user s s' ms e in
      let left = slashing-left q env s s1 checked in
      let rated = update_exchange_rate_frame _ st _ _ (requests.rate) in
      let bond = ap (λ (x : State). x.total_bond_amount) rated in
      let (a, c) = Saves-stakes q env amount batch st s2 s' ms saves in rw (← left) (omega arith)
