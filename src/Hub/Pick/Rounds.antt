-- ===== src/Hub/Pick/Rounds.antt =====
-- One round of the loop of `pick_validator` (contracts/prism_hub/src/unbond.rs), as it returns.
use prism_auto_compounding_c.Prelude.{
  ℕ, suc, String, ◌+◌, ◌≡◌, ◌⊎◌, inl, inr, List, [], ◌++◌, arith, ltb, if◌then◌else◌, ◌==◌, length,
  get_elem?, erase_idx, Bool-cases, sym,
}
use prism_auto_compounding_c.Outcome.{
  ok, Outcome-cases, expect, expect_ok, no_delegation, empty_range, >>=-eq-ok, ok_injective,
}
use prism_auto_compounding_c.Machine.{u64_add}
use prism_auto_compounding_c.Platform.{Platform}
use prism_auto_compounding_c.Chain.{Delegation, Querier, CosmosMsg}
use prism_auto_compounding_c.Hub.Store.{Store}
use prism_auto_compounding_c.Hub.Pick.{undelegate_some, pick_rounds, pick_validator}

-- A round takes a part of the claim from one validator and leaves the rest to the next rounds.
pub record Picks ⦃p : Platform⦄ (denom : String) (height fuel claimed : ℕ) (ms : List CosmosMsg)
    : Type 0 where
  pub part : ℕ
  pub left : ℕ
  pub split : part + left ≡ claimed
  pub validator : String
  pub index : ℕ
  pub others : List Delegation
  pub rest : List CosmosMsg
  pub run : pick_rounds denom height fuel index left others ≡ ok rest
  pub sent : ms ≡ undelegate_some denom validator part ++ rest

module _ ⦃p : Platform⦄ where
  open p use {uint_checked_sub, uint_checked_sub_lem, gen_range}

  pub pick_rounds_cases :
      (denom : String) (height fuel i claimed : ℕ) (ds : List Delegation) (ms : List CosmosMsg)
      → pick_rounds denom height (suc fuel) i claimed ds ≡ ok ms
      → ((claimed ≡ 0) × (ms ≡ [])) ⊎ Picks denom height fuel claimed ms
  unfolding pick_rounds
  pick_rounds_cases denom height fuel i claimed ds ms e = elim (Bool-cases (claimed == 0)) [
    | inl done ↦ inl (ground arith, ground arith)
    | inr more ↦
        let round = rw more at e in
        let (seed, _, e1) = >>=-eq-ok (u64_add height i) _ round in
        let (index, _, e2) = >>=-eq-ok (gen_range seed (length ds)) _ e1 in
        let (d, _, e3) = >>=-eq-ok (expect (get_elem? ds index) empty_range) _ e2 in
        let val = d.amount.amount in
        let (left, less, e4) =
          >>=-eq-ok (if ltb claimed val then ok 0 else uint_checked_sub claimed val) _ e3 in
        let (next, _, e5) = >>=-eq-ok (u64_add i 1) _ e4 in
        let others = erase_idx ds index in
        let (rest, run, e6) = >>=-eq-ok (pick_rounds denom height fuel next left others) _ e5 in
        inr (record {
          part = if ltb claimed val then claimed else val;
          left = left;
          split = ground (arith, uint_checked_sub_lem claimed val);
          validator = d.validator;
          index = next;
          others = others;
          rest = rest;
          run = run;
          sent = sym (ok_injective e6);
        })
  ]

  -- The pick that returns is its rounds on all delegations.
  pub pick_validator_rounds :
      (q : Querier) (s : Store) (claim : ℕ) (delegator : String) (height : ℕ) (ms : List CosmosMsg)
      → pick_validator q s claim delegator height ≡ ok ms
      → (ds : List Delegation) × (pick_rounds s.parameters.underlying_coin_denom height
            (suc (length ds))
            0
            claim
            ds
          ≡ ok ms)
  unfolding pick_validator
  pick_validator_rounds q s claim delegator height ms e =
      elim (Outcome-cases (expect_ok (q.all_delegations delegator) no_delegation)) [
        | inl (ds, asked) ↦ (ds, ground arith)
        | inr other ↦ absurd (ground arith)
      ]
