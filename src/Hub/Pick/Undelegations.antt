-- ===== src/Hub/Pick/Undelegations.antt =====
-- A pick sends undelegations only.
use prism_auto_compounding_c.Prelude.{
  ℕ, zero, suc, String, ◌≡◌, inl, inr, List, Bool-cases, All, All-append, ltb, length,
}
use prism_auto_compounding_c.Outcome.{ok}
use prism_auto_compounding_c.Platform.{Platform}
use prism_auto_compounding_c.Chain.{Coin, Delegation, Querier, CosmosMsg, undelegate}
use prism_auto_compounding_c.Hub.Store.{Store}
use prism_auto_compounding_c.Hub.Pick.{undelegate_some, pick_rounds, pick_validator}
use prism_auto_compounding_c.Hub.Pick.Rounds.{pick_rounds_cases, pick_validator_rounds}

module _ (P : CosmosMsg → Type 0) (each : (v : String) (c : Coin) → P (undelegate v c)) where
  undelegate_some-All :
      (denom validator : String) (n : ℕ) → All P (undelegate_some denom validator n)
  unfolding undelegate_some
  undelegate_some-All denom validator n = elim (Bool-cases (ltb 0 n)) [
    | inl some_left ↦ rw some_left (each validator _, tt)
    | inr empty ↦ rw empty tt
  ]

  module _ ⦃p : Platform⦄ where
    open p use {uint_checked_sub, gen_range}

    pick_rounds-All :
        (denom : String) (height fuel i claimed : ℕ) (ds : List Delegation) (ms : List CosmosMsg)
        → pick_rounds denom height fuel i claimed ds ≡ ok ms
        → All P ms
    unfolding pick_rounds
    pick_rounds-All denom height zero i claimed ds ms e = absurd (cc)
    pick_rounds-All denom height (suc fuel) i claimed ds ms e =
        elim (pick_rounds_cases denom height fuel i claimed ds ms e) [
          | inl (_, none_sent) ↦ rw none_sent tt
          | inr r ↦ rw (r.sent) (
              All-append P (undelegate_some denom (r.validator) (r.part)) (r.rest)
                (undelegate_some-All denom (r.validator) (r.part))
                (pick_rounds-All denom height fuel (r.index) (r.left) (r.others) (r.rest) (r.run)))
        ]

    -- What holds of every undelegation holds of all that a pick sends.
    pub pick_validator-All :
        (q : Querier) (s : Store) (claim : ℕ) (delegator : String) (height : ℕ)
        (ms : List CosmosMsg)
        → pick_validator q s claim delegator height ≡ ok ms
        → All P ms
    pick_validator-All q s claim delegator height ms e =
        let (ds, run) = pick_validator_rounds q s claim delegator height ms e in
        pick_rounds-All _ height (suc (length ds)) 0 claim ds ms run
