-- ===== src/Hub/Slashing/Idle.antt =====
-- `slashing` where the delegations hold what the hub has stored: it finds nothing.
use prism_auto_compounding_c.Prelude.{
  ℕ, String, ◌+◌, ◌≤◌, ◌≡◌, refl, inl, inr, List, [], ◌∷◌, arith, str_eq, Bool-cases,
}
use prism_auto_compounding_c.Outcome.{ok, expect, token_not_registered, ◌>>=◌, >>=-eq-ok}
use prism_auto_compounding_c.Platform.{Platform, uint128_max}
use prism_auto_compounding_c.Chain.{Delegation, Env, Querier}
use prism_auto_compounding_c.Hub.Store.{Store}
use prism_auto_compounding_c.Hub.Slashing.{
  query_total_issued, sum_delegations, reconcile, slashing_among, slashing,
}
use prism_auto_compounding_c.Hub.Slashing.Laws.{bonded_in}

module _ ⦃p : Platform⦄ where
  open p use {uint_add_lem, addr_humanize}

  sum_delegations-fits :
      (denom : String) (ds : List Delegation) (total : ℕ)
      → total + bonded_in denom ds ≤ uint128_max
      → sum_delegations denom ds total ≡ ok (total + bonded_in denom ds)
  unfolding sum_delegations
  sum_delegations-fits denom [] total fits = ground arith
  sum_delegations-fits denom (d ∷ ds) total fits = elim (Bool-cases (str_eq d.amount.denom denom)) [
    | inl counted ↦ ground (
      arith,
      uint_add_lem total d.amount.amount,
      sum_delegations-fits denom ds (total + d.amount.amount),
    )
    | inr other ↦ ground (arith, sum_delegations-fits denom ds total)
  ]

  slashing_among-idle :
      (q : Querier) (s : Store) (ds : List Delegation) (issued : ℕ)
      → query_total_issued q s ≡ ok issued
      → bonded_in s.parameters.underlying_coin_denom ds ≤ uint128_max
      → s.state.total_bond_amount ≤ bonded_in s.parameters.underlying_coin_denom ds
      → slashing_among q s ds ≡ ok s
  unfolding slashing_among reconcile
  slashing_among-idle q s [] issued asked fits held = refl
  slashing_among-idle q s (d ∷ ds) issued asked fits held =
      let summed =
        sum_delegations-fits s.parameters.underlying_coin_denom (d ∷ ds) 0 (omega arith) in
      ground (arith, summed)

  -- Where the delegations hold the bond, the check for slashing finds nothing.
  pub slashing_idle :
      (q : Querier) (env : Env) (s : Store) (ds : List Delegation) (issued : ℕ)
      → q.all_delegations env.contract ≡ ok ds
      → query_total_issued q s ≡ ok issued
      → bonded_in s.parameters.underlying_coin_denom ds ≤ uint128_max
      → s.state.total_bond_amount ≤ bonded_in s.parameters.underlying_coin_denom ds
      → slashing q env s ≡ ok s
  unfolding slashing
  slashing_idle q env s ds issued asked issues fits held =
      let idle = slashing_among-idle q s ds issued issues fits held in ground arith

  -- The token contract that answers is registered.
  pub the_token :
      (q : Querier) (s : Store) (supply : ℕ)
      → query_total_issued q s ≡ ok supply
      → (token : String) × (expect s.config.token_contract token_not_registered >>= addr_humanize
          ≡ ok token)
  unfolding query_total_issued
  the_token q s supply e =
      let (raw, found, rest) =
        >>=-eq-ok (expect s.config.token_contract token_not_registered) _ e in
      let (token, human, answer) = >>=-eq-ok (addr_humanize raw) _ rest in (token, rw found human)
