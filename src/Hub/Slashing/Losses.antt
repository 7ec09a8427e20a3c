-- ===== src/Hub/Slashing/Losses.antt =====
-- The two ways in which the check for slashing can go: the store stays, or the bond falls and
-- the rate follows.
use prism_auto_compounding_c.Prelude.{
  ℕ, ◌<◌, ◌≡◌, refl, ◌⊎◌, inl, inr, List, [], ◌∷◌, arith, ltb, Bool-cases,
}
use prism_auto_compounding_c.Outcome.{ok, Outcome-cases}
use prism_auto_compounding_c.Platform.{Platform}
use prism_auto_compounding_c.Chain.{Env, Delegation, Querier}
use prism_auto_compounding_c.Hub.Store.{Store}
use prism_auto_compounding_c.Hub.Rates.{update_exchange_rate}
use prism_auto_compounding_c.Hub.Slashing.{
  query_total_issued, sum_delegations, reconcile, slashing_among, slashing,
}

pub record Slashed ⦃p : Platform⦄ (q : Querier) (s s' : Store) : Type 0 where
  pub left : ℕ
  pub less : left < s.state.total_bond_amount
  pub issued : ℕ
  pub asked : query_total_issued q s ≡ ok issued
  pub rated :
      update_exchange_rate
        (record (s.state) { total_bond_amount = left })
        issued
        s.current_batch.requested_with_fee
      ≡ ok s'.state
  pub only : s' ≡ record s { state = s'.state }

module _ ⦃p : Platform⦄ where
  reconcile_cases :
      (q : Querier) (s s' : Store) (actual issued : ℕ)
      → query_total_issued q s ≡ ok issued
      → reconcile s actual issued ≡ ok s'
      → (s' ≡ s) ⊎ Slashed q s s'
  unfolding reconcile
  reconcile_cases q s s' actual issued asked e =
      elim (Bool-cases (ltb actual s.state.total_bond_amount)) [
        | inr enough ↦ inl (ground arith)
        | inl slashed ↦
            elim (Outcome-cases (
              update_exchange_rate (record (s.state) { total_bond_amount = actual }) issued
                s.current_batch.requested_with_fee)) [
                  | inr other ↦ absurd (ground arith)
                  | inl (st, updated) ↦
                      let same : s' ≡ record s { state = st } = ground arith in
                      inr (
                        rw same (record {
                          left = actual;
                          less = ground arith;
                          issued = issued;
                          asked = asked;
                          rated = updated;
                          only = refl;
                        }))
                ]
      ]

  slashing_among_cases :
      (q : Querier) (s s' : Store) (ds : List Delegation)
      → slashing_among q s ds ≡ ok s'
      → (s' ≡ s) ⊎ Slashed q s s'
  unfolding slashing_among
  slashing_among_cases q s s' [] e = inl (ground arith)
  slashing_among_cases q s s' (d ∷ ds) e =
      elim (Outcome-cases (sum_delegations s.parameters.underlying_coin_denom (d ∷ ds) 0)) [
        | inr other ↦ absurd (ground arith)
        | inl (actual, summed) ↦ elim (Outcome-cases (query_total_issued q s)) [
          | inr other ↦ absurd (ground arith)
          | inl (issued, asked) ↦ reconcile_cases q s s' actual issued asked (ground arith)
        ]
      ]

  pub slashing_cases :
      (q : Querier) (env : Env) (s s' : Store)
      → slashing q env s ≡ ok s'
      → (s' ≡ s) ⊎ Slashed q s s'
  unfolding slashing
  slashing_cases q env s s' e = elim (Outcome-cases (q.all_delegations env.contract)) [
    | inl (ds, asked) ↦ slashing_among_cases q s s' ds (ground arith)
    | inr other ↦ absurd (ground arith)
  ]
