-- ===== src/Hub/Slashing/Laws.antt =====
-- What the slashing check may change.
use prism_auto_compounding_c.Prelude.{
  ℕ, String, ◌+◌, ◌≡◌, refl, inl, inr, List, [], ◌∷◌, arith, ltb, if◌then◌else◌, str_eq, sum_by,
  subst, Bool-cases,
}
use Prim.Native.Nat.{min}
use prism_auto_compounding_c.Outcome.{ok, Outcome-cases}
use prism_auto_compounding_c.Platform.{Platform}
use prism_auto_compounding_c.Chain.{Env, Delegation, Querier}
use prism_auto_compounding_c.Protocol.Hub.{State}
use prism_auto_compounding_c.Hub.Store.{Store}
use prism_auto_compounding_c.Hub.Rates.{update_exchange_rate}
use prism_auto_compounding_c.Hub.Slashing.{
  query_total_issued, sum_delegations, reconcile, slashing_among, slashing,
}

-- The amount delegated in a denomination.
abbrev pub bonded_in : String → List Delegation → ℕ
bonded_in denom = sum_by (λ d. if str_eq d.amount.denom denom then d.amount.amount else 0)

-- Two stores that differ at most in the bond and the rate.
pub record SameButBond (s s' : Store) : Type 0 where
  pub bond : ℕ
  pub rate : ℕ
  pub only :
      s' ≡ record s { state = record (s.state) { total_bond_amount = bond; exchange_rate = rate } }

pub SameButBond-refl : (s : Store) → SameButBond s s
SameButBond-refl s = record {
  bond = s.state.total_bond_amount;
  rate = s.state.exchange_rate;
  only = refl;
}

-- The bond that the check leaves.
abbrev pub checked_bond : Store → List Delegation → ℕ
checked_bond s [] = s.state.total_bond_amount
checked_bond s (d ∷ ds) =
    min s.state.total_bond_amount (bonded_in s.parameters.underlying_coin_denom (d ∷ ds))

module _ ⦃p : Platform⦄ where
  open p use {uint_add, uint_add_lem, decimal_from_ratio}

  pub sum_delegations-eq-ok :
      (denom : String) (ds : List Delegation) (total r : ℕ)
      → sum_delegations denom ds total ≡ ok r
      → r ≡ total + bonded_in denom ds
  unfolding sum_delegations
  sum_delegations-eq-ok denom [] total r e = ground arith
  sum_delegations-eq-ok denom (d ∷ ds) total r e = elim (Bool-cases (str_eq d.amount.denom denom)) [
    | inl counted ↦ ground (
      arith,
      uint_add_lem total d.amount.amount,
      sum_delegations-eq-ok denom ds (total + d.amount.amount) r,
    )
    | inr other ↦ ground (arith, sum_delegations-eq-ok denom ds total r)
  ]

  pub update_exchange_rate_frame :
      (st st' : State) (issued requested : ℕ)
      → update_exchange_rate st issued requested ≡ ok st'
      → st' ≡ record st { exchange_rate = st'.exchange_rate }
  unfolding update_exchange_rate
  update_exchange_rate_frame st st' issued requested e = ground arith

  reconcile_lem :
      (s s' : Store) (actual issued : ℕ)
      → reconcile s actual issued ≡ ok s'
      → SameButBond s s' × (s'.state.total_bond_amount ≡ min s.state.total_bond_amount actual)
  unfolding reconcile
  reconcile_lem s s' actual issued e = elim (Bool-cases (ltb actual s.state.total_bond_amount)) [
    | inr enough ↦
        let same : s ≡ s' = ground arith in
        (subst (SameButBond s) same (SameButBond-refl s), rw (← same) (ground arith))
    | inl slashed ↦
        elim (Outcome-cases (
          update_exchange_rate (record (s.state) { total_bond_amount = actual }) issued
            s.current_batch.requested_with_fee)) [
              | inr other ↦ absurd (ground arith)
              | inl (st, updated) ↦
                  let frame = update_exchange_rate_frame _ st issued _ updated in
                  let same : s' ≡ record s {
                    state = record (s.state) {
                      total_bond_amount = actual;
                      exchange_rate = st.exchange_rate;
                    };
                  } =
                    ground (arith, frame) in
                  (
                    record { bond = actual; rate = st.exchange_rate; only = same },
                    rw same (ground arith),
                  )
            ]
  ]

  check_cases :
      (q : Querier) (s s' : Store) (ds : List Delegation)
      → slashing_among q s ds ≡ ok s'
      → SameButBond s s' × (s'.state.total_bond_amount ≡ checked_bond s ds)
  unfolding slashing_among
  check_cases q s s' [] e =
      let same : s ≡ s' = ground arith in
      (subst (SameButBond s) same (SameButBond-refl s), rw (← same))
  check_cases q s s' (d ∷ ds) e =
      elim (Outcome-cases (sum_delegations s.parameters.underlying_coin_denom (d ∷ ds) 0)) [
        | inr other ↦ absurd (ground arith)
        | inl (actual, summed) ↦ elim (Outcome-cases (query_total_issued q s)) [
          | inr other ↦ absurd (ground arith)
          | inl (issued, asked) ↦
              let (frame, bond) = reconcile_lem s s' actual issued (ground arith) in
              let total =
                sum_delegations-eq-ok s.parameters.underlying_coin_denom (d ∷ ds) 0 actual summed in
              (frame, ground (arith, bond, total))
        ]
      ]

  -- A check for slashing that returns leaves the bond at the smaller of what was stored and what
  -- the delegations hold in the coin (or as it was, where there is none), and changes nothing
  -- of the store but the bond and the rate.
  pub slashing_lem :
      (q : Querier) (env : Env) (s s' : Store) (ds : List Delegation)
      → q.all_delegations env.contract ≡ ok ds
      → slashing q env s ≡ ok s'
      → SameButBond s s' × (s'.state.total_bond_amount ≡ checked_bond s ds)
  unfolding slashing
  slashing_lem q env s s' ds asked e = check_cases q s s' ds (ground arith)

  pub slashing_frame :
      (q : Querier) (env : Env) (s s' : Store) → slashing q env s ≡ ok s' → SameButBond s s'
  unfolding slashing
  slashing_frame q env s s' e = elim (Outcome-cases (q.all_delegations env.contract)) [
    | inl (ds, asked) ↦ (slashing_lem q env s s' ds asked e).0
    | inr other ↦ absurd (ground arith)
  ]
