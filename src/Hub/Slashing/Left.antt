-- ===== src/Hub/Slashing/Left.antt =====
-- What the check for slashing leaves of the bond, read off the delegations, and the messages that
-- check (contracts/prism_hub/src/contract.rs, `slashing`).
use prism_auto_compounding_c.Prelude.{
  ℕ, ◌≡◌, Bool, true, false, List, [], if◌then◌else◌, arith, inl, inr,
}
use prism_auto_compounding_c.Outcome.{Outcome, ok, Outcome-cases}
use prism_auto_compounding_c.Platform.{Platform}
use prism_auto_compounding_c.Chain.{Env, Delegation, Querier}
use prism_auto_compounding_c.Protocol.Hub.{ExecuteMsg, bond, receive, check_slashing}
use prism_auto_compounding_c.Hub.Store.{Store}
use prism_auto_compounding_c.Hub.Slashing.{slashing}
use prism_auto_compounding_c.Hub.Slashing.Laws.{checked_bond, slashing_lem}

abbrev pub answered : Outcome (List Delegation) → List Delegation
answered (ok ds) = ds
answered _ = []

-- The smaller of the bond and of what the delegations hold in the coin.
abbrev pub left_of_bond : Querier → Env → Store → ℕ
left_of_bond q env s = checked_bond s (answered (q.all_delegations env.contract))

-- The messages that check for slashing before they do anything else.
abbrev pub checks_slashing : ExecuteMsg → Bool
checks_slashing (bond _) = true
checks_slashing (receive _) = true
checks_slashing check_slashing = true
checks_slashing _ = false

-- The bond on which a message builds.
abbrev pub bond_before : Querier → Env → Store → ExecuteMsg → ℕ
bond_before q env s msg =
    if checks_slashing msg then left_of_bond q env s else s.state.total_bond_amount

module _ ⦃p : Platform⦄ where
  pub slashing-left :
      (q : Querier) (env : Env) (s s' : Store)
      → slashing q env s ≡ ok s'
      → s'.state.total_bond_amount ≡ left_of_bond q env s
  unfolding slashing
  slashing-left q env s s' e = elim (Outcome-cases (q.all_delegations env.contract)) [
    | inl (ds, asked) ↦ let (_, left) = slashing_lem q env s s' ds asked e in rw asked left
    | inr other ↦ absurd (ground arith)
  ]
