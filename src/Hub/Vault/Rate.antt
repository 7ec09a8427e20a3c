-- ===== src/Hub/Vault/Rate.antt =====
-- What the rate that an update leaves says of the bond (packages/prism-protocol/src/hub.rs,
-- `State::update_exchange_rate`).
use prism_auto_compounding_c.Prelude.{
  ℕ, ◌+◌, ◌*◌, ◌/◌, ◌≤◌, ◌<◌, ◌≡◌, ◌⊎◌, inl, inr, arith, Bool-cases, ◌==◌,
}
use prism_auto_compounding_c.Prelude.Division.{div_mul_le}
use prism_auto_compounding_c.Outcome.{ok}
use prism_auto_compounding_c.Platform.{Platform, decimal_one}
use prism_auto_compounding_c.Protocol.Hub.{State}
use prism_auto_compounding_c.Hub.Rates.{decimal_fractional, update_exchange_rate, decimal_division}
use prism_auto_compounding_c.Hub.Vault.{Vault, IsPriced, worth_of}

-- At the fair rate the assets cover the claims, or there are no assets.
pub IsPriced-covers :
    (v : Vault) → IsPriced v → (v.rate * v.claims ≤ v.assets * decimal_one) ⊎ (v.assets ≡ 0)
IsPriced-covers v priced = elim (Bool-cases (v.assets == 0)) [
  | inl empty ↦ inr (ground arith)
  | inr some_left ↦ inl (elim (Bool-cases (v.claims == 0)) [
    | inl none_owed ↦ let z : v.claims ≡ 0 = ground arith in rw z (omega arith)
    | inr owed ↦
        let share : v.rate ≡ v.assets * decimal_one / v.claims = ground arith in
        rw share (div_mul_le (v.assets * decimal_one) v.claims)
  ])
]

module _ ⦃p : Platform⦄ where
  open p use {uint_add_lem, uint_mul_decimal_lem, decimal_from_ratio_lem}

  -- An update leaves the bond and sets the fair rate.
  pub update_exchange_rate-IsPriced :
      (st st' : State) (issued requested : ℕ)
      → update_exchange_rate st issued requested ≡ ok st'
      → IsPriced (record {
        assets = st'.total_bond_amount;
        claims = issued + requested;
        rate = st'.exchange_rate;
      })
  unfolding update_exchange_rate
  update_exchange_rate-IsPriced st st' issued requested e = ground (
    arith,
    uint_add_lem issued requested,
    decimal_from_ratio_lem st.total_bond_amount (issued + requested),
  )

  -- What the division gives is the worth at the rate cut to nine digits, which is not zero.
  pub decimal_division_worth :
      (a rate worth : ℕ)
      → decimal_division a rate ≡ ok worth
      → (0 < rate / decimal_fractional) × (worth ≡ worth_of a rate)
  unfolding decimal_division
  decimal_division_worth a rate worth e =
      let cut : ℕ = rate / decimal_fractional in
      let same : decimal_fractional * rate / decimal_one ≡ cut = omega arith in
      let ratio : ℕ = a * decimal_one / cut in
      let mul = uint_mul_decimal_lem decimal_fractional rate in
      let divided = decimal_from_ratio_lem a cut in
      let back = uint_mul_decimal_lem decimal_fractional ratio in
      (ground (arith, mul, same, divided, back), ground (arith, mul, same, divided, back))
