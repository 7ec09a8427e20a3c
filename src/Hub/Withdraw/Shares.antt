-- ===== src/Hub/Withdraw/Shares.antt =====
-- One batch of a release: what it was expected to bring, its share of a loss or a surplus, and
-- what it owes at its new rate (`process_withdraw_rate`, the second loop).
use native.Mathlib.Nat.{mul-le-mul_left}
use prism_auto_compounding_c.Prelude.{
  ℕ, ◌+◌, ◌*◌, ◌-◌, ◌/◌, ◌≤◌, ◌<◌, ◌≡◌, ◌⊎◌, inl, inr, true, false, arith, ◌==◌, Bool-cases,
}
use prism_auto_compounding_c.Prelude.Division.{div_mul_le, lt_div_mul}
use prism_auto_compounding_c.Outcome.{ok, Outcome-cases}
use prism_auto_compounding_c.Platform.{Platform, decimal_one}
use prism_auto_compounding_c.SignedInt.{SignedInt}
use prism_auto_compounding_c.SignedInt.Laws.{from_subtraction_lem}
use prism_auto_compounding_c.Protocol.Hub.{UnbondHistory}
use prism_auto_compounding_c.Hub.Withdraw.{actual_unbonded, release_history}
use prism_auto_compounding_c.Hub.Withdraw.Counting.{distance}

-- One slashed batch, with the divisions multiplied out.
slashed_step :
    (total mag u w share e : ℕ)
    → mag * w < (share + 1) * decimal_one
    → u * decimal_one < (w + 1) * total
    → e + share + 1 ≤ u
    → total * e * decimal_one + mag * u * decimal_one + total
      ≤ total * u * decimal_one + mag * total
slashed_step total mag u w share e f1 f2 f3 =
    let g1 : total * (mag * w + 1) ≤ total * ((share + 1) * decimal_one) =
      mul-le-mul_left total (omega arith) in
    let g2 : mag * (u * decimal_one) ≤ mag * ((w + 1) * total) =
      mul-le-mul_left mag (omega arith) in
    let g3 : total * (e + share + 1) ≤ total * u = mul-le-mul_left total f3 in omega arith

-- One batch with a surplus.
surplus_step :
    (total mag u w share e : ℕ)
    → share * decimal_one ≤ mag * w
    → w * total ≤ u * decimal_one
    → e + 1 ≤ u + share
    → total * e * decimal_one + total * decimal_one
      ≤ total * u * decimal_one + mag * u * decimal_one
surplus_step total mag u w share e f1 f2 f3 =
    let g1 : total * (share * decimal_one) ≤ total * (mag * w) = mul-le-mul_left total f1 in
    let g2 : mag * (w * total) ≤ mag * (u * decimal_one) = mul-le-mul_left mag f2 in
    let g3 : total * (e + 1) ≤ total * (u + share) = mul-le-mul_left total f3 in omega arith

-- What a batch was expected to bring, and its share of a difference.
abbrev pub unbonded_of : UnbondHistory → ℕ
unbonded_of h = h.amount * h.withdraw_rate / decimal_one

abbrev pub share_of : ℕ → ℕ → UnbondHistory → ℕ
share_of total mag h = mag * (unbonded_of h * decimal_one / total) / decimal_one

payable_le : (a n : ℕ) → n * (a * decimal_one / n) / decimal_one ≤ a
payable_le a n = let le = div_mul_le (a * decimal_one) n in omega arith

-- The three ways to reckon a batch: a surplus, an exact return, a loss.
abbrev Reckoned : SignedInt → ℕ → ℕ → ℕ → Type 0
Reckoned slashed u share a =
    ((slashed.negative ≡ true) × (a + 1 ≡ u + share))
    ⊎ ((slashed.negative ≡ false) × (slashed.magnitude ≡ 0) × (a ≡ distance u share))
    ⊎ ((slashed.negative ≡ false) × (0 < slashed.magnitude) × (a ≡ distance u (share + 1)))

module _ ⦃p : Platform⦄ where
  open p use {uint_add_lem, uint_checked_sub_lem, uint_mul_decimal_lem, decimal_from_ratio_lem}

  actual_unbonded_lem :
      (slashed : SignedInt) (u share a : ℕ)
      → actual_unbonded slashed u share ≡ ok a
      → Reckoned slashed u share a
  unfolding actual_unbonded
  actual_unbonded_lem slashed u share a e = elim (Bool-cases (slashed.negative)) [
    | inl surplus ↦
        inl (surplus, ground (arith, uint_checked_sub_lem share 1, uint_add_lem u (share - 1)))
    | inr loss ↦ elim (Bool-cases (slashed.magnitude == 0)) [
      | inl exact ↦ inr (inl (loss, ground arith, ground (arith, from_subtraction_lem u share)))
      | inr some_lost ↦ inr (
          inr (
            loss,
            ground arith,
            ground (arith, uint_add_lem share 1, from_subtraction_lem u (share + 1)),
          ))
    ]
  ]

  pub release_history-Reckoned :
      (slashed : SignedInt) (total : ℕ) (h h' : UnbondHistory)
      → release_history slashed total h ≡ ok h'
      → (0 < total)
        × (a : ℕ) × (unbonded_of h' ≤ a)
        × Reckoned slashed (unbonded_of h) (share_of total slashed.magnitude h) a
  unfolding release_history
  release_history-Reckoned slashed total h h' e =
      let u : ℕ = unbonded_of h in
      let w : ℕ = u * decimal_one / total in
      let share : ℕ = share_of total slashed.magnitude h in
      let first = uint_mul_decimal_lem h.amount h.withdraw_rate in
      let second = decimal_from_ratio_lem u total in
      let third = uint_mul_decimal_lem slashed.magnitude w in
      elim (Outcome-cases (actual_unbonded slashed u share)) [
        | inr other ↦ absurd (ground (arith, first, second, third))
        | inl (a, reckoned) ↦
            let fourth = decimal_from_ratio_lem a h.amount in
            let same : h'
                ≡ record h { withdraw_rate = a * decimal_one / h.amount; released = true } =
              ground (arith, first, second, third, fourth) in
            (
              ground (arith, first, second, third),
              a,
              rw same (payable_le a h.amount),
              actual_unbonded_lem slashed u share a reckoned,
            )
      ]

-- The losing side of a run: what the batches owe, what was lost, and the rounding.
abbrev pub Loses : ℕ → ℕ → ℕ → ℕ → ℕ → Type 0
Loses total mag n u e =
    total * e * decimal_one + mag * u * decimal_one + n * total
    ≤ total * u * decimal_one + n * (mag * total)

abbrev pub Gains : ℕ → ℕ → ℕ → ℕ → ℕ → Type 0
Gains total mag n u e =
    total * e * decimal_one + n * (total * decimal_one)
    ≤ total * u * decimal_one + mag * u * decimal_one

-- The signed difference of a loss, and of a surplus.
abbrev pub lost : ℕ → SignedInt
lost mag = record { magnitude = mag; negative = false }

abbrev pub gained : ℕ → SignedInt
gained mag = record { magnitude = mag; negative = true }

module _ ⦃p : Platform⦄ where
  pub loss_batch :
      (total mag : ℕ) (h h' : UnbondHistory)
      → release_history (lost mag) total h ≡ ok h'
      → 0 < mag
      → share_of total mag h < unbonded_of h
      → Loses total mag 1 (unbonded_of h) (unbonded_of h')
  loss_batch total mag h h' e any small =
      let u : ℕ = unbonded_of h in
      let w : ℕ = u * decimal_one / total in
      let share : ℕ = share_of total mag h in
      let (pos, a, le, reckoned) = release_history-Reckoned (lost mag) total h h' e in
      let less : unbonded_of h' + share + 1 ≤ u = ground (arith, le, reckoned, small) in
      let cut : mag * w < (share + 1) * decimal_one = omega arith in
      let weight = lt_div_mul (u * decimal_one) total pos in
      let step = slashed_step total mag u w share (unbonded_of h') cut (omega arith) less in
      omega arith

  pub gain_batch :
      (total mag : ℕ) (h h' : UnbondHistory)
      → release_history (gained mag) total h ≡ ok h'
      → Gains total mag 1 (unbonded_of h) (unbonded_of h')
  gain_batch total mag h h' e =
      let u : ℕ = unbonded_of h in
      let w : ℕ = u * decimal_one / total in
      let share : ℕ = share_of total mag h in
      let (pos, a, le, reckoned) = release_history-Reckoned (gained mag) total h h' e in
      let less : unbonded_of h' + 1 ≤ u + share = ground (arith, le, reckoned) in
      let cut : share * decimal_one ≤ mag * w = omega arith in
      let step =
        surplus_step total mag u w share (unbonded_of h') cut (div_mul_le (u * decimal_one) total)
          less in
      omega arith

  pub exact_batch :
      (total : ℕ) (h h' : UnbondHistory)
      → release_history (lost 0) total h ≡ ok h'
      → unbonded_of h' ≤ unbonded_of h
  exact_batch total h h' e =
      let (pos, a, le, reckoned) = release_history-Reckoned (lost 0) total h h' e in
      let none_lost : share_of total 0 h ≡ 0 = omega arith in
      ground (arith, le, reckoned, none_lost)
