-- ===== src/Hub/Pick/Total.antt =====
-- `pick_validator` undelegates exactly what is claimed, or panics.
use prism_auto_compounding_c.Prelude.{
  ℕ, zero, suc, String, ◌+◌, ◌≤◌, ◌<◌, ◌≡◌, refl, some, List, [], ◌∷◌, ◌++◌, ◌-◌, ◌∙◌, arith, All,
  str_eq, if◌then◌else◌, length, sum_by, get_elem?, erase_idx, get_elem?-some, length-erase_idx,
}
use Prim.Native.Nat.{min}
use prism_auto_compounding_c.Outcome.{ok, panic, empty_range, ◌>>=◌}
use prism_auto_compounding_c.Machine.{u64_max}
use prism_auto_compounding_c.Platform.{Platform}
use prism_auto_compounding_c.Chain.{Delegation, Querier, CosmosMsg, undelegate}
use prism_auto_compounding_c.Hub.Store.{Store}
use prism_auto_compounding_c.Hub.Pick.{undelegate_some, pick_rounds, pick_validator}

-- The amount that a message undelegates, and that a list of them does.
unfoldable pub undelegated_by : CosmosMsg → ℕ
undelegated_by (undelegate _ c) = c.amount
undelegated_by _ = 0

unfoldable pub undelegated : List CosmosMsg → ℕ
unfolding undelegated_by
undelegated = sum_by undelegated_by

-- The part of these amounts that is taken from one validator, and what it holds.
unfoldable pub undelegated_from : String → List CosmosMsg → ℕ
undelegated_from v [] = 0
undelegated_from v (undelegate w c ∷ ms) =
    (if str_eq w v then c.amount else 0) + undelegated_from v ms
undelegated_from v (_ ∷ ms) = undelegated_from v ms

abbrev pub delegated_to : String → List Delegation → ℕ
delegated_to v = sum_by (λ d. if str_eq d.validator v then d.amount.amount else 0)

-- A message that undelegates a positive amount of the coin.
abbrev pub IsUndelegation : String → CosmosMsg → Type 0
IsUndelegation denom (undelegate _ c) = (c.denom ≡ denom) × (0 < c.amount)
IsUndelegation denom _ = ⊥

abbrev pub delegated : List Delegation → ℕ
delegated = sum_by (λ d. d.amount.amount)

delegated-erase_idx :
    (ds : List Delegation) (i : ℕ) (d : Delegation)
    → get_elem? ds i ≡ some d
    → d.amount.amount + delegated (erase_idx ds i) ≡ delegated ds
delegated-erase_idx [] i d e = cc
delegated-erase_idx (x ∷ ds) zero d e = ground arith
delegated-erase_idx (x ∷ ds) (suc i) d e = omega (arith, delegated-erase_idx ds i d e)

delegated_to-erase_idx :
    (v : String) (ds : List Delegation) (i : ℕ) (d : Delegation)
    → get_elem? ds i ≡ some d
    → (if str_eq d.validator v then d.amount.amount else 0) + delegated_to v (erase_idx ds i)
      ≡ delegated_to v ds
delegated_to-erase_idx v [] i d e = cc
delegated_to-erase_idx v (x ∷ ds) zero d e = ground arith
delegated_to-erase_idx v (x ∷ ds) (suc i) d e = omega (arith, delegated_to-erase_idx v ds i d e)

undelegated_from-some :
    (v denom validator : String) (n : ℕ) (ms : List CosmosMsg)
    → undelegated_from v (undelegate_some denom validator n ++ ms)
      ≡ (if str_eq validator v then n else 0) + undelegated_from v ms
unfolding undelegated_from undelegate_some
undelegated_from-some v denom validator n ms = ground arith

undelegate_some-All :
    (denom validator : String) (n : ℕ) (ms : List CosmosMsg)
    → All (IsUndelegation denom) ms
    → All (IsUndelegation denom) (undelegate_some denom validator n ++ ms)
unfolding undelegate_some
undelegate_some-All denom validator n ms h = ground arith

undelegated-some :
    (denom validator : String) (n : ℕ) (ms : List CosmosMsg)
    → undelegated (undelegate_some denom validator n ++ ms) ≡ n + undelegated ms
unfolding undelegated undelegate_some
undelegated-some denom validator n ms = ground arith

-- What a pick of `claimed` from `ds` gives: messages that undelegate the claim, each a positive
-- amount of the coin, and from no validator more than is delegated to it.
pub record Picks (denom : String) (claimed : ℕ) (ds : List Delegation) (ms : List CosmosMsg)
    : Type 0 where
  pub exact : undelegated ms ≡ claimed
  pub undelegations : All (IsUndelegation denom) ms
  pub within : (v : String) → undelegated_from v ms ≤ delegated_to v ds

module _ ⦃p : Platform⦄ where
  open p use {uint_checked_sub_lem, gen_range, gen_range-lt, gen_range-zero}

  -- One round that draws `d`, with what the others do left open.
  pick_rounds_step :
      (denom : String) (height fuel index claimed r : ℕ) (ds : List Delegation) (d : Delegation)
      → 0 < claimed
      → height + index + 1 ≤ u64_max
      → gen_range (height + index) (length ds) ≡ ok r
      → get_elem? ds r ≡ some d
      → pick_rounds denom height (suc fuel) index claimed ds ≡ (
          pick_rounds denom height fuel (index + 1) (claimed - d.amount.amount) (erase_idx ds r)
          >>= λ ms. ok (undelegate_some denom d.validator (min claimed d.amount.amount) ++ ms))
  unfolding pick_rounds
  pick_rounds_step denom height fuel index claimed r ds d pos low drawn found =
      ground (arith, uint_checked_sub_lem claimed d.amount.amount)

  pick_rounds_done :
      (denom : String) (height fuel index : ℕ) (ds : List Delegation)
      → pick_rounds denom height (suc fuel) index 0 ds ≡ ok []
  unfolding pick_rounds
  pick_rounds_done denom height fuel index ds = refl

  pick_rounds_total :
      (denom : String) (height fuel index claimed : ℕ) (ds : List Delegation)
      → length ds < fuel
      → claimed ≤ delegated ds
      → height + index + length ds ≤ u64_max
      → (ms : List CosmosMsg) × (pick_rounds denom height fuel index claimed ds ≡ ok ms)
        × Picks denom claimed ds ms
  unfolding undelegated undelegated_from
  pick_rounds_total denom height zero index claimed ds short enough low = absurd (omega arith)
  pick_rounds_total denom height (suc fuel) index zero ds short enough low =
      ([], pick_rounds_done denom height fuel index ds, none_picked)
    where
      none_picked : Picks denom 0 ds []
      none_picked = record { exact = refl; undelegations = tt; within = λ v. omega arith }
  pick_rounds_total denom height (suc fuel) index (suc n) [] short enough low = absurd (omega arith)
  pick_rounds_total denom height (suc fuel) index (suc n) (x ∷ xs) short enough low =
      let (r, drawn, r_lt) = gen_range-lt (height + index) (length (x ∷ xs)) (omega arith) in
      let (d, found) = get_elem?-some (x ∷ xs) r r_lt in
      let left = delegated-erase_idx (x ∷ xs) r d found in
      let fewer = length-erase_idx (x ∷ xs) r r_lt in
      let amount : ℕ = min (suc n) d.amount.amount in
      let (ms, done, picks) =
        pick_rounds_total denom height fuel (index + 1) (suc n - d.amount.amount)
          (erase_idx (x ∷ xs) r) (omega arith) (omega arith) (omega arith) in
      (
        undelegate_some denom d.validator amount ++ ms,
        pick_rounds_step denom height fuel index (suc n) r (x ∷ xs) d (omega arith) (omega arith)
              drawn found
            ∙ rw done,
        record {
          exact = undelegated-some denom d.validator amount ms ∙ omega (arith, picks.exact);
          undelegations = undelegate_some-All denom d.validator amount ms picks.undelegations;
          within = λ v. ground (
            arith,
            undelegated_from-some v denom d.validator amount ms,
            picks.within v,
            delegated_to-erase_idx v (x ∷ xs) r d found,
          );
        },
      )

  -- Where the delegations hold the claim (and the block height leaves room for the round
  -- counter), the pick succeeds: its messages undelegate the claim exactly, each a positive
  -- amount of the coin, and from no validator more than is delegated to it.
  pub pick_validator_exact :
      (q : Querier) (s : Store) (claim height : ℕ) (delegator : String) (ds : List Delegation)
      → q.all_delegations delegator ≡ ok ds
      → claim ≤ delegated ds
      → height + length ds ≤ u64_max
      → (ms : List CosmosMsg) × (pick_validator q s claim delegator height ≡ ok ms)
        × Picks s.parameters.underlying_coin_denom claim ds ms
  unfolding pick_validator
  pick_validator_exact q s claim height delegator ds answered enough low = rw answered (
      pick_rounds_total s.parameters.underlying_coin_denom height (suc (length ds)) 0 claim ds
        (omega arith) enough (omega arith))

  pick_rounds_short :
      (denom : String) (height fuel index claimed : ℕ) (ds : List Delegation)
      → length ds < fuel
      → delegated ds < claimed
      → height + index + length ds < u64_max
      → pick_rounds denom height fuel index claimed ds ≡ panic empty_range
  unfolding pick_rounds
  pick_rounds_short denom height zero index claimed ds short lack low = absurd (omega arith)
  pick_rounds_short denom height (suc fuel) index claimed [] short lack low =
      ground (arith, gen_range-zero (height + index))
  pick_rounds_short denom height (suc fuel) index claimed (x ∷ xs) short lack low =
      let (r, drawn, r_lt) = gen_range-lt (height + index) (length (x ∷ xs)) (omega arith) in
      let (d, found) = get_elem?-some (x ∷ xs) r r_lt in
      let left = delegated-erase_idx (x ∷ xs) r d found in
      let fewer = length-erase_idx (x ∷ xs) r r_lt in
      pick_rounds_step denom height fuel index claimed r (x ∷ xs) d (omega arith) (omega arith)
        drawn found
      ∙ rw (
          pick_rounds_short denom height fuel (index + 1) (claimed - d.amount.amount)
            (erase_idx (x ∷ xs) r) (omega arith) (omega arith) (omega arith))

  -- Where the delegations hold less than the claim, the pick panics on the empty range once all
  -- are taken: it never undelegates a part, and never runs out of its rounds.
  pub pick_validator_short :
      (q : Querier) (s : Store) (claim height : ℕ) (delegator : String) (ds : List Delegation)
      → q.all_delegations delegator ≡ ok ds
      → delegated ds < claim
      → height + length ds < u64_max
      → pick_validator q s claim delegator height ≡ panic empty_range
  unfolding pick_validator
  pick_validator_short q s claim height delegator ds answered lack low = rw answered (
      pick_rounds_short s.parameters.underlying_coin_denom height (suc (length ds)) 0 claim ds
        (omega arith) lack (omega arith))
