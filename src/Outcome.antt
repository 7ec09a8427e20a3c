-- ===== src/Outcome.antt =====
-- What a handler returns: Rust's `StdResult`, with a panic as a third way to end. An error and
-- a panic both make the chain drop the writes of the message, so neither carries a store.
use prism_auto_compounding_c.Prelude.{
  ℕ, String, ◌≡◌, ◌⊎◌, inl, inr, refl, Bool, true, false, Option, none, some,
}

-- The errors (`StdError`) by the text that the source gives them, or by the call that fails.
pub data Error : Type 0 where
  not_admin unauthorized paused : Error
  unsupported_validator not_a_validator last_validator more_than_one_coin token_registered : Error
  no_assets : String → Error
  no_withdrawable : String → Error
  epoch_too_long threshold_below_one fee_above_one unbonding_too_long denom_not_uluna : Error
  burn_too_small no_fee_collector invalid_address not_hub no_history : Error
  overflow not_found : Error
  external : ℕ → Error

-- The panics by their cause.
pub data Fault : Type 0 where
  arithmetic : Fault
  divide_by_zero : Fault
  empty_range : Fault
  token_not_registered no_delegation out_of_supply out_of_bonded unwrapped : Fault
  out_of_fuel : Fault

pub data Outcome {ℓ} (A : Type ℓ) : Type ℓ where
  ok : A → Outcome A
  err : Error → Outcome A
  panic : Fault → Outcome A

infixl 5 ◌>>=◌ ◌>>◌
abbrev pub ◌>>=◌ {ℓ κ} : {B : Type κ} {A : Type ℓ} → Outcome A → (A → Outcome B) → Outcome B
panic fault >>= next = panic fault
err error >>= next = err error
ok value >>= next = next value

abbrev pub ◌>>◌ {ℓ} : {B : Type ℓ} → Outcome (Unit {0}) → Outcome B → Outcome B
first >> rest = first >>= λ done. rest

-- `if !b { return Err(e) }`
abbrev pub ensure : Bool → Error → Outcome (Unit {0})
ensure true e = ok tt
ensure false e = err e

-- `if b { return Err(e) }`
abbrev pub reject_if : Bool → Error → Outcome (Unit {0})
reject_if true e = err e
reject_if false e = ok tt

module _ {ℓ} {A : Type ℓ} where
  -- `Option::expect`, `Option::unwrap`
  abbrev pub expect : Option A → Fault → Outcome A
  expect none x = panic x
  expect (some a) x = ok a

  -- `Result::expect`, `Result::unwrap`: an error becomes a panic.
  abbrev pub expect_ok : Outcome A → Fault → Outcome A
  expect_ok (ok a) x = ok a
  expect_ok (err e) x = panic x
  expect_ok (panic y) x = panic y

  -- `Result::unwrap_or_default`, `Result::unwrap_or`: a panic is not caught.
  abbrev pub unwrap_or : Outcome A → A → Outcome A
  unwrap_or (ok a) d = ok a
  unwrap_or (err e) d = ok d
  unwrap_or (panic x) d = panic x

  -- `Option::ok_or_else`
  abbrev pub ok_or : Option A → Error → Outcome A
  ok_or none e = err e
  ok_or (some a) e = ok a

-- A successful chain has a successful first step.
module _ {ℓ κ} {B : Type κ} {A : Type ℓ} where
  pub >>=-eq-ok :
      (first : Outcome A) (next : A → Outcome B) {result : B}
      → (first >>= next) ≡ ok result
      → (value : A) × (first ≡ ok value) × (next value ≡ ok result)
  >>=-eq-ok (panic fault) next done = cc
  >>=-eq-ok (err error) next done = cc
  >>=-eq-ok (ok value) next done = (value, refl, done)

pub Outcome-cases {ℓ} :
    {A : Type ℓ} (m : Outcome A)
    → ((a : A) × (m ≡ ok a)) ⊎ ((e : Error) × (m ≡ err e)) ⊎ ((x : Fault) × (m ≡ panic x))
Outcome-cases (ok a) = inl (a, refl)
Outcome-cases (err e) = inr (inl (e, refl))
Outcome-cases (panic x) = inr (inr (x, refl))

-- A chain whose steps do not end in one fault does not end in it.
pub >>=-ne-panic {ℓ κ} :
    {A : Type ℓ} {B : Type κ} (x : Fault) (m : Outcome A) (f : A → Outcome B)
    → ((m ≡ panic x) → ⊥)
    → ((a : A) → (f a ≡ panic x) → ⊥)
    → ((m >>= f) ≡ panic x)
    → ⊥
>>=-ne-panic x (ok a) f first rest e = rest a e
>>=-ne-panic x (err _) f first rest e = cc
>>=-ne-panic x (panic y) f first rest e = first (cc)

pub ok_injective {ℓ} : {A : Type ℓ} {a b : A} → ok a ≡ ok b → a ≡ b
ok_injective e = cc
