-- ===== src/Hub/Validators/Whitelist.antt =====
-- The whitelist holds each validator once, and is never emptied.
use mathlib.Core.List
use mathlib.Core.List.Perm
use prism_auto_compounding_c.Prelude.{
  suc, String, ◌≤◌, ◌<◌, ◌≡◌, ◌≢◌, inl, inr, refl, true, false, ◌||◌, ◌&&◌, not, List, [], ◌∷◌,
  arith, length, str_eq, eq_iff, Bool-cases,
}
use prism_auto_compounding_c.Outcome.{ok, Outcome-cases}
use prism_auto_compounding_c.Platform.{Platform}
use prism_auto_compounding_c.Chain.{Env, MessageInfo, Querier, CosmosMsg}
use prism_auto_compounding_c.Hub.Store.{
  Store, contains, without, store_white_validators, remove_white_validators, is_valid_validator,
  read_validators,
}
use prism_auto_compounding_c.Hub.Validators.{
  execute_register_validator, execute_deregister_validator,
}

abbrev pub Distinct : List String → Type 0
Distinct [] = Unit
Distinct (v ∷ vs) = (contains vs v ≡ false) × Distinct vs

abbrev pub IsWhitelist : Store → Type 0
IsWhitelist s = Distinct s.validators × (0 < length s.validators)

without_lem :
    (vs : List String) (v w : String)
    → contains (without vs v) w ≡ contains vs w && not (str_eq v w)
without_lem [] v w = refl
without_lem (x ∷ vs) v w = ground (arith, eq_iff x v, eq_iff x w, eq_iff v w, without_lem vs v w)

pub without-Distinct : (vs : List String) (v : String) → Distinct vs → Distinct (without vs v)
without-Distinct [] v d = tt
without-Distinct (x ∷ vs) v d = ground (arith, d.0, without_lem vs v x, without-Distinct vs v d.1)

without_absent : (vs : List String) (v : String) → contains vs v ≡ false → without vs v ≡ vs
without_absent [] v h = refl
without_absent (x ∷ vs) v h = ground (arith, without_absent vs v)

contains-length : (vs : List String) (v : String) → contains vs v ≡ true → 0 < length vs
contains-length [] v h = cc
contains-length (x ∷ vs) v h = omega arith

-- At most one entry is lost.
length-without :
    (vs : List String) (v : String) → Distinct vs → length vs ≤ suc (length (without vs v))
length-without [] v d = omega arith
length-without (x ∷ vs) v d = elim (Bool-cases (str_eq x v)) [
  | inl here ↦
      let same : x ≡ v = (eq_iff x v).0 here in
      let left = without_absent vs v (rw same at (d.0)) in rw (here, left) (omega arith)
  | inr there ↦ let ih = length-without vs v (d.1) in rw there (omega arith)
]

-- The order in which the validators are read does not change their number.
same_length : (l l' : List String) → List.length l ≡ List.length l' → length l ≡ length l'
same_length [] [] e = refl
same_length [] (x ∷ l') e = cc
same_length (x ∷ l) [] e = cc
same_length (x ∷ l) (y ∷ l') e = let ih = same_length l l' (cc) in omega arith

module _ ⦃p : Platform⦄ where
  open p use {ascending_validators, ascending_validators-perm, addr_canonicalize}

  length-read_validators : (s : Store) → length (read_validators s) ≡ length s.validators
  unfolding read_validators
  length-read_validators s =
      same_length _ _ (Perm.length-eq (ascending_validators-perm (s.validators)))

  store_validator_lem :
      (s : Store) (v : String)
      → Distinct s.validators
      → ((w : String)
          → is_valid_validator (store_white_validators s v) w
            ≡ (str_eq v w || is_valid_validator s w))
        × IsWhitelist (store_white_validators s v)
  unfolding store_white_validators is_valid_validator
  store_validator_lem s v d = elim (Bool-cases (contains s.validators v)) [
    | inl there ↦
        rw there
          (λ w. ground (arith, eq_iff v w, there), (d, contains-length (s.validators) v there))
    | inr new ↦ rw new (λ w. refl, ((new, d), omega arith))
  ]

  -- A registration that returns has whitelisted a validator of the chain and no other, sends
  -- nothing, and keeps each validator listed once.
  pub register_validator_lem :
      (q : Querier) (env : Env) (info : MessageInfo) (v : String) (s s' : Store)
      (ms : List CosmosMsg)
      → Distinct s.validators
      → execute_register_validator q env info v s ≡ ok (ms, s')
      → (all : List String) × (q.all_validators ≡ ok all)
        × (contains all v ≡ true)
        × (ms ≡ [])
        × ((w : String) → is_valid_validator s' w ≡ (str_eq v w || is_valid_validator s w))
        × IsWhitelist s'
  unfolding execute_register_validator
  register_validator_lem q env info v s s' ms d e = elim (Outcome-cases (q.all_validators)) [
    | inr failed ↦ absurd (ground arith)
    | inl (all, asked) ↦
        let same : s' ≡ store_white_validators s v = ground arith in
        let (listed, kept) = store_validator_lem s v d in
        (all, asked, ground arith, ground arith, rw same listed, rw same kept)
  ]

  -- A removal that returns has taken the validator off the whitelist and no other, which still
  -- lists each once and is not empty, where it did so before.
  pub deregister_validator_lem :
      (q : Querier) (env : Env) (info : MessageInfo) (v : String) (s s' : Store)
      (ms : List CosmosMsg)
      → IsWhitelist s
      → execute_deregister_validator q env info v s ≡ ok (ms, s')
      → ((w : String) → is_valid_validator s' w ≡ (is_valid_validator s w && not (str_eq v w)))
        × IsWhitelist s'
  unfolding execute_deregister_validator remove_white_validators is_valid_validator
  deregister_validator_lem q env info v s s' ms (d, some_left) e =
      let same : s' ≡ record s { validators = without s.validators v } = ground arith in
      let more : length s.validators ≢ 1 =
        λ one. let len = length-read_validators s in ground (arith, len, one) in
      let left = length-without (s.validators) v d in
      rw same (without_lem (s.validators) v, (without-Distinct (s.validators) v d, omega arith))
