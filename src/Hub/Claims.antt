-- ===== src/Hub/Claims.antt =====
-- The users' claims on the batches: no group of users has asked for more of a batch than the
-- batch holds (the wait lists, the current batch and the histories of state.rs together).
pub mod Changes
pub mod Steps
pub mod Reach
pub mod Payable
pub mod Own
mod Tests
use mathlib.Core.Option
use prism_auto_compounding_c.Prelude.{
  ℕ, String, ◌+◌, ◌≤◌, ◌<◌, ◌≡◌, ◌≢◌, refl, inl, inr, Bool, true, false, some, none, Option, List,
  [], ◌∷◌, arith, sum_by, str_eq, eq_iff, Bool-cases, ◌==◌, if◌then◌else◌, Option-cases,
}
use prism_auto_compounding_c.Prelude.Assoc.{
  lookup, insert, erase, lookup-insert_self, lookup-insert_ne, lookup-erase_self, lookup-erase_ne,
}
use native.Mathlib.Decide.{ℕ_discrete}
use prism_auto_compounding_c.Protocol.Hub.{UnbondHistory, CurrentBatch}
use prism_auto_compounding_c.Hub.Store.{Store, contains, erase_all}
use prism_auto_compounding_c.Hub.Validators.Whitelist.{Distinct}
use prism_auto_compounding_c.Hub.Unbond.Asked.{asked}

-- What a group of users has asked for of a batch.
abbrev pub asked_by : Store → List String → ℕ → ℕ
asked_by s us k = sum_by (λ u. asked s u k) us

-- What a batch holds: the open one by its running sum, a closed one by its history.
abbrev pub recorded_amount : Option UnbondHistory → ℕ
recorded_amount none = 0
recorded_amount (some h) = h.amount

abbrev pub held : Store → ℕ → ℕ
held s k =
    if k == s.current_batch.id
    then s.current_batch.requested_with_fee
    else recorded_amount (lookup k s.histories)

pub record IsCovered (s : Store) : Type 0 where
  pub claims : (us : List String) (k : ℕ) → Distinct us → asked_by s us k ≤ held s k

-- A group's sum grows by no more than one of its users' claim does.
pub sum_others :
    (f g : String → ℕ) (user : String) (us : List String)
    → ((u : String) → u ≢ user → g u ≡ f u)
    → contains us user ≡ false
    → sum_by g us ≡ sum_by f us
sum_others f g user [] same out = refl
sum_others f g user (u ∷ us) same out =
    let ne : u ≢ user = λ e. ground (arith, eq_iff u user) in
    let ih = sum_others f g user us same (ground arith) in let here = same u ne in omega arith

pub sum_grows :
    (f g : String → ℕ) (user : String) (n : ℕ) (us : List String)
    → ((u : String) → u ≢ user → g u ≡ f u)
    → g user ≡ f user + n
    → Distinct us
    → sum_by g us ≤ sum_by f us + n
sum_grows f g user n [] same grown d = omega arith
sum_grows f g user n (u ∷ us) same grown d = elim (Bool-cases (str_eq u user)) [
  | inl here ↦
      let it : u ≡ user = (eq_iff u user).0 here in
      let rest = sum_others f g user us same (rw it at (d.0)) in rw it (omega arith)
  | inr there ↦
      let ne : u ≢ user = λ e. ground (arith, eq_iff u user) in
      let ih = sum_grows f g user n us same grown (d.1) in let here = same u ne in omega arith
]

pub sum_le :
    (f g : String → ℕ) (us : List String) → ((u : String) → g u ≤ f u) → sum_by g us ≤ sum_by f us
sum_le f g [] le = omega arith
sum_le f g (u ∷ us) le = let ih = sum_le f g us le in let here = le u in omega arith
