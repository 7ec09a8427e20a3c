-- ===== src/Hub/Claims/Changes.antt =====
-- The changes of a store that keep the claims covered.
use mathlib.Core.Option
use prism_auto_compounding_c.Prelude.{
  ℕ, String, ◌+◌, ◌≤◌, ◌≡◌, ◌≢◌, inl, inr, some, List, [], ◌∷◌, arith, str_eq, eq_iff, Bool-cases,
  Option-cases,
}
use prism_auto_compounding_c.Prelude.Assoc.{
  lookup, insert, erase, lookup-insert_self, lookup-insert_ne, lookup-erase_self, lookup-erase_ne,
}
use native.Mathlib.Decide.{ℕ_discrete}
use prism_auto_compounding_c.Protocol.Hub.{UnbondHistory}
use prism_auto_compounding_c.Hub.Store.{Store, erase_all}
use prism_auto_compounding_c.Hub.Unbond.Asked.{asked}
use prism_auto_compounding_c.Hub.Invariant.{IsValid}
use prism_auto_compounding_c.Hub.Invariant.Frames.{Untouched}
use prism_auto_compounding_c.Hub.Claims.{recorded_amount, IsCovered, sum_grows, sum_le}

-- The claims depend on the lists, the batch and the histories only.
abbrev pub SameClaims : Store → Store → Type 0
SameClaims s s' =
    (s'.histories ≡ s.histories)
    × (s'.current_batch ≡ s.current_batch)
    × (s'.wait_lists ≡ s.wait_lists)

pub same-IsCovered : (s s' : Store) → SameClaims s s' → IsCovered s → IsCovered s'
same-IsCovered s s' (histories, batch, lists) c = record {
  claims = λ us k d. rw (histories, batch, lists) (c.claims us k d);
}

pub Untouched-IsCovered : {s s' : Store} → Untouched s s' → IsCovered s → IsCovered s'
Untouched-IsCovered {s = s} {s' = s'} u c = same-IsCovered s s' (u.histories, u.batch, u.lists) c

-- A request: one user and the open batch grow by the same amount.
pub request-IsCovered :
    (s s' : Store) (user : String) (n : ℕ)
    → s'.histories ≡ s.histories
    → s'.current_batch
      ≡ record (s.current_batch) { requested_with_fee = s.current_batch.requested_with_fee + n }
    → asked s' user s.current_batch.id ≡ asked s user s.current_batch.id + n
    → ((b : ℕ)
        → b ≢ s.current_batch.id
        → lookup b (s'.wait_lists user) ≡ lookup b (s.wait_lists user))
    → ((u : String) → u ≢ user → s'.wait_lists u ≡ s.wait_lists u)
    → IsCovered s
    → IsCovered s'
request-IsCovered s s' user n histories batch grown others users c = record {
  claims = λ us k d. elim (ℕ_discrete k s.current_batch.id) [
    | yes here ↦
        let old = c.claims us k d in
        let new =
          sum_grows (λ u. asked s u k) (λ u. asked s' u k) user n us (λ u ne. rw (users u ne))
            (rw here grown) d in
        rw (histories, batch) (ground (arith, old, new, here))
    | no there ↦
        let old = c.claims us k d in
        let new =
          sum_le (λ u. asked s u k) (λ u. asked s' u k) us
            (λ u. elim (Bool-cases (str_eq u user)) [
              | inl it ↦ rw ((eq_iff u user).0 it, others k there) (omega arith)
              | inr other ↦ rw (users u (λ e. ground (arith, eq_iff u user))) (omega arith)
            ]) in
        rw (histories, batch) (ground (arith, old, new, there))
  ];
}

-- A closing: the history takes over what the open batch held, and the next batch holds nothing.
pub close-IsCovered :
    (s s' : Store) (h : UnbondHistory)
    → h.amount ≡ s.current_batch.requested_with_fee
    → s'.histories ≡ insert s.current_batch.id h s.histories
    → s'.current_batch ≡ record { id = s.current_batch.id + 1; requested_with_fee = 0 }
    → s'.wait_lists ≡ s.wait_lists
    → IsValid s
    → IsCovered s
    → IsCovered s'
close-IsCovered s s' h amount histories batch lists v c =
    let cur = s.current_batch.id in
    record {
      claims = λ us k d.
          let old = c.claims us k d in
          elim (ℕ_discrete k cur) [
            | yes here ↦
                let found : lookup k (insert cur h s.histories) ≡ some h =
                  rw here (lookup-insert_self cur h s.histories) in
                rw (histories, batch, lists, found) (ground (arith, old, amount, here))
            | no there ↦ elim (ℕ_discrete k (cur + 1)) [
              | yes next ↦ elim (Option-cases (lookup k s.histories)) [
                | inl none_there ↦
                    rw (histories, batch, lists) (ground (arith, old, none_there, there, next))
                | inr (g, found) ↦ let lt = v.fresh k g found in absurd (omega arith)
              ]
              | no other ↦
                  rw (histories, batch, lists, lookup-insert_ne k cur h s.histories there)
                    (ground (arith, old, there, other))
            ]
          ];
    }

-- Histories whose amounts stay.
pub amounts-IsCovered :
    (s s' : Store)
    → ((k : ℕ) → recorded_amount (lookup k s'.histories) ≡ recorded_amount (lookup k s.histories))
    → s'.current_batch ≡ s.current_batch
    → ((u : String) (k : ℕ) → asked s' u k ≤ asked s u k)
    → IsCovered s
    → IsCovered s'
amounts-IsCovered s s' amounts batch less c = record {
  claims = λ us k d.
      let old = c.claims us k d in
      let new = sum_le (λ u. asked s u k) (λ u. asked s' u k) us (λ u. less u k) in
      rw (amounts k, batch) (omega arith);
}

asked-erase :
    (b k : ℕ) (m : List (ℕ × ℕ))
    → Option.get_or (lookup k (erase b m)) 0 ≤ Option.get_or (lookup k m) 0
asked-erase b k m = elim (ℕ_discrete k b) [
  | yes here ↦ rw (here, lookup-erase_self b m) (omega arith)
  | no there ↦ rw (lookup-erase_ne k b m there) (omega arith)
]

pub asked-erase_all :
    (bs : List ℕ) (k : ℕ) (m : List (ℕ × ℕ))
    → Option.get_or (lookup k (erase_all bs m)) 0 ≤ Option.get_or (lookup k m) 0
unfolding erase_all
asked-erase_all [] k m = omega arith
asked-erase_all (b ∷ bs) k m =
    let here = asked-erase b k m in let rest = asked-erase_all bs k (erase b m) in omega arith
