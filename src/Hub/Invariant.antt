-- ===== src/Hub/Invariant.antt =====
-- The batches of a reachable hub: the closed ones are recorded without a gap, exactly those up
-- to the last processed one are released, and the current one is new.
pub mod Frames
pub mod Cases
pub mod Handlers
pub mod Reach
pub mod Scenario
mod Tests
use prism_auto_compounding_c.Prelude.{
  ℕ, suc, String, ◌+◌, ◌≤◌, ◌<◌, ◌≡◌, refl, ◌≢◌, ◌⊎◌, inl, inr, Bool, true, false, some, none,
  Option, arith, Option-cases, sym, ◌∙◌, List,
}
use native.Mathlib.Decide.{ℕ_discrete, dec_lt}
use prism_auto_compounding_c.Prelude.Assoc.{lookup, insert, lookup-insert_self, lookup-insert_ne}
use prism_auto_compounding_c.Outcome.{Outcome, ok, Outcome-cases}
use prism_auto_compounding_c.Platform.{Platform}
use prism_auto_compounding_c.Chain.{Env, MessageInfo, Querier, CosmosMsg}
use prism_auto_compounding_c.Protocol.Hub.{State, CurrentBatch, UnbondHistory}
use prism_auto_compounding_c.Hub.Store.{Store, store_unbond_history}
use prism_auto_compounding_c.Hub.Withdraw.{actual_unbonded, release_history}
use prism_auto_compounding_c.Hub.Withdraw.Loops.{due_history-lookup, Releases}
use prism_auto_compounding_c.SignedInt.{SignedInt}

pub record IsValid (s : Store) : Type 0 where
  pub fresh : (k : ℕ) (h : UnbondHistory) → lookup k s.histories ≡ some h → k < s.current_batch.id
  pub recorded : (k : ℕ) → 0 < k → k < s.current_batch.id → lookup k s.histories ≢ none
  pub numbered : (k : ℕ) (h : UnbondHistory) → lookup k s.histories ≡ some h → h.batch_id ≡ k
  pub processed : s.state.last_processed_batch < s.current_batch.id
  pub done :
      (k : ℕ) (h : UnbondHistory)
      → lookup k s.histories ≡ some h
      → k ≤ s.state.last_processed_batch
      → h.released ≡ true
  pub pending :
      (k : ℕ) (h : UnbondHistory)
      → lookup k s.histories ≡ some h
      → s.state.last_processed_batch < k
      → h.released ≡ false

-- The fields that the invariant speaks of are as before.
pub record Keeps (s s' : Store) : Type 0 where
  pub histories : s'.histories ≡ s.histories
  pub batch : s'.current_batch.id ≡ s.current_batch.id
  pub last : s'.state.last_processed_batch ≡ s.state.last_processed_batch

pub Keeps-trans : {s t u : Store} → Keeps s t → Keeps t u → Keeps s u
Keeps-trans a b = record {
  histories = b.histories ∙ a.histories;
  batch = b.batch ∙ a.batch;
  last = b.last ∙ a.last;
}

pub Keeps-IsValid : {s s' : Store} → Keeps s s' → IsValid s → IsValid s'
Keeps-IsValid k v = record {
  fresh = λ i h e. rw (k.batch) (v.fresh i h (rw (k.histories) at e));
  recorded = λ i pos lt. rw (k.histories) (v.recorded i pos (rw (k.batch) at lt));
  numbered = λ i h e. v.numbered i h (rw (k.histories) at e);
  processed = rw (k.batch, k.last) (v.processed);
  done = λ i h e le. v.done i h (rw (k.histories) at e) (rw (k.last) at le);
  pending = λ i h e lt. v.pending i h (rw (k.histories) at e) (rw (k.last) at lt);
}

-- What is found after an insertion is the new entry or an old one.
insert_cases :
    (cur k : ℕ) (h g : UnbondHistory) (m m' : List (ℕ × UnbondHistory))
    → m' ≡ insert cur h m
    → lookup k m' ≡ some g
    → ((k ≡ cur) × (g ≡ h)) ⊎ ((k ≢ cur) × (lookup k m ≡ some g))
insert_cases cur k h g m m' same e = elim (ℕ_discrete k cur) [
  | yes here ↦
      let new : lookup k m' ≡ some h = rw (same, here) (lookup-insert_self cur h m) in
      inl (here, cc)
  | no there ↦ inr (there, sym (lookup-insert_ne k cur h m there) ∙ (rw same at e))
]

-- A closed batch: its history is recorded, unreleased, under its id, and the id moves on.
pub closed-IsValid :
    (s s' : Store) (h : UnbondHistory)
    → h.batch_id ≡ s.current_batch.id
    → h.released ≡ false
    → s'.histories ≡ insert s.current_batch.id h s.histories
    → s'.current_batch.id ≡ s.current_batch.id + 1
    → s'.state.last_processed_batch ≡ s.state.last_processed_batch
    → IsValid s
    → IsValid s'
closed-IsValid s s' h number unreleased histories id last v =
    let cur = s.current_batch.id in
    let processed = v.processed in
    let cases = λ (k : ℕ) (g : UnbondHistory) (e : lookup k s'.histories ≡ some g).
      insert_cases cur k h g s.histories s'.histories histories e in
    record {
      fresh = λ k g e. elim (cases k g e) [
        | inl (here, _) ↦ omega arith
        | inr (_, old) ↦ let lt = v.fresh k g old in omega arith
      ];
      recorded = λ k pos lt. elim (ℕ_discrete k cur) [
        | yes here ↦ rw (histories, here, lookup-insert_self cur h s.histories) (λ e. cc)
        | no there ↦
            rw (histories, lookup-insert_ne k cur h s.histories there)
              (v.recorded k pos (omega arith))
      ];
      numbered = λ k g e. elim (cases k g e) [
        | inl (here, new) ↦ rw (new, here) number
        | inr (_, old) ↦ v.numbered k g old
      ];
      processed = omega arith;
      done = λ k g e le. elim (cases k g e) [
        | inl (here, _) ↦ absurd (omega arith)
        | inr (_, old) ↦ v.done k g old (omega arith)
      ];
      pending = λ k g e lt. elim (cases k g e) [
        | inl (here, new) ↦ rw new unreleased
        | inr (_, old) ↦ v.pending k g old (omega arith)
      ];
    }

module _ ⦃p : Platform⦄ where
  open p use {uint_mul_decimal, decimal_from_ratio}

  -- A released history keeps its id.
  release_history_lem :
      (slashed : SignedInt) (total : ℕ) (h h' : UnbondHistory)
      → release_history slashed total h ≡ ok h'
      → (h'.released ≡ true) × (h'.batch_id ≡ h.batch_id)
  unfolding release_history
  release_history_lem slashed total h h' e = ground arith

  -- What is found after a release is a released entry of the run or an old entry outside it.
  release_cases :
      (slashed : SignedInt) (total ht first last k : ℕ) (g : UnbondHistory) (s t : Store)
      → Releases slashed total ht first last s t
      → lookup k t.histories ≡ some g
      → (((k < first) ⊎ (last < k)) × (lookup k s.histories ≡ some g))
        ⊎ ((first ≤ k)
            × (k ≤ last)
            × (h : UnbondHistory) × (lookup k s.histories ≡ some h)
            × (release_history slashed total h ≡ ok g))
  release_cases slashed total ht first last k g s t r e = elim (dec_lt k first) [
    | yes below ↦ inl (inl below, sym (r.kept k (inl below)) ∙ e)
    | no not_below ↦ elim (dec_lt last k) [
      | yes above ↦ inl (inr above, sym (r.kept k (inr above)) ∙ e)
      | no not_above ↦
          let (h, h', due, done, found) = r.released k (omega arith) (omega arith) in
          let same : g ≡ h' = cc in
          inr (omega arith, omega arith, h, due_history-lookup s ht k h due, rw same done)
    ]
  ]

  pub Releases-IsValid :
      (slashed : SignedInt) (total ht last : ℕ) (s t s' : Store)
      → Releases slashed total ht (s.state.last_processed_batch + 1) last s t
      → s'.histories ≡ t.histories
      → s'.current_batch.id ≡ s.current_batch.id
      → s'.state.last_processed_batch ≡ last
      → IsValid s
      → IsValid s'
  Releases-IsValid slashed total ht last s t s' r same id at v =
      let first : ℕ = s.state.last_processed_batch + 1 in
      let reached = r.reached in
      let old = v.processed in
      let cases = λ (k : ℕ) (g : UnbondHistory) (e : lookup k s'.histories ≡ some g).
        release_cases slashed total ht first last k g s t r (rw same at e) in
      record {
        fresh = λ k g e. elim (cases k g e) [
          | inl (_, there) ↦ rw id (v.fresh k g there)
          | inr (_, _, h, there, _) ↦ rw id (v.fresh k h there)
        ];
        recorded = λ k pos lt. elim (dec_lt k first) [
          | yes below ↦ rw (same, r.kept k (inl below)) (v.recorded k pos (rw id at lt))
          | no not_below ↦ elim (dec_lt last k) [
            | yes above ↦ rw (same, r.kept k (inr above)) (v.recorded k pos (rw id at lt))
            | no not_above ↦
                let (h, h', due, done, found) = r.released k (omega arith) (omega arith) in
                rw (same, found) (λ e. cc)
          ]
        ];
        numbered = λ k g e. elim (cases k g e) [
          | inl (_, there) ↦ v.numbered k g there
          | inr (_, _, h, there, done) ↦
              (release_history_lem slashed total h g done).1 ∙ v.numbered k h there
        ];
        processed =
            rw (at, id)
              (elim (dec_lt last first) [
                | yes none_released ↦ omega arith
                | no some_released ↦
                    let (h, h', due, done, found) = r.released last (omega arith) (omega arith) in
                    v.fresh last h (due_history-lookup s ht last h due)
              ]);
        done = λ k g e le. elim (cases k g e) [
          | inl (inl below, there) ↦ v.done k g there (omega arith)
          | inl (inr above, there) ↦ absurd (omega arith)
          | inr (_, _, h, there, done) ↦ (release_history_lem slashed total h g done).0
        ];
        pending = λ k g e lt. elim (cases k g e) [
          | inl (_, there) ↦ v.pending k g there (omega arith)
          | inr (_, within, _, _, _) ↦ absurd (omega arith)
        ];
      }
