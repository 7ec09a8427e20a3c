-- ===== src/Hub/Histories/Recorded.antt =====
-- Which histories a message leaves: those that it followed, and the batch that it closed.
use prism_auto_compounding_c.Prelude.{
  ℕ, String, ◌+◌, ◌≡◌, ◌⊎◌, refl, inl, inr, false, some, none, List, arith, ap, ◌∙◌, Option-cases,
}
use native.Mathlib.Decide.{ℕ_discrete, dec_lt}
use prism_auto_compounding_c.Prelude.Assoc.{lookup, insert, lookup-insert_self, lookup-insert_ne}
use prism_auto_compounding_c.Outcome.{ok}
use prism_auto_compounding_c.Platform.{Platform}
use prism_auto_compounding_c.Chain.{Env, MessageInfo, Querier, CosmosMsg}
use prism_auto_compounding_c.Protocol.Hub.{ExecuteMsg, UnbondHistory, CurrentBatch}
use prism_auto_compounding_c.Hub.Store.{Store, store_unbond_history}
use prism_auto_compounding_c.Hub.Slashing.Laws.{slashing_frame}
use prism_auto_compounding_c.Hub.Unbond.{execute_unbond}
use prism_auto_compounding_c.Hub.Unbond.Closing.{closing_history}
use prism_auto_compounding_c.Hub.Unbond.Effect.{execute_unbond_lem}
use prism_auto_compounding_c.Hub.Withdraw.{process_withdraw_rate, execute_withdraw_unbonded}
use prism_auto_compounding_c.Hub.Withdraw.Loops.{due_history-lookup}
use prism_auto_compounding_c.Hub.Withdraw.Process.{process_withdraw_rate_lem}
use prism_auto_compounding_c.Hub.Withdraw.Payout.{withdraw_once}
use prism_auto_compounding_c.Hub.Contract.{execute}
use prism_auto_compounding_c.Hub.Invariant.{IsValid}
use prism_auto_compounding_c.Hub.Invariant.Frames.{SameButBond-Untouched}
use prism_auto_compounding_c.Hub.Invariant.Cases.{execute_cases}
use prism_auto_compounding_c.Hub.Histories.{Follows, execute-Follows}

-- A history after a message: it was there and is followed, or it is the batch just closed.
abbrev pub Recorded : Env → Store → ExecuteMsg → ℕ → UnbondHistory → Type 0
Recorded env s msg k g =
    ((h : UnbondHistory) × (lookup k s.histories ≡ some h) × Follows env s msg h g)
    ⊎ ((k ≡ s.current_batch.id) × (g.time ≡ env.time) × (g.released ≡ false))

module _ ⦃p : Platform⦄ where
  -- What an unbond request newly records is the current batch, closed now.
  unbond-recorded :
      (q : Querier) (env : Env) (amount : ℕ) (user : String) (s s' : Store) (ms : List CosmosMsg)
      (k : ℕ) (g : UnbondHistory)
      → execute_unbond q env amount user s ≡ ok (ms, s')
      → lookup k s.histories ≡ none
      → lookup k s'.histories ≡ some g
      → (k ≡ s.current_batch.id) × (g.time ≡ env.time) × (g.released ≡ false)
  unfolding store_unbond_history
  unbond-recorded q env amount user s s' ms k g e missing found =
      let (s1, supply, batch, st, s2, checked, issued, requests, saves) =
        execute_unbond_lem q env amount user s s' ms e in
      let first = (SameButBond-Untouched (slashing_frame q env s s1 checked)).histories in
      let second = ap (λ (t : Store). t.histories) requests.only_lists in
      let before = ap (λ (m : List (ℕ × UnbondHistory)). lookup k m) (second ∙ first) in
      let id = ap (λ (b : CurrentBatch). b.id) requests.joined in
      elim (saves.outcome) [
        | inl (_, _, _, _, same) ↦
            let there = ap (λ (m : List (ℕ × UnbondHistory)). lookup k m) same in absurd (cc)
        | inr (_, closes) ↦
            let there = ap (λ (t : Store). lookup k t.histories) closes.recorded in
            let h = closing_history env batch st in
            elim (ℕ_discrete k batch.id) [
              | yes here ↦
                  let new : lookup k (insert batch.id h s2.histories) ≡ some h =
                    rw here (lookup-insert_self batch.id h s2.histories) in
                  let same : g ≡ h = cc in rw same (omega arith, refl, refl)
              | no other ↦ let old = lookup-insert_ne k batch.id h s2.histories other in absurd (cc)
            ]
      ]

  -- A release records nothing new.
  pub process_withdraw_rate-missing :
      (ht balance : ℕ) (s s1 : Store) (k : ℕ)
      → process_withdraw_rate ht balance s ≡ ok s1
      → lookup k s.histories ≡ none
      → lookup k s1.histories ≡ none
  process_withdraw_rate-missing ht balance s s1 k e missing =
      let run = (process_withdraw_rate_lem ht balance s s1 e).run in
      elim (dec_lt k (s.state.last_processed_batch + 1)) [
        | yes below ↦ run.kept k (inl below) ∙ missing
        | no not_below ↦ elim (dec_lt s1.state.last_processed_batch k) [
          | yes above ↦ run.kept k (inr above) ∙ missing
          | no not_above ↦
              let (h, _, due, _, _) = run.released k (omega arith) (omega arith) in
              let there = due_history-lookup s ht k h due in absurd (cc)
        ]
      ]

  withdraw-missing :
      (q : Querier) (env : Env) (info : MessageInfo) (s s' : Store) (ms : List CosmosMsg) (k : ℕ)
      → execute_withdraw_unbonded q env info s ≡ ok (ms, s')
      → lookup k s.histories ≡ none
      → lookup k s'.histories ≡ none
  withdraw-missing q env info s s' ms k e missing =
      let (balance, s1, asked, processed, pays) = withdraw_once q env info s s' ms e in
      ap (λ (t : Store). lookup k t.histories) pays.kept
      ∙ process_withdraw_rate-missing _ balance s s1 k processed missing

  pub execute-Recorded :
      (q : Querier) (env : Env) (info : MessageInfo) (msg : ExecuteMsg) (s s' : Store)
      (ms : List CosmosMsg) (k : ℕ) (g : UnbondHistory)
      → execute q env info s msg ≡ ok (ms, s')
      → IsValid s
      → lookup k s'.histories ≡ some g
      → Recorded env s msg k g
  execute-Recorded q env info msg s s' ms k g e v found =
      elim (Option-cases (lookup k s.histories)) [
        | inr (h, old) ↦
            let (h', there, how) = execute-Follows q env info msg s s' ms k h e v old in
            let same : h' ≡ g = cc in inl (h, old, rw (← same) how)
        | inl missing ↦ elim (execute_cases q env info s s' msg ms e) [
          | inl untouched ↦
              let there = ap (λ (m : List (ℕ × UnbondHistory)). lookup k m) untouched.histories in
              absurd (cc)
          | inr (inl (m, _, run)) ↦
              inr (unbond-recorded q env m.amount m.sender s s' ms k g run missing found)
          | inr (inr (_, run)) ↦
              let there = withdraw-missing q env info s s' ms k run missing in absurd (cc)
        ]
      ]
