-- ===== src/Hub/Histories.antt =====
-- What becomes of a recorded history (contracts/prism_hub/src/state.rs, `UNBOND_HISTORY_MAP`):
-- one message, and all the messages of a hub's later life.
pub mod Later
pub mod Recorded
mod Tests
use prism_auto_compounding_c.Prelude.{
  ℕ, String, ◌+◌, ◌-◌, ◌≤◌, ◌<◌, ◌≡◌, ◌⊎◌, refl, inl, inr, true, false, Bool, some, none, List, [],
  ◌∷◌, arith, ap, ◌∙◌, sym, ltb, Option-cases, Bool-cases,
}
use native.Mathlib.Decide.{dec_lt}
use prism_auto_compounding_c.Prelude.Assoc.{lookup, insert, lookup-insert_ne}
use prism_auto_compounding_c.Outcome.{ok}
use prism_auto_compounding_c.Platform.{Platform}
use prism_auto_compounding_c.Chain.{Env, MessageInfo, Querier, CosmosMsg}
use prism_auto_compounding_c.SignedInt.{SignedInt}
use prism_auto_compounding_c.Protocol.Hub.{
  UnbondHistory, CurrentBatch, State, ExecuteMsg, withdraw_unbonded,
}
use prism_auto_compounding_c.Hub.Store.{Store, read_unbond_history, store_unbond_history}
use prism_auto_compounding_c.Hub.Slashing.Laws.{slashing_frame}
use prism_auto_compounding_c.Hub.Unbond.{execute_unbond}
use prism_auto_compounding_c.Hub.Unbond.Effect.{Saves, execute_unbond_lem}
use prism_auto_compounding_c.Hub.Withdraw.{
  due_history, release_history, process_withdraw_rate, execute_withdraw_unbonded,
}
use prism_auto_compounding_c.Hub.Withdraw.Loops.{Releases, due_history-lookup}
use prism_auto_compounding_c.Hub.Withdraw.Process.{process_withdraw_rate_lem}
use prism_auto_compounding_c.Hub.Withdraw.Payout.{withdraw_once}
use prism_auto_compounding_c.Hub.Contract.{execute}
use prism_auto_compounding_c.Hub.Invariant.{IsValid}
use prism_auto_compounding_c.Hub.Invariant.Frames.{SameButBond-Untouched}
use prism_auto_compounding_c.Hub.Invariant.Cases.{execute_cases}

-- A history as it was, but for the rate and the mark of a release.
abbrev pub ReleasedAs : UnbondHistory → UnbondHistory → Type 0
ReleasedAs h h' =
    (h.released ≡ false) × (h' ≡ record h { withdraw_rate = h'.withdraw_rate; released = true })

-- What one message may do to a history: nothing, or a withdrawal releases it when it is old.
abbrev pub Follows : Env → Store → ExecuteMsg → UnbondHistory → UnbondHistory → Type 0
Follows env s msg h h' =
    (h' ≡ h)
    ⊎ ((msg ≡ withdraw_unbonded)
        × (h.time + s.parameters.unbonding_period ≤ env.time)
        × ReleasedAs h h')

module _ ⦃p : Platform⦄ where
  release_history-ReleasedAs :
      (slashed : SignedInt) (total : ℕ) (h h' : UnbondHistory)
      → release_history slashed total h ≡ ok h'
      → h' ≡ record h { withdraw_rate = h'.withdraw_rate; released = true }
  unfolding release_history
  release_history-ReleasedAs slashed total h h' e = ground arith

  due_history-old :
      (s : Store) (ht k : ℕ) (h : UnbondHistory)
      → due_history s ht k ≡ some h
      → (h.time ≤ ht) × (h.released ≡ false)
  unfolding due_history read_unbond_history
  due_history-old s ht k h e = elim (Option-cases (lookup k s.histories)) [
    | inl missing ↦ absurd (ground arith)
    | inr (g, found) ↦ elim (Bool-cases (ltb ht g.time)) [
      | inl young ↦ absurd (ground arith)
      | inr old ↦ elim (Bool-cases (g.released)) [
        | inl done ↦ absurd (ground arith)
        | inr pending ↦ let same : g ≡ h = ground arith in rw (← same) (ground arith, pending)
      ]
    ]
  ]

  -- What a release does to a history.
  pub process_withdraw_rate-history :
      (ht balance : ℕ) (s s' : Store) (k : ℕ) (h : UnbondHistory)
      → process_withdraw_rate ht balance s ≡ ok s'
      → lookup k s.histories ≡ some h
      → (h' : UnbondHistory) × (lookup k s'.histories ≡ some h')
        × ((h' ≡ h) ⊎ ((h.time ≤ ht) × ReleasedAs h h'))
  process_withdraw_rate-history ht balance s s' k h e found =
      let run = (process_withdraw_rate_lem ht balance s s' e).run in
      elim (dec_lt k (s.state.last_processed_batch + 1)) [
        | yes below ↦ (h, run.kept k (inl below) ∙ found, inl refl)
        | no not_below ↦ elim (dec_lt s'.state.last_processed_batch k) [
          | yes above ↦ (h, run.kept k (inr above) ∙ found, inl refl)
          | no not_above ↦
              let (g, h', due, done, stored) = run.released k (omega arith) (omega arith) in
              let same : g ≡ h = let there = due_history-lookup s ht k g due in cc in
              let (old, pending) = due_history-old s ht k g due in
              let released : ReleasedAs g h' =
                (pending, release_history-ReleasedAs _ _ g h' done) in
              (h', stored, inr (rw (← same) (old, released)))
        ]
      ]

  pub old_enough :
      (q : Querier) (env : Env) (info : MessageInfo) (s s' : Store) (ms : List CosmosMsg)
      → execute_withdraw_unbonded q env info s ≡ ok (ms, s')
      → s.parameters.unbonding_period ≤ env.time
  unfolding execute_withdraw_unbonded
  old_enough q env info s s' ms e = ground arith

  execute_withdraw_unbonded-history :
      (q : Querier) (env : Env) (info : MessageInfo) (s s' : Store) (ms : List CosmosMsg) (k : ℕ)
      (h : UnbondHistory)
      → execute_withdraw_unbonded q env info s ≡ ok (ms, s')
      → lookup k s.histories ≡ some h
      → (h' : UnbondHistory) × (lookup k s'.histories ≡ some h')
        × ((h' ≡ h) ⊎ ((h.time + s.parameters.unbonding_period ≤ env.time) × ReleasedAs h h'))
  execute_withdraw_unbonded-history q env info s s' ms k h e found =
      let (balance, s1, asked, processed, pays) = withdraw_once q env info s s' ms e in
      let period = old_enough q env info s s' ms e in
      let (h', there, how) = process_withdraw_rate-history _ balance s s1 k h processed found in
      (
        h',
        ap (λ (t : Store). lookup k t.histories) pays.kept ∙ there,
        elim how [ inl same ↦ inl same | inr (old, released) ↦ inr (omega arith, released) ],
      )

  -- A closing records its history under a new id.
  execute_unbond-history :
      (q : Querier) (env : Env) (amount : ℕ) (user : String) (s s' : Store) (ms : List CosmosMsg)
      (k : ℕ)
      → execute_unbond q env amount user s ≡ ok (ms, s')
      → k < s.current_batch.id
      → lookup k s'.histories ≡ lookup k s.histories
  unfolding store_unbond_history
  execute_unbond-history q env amount user s s' ms k e lt =
      let (s1, supply, batch, st, s2, checked, issued, requests, saves) =
        execute_unbond_lem q env amount user s s' ms e in
      let first = (SameButBond-Untouched (slashing_frame q env s s1 checked)).histories in
      let second = ap (λ (t : Store). t.histories) requests.only_lists in
      let before = ap (λ (m : List (ℕ × UnbondHistory)). lookup k m) (second ∙ first) in
      let id = ap (λ (b : CurrentBatch). b.id) requests.joined in
      elim (saves.outcome) [
        | inl (_, _, _, _, same) ↦ ap (λ (m : List (ℕ × UnbondHistory)). lookup k m) same ∙ before
        | inr (_, closes) ↦
            ap (λ (t : Store). lookup k t.histories) closes.recorded
            ∙ lookup-insert_ne k batch.id _ s2.histories (λ e. omega arith)
            ∙ before
      ]

  -- No message that succeeds forgets a recorded history or changes a released one: a history
  -- stays as it is, or a withdrawal, once its unbonding period is over, marks it as released and
  -- sets its rate, and leaves its amount, time and applied rate.
  pub execute-Follows :
      (q : Querier) (env : Env) (info : MessageInfo) (msg : ExecuteMsg) (s s' : Store)
      (ms : List CosmosMsg) (k : ℕ) (h : UnbondHistory)
      → execute q env info s msg ≡ ok (ms, s')
      → IsValid s
      → lookup k s.histories ≡ some h
      → (h' : UnbondHistory) × (lookup k s'.histories ≡ some h') × Follows env s msg h h'
  execute-Follows q env info msg s s' ms k h e valid found =
      elim (execute_cases q env info s s' msg ms e) [
        | inl untouched ↦ (
          h,
          ap (λ (m : List (ℕ × UnbondHistory)). lookup k m) untouched.histories ∙ found,
          inl refl,
        )
        | inr (inl (m, _, run)) ↦ (
          h,
          execute_unbond-history q env m.amount m.sender s s' ms k run (valid.fresh k h found)
              ∙ found,
          inl refl,
        )
        | inr (inr (withdrawal, run)) ↦
            let (h', there, how) =
              execute_withdraw_unbonded-history q env info s s' ms k h run found in
            (
              h',
              there,
              elim how [
                | inl same ↦ inl same
                | inr (old, released) ↦ inr (withdrawal, old, released)
              ],
            )
      ]
