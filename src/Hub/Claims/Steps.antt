-- ===== src/Hub/Claims/Steps.antt =====
-- Each handler keeps the claims covered.
use prism_auto_compounding_c.Prelude.{
  ℕ, String, ◌+◌, ◌≡◌, refl, inl, inr, List, arith, ap, str_eq, eq_iff, Bool-cases,
}
use prism_auto_compounding_c.Prelude.Assoc.{lookup}
use native.Mathlib.Decide.{dec_lt}
use prism_auto_compounding_c.Outcome.{ok}
use prism_auto_compounding_c.Platform.{Platform}
use prism_auto_compounding_c.Chain.{Env, MessageInfo, Querier, CosmosMsg}
use prism_auto_compounding_c.Protocol.Hub.{UnbondHistory, CurrentBatch, State}
use prism_auto_compounding_c.SignedInt.{SignedInt}
use prism_auto_compounding_c.Hub.Store.{Store, get_unbond_batches, store_unbond_history}
use prism_auto_compounding_c.Hub.Slashing.Laws.{slashing_frame}
use prism_auto_compounding_c.Hub.Unbond.{execute_unbond}
use prism_auto_compounding_c.Hub.Unbond.Closing.{closing_history}
use prism_auto_compounding_c.Hub.Unbond.Effect.{Saves, execute_unbond_lem}
use prism_auto_compounding_c.Hub.Unbond.Asked.{asked}
use prism_auto_compounding_c.Hub.Withdraw.{
  process_withdraw_rate, release_history, execute_withdraw_unbonded,
}
use prism_auto_compounding_c.Hub.Withdraw.Loops.{Releases, due_history-lookup}
use prism_auto_compounding_c.Hub.Withdraw.Process.{process_withdraw_rate_lem}
use prism_auto_compounding_c.Hub.Withdraw.Payout.{withdraw_once}
use prism_auto_compounding_c.Hub.Invariant.{IsValid}
use prism_auto_compounding_c.Hub.Invariant.Handlers.{requested-IsValid}
use prism_auto_compounding_c.Hub.Invariant.Frames.{SameButBond-Untouched}
use prism_auto_compounding_c.Hub.Claims.{recorded_amount, IsCovered}
use prism_auto_compounding_c.Hub.Claims.Changes.{
  same-IsCovered, Untouched-IsCovered, request-IsCovered, close-IsCovered, amounts-IsCovered,
  asked-erase_all,
}

module _ ⦃p : Platform⦄ where
  release_history-amount :
      (slashed : SignedInt) (total : ℕ) (h h' : UnbondHistory)
      → release_history slashed total h ≡ ok h'
      → h'.amount ≡ h.amount
  unfolding release_history
  release_history-amount slashed total h h' e = ground arith

  -- A release changes rates, not amounts.
  released_amounts :
      (slashed : SignedInt) (total ht first last : ℕ) (s t : Store)
      → Releases slashed total ht first last s t
      → (k : ℕ) → recorded_amount (lookup k t.histories) ≡ recorded_amount (lookup k s.histories)
  released_amounts slashed total ht first last s t r k = elim (dec_lt k first) [
    | yes below ↦ ap recorded_amount (r.kept k (inl below))
    | no not_below ↦ elim (dec_lt last k) [
      | yes above ↦ ap recorded_amount (r.kept k (inr above))
      | no not_above ↦
          let (h, h', due, done, found) = r.released k (omega arith) (omega arith) in
          rw (found, due_history-lookup s ht k h due)
            (release_history-amount slashed total h h' done)
    ]
  ]

  saved-IsCovered :
      (q : Querier) (env : Env) (amount : ℕ) (batch : CurrentBatch) (st : State) (s s' : Store)
      (ms : List CosmosMsg)
      → Saves q env amount batch st s s' ms
      → IsValid (record s { current_batch = batch; state = st })
      → IsCovered (record s { current_batch = batch; state = st })
      → IsCovered s'
  unfolding store_unbond_history
  saved-IsCovered q env amount batch st s s' ms saves v c =
      let lists = ap (λ (t : Store). t.wait_lists) saves.kept in
      let open_store : Store = record s { current_batch = batch; state = st } in
      elim (saves.outcome) [
        | inl (_, _, same_batch, _, same_histories) ↦
            same-IsCovered open_store s' (same_histories, same_batch, lists) c
        | inr (_, closes) ↦
            close-IsCovered open_store s' (closing_history env batch st) refl
              (ap (λ (t : Store). t.histories) closes.recorded) (closes.next_batch) lists v c
      ]

  pub execute_unbond-IsCovered :
      (q : Querier) (env : Env) (amount : ℕ) (user : String) (s s' : Store) (ms : List CosmosMsg)
      → execute_unbond q env amount user s ≡ ok (ms, s')
      → IsValid s
      → IsCovered s
      → IsCovered s'
  execute_unbond-IsCovered q env amount user s s' ms e v c =
      let (s1, supply, batch, st, s2, checked, issued, requests, saves) =
        execute_unbond_lem q env amount user s s' ms e in
      let first = SameButBond-Untouched (slashing_frame q env s s1 checked) in
      let after : Store = record s2 { current_batch = batch; state = st } in
      let histories = ap (λ (t : Store). t.histories) requests.only_lists in
      let c1 = Untouched-IsCovered first c in
      let listed : asked after user s1.current_batch.id
          ≡ asked s1 user s1.current_batch.id + requests.counted =
        rw (first.batch, requests.listed) in
      saved-IsCovered q env amount batch st s2 s' ms saves
        (requested-IsValid q env amount supply user s s1 s2 batch st checked requests v)
        (request-IsCovered s1 after user (requests.counted) histories
          (rw (first.batch) (requests.joined)) listed (rw (first.batch) (requests.other_batches))
          (requests.other_users) c1)

  pub process_withdraw_rate-IsCovered :
      (ht balance : ℕ) (s s' : Store)
      → process_withdraw_rate ht balance s ≡ ok s'
      → IsCovered s
      → IsCovered s'
  process_withdraw_rate-IsCovered ht balance s s' e c =
      let released = process_withdraw_rate_lem ht balance s s' e in
      let lists = ap (λ (t : Store). t.wait_lists) released.rest in
      amounts-IsCovered s s' (released_amounts _ _ _ _ _ s _ (released.run))
        (ap (λ (t : Store). t.current_batch) released.rest) (λ u k. rw lists (omega arith)) c

  pub execute_withdraw_unbonded-IsCovered :
      (q : Querier) (env : Env) (info : MessageInfo) (s s' : Store) (ms : List CosmosMsg)
      → execute_withdraw_unbonded q env info s ≡ ok (ms, s')
      → IsCovered s
      → IsCovered s'
  execute_withdraw_unbonded-IsCovered q env info s s' ms e c =
      let (balance, s1, asked_for, processed, pays) = withdraw_once q env info s s' ms e in
      let histories = ap (λ (t : Store). t.histories) pays.kept in
      amounts-IsCovered s1 s'
        (λ k. ap (λ (m : List (ℕ × UnbondHistory)). recorded_amount (lookup k m)) histories)
        (ap (λ (t : Store). t.current_batch) pays.kept)
        (λ u k. elim (Bool-cases (str_eq u info.sender)) [
          | inl it ↦
              rw ((eq_iff u info.sender).0 it, pays.removed)
                (asked-erase_all (get_unbond_batches s1 info.sender) k (s1.wait_lists info.sender))
          | inr other ↦ rw (pays.others u (λ e. ground (arith, eq_iff u info.sender))) (omega arith)
        ])
        (process_withdraw_rate-IsCovered _ balance s s1 processed c)
