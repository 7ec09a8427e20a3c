-- ===== src/Hub/Claims/Own.antt =====
-- Whose messages can change a user's claim (contracts/prism_hub/src/contract.rs, `execute`).
use mathlib.Core.Option
use native.Mathlib.Decide.{ℕ_discrete, dec_lt}
use prism_auto_compounding_c.Prelude.{
  ℕ, String, ◌+◌, ◌≤◌, ◌<◌, ◌≡◌, ◌≢◌, ◌⊎◌, refl, inl, inr, none, Option, List, [], ◌∷◌, arith, ap,
  sym, ◌∙◌, All, str_eq, eq_iff, Bool-cases, Option-cases,
}
use prism_auto_compounding_c.Prelude.Assoc.{lookup, erase, lookup-erase_self, lookup-erase_ne}
use prism_auto_compounding_c.Outcome.{ok}
use prism_auto_compounding_c.Platform.{Platform}
use prism_auto_compounding_c.Chain.{Env, MessageInfo, Querier, CosmosMsg}
use prism_auto_compounding_c.Protocol.Hub.{ExecuteMsg, Cw20ReceiveMsg, receive, withdraw_unbonded}
use prism_auto_compounding_c.Hub.Store.{
  Store, read_unbond_history, released_batches, get_unbond_batches, erase_all,
}
use prism_auto_compounding_c.Hub.Slashing.Laws.{slashing_frame}
use prism_auto_compounding_c.Hub.Unbond.{execute_unbond}
use prism_auto_compounding_c.Hub.Unbond.Effect.{execute_unbond_lem}
use prism_auto_compounding_c.Hub.Unbond.Asked.{asked}
use prism_auto_compounding_c.Hub.Withdraw.{execute_withdraw_unbonded}
use prism_auto_compounding_c.Hub.Withdraw.Payout.{withdraw_once}
use prism_auto_compounding_c.Hub.Withdraw.Process.{process_withdraw_rate_lem}
use prism_auto_compounding_c.Hub.Contract.{execute}
use prism_auto_compounding_c.Hub.Invariant.{IsValid}
use prism_auto_compounding_c.Hub.Invariant.Frames.{SameButBond-Untouched}
use prism_auto_compounding_c.Hub.Invariant.Cases.{execute_cases}
use prism_auto_compounding_c.Hub.Invariant.Handlers.{process_withdraw_rate-IsValid}

-- Erasing takes an entry away or leaves it, and leaves those of other keys.
erase_all_cases :
    (bs : List ℕ) (k : ℕ) (m : List (ℕ × ℕ))
    → (lookup k (erase_all bs m) ≡ none) ⊎ (lookup k (erase_all bs m) ≡ lookup k m)
unfolding erase_all
erase_all_cases [] k m = inr refl
erase_all_cases (b ∷ bs) k m =
    let rest = erase_all_cases bs k (erase b m) in
    elim (ℕ_discrete k b) [
      | yes here ↦
          let gone : lookup k (erase b m) ≡ none = rw here (lookup-erase_self b m) in
          elim rest [ inl empty ↦ inl empty | inr same ↦ inl (same ∙ gone) ]
      | no there ↦
          let kept = lookup-erase_ne k b m there in
          elim rest [ inl empty ↦ inl empty | inr same ↦ inr (same ∙ kept) ]
    ]

erase_all_others :
    (bs : List ℕ) (k : ℕ) (m : List (ℕ × ℕ))
    → All (λ b. b ≢ k) bs
    → lookup k (erase_all bs m) ≡ lookup k m
unfolding erase_all
erase_all_others [] k m h = refl
erase_all_others (b ∷ bs) k m h =
    erase_all_others bs k (erase b m) h.1 ∙ lookup-erase_ne k b m (λ e. h.0 (sym e))

-- Only batches up to the last processed one are collected.
collected :
    (s : Store) (k : ℕ) (l : List (ℕ × ℕ))
    → IsValid s
    → s.state.last_processed_batch < k
    → All (λ b. b ≢ k) (released_batches s l)
unfolding released_batches read_unbond_history
collected s k [] v lt = tt
collected s k ((b, w) ∷ l) v lt =
    let ih = collected s k l v lt in
    elim (Option-cases (lookup b s.histories)) [
      | inl missing ↦ ground arith
      | inr (h, found) ↦ elim (Bool-cases (h.released)) [
        | inr unreleased ↦ ground arith
        | inl released ↦
            let other : b ≢ k = λ e. let pending = v.pending k h (rw e at found) lt in cc in
            ground arith
      ]
    ]

-- What one message may do to a user's claim on a batch: nothing, or the user's own tokens join
-- the open batch, or the user withdraws and the claim on a released batch is gone.
abbrev pub Claimed : MessageInfo → Store → ExecuteMsg → Store → String → ℕ → Type 0
Claimed info s msg s' u k =
    (asked s' u k ≡ asked s u k)
    ⊎ ((m : Cw20ReceiveMsg) × (msg ≡ receive m)
        × (m.sender ≡ u)
        × (k ≡ s.current_batch.id)
        × (asked s u k ≤ asked s' u k)
        × (asked s' u k ≤ asked s u k + m.amount))
    ⊎ ((msg ≡ withdraw_unbonded)
        × (info.sender ≡ u)
        × (k ≤ s'.state.last_processed_batch)
        × (asked s' u k ≡ 0))

module _ ⦃p : Platform⦄ where
  open p use {ascending_batches}

  still_out :
      (s : Store) (u : String) (k : ℕ)
      → IsValid s
      → s.state.last_processed_batch < k
      → All (λ b. b ≢ k) (get_unbond_batches s u)
  unfolding get_unbond_batches
  still_out s u k v lt = collected s k (ascending_batches (s.wait_lists u)) v lt

  unbond-asked :
      (q : Querier) (env : Env) (amount : ℕ) (user : String) (s s' : Store) (ms : List CosmosMsg)
      (u : String) (k : ℕ)
      → execute_unbond q env amount user s ≡ ok (ms, s')
      → (asked s' u k ≡ asked s u k)
        ⊎ ((user ≡ u)
            × (k ≡ s.current_batch.id)
            × (asked s u k ≤ asked s' u k)
            × (asked s' u k ≤ asked s u k + amount))
  unbond-asked q env amount user s s' ms u k e =
      let (s1, supply, batch, st, s2, checked, issued, r, saves) =
        execute_unbond_lem q env amount user s s' ms e in
      let before = (SameButBond-Untouched (slashing_frame q env s s1 checked)).lists in
      let after = ap (λ (t : Store). t.wait_lists) saves.kept in
      let as_before = λ (f : String → List (ℕ × ℕ)). Option.get_or (lookup k (f u)) 0 in
      elim (Bool-cases (str_eq u user)) [
        | inr other ↦
            let same = r.other_users u (λ e. ground (arith, eq_iff u user)) in
            inl (
              ap as_before after
              ∙ ap (λ (l : List (ℕ × ℕ)). Option.get_or (lookup k l) 0) same
              ∙ ap as_before before)
        | inl it ↦
            let same : u ≡ user = (eq_iff u user).0 it in
            elim (ℕ_discrete k s.current_batch.id) [
              | no there ↦
                  let kept = r.other_batches k there in
                  inl (
                    ap as_before after
                    ∙ rw same (ap (λ (o : Option ℕ). Option.get_or o 0) kept)
                    ∙ ap as_before before)
              | yes here ↦
                  let listed = r.listed in
                  let counted = r.counted_le in
                  let grown : asked s' u k ≡ asked s u k + r.counted =
                    rw (after, same, here, listed, before) refl in
                  inr (sym same, here, omega arith, omega arith)
            ]
      ]

  withdraw-asked :
      (q : Querier) (env : Env) (info : MessageInfo) (s s' : Store) (ms : List CosmosMsg)
      (u : String) (k : ℕ)
      → execute_withdraw_unbonded q env info s ≡ ok (ms, s')
      → IsValid s
      → (asked s' u k ≡ asked s u k)
        ⊎ ((info.sender ≡ u) × (k ≤ s'.state.last_processed_batch) × (asked s' u k ≡ 0))
  withdraw-asked q env info s s' ms u k e v =
      let (balance, s1, found, processed, payout) = withdraw_once q env info s s' ms e in
      let lists =
        ap (λ (t : Store). t.wait_lists)
          (process_withdraw_rate_lem _ balance s s1 processed).rest in
      let last = ap (λ (t : Store). t.state.last_processed_batch) payout.kept in
      let v1 = process_withdraw_rate-IsValid _ balance s s1 processed v in
      let before = ap (λ (f : String → List (ℕ × ℕ)). Option.get_or (lookup k (f u)) 0) lists in
      let worth = λ (o : Option ℕ). Option.get_or o 0 in
      elim (Bool-cases (str_eq u info.sender)) [
        | inr other ↦
            let same = payout.others u (λ e. ground (arith, eq_iff u info.sender)) in
            inl (ap (λ (l : List (ℕ × ℕ)). worth (lookup k l)) same ∙ before)
        | inl it ↦
            let same : u ≡ info.sender = (eq_iff u info.sender).0 it in
            let bs = get_unbond_batches s1 u in
            let removed : s'.wait_lists u ≡ erase_all bs (s1.wait_lists u) =
              rw same (payout.removed) in
            let now = ap (λ (l : List (ℕ × ℕ)). worth (lookup k l)) removed in
            elim (erase_all_cases bs k (s1.wait_lists u)) [
              | inr kept ↦ inl (now ∙ ap worth kept ∙ before)
              | inl gone ↦ elim (dec_lt s1.state.last_processed_batch k) [
                | no released ↦ inr (sym same, omega arith, now ∙ ap worth gone)
                | yes pending ↦
                    let kept =
                      erase_all_others bs k (s1.wait_lists u) (still_out s1 u k v1 pending) in
                    inl (now ∙ ap worth kept ∙ before)
              ]
            ]
      ]

  -- A user's claim on a batch changes by no one else's doing. A message that succeeds leaves it as
  -- it is, or hands over the user's own tokens, which adds at most their amount to the claim on
  -- the open batch, or is the user's own withdrawal, and the claim was on a released batch.
  pub execute-Claimed :
      (q : Querier) (env : Env) (info : MessageInfo) (msg : ExecuteMsg) (s s' : Store)
      (ms : List CosmosMsg) (u : String) (k : ℕ)
      → execute q env info s msg ≡ ok (ms, s')
      → IsValid s
      → Claimed info s msg s' u k
  execute-Claimed q env info msg s s' ms u k e v = elim (execute_cases q env info s s' msg ms e) [
    | inl untouched ↦
        inl (ap (λ (f : String → List (ℕ × ℕ)). Option.get_or (lookup k (f u)) 0) untouched.lists)
    | inr (inl (m, received, run)) ↦ elim (unbond-asked q env m.amount m.sender s s' ms u k run) [
      | inl same ↦ inl same
      | inr (own, here, more, most) ↦ inr (inl (m, received, own, here, more, most))
    ]
    | inr (inr (withdrawal, run)) ↦ elim (withdraw-asked q env info s s' ms u k run v) [
      | inl same ↦ inl same
      | inr (own, released, gone) ↦ inr (inr (withdrawal, own, released, gone))
    ]
  ]
