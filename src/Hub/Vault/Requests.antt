-- ===== src/Hub/Vault/Requests.antt =====
-- An unbond request moves the vault: the check for slashing, the request, and the settlement of
-- the batch if its epoch has passed (contracts/prism_hub/src/unbond.rs, `execute_unbond`).
use native.Mathlib.Nat.{mul-le-mul_right, mul-le-mul_left}
use prism_auto_compounding_c.Prelude.{
  ℕ, String, ◌+◌, ◌-◌, ◌*◌, ◌/◌, ◌≤◌, ◌≡◌, inl, inr, List, [], ◌∷◌, ◌++◌, arith, ap, ◌∙◌, sym,
  subst, All, refl,
}
use prism_auto_compounding_c.Outcome.{ok}
use prism_auto_compounding_c.Platform.{Platform, decimal_one}
use prism_auto_compounding_c.Chain.{Env, Querier, CosmosMsg, IsTokenless, wasm_execute, token_burn}
use prism_auto_compounding_c.Protocol.Hub.{State, CurrentBatch}
use prism_auto_compounding_c.Hub.Stakes.{
  Flow, flow_of, undelegated, minted_in, burnt_in, tokenless-append,
}
use prism_auto_compounding_c.Hub.Stakes.Flows.{Saves-stakes}
use prism_auto_compounding_c.Hub.Store.{Store}
use prism_auto_compounding_c.Hub.Slashing.Laws.{slashing_frame, update_exchange_rate_frame}
use prism_auto_compounding_c.Hub.Unbond.{execute_unbond}
use prism_auto_compounding_c.Hub.Unbond.Closing.{Closes}
use prism_auto_compounding_c.Hub.Unbond.Effect.{Requests, Saves, execute_unbond_lem}
use prism_auto_compounding_c.Hub.Slashing.Left.{left_of_bond}
use prism_auto_compounding_c.Hub.Vault.{
  Vault, IsPriced, Terms, VaultRequest, request, VaultSettlement, settle, VaultAct, requests,
  closes, seen,
}
use prism_auto_compounding_c.Hub.Vault.World.{
  terms_of, Token, vault, supply_after, supply_after-append, Answers,
}
use prism_auto_compounding_c.Hub.Pick.Undelegations.{pick_validator-All}
use prism_auto_compounding_c.Hub.Vault.Rate.{IsPriced-covers, update_exchange_rate-IsPriced}
use prism_auto_compounding_c.Hub.Vault.Steps.{issued-Answers, slashing-seen}

-- What claims are worth at the fair rate is at most their share of the assets.
settled_share :
    (v : Vault) (settled : ℕ)
    → IsPriced v
    → settled * v.rate / decimal_one ≤ v.assets
    → settled * v.rate / decimal_one * v.claims ≤ settled * v.assets
settled_share v settled priced le = elim (IsPriced-covers v priced) [
  | inr empty ↦
      let none_paid : settled * v.rate / decimal_one ≡ 0 = omega arith in rw none_paid (omega arith)
  | inl covers ↦
      let x : ℕ = settled * v.rate / decimal_one in
      let cut : x * decimal_one ≤ settled * v.rate = omega arith in
      let paid = mul-le-mul_right (v.claims) cut in
      let owed = mul-le-mul_left settled covers in omega arith
]

abbrev burns : ℕ → Flow
burns amount = record { staked = 0; unstaked = 0; minted = 0; burnt = amount }

abbrev unstakes : ℕ → Flow
unstakes x = record { staked = 0; unstaked = x; minted = 0; burnt = 0 }

-- The vault that a request leaves.
abbrev requested_vault : CurrentBatch → State → ℕ → Vault
requested_vault batch st supply = record {
  assets = st.total_bond_amount;
  claims = supply + batch.requested_with_fee;
  rate = st.exchange_rate;
}

module _ ⦃p : Platform⦄ where
  Requests-IsPriced :
      (amount supply : ℕ) (user : String) (s s' : Store) (batch batch' : CurrentBatch) (st' : State)
      → Requests amount supply user batch s batch' st' s'
      → IsPriced (requested_vault batch' st' (supply - amount))
  Requests-IsPriced amount supply user s s' batch batch' st' r =
      let sum = ap (λ (b : CurrentBatch). b.requested_with_fee) (r.joined) in
      rw sum (update_exchange_rate-IsPriced (s.state) st' (supply - amount) _ (r.rate))

  Requests-VaultRequest :
      (amount supply : ℕ) (user : String) (s s' : Store) (batch batch' : CurrentBatch) (st' : State)
      → s.current_batch ≡ batch
      → Requests amount supply user batch s batch' st' s'
      → VaultRequest
          (terms_of s)
          (vault s supply)
          (burns amount)
          (requested_vault batch' st' (supply - amount))
  Requests-VaultRequest amount supply user s s' batch batch' st' same r =
      let st : State = s.state in
      let supplied = r.supplied in
      let bond =
        ap (λ (x : State). x.total_bond_amount) (update_exchange_rate_frame st st' _ _ (r.rate)) in
      let sum = ap (λ (b : CurrentBatch). b.requested_with_fee) (r.joined) in
      request amount (r.counted) (st'.exchange_rate)
        (record { part_le = r.counted_le; fee_le = r.fee_bound; full = r.full }) (omega arith) refl
        (ground arith) (Requests-IsPriced amount supply user s s' batch batch' st' r)

  Closes-VaultSettlement :
      (q : Querier) (env : Env) (batch batch' : CurrentBatch) (st st' : State) (s s' : Store)
      (ms : List CosmosMsg) (supply : ℕ)
      → IsPriced (requested_vault batch st supply)
      → (c : Closes q env batch st s ms batch' st' s')
      → VaultSettlement
          (requested_vault batch st supply)
          (unstakes (c.worth))
          (requested_vault batch' st' supply)
  Closes-VaultSettlement q env batch batch' st st' s s' ms supply priced c =
      let settled : ℕ = batch.requested_with_fee in
      let worth = c.priced in
      let covered = c.covered in
      let left = c.left in
      let emptied = c.next_batch in
      settle settled (c.worth) (omega arith) covered worth
        (rw worth (settled_share (requested_vault batch st supply) settled priced (omega arith)))
        refl (ground arith)

module _ ⦃p : Platform⦄ ⦃t : Token⦄ where
  burnt_after :
      (undelegations : List CosmosMsg) (token : String) (amount supply : ℕ)
      → All IsTokenless undelegations
      → amount ≤ supply
      → supply_after (undelegations ++ wasm_execute token (token_burn amount) [] ∷ []) supply
        ≡ supply - amount
  burnt_after undelegations token amount supply silent le =
      supply_after-append undelegations _ supply silent ∙ t.burnt_lem amount supply le

  Saves-VaultAct :
      (q : Querier) (env : Env) (amount supply n : ℕ) (terms : Terms) (batch : CurrentBatch)
      (st : State) (s s' : Store) (ms : List CosmosMsg) (v : Vault)
      → amount ≤ supply
      → VaultRequest terms (seen v n) (burns amount) (requested_vault batch st (supply - amount))
      → IsPriced (requested_vault batch st (supply - amount))
      → Saves q env amount batch st s s' ms
      → VaultAct v
          (record { left = n; terms = terms; flow = flow_of ms })
          (vault s' (supply_after ms supply))
  Saves-VaultAct q env amount supply n terms batch st s s' ms v le asks priced saved =
      let left : ℕ = supply - amount in
      let silent : All IsTokenless (saved.undelegations) = elim (saved.outcome) [
        | inl (_, none_sent, _, _, _) ↦ rw none_sent tt
        | inr (_, c) ↦ pick_validator-All IsTokenless (λ v u. tt) q s (c.worth) _ _ _ (c.picked)
      ] in
      let after : supply_after ms supply ≡ left =
        rw (saved.sent) (burnt_after (saved.undelegations) (saved.token) amount supply silent le) in
      let (staked, booked) = Saves-stakes q env amount batch st s s' ms saved in
      let (minted, burnt) =
        tokenless-append (saved.undelegations)
          (wasm_execute (saved.token) (token_burn amount) [] ∷ []) silent in
      let sent = saved.sent in
      let minted' : minted_in ms ≡ 0 = rw sent minted in
      let burnt' : burnt_in ms ≡ amount = rw sent (omega arith) in
      elim (saved.outcome) [
        | inl (_, _, same_batch, same_state, _) ↦
            let same : requested_vault batch st left ≡ vault s' (supply_after ms supply) =
              ground arith in
            let bond = ap (λ (x : State). x.total_bond_amount) same_state in
            let flow : burns amount ≡ flow_of ms = ground arith in
            requests (
              subst (VaultRequest terms (seen v n) (flow_of ms)) same (
                subst
                  (λ (f : Flow). VaultRequest terms (seen v n) f (requested_vault batch st left))
                  flow asks))
        | inr (_, c) ↦
            let bond = ap (λ (x : State). x.total_bond_amount) (c.left) in
            let covered = c.covered in
            let unstaked : undelegated ms ≡ c.worth = omega arith in
            rw after (
              closes (burns amount) (unstakes (c.worth)) (requested_vault batch st left) asks
                (Closes-VaultSettlement q env batch _ st _ s _ (saved.undelegations) left priced c)
                (ground arith))
      ]

  pub execute_unbond-VaultAct :
      (q : Querier) (env : Env) (amount : ℕ) (user : String) (s s' : Store) (ms : List CosmosMsg)
      (supply : ℕ)
      → Answers q s supply
      → execute_unbond q env amount user s ≡ ok (ms, s')
      → VaultAct
          (vault s supply)
          (record { left = left_of_bond q env s; terms = terms_of s; flow = flow_of ms })
          (vault s' (supply_after ms supply))
  execute_unbond-VaultAct q env amount user s s' ms supply h e =
      let (s1, n, batch, st, s2, checked, read, r, saved) =
        execute_unbond_lem q env amount user s s' ms e in
      let frame = (slashing_frame q env s s1 checked).only in
      let same_terms : terms_of s1 ≡ terms_of s = ap terms_of frame in
      let h1 : Answers q s1 supply = rw (ap (λ (x : Store). x.config) frame) h in
      let set1 =
        sym (ap (λ (x : Store). x.config.token_contract) (r.only_lists)) ∙ saved.token_set in
      let issued =
        issued-Answers q s1 supply n (saved.token_raw) (saved.token) h1 set1 (saved.token_human)
          read in
      let r1 =
        subst (λ (k : ℕ). Requests amount k user (s.current_batch) s1 batch st s2) issued r in
      let asks =
        Requests-VaultRequest amount supply user s1 s2 (s.current_batch) batch st
          (ap (λ (x : Store). x.current_batch) frame) r1 in
      let priced = Requests-IsPriced amount supply user s1 s2 (s.current_batch) batch st r1 in
      Saves-VaultAct q env amount supply (left_of_bond q env s) (terms_of s) batch st s2 s' ms
        (vault s supply) (r1.supplied)
        (rw (← slashing-seen q env s s1 supply h checked, ← same_terms) asks) priced saved
