-- ===== src/Hub/Vault/Steps.antt =====
-- The handlers that move the vault: the check for slashing, bonding and compounding.
use prism_auto_compounding_c.Prelude.{
  ℕ, String, ◌+◌, ◌≡◌, refl, inl, inr, some, List, arith, ap, subst,
}
use prism_auto_compounding_c.Outcome.{ok, expect, token_not_registered, >>=-eq-ok, unwrap_or}
use prism_auto_compounding_c.Platform.{Platform}
use prism_auto_compounding_c.Chain.{Coin, Env, MessageInfo, Querier, CosmosMsg}
use prism_auto_compounding_c.Hub.Stakes.{flow_of, tokenless_flow}
use prism_auto_compounding_c.Hub.Store.{Store}
use prism_auto_compounding_c.Hub.Slashing.{query_total_issued, slashing}
use prism_auto_compounding_c.Hub.Slashing.Laws.{slashing_frame, update_exchange_rate_frame}
use prism_auto_compounding_c.Hub.Slashing.Losses.{slashing_cases}
use prism_auto_compounding_c.Hub.Bond.{execute_bond}
use prism_auto_compounding_c.Hub.Bond.Effect.{Bonds, execute_bond_lem}
use prism_auto_compounding_c.Hub.Compound.{execute_update_exchange_rate}
use prism_auto_compounding_c.Hub.Compound.Effect.{execute_update_exchange_rate_lem}
use prism_auto_compounding_c.Hub.Vault.{LessFee, VaultDeposit, deposit, VaultAct, reward, seen}
use prism_auto_compounding_c.Hub.Vault.World.{
  terms_of, Token, vault, supply_after, supply_after-IsTokenless, Answers,
}
use prism_auto_compounding_c.Hub.Vault.Rate.{update_exchange_rate-IsPriced, decimal_division_worth}
use prism_auto_compounding_c.Hub.Slashing.Left.{left_of_bond, slashing-left}
use prism_auto_compounding_c.Protocol.Hub.{State}

module _ ⦃p : Platform⦄ where
  open p use {addr_humanize, uint_mul_decimal_lem, decimal_from_ratio_lem}

  -- A supply that the hub has read is the true one.
  pub query_total_issued-Answers :
      (q : Querier) (s : Store) (supply n : ℕ)
      → Answers q s supply
      → query_total_issued q s ≡ ok n
      → n ≡ supply
  unfolding query_total_issued
  query_total_issued-Answers q s supply n h e =
      let (raw, set, e1) = >>=-eq-ok (expect s.config.token_contract token_not_registered) _ e in
      let (token, human, asked) = >>=-eq-ok (addr_humanize raw) _ e1 in
      let answer = h raw token (ground arith) human in cc

  pub issued-Answers :
      (q : Querier) (s : Store) (supply n : ℕ) (raw token : String)
      → Answers q s supply
      → s.config.token_contract ≡ some raw
      → addr_humanize raw ≡ ok token
      → unwrap_or (query_total_issued q s) 0 ≡ ok n
      → n ≡ supply
  unfolding query_total_issued
  issued-Answers q s supply n raw token h set human e = ground (arith, h raw token set human)

  -- The vault after the check for slashing is the vault that has seen what is left.
  pub slashing-seen :
      (q : Querier) (env : Env) (s s' : Store) (supply : ℕ)
      → Answers q s supply
      → slashing q env s ≡ ok s'
      → vault s' supply ≡ seen (vault s supply) (left_of_bond q env s)
  slashing-seen q env s s' supply h e =
      let left = slashing-left q env s s' e in
      elim (slashing_cases q env s s' e) [
        | inl same ↦
            let bond = ap (λ (t : Store). t.state.total_bond_amount) same in
            let whole : left_of_bond q env s ≡ s.state.total_bond_amount = omega arith in
            rw (same, whole) (ground arith)
        | inr fall ↦
            let issued = query_total_issued-Answers q s supply (fall.issued) h (fall.asked) in
            let priced = update_exchange_rate-IsPriced _ (s'.state) (fall.issued) _ (fall.rated) in
            let frame = update_exchange_rate_frame _ (s'.state) (fall.issued) _ (fall.rated) in
            let bond = ap (λ (t : State). t.total_bond_amount) frame in
            let less = fall.less in
            let batch = ap (λ (t : Store). t.current_batch.requested_with_fee) (fall.only) in
            rw (← left, batch, ← issued, priced) (ground arith)
      ]

module _ ⦃p : Platform⦄ ⦃t : Token⦄ where
  Bonds-VaultDeposit :
      (q : Querier) (user validator denom : String) (funds : List Coin) (s s' : Store)
      (ms : List CosmosMsg) (supply : ℕ)
      → Answers q s supply
      → Bonds q user validator denom funds s s' ms
      → VaultDeposit (terms_of s) (vault s supply) (flow_of ms) (vault s' (supply_after ms supply))
  Bonds-VaultDeposit q user validator denom funds s s' ms supply h b =
      let issued =
        issued-Answers q s supply (b.supply) (b.token_raw) (b.token) h (b.token_set) (b.token_human)
          (b.issued) in
      let batch = ap (λ (x : Store). x.current_batch.requested_with_fee) (b.only_bond.only) in
      let priced = update_exchange_rate-IsPriced _ (s'.state) (b.supply + b.minted) _ (b.rated) in
      let after : supply_after ms supply ≡ supply + b.minted =
        rw (b.sent) (t.minted_lem (b.minted) supply) in
      let (cut, worth) =
        decimal_division_worth (b.payment.amount) (s.state.exchange_rate) (b.worth) (b.priced) in
      let less : LessFee (terms_of s) (s.state.exchange_rate) (b.worth) (b.minted) = record {
        part_le = b.minted_le;
        fee_le = b.fee_bound;
        full = b.full;
      } in
      let bonded = b.bonded in
      let flow : flow_of ms
          ≡ record { staked = b.payment.amount; unstaked = 0; minted = b.minted; burnt = 0 } =
        rw (b.sent) (ground arith) in
      deposit (b.payment.amount) (b.minted) (s'.state.exchange_rate) (b.positive) cut
        (subst (λ (n : ℕ). LessFee (terms_of s) (s.state.exchange_rate) n (b.minted)) worth less)
        flow (ground arith) (rw (after, batch, ← issued) priced)

  pub execute_bond-VaultDeposit :
      (q : Querier) (env : Env) (info : MessageInfo) (validator : String) (s s' : Store)
      (ms : List CosmosMsg) (supply : ℕ)
      → Answers q s supply
      → execute_bond q env info validator s ≡ ok (ms, s')
      → VaultDeposit
          (terms_of s)
          (seen (vault s supply) (left_of_bond q env s))
          (flow_of ms)
          (vault s' (supply_after ms supply))
  execute_bond-VaultDeposit q env info validator s s' ms supply h e =
      let (_, _, s1, checked, bonds) = execute_bond_lem q env info validator s s' ms e in
      let frame = (slashing_frame q env s s1 checked).only in
      let h1 : Answers q s1 supply = rw (ap (λ (x : Store). x.config) frame) h in
      let same_terms : terms_of s1 ≡ terms_of s = ap terms_of frame in
      rw (← slashing-seen q env s s1 supply h checked, ← same_terms)
        (Bonds-VaultDeposit q _ validator _ _ s1 s' ms supply h1 bonds)

  pub execute_update_exchange_rate-VaultAct :
      (q : Querier) (env : Env) (info : MessageInfo) (s s' : Store) (ms : List CosmosMsg)
      (supply : ℕ)
      → Answers q s supply
      → execute_update_exchange_rate q env info s ≡ ok (ms, s')
      → VaultAct
          (vault s supply)
          (record { left = s.state.total_bond_amount; terms = terms_of s; flow = flow_of ms })
          (vault s' (supply_after ms supply))
  execute_update_exchange_rate-VaultAct q env info s s' ms supply h e =
      let (_, payment, _, _, _, c) = execute_update_exchange_rate_lem q env info s s' ms e in
      let issued = query_total_issued-Answers q s supply (c.issued) h (c.asked) in
      let claims = c.supply_positive in
      let staked = c.staked in
      let unstaked = c.unstaked in
      let (minted, burnt) = tokenless_flow ms (c.tokenless) in
      rw (supply_after-IsTokenless ms supply (c.tokenless), c.only_bond)
        (reward (c.rewards) refl (omega arith) (ground arith) (rw issued refl))
