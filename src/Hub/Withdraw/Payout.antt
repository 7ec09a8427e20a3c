-- ===== src/Hub/Withdraw/Payout.antt =====
-- `execute_withdraw_unbonded`: the user gets what the released batches owe, once.
use prism_auto_compounding_c.Prelude.{
  ℕ, String, ◌-◌, ◌<◌, ◌≤◌, ◌≡◌, refl, ◌≢◌, inl, inr, List, [], ◌∷◌, arith, str_eq_refl, str_eq_ne,
}
use prism_auto_compounding_c.Outcome.{ok, Outcome-cases}
use prism_auto_compounding_c.Platform.{Platform}
use prism_auto_compounding_c.Chain.{Env, MessageInfo, Querier, CosmosMsg, bank_send}
use prism_auto_compounding_c.Hub.Store.{
  Store, get_finished_amount, get_unbond_batches, erase_all, remove_unbond_wait_list,
}
use prism_auto_compounding_c.Hub.Withdraw.{process_withdraw_rate, execute_withdraw_unbonded}
use prism_auto_compounding_c.Hub.Withdraw.Removal.{removed_finished}

-- What a withdrawal does, on the store `s1` that the release leaves.
pub record PaysOut ⦃p : Platform⦄ (env : Env) (user denom : String) (balance : ℕ) (s1 s' : Store)
    (ms : List CosmosMsg) : Type 0 where
  pub amount : ℕ
  pub finished : get_finished_amount s1 user ≡ ok amount
  pub positive : 0 < amount
  pub covered : amount ≤ balance
  pub sent : ms ≡ bank_send user (record { denom = denom; amount = amount } ∷ []) ∷ []
  pub nothing_left : get_finished_amount s' user ≡ ok 0
  pub removed : s'.wait_lists user ≡ erase_all (get_unbond_batches s1 user) (s1.wait_lists user)
  pub kept : s' ≡ record s1 {
    wait_lists = s'.wait_lists;
    state = record (s1.state) { prev_hub_balance = balance - amount };
  }
  pub others : (u : String) → u ≢ user → s'.wait_lists u ≡ s1.wait_lists u

module _ ⦃p : Platform⦄ where
  open p use {uint_checked_sub_lem}

  others_keep :
      (s : Store) (bs : List ℕ) (user u : String)
      → u ≢ user
      → (remove_unbond_wait_list s bs user).wait_lists u ≡ s.wait_lists u
  unfolding remove_unbond_wait_list
  others_keep s bs user u ne = rw (str_eq_ne u user ne)

  removed_list :
      (s : Store) (bs : List ℕ) (user : String)
      → (remove_unbond_wait_list s bs user).wait_lists user ≡ erase_all bs (s.wait_lists user)
  unfolding remove_unbond_wait_list
  removed_list s bs user = rw (str_eq_refl user)

  -- The store behind the payment.
  abbrev pub paid : Store → String → ℕ → Store
  paid s1 user left =
      let s2 = remove_unbond_wait_list s1 (get_unbond_batches s1 user) user in
      record s2 { state = record (s2.state) { prev_hub_balance = left } }

  removed_histories :
      (s : Store) (bs : List ℕ) (user : String)
      → (remove_unbond_wait_list s bs user).histories ≡ s.histories
  unfolding remove_unbond_wait_list
  removed_histories s bs user = refl

  removed_frame :
      (s : Store) (bs : List ℕ) (user : String) (left : ℕ)
      → let s2 = remove_unbond_wait_list s bs user in
        record s2 { state = record (s2.state) { prev_hub_balance = left } } ≡ record s {
          wait_lists = s2.wait_lists;
          state = record (s.state) { prev_hub_balance = left };
        }
  unfolding remove_unbond_wait_list
  removed_frame s bs user left = refl

  paid-PaysOut :
      (env : Env) (user denom : String) (balance amount : ℕ) (s1 : Store)
      → get_finished_amount s1 user ≡ ok amount
      → 0 < amount
      → amount ≤ balance
      → PaysOut env user denom balance s1
          (paid s1 user (balance - amount))
          (bank_send user (record { denom = denom; amount = amount } ∷ []) ∷ [])
  paid-PaysOut env user denom balance amount s1 finished positive covered =
      let bs = get_unbond_batches s1 user in
      record {
        amount = amount;
        finished = finished;
        positive = positive;
        covered = covered;
        sent = refl;
        nothing_left =
            removed_finished s1 (paid s1 user (balance - amount)) user
              (removed_histories s1 bs user) (removed_list s1 bs user);
        removed = removed_list s1 bs user;
        kept = removed_frame s1 bs user (balance - amount);
        others = λ u ne. others_keep s1 bs user u ne;
      }

  the_parts :
      (q : Querier) (env : Env) (info : MessageInfo) (s s' : Store) (ms : List CosmosMsg)
      (balance : ℕ) (s1 : Store) (amount : ℕ)
      → q.balance env.contract s.parameters.underlying_coin_denom ≡ ok balance
      → process_withdraw_rate (env.time - s.parameters.unbonding_period) balance s ≡ ok s1
      → get_finished_amount s1 info.sender ≡ ok amount
      → execute_withdraw_unbonded q env info s ≡ ok (ms, s')
      → (0 < amount)
        × (amount ≤ balance)
        × (ms
            ≡ bank_send info.sender
                (record { denom = s.parameters.underlying_coin_denom; amount = amount } ∷ [])
              ∷ [])
        × (s' ≡ paid s1 info.sender (balance - amount))
  unfolding execute_withdraw_unbonded
  the_parts q env info s s' ms balance s1 amount asked processed finished e =
      ground (arith, uint_checked_sub_lem balance amount)

  -- A withdrawal that returns has sent the user, in one message, the positive amount that the
  -- released batches owe, which the balance covers; it remembers the balance that is left. The
  -- user can withdraw nothing more for these batches, and no other user's list has changed.
  pub withdraw_once :
      (q : Querier) (env : Env) (info : MessageInfo) (s s' : Store) (ms : List CosmosMsg)
      → execute_withdraw_unbonded q env info s ≡ ok (ms, s')
      → (balance : ℕ) × (s1 : Store) × (q.balance env.contract s.parameters.underlying_coin_denom
          ≡ ok balance)
        × (process_withdraw_rate (env.time - s.parameters.unbonding_period) balance s ≡ ok s1)
        × PaysOut env info.sender s.parameters.underlying_coin_denom balance s1 s' ms
  unfolding execute_withdraw_unbonded
  withdraw_once q env info s s' ms e =
      let denom = s.parameters.underlying_coin_denom in
      let user = info.sender in
      elim (Outcome-cases (q.balance env.contract denom)) [
        | inl (balance, asked) ↦
            elim (Outcome-cases
              (process_withdraw_rate (env.time - s.parameters.unbonding_period) balance s)) [
                | inl (s1, processed) ↦ elim (Outcome-cases (get_finished_amount s1 user)) [
                  | inl (amount, finished) ↦
                      let (positive, covered, sent, left) =
                        the_parts q env info s s' ms balance s1 amount asked processed finished e in
                      (
                        balance,
                        s1,
                        asked,
                        processed,
                        rw (sent, left)
                            (paid-PaysOut env user denom balance amount s1 finished positive
                              covered),
                      )
                  | inr other ↦ absurd (ground arith)
                ]
                | inr other ↦ absurd (ground arith)
              ]
        | inr other ↦ absurd (ground arith)
      ]
