-- ===== src/Hub/Unbond/Asked.antt =====
-- What a user has asked for in a batch, and how a request adds to it (state.rs,
-- `store_unbond_wait_list`).
use mathlib.Core.Option
use prism_auto_compounding_c.Prelude.{
  ℕ, String, ◌+◌, ◌≡◌, ◌≢◌, refl, some, arith, str_eq_refl, str_eq_ne,
}
use prism_auto_compounding_c.Prelude.Assoc.{lookup, insert, lookup-insert_self, lookup-insert_ne}
use prism_auto_compounding_c.Outcome.{ok}
use prism_auto_compounding_c.Platform.{Platform}
use prism_auto_compounding_c.Hub.Store.{Store, set_wait_list, store_unbond_wait_list}

abbrev pub asked : Store → String → ℕ → ℕ
asked s user batch = Option.get_or (lookup batch (s.wait_lists user)) 0

module _ ⦃p : Platform⦄ where
  open p use {uint_add, uint_add_lem, uint_checked_sub_lem, uint_mul_decimal_lem, addr_humanize}

  -- A request adds its amount to what the user asked for in the batch; no other batch or user
  -- changes, nor anything else in the store.
  pub store_unbond_wait_list_lem :
      (s s' : Store) (batch amount : ℕ) (user : String)
      → store_unbond_wait_list s batch user amount ≡ ok s'
      → (lookup batch (s'.wait_lists user) ≡ some (asked s user batch + amount))
        × ((b : ℕ) → b ≢ batch → lookup b (s'.wait_lists user) ≡ lookup b (s.wait_lists user))
        × ((u : String) → u ≢ user → s'.wait_lists u ≡ s.wait_lists u)
        × (s' ≡ record s { wait_lists = s'.wait_lists })
        × (s'.wait_lists user ≡ insert batch (asked s user batch + amount) (s.wait_lists user))
  unfolding store_unbond_wait_list
  store_unbond_wait_list_lem s s' batch amount user e =
      let l = s.wait_lists user in
      let sum : ℕ = asked s user batch + amount in
      let same : s' ≡ set_wait_list s user (insert batch sum l) =
        ground (arith, uint_add_lem (asked s user batch) amount) in
      rw same (
        rw (str_eq_refl user) (lookup-insert_self batch sum l),
        λ b ne. rw (str_eq_refl user) (lookup-insert_ne b batch sum l ne),
        λ u ne. rw (str_eq_ne u user ne),
        refl,
        rw (str_eq_refl user) refl,
      )
