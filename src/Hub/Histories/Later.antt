-- ===== src/Hub/Histories/Later.antt =====
-- A recorded history through a hub's later life.
use prism_auto_compounding_c.Prelude.{ℕ, ◌≡◌, ◌⊎◌, refl, inl, inr, some, List, ap, ◌∙◌}
use prism_auto_compounding_c.Prelude.Assoc.{lookup}
use prism_auto_compounding_c.Outcome.{Outcome, ok}
use prism_auto_compounding_c.Platform.{Platform}
use prism_auto_compounding_c.Chain.{Env, MessageInfo, Querier, CosmosMsg}
use prism_auto_compounding_c.Protocol.Hub.{UnbondHistory, MigrateMsg, ExecuteMsg}
use prism_auto_compounding_c.Hub.Store.{Store}
use prism_auto_compounding_c.Hub.Admin.{LegacyConfig, migrate}
use prism_auto_compounding_c.Hub.Contract.{execute}
use prism_auto_compounding_c.Hub.Invariant.Frames.{migrate-Untouched}
use prism_auto_compounding_c.Hub.Invariant.Reach.{Reach, step, migration, Reach-IsValid}
use prism_auto_compounding_c.Hub.Histories.{ReleasedAs, execute-Follows}

module _ ⦃p : Platform⦄ where
  -- The stores that a hub in the store `s` can come to.
  pub data Later (s : Store) : Store → Type 0 where
    now : Later s s
    sent :
        {t : Store} (q : Querier) (env : Env) (info : MessageInfo) (msg : ExecuteMsg) (u : Store)
        (ms : List CosmosMsg)
        → Later s t
        → execute q env info t msg ≡ ok (ms, u)
        → Later s u
    moved :
        {t : Store} (legacy : Outcome LegacyConfig) (msg : MigrateMsg) (u : Store)
        (ms : List CosmosMsg)
        → Later s t
        → migrate legacy msg t ≡ ok (ms, u)
        → Later s u

  pub Later-Reach : {s t : Store} → Reach s → Later s t → Reach t
  Later-Reach r now = r
  Later-Reach r (sent {t} q env info msg u ms l e) = step q env info msg t u ms (Later-Reach r l) e
  Later-Reach r (moved {t} legacy msg u ms l e) = migration legacy msg t u ms (Later-Reach r l) e

  -- A release ends a history: what follows it is the history itself.
  then_released :
      (h g g' : UnbondHistory)
      → (g ≡ h) ⊎ ReleasedAs h g
      → (g' ≡ g) ⊎ ReleasedAs g g'
      → (g' ≡ h) ⊎ ReleasedAs h g'
  then_released h g g' (inl same) next = rw same at next
  then_released h g g' (inr (pending, released)) (inl same) = inr (pending, rw same released)
  then_released h g g' (inr (pending, released)) (inr (still, _)) =
      let done = ap (λ (x : UnbondHistory). x.released) released in absurd (cc)

  -- Through all later messages and migrations of a hub that can be reached, a recorded history is
  -- never lost: it stays as it is, or is released once, which sets its rate and leaves its
  -- amount, time and applied rate. A released one stays as it is for good.
  pub Later-history :
      (s t : Store) (k : ℕ) (h : UnbondHistory)
      → Reach s
      → Later s t
      → lookup k s.histories ≡ some h
      → (h' : UnbondHistory) × (lookup k t.histories ≡ some h') × ((h' ≡ h) ⊎ ReleasedAs h h')
  Later-history s _ k h r now found = (h, found, inl refl)
  Later-history s _ k h r (sent {t} q env info msg u ms l e) found =
      let (g, there, before) = Later-history s t k h r l found in
      let (g', here, how) =
        execute-Follows q env info msg t u ms k g e (Reach-IsValid t (Later-Reach r l)) there in
      (
        g',
        here,
        then_released h g g' before
            (elim how [ inl same ↦ inl same | inr (_, _, released) ↦ inr released ]),
      )
  Later-history s _ k h r (moved {t} legacy msg u ms l e) found =
      let (g, there, before) = Later-history s t k h r l found in
      let same = (migrate-Untouched legacy msg t u ms e).histories in
      (g, ap (λ (m : List (ℕ × UnbondHistory)). lookup k m) same ∙ there, before)
