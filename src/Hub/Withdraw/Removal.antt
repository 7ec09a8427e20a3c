-- ===== src/Hub/Withdraw/Removal.antt =====
-- Once its released batches are removed from a user's list, nothing of it is withdrawable
-- (`remove_unbond_wait_list`, `get_unbond_batches`, `get_finished_amount` of state.rs).
use mathlib.Core.Bool.{Bool-set}
use mathlib.Core.List.{Mem, eq-or-mem_of_mem-cons, not-mem-nil}
use mathlib.Core.List.Perm
use mathlib.Core.Logic.Or
use prism_auto_compounding_c.Prelude.{
  ℕ, String, ◌≡◌, refl, ◌≢◌, inl, inr, Bool, true, false, ◌||◌, List, [], ◌∷◌, arith, Bool-cases,
  ap, All, ◌==◌,
}
use prism_auto_compounding_c.Prelude.Assoc.{erase}
use prism_auto_compounding_c.Prelude.Members.{All-mem-All, All-perm}
use prism_auto_compounding_c.Outcome.{ok}
use prism_auto_compounding_c.Platform.{Platform}
use prism_auto_compounding_c.Hub.Store.{
  Store, read_unbond_history, is_released, released_batches, add_withdrawable, withdrawable_from,
  get_finished_amount, get_unbond_batches, erase_all,
}

abbrev member : List ℕ → ℕ → Bool
member [] k = false
member (b ∷ bs) k = b == k || member bs k

All-erase :
    (P : ℕ × ℕ → Type 0) (b : ℕ) (m : List (ℕ × ℕ)) → All (λ e. e.0 ≢ b → P e) m → All P (erase b m)
All-erase P b [] h = tt
All-erase P b ((j, w) ∷ m) h = ground (arith, h.0, All-erase P b m h.1)

-- What holds of the entries that are not listed holds after the listed ones are erased.
All-erase_all :
    (P : ℕ × ℕ → Type 0) (bs : List ℕ) (m : List (ℕ × ℕ))
    → All (λ e. member bs e.0 ≡ false → P e) m
    → All P (erase_all bs m)
unfolding erase_all
All-erase_all P [] m h = All-imp m h
  where
    All-imp : (m : List (ℕ × ℕ)) → All (λ e. false ≡ false → P e) m → All P m
    All-imp [] h = tt
    All-imp (e ∷ m) h = (h.0 refl, All-imp m h.1)
All-erase_all P (b ∷ bs) m h =
    All-erase_all P bs (erase b m)
      (All-erase (λ e. member bs e.0 ≡ false → P e) b m (All-weaken m h))
  where
    All-weaken :
        (m : List (ℕ × ℕ))
        → All (λ e. member (b ∷ bs) e.0 ≡ false → P e) m
        → All (λ e. e.0 ≢ b → member bs e.0 ≡ false → P e) m
    All-weaken [] h = tt
    All-weaken (e ∷ m) h = ((λ ne out. h.0 (ground arith)), All-weaken m h.1)

-- A released batch of the list is among those that are collected.
member-released :
    (s : Store) (l : List (ℕ × ℕ)) (e : ℕ × ℕ)
    → Mem e l
    → is_released s e.0 ≡ true
    → member (released_batches s l) e.0 ≡ true
unfolding released_batches
member-released s [] e m h = absurd (not-mem-nil m)
member-released s ((b, v) ∷ l) e m h =
    Or.elim (Bool-set _ _) (eq-or-mem_of_mem-cons m)
      (λ here. let key : e.0 ≡ b = ap (λ (x : ℕ × ℕ). x.0) here in ground arith)
      (λ there. let ih = member-released s l e there h in ground arith)

module _ ⦃p : Platform⦄ where
  open p use {ascending_batches, ascending_batches-perm, uint_checked_sub_lem}

  -- Nothing is withdrawable where no listed batch is released.
  withdrawable_from_unreleased :
      (s : Store) (l : List (ℕ × ℕ)) (total : ℕ)
      → All (λ e. is_released s e.0 ≡ false) l
      → withdrawable_from (λ h. h.released) s l total ≡ ok total
  unfolding withdrawable_from add_withdrawable read_unbond_history
  withdrawable_from_unreleased s [] total h = refl
  withdrawable_from_unreleased s ((b, v) ∷ l) total h =
      ground (arith, h.0, withdrawable_from_unreleased s l total h.1)

  -- Of the entries of a wait list only those of unreleased batches are left by the removal.
  unreleased_left :
      (s : Store) (m : List (ℕ × ℕ))
      → All
          (λ e. is_released s e.0 ≡ false)
          (erase_all (released_batches s (ascending_batches m)) m)
  unreleased_left s m =
      All-erase_all (λ e. is_released s e.0 ≡ false) (released_batches s (ascending_batches m)) m
        (All-mem-All _ m λ e at out. elim (Bool-cases (is_released s e.0)) [
          | inr unreleased ↦ unreleased
          | inl released ↦
              let listed =
                member-released s (ascending_batches m) e
                  ((Perm.mem_iff (ascending_batches-perm m)).1 at) released in
              cc
        ])

  -- Once the released batches are removed from a user's list nothing is withdrawable.
  pub removed_finished :
      (s s' : Store) (user : String)
      → s'.histories ≡ s.histories
      → s'.wait_lists user ≡ erase_all (get_unbond_batches s user) (s.wait_lists user)
      → get_finished_amount s' user ≡ ok 0
  unfolding get_finished_amount get_unbond_batches read_unbond_history
  removed_finished s s' user same left =
      withdrawable_from_unreleased s' (ascending_batches (s'.wait_lists user)) 0 (
        All-perm (λ e. is_released s' e.0) false _ _ (ascending_batches-perm _)
          (rw (same, left) (unreleased_left s (s.wait_lists user))))
