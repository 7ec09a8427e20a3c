-- ===== src/Prelude/Members.antt =====
-- Between the library's `Mem`, which a permutation keeps, and predicates by recursion.
use mathlib.Core.Bool.{Bool, Bool-set}
use mathlib.Core.List.{
  List, [], ◌∷◌, Mem, Perm, Permᴰ, mem-cons_self, mem-cons_of_mem, eq-or-mem_of_mem-cons,
  not-mem-nil,
}
use mathlib.Core.List.Perm
use mathlib.Core.Logic.Or
use mathlib.Core.Path.{◌≡◌, refl, sym, ap, subst, ◌∙◌}
use Prim.Native.Nat.{ℕ}
use mathlib.Core.Logic.{∥∥₁_elim}
use native.Mathlib.Nat.{ℕ_set}
use native.Mathlib.Omega.{arith}
use prism_auto_compounding_c.Prelude.Lists.{All, sum_by}

module _ {ℓ} {A : Type ℓ} where
  pub All-mem-All {κ} : (P : A → Type κ) (l : List A) → ((a : A) → Mem a l → P a) → All P l
  All-mem-All P [] h = tt
  All-mem-All P (x ∷ l) h = (h x mem-cons_self, All-mem-All P l (λ a m. h a (mem-cons_of_mem x m)))

  -- A Boolean test that holds on a list holds on its members.
  pub All-mem :
      (f : A → Bool) (b : Bool) (l : List A) (a : A) → All (λ x. f x ≡ b) l → Mem a l → f a ≡ b
  All-mem f b [] a h m = absurd (not-mem-nil m)
  All-mem f b (x ∷ l) a h m =
      Or.elim (Bool-set (f a) b) (eq-or-mem_of_mem-cons m) (λ e. subst (λ y. f y ≡ b) (sym e) h.0)
        (All-mem f b l a h.1)

  pub All-perm :
      (f : A → Bool) (b : Bool) (l l' : List A)
      → Perm l l'
      → All (λ x. f x ≡ b) l'
      → All (λ x. f x ≡ b) l
  All-perm f b l l' p h =
      All-mem-All (λ x. f x ≡ b) l (λ a m. All-mem f b l' a h ((Perm.mem_iff p).0 m))

  Permᴰ-sum : (f : A → ℕ) {l l' : List A} → Permᴰ l l' → sum_by f l ≡ sum_by f l'
  Permᴰ-sum f Permᴰ.nil = refl
  Permᴰ-sum f (Permᴰ.cons e p) = let ih = Permᴰ-sum f p in let here = ap f e in omega arith
  Permᴰ-sum f (Permᴰ.swap e e') = let here = ap f e in let there = ap f e' in omega arith
  Permᴰ-sum f (Permᴰ.trans p q) = Permᴰ-sum f p ∙ Permᴰ-sum f q

  -- A sum does not depend on the order.
  pub sum_by-perm : (f : A → ℕ) {l l' : List A} → Perm l l' → sum_by f l ≡ sum_by f l'
  sum_by-perm f p = ∥∥₁_elim p (ℕ_set _ _) (Permᴰ-sum f)
