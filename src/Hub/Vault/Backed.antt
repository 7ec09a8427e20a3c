-- ===== src/Hub/Vault/Backed.antt =====
-- The bond covers the tokens and the open requests at the rate, message by message.
use prism_auto_compounding_c.Prelude.{
  ℕ, ◌+◌, ◌-◌, ◌*◌, ◌/◌, ltb, Bool-cases, refl, ◌≤◌, ◌≡◌, ◌⊎◌, inl, inr, ap, arith,
}
use prism_auto_compounding_c.Platform.{Platform, decimal_one}
use prism_auto_compounding_c.Hub.Stakes.{Flow}
use prism_auto_compounding_c.Prelude.Division.{div_mul_le}
use prism_auto_compounding_c.Hub.Vault.{
  Vault, fair, seen, Terms, Event, VaultDeposit, deposit, VaultRequest, request, VaultSettlement,
  settle, VaultAct, stays, deposits, requests, closes, reward,
}
use prism_auto_compounding_c.Hub.Vault.World.{Token, World, vault_of, WorldStep}
use prism_auto_compounding_c.Hub.Vault.Rate.{IsPriced-covers}
use prism_auto_compounding_c.Hub.Vault.Refines.{WorldStep-VaultAct}

abbrev pub IsBacked : Vault → Type 0
IsBacked v = v.rate * v.claims ≤ v.assets * decimal_one

abbrev pub IsBackedUnlessEmpty : Vault → Type 0
IsBackedUnlessEmpty v = IsBacked v ⊎ (v.assets ≡ 0)

settle-IsBacked :
    (v : Vault) (settled x : ℕ)
    → settled ≤ v.claims
    → x ≤ v.assets
    → x ≡ settled * v.rate / decimal_one
    → IsBackedUnlessEmpty v
    → IsBackedUnlessEmpty
        (record { assets = v.assets - x; claims = v.claims - settled; rate = v.rate })
settle-IsBacked v settled x some_left covered paid (inr empty) = inr (omega arith)
settle-IsBacked v settled x some_left covered paid (inl backed) =
    let left : ℕ = v.claims - settled in
    let parts : v.claims ≡ settled + left = omega arith in
    let worth = ap (λ (c : ℕ). v.rate * c) parts in inl (omega arith)

request-IsBacked :
    (terms : Terms) (v w : Vault) (f : Flow) → VaultRequest terms v f w → IsBackedUnlessEmpty w
request-IsBacked terms v w f (request _ _ _ _ _ _ _ priced) = IsPriced-covers w priced

settlement-IsBacked :
    (v w : Vault) (f : Flow) → VaultSettlement v f w → IsBackedUnlessEmpty v → IsBackedUnlessEmpty w
settlement-IsBacked v w f (settle settled x le covered paid _ _ same) b =
    rw same (settle-IsBacked v settled x le covered paid b)

deposit-IsBacked :
    (terms : Terms) (v w : Vault) (f : Flow) → VaultDeposit terms v f w → IsBackedUnlessEmpty w
deposit-IsBacked terms v w f (deposit _ _ _ _ _ _ _ _ priced) = IsPriced-covers w priced

seen-IsBacked : (v : Vault) (left : ℕ) → IsBacked v → IsBackedUnlessEmpty (seen v left)
seen-IsBacked v left b = elim (Bool-cases (ltb left v.assets)) [
  | inl less ↦ rw less (
      IsPriced-covers (record { assets = left; claims = v.claims; rate = fair left v.claims }) refl)
  | inr whole ↦ rw whole (inl b)
]

VaultAct-IsBacked : (v w : Vault) (e : Event) → VaultAct v e w → IsBacked v → IsBackedUnlessEmpty w
VaultAct-IsBacked v w e (stays _ same) b = rw same (seen-IsBacked v (e.left) b)
VaultAct-IsBacked v w e (deposits d) b = deposit-IsBacked _ _ w _ d
VaultAct-IsBacked v w e (requests r) b = request-IsBacked _ _ w _ r
VaultAct-IsBacked v w e (closes f g u r c _) b =
    settlement-IsBacked u w g c (request-IsBacked _ _ u f r)
VaultAct-IsBacked v w e (reward x _ owed _ same) b =
    let rise = div_mul_le (x * decimal_one) (v.claims) in inl (rw same (omega arith))

module _ ⦃p : Platform⦄ ⦃t : Token⦄ where
  -- If the bond covers the tokens and the open requests at the rate, it still does after any
  -- message that succeeds, or nothing is bonded any more. The query for the supply is answered
  -- truly and the token contract mints and burns what it is told.
  pub WorldStep-IsBacked :
      (w w' : World) (e : Event)
      → WorldStep w e w'
      → IsBacked (vault_of w)
      → IsBackedUnlessEmpty (vault_of w')
  WorldStep-IsBacked w w' e step b =
      VaultAct-IsBacked (vault_of w) (vault_of w') e (WorldStep-VaultAct w w' e step) b
