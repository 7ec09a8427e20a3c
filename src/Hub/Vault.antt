-- ===== src/Hub/Vault.antt =====
-- An abstract vault, as which the hub and its token are seen: what is bonded, and what is owed to
-- the holders of tokens and to the open batch.
pub mod World
pub mod Quiet
pub mod Acts
pub mod Rate
pub mod Steps
pub mod Requests
pub mod Refines
pub mod Backed
mod Tests
use prism_auto_compounding_c.Prelude.{
  ℕ, suc, String, ◌+◌, ◌-◌, ◌*◌, ◌/◌, ◌≤◌, ◌<◌, ◌≡◌, refl, ltb, ◌==◌, ◌||◌, if◌then◌else◌, List, [],
  ◌∷◌, ◌++◌, append-nil, All, some, arith,
}
use prism_auto_compounding_c.Outcome.{ok}
use prism_auto_compounding_c.Platform.{Platform, decimal_one}
use prism_auto_compounding_c.Chain.{
  Env, MessageInfo, Querier, CosmosMsg, IsTokenless, delegate, undelegate, redelegate,
  withdraw_delegator_reward, set_withdraw_address, bank_send, wasm_execute, token_mint, token_burn,
  to_hub, to_rewards,
}
use prism_auto_compounding_c.Protocol.Hub.{ExecuteMsg}
use prism_auto_compounding_c.Hub.Stakes.{Flow, flow_of, still}
use prism_auto_compounding_c.Hub.Store.{Store}
use prism_auto_compounding_c.Hub.Rates.{decimal_fractional}
use prism_auto_compounding_c.Hub.Slashing.Left.{bond_before}
use prism_auto_compounding_c.Hub.Contract.{execute}

-- `rate` is what one claim is worth, with eighteen digits.
pub record Vault : Type 0 where
  pub assets : ℕ
  pub claims : ℕ
  pub rate : ℕ

-- The claims' share of the assets, or 1 where there are no assets or no claims.
abbrev pub fair : ℕ → ℕ → ℕ
fair assets claims =
    if assets == 0 || claims == 0 then decimal_one else assets * decimal_one / claims

abbrev pub IsPriced : Vault → Type 0
IsPriced v = v.rate ≡ fair v.assets v.claims

-- The vault once it has seen how much of its assets is left: a loss falls on all claims.
abbrev pub seen : Vault → ℕ → Vault
seen v left =
    if ltb left v.assets
    then record { assets = left; claims = v.claims; rate = fair left v.claims }
    else v

-- What a payment is worth at the rate cut to nine digits.
abbrev pub worth_of : ℕ → ℕ → ℕ
worth_of x rate = decimal_fractional * (x * decimal_one / (rate / decimal_fractional)) / decimal_one

-- Below the threshold a fee may be kept of what is minted and of what is requested.
pub record Terms : Type 0 where
  pub threshold : ℕ
  pub fee : ℕ

-- What is left of `whole` after at most the fee's share, and all of it at the threshold or above.
pub record LessFee (terms : Terms) (rate whole part : ℕ) : Type 0 where
  pub part_le : part ≤ whole
  pub fee_le : whole ≤ part + whole * terms.fee / decimal_one
  pub full : terms.threshold ≤ rate → part ≡ whole

-- A payment of `x` joins the assets, and claims are minted for its worth less the fee.
pub data VaultDeposit (terms : Terms) (v : Vault) (f : Flow) (w : Vault) : Type 0 where
  deposit :
      (x minted rate : ℕ)
      → 0 < x
      → 0 < v.rate / decimal_fractional
      → LessFee terms v.rate (worth_of x v.rate) minted
      → f ≡ record { staked = x; unstaked = 0; minted = minted; burnt = 0 }
      → w ≡ record { assets = v.assets + x; claims = v.claims + minted; rate = rate }
      → IsPriced w
      → VaultDeposit terms v f w

-- Tokens are burnt, and what they are less the fee stays as a claim of the open batch.
pub data VaultRequest (terms : Terms) (v : Vault) (f : Flow) (w : Vault) : Type 0 where
  request :
      (burnt counted rate : ℕ)
      → LessFee terms v.rate burnt counted
      → burnt ≤ v.claims
      → f ≡ record { staked = 0; unstaked = 0; minted = 0; burnt = burnt }
      → w ≡ record { assets = v.assets; claims = v.claims - burnt + counted; rate = rate }
      → IsPriced w
      → VaultRequest terms v f w

-- A settlement pays what the claims that it settles are worth, which is at most their share of
-- the assets.
pub data VaultSettlement (v : Vault) (f : Flow) (w : Vault) : Type 0 where
  settle :
      (settled x : ℕ)
      → settled ≤ v.claims
      → x ≤ v.assets
      → x ≡ settled * v.rate / decimal_one
      → x * v.claims ≤ settled * v.assets
      → f ≡ record { staked = 0; unstaked = x; minted = 0; burnt = 0 }
      → w ≡ record { assets = v.assets - x; claims = v.claims - settled; rate = v.rate }
      → VaultSettlement v f w

abbrev pub together : Flow → Flow → Flow
together f g = record {
  staked = f.staked + g.staked;
  unstaked = f.unstaked + g.unstaked;
  minted = f.minted + g.minted;
  burnt = f.burnt + g.burnt;
}

-- What happens at the vault's border: what is left of the assets, the terms in force, and what is
-- staked, unstaked, minted and burnt.
pub record Event : Type 0 where
  pub left : ℕ
  pub terms : Terms
  pub flow : Flow

-- What one message makes of a vault, after it has seen what is left: nothing, a deposit, a
-- request, which can be settled at once, or a reward, which raises the rate by its share for each
-- claim.
pub data VaultAct (v : Vault) (e : Event) (w : Vault) : Type 0 where
  stays : e.flow ≡ still → w ≡ seen v e.left → VaultAct v e w
  deposits : VaultDeposit e.terms (seen v e.left) e.flow w → VaultAct v e w
  requests : VaultRequest e.terms (seen v e.left) e.flow w → VaultAct v e w
  closes :
      (f g : Flow) (u : Vault)
      → VaultRequest e.terms (seen v e.left) f u
      → VaultSettlement u g w
      → e.flow ≡ together f g
      → VaultAct v e w
  reward :
      (x : ℕ)
      → e.left ≡ v.assets
      → 0 < v.claims
      → e.flow ≡ record { staked = x; unstaked = 0; minted = 0; burnt = 0 }
      → w ≡ record {
        assets = v.assets + x;
        claims = v.claims;
        rate = v.rate + x * decimal_one / v.claims;
      }
      → VaultAct v e w

-- Acts in turn, and their events, the last one first.
pub data VaultHistory (v : Vault) : List Event → Vault → Type 0 where
  begin : VaultHistory v [] v
  then_act :
      {es : List Event} {e : Event} {w u : Vault}
      → VaultHistory v es w
      → VaultAct w e u
      → VaultHistory v (e ∷ es) u
