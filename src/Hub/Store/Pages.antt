-- ===== src/Hub/Store/Pages.antt =====
-- The pages of the unbonding histories: the order of the encoded keys is that of the batch ids.
use native.Mathlib.Nat.{
  mul-le-mul_right, pow-suc, div-add-mod', mod-lt, mod-eq_of_lt, mod-one, mul-add-mod_self_left,
}
use prism_auto_compounding_c.Prelude.{
  ℕ, zero, suc, ◌+◌, ◌*◌, ◌/◌, ◌%◌, ◌^◌, ◌≤◌, ◌<◌, ◌≡◌, refl, ◌||◌, ◌&&◌, some, Option, List, [],
  ◌∷◌, ◌++◌, arith, ltb, ◌==◌, if◌then◌else◌, map, take, All, ap, ◌∙◌,
}
use native.Mathlib.Decide.{ℕ_discrete, dec_lt}
use Prim.Native.Nat.{min}
use mathlib.Core.Option
use prism_auto_compounding_c.Protocol.Hub.{UnbondHistory}
use prism_auto_compounding_c.Hub.Store.{
  Store, be_bytes, convert, bytes_le, range_from, all_unbond_history,
}

-- Numbers of two digits in a base compare digit by digit.
digits_lt :
    (m a b r s : ℕ) → r < m → s < m → (ltb a b || (a == b && ltb r s)) ≡ ltb (a * m + r) (b * m + s)
digits_lt m a b r s rm sm = elim (ℕ_discrete a b) [
  | yes same ↦ rw same (ground arith)
  | no other ↦ elim (dec_lt a b) [
    | yes below ↦ let step : suc a * m ≤ b * m = mul-le-mul_right m below in ground arith
    | no above ↦ let step : suc b * m ≤ a * m = mul-le-mul_right m (omega arith) in ground arith
  ]
]

positive : (w : ℕ) → 0 < 256 ^ w
positive zero = omega arith
positive (suc w) = let ih = positive w in let next = pow-suc 256 w in omega arith

low_digit : (k w : ℕ) → k % 256 ^ suc w ≡ k / 256 ^ w % 256 * 256 ^ w + k % 256 ^ w
low_digit k w =
    let base : ℕ = 256 ^ w in
    let high : ℕ = k / base in
    let digit : ℕ = high % 256 in
    let low : ℕ = k % base in
    let pos = positive w in
    let next = pow-suc 256 w in
    let split = div-add-mod' k base in
    let split_high : high * base ≡ (high / 256 * 256 + digit) * base =
      ap (λ (x : ℕ). x * base) (omega arith) in
    let low_lt = mod-lt k pos in
    let digit_le : digit * base ≤ 255 * base = mul-le-mul_right base (omega arith) in
    let grown = ap (λ (x : ℕ). x * (high / 256)) next in
    let whole : k ≡ 256 ^ suc w * (high / 256) + (digit * base + low) = omega arith in
    let fits : digit * base + low < 256 ^ suc w = omega arith in
    ap (λ (x : ℕ). x % 256 ^ suc w) whole
    ∙ mul-add-mod_self_left (256 ^ suc w) (high / 256) (digit * base + low)
    ∙ mod-eq_of_lt fits

-- The key behind the key of `j` is at or below the key of `k` exactly if `j` is below `k`.
bytes_le-be_bytes :
    (w j k : ℕ) → bytes_le (be_bytes w j ++ 1 ∷ []) (be_bytes w k) ≡ ltb (j % 256 ^ w) (k % 256 ^ w)
unfolding bytes_le be_bytes
bytes_le-be_bytes zero j k = let a = mod-one j in let b = mod-one k in ground (arith, a, b)
bytes_le-be_bytes (suc w) j k =
    rw (bytes_le-be_bytes w j k, low_digit j w, low_digit k w)
      (digits_lt (256 ^ w) (j / 256 ^ w % 256) (k / 256 ^ w % 256) (j % 256 ^ w) (k % 256 ^ w)
        (mod-lt j (positive w)) (mod-lt k (positive w)))

-- The histories behind a batch id, by number.
abbrev pub behind : ℕ → List (ℕ × UnbondHistory) → List (ℕ × UnbondHistory)
behind j [] = []
behind j ((k, h) ∷ m) = if ltb j k then (k, h) ∷ behind j m else behind j m

range_from-behind :
    (j : ℕ) (m : List (ℕ × UnbondHistory))
    → j < 256 ^ 8
    → All (λ e. e.0 < 256 ^ 8) m
    → range_from (convert (some j)) m ≡ behind j m
unfolding range_from convert
range_from-behind j [] low keys = refl
range_from-behind j ((k, h) ∷ m) low keys =
    let key = bytes_le-be_bytes 8 j k in
    let a = mod-eq_of_lt low in
    let b = mod-eq_of_lt (keys.0) in rw (key, a, b, range_from-behind j m low (keys.1))

-- A page of the histories after a batch id holds those of the larger ids, in the stored order,
-- up to the limit asked for, 10 without one and never more than 100, where all ids are below 2^64.
pub all_unbond_history_lem :
    (s : Store) (j : ℕ) (limit : Option ℕ)
    → j < 256 ^ 8
    → All (λ e. e.0 < 256 ^ 8) s.histories
    → all_unbond_history s (some j) limit
      ≡ map (λ e. e.1) (take (min (Option.get_or limit 10) 100) (behind j s.histories))
unfolding all_unbond_history
all_unbond_history_lem s j limit low keys = rw (range_from-behind j s.histories low keys)
