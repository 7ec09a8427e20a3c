-- ===== src/Platform/Reference.antt =====
-- One platform in which every law of the interfaces holds, for evaluating the model: exact
-- numbers with a range check, addresses that are their own canonical form, the first index as
-- every draw, and entries in the order in which they are stored.
use mathlib.Core.Bool.{false}
use mathlib.Core.List.Perm
use mathlib.Core.Option.{Option, none, some}
use prism_auto_compounding_c.Prelude.{
  ℕ, zero, suc, String, ◌+◌, ◌-◌, ◌*◌, ◌/◌, ◌<◌, ◌≡◌, refl, Bool, arith, leb, ◌==◌, if◌then◌else◌,
  str_eq,
}
use prism_auto_compounding_c.Outcome.{
  Outcome, ok, err, panic, overflow, arithmetic, divide_by_zero, empty_range,
}
use prism_auto_compounding_c.Platform.{
  Numbers, Api, Rng, AdminControl, KeyOrder, Platform, decimal_one, uint128_max,
}

abbrev in_range : ℕ → Outcome ℕ
in_range n = if leb n uint128_max then ok n else panic arithmetic

abbrev exact_numbers : Numbers
exact_numbers = record {
  uint_add = λ a b. in_range (a + b);
  uint_checked_sub = λ a b. if leb b a then ok (a - b) else err overflow;
  uint_mul_decimal = λ a d. in_range (a * d / decimal_one);
  decimal_from_ratio =
      λ n d. if d == 0 then panic divide_by_zero else in_range (n * decimal_one / d);
  decimal_add = λ a b. in_range (a + b);
  uint_add_lem = λ a b. refl;
  uint_checked_sub_lem = λ a b. refl;
  uint_mul_decimal_lem = λ a d. refl;
  decimal_from_ratio_lem = λ n d. refl;
  decimal_add_lem = λ a b. refl;
}

abbrev plain_api : Api
plain_api = record {
  addr_canonicalize = λ a. ok a;
  addr_humanize = λ a. ok a;
  addr_validate = λ a. ok a;
}

abbrev first_index : ℕ → Outcome ℕ
first_index zero = panic empty_range
first_index (suc n) = ok 0

abbrev first_index-lt : (n : ℕ) → 0 < n → (r : ℕ) × (first_index n ≡ ok r) × (r < n)
first_index-lt zero h = absurd (omega arith)
first_index-lt (suc n) h = (0, refl, omega arith)

abbrev first_rng : Rng
first_rng = record {
  gen_range = λ seed n. first_index n;
  gen_range-lt = λ seed n h. first_index-lt n h;
  gen_range-zero = λ seed. refl;
}

abbrev is_stored : Option String → String → Bool
is_stored none sender = false
is_stored (some admin) sender = str_eq admin sender

abbrev stored_admin : AdminControl
stored_admin = record {
  is_admin = is_stored;
  is_admin-none = λ sender. refl;
  is_admin-some = λ admin sender. refl;
}

abbrev stored_order : KeyOrder
stored_order = record {
  ascending_batches = λ l. l;
  ascending_validators = λ l. l;
  ascending_batches-perm = λ l. Perm.refl l;
  ascending_validators-perm = λ l. Perm.refl l;
}

instance abbrev pub reference : Platform
reference = record {
  numbers = exact_numbers;
  api = plain_api;
  rng = first_rng;
  admins = stored_admin;
  key_order = stored_order;
}
