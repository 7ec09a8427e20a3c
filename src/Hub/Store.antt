-- ===== src/Hub/Store.antt =====
-- contracts/prism_hub/src/state.rs: the hub's store and the functions that read and write it.
-- The store is that of an instantiated contract, where every `Item` has been saved.
pub mod Pages
mod Tests
use prism_auto_compounding_c.Prelude.{
  ℕ, zero, suc, String, ◌/◌, ◌%◌, ◌^◌, Bool, true, false, Option, none, some, List, [], ◌∷◌, ◌++◌,
  ◌&&◌, ◌||◌, map, ltb, ◌==◌, if◌then◌else◌, str_eq, take,
}
use Prim.Native.Nat.{min}
use mathlib.Core.Option
use prism_auto_compounding_c.Prelude.Assoc.{lookup, insert, erase}
use prism_auto_compounding_c.Outcome.{Outcome, ok, err, panic, no_history, not_found, ok_or, ◌>>=◌}
use prism_auto_compounding_c.Platform.{Platform}
use prism_auto_compounding_c.Protocol.Hub.{
  State, Config, Parameters, CurrentBatch, UnbondHistory, UnbondRequest,
}

pub record Store : Type 0 where
  pub admin : Option String
  pub paused : Bool
  pub config : Config
  pub parameters : Parameters
  pub current_batch : CurrentBatch
  pub state : State
  -- the bucket "wait" of each user: batch ids and amounts
  pub wait_lists : String → List (ℕ × ℕ)
  -- the keys of the prefix "validators"
  pub validators : List String
  -- the prefix "history_map", by big-endian batch id
  pub histories : List (ℕ × UnbondHistory)

abbrev pub set_wait_list : Store → String → List (ℕ × ℕ) → Store
set_wait_list s user l = record s { wait_lists = λ u. if str_eq u user then l else s.wait_lists u }

unfoldable pub erase_all : List ℕ → List (ℕ × ℕ) → List (ℕ × ℕ)
erase_all [] m = m
erase_all (b ∷ bs) m = erase_all bs (erase b m)

-- The bucket loses the entry of every listed batch.
unfoldable pub remove_unbond_wait_list : Store → List ℕ → String → Store
remove_unbond_wait_list s batches sender =
    set_wait_list s sender (erase_all batches (s.wait_lists sender))

unfoldable pub read_unbond_wait_list : Store → ℕ → String → Outcome ℕ
read_unbond_wait_list s batch_id sender = ok_or (lookup batch_id (s.wait_lists sender)) not_found

unfoldable pub store_unbond_history : Store → ℕ → UnbondHistory → Store
store_unbond_history s batch_id history = record s {
  histories = insert batch_id history s.histories;
}

unfoldable pub read_unbond_history : Store → ℕ → Outcome UnbondHistory
read_unbond_history s epoc_id = ok_or (lookup epoc_id s.histories) no_history

abbrev pub contains : List String → String → Bool
contains [] v = false
contains (w ∷ ws) v = str_eq w v || contains ws v

-- A key that is there already is written again.
unfoldable pub store_white_validators : Store → String → Store
store_white_validators s v =
    if contains s.validators v then s else record s { validators = v ∷ s.validators }

abbrev pub without : List String → String → List String
without [] v = []
without (w ∷ ws) v = if str_eq w v then without ws v else w ∷ without ws v

unfoldable pub remove_white_validators : Store → String → Store
remove_white_validators s v = record s { validators = without s.validators v }

unfoldable pub is_valid_validator : Store → String → Bool
is_valid_validator s v = contains s.validators v

-- `u64::to_be_bytes`, the `width` low bytes of a number, the high one first.
unfoldable pub be_bytes : ℕ → ℕ → List ℕ
be_bytes zero k = []
be_bytes (suc width) k = (k / 256 ^ width % 256) ∷ be_bytes width k

-- The first key of a page: the one behind every key up to `start_after`.
unfoldable pub convert : Option ℕ → Option (List ℕ)
convert start_after = Option.map (λ idx. be_bytes 8 idx ++ 1 ∷ []) start_after

-- The order of keys in the store: byte by byte, a prefix first.
unfoldable pub bytes_le : List ℕ → List ℕ → Bool
bytes_le [] b = true
bytes_le (x ∷ a) [] = false
bytes_le (x ∷ a) (y ∷ b) = ltb x y || x == y && bytes_le a b

abbrev in_range : Option (List ℕ) → ℕ → Bool
in_range none k = true
in_range (some first) k = bytes_le first (be_bytes 8 k)

unfoldable pub range_from : Option (List ℕ) → List (ℕ × UnbondHistory) → List (ℕ × UnbondHistory)
range_from first [] = []
range_from first ((k, h) ∷ m) =
    if in_range first k then (k, h) ∷ range_from first m else range_from first m

abbrev pub max_limit : ℕ
max_limit = 100

abbrev pub default_limit : ℕ
default_limit = 10

unfoldable pub all_unbond_history : Store → Option ℕ → Option ℕ → List UnbondHistory
all_unbond_history s start limit =
    map (λ e. e.1)
      (take (min (Option.get_or limit default_limit) max_limit)
        (range_from (convert start) s.histories))

abbrev pub is_released : Store → ℕ → Bool
is_released s batch = elim (read_unbond_history s batch) [ ok h ↦ h.released | _ ↦ false ]

unfoldable pub released_batches : Store → List (ℕ × ℕ) → List ℕ
unfolding read_unbond_history
released_batches s [] = []
released_batches s ((batch, _) ∷ l) =
    if is_released s batch then batch ∷ released_batches s l else released_batches s l

module _ ⦃p : Platform⦄ where
  open p use {uint_add, uint_mul_decimal, ascending_batches, ascending_validators}

  -- An amount is added to what the user asked for already in the same batch.
  unfoldable pub store_unbond_wait_list : Store → ℕ → String → ℕ → Outcome Store
  store_unbond_wait_list s batch_id sender amount = do
    asked ← uint_add (Option.get_or (lookup batch_id (s.wait_lists sender)) 0) amount
    ok (set_wait_list s sender (insert batch_id asked (s.wait_lists sender)))

  unfoldable pub get_unbond_requests : Store → String → UnbondRequest
  get_unbond_requests s sender = ascending_batches (s.wait_lists sender)

  unfoldable pub get_unbond_batches : Store → String → List ℕ
  get_unbond_batches s sender = released_batches s (ascending_batches (s.wait_lists sender))

  -- `withdrawable_amount += v * h.withdraw_rate`, for the entries whose history passes a test.
  unfoldable pub add_withdrawable : (UnbondHistory → Bool) → Store → ℕ → ℕ → ℕ → Outcome ℕ
  unfolding read_unbond_history
  add_withdrawable counts s batch v total = elim (read_unbond_history s batch) [
    | ok h ↦
        if counts h then (do x ← uint_mul_decimal v h.withdraw_rate; uint_add total x) else ok total
    | err _ ↦ ok total
    | panic x ↦ panic x
  ]

  unfoldable pub withdrawable_from : (UnbondHistory → Bool) → Store → List (ℕ × ℕ) → ℕ → Outcome ℕ
  withdrawable_from counts s [] total = ok total
  withdrawable_from counts s ((batch, v) ∷ l) total = do
    total' ← add_withdrawable counts s batch v total
    withdrawable_from counts s l total'

  unfoldable pub get_finished_amount : Store → String → Outcome ℕ
  get_finished_amount s sender =
      withdrawable_from (λ h. h.released) s (ascending_batches (s.wait_lists sender)) 0

  unfoldable pub query_get_finished_amount : Store → String → ℕ → Outcome ℕ
  query_get_finished_amount s sender block_time =
      withdrawable_from (λ h. ltb h.time block_time) s (ascending_batches (s.wait_lists sender)) 0

  unfoldable pub read_validators : Store → List String
  read_validators s = ascending_validators s.validators
