-- ===== src/Tests/Concurrent.antt =====
-- Two callers of the idempotency store with one key, and the two lists of the repository.
use stockflow_erp_mock.Common.{
  ℕ, ◌≡◌, ◌≢◌, ◌⊎◌, refl, arith, Bool, true, false, some, none, [], ◌∷◌, Result, ok, err, ◌+◌,
}
use stockflow_erp_mock.Common.Text.{
  Text, text, text_eq, text_eq_iff, trim_space, trim_left, trim_right, is_space,
}
use stockflow_erp_mock.Common.Dict.{lookup, insert, erase}
use stockflow_erp_mock.Inventory.Errors.{Error}
use stockflow_erp_mock.Inventory.Model.{StockItem, new_stock_item}
use stockflow_erp_mock.Common.Int.{pos}
use stockflow_erp_mock.Memory.Repository.{
  Repository, StockSeed, new_inventory_repository, seed_stock,
}
use stockflow_erp_mock.Memory.Repository.Invariant.{IsValid}
use stockflow_erp_mock.Memory.Repository.History.{Reach-IsValid, seeded}
use stockflow_erp_mock.Memory.Repository.Listing.{list_stock, list_reservations, lists_unordered}
use stockflow_erp_mock.Memory.Idempotency.{Action}
use stockflow_erp_mock.Memory.Idempotency.Concurrent.{
  Store, Pc, idle, running, waiting, returned, update, answer, enter, leave, Move, enters, leaves,
  wakes, new_store, Reach, start, later,
}
use stockflow_erp_mock.Memory.Idempotency.Concurrent.Safety.{
  single_flight, one_result, waiting_is_answered,
}
use stockflow_erp_mock.Memory.Idempotency.Concurrent.Alone.{call_alone, first_call_decides}
use stockflow_erp_mock.Tests.Repository.{mug}

abbrev key : Text
key = text "k"

-- Caller 0 runs its operation.
abbrev busy : Store ℕ
busy = record { entries = []; in_flight = (key, 0) ∷ []; closed = λ _. none }

abbrev one_runs : ℕ → Pc ℕ
one_runs = update (λ _. idle) 0 (running key)

first_runs : Reach busy one_runs
unfolding enter lookup insert trim_space trim_left trim_right is_space text_eq
first_runs = later 0 start (enters (text " k") none refl)

-- Caller 1 waits for it.
abbrev one_waits : ℕ → Pc ℕ
one_waits = update one_runs 1 (waiting key 0)

second_waits : Reach busy one_waits
unfolding enter lookup insert trim_space trim_left trim_right is_space text_eq
second_waits = later 1 first_runs (enters (text "k ") none refl)

abbrev done : Store ℕ
done = record {
  entries = (key, 7) ∷ [];
  in_flight = [];
  closed = update (λ _. none) 0 (some (ok 7));
}

abbrev one_left : ℕ → Pc ℕ
one_left = update one_waits 0 (returned key (ok (7, false)))

first_leaves : Reach done one_left
unfolding leave lookup insert erase text_eq
first_leaves = later 0 second_waits (leaves key (ok 7) refl)

both_left : Reach done (update one_left 1 (returned key (ok (7, true))))
both_left = later 1 first_leaves (wakes key 0 (ok 7) refl)

single_flight_example :
    ((j : ℕ) → one_waits j ≡ running key → 0 ≡ j)
    × ((j : ℕ) (t : ℕ) (hit : Bool) → one_waits j ≢ returned key (ok (t, hit)))
single_flight_example = single_flight 0 key second_waits refl

abbrev seven_units : ℕ
seven_units = 7

one_result_example : (seven_units ≡ seven_units) × (false ≡ false → true ≡ false → ◌≡◌ {A = ℕ} 0 1)
one_result_example = one_result 0 1 key seven_units seven_units false true both_left refl refl

waiting_is_answered_example :
    (one_waits 0 ≡ running key)
    ⊎ ((result : Result Error ℕ) × (busy.closed 0 ≡ some result)
        × Move busy 1 (waiting key 0) busy (returned key (answer true result)))
waiting_is_answered_example = waiting_is_answered 1 0 key second_waits refl

abbrev seven : Action ℕ ℕ
seven n = (ok 7, n)

abbrev eight : Action ℕ ℕ
eight n = (ok 8, n + 1)

first_call_decides_example :
    (s' : Store ℕ) × (((t : ℕ) × (y : ℕ) × (seven 0 ≡ (ok t, y))
        × (call_alone 0 (text " k") seven new_store 0
            ≡ (s', returned (trim_space (text " k")) (ok (t, false)), y))
        × (call_alone 1 (text "k ") eight s' 5
            ≡ (s', returned (trim_space (text " k")) (ok (t, true)), 5)))
      ⊎ ((e : Error) × (y : ℕ) × (seven 0 ≡ (err e, y))
          × (call_alone 0 (text " k") seven new_store 0
              ≡ (s', returned (trim_space (text " k")) (err e), y))
          × (s'.entries ≡ [])
          × (lookup (trim_space (text " k")) s'.in_flight ≡ none)
          × ((call_alone 1 (text "k ") eight s' 5).2 ≡ (eight 5).1)))
unfolding lookup trim_space trim_left trim_right is_space
first_call_decides_example =
    first_call_decides 0 1 (text " k") (text "k ") seven eight new_store 0 5 refl refl refl refl

abbrev cap : StockItem
cap = record { sku = text "cap"; available_quantity = pos 3; reserved_quantity = pos 0 }

abbrev mug_seed : StockSeed
mug_seed = record { sku = text "mug"; available_quantity = pos 5 }

abbrev cap_seed : StockSeed
cap_seed = record { sku = text "cap"; available_quantity = pos 3 }

abbrev mug_first : Repository
mug_first = record { stock = (text "mug", mug) ∷ (text "cap", cap) ∷ []; reservations = [] }

abbrev cap_first : Repository
cap_first = record { stock = (text "cap", cap) ∷ (text "mug", mug) ∷ []; reservations = [] }

mug_first-IsValid : IsValid mug_first
unfolding new_inventory_repository seed_stock new_stock_item lookup insert trim_space trim_left
    trim_right is_space text_eq
mug_first-IsValid = Reach-IsValid (seeded (mug_seed ∷ cap_seed ∷ []) (omega arith) refl)

cap_first-IsValid : IsValid cap_first
unfolding new_inventory_repository seed_stock new_stock_item lookup insert trim_space trim_left
    trim_right is_space text_eq
cap_first-IsValid = Reach-IsValid (seeded (cap_seed ∷ mug_seed ∷ []) (omega arith) refl)

same_stock : (k : Text) → lookup k mug_first.stock ≡ lookup k cap_first.stock
unfolding lookup
same_stock k = ground (arith, text_eq_iff (text "mug") k, text_eq_iff (text "cap") k)

lists_unordered_example :
    (list_stock none mug_first ≡ list_stock none cap_first)
    × (list_reservations none mug_first ≡ list_reservations none cap_first)
lists_unordered_example =
    lists_unordered none mug_first cap_first mug_first-IsValid cap_first-IsValid same_stock
      (λ k. refl)
