-- ===== src/Memory/Repository.antt =====
-- internal/storage/memory/inventory_repository.go. The maps hold pointers that no caller sees, so
-- they are dictionaries of values, and a change through a pointer is an assignment to its key.
-- Every method runs under the lock, so it is one step. `ctx.Err()` is the argument `ctx_err`.
pub mod Reserved
pub mod Calls
pub mod Preservation
pub mod History
pub mod Contract
pub mod Retention
pub mod Invariant
pub mod Listing
pub mod Overflow
use stockflow_erp_mock.Common.{
  ℕ, Option, none, some, List, [], ◌∷◌, map, is_empty, Result, ok, err, fail_if, ◌>>=◌, ◌>>◌,
}
use stockflow_erp_mock.Common.Int.{ℤ, pos}
use stockflow_erp_mock.Common.Text.{Text, text, trim_space}
use stockflow_erp_mock.Common.Dict.{Dict, lookup, insert}
use stockflow_erp_mock.Inventory.Errors.{
  Sentinel, Error, wraps, invalid_argument, reservation_already_exists, reservation_not_found,
  stock_item_not_found,
}
use stockflow_erp_mock.Inventory.Model.{Time, StockItem, Reservation, new_stock_item}
use stockflow_erp_mock.Inventory.Service

pub record StockSeed : Type 0 where
  pub sku : Text
  pub available_quantity : ℤ

abbrev pub default_stock_seed : List StockSeed
default_stock_seed =
    record { sku = text "sku-red-mug"; available_quantity = pos 120 }
    ∷ record { sku = text "sku-blue-notebook"; available_quantity = pos 80 }
    ∷ record { sku = text "sku-black-bag"; available_quantity = pos 40 }
    ∷ []

pub record Repository : Type 0 where
  pub stock : Dict StockItem
  pub reservations : Dict Reservation

abbrev pub empty : Repository
empty = record { stock = []; reservations = [] }

-- `ctx.Err()`: what it returns where the method asks.
abbrev pub CtxErr : Type 0
CtxErr = Option Sentinel

abbrev pub check_ctx : CtxErr → Result Error (Unit {0})
check_ctx none = ok tt
check_ctx (some e) = err (wraps e)

-- The lookup of a key that has to be there, or not to be there.
abbrev pub require {ℓ} : {V : Type ℓ} → Option V → Sentinel → Result Error V
require none e = err (wraps e)
require (some v) e = ok v

abbrev pub require_absent {ℓ} : {V : Type ℓ} → Option V → Sentinel → Result Error (Unit {0})
require_absent none e = ok tt
require_absent (some _) e = err (wraps e)

unfoldable pub normalized_identifier : Text → Result Error Text
normalized_identifier value = do
  let trimmed = trim_space value
  fail_if (is_empty trimmed) (wraps invalid_argument)
  ok trimmed

-- The loop of `NewInventoryRepository` over the seed.
unfoldable pub seed_stock : List StockSeed → Dict StockItem → Result Error (Dict StockItem)
seed_stock [] stock = ok stock
seed_stock (s ∷ seed) stock = do
  item ← new_stock_item s.sku s.available_quantity
  require_absent (lookup item.sku stock) invalid_argument
  seed_stock seed (insert item.sku item stock)

-- `service` is nil or not.
unfoldable pub new_inventory_repository :
    Option (Unit {0}) → List StockSeed → Result Error Repository
new_inventory_repository none seed = err (wraps invalid_argument)
new_inventory_repository (some _) seed = do
  stock ← seed_stock seed []
  ok (record { stock = stock; reservations = [] })

-- The reserved quantity that `SetStock` carries over.
abbrev pub reserved_of : Option StockItem → ℤ
reserved_of none = pos 0
reserved_of (some i) = i.reserved_quantity

-- A method that changes the repository returns the new one beside its result.
unfoldable pub set_stock : CtxErr → Text → ℤ → Repository → Result Error (Repository × StockItem)
set_stock ctx_err sku available_quantity r = do
  check_ctx ctx_err
  item ← new_stock_item sku available_quantity
  let item' = record item { reserved_quantity = reserved_of (lookup item.sku r.stock) }
  ok (record r { stock = insert item.sku item' r.stock }, item')

unfoldable pub get_stock : CtxErr → Text → Repository → Result Error StockItem
get_stock ctx_err sku r = do
  check_ctx ctx_err
  key ← normalized_identifier sku
  require (lookup key r.stock) stock_item_not_found

unfoldable pub reserve :
    CtxErr → Time → Text → Text → ℤ → Repository → Result Error (Repository × Reservation)
reserve ctx_err now reservation_id sku quantity r = do
  check_ctx ctx_err
  id ← normalized_identifier reservation_id
  key ← normalized_identifier sku
  require_absent (lookup id r.reservations) reservation_already_exists
  item ← require (lookup key r.stock) stock_item_not_found
  (item', reservation) ← Service.reserve now (some item) id quantity
  ok (
    record {
      stock = insert key item' r.stock;
      reservations = insert reservation.id reservation r.reservations;
    },
    reservation,
  )

unfoldable pub release : CtxErr → Time → Text → Repository → Result Error (Repository × Reservation)
release ctx_err now reservation_id r = do
  check_ctx ctx_err
  id ← normalized_identifier reservation_id
  reservation ← require (lookup id r.reservations) reservation_not_found
  item ← require (lookup reservation.sku r.stock) stock_item_not_found
  (item', reservation') ← Service.release now (some item) (some reservation)
  ok (
    record {
      stock = insert reservation.sku item' r.stock;
      reservations = insert id reservation' r.reservations;
    },
    reservation',
  )

unfoldable pub get_reservation : CtxErr → Text → Repository → Result Error Reservation
get_reservation ctx_err reservation_id r = do
  check_ctx ctx_err
  id ← normalized_identifier reservation_id
  require (lookup id r.reservations) reservation_not_found
