-- ===== src/Memory/Repository/History.antt =====
-- The repositories that the methods of internal/storage/memory/inventory_repository.go can build.
use stockflow_erp_mock.Common.{
  ◌+◌, ◌≤◌, ◌≡◌, some, List, [], ◌∷◌, ok, arith, inl, inr, Result-cases,
}
use stockflow_erp_mock.Common.Int.{ℤ, pos, pos_part, max_int}
use stockflow_erp_mock.Common.Text.{Text, trim_space, trim_space_idem, text_eq_iff}
use stockflow_erp_mock.Common.Dict.{Dict, lookup, insert, lookup-insert, insert-HasUniqueKeys}
use stockflow_erp_mock.Inventory.Model.{Time, StockItem, Reservation, new_stock_item}
use stockflow_erp_mock.Inventory.Laws.{IsSound}
use stockflow_erp_mock.Memory.Repository.{
  Repository, CtxErr, reserved_of, set_stock, reserve, release, StockSeed, new_inventory_repository,
  seed_stock,
}
use stockflow_erp_mock.Memory.Repository.Invariant.{IsValid, IsFresh, IsFresh-IsValid}
use stockflow_erp_mock.Memory.Repository.Preservation.{
  reserve-IsValid, release-IsValid, set_stock-IsValid,
}

-- The quantities of a seed are Go `int`s.
abbrev pub AllFit : List StockSeed → Type 0
AllFit [] = Unit
AllFit (s ∷ seed) = (pos_part s.available_quantity ≤ max_int) × AllFit seed

insert_item-IsFresh :
    (stock : Dict StockItem) (i : StockItem)
    → IsFresh stock
    → IsSound i
    → i.reserved_quantity ≡ pos 0
    → IsFresh (insert i.sku i stock)
insert_item-IsFresh stock i f s z = record {
  unique = insert-HasUniqueKeys i.sku i stock f.unique;
  at_key =
      λ k j h. ground (arith, lookup-insert i.sku k i stock, text_eq_iff i.sku k, f.at_key k j);
}

new_stock_item-IsSound :
    (sku : Text) (q : ℤ) {i : StockItem}
    → pos_part q ≤ max_int
    → new_stock_item sku q ≡ ok i
    → IsSound i × (i.reserved_quantity ≡ pos 0)
unfolding new_stock_item
new_stock_item-IsSound sku q fits h = ground (arith, trim_space_idem sku)

seed_stock-IsFresh :
    (seed : List StockSeed) (stock : Dict StockItem) {stock' : Dict StockItem}
    → AllFit seed
    → IsFresh stock
    → seed_stock seed stock ≡ ok stock'
    → IsFresh stock'
unfolding seed_stock
seed_stock-IsFresh [] stock a f h = ground arith
seed_stock-IsFresh (s ∷ seed) stock a f h =
    elim (Result-cases (new_stock_item s.sku s.available_quantity)) [
      | inl (i, e) ↦
          let (sound, zero) = new_stock_item-IsSound s.sku s.available_quantity a.0 e in
          seed_stock-IsFresh seed (insert i.sku i stock) a.1
            (insert_item-IsFresh stock i f sound zero) (ground arith)
      | inr (x, e) ↦ absurd (ground arith)
    ]

pub new-IsValid :
    (seed : List StockSeed) {r : Repository}
    → AllFit seed
    → new_inventory_repository (some tt) seed ≡ ok r
    → IsValid r
unfolding new_inventory_repository lookup
new-IsValid seed {r} a h = elim (Result-cases (seed_stock seed [])) [
  | inl (stock, e) ↦
      let same : r ≡ record { stock = stock; reservations = [] } = ground arith in
      rw same (
        IsFresh-IsValid stock
          (seed_stock-IsFresh seed [] a (record { unique = tt; at_key = λ k i f. cc }) e))
  | inr (x, e) ↦ absurd (ground arith)
]

-- A repository that some calls have made of a seed. A call that returns an error has no step, for
-- it returns no new repository. A `SetStock` in a history leaves room for the reserved units.
pub data Reach : Repository → Type 0 where
  seeded :
      (seed : List StockSeed) {r : Repository}
      → AllFit seed
      → new_inventory_repository (some tt) seed ≡ ok r
      → Reach r
  sets :
      (ctx_err : CtxErr) (sku : Text) (q : ℤ) {r r' : Repository} {i : StockItem}
      → Reach r
      → pos_part q + pos_part (reserved_of (lookup (trim_space sku) r.stock)) ≤ max_int
      → set_stock ctx_err sku q r ≡ ok (r', i)
      → Reach r'
  reserves :
      (ctx_err : CtxErr) (now : Time) (reservation_id sku : Text) (q : ℤ) {r r' : Repository}
      {x : Reservation}
      → Reach r
      → reserve ctx_err now reservation_id sku q r ≡ ok (r', x)
      → Reach r'
  releases :
      (ctx_err : CtxErr) (now : Time) (reservation_id : Text) {r r' : Repository} {x : Reservation}
      → Reach r
      → release ctx_err now reservation_id r ≡ ok (r', x)
      → Reach r'

-- Every repository that a history reaches is valid, where the seeded quantities fit into an `int` and
-- each `SetStock` leaves room for the reserved units within an `int`.
pub Reach-IsValid : {r : Repository} → Reach r → IsValid r
Reach-IsValid (seeded seed a h) = new-IsValid seed a h
Reach-IsValid (sets ctx_err sku q {r = r} p fits h) =
    set_stock-IsValid ctx_err sku q r (Reach-IsValid p) fits h
Reach-IsValid (reserves ctx_err now reservation_id sku q {r = r} p h) =
    reserve-IsValid ctx_err now reservation_id sku q r (Reach-IsValid p) h
Reach-IsValid (releases ctx_err now reservation_id {r = r} p h) =
    release-IsValid ctx_err now reservation_id r (Reach-IsValid p) h
