-- ===== src/Memory/Repository/Invariant.antt =====
-- What holds of the repository of internal/storage/memory between two calls.
use stockflow_erp_mock.Common.{◌≡◌, ◌≢◌, ap, none, some, [], arith, inl, inr, Option-cases}
use stockflow_erp_mock.Common.Int.{pos, pos_part}
use stockflow_erp_mock.Common.Text.{Text, text_eq_iff}
use stockflow_erp_mock.Common.Dict.{
  Dict, lookup, insert, lookup-insert, HasUniqueKeys, insert-HasUniqueKeys,
}
use stockflow_erp_mock.Inventory.Model.{StockItem, Reservation}
use stockflow_erp_mock.Inventory.Laws.{IsSound, IsRecorded}
use stockflow_erp_mock.Memory.Repository.{Repository, reserved_of}
use stockflow_erp_mock.Memory.Repository.Reserved.{reserved_for}

-- Every item stands under its name and is sound, every reservation stands under its id and is for
-- an item of the stock, and an item's reserved quantity is what its active reservations hold.
pub record IsValid (r : Repository) : Type 0 where
  pub stock_keys : HasUniqueKeys r.stock
  pub reservation_keys : HasUniqueKeys r.reservations
  pub stock_keyed : (k : Text) (i : StockItem) → lookup k r.stock ≡ some i → i.sku ≡ k
  pub stock_sound : (k : Text) (i : StockItem) → lookup k r.stock ≡ some i → IsSound i
  pub keyed : (k : Text) (x : Reservation) → lookup k r.reservations ≡ some x → x.id ≡ k
  pub recorded : (k : Text) (x : Reservation) → lookup k r.reservations ≡ some x → IsRecorded x
  pub stocked :
      (k : Text) (x : Reservation) → lookup k r.reservations ≡ some x → lookup x.sku r.stock ≢ none
  pub accounted :
      (k : Text) → pos_part (reserved_of (lookup k r.stock)) ≡ reserved_for k r.reservations

-- One item and one reservation for it are assigned.
module _ (r : Repository) (k id : Text) (j : StockItem) (x : Reservation) (v : IsValid r)
    (sound : IsSound j) (item_key : j.sku ≡ k) (entry : IsRecorded x) (key : x.id ≡ id)
    (for_item : x.sku ≡ k) where
  abbrev put : Repository
  put = record { stock = insert k j r.stock; reservations = insert id x r.reservations }

  put-stock_keyed : (m : Text) (i : StockItem) → lookup m put.stock ≡ some i → i.sku ≡ m
  put-stock_keyed m i h =
      ground (arith, lookup-insert k m j r.stock, text_eq_iff k m, v.stock_keyed m i)

  put-stock-IsSound : (m : Text) (i : StockItem) → lookup m put.stock ≡ some i → IsSound i
  put-stock-IsSound m i h =
      ground (arith, lookup-insert k m j r.stock, text_eq_iff k m, v.stock_sound m i)

  put-keyed : (m : Text) (y : Reservation) → lookup m put.reservations ≡ some y → y.id ≡ m
  put-keyed m y h =
      ground (arith, lookup-insert id m x r.reservations, text_eq_iff id m, v.keyed m y)

  put-IsRecorded : (m : Text) (y : Reservation) → lookup m put.reservations ≡ some y → IsRecorded y
  put-IsRecorded m y h =
      ground (arith, lookup-insert id m x r.reservations, text_eq_iff id m, v.recorded m y)

  put-stocked :
      (m : Text) (y : Reservation)
      → lookup m put.reservations ≡ some y
      → lookup y.sku put.stock ≢ none
  put-stocked m y h = ground (
    arith,
    lookup-insert id m x r.reservations,
    lookup-insert k y.sku j r.stock,
    text_eq_iff id m,
    text_eq_iff k y.sku,
    v.stocked m y,
  )

  put-accounted :
      pos_part j.reserved_quantity ≡ reserved_for k put.reservations
      → ((m : Text) → k ≢ m → reserved_for m put.reservations ≡ reserved_for m r.reservations)
      → (m : Text) → pos_part (reserved_of (lookup m put.stock)) ≡ reserved_for m put.reservations
  put-accounted here others m =
      ground (arith, lookup-insert k m j r.stock, text_eq_iff k m, v.accounted m, others m)

  pub put-IsValid :
      pos_part j.reserved_quantity ≡ reserved_for k put.reservations
      → ((m : Text) → k ≢ m → reserved_for m put.reservations ≡ reserved_for m r.reservations)
      → IsValid put
  put-IsValid here others = record {
    stock_keys = insert-HasUniqueKeys k j r.stock v.stock_keys;
    reservation_keys = insert-HasUniqueKeys id x r.reservations v.reservation_keys;
    stock_keyed = put-stock_keyed;
    stock_sound = put-stock-IsSound;
    keyed = put-keyed;
    recorded = put-IsRecorded;
    stocked = put-stocked;
    accounted = put-accounted here others;
  }

-- One item is assigned, with the reserved quantity that was there.
module _ (r : Repository) (k : Text) (j : StockItem) (v : IsValid r) (sound : IsSound j)
    (item_key : j.sku ≡ k) (carried : j.reserved_quantity ≡ reserved_of (lookup k r.stock)) where
  pub put_item-IsValid : IsValid (record r { stock = insert k j r.stock })
  put_item-IsValid = record {
    stock_keys = insert-HasUniqueKeys k j r.stock v.stock_keys;
    reservation_keys = v.reservation_keys;
    stock_keyed =
        λ m i h. ground (arith, lookup-insert k m j r.stock, text_eq_iff k m, v.stock_keyed m i);
    stock_sound =
        λ m i h. ground (arith, lookup-insert k m j r.stock, text_eq_iff k m, v.stock_sound m i);
    keyed = v.keyed;
    recorded = v.recorded;
    stocked = λ m y h.
        ground (arith, lookup-insert k y.sku j r.stock, text_eq_iff k y.sku, v.stocked m y);
    accounted = λ m. ground (arith, lookup-insert k m j r.stock, text_eq_iff k m, v.accounted m);
  }

-- A repository with items that hold no units, and with no reservation.
pub record IsFresh (stock : Dict StockItem) : Type 0 where
  pub unique : HasUniqueKeys stock
  pub at_key :
      (k : Text) (i : StockItem)
      → lookup k stock ≡ some i
      → (i.sku ≡ k) × IsSound i × (i.reserved_quantity ≡ pos 0)

pub IsFresh-IsValid :
    (stock : Dict StockItem) → IsFresh stock → IsValid (record { stock = stock; reservations = [] })
unfolding reserved_for lookup
IsFresh-IsValid stock f = record {
  stock_keys = f.unique;
  reservation_keys = tt;
  stock_keyed = λ k i h. (f.at_key k i h).0;
  stock_sound = λ k i h. (f.at_key k i h).1;
  keyed = λ k x h. cc;
  recorded = λ k x h. cc;
  stocked = λ k x h. cc;
  accounted = λ k. elim (Option-cases (lookup k stock)) [
    | inl e ↦ rw e
    | inr (i, e) ↦ rw e (ap pos_part (f.at_key k i e).2)
  ];
}
