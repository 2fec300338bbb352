-- ===== src/Inventory/Laws.antt =====
-- What the methods of internal/domain/inventory/service.go do to a sound item.
use stockflow_erp_mock.Common.{
  ℕ, ◌+◌, ◌≤◌, ◌<◌, ◌≡◌, true, false, Option, none, some, is_empty, ok, err, arith,
}
use stockflow_erp_mock.Common.Int.{
  ℤ, pos, pos_part, neg_part, max_int, add_int, sub_int, add_int-pos, sub_int-pos,
}
use stockflow_erp_mock.Common.Text.{Text, trim_space, trim_space_idem, text_eq_iff}
use stockflow_erp_mock.Inventory.Errors.{reservation_not_active, wraps}
use stockflow_erp_mock.Inventory.Model.{
  new_stock_item, Time, ReservationStatus, active, released, StockItem, Reservation,
  validate_stock_item, validate_reservation,
}
use stockflow_erp_mock.Inventory.Service
use stockflow_erp_mock.Inventory.Service.{is_active}

-- The item has a name, its quantities are not negative, and their sum is an `int`.
pub record IsSound (i : StockItem) : Type 0 where
  pub trimmed : trim_space i.sku ≡ i.sku
  pub named : is_empty i.sku ≡ false
  pub available_count : neg_part i.available_quantity ≡ 0
  pub reserved_count : neg_part i.reserved_quantity ≡ 0
  pub fits : pos_part i.available_quantity + pos_part i.reserved_quantity ≤ max_int

-- Moving `n` units of the item from available to reserved gives the other item.
pub record Moves (n : ℕ) (i j : StockItem) : Type 0 where
  pub same_sku : j.sku ≡ i.sku
  pub from_available : pos_part i.available_quantity ≡ pos_part j.available_quantity + n
  pub to_reserved : pos_part j.reserved_quantity ≡ pos_part i.reserved_quantity + n
  pub available_count : neg_part j.available_quantity ≡ 0
  pub reserved_count : neg_part j.reserved_quantity ≡ 0

pub Moves-IsSound : (n : ℕ) (i j : StockItem) → IsSound i → Moves n i j → IsSound j
Moves-IsSound n i j s m = record {
  trimmed = cc;
  named = cc;
  available_count = m.available_count;
  reserved_count = m.reserved_count;
  fits = omega arith;
}

pub validate_stock_item-ok : (i : StockItem) → IsSound i → validate_stock_item (some i) ≡ ok i
unfolding validate_stock_item
validate_stock_item-ok i s = ground arith

-- A count is the number of its positive part.
pub count-pos : (a : ℤ) → neg_part a ≡ 0 → a ≡ pos (pos_part a)
count-pos a h = ground arith

-- The item after `n` units are reserved.
abbrev pub reserve_units : StockItem → ℤ → StockItem
reserve_units i q = record i {
  available_quantity = sub_int i.available_quantity q;
  reserved_quantity = add_int i.reserved_quantity q;
}

abbrev pub release_units : StockItem → ℤ → StockItem
release_units i q = record i {
  available_quantity = add_int i.available_quantity q;
  reserved_quantity = sub_int i.reserved_quantity q;
}

pub reserve_units-Moves :
    (i : StockItem) (q : ℤ)
    → IsSound i
    → neg_part q ≡ 0
    → pos_part q ≤ pos_part i.available_quantity
    → Moves (pos_part q) i (reserve_units i q)
reserve_units-Moves i q s c h = ground (
  arith,
  sub_int-pos (pos_part i.available_quantity) (pos_part q),
  add_int-pos (pos_part i.reserved_quantity) (pos_part q),
  count-pos q,
  count-pos i.available_quantity,
  count-pos i.reserved_quantity,
)

pub release_units-Moves :
    (i : StockItem) (q : ℤ)
    → IsSound i
    → neg_part q ≡ 0
    → pos_part q ≤ pos_part i.reserved_quantity
    → Moves (pos_part q) (release_units i q) i
release_units-Moves i q s c h = ground (
  arith,
  add_int-pos (pos_part i.available_quantity) (pos_part q),
  sub_int-pos (pos_part i.reserved_quantity) (pos_part q),
  count-pos q,
  count-pos i.available_quantity,
  count-pos i.reserved_quantity,
)

-- The reservation that `Service.Reserve` makes, and what `Service.Release` makes of it.
abbrev pub new_reservation : Time → Text → StockItem → ℤ → Reservation
new_reservation now id i q = record {
  id = id;
  sku = i.sku;
  quantity = q;
  status = active;
  created_at = now;
  released_at = none;
}

abbrev pub closed : Time → Reservation → Reservation
closed now r = record r { status = released; released_at = some now }

-- A successful `Reserve` took a positive quantity that was available.
pub reserve-eq_ok :
    (now : Time) (i : StockItem) (id : Text) (q : ℤ) {j : StockItem} {r : Reservation}
    → Service.reserve now (some i) id q ≡ ok (j, r)
    → (neg_part q ≡ 0)
      × (0 < pos_part q)
      × (pos_part q ≤ pos_part i.available_quantity)
      × (j ≡ reserve_units i q)
      × (r ≡ new_reservation now (trim_space id) i q)
unfolding Service.reserve validate_stock_item
reserve-eq_ok now i id q h = ground arith

-- A status agrees with the time of release.
abbrev pub IsStamped : ReservationStatus → Option Time → Type 0
IsStamped active none = Unit
IsStamped released (some _) = Unit
IsStamped _ _ = ⊥

pub record IsRecorded (r : Reservation) : Type 0 where
  pub id_trimmed : trim_space r.id ≡ r.id
  pub id_named : is_empty r.id ≡ false
  pub sku_trimmed : trim_space r.sku ≡ r.sku
  pub sku_named : is_empty r.sku ≡ false
  pub positive : 0 < pos_part r.quantity
  pub count : neg_part r.quantity ≡ 0
  pub stamped : IsStamped r.status r.released_at

pub release-eq_ok :
    (now : Time) (i : StockItem) (r : Reservation) {j : StockItem} {s : Reservation}
    → Service.release now (some i) (some r) ≡ ok (j, s)
    → (is_active r.status ≡ true)
      × (pos_part r.quantity ≤ pos_part i.reserved_quantity)
      × (j ≡ release_units i r.quantity)
      × (s ≡ closed now r)
unfolding Service.release validate_stock_item validate_reservation
release-eq_ok now i r h = ground arith

-- An active reservation that the item's reserved units cover is always released.
pub release_active :
    (now : Time) (i : StockItem) (r : Reservation)
    → IsSound i
    → IsRecorded r
    → i.sku ≡ r.sku
    → is_active r.status ≡ true
    → pos_part r.quantity ≤ pos_part i.reserved_quantity
    → Service.release now (some i) (some r) ≡ ok (release_units i r.quantity, closed now r)
unfolding Service.release validate_stock_item validate_reservation
release_active now i r s k e a c = ground (arith, text_eq_iff i.sku r.sku)

-- One that is not active is refused.
pub release_inactive :
    (now : Time) (i : StockItem) (r : Reservation)
    → IsSound i
    → IsRecorded r
    → is_active r.status ≡ false
    → Service.release now (some i) (some r) ≡ err (wraps reservation_not_active)
unfolding Service.release validate_stock_item validate_reservation
release_inactive now i r s k a = ground arith

pub new_reservation-IsRecorded :
    (now : Time) (id : Text) (i : StockItem) (q : ℤ)
    → IsSound i
    → trim_space id ≡ id
    → is_empty id ≡ false
    → neg_part q ≡ 0
    → 0 < pos_part q
    → IsRecorded (new_reservation now (trim_space id) i q)
new_reservation-IsRecorded now id i q s t n c p = record {
  id_trimmed = trim_space_idem id;
  id_named = rw t n;
  sku_trimmed = s.trimmed;
  sku_named = s.named;
  positive = p;
  count = c;
  stamped = tt;
}

pub closed-IsRecorded : (now : Time) (r : Reservation) → IsRecorded r → IsRecorded (closed now r)
closed-IsRecorded now r e = record {
  id_trimmed = e.id_trimmed;
  id_named = e.id_named;
  sku_trimmed = e.sku_trimmed;
  sku_named = e.sku_named;
  positive = e.positive;
  count = e.count;
  stamped = tt;
}

pub release_units-IsSound :
    (i : StockItem) (q : ℤ)
    → IsSound i
    → neg_part q ≡ 0
    → pos_part q ≤ pos_part i.reserved_quantity
    → IsSound (release_units i q)
release_units-IsSound i q s c h = ground (
  arith,
  add_int-pos (pos_part i.available_quantity) (pos_part q),
  sub_int-pos (pos_part i.reserved_quantity) (pos_part q),
  count-pos q,
  count-pos i.available_quantity,
  count-pos i.reserved_quantity,
)

-- What `NewStockItem` returns, and what it has checked.
pub new_stock_item-eq_ok :
    (sku : Text) (q : ℤ) {i : StockItem}
    → new_stock_item sku q ≡ ok i
    → (i.sku ≡ trim_space sku)
      × (i.available_quantity ≡ q)
      × (is_empty (trim_space sku) ≡ false)
      × (neg_part q ≡ 0)
unfolding new_stock_item
new_stock_item-eq_ok sku q h = ground (arith, trim_space_idem sku)
