-- ===== src/Memory/Repository/Overflow.antt =====
-- What a `SetStock` near the largest `int` does to the item, once its units come back.
use stockflow_erp_mock.Common.{
  ◌+◌, ◌≤◌, ◌<◌, ◌≡◌, ◌≢◌, refl, sym, ap, ◌∙◌, false, none, some, is_empty, ok, arith, inl, inr,
  Option-cases, Result-cases,
}
use stockflow_erp_mock.Common.Int.{ℤ, pos_part, neg_part, max_int, add_int, sub_int, wrap_int}
use stockflow_erp_mock.Common.Text.{Text, trim_space, trim_space_idem, text_eq_refl}
use stockflow_erp_mock.Common.Dict.{lookup, insert, lookup-insert_self}
use stockflow_erp_mock.Inventory.Model.{
  Time, StockItem, Reservation, active, validate_stock_item, validate_reservation,
}
use stockflow_erp_mock.Inventory.Service
use stockflow_erp_mock.Inventory.Laws.{closed, IsRecorded}
use stockflow_erp_mock.Memory.Repository.{
  Repository, reserved_of, normalized_identifier, set_stock, reserve, release,
}
use stockflow_erp_mock.Memory.Repository.Calls.{set_stock-eq_ok_parts}
use stockflow_erp_mock.Memory.Repository.Reserved.{held, reserved_for, held-le-reserved_for}
use stockflow_erp_mock.Memory.Repository.Invariant.{IsValid}

add_int-wraps :
    (a b : ℤ)
    → neg_part a ≡ 0
    → neg_part b ≡ 0
    → pos_part a ≤ max_int
    → pos_part b ≤ max_int
    → max_int < pos_part a + pos_part b
    → 0 < neg_part (add_int a b)
unfolding add_int wrap_int
add_int-wraps a b na nb la lb over = ground arith

-- The item that `Release` leaves.
abbrev freed : StockItem → Reservation → StockItem
freed i x = record i {
  available_quantity = add_int i.available_quantity x.quantity;
  reserved_quantity = sub_int i.reserved_quantity x.quantity;
}

service_releases :
    (now : Time) (i : StockItem) (x : Reservation)
    → is_empty (trim_space i.sku) ≡ false
    → neg_part i.available_quantity ≡ 0
    → neg_part i.reserved_quantity ≡ 0
    → IsRecorded x
    → x.status ≡ active
    → x.sku ≡ i.sku
    → pos_part x.quantity ≤ pos_part i.reserved_quantity
    → Service.release now (some i) (some x) ≡ ok (freed i x, closed now x)
unfolding Service.release validate_stock_item validate_reservation
service_releases now i x named na nr recorded is_held same enough = ground (
  arith,
  text_eq_refl i.sku,
  recorded.id_trimmed,
  recorded.id_named,
  recorded.sku_trimmed,
  recorded.sku_named,
  recorded.positive,
  recorded.count,
)

service_refuses :
    (now : Time) (i : StockItem) (id : Text) (q : ℤ) {p : StockItem × Reservation}
    → 0 < neg_part i.available_quantity
    → Service.reserve now (some i) id q ≢ ok p
unfolding Service.reserve validate_stock_item
service_refuses now i id q negative h = ground (arith, negative, h)

reserve_refuses :
    (now : Time) (id sku : Text) (q : ℤ) (r : Repository) (i : StockItem)
    {p : Repository × Reservation}
    → lookup (trim_space sku) r.stock ≡ some i
    → 0 < neg_part i.available_quantity
    → reserve none now id sku q r ≢ ok p
unfolding reserve normalized_identifier
reserve_refuses now id sku q r i found negative h =
    elim (Result-cases (Service.reserve now (some i) (trim_space id) q)) [
      | inl (p, e) ↦ service_refuses now i (trim_space id) q negative e
      | inr (x, e) ↦ ground (arith, found, e, h)
    ]

-- In a valid repository, let `SetStock` set the quantity of an item so near the largest `int` that an
-- active reservation for it would pass it. Then, without an error of the context, the release of
-- this reservation succeeds, and every later `Reserve` of the item fails, whatever it asks for.
pub set_stock_overflows :
    (now : Time) (sku id : Text) (q : ℤ) (r : Repository) (x : Reservation) {r' : Repository}
    {i : StockItem}
    → IsValid r
    → set_stock none sku q r ≡ ok (r', i)
    → is_empty (trim_space id) ≡ false
    → lookup (trim_space id) r.reservations ≡ some x
    → x.status ≡ active
    → x.sku ≡ trim_space sku
    → pos_part q ≤ max_int
    → max_int < pos_part q + pos_part x.quantity
    → (r'' : Repository) × (release none now id r' ≡ ok (r'', closed now x))
      × ((later : Time) (other : Text) (n : ℤ) (p : Repository × Reservation)
          → reserve none later other sku n r'' ≢ ok p)
unfolding release normalized_identifier
set_stock_overflows now sku id q r x {r'} {i} v h named found is_held for_item fits over =
    let (own, exact, reserved, sku_named, count, e) = set_stock-eq_ok_parts none sku q r h in
    let key = trim_space sku in
    elim (Option-cases (lookup key r.stock)) [
      | inl none_there ↦
          absurd
            (v.stocked (trim_space id) x found (ap (λ k. lookup k r.stock) for_item ∙ none_there))
      | inr (j, there) ↦
          let recorded = v.recorded (trim_space id) x found in
          let sound = v.stock_sound key j there in
          let carried : i.reserved_quantity ≡ j.reserved_quantity =
            reserved ∙ ap reserved_of there in
          let owed : pos_part j.reserved_quantity ≡ reserved_for key r.reservations =
            ap (λ o. pos_part (reserved_of o)) (sym there) ∙ v.accounted key in
          let at_least : held key x ≤ reserved_for key r.reservations =
            held-le-reserved_for key (trim_space id) x r.reservations found in
          let enough : pos_part x.quantity ≤ pos_part i.reserved_quantity =
            ground (arith, at_least, owed, carried, is_held, for_item, text_eq_refl key) in
          let in_stock : lookup x.sku r'.stock ≡ some i =
            rw (e, for_item) (lookup-insert_self key i r.stock) in
          let in_reservations : lookup (trim_space id) r'.reservations ≡ some x = rw e found in
          let leaves : Service.release now (some i) (some x) ≡ ok (freed i x, closed now x) =
            service_releases now i x (rw (own, trim_space_idem) sku_named) (rw exact count)
              (rw carried sound.reserved_count) recorded is_held (for_item ∙ sym own) enough in
          let quantity_fits : pos_part x.quantity ≤ max_int =
            ground (arith, enough, carried, sound.fits) in
          let negative : 0 < neg_part (freed i x).available_quantity =
            add_int-wraps i.available_quantity x.quantity (rw exact count) recorded.count
              (rw exact fits) quantity_fits (rw exact over) in
          (
            record {
              stock = insert x.sku (freed i x) r'.stock;
              reservations = insert (trim_space id) (closed now x) r'.reservations;
            },
            rw (named, in_reservations, in_stock, leaves) refl,
            λ later other n p.
                reserve_refuses later other sku n _ (freed i x)
                  (rw (sym for_item) (lookup-insert_self x.sku (freed i x) r'.stock)) negative,
          )
    ]
