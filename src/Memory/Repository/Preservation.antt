-- ===== src/Memory/Repository/Preservation.antt =====
-- What the methods of the repository make of its invariant.
use stockflow_erp_mock.Common.{
  ◌+◌, ◌≤◌, ◌≡◌, ◌≢◌, refl, true, false, none, some, is_empty, ok, arith, inl, inr, Option-cases,
}
use stockflow_erp_mock.Common.Int.{ℤ, pos_part, neg_part, max_int}
use stockflow_erp_mock.Common.Text.{Text, trim_space, trim_space_idem, text_eq_iff}
use stockflow_erp_mock.Common.Dict.{lookup, insert}
use stockflow_erp_mock.Inventory.Model.{Time, StockItem, Reservation}
use stockflow_erp_mock.Inventory.Service
use stockflow_erp_mock.Inventory.Service.{is_active}
use stockflow_erp_mock.Inventory.Laws.{
  IsSound, IsRecorded, Moves, Moves-IsSound, reserve_units-Moves, release_units-Moves,
  new_reservation-IsRecorded, closed-IsRecorded, release_units-IsSound, reserve-eq_ok,
  release-eq_ok,
}
use stockflow_erp_mock.Memory.Repository.{
  Repository, CtxErr, reserved_of, set_stock, reserve, release,
}
use stockflow_erp_mock.Memory.Repository.Reserved.{
  held, reserved_for-insert_new, reserved_for-insert,
}
use stockflow_erp_mock.Memory.Repository.Calls.{
  reserve-eq_ok_parts, release-eq_ok_parts, set_stock-eq_ok_parts,
}
use stockflow_erp_mock.Memory.Repository.Invariant.{IsValid, put-IsValid, put_item-IsValid}

reserved_of-count :
    (k : Text) (r : Repository) → IsValid r → neg_part (reserved_of (lookup k r.stock)) ≡ 0
reserved_of-count k r v = elim (Option-cases (lookup k r.stock)) [
  | inl e ↦ rw e
  | inr (i, e) ↦ rw e (v.stock_sound k i e).reserved_count
]

held-other : (k m : Text) (x : Reservation) → x.sku ≡ k → k ≢ m → held m x ≡ 0
held-other k m x e h = ground (arith, text_eq_iff x.sku m)

held-active :
    (k : Text) (x : Reservation)
    → x.sku ≡ k
    → is_active x.status ≡ true
    → held k x ≡ pos_part x.quantity
held-active k x e h = ground (arith, text_eq_iff x.sku k)

held-inactive : (k : Text) (x : Reservation) → is_active x.status ≡ false → held k x ≡ 0
held-inactive k x h = ground arith

module _ (r : Repository) (v : IsValid r) where
  -- The item and the reservation of a call of `Service.Reserve` are written.
  reserved-IsValid :
      (now : Time) (id k : Text) (q : ℤ) (i j : StockItem) (x : Reservation)
      → trim_space id ≡ id
      → is_empty id ≡ false
      → lookup id r.reservations ≡ none
      → lookup k r.stock ≡ some i
      → Service.reserve now (some i) id q ≡ ok (j, x)
      → IsValid (record { stock = insert k j r.stock; reservations = insert id x r.reservations })
  reserved-IsValid now id k q i j x trimmed named fresh at_k call =
      let (c, p, le, ej, ex) = reserve-eq_ok now i id q call in
      let moves : Moves (pos_part q) i j =
        rw ej (reserve_units-Moves i q (v.stock_sound k i at_k) c le) in
      let sku_k : i.sku ≡ k = v.stock_keyed k i at_k in
      let x_sku : x.sku ≡ k = ground arith in
      let x_held : held k x ≡ pos_part q = ground (arith, text_eq_iff x.sku k) in
      put-IsValid r k id j x v (Moves-IsSound _ i j (v.stock_sound k i at_k) moves) (cc)
        (rw ex (new_reservation-IsRecorded now id i q (v.stock_sound k i at_k) trimmed named c p))
        (ground arith) x_sku
        (ground (
          arith,
          reserved_for-insert_new k id x r.reservations fresh,
          v.accounted k,
          moves.to_reserved,
        ))
        (λ m h.
          omega
            (arith, reserved_for-insert_new m id x r.reservations fresh, held-other k m x x_sku h))

  released-IsValid :
      (now : Time) (id : Text) (old : Reservation) (i j : StockItem) (x : Reservation)
      → lookup id r.reservations ≡ some old
      → lookup old.sku r.stock ≡ some i
      → Service.release now (some i) (some old) ≡ ok (j, x)
      → IsValid
          (record { stock = insert old.sku j r.stock; reservations = insert id x r.reservations })
  released-IsValid now id old i j x at_id at_sku call =
      let (a, le, ej, ex) = release-eq_ok now i old call in
      let entry : IsRecorded old = v.recorded id old at_id in
      let sound : IsSound i = v.stock_sound old.sku i at_sku in
      let moves : Moves (pos_part old.quantity) j i =
        rw ej (release_units-Moves i old.quantity sound entry.count le) in
      let sku_k : i.sku ≡ old.sku = v.stock_keyed old.sku i at_sku in
      let x_sku : x.sku ≡ old.sku = ground arith in
      let j_sound : IsSound j = rw ej (release_units-IsSound i old.quantity sound entry.count le) in
      put-IsValid r old.sku id j x v j_sound (ground arith)
        (rw ex (closed-IsRecorded now old entry)) (ground (arith, v.keyed id old)) x_sku
        (ground (
          arith,
          reserved_for-insert old.sku id x old r.reservations at_id,
          v.accounted old.sku,
          moves.to_reserved,
          held-active old.sku old,
          held-inactive old.sku x,
        ))
        (λ m h. omega (
          arith,
          reserved_for-insert m id x old r.reservations at_id,
          held-other old.sku m x x_sku h,
          held-other old.sku m old refl h,
        ))

-- A successful `Reserve` keeps the invariant.
pub reserve-IsValid :
    (ctx_err : CtxErr) (now : Time) (reservation_id sku : Text) (q : ℤ) (r : Repository)
    {r' : Repository} {x : Reservation}
    → IsValid r
    → reserve ctx_err now reservation_id sku q r ≡ ok (r', x)
    → IsValid r'
reserve-IsValid ctx_err now reservation_id sku q r v h =
    let (named, _, fresh, i, j, at_k, call, e) =
      reserve-eq_ok_parts ctx_err now reservation_id sku q r h in
    rw e (
      reserved-IsValid r v now (trim_space reservation_id) (trim_space sku) q i j _
        (trim_space_idem reservation_id) named fresh at_k call)

-- A successful `Release` keeps the invariant.
pub release-IsValid :
    (ctx_err : CtxErr) (now : Time) (reservation_id : Text) (r : Repository) {r' : Repository}
    {x : Reservation}
    → IsValid r
    → release ctx_err now reservation_id r ≡ ok (r', x)
    → IsValid r'
release-IsValid ctx_err now reservation_id r v h =
    let (old, i, j, at_id, at_sku, call, e) = release-eq_ok_parts ctx_err now reservation_id r h in
    rw e (released-IsValid r v now (trim_space reservation_id) old i j _ at_id at_sku call)

-- `SetStock` keeps it where the new quantity and the units that stay reserved make an `int`.
pub set_stock-IsValid :
    (ctx_err : CtxErr) (sku : Text) (q : ℤ) (r : Repository) {r' : Repository} {i : StockItem}
    → IsValid r
    → pos_part q + pos_part (reserved_of (lookup (trim_space sku) r.stock)) ≤ max_int
    → set_stock ctx_err sku q r ≡ ok (r', i)
    → IsValid r'
set_stock-IsValid ctx_err sku q r v fits h =
    let (is_sku, is_q, carried, named, count, e) = set_stock-eq_ok_parts ctx_err sku q r h in
    rw e (
      put_item-IsValid r (trim_space sku) _ v
        (record {
          trimmed = rw is_sku (trim_space_idem sku);
          named = rw is_sku named;
          available_count = rw is_q count;
          reserved_count = rw carried (reserved_of-count (trim_space sku) r v);
          fits = rw (is_q, carried) fits;
        })
        is_sku carried)
