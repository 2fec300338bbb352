-- ===== src/Memory/Repository/Contract.antt =====
-- What the methods of internal/storage/memory/inventory_repository.go promise to their callers.
use stockflow_erp_mock.Common.{
  ℕ, ◌+◌, ◌≤◌, ◌<◌, ◌≡◌, ◌↔◌, ap, true, false, none, some, Option, is_empty, ok, err, arith, inl,
  inr, Option-cases,
}
use stockflow_erp_mock.Common.Int.{ℤ, pos_part, neg_part}
use stockflow_erp_mock.Common.Text.{Text, trim_space, trim_space_idem, text_eq_iff, text_eq_refl}
use stockflow_erp_mock.Common.Dict.{Dict, lookup, insert, lookup-insert, lookup-insert_self}
use stockflow_erp_mock.Inventory.Errors.{wraps, reservation_not_active}
use stockflow_erp_mock.Inventory.Model.{Time, StockItem, Reservation}
use stockflow_erp_mock.Inventory.Service
use stockflow_erp_mock.Inventory.Service.{is_active}
use stockflow_erp_mock.Inventory.Laws.{
  IsSound, IsRecorded, Moves, Moves-IsSound, reserve_units, release_units, reserve_units-Moves,
  release_units-Moves, count-pos, new_reservation, closed, release_units-IsSound, reserve-eq_ok,
  release-eq_ok, release_active, release_inactive, validate_stock_item-ok,
}
use stockflow_erp_mock.Memory.Repository.{
  Repository, CtxErr, normalized_identifier, reserve, release,
}
use stockflow_erp_mock.Memory.Repository.Reserved.{held-le-reserved_for}
use stockflow_erp_mock.Memory.Repository.Calls.{reserve-eq_ok_parts, release-eq_ok_parts}
use stockflow_erp_mock.Memory.Repository.Invariant.{IsValid}
use stockflow_erp_mock.Memory.Repository.Preservation.{reserve-IsValid, release-IsValid}

-- The repository after `reserve` or `release` of an item and a reservation.
abbrev pub after_reserve : Time → Text → Text → ℤ → StockItem → Repository → Repository
after_reserve now id k q i r = record {
  stock = insert k (reserve_units i q) r.stock;
  reservations = insert id (new_reservation now id i q) r.reservations;
}

abbrev pub after_release : Time → Text → StockItem → Reservation → Repository → Repository
after_release now id i x r = record {
  stock = insert x.sku (release_units i x.quantity) r.stock;
  reservations = insert id (closed now x) r.reservations;
}

held-le-reserved :
    (id : Text) (r : Repository) (x : Reservation) (i : StockItem)
    → IsValid r
    → lookup id r.reservations ≡ some x
    → lookup x.sku r.stock ≡ some i
    → is_active x.status ≡ true
    → pos_part x.quantity ≤ pos_part i.reserved_quantity
held-le-reserved id r x i v at_id at_sku a = ground (
  arith,
  held-le-reserved_for x.sku id x r.reservations at_id,
  v.accounted x.sku,
  text_eq_refl x.sku,
)

pub release_lem :
    (now : Time) (reservation_id : Text) (r : Repository) (x : Reservation) (i : StockItem)
    → IsValid r
    → lookup (trim_space reservation_id) r.reservations ≡ some x
    → lookup x.sku r.stock ≡ some i
    → is_active x.status ≡ true
    → release none now reservation_id r
      ≡ ok (after_release now (trim_space reservation_id) i x r, closed now x)
unfolding release normalized_identifier
release_lem now reservation_id r x i v at_id at_sku a =
    let id : Text = trim_space reservation_id in
    let entry : IsRecorded x = v.recorded id x at_id in
    let named : is_empty id ≡ false = ground (arith, v.keyed id x at_id) in
    ground (
      arith,
      release_active now i x (v.stock_sound x.sku i at_sku) entry (v.stock_keyed x.sku i at_sku) a
          (held-le-reserved id r x i v at_id at_sku a),
    )

-- In a valid repository an active reservation can always be released: without an error of the
-- context the call succeeds, whatever spaces surround the id, and it returns the reservation closed
-- at the time of the call.
pub release_succeeds :
    (now : Time) (reservation_id : Text) (r : Repository) (x : Reservation)
    → IsValid r
    → lookup (trim_space reservation_id) r.reservations ≡ some x
    → is_active x.status ≡ true
    → (r' : Repository) × (release none now reservation_id r ≡ ok (r', closed now x))
release_succeeds now reservation_id r x v at_id a = elim (Option-cases (lookup x.sku r.stock)) [
  | inl e ↦ absurd (v.stocked (trim_space reservation_id) x at_id e)
  | inr (i, e) ↦ (_, release_lem now reservation_id r x i v at_id e a)
]

release_closed :
    (now : Time) (reservation_id : Text) (r : Repository) (x : Reservation)
    → IsValid r
    → lookup (trim_space reservation_id) r.reservations ≡ some x
    → is_active x.status ≡ false
    → release none now reservation_id r ≡ err (wraps reservation_not_active)
unfolding release normalized_identifier
release_closed now reservation_id r x v at_id a =
    let id : Text = trim_space reservation_id in
    let entry : IsRecorded x = v.recorded id x at_id in
    let named : is_empty id ≡ false = ground (arith, v.keyed id x at_id) in
    elim (Option-cases (lookup x.sku r.stock)) [
      | inl e ↦ absurd (v.stocked id x at_id e)
      | inr (i, e) ↦ ground (arith, release_inactive now i x (v.stock_sound x.sku i e) entry a)
    ]

-- After a release of a valid repository has succeeded, another call with the same id and without an
-- error of the context is refused as not active.
pub release-release :
    (ctx_err : CtxErr) (now later : Time) (reservation_id : Text) (r : Repository) {r' : Repository}
    {x : Reservation}
    → IsValid r
    → release ctx_err now reservation_id r ≡ ok (r', x)
    → release none later reservation_id r' ≡ err (wraps reservation_not_active)
release-release ctx_err now later reservation_id r {r'} {x} v h =
    let (old, i, j, at_id, at_sku, call, e) = release-eq_ok_parts ctx_err now reservation_id r h in
    release_closed later reservation_id r' x (release-IsValid ctx_err now reservation_id r v h)
      (rw e (lookup-insert_self (trim_space reservation_id) x r.reservations))
      (ap (λ (y : Reservation). is_active y.status) (release-eq_ok now i old call).3)

-- What a caller of `reserve` has to give.
pub record Accepts (reservation_id sku : Text) (q : ℤ) (r : Repository) : Type 0 where
  pub id_named : is_empty (trim_space reservation_id) ≡ false
  pub fresh : lookup (trim_space reservation_id) r.reservations ≡ none
  pub positive : 0 < pos_part q
  pub item : StockItem
  pub at_sku : lookup (trim_space sku) r.stock ≡ some item
  pub enough : pos_part q ≤ pos_part item.available_quantity

reserve_lem :
    (now : Time) (reservation_id sku : Text) (q : ℤ) (r : Repository)
    → IsValid r
    → (a : Accepts reservation_id sku q r)
    → reserve none now reservation_id sku q r
      ≡ ok (
        after_reserve now (trim_space reservation_id) (trim_space sku) q a.item r,
        new_reservation now (trim_space reservation_id) a.item q,
      )
unfolding reserve normalized_identifier Service.reserve
reserve_lem now reservation_id sku q r v a =
    let sound : IsSound a.item = v.stock_sound (trim_space sku) a.item a.at_sku in
    let named : is_empty (trim_space sku) ≡ false =
      ground (arith, v.stock_keyed (trim_space sku) a.item a.at_sku) in
    ground (
      arith,
      validate_stock_item-ok a.item sound,
      trim_space_idem reservation_id,
      a.id_named,
      a.fresh,
      a.positive,
      a.at_sku,
      a.enough,
    )

-- In a valid repository and without an error of the context, `Reserve` succeeds exactly when the id is
-- not blank and new, the SKU is stocked, the quantity is positive and the stock is enough.
pub reserve_iff :
    (now : Time) (reservation_id sku : Text) (q : ℤ) (r : Repository)
    → IsValid r
    → ((r' : Repository) × (x : Reservation) × (reserve none now reservation_id sku q r
          ≡ ok (r', x)))
      ↔ Accepts reservation_id sku q r
reserve_iff now reservation_id sku q r v = (
  (λ (r', x, h).
      let (named, _, fresh, i, j, at_k, call, e) =
        reserve-eq_ok_parts none now reservation_id sku q r h in
      let (_, p, le, _, _) = reserve-eq_ok now i (trim_space reservation_id) q call in
      record {
        id_named = named;
        fresh = fresh;
        positive = p;
        item = i;
        at_sku = at_k;
        enough = le;
      }),
  (λ a. (_, _, reserve_lem now reservation_id sku q r v a)),
)

-- The units of an item, available or reserved.
abbrev pub units : Option StockItem → ℕ
units none = 0
units (some i) = pos_part i.available_quantity + pos_part i.reserved_quantity

-- In a valid repository, no units of any item appear or vanish by a reservation that succeeds.
pub units-reserve :
    (ctx_err : CtxErr) (now : Time) (reservation_id sku : Text) (q : ℤ) (r : Repository)
    {r' : Repository} {x : Reservation}
    → IsValid r
    → reserve ctx_err now reservation_id sku q r ≡ ok (r', x)
    → (k : Text) → units (lookup k r'.stock) ≡ units (lookup k r.stock)
units-reserve ctx_err now reservation_id sku q r v h k =
    let (_, _, _, i, j, at_k, call, e) = reserve-eq_ok_parts ctx_err now reservation_id sku q r h in
    let (c, _, le, ej, _) = reserve-eq_ok now i (trim_space reservation_id) q call in
    let moves = reserve_units-Moves i q (v.stock_sound (trim_space sku) i at_k) c le in
    rw e (
      ground (
        arith,
        ej,
        moves.from_available,
        moves.to_reserved,
        lookup-insert (trim_space sku) k j r.stock,
        text_eq_iff (trim_space sku) k,
      ))

-- In a valid repository, no units of any item appear or vanish by a release that succeeds.
pub units-release :
    (ctx_err : CtxErr) (now : Time) (reservation_id : Text) (r : Repository) {r' : Repository}
    {x : Reservation}
    → IsValid r
    → release ctx_err now reservation_id r ≡ ok (r', x)
    → (k : Text) → units (lookup k r'.stock) ≡ units (lookup k r.stock)
units-release ctx_err now reservation_id r v h k =
    let (old, i, j, at_id, at_sku, call, e) = release-eq_ok_parts ctx_err now reservation_id r h in
    let (_, le, ej, _) = release-eq_ok now i old call in
    let moves =
      release_units-Moves i old.quantity (v.stock_sound old.sku i at_sku)
        (v.recorded (trim_space reservation_id) old at_id).count le in
    rw e (
      ground (
        arith,
        ej,
        moves.from_available,
        moves.to_reserved,
        lookup-insert old.sku k j r.stock,
        text_eq_iff old.sku k,
      ))

-- An item is determined by what a move makes of it.
Moves-source_unique :
    (n : ℕ) (i j k : StockItem) → IsSound i → IsSound k → Moves n i j → Moves n k j → k ≡ i
Moves-source_unique n i j k s t m l = ground (
  arith,
  count-pos i.available_quantity,
  count-pos i.reserved_quantity,
  count-pos k.available_quantity,
  count-pos k.reserved_quantity,
)

release_units-reserve_units :
    (i : StockItem) (q : ℤ)
    → IsSound i
    → neg_part q ≡ 0
    → pos_part q ≤ pos_part i.available_quantity
    → release_units (reserve_units i q) q ≡ i
release_units-reserve_units i q s c le =
    let j : StockItem = reserve_units i q in
    let taken : Moves (pos_part q) i j = reserve_units-Moves i q s c le in
    let sound : IsSound j = Moves-IsSound (pos_part q) i j s taken in
    let held_back : pos_part q ≤ pos_part j.reserved_quantity = omega (arith, taken.to_reserved) in
    Moves-source_unique (pos_part q) i j (release_units j q) s
      (release_units-IsSound j q sound c held_back) taken
      (release_units-Moves j q sound c held_back)

lookup-restored :
    (key sku k : Text) (i j b : StockItem) (m m' : Dict StockItem)
    → sku ≡ key
    → b ≡ i
    → m' ≡ insert key j m
    → lookup key m ≡ some i
    → lookup k (insert sku b m') ≡ lookup k m
lookup-restored key sku k i j b m m' es eb em at_key =
    rw (es, eb, em, lookup-insert) (ground (arith, lookup-insert key k j m, text_eq_iff key k))

-- Releasing what was just reserved in a valid repository, without an error of the context, succeeds,
-- gives every item back as it was, and closes the reservation.
pub release-reserve :
    (ctx_err : CtxErr) (now later : Time) (reservation_id sku : Text) (q : ℤ) (r : Repository)
    {r' : Repository} {x : Reservation}
    → IsValid r
    → reserve ctx_err now reservation_id sku q r ≡ ok (r', x)
    → (r'' : Repository) × (release none later reservation_id r' ≡ ok (r'', closed later x))
      × ((k : Text) → lookup k r''.stock ≡ lookup k r.stock)
release-reserve ctx_err now later reservation_id sku q r {r'} {x} v h =
    let (_, _, _, i, j, at_k, call, e) = reserve-eq_ok_parts ctx_err now reservation_id sku q r h in
    let (c, _, le, ej, ex) = reserve-eq_ok now i (trim_space reservation_id) q call in
    let id : Text = trim_space reservation_id in
    let key : Text = trim_space sku in
    let x_sku : x.sku ≡ key = ground (arith, ex, v.stock_keyed key i at_k) in
    let x_quantity : x.quantity ≡ q = ap (λ (y : Reservation). y.quantity) ex in
    let back : release_units j x.quantity ≡ i =
      rw (x_quantity, ej) (release_units-reserve_units i q (v.stock_sound key i at_k) c le) in
    let found : lookup x.sku r'.stock ≡ some j = rw (e, x_sku) (lookup-insert_self key j r.stock) in
    (
      after_release later id j x r',
      release_lem later reservation_id r' x j
          (reserve-IsValid ctx_err now reservation_id sku q r v h)
          (rw e (lookup-insert_self id x r.reservations)) found
          (ap (λ (y : Reservation). is_active y.status) ex),
      λ k.
          lookup-restored key x.sku k i j _ r.stock r'.stock x_sku back
            (ap (λ (p : Repository). p.stock) e) at_k,
    )
