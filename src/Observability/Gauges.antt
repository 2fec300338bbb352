-- ===== src/Observability/Gauges.antt =====
-- What the gauges of internal/observability/metrics.go say of the repository.
use stockflow_erp_mock.Common.{
  ℕ, ◌≤◌, ◌≡◌, ◌↔◌, ◌⊎◌, inl, inr, refl, sym, ap, ◌∙◌, true, none, some, String, List, [], ◌∷◌,
  ◌++◌, map, Result, ok, arith, Bool, suc, length, if◌then◌else◌, Bool-cases, Option-cases,
}
use stockflow_erp_mock.Common.Int.{pos_part}
use stockflow_erp_mock.Common.Text.{Text, text_eq_refl, text_eq_iff}
use stockflow_erp_mock.Common.Dict.{Dict, lookup, HasUniqueKeys}
use stockflow_erp_mock.Common.Sort.{values, sort_slice, put_in_order}
use stockflow_erp_mock.Inventory.Errors.{Error}
use stockflow_erp_mock.Inventory.Model.{
  ReservationStatus, active, released, unsupported, StockItem, Reservation,
}
use stockflow_erp_mock.Inventory.Service.{is_active}
use stockflow_erp_mock.Memory.Repository.{Repository, CtxErr, reserved_of}
use stockflow_erp_mock.Memory.Repository.Reserved.{held, reserved_for, held-le-reserved_for}
use stockflow_erp_mock.Memory.Repository.Invariant.{IsValid}
use stockflow_erp_mock.Memory.Repository.Listing.{Lists, id_of, list_reservations, lists_lem}
use stockflow_erp_mock.Messaging.Admin.Depth.{dlq_depth}
use stockflow_erp_mock.Observability.Depths.{ShowsDepths, depth_samples-ShowsDepths}
use stockflow_erp_mock.Observability.{
  Sample, stock_gauge, depth_samples, active_gauge, count_active, collect,
}

count_active-put_in_order :
    (x : Reservation) (xs : List Reservation)
    → count_active (put_in_order id_of x xs) ≡ count_active (x ∷ xs)
unfolding count_active put_in_order
count_active-put_in_order x [] = refl
count_active-put_in_order x (y ∷ ys) = ground (arith, count_active-put_in_order x ys)

count_active-sort_slice :
    (xs : List Reservation) → count_active (sort_slice id_of xs) ≡ count_active xs
unfolding count_active sort_slice
count_active-sort_slice [] = refl
count_active-sort_slice (x ∷ xs) =
    count_active-put_in_order x (sort_slice id_of xs) ∙ ground (arith, count_active-sort_slice xs)

reserved_for-count_active :
    (k : Text) (m : Dict Reservation) → count_active (values m) ≡ 0 → reserved_for k m ≡ 0
unfolding count_active reserved_for
reserved_for-count_active k [] h = refl
reserved_for-count_active k ((j, x) ∷ m) h = ground (arith, reserved_for-count_active k m)

-- A map with an active reservation holds one under some key.
count_active-lookup :
    (m : Dict Reservation)
    → HasUniqueKeys m
    → (count_active (values m) ≡ 0)
      ⊎ ((k : Text) × (x : Reservation) × (lookup k m ≡ some x) × (is_active x.status ≡ true))
unfolding count_active lookup
count_active-lookup [] u = inl refl
count_active-lookup ((j, x) ∷ m) u = elim (Bool-cases (is_active x.status)) [
  | inl e ↦ inr (j, x, rw text_eq_refl refl, e)
  | inr e ↦ elim (count_active-lookup m u.1) [
    | inl f ↦ inl (rw e f)
    | inr (k, y, found, f) ↦ inr (k, y, ground (arith, text_eq_iff j k, found), f)
  ]
]

-- The active reservations of a list.
abbrev pub keep_active : ReservationStatus → Reservation → List Reservation → List Reservation
keep_active active x xs = x ∷ xs
keep_active released x xs = xs
keep_active (unsupported _) x xs = xs

abbrev pub active_of : List Reservation → List Reservation
active_of [] = []
active_of (x ∷ xs) = keep_active x.status x (active_of xs)

length-keep_active :
    (status : ReservationStatus) (x : Reservation) (xs : List Reservation)
    → length (keep_active status x xs) ≡ (if is_active status then suc (length xs) else length xs)
length-keep_active active x xs = refl
length-keep_active released x xs = refl
length-keep_active (unsupported _) x xs = refl

count_active_lem : (xs : List Reservation) → count_active xs ≡ length (active_of xs)
unfolding count_active
count_active_lem [] = refl
count_active_lem (x ∷ xs) =
    ground (arith, length-keep_active x.status x (active_of xs), count_active_lem xs)

-- No unit of any item is reserved.
abbrev pub HoldsNothing : Repository → Type 0
HoldsNothing r =
    (k : Text) (i : StockItem) → lookup k r.stock ≡ some i → pos_part i.reserved_quantity ≡ 0

module _ (r : Repository) (v : IsValid r) where
  reserved_of-lookup :
      (k : Text) (i : StockItem)
      → lookup k r.stock ≡ some i
      → pos_part i.reserved_quantity ≡ reserved_for k r.reservations
  reserved_of-lookup k i e = ap (λ o. pos_part (reserved_of o)) (sym e) ∙ v.accounted k

  inactive-HoldsNothing : count_active (values r.reservations) ≡ 0 → HoldsNothing r
  inactive-HoldsNothing h k i e =
      reserved_of-lookup k i e ∙ reserved_for-count_active k r.reservations h

  HoldsNothing-inactive : HoldsNothing r → count_active (values r.reservations) ≡ 0
  HoldsNothing-inactive nothing = elim (count_active-lookup r.reservations v.reservation_keys) [
    | inl e ↦ e
    | inr (k, x, found, is_held) ↦ elim (Option-cases (lookup x.sku r.stock)) [
      | inl e ↦ absurd (v.stocked k x found e)
      | inr (i, e) ↦
          let none_held : reserved_for x.sku r.reservations ≡ 0 =
            sym (reserved_of-lookup x.sku i e) ∙ nothing x.sku i e in
          let at_most : held x.sku x ≤ 0 =
            rw none_held at (held-le-reserved_for x.sku k x r.reservations found) in
          let recorded = v.recorded k x found in
          ground (arith, at_most, is_held, text_eq_refl x.sku, recorded.positive)
    ]
  ]

  listed_count :
      (all : List Reservation)
      → list_reservations none r ≡ ok all
      → count_active all ≡ count_active (values r.reservations)
  unfolding list_reservations
  listed_count all listed =
      let e : sort_slice id_of (values r.reservations) ≡ all = ground (arith, listed) in
      ap count_active (sym e) ∙ count_active-sort_slice (values r.reservations)

  -- On a valid repository, and with no error of the contexts of the two lists, `Collect` sends the
  -- available quantity of each item in the order of the SKUs, then the number of active reservations,
  -- then the number of messages in each of the two dead-letter queues, in either order, or one sample
  -- with the error that reading them met. The number of active reservations is 0 exactly where no unit
  -- of any item is reserved.
  pub collect_lem :
      (depth_ctx : CtxErr) (swapped : Bool) (inspect : String → Result Error ℕ)
      → (items : List StockItem) × (all : List Reservation) × (depths : List Sample) × (collect none
            none depth_ctx swapped inspect r
          ≡ map (λ (i : StockItem). stock_gauge i.sku i.available_quantity) items
            ++ (active_gauge (length (active_of all)) ∷ depths))
        × Lists r items all
        × ShowsDepths depth_ctx inspect depths
        × ((length (active_of all) ≡ 0) ↔ HoldsNothing r)
  unfolding collect
  collect_lem depth_ctx swapped inspect =
      let (items, all, stocked, listed, lists) = lists_lem r v in
      let number = count_active_lem all in
      let same = sym number ∙ listed_count all listed in
      (
        items,
        all,
        depth_samples swapped (dlq_depth depth_ctx inspect),
        rw (stocked, listed, number) refl,
        lists,
        depth_samples-ShowsDepths depth_ctx swapped inspect,
        (
          λ e. inactive-HoldsNothing (sym same ∙ e),
          λ nothing. same ∙ HoldsNothing-inactive nothing,
        ),
      )
