-- ===== src/Http/Server/Effects.antt =====
-- What the handlers of internal/http/server.go change.
use stockflow_erp_mock.Common.{
  ℕ, ◌+◌, ◌≤◌, ◌≡◌, ◌≢◌, refl, ap, ◌∙◌, none, some, List, ok, inl, inr, Option-cases, Result-cases,
  map,
}
use stockflow_erp_mock.Common.Int.{ℤ, pos_part, max_int}
use stockflow_erp_mock.Common.Text.{Text, trim_space}
use stockflow_erp_mock.Common.Dict.{lookup, insert, lookup-insert_self, lookup-insert_ne}
use stockflow_erp_mock.Common.Sort.{index, IsAscending}
use stockflow_erp_mock.Memory.Repository.Calls.{set_stock-eq_ok_parts}
use stockflow_erp_mock.Memory.Repository.Listing.{sku_of, lists_lem}
use stockflow_erp_mock.Messaging.Admin.{Iteration, requeue_dead_letters}
use stockflow_erp_mock.Inventory.Model.{StockItem}
use stockflow_erp_mock.Memory.Repository.{Repository, CtxErr, reserved_of, set_stock}
use stockflow_erp_mock.Memory.Repository.Invariant.{IsValid}
use stockflow_erp_mock.Memory.Repository.Preservation.{set_stock-IsValid}
use stockflow_erp_mock.App.FailureMode.Controller.{Allowed, set_lem}
use stockflow_erp_mock.Messaging.Amqp.{Bytes}
use stockflow_erp_mock.Http.Messages.{
  SetStockRequest, StockItemResponse, RequestCodec, stock_list_response, decode_json,
}
use stockflow_erp_mock.Http.Server.{
  Server, Call, get_health, get_ready, get_stock, get_reservations, get_reservation_by_id,
  post_stock, post_failure_mode, post_requeue, serve, handle_set_stock, handle_list_stock,
  handle_requeue_dead_letters, write_ok, handle_set_failure_mode, settings_of,
}

-- A `POST /stock` leaves room for the reserved units.
abbrev pub LeavesRoom : RequestCodec → Call → Repository → Type 0
LeavesRoom codec (post_stock ctx_err bytes) r =
    (request : SetStockRequest)
    → decode_json (codec.set_stock_request bytes) ≡ ok request
    → pos_part request.available_quantity
        + pos_part (reserved_of (lookup (trim_space request.sku) r.stock))
      ≤ max_int
LeavesRoom codec _ r = Unit

-- What a call leaves, after a server `s`.
pub record IsServed (s s' : Server) : Type 0 where
  pub valid : IsValid s'.repository
  pub allowed : Allowed s'.settings
  pub same_reservations : s'.repository.reservations ≡ s.repository.reservations

module _ (codec : RequestCodec) (s : Server) (v : IsValid s.repository)
    (a : Allowed s.settings) where
  unchanged : IsServed s s
  unchanged = record { valid = v; allowed = a; same_reservations = refl }

  same_reservations-set_stock :
      (ctx_err : CtxErr) (sku : Text) (q : ℤ) {r : Repository} {i : StockItem}
      → set_stock ctx_err sku q s.repository ≡ ok (r, i)
      → r.reservations ≡ s.repository.reservations
  same_reservations-set_stock ctx_err sku q h =
      let (_, _, _, _, _, e) = set_stock-eq_ok_parts ctx_err sku q s.repository h in
      ap (λ (x : Repository). x.reservations) e

  requeue-IsServed :
      (iterations : ℕ → Iteration) (bytes : Bytes)
      → IsServed s (handle_requeue_dead_letters codec iterations bytes s).0
  unfolding handle_requeue_dead_letters
  requeue-IsServed iterations bytes =
      elim (Result-cases (decode_json (codec.requeue_dead_letters_request bytes))) [
        | inr (e, h) ↦ rw h unchanged
        | inl (request, h) ↦
            elim (Option-cases
              (requeue_dead_letters request.queue request.limit iterations s.log).1) [
                | inl f ↦ rw (h, f) (record { valid = v; allowed = a; same_reservations = refl })
                | inr (e, f) ↦
                    rw (h, f) (record { valid = v; allowed = a; same_reservations = refl })
              ]
      ]

  set_stock-IsServed :
      (ctx_err : CtxErr) (bytes : Bytes)
      → LeavesRoom codec (post_stock ctx_err bytes) s.repository
      → IsServed s (handle_set_stock codec ctx_err bytes s).0
  unfolding handle_set_stock
  set_stock-IsServed ctx_err bytes room =
      elim (Result-cases (decode_json (codec.set_stock_request bytes))) [
        | inr (e, h) ↦ rw h unchanged
        | inl (request, h) ↦
            elim (Result-cases
              (set_stock ctx_err request.sku request.available_quantity s.repository)) [
                | inr (e, f) ↦ rw (h, f) unchanged
                | inl ((r, i), f) ↦
                    rw (h, f)
                      (record {
                        valid =
                            set_stock-IsValid ctx_err request.sku request.available_quantity
                              s.repository v (room request h) f;
                        allowed = a;
                        same_reservations =
                            same_reservations-set_stock ctx_err request.sku
                              request.available_quantity f;
                      })
              ]
      ]

  set_failure_mode-IsServed : (bytes : Bytes) → IsServed s (handle_set_failure_mode codec bytes s).0
  unfolding handle_set_failure_mode
  set_failure_mode-IsServed bytes =
      elim (Result-cases (decode_json (codec.failure_mode_request bytes))) [
        | inr (e, h) ↦ rw h unchanged
        | inl (request, h) ↦ elim (set_lem (settings_of request) s.settings) [
          | inl (held, allowed) ↦
              rw (h, held) (record { valid = v; allowed = allowed; same_reservations = refl })
          | inr (e, held, _) ↦ rw (h, held) unchanged
        ]
      ]

  -- Every call of the HTTP interface leaves a valid repository with the reservations that it had, and
  -- settings that the controller allows, where a `POST /stock` leaves room for the reserved units.
  pub serve-IsServed :
      (call : Call) → LeavesRoom codec call s.repository → IsServed s (serve codec call s).0
  unfolding serve
  serve-IsServed get_health room = unchanged
  serve-IsServed get_ready room = unchanged
  serve-IsServed (get_stock ctx_err) room = unchanged
  serve-IsServed (get_reservations ctx_err) room = unchanged
  serve-IsServed (get_reservation_by_id ctx_err id) room = unchanged
  serve-IsServed (post_stock ctx_err bytes) room = set_stock-IsServed ctx_err bytes room
  serve-IsServed (post_failure_mode bytes) room = set_failure_mode-IsServed bytes
  serve-IsServed (post_requeue iterations bytes) room = requeue-IsServed iterations bytes

-- An item as the list shows it.
abbrev pub as_listed : StockItem → StockItemResponse
as_listed item = record {
  sku = item.sku;
  available_quantity = item.available_quantity;
  reserved_quantity = item.reserved_quantity;
}

-- What `POST /stock` sets, `GET /stock` lists: after a `SetStock` of a valid repository has succeeded
-- and left room for the reserved units, the answer of a `GET /stock` without an error of the
-- context shows the SKU, the available and the reserved quantity of each item, in ascending order of
-- the SKUs: the item that was set with the quantity that was set and the units that were reserved,
-- and all others as they were.
pub listed-set_stock :
    (ctx_err : CtxErr) (sku : Text) (q : ℤ) (s : Server) {r : Repository} {i : StockItem}
    → IsValid s.repository
    → pos_part q + pos_part (reserved_of (lookup (trim_space sku) s.repository.stock)) ≤ max_int
    → set_stock ctx_err sku q s.repository ≡ ok (r, i)
    → (items : List StockItem) × (handle_list_stock none (record s { repository = r })
        ≡ (record s { repository = r }, write_ok (stock_list_response (map as_listed items))))
      × IsAscending sku_of items
      × (lookup (trim_space sku) (index sku_of items) ≡ some i)
      × (i.available_quantity ≡ q)
      × (i.reserved_quantity ≡ reserved_of (lookup (trim_space sku) s.repository.stock))
      × ((k : Text)
          → trim_space sku ≢ k
          → lookup k (index sku_of items) ≡ lookup k s.repository.stock)
unfolding handle_list_stock
listed-set_stock ctx_err sku q s {r} {i} v room h =
    let (own, exact, reserved, _, _, e) = set_stock-eq_ok_parts ctx_err sku q s.repository h in
    let (items, all, listed, _, lists) =
      lists_lem r (set_stock-IsValid ctx_err sku q s.repository v room h) in
    let stock : r.stock ≡ insert (trim_space sku) i s.repository.stock =
      ap (λ (x : Repository). x.stock) e in
    (
      items,
      rw listed refl,
      lists.items_ascend,
      lists.items_agree (trim_space sku)
          ∙ rw stock (lookup-insert_self (trim_space sku) i s.repository.stock),
      exact,
      reserved,
      λ k other.
          lists.items_agree k
          ∙ rw stock (lookup-insert_ne (trim_space sku) k i s.repository.stock other),
    )
