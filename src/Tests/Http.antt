-- ===== src/Tests/Http.antt =====
-- The HTTP handlers over the small stock.
use stockflow_erp_mock.Common.{
  ◌≡◌, ◌≢◌, ◌≤◌, ◌<◌, ◌↔◌, ◌⊎◌, refl, true, false, some, none, is_empty, List, map, ok, err, [],
  arith, ◌+◌, ◌∷◌, sym,
}
use stockflow_erp_mock.Common.Int.{pos, neg_part, pos_part, wrap_int, max_int, scale_int}
use stockflow_erp_mock.Common.Text.{
  Text, text, text_eq, trim_space, trim_left, trim_right, is_space,
}
use stockflow_erp_mock.Common.Dict.{lookup, insert}
use stockflow_erp_mock.Common.Sort.{index, IsAscending}
use stockflow_erp_mock.Inventory.Errors.{Error}
use stockflow_erp_mock.Inventory.Model.{StockItem, Reservation, active, released, new_stock_item}
use stockflow_erp_mock.Memory.Repository.{Repository, reserved_of, set_stock, release}
use stockflow_erp_mock.Memory.Repository.Listing.{sku_of}
use stockflow_erp_mock.App.FailureMode.{initial_settings, processing_delay}
use stockflow_erp_mock.Http.Messages.{
  SetStockRequest, FailureModeMessage, RequestCodec, error_response, failure_mode_response,
  stock_list_response, decode_json,
}
use stockflow_erp_mock.Http.Server.{
  Server, new_server, write_ok, post_stock, serve, handle_get_reservation, handle_set_stock,
  handle_set_failure_mode, handle_list_stock, settings_of,
}
use stockflow_erp_mock.Http.Server.Status.{refused, set_stock_status, set_failure_mode_answers}
use stockflow_erp_mock.Http.Server.Effects.{IsServed, serve-IsServed, as_listed, listed-set_stock}
use stockflow_erp_mock.Http.Server.Lifecycle.{shown, reservation_is_shown}
use stockflow_erp_mock.Tests.Repository.{
  initial, initial-IsValid, holding, holding-reserve, holding-IsValid,
}

abbrev nine_mugs : SetStockRequest
nine_mugs = record { sku = text "mug "; available_quantity = pos 9 }

abbrev slow : FailureModeMessage
slow = record {
  mode = processing_delay;
  random_reject_probability = pos 0;
  processing_delay_ms = pos 250;
}

-- A decoder that knows one request of each kind.
abbrev codec : RequestCodec
codec = record {
  set_stock_request = λ bytes. some (nine_mugs, true);
  failure_mode_request = λ bytes. some (slow, true);
  requeue_dead_letters_request = λ bytes. none;
}

abbrev server : Server
server = new_server holding initial_settings

abbrev nine : StockItem
nine = record { sku = text "mug"; available_quantity = pos 9; reserved_quantity = pos 2 }

abbrev restocked : Repository
restocked = record holding { stock = (text "mug", nine) ∷ [] }

nine_fit :
    (request : SetStockRequest)
    → decode_json (codec.set_stock_request []) ≡ ok request
    → pos_part request.available_quantity
        + pos_part (reserved_of (lookup (trim_space request.sku) holding.stock))
      ≤ max_int
unfolding decode_json lookup text_eq trim_space trim_left trim_right is_space
nine_fit request e = let same : nine_mugs ≡ request = cc in rw (sym same) (omega arith)

abbrev fresh_server : Server
fresh_server = new_server initial initial_settings

reservation_is_shown_example :
    (handle_get_reservation none (text " r1") fresh_server
      ≡ (fresh_server, refused 404 (error_response "not_found")))
    × (handle_get_reservation none (text " r1") server ≡ (
      server,
      shown (record {
        id = trim_space (text "r1 ");
        sku = trim_space (text "mug");
        quantity = pos 2;
        status = active;
        created_at = 10;
        released_at = none;
      }),
    ))
    × (r'' : Repository) × (y : Reservation) × (release none 20 (text "r1 ") holding ≡ ok (r'', y))
    × (handle_get_reservation none (text " r1") (record fresh_server { repository = r'' }) ≡ (
      record fresh_server { repository = r'' },
      shown (record {
        id = trim_space (text "r1 ");
        sku = trim_space (text "mug");
        quantity = pos 2;
        status = released;
        created_at = 10;
        released_at = some 20;
      }),
    ))
unfolding trim_space trim_left trim_right is_space
reservation_is_shown_example =
    reservation_is_shown none 10 20 (text "r1 ") (text "mug") (pos 2) (text " r1") fresh_server
      initial-IsValid holding-reserve refl

set_stock_status_example :
    ((e : Error) × (decode_json (codec.set_stock_request []) ≡ err e)
      × ((handle_set_stock codec none [] server).1.status ≡ 400))
    ⊎ ((request : SetStockRequest) × (decode_json (codec.set_stock_request []) ≡ ok request)
        × (((is_empty (trim_space request.sku) ≡ true)
              × ((handle_set_stock codec none [] server).1.status ≡ 400))
            ⊎ (((is_empty (trim_space request.sku) ≡ false)
                  × (0 < neg_part request.available_quantity)
                  × ((handle_set_stock codec none [] server).1.status ≡ 500))
                ⊎ ((is_empty (trim_space request.sku) ≡ false)
                    × (neg_part request.available_quantity ≡ 0)
                    × ((handle_set_stock codec none [] server).1.status ≡ 200)))))
set_stock_status_example = set_stock_status codec [] server

set_failure_mode_answers_example :
    (echo : FailureModeMessage) × (handle_set_failure_mode codec [] server
      ≡ (record server { settings = settings_of slow }, write_ok (failure_mode_response echo)))
    × ((echo ≡ slow) ↔ (250 ≤ 9223372036854))
unfolding decode_json settings_of scale_int wrap_int
set_failure_mode_answers_example =
    set_failure_mode_answers codec [] server slow 250 refl refl (omega arith)

serve-IsServed_example : IsServed server (serve codec (post_stock none []) server).0
unfolding decode_json lookup text_eq trim_space trim_left trim_right is_space
serve-IsServed_example =
    serve-IsServed codec server holding-IsValid tt (post_stock none []) nine_fit

listed-set_stock_example :
    (items : List StockItem) × (handle_list_stock none (record server { repository = restocked })
      ≡ (
        record server { repository = restocked },
        write_ok (stock_list_response (map as_listed items)),
      ))
    × IsAscending sku_of items
    × (lookup (trim_space (text "mug ")) (index sku_of items) ≡ some nine)
    × (pos 9 ≡ pos 9)
    × (pos 2 ≡ reserved_of (lookup (trim_space (text "mug ")) holding.stock))
    × ((k : Text)
        → trim_space (text "mug ") ≢ k
        → lookup k (index sku_of items) ≡ lookup k holding.stock)
unfolding set_stock new_stock_item lookup insert text_eq trim_space trim_left trim_right is_space
listed-set_stock_example =
    listed-set_stock none (text "mug ") (pos 9) server holding-IsValid (omega arith) refl
