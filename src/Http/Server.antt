-- ===== src/Http/Server.antt =====
-- internal/http/server.go: the routes of `New` and their handlers.
pub mod Status
pub mod Effects
pub mod Lifecycle
use stockflow_erp_mock.Common.{
  ℕ, Bool, true, false, Option, none, some, String, List, [], map, Result, ok, err, ◌>>=◌, ◌||◌,
  if◌then◌else◌,
}
use stockflow_erp_mock.Common.Int.{ℤ, scale_int, quot_int}
use stockflow_erp_mock.Common.Text.{Text}
use stockflow_erp_mock.Inventory.Errors.{
  Error, wraps, is, invalid_argument, invalid_dead_letter_queue, invalid_requeue_limit,
  stock_item_not_found, reservation_not_found, reservation_already_exists,
}
use stockflow_erp_mock.Inventory.Model.{StockItem, Reservation}
use stockflow_erp_mock.Memory.Repository.{Repository, CtxErr, set_stock, get_reservation}
use stockflow_erp_mock.Memory.Repository.Listing.{list_stock, list_reservations}
use stockflow_erp_mock.App.FailureMode
use stockflow_erp_mock.App.FailureMode.{FailureModeSettings}
use stockflow_erp_mock.Messaging.Amqp.{Bytes}
use stockflow_erp_mock.Messaging.Publisher.{Effect}
use stockflow_erp_mock.Messaging.Admin.{Iteration, requeue_dead_letters}
use stockflow_erp_mock.Http.Messages.{
  StockItemResponse, ReservationResponse, FailureModeMessage, RequeueDeadLettersRequest,
  RequestCodec, Body, status_response, stock_item_response, stock_list_response,
  reservation_response, reservation_list_response, failure_mode_response,
  requeue_dead_letters_response, error_response, Response, decode_json,
}

-- What the handlers share: the repository, the failure modes, the flag `ready`, and the log of what
-- the dead-letter administration does to the broker.
pub record Server : Type 0 where
  pub repository : Repository
  pub settings : FailureModeSettings
  pub ready : Bool
  pub log : List Effect

-- `New` over a repository and a controller; the flag is false until `SetReady`.
abbrev pub new_server : Repository → FailureModeSettings → Server
new_server repository settings = record {
  repository = repository;
  settings = settings;
  ready = false;
  log = [];
}

abbrev pub set_ready : Bool → Server → Server
set_ready ready s = record s { ready = ready }

-- `writeError`: the status and the code.
unfoldable pub write_error : Error → Response
write_error e =
    if is e invalid_argument || (is e invalid_dead_letter_queue || is e invalid_requeue_limit)
    then record { status = 400; body = error_response "invalid_argument" }
    else if is e stock_item_not_found || is e reservation_not_found
    then record { status = 404; body = error_response "not_found" }
    else if is e reservation_already_exists
    then record { status = 409; body = error_response "conflict" }
    else record { status = 500; body = error_response "internal_error" }

abbrev pub write_ok : Body → Response
write_ok body = record { status = 200; body = body }

abbrev pub new_stock_item_response : StockItem → StockItemResponse
new_stock_item_response i = record {
  sku = i.sku;
  available_quantity = i.available_quantity;
  reserved_quantity = i.reserved_quantity;
}

abbrev pub new_reservation_response : Reservation → ReservationResponse
new_reservation_response x = record {
  id = x.id;
  sku = x.sku;
  quantity = x.quantity;
  status = x.status;
  created_at = x.created_at;
  released_at = x.released_at;
}

-- A duration in nanoseconds is answered in milliseconds.
unfoldable pub new_failure_mode_response : FailureModeSettings → FailureModeMessage
new_failure_mode_response settings = record {
  mode = settings.mode;
  random_reject_probability = settings.random_reject_probability;
  processing_delay_ms = quot_int settings.processing_delay 1000000;
}

-- The settings that a request asks for.
unfoldable pub settings_of : FailureModeMessage → FailureModeSettings
settings_of request = record {
  mode = request.mode;
  random_reject_probability = request.random_reject_probability;
  processing_delay = scale_int request.processing_delay_ms 1000000;
}

-- A handler, and the server that it leaves.
abbrev pub Handler : Type 0
Handler = Server → Server × Response

-- A handler that only reads answers with the body, or with the error.
abbrev pub answer {ℓ} : {A : Type ℓ} → (A → Body) → Result Error A → Response
answer body (ok a) = write_ok (body a)
answer body (err e) = write_error e

unfoldable pub handle_health : Handler
handle_health s = (s, write_ok (status_response "ok"))

unfoldable pub handle_ready : Handler
handle_ready s = (
  s,
  if s.ready
      then write_ok (status_response "ready")
      else record { status = 503; body = status_response "not_ready" },
)

unfoldable pub handle_list_stock : CtxErr → Handler
handle_list_stock ctx_err s = (
  s,
  answer (λ items. stock_list_response (map new_stock_item_response items))
      (list_stock ctx_err s.repository),
)

unfoldable pub handle_list_reservations : CtxErr → Handler
handle_list_reservations ctx_err s = (
  s,
  answer (λ all. reservation_list_response (map new_reservation_response all))
      (list_reservations ctx_err s.repository),
)

unfoldable pub handle_get_reservation : CtxErr → Text → Handler
handle_get_reservation ctx_err id s = (
  s,
  answer (λ x. reservation_response (new_reservation_response x))
      (get_reservation ctx_err id s.repository),
)

after_set_stock : Result Error (Repository × StockItem) → Handler
after_set_stock (err e) s = (s, write_error e)
after_set_stock (ok (r, item)) s =
    (record s { repository = r }, write_ok (stock_item_response (new_stock_item_response item)))

after_set : FailureModeSettings → FailureModeSettings × Option Error → Handler
after_set settings (held, some e) s =
    (record s { settings = held }, write_error (wraps invalid_argument))
after_set settings (held, none) s = (
  record s { settings = held },
  write_ok (failure_mode_response (new_failure_mode_response settings)),
)

after_requeue : ℕ × Option Error × List Effect → Handler
after_requeue (requeued, some e, log) s = (record s { log = log }, write_error e)
after_requeue (requeued, none, log) s =
    (record s { log = log }, write_ok (requeue_dead_letters_response requeued))

set_decoded : Result Error FailureModeMessage → Handler
unfolding after_set
set_decoded (err e) s = (s, write_error e)
set_decoded (ok request) s =
    after_set (settings_of request) (FailureMode.set (settings_of request) s.settings) s

requeue_decoded : (ℕ → Iteration) → Result Error RequeueDeadLettersRequest → Handler
unfolding after_requeue
requeue_decoded iterations (err e) s = (s, write_error e)
requeue_decoded iterations (ok request) s =
    after_requeue (requeue_dead_letters request.queue request.limit iterations s.log) s

-- The patterns of the mux, but for `GET /metrics`, which is the Prometheus client's.
pub data Call : Type 0 where
  get_health get_ready : Call
  get_stock get_reservations : CtxErr → Call
  get_reservation_by_id : CtxErr → Text → Call
  post_stock : CtxErr → Bytes → Call
  post_failure_mode : Bytes → Call
  post_requeue : (ℕ → Iteration) → Bytes → Call

module _ (codec : RequestCodec) where
  unfoldable pub handle_set_stock : CtxErr → Bytes → Handler
  unfolding after_set_stock
  handle_set_stock ctx_err bytes s =
      after_set_stock
        (do
          request ← decode_json (codec.set_stock_request bytes)
          set_stock ctx_err request.sku request.available_quantity s.repository)
        s

  unfoldable pub handle_set_failure_mode : Bytes → Handler
  unfolding set_decoded
  handle_set_failure_mode bytes s = set_decoded (decode_json (codec.failure_mode_request bytes)) s

  unfoldable pub handle_requeue_dead_letters : (ℕ → Iteration) → Bytes → Handler
  unfolding requeue_decoded
  handle_requeue_dead_letters iterations bytes s =
      requeue_decoded iterations (decode_json (codec.requeue_dead_letters_request bytes)) s

  unfoldable pub serve : Call → Handler
  unfolding handle_health handle_ready handle_list_stock handle_list_reservations
      handle_get_reservation handle_set_stock handle_set_failure_mode handle_requeue_dead_letters
  serve get_health = handle_health
  serve get_ready = handle_ready
  serve (get_stock ctx_err) = handle_list_stock ctx_err
  serve (get_reservations ctx_err) = handle_list_reservations ctx_err
  serve (get_reservation_by_id ctx_err id) = handle_get_reservation ctx_err id
  serve (post_stock ctx_err bytes) = handle_set_stock ctx_err bytes
  serve (post_failure_mode bytes) = handle_set_failure_mode bytes
  serve (post_requeue iterations bytes) = handle_requeue_dead_letters iterations bytes
