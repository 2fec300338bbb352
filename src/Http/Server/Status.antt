-- ===== src/Http/Server/Status.antt =====
-- What the handlers of internal/http/server.go answer.
use mathlib.Core.Bool.{decide}
use stockflow_erp_mock.Common.{
  ℕ, ◌≤◌, ◌<◌, ◌≡◌, ◌↔◌, refl, ap, Bool, true, false, Option, none, some, is_empty, ok, err, arith,
  ◌⊎◌, inl, inr, Bool-cases, Result-cases,
}
use stockflow_erp_mock.Common.Int.{pos, neg_part, ltb_ℤ, wrap_int, scale_int, quot_int}
use stockflow_erp_mock.Common.Text.{trim_space, trim_space_idem}
use stockflow_erp_mock.Inventory.Errors.{Error, wraps, invalid_argument, stock_invariant_violation}
use stockflow_erp_mock.Inventory.Model.{new_stock_item}
use stockflow_erp_mock.Memory.Repository.{set_stock}
use stockflow_erp_mock.App.FailureMode.Controller.{Allowed, set_lem}
use stockflow_erp_mock.Messaging.Amqp.{Bytes}
use stockflow_erp_mock.Http.Messages.{
  SetStockRequest, FailureModeMessage, RequestCodec, Body, error_response, failure_mode_response,
  Response, decode_json,
}
use stockflow_erp_mock.Http.Server.{
  Server, write_error, write_ok, new_failure_mode_response, settings_of, handle_set_stock,
  handle_set_failure_mode,
}

abbrev pub refused : ℕ → Body → Response
refused status body = record { status = status; body = body }

invalid_status :
    write_error (wraps invalid_argument) ≡ refused 400 (error_response "invalid_argument")
unfolding write_error decide
invalid_status = refl

violation_status :
    write_error (wraps stock_invariant_violation) ≡ refused 500 (error_response "internal_error")
unfolding write_error decide
violation_status = refl

decode_json-err {ℓ} :
    {A : Type ℓ} (o : Option (A × Bool)) {e : Error}
    → decode_json o ≡ err e
    → e ≡ wraps invalid_argument
unfolding decode_json
decode_json-err none h = ground arith
decode_json-err (some (a, true)) h = ground arith
decode_json-err (some (a, false)) h = ground arith

-- Without an error of the context, `POST /stock` answers 200 exactly where the body holds one request
-- with a SKU that is not blank and a quantity that is not negative. A negative quantity for a SKU is
-- answered as an internal error, and all else as an invalid argument.
pub set_stock_status :
    (codec : RequestCodec) (bytes : Bytes) (s : Server)
    → ((e : Error) × (decode_json (codec.set_stock_request bytes) ≡ err e)
        × ((handle_set_stock codec none bytes s).1.status ≡ 400))
      ⊎ ((request : SetStockRequest) × (decode_json (codec.set_stock_request bytes) ≡ ok request)
          × (((is_empty (trim_space request.sku) ≡ true)
                × ((handle_set_stock codec none bytes s).1.status ≡ 400))
              ⊎ (((is_empty (trim_space request.sku) ≡ false)
                    × (0 < neg_part request.available_quantity)
                    × ((handle_set_stock codec none bytes s).1.status ≡ 500))
                  ⊎ ((is_empty (trim_space request.sku) ≡ false)
                      × (neg_part request.available_quantity ≡ 0)
                      × ((handle_set_stock codec none bytes s).1.status ≡ 200)))))
unfolding handle_set_stock set_stock new_stock_item
set_stock_status codec bytes s = elim (Result-cases (decode_json (codec.set_stock_request bytes))) [
  | inr (e, h) ↦
      inl (e, h, rw (h, decode_json-err (codec.set_stock_request bytes) h, invalid_status) refl)
  | inl (request, h) ↦
      let key = trim_space request.sku in
      inr (
        request,
        h,
        elim (Bool-cases (is_empty key)) [
          | inl blank ↦ inl (blank, rw (h, trim_space_idem, blank, invalid_status) refl)
          | inr named ↦ elim (Bool-cases (ltb_ℤ request.available_quantity (pos 0))) [
            | inl e ↦ inr (
                inl (
                  named,
                  ground (arith, e),
                  rw (h, trim_space_idem, named, e, violation_status) refl,
                ))
            | inr e ↦ inr (inr (named, ground (arith, e), rw (h, trim_space_idem, named, e) refl))
          ]
        ],
      )
]

delay_is_echoed :
    (n : ℕ) → ((quot_int (scale_int (pos n) 1000000) 1000000 ≡ pos n) ↔ (n ≤ 9223372036854))
unfolding quot_int scale_int wrap_int
delay_is_echoed n = ground arith

echoes :
    (request : FailureModeMessage) (n : ℕ)
    → request.processing_delay_ms ≡ pos n
    → (new_failure_mode_response (settings_of request) ≡ request) ↔ (n ≤ 9223372036854)
unfolding new_failure_mode_response settings_of
echoes request n delay = (
  λ same.
      (delay_is_echoed n).0
        (rw delay at (ap (λ (m : FailureModeMessage). m.processing_delay_ms) same)),
  λ small. let exact = (delay_is_echoed n).1 small in ground (arith, exact, delay),
)

-- A request for a failure mode that the controller allows, with a delay that is not negative, is
-- answered with 200 and held. What is echoed is the request exactly if its delay is at most
-- 9223372036854 milliseconds.
pub set_failure_mode_answers :
    (codec : RequestCodec) (bytes : Bytes) (s : Server) (request : FailureModeMessage) (n : ℕ)
    → decode_json (codec.failure_mode_request bytes) ≡ ok request
    → request.processing_delay_ms ≡ pos n
    → Allowed (settings_of request)
    → (echo : FailureModeMessage) × (handle_set_failure_mode codec bytes s
        ≡ (record s { settings = settings_of request }, write_ok (failure_mode_response echo)))
      × ((echo ≡ request) ↔ (n ≤ 9223372036854))
unfolding handle_set_failure_mode
set_failure_mode_answers codec bytes s request n h delay allowed =
    elim (set_lem (settings_of request) s.settings) [
      | inr (e, _, refuses) ↦ absurd (refuses allowed)
      | inl (held, _) ↦ (
        new_failure_mode_response (settings_of request),
        rw (h, held) refl,
        echoes request n delay,
      )
    ]

-- A request for any other failure mode is answered with 400, and what is held stays.
pub set_failure_mode_refuses :
    (codec : RequestCodec) (bytes : Bytes) (s : Server) (request : FailureModeMessage)
    → decode_json (codec.failure_mode_request bytes) ≡ ok request
    → ¬ Allowed (settings_of request)
    → handle_set_failure_mode codec bytes s ≡ (s, refused 400 (error_response "invalid_argument"))
unfolding handle_set_failure_mode
set_failure_mode_refuses codec bytes s request h refused_one =
    elim (set_lem (settings_of request) s.settings) [
      | inl (_, allowed) ↦ absurd (refused_one allowed)
      | inr (e, held, _) ↦ rw (h, held, invalid_status) refl
    ]
