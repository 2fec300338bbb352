-- ===== src/App/FailureSimulation/Caching.antt =====
-- The failure simulation answers a request once and for all, whatever the mode is set to later.
use stockflow_erp_mock.Common.{
  ◌≡◌, Bool, true, ◌||◌, none, ok, arith, Result-cases, Bool-cases, inl, inr,
}
use stockflow_erp_mock.Common.Text.{Text, trim_space}
use stockflow_erp_mock.Common.Dict.{Dict}
use stockflow_erp_mock.Memory.Idempotency.{Action, execute}
use stockflow_erp_mock.Memory.Idempotency.Once.{execute_hit, execute-stores, execute-eq_ok}
use stockflow_erp_mock.App.Context.{Context}
use stockflow_erp_mock.App.Reservation.{
  ReservationRequest, ReservationResult, HandlerState, handle_reservation_requested,
}
use stockflow_erp_mock.App.Reservation.Delivery.{
  SamePayload, SamePayload-trans, same_reservation_request→SamePayload,
  SamePayload→same_reservation_request, handle-eq_ok,
}
use stockflow_erp_mock.App.FailureMode.{Float64, FailureModeSettings}
use stockflow_erp_mock.App.FailureSimulation.{simulate, should_reject, handle_simulated_reservation}

-- What is returned for a stored result.
abbrev pub simulated_answer : ReservationRequest → ReservationResult → Bool → ReservationResult
simulated_answer request stored hit = record stored {
  idempotency_hit = stored.idempotency_hit || hit;
  request = record stored.request { metadata = request.metadata };
}

simulate-SamePayload :
    (ctx : Context) (settings : FailureModeSettings) (random : Float64)
    (request : ReservationRequest) (s : HandlerState) (result : ReservationResult)
    → (simulate ctx settings random request s).0 ≡ ok result
    → SamePayload result.request request
unfolding simulate
simulate-SamePayload ctx settings random request (entries, r) result h =
    elim (Bool-cases (should_reject settings random)) [
      | inl e ↦ ground arith
      | inr e ↦
          let s' : HandlerState = (handle_reservation_requested ctx request (entries, r)).1 in
          let call : handle_reservation_requested ctx request (entries, r) ≡ (ok result, s') =
            ground arith in
          let (stored, hit, _, same, is_answer) = handle-eq_ok ctx request entries r call in
          ground (arith, is_answer, same.reservation_id, same.order_id, same.sku, same.quantity)
    ]

-- An answered request has a result for its payload in the outer store.
pub simulated-eq_ok :
    (ctx : Context) (settings : FailureModeSettings) (random : Float64)
    (request : ReservationRequest) (entries : Dict ReservationResult) (s : HandlerState)
    {result : ReservationResult} {entries' : Dict ReservationResult} {s' : HandlerState}
    → handle_simulated_reservation ctx settings random request (entries, s)
      ≡ (ok result, (entries', s'))
    → (stored : ReservationResult) × (hit : Bool) × (execute ctx.simulation_store
          request.metadata.idempotency_key
          (simulate ctx settings random request)
          entries
          s
        ≡ (ok (stored, hit), entries', s'))
      × SamePayload stored.request request
      × (result ≡ simulated_answer request stored hit)
unfolding handle_simulated_reservation
simulated-eq_ok ctx settings random request entries s {result} {entries'} {s'} h =
    let key : Text = request.metadata.idempotency_key in
    let operation : Action HandlerState ReservationResult = simulate ctx settings random request in
    elim (Result-cases (execute ctx.simulation_store key operation entries s).0) [
      | inr (x, e) ↦ absurd (ground arith)
      | inl ((stored, hit), e) ↦
          let call : execute ctx.simulation_store key operation entries s
              ≡ (ok (stored, hit), entries', s') =
            ground arith in
          let same : SamePayload stored.request request =
            elim (execute-eq_ok ctx.simulation_store key operation entries s call) [
              | inl (is_hit, _, _, _) ↦
                  same_reservation_request→SamePayload stored.request request (ground arith)
              | inr (_, _, made, _, _) ↦
                  simulate-SamePayload ctx settings random request s stored made
            ] in
          (stored, hit, call, same, ground arith)
    ]

-- A request that was answered keeps its answer, in every failure mode that is set later and with
-- every random number: a redelivery without an error of the context returns the first decision as a
-- hit, and changes nothing. So
-- a simulated rejection stays one when the mode is normal again, and a confirmation is not taken
-- back by `always_reject`.
pub simulated_redelivery :
    (ctx again : Context) (settings settings' : FailureModeSettings) (random random' : Float64)
    (request request' : ReservationRequest) (entries : Dict ReservationResult) (s : HandlerState)
    {result : ReservationResult} {entries' : Dict ReservationResult} {s' : HandlerState}
    → handle_simulated_reservation ctx settings random request (entries, s)
      ≡ (ok result, (entries', s'))
    → SamePayload request request'
    → trim_space request'.metadata.idempotency_key ≡ trim_space request.metadata.idempotency_key
    → again.wait ≡ none
    → again.simulation_store ≡ none
    → (result' : ReservationResult) × (handle_simulated_reservation again settings' random' request'
          (entries', s')
        ≡ (ok result', (entries', s')))
      × (result'.decision ≡ result.decision)
      × (result'.reservation ≡ result.reservation)
      × (result'.rejection_reason ≡ result.rejection_reason)
      × (result'.idempotency_hit ≡ true)
unfolding handle_simulated_reservation
simulated_redelivery ctx again settings settings' random random' request request' entries s {result}
      {entries'} {s'} h same key idle_wait idle =
    let (stored, hit, call, own, e) = simulated-eq_ok ctx settings random request entries s h in
    let (named, found) =
      execute-stores ctx.simulation_store request.metadata.idempotency_key
        (simulate ctx settings random request) entries s call in
    let answered =
      execute_hit request'.metadata.idempotency_key (simulate again settings' random' request')
        entries' s' stored (rw key named) (rw key found) in
    let payload =
      SamePayload→same_reservation_request stored.request request'
        (SamePayload-trans stored.request request request' own same) in
    (
      simulated_answer request' stored true,
      ground (arith, idle, idle_wait, answered, payload),
      ground (arith, e),
      ground (arith, e),
      ground (arith, e),
      ground arith,
    )
