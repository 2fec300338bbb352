-- ===== src/App/FailureSimulation.antt =====
-- internal/app/failure_simulation.go. The settings that `Get` returned and the number that
-- `rand.Float64` returns are arguments; the simulated delay ends by the timer or by the context.
pub mod Caching
pub mod Backing
pub mod Confirmations
use stockflow_erp_mock.Common.{
  Bool, true, false, not, ◌&&◌, ◌||◌, none, some, Result, ok, err, if◌then◌else◌,
}
use stockflow_erp_mock.Common.Int.{ltb_ℤ}
use stockflow_erp_mock.Common.Dict.{Dict}
use stockflow_erp_mock.Inventory.Errors.{Error, wraps, idempotency_conflict}
use stockflow_erp_mock.Memory.Repository.{CtxErr, check_ctx}
use stockflow_erp_mock.Memory.Idempotency.{Action, execute}
use stockflow_erp_mock.App.Context.{Context}
use stockflow_erp_mock.App.Reservation.{
  ReservationRequest, ReservationResult, HandlerState, handle_reservation_requested,
  rejected_result, reason_failure_mode, same_reservation_request,
}
use stockflow_erp_mock.App.Release.{
  ReservationReleaseRequest, ReservationReleaseResult, ReleaseState,
  handle_reservation_release_requested,
}
use stockflow_erp_mock.App.FailureMode.{
  Float64, FailureMode, always_reject, random_reject, processing_delay, FailureModeSettings,
}

reject_in : FailureMode → FailureModeSettings → Float64 → Bool
reject_in always_reject settings random = true
reject_in random_reject settings random = ltb_ℤ random settings.random_reject_probability
reject_in _ settings random = false

unfoldable pub should_reject : FailureModeSettings → Float64 → Bool
unfolding reject_in
should_reject settings random = reject_in settings.mode settings random

wait_in : FailureMode → CtxErr → Result Error (Unit {0})
wait_in processing_delay ctx_err = check_ctx ctx_err
wait_in _ ctx_err = ok tt

unfoldable pub wait_for_processing_delay : CtxErr → FailureModeSettings → Result Error (Unit {0})
unfolding wait_in
wait_for_processing_delay ctx_err settings = wait_in settings.mode ctx_err

-- The operation that the outer store runs.
unfoldable pub simulate :
    Context
    → FailureModeSettings
    → Float64
    → ReservationRequest
    → Action HandlerState ReservationResult
unfolding should_reject
simulate ctx settings random request s =
    if should_reject settings random
    then (ok (rejected_result request reason_failure_mode), s)
    else handle_reservation_requested ctx request s

abbrev pub finish_simulation :
    ReservationRequest → Result Error (ReservationResult × Bool) → Result Error ReservationResult
finish_simulation request (err e) = err e
finish_simulation request (ok (result, hit)) =
    if hit && not (same_reservation_request result.request request)
    then err (wraps idempotency_conflict)
    else ok (record result {
      idempotency_hit = result.idempotency_hit || hit;
      request = record result.request { metadata = request.metadata };
    })

-- The outer store, and the state of the handler inside.
abbrev pub SimulationState : Type 0
SimulationState = Dict ReservationResult × HandlerState

after_wait :
    Result Error (Unit {0})
    → Context
    → FailureModeSettings
    → Float64
    → ReservationRequest
    → Action SimulationState ReservationResult
after_wait (err e) ctx settings random request s = (err e, s)
after_wait (ok _) ctx settings random request (entries, s) =
    let (outcome, entries', s') =
      execute ctx.simulation_store request.metadata.idempotency_key
        (simulate ctx settings random request) entries s in
    (finish_simulation request outcome, (entries', s'))

-- `FailureSimulationReservationHandler.HandleReservationRequested`
unfoldable pub handle_simulated_reservation :
    Context
    → FailureModeSettings
    → Float64
    → ReservationRequest
    → Action SimulationState ReservationResult
unfolding wait_for_processing_delay after_wait
handle_simulated_reservation ctx settings random request s =
    after_wait (wait_for_processing_delay ctx.wait settings) ctx settings random request s

release_after_wait :
    Result Error (Unit {0})
    → Context
    → ReservationReleaseRequest
    → Action ReleaseState ReservationReleaseResult
release_after_wait (err e) ctx request s = (err e, s)
release_after_wait (ok _) ctx request s = handle_reservation_release_requested ctx request s

-- `FailureSimulationReservationReleaseHandler.HandleReservationReleaseRequested`
unfoldable pub handle_simulated_release :
    Context
    → FailureModeSettings
    → ReservationReleaseRequest
    → Action ReleaseState ReservationReleaseResult
unfolding wait_for_processing_delay release_after_wait
handle_simulated_release ctx settings request s =
    release_after_wait (wait_for_processing_delay ctx.wait settings) ctx request s
