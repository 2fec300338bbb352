-- ===== src/App/FailureSimulation/Confirmations.antt =====
-- The confirmations of the simulated handler.
use stockflow_erp_mock.Common.{◌≡◌, ok, Result}
use stockflow_erp_mock.Common.Text.{trim_space}
use stockflow_erp_mock.Common.Dict.{Dict}
use stockflow_erp_mock.App.Context.{Context}
use stockflow_erp_mock.App.Reservation.{
  ReservationRequest, ReservationResult, confirmed, HandlerState,
}
use stockflow_erp_mock.App.Reservation.Backing.{Agrees, Backed}
use stockflow_erp_mock.App.Reservation.Confirmations.{IsConsistent}
use stockflow_erp_mock.App.FailureMode.{Float64, FailureModeSettings}
use stockflow_erp_mock.App.FailureSimulation.{
  SimulationState, simulate, handle_simulated_reservation,
}
use stockflow_erp_mock.Inventory.Errors.{Error}
use mathlib.Core.Path.{subst, ap, sym, ◌∙◌}
use stockflow_erp_mock.Memory.Idempotency.Once.{execute-stores}
use stockflow_erp_mock.App.FailureSimulation.Caching.{simulated-eq_ok}
use stockflow_erp_mock.App.FailureSimulation.Backing.{
  IsSimulationConsistent, handle_simulated-IsSimulationConsistent,
}

-- In every failure mode, a request that is answered `confirmed`, at once or from a store, has its
-- reservation in the repository.
pub simulated-confirmed-Backed :
    (ctx : Context) (settings : FailureModeSettings) (random : Float64)
    (request : ReservationRequest) (entries : Dict ReservationResult) (s : HandlerState)
    {result : ReservationResult} {t : SimulationState}
    → IsConsistent s
    → Agrees entries s.1
    → handle_simulated_reservation ctx settings random request (entries, s) ≡ (ok result, t)
    → result.decision ≡ confirmed
    → Backed t.1.1 result
simulated-confirmed-Backed ctx settings random request entries s {result} {t} c agrees h confirms =
    let (stored, hit, call, same, e) = simulated-eq_ok ctx settings random request entries s h in
    let (_, found) =
      execute-stores ctx.simulation_store request.metadata.idempotency_key
        (simulate ctx settings random request) entries s call in
    let after : IsSimulationConsistent s.1 t =
      subst (IsSimulationConsistent s.1)
        (ap (λ (o : Result Error ReservationResult × SimulationState). o.1) h)
        (handle_simulated-IsSimulationConsistent ctx settings random request entries s c agrees) in
    let (x, at_id, later, sku, quantity) =
      after.outer (trim_space request.metadata.idempotency_key) stored found
        (sym (ap (λ (o : ReservationResult). o.decision) e) ∙ confirms) in
    rw e (x, at_id, later, sku, quantity)
