-- ===== src/App/FailureSimulation/Backing.antt =====
-- The failure simulation keeps what the handler inside keeps.
use stockflow_erp_mock.Common.{◌≡◌, ok, arith, Result-cases, Bool-cases, inl, inr}
use stockflow_erp_mock.Common.Text.{trim_space}
use stockflow_erp_mock.Common.Dict.{Dict}
use stockflow_erp_mock.Memory.Repository.{Repository}
use stockflow_erp_mock.Memory.Repository.Retention.{Grows, Grows-refl}
use stockflow_erp_mock.Memory.Idempotency.Once.{execute-keeps}
use stockflow_erp_mock.App.Context.{Context}
use stockflow_erp_mock.App.Reservation.{
  ReservationRequest, ReservationResult, confirmed, HandlerState, handle_reservation_requested,
}
use stockflow_erp_mock.App.Reservation.Backing.{Agrees, Backed, Grows-Agrees, insert-Agrees}
use stockflow_erp_mock.App.Reservation.Confirmations.{
  IsConsistent, handle-IsConsistent, handle-Grows, confirmed-Backed,
}
use stockflow_erp_mock.App.FailureMode.{Float64, FailureModeSettings}
use stockflow_erp_mock.App.FailureSimulation.{
  SimulationState, simulate, should_reject, wait_for_processing_delay, handle_simulated_reservation,
}

-- The inner state is consistent, the outer answers agree with its repository, and that has
-- forgotten no reservation of `before`.
pub record IsSimulationConsistent (before : Repository) (s : SimulationState) : Type 0 where
  pub inner : IsConsistent s.1
  pub outer : Agrees s.0 s.1.1
  pub grows : Grows before s.1.1

module _ (ctx : Context) (settings : FailureModeSettings) (random : Float64)
    (request : ReservationRequest) (entries : Dict ReservationResult) (s : HandlerState)
    (c : IsConsistent s) (agrees : Agrees entries s.1) where
  -- The operation keeps all three, before its result is stored.
  simulate_kept : IsSimulationConsistent s.1 (entries, (simulate ctx settings random request s).1)
  unfolding simulate
  simulate_kept = elim (Bool-cases (should_reject settings random)) [
    | inl e ↦ rw e (record { inner = c; outer = agrees; grows = Grows-refl s.1 })
    | inr e ↦
        let s' : HandlerState = (handle_reservation_requested ctx request s).1 in
        let grows : Grows s.1 s'.1 = handle-Grows ctx request s.0 s.1 in
        rw e (record {
          inner = handle-IsConsistent ctx request s c;
          outer = Grows-Agrees entries s.1 s'.1 grows agrees;
          grows = grows;
        })
  ]

  simulate-Backed :
      (result : ReservationResult)
      → (simulate ctx settings random request s).0 ≡ ok result
      → result.decision ≡ confirmed
      → Backed (simulate ctx settings random request s).1.1 result
  unfolding simulate
  simulate-Backed result made confirms = elim (Bool-cases (should_reject settings random)) [
    | inl e ↦ absurd (ground arith)
    | inr e ↦
        let s' : HandlerState = (handle_reservation_requested ctx request s).1 in
        let call : handle_reservation_requested ctx request s ≡ (ok result, s') = ground arith in
        rw e (confirmed-Backed ctx request s c call confirms)
  ]

-- In every failure mode the handler keeps the state consistent and forgets no reservation.
pub handle_simulated-IsSimulationConsistent :
    (ctx : Context) (settings : FailureModeSettings) (random : Float64)
    (request : ReservationRequest) (entries : Dict ReservationResult) (s : HandlerState)
    → IsConsistent s
    → Agrees entries s.1
    → IsSimulationConsistent s.1
        (handle_simulated_reservation ctx settings random request (entries, s)).1
unfolding handle_simulated_reservation
handle_simulated-IsSimulationConsistent ctx settings random request entries s c agrees =
    elim (Result-cases (wait_for_processing_delay ctx.wait settings)) [
      | inr (x, e) ↦ rw e (record { inner = c; outer = agrees; grows = Grows-refl s.1 })
      | inl (_, e) ↦ rw e (
          execute-keeps (λ o p. IsSimulationConsistent s.1 (o, p)) ctx.simulation_store
            request.metadata.idempotency_key (simulate ctx settings random request) entries s
            (record { inner = c; outer = agrees; grows = Grows-refl s.1 })
            (λ x _. simulate_kept ctx settings random request entries s c agrees)
            (λ result made.
              let kept = simulate_kept ctx settings random request entries s c agrees in
              record {
                inner = kept.inner;
                outer =
                    insert-Agrees entries (trim_space request.metadata.idempotency_key) result
                      (simulate ctx settings random request s).1.1 kept.outer
                      (simulate-Backed ctx settings random request entries s c agrees result made);
                grows = kept.grows;
              }))
    ]
