-- ===== src/Messaging/Consumer/Run/Confirmed.antt =====
-- The confirmations that a run sends, and the reservations that it has made.
use stockflow_erp_mock.Common.{Result, ok, err, ap}
use stockflow_erp_mock.Common.Int.{ℤ}
use stockflow_erp_mock.Inventory.Errors.{Error}
use stockflow_erp_mock.App.Reservation.{ReservationRequest}
use stockflow_erp_mock.App.FailureSimulation.Backing.{
  IsSimulationConsistent, handle_simulated-IsSimulationConsistent,
}
use stockflow_erp_mock.App.Release.{ReservationReleaseRequest}
use stockflow_erp_mock.App.Release.Backing.{IsReleaseConsistent}
use stockflow_erp_mock.App.FailureSimulation.{
  handle_simulated_reservation, handle_simulated_release,
}
use stockflow_erp_mock.Messaging.Amqp.{Delivery, Codec}
use stockflow_erp_mock.Messaging.Decode.{
  decode_reservation_requested, decode_reservation_release_requested,
}
use stockflow_erp_mock.Messaging.Consumer.{World, Environment, observe_failure, nack}
use stockflow_erp_mock.Messaging.Consumer.Requests
use stockflow_erp_mock.Messaging.Consumer.Requests.{handle_delivery}
use stockflow_erp_mock.Messaging.Consumer.Releases
use stockflow_erp_mock.Messaging.Consumer.Releases.{handle_release_delivery}
use stockflow_erp_mock.Messaging.Consumer.State.OfRequests
use stockflow_erp_mock.Messaging.Consumer.State.OfReleases
use stockflow_erp_mock.App.Reservation.Confirmations.{IsConsistent}
use stockflow_erp_mock.Memory.Repository.Retention.{set_stock-Grows}
use stockflow_erp_mock.App.FailureSimulation.Confirmations.{simulated-confirmed-Backed}
use stockflow_erp_mock.Messaging.Consumer.Consistency.{
  IsSystemConsistent, simulated_release-IsReleaseConsistent,
}
use stockflow_erp_mock.Messaging.Consumer.Promises.{AllKept, Grows-AllKept}
use stockflow_erp_mock.Messaging.Consumer.Promises.OfRequests as RequestPromises
use stockflow_erp_mock.Messaging.Consumer.Promises.OfReleases as ReleasePromises
use stockflow_erp_mock.Messaging.Consumer.Run.{
  Run, starts, requests, releases, sets, Run-IsSystemConsistent,
}

requests-AllKept :
    (codec : Codec) (max : ℤ) (env : Environment) (delivery : Delivery)
    (decoded : Result Error ReservationRequest) (w : World)
    → IsSystemConsistent w.state
    → AllKept codec w.state.repository w.log
    → AllKept codec
        (Requests.after_decode codec max env delivery decoded w).1.state.repository
        (Requests.after_decode codec max env delivery decoded w).1.log
unfolding Requests.after_decode observe_failure nack
requests-AllKept codec max env delivery (err e) w c kept = kept
requests-AllKept codec max env delivery (ok request) w c kept =
    let inner : IsConsistent (w.state.entries, w.state.repository) = record {
      valid = c.valid;
      agrees = c.entries;
    } in
    let answer =
      handle_simulated_reservation env.context env.settings env.random request
        (w.state.simulation, (w.state.entries, w.state.repository)) in
    let after : IsSimulationConsistent w.state.repository answer.1 =
      handle_simulated-IsSimulationConsistent env.context env.settings env.random request
        w.state.simulation (w.state.entries, w.state.repository) inner c.simulation in
    rw (OfRequests.state-after_handler codec max env delivery request answer.0 _) (
      RequestPromises.after_handler-AllKept codec answer.1.1.1 max env delivery request answer.0 _
        (λ result made confirms.
          simulated-confirmed-Backed env.context env.settings env.random request w.state.simulation
            (w.state.entries, w.state.repository) inner c.simulation (ap (λ o. (o, answer.1)) made)
            confirms)
        (Grows-AllKept codec w.state.repository answer.1.1.1 w.log after.grows kept))

releases-AllKept :
    (codec : Codec) (max : ℤ) (env : Environment) (delivery : Delivery)
    (decoded : Result Error ReservationReleaseRequest) (w : World)
    → IsSystemConsistent w.state
    → AllKept codec w.state.repository w.log
    → AllKept codec
        (Releases.after_decode codec max env delivery decoded w).1.state.repository
        (Releases.after_decode codec max env delivery decoded w).1.log
unfolding Releases.after_decode observe_failure nack
releases-AllKept codec max env delivery (err e) w c kept = kept
releases-AllKept codec max env delivery (ok request) w c kept =
    let answer =
      handle_simulated_release env.context env.settings request
        (w.state.releases, w.state.repository) in
    let after : IsReleaseConsistent w.state.repository answer.1 =
      simulated_release-IsReleaseConsistent env.context env.settings request w.state.releases
        w.state.repository c.valid c.releases in
    rw (OfReleases.state-after_handler codec max env delivery request answer.0 _) (
      ReleasePromises.after_handler-AllKept codec answer.1.1 max env delivery request answer.0 _
        (Grows-AllKept codec w.state.repository answer.1.1 w.log after.grows kept))

-- Whatever a run has sent under the routing key of a confirmation has a body that encodes a
-- confirmed result, and the reservation of that result is in the repository, for its item and its
-- quantity.
pub Run-AllKept :
    (codec : Codec) (max_retry_count : ℤ) {w : World}
    → Run codec max_retry_count w
    → AllKept codec w.state.repository w.log
unfolding handle_delivery handle_release_delivery
Run-AllKept codec limit (starts seed fits h e fresh) = rw fresh tt
Run-AllKept codec limit (requests env delivery {w = w} run) =
    requests-AllKept codec limit env delivery (decode_reservation_requested codec delivery) w
      (Run-IsSystemConsistent codec limit run) (Run-AllKept codec limit run)
Run-AllKept codec limit (releases env delivery {w = w} run) =
    releases-AllKept codec limit env delivery (decode_reservation_release_requested codec delivery)
      w (Run-IsSystemConsistent codec limit run) (Run-AllKept codec limit run)
Run-AllKept codec limit (sets ctx_err sku q {w = w} {r = r} run room h) =
    Grows-AllKept codec w.state.repository r w.log
      (set_stock-Grows ctx_err sku q w.state.repository h) (Run-AllKept codec limit run)
