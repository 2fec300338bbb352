-- ===== src/Messaging/Consumer/Consistency.antt =====
-- The whole state behind the consumer, from delivery to delivery.
use stockflow_erp_mock.Common.{Result, ok, err, Result-cases, inl, inr}
use stockflow_erp_mock.Common.Int.{ℤ}
use stockflow_erp_mock.Common.Dict.{Dict}
use stockflow_erp_mock.Inventory.Errors.{Error}
use stockflow_erp_mock.Memory.Repository.{Repository}
use stockflow_erp_mock.Memory.Repository.Invariant.{IsValid}
use stockflow_erp_mock.Memory.Repository.Retention.{Grows-refl}
use stockflow_erp_mock.App.Context.{Context}
use stockflow_erp_mock.App.Reservation.{ReservationRequest}
use stockflow_erp_mock.App.Reservation.Backing.{Agrees, Grows-Agrees}
use stockflow_erp_mock.App.FailureMode.{FailureModeSettings}
use stockflow_erp_mock.App.FailureSimulation.Backing.{
  IsSimulationConsistent, handle_simulated-IsSimulationConsistent,
}
use stockflow_erp_mock.App.Release.{ReservationReleaseRequest, ReservationReleaseResult}
use stockflow_erp_mock.App.Release.Backing.{
  ReleasesAgree, Grows-ReleasesAgree, IsReleaseConsistent, handle_release-IsReleaseConsistent,
}
use stockflow_erp_mock.App.FailureSimulation.{
  handle_simulated_reservation, handle_simulated_release, wait_for_processing_delay,
}
use stockflow_erp_mock.Messaging.Amqp.{Delivery, Codec}
use stockflow_erp_mock.Messaging.Decode.{
  decode_reservation_requested, decode_reservation_release_requested,
}
use stockflow_erp_mock.Messaging.Consumer.{World, SystemState, Environment, observe_failure, nack}
use stockflow_erp_mock.Messaging.Consumer.Requests
use stockflow_erp_mock.Messaging.Consumer.Requests.{handle_delivery}
use stockflow_erp_mock.Messaging.Consumer.Releases
use stockflow_erp_mock.Messaging.Consumer.Releases.{handle_release_delivery}
use stockflow_erp_mock.Messaging.Consumer.State.OfRequests
use stockflow_erp_mock.Messaging.Consumer.State.OfReleases

-- The repository is valid, and what the three stores have answered agrees with it.
pub record IsSystemConsistent (s : SystemState) : Type 0 where
  pub valid : IsValid s.repository
  pub simulation : Agrees s.simulation s.repository
  pub entries : Agrees s.entries s.repository
  pub releases : ReleasesAgree s.releases s.repository

pub simulated_release-IsReleaseConsistent :
    (ctx : Context) (settings : FailureModeSettings) (request : ReservationReleaseRequest)
    (entries : Dict ReservationReleaseResult) (r : Repository)
    → IsValid r
    → ReleasesAgree entries r
    → IsReleaseConsistent r (handle_simulated_release ctx settings request (entries, r)).1
unfolding handle_simulated_release
simulated_release-IsReleaseConsistent ctx settings request entries r v agrees =
    elim (Result-cases (wait_for_processing_delay ctx.wait settings)) [
      | inl (_, e) ↦ rw e (handle_release-IsReleaseConsistent ctx request entries r v agrees)
      | inr (x, e) ↦ rw e (record { valid = v; grows = Grows-refl r; agrees = agrees })
    ]

requests-IsSystemConsistent :
    (codec : Codec) (max : ℤ) (env : Environment) (delivery : Delivery)
    (decoded : Result Error ReservationRequest) (w : World)
    → IsSystemConsistent w.state
    → IsSystemConsistent (Requests.after_decode codec max env delivery decoded w).1.state
unfolding Requests.after_decode observe_failure nack
requests-IsSystemConsistent codec max env delivery (err e) w c = c
requests-IsSystemConsistent codec max env delivery (ok request) w c =
    let answer =
      handle_simulated_reservation env.context env.settings env.random request
        (w.state.simulation, (w.state.entries, w.state.repository)) in
    let kept : IsSimulationConsistent w.state.repository answer.1 =
      handle_simulated-IsSimulationConsistent env.context env.settings env.random request
        w.state.simulation (w.state.entries, w.state.repository)
        (record { valid = c.valid; agrees = c.entries }) c.simulation in
    rw (OfRequests.state-after_handler codec max env delivery request answer.0 _) (record {
      valid = kept.inner.valid;
      simulation = kept.outer;
      entries = kept.inner.agrees;
      releases =
          Grows-ReleasesAgree w.state.releases w.state.repository answer.1.1.1 kept.grows
            c.releases;
    })

-- Whatever the delivery holds, the broker and the context answer and the failure mode is, the
-- handling of a reservation request keeps the whole state consistent.
pub handle_delivery-IsSystemConsistent :
    (codec : Codec) (max : ℤ) (env : Environment) (delivery : Delivery) (w : World)
    → IsSystemConsistent w.state
    → IsSystemConsistent (handle_delivery codec max env delivery w).1.state
unfolding handle_delivery
handle_delivery-IsSystemConsistent codec max env delivery w c =
    requests-IsSystemConsistent codec max env delivery (decode_reservation_requested codec delivery)
      w c

releases-IsSystemConsistent :
    (codec : Codec) (max : ℤ) (env : Environment) (delivery : Delivery)
    (decoded : Result Error ReservationReleaseRequest) (w : World)
    → IsSystemConsistent w.state
    → IsSystemConsistent (Releases.after_decode codec max env delivery decoded w).1.state
unfolding Releases.after_decode observe_failure nack
releases-IsSystemConsistent codec max env delivery (err e) w c = c
releases-IsSystemConsistent codec max env delivery (ok request) w c =
    let answer =
      handle_simulated_release env.context env.settings request
        (w.state.releases, w.state.repository) in
    let kept : IsReleaseConsistent w.state.repository answer.1 =
      simulated_release-IsReleaseConsistent env.context env.settings request w.state.releases
        w.state.repository c.valid c.releases in
    rw (OfReleases.state-after_handler codec max env delivery request answer.0 _) (record {
      valid = kept.valid;
      simulation =
          Grows-Agrees w.state.simulation w.state.repository answer.1.1 kept.grows c.simulation;
      entries = Grows-Agrees w.state.entries w.state.repository answer.1.1 kept.grows c.entries;
      releases = kept.agrees;
    })

-- Whatever the delivery holds, the broker and the context answer and the failure mode is, the
-- handling of a release request keeps the whole state consistent.
pub handle_release_delivery-IsSystemConsistent :
    (codec : Codec) (max : ℤ) (env : Environment) (delivery : Delivery) (w : World)
    → IsSystemConsistent w.state
    → IsSystemConsistent (handle_release_delivery codec max env delivery w).1.state
unfolding handle_release_delivery
handle_release_delivery-IsSystemConsistent codec max env delivery w c =
    releases-IsSystemConsistent codec max env delivery
      (decode_reservation_release_requested codec delivery) w c
