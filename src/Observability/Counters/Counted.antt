-- ===== src/Observability/Counters/Counted.antt =====
-- The counters along the steps of a delivery, beside the calls of `Ack` and `Nack`.
use stockflow_erp_mock.Common.{
  ℕ, suc, ◌+◌, ◌≡◌, ◌⊎◌, refl, ◌∙◌, Bool, true, false, some, inl, inr, String, List, ◌∷◌, arith,
}
use stockflow_erp_mock.Common.Int.{ℤ}
use stockflow_erp_mock.App.Reservation.{ReservationDecision, confirmed, rejected, decision_text}
use stockflow_erp_mock.App.Release
use stockflow_erp_mock.App.Release.{ReservationReleaseDecision, release_decision_text}
use stockflow_erp_mock.Messaging.Amqp.{Delivery}
use stockflow_erp_mock.Messaging.Consumer.{
  World, Environment, Metric, observe_processed, increment_failed, rejected_reservation,
  confirmed_reservation, released_reservation, idempotency_hit, observe, observe_failure,
  observe_hit, requested_routing_key, release_requested_routing_key, ack, nack,
  retry_or_dead_letter,
}
use stockflow_erp_mock.Messaging.Consumer.Requests
use stockflow_erp_mock.Messaging.Consumer.Releases
use stockflow_erp_mock.Messaging.Consumer.Settlement.{settlements, settlements-retry_or_dead_letter}
use stockflow_erp_mock.Messaging.Consumer.Metering.{metrics-retry_or_dead_letter}
use stockflow_erp_mock.Observability.Counters.{counters_of}
use stockflow_erp_mock.Observability.Counters.Balance.{
  IsBalanced, Reason, reason_text, failed_request-IsBalanced, failed_release-IsBalanced,
  confirmed-IsBalanced, rejected-IsBalanced, released-IsBalanced, release_failed-IsBalanced,
}

-- The counters are balanced, and count the messages that are settled and `pending` others.
pub record IsCounted (pending : ℕ) (w : World) : Type 0 where
  pub calls : List Metric
  pub counted : w.metrics ≡ some calls
  pub balanced : IsBalanced (pending + settlements w.log) (counters_of calls)

pub relogged-IsCounted :
    (w w' : World)
    → w'.metrics ≡ w.metrics
    → settlements w'.log ≡ settlements w.log
    → IsCounted 0 w
    → IsCounted 0 w'
relogged-IsCounted w w' m e c = record {
  calls = c.calls;
  counted = m ∙ c.counted;
  balanced = rw e c.balanced;
}

pub settled-IsCounted :
    (w w' : World)
    → w'.metrics ≡ w.metrics
    → settlements w'.log ≡ suc (settlements w.log)
    → IsCounted 1 w
    → IsCounted 0 w'
settled-IsCounted w w' m e c = record {
  calls = c.calls;
  counted = m ∙ c.counted;
  balanced = ground (arith, e, c.balanced);
}

pub nack-IsCounted :
    (env : Environment) (requeue : Bool) (w : World)
    → IsCounted 1 w
    → IsCounted 0 (nack env requeue w).1
unfolding nack
nack-IsCounted env requeue w = settled-IsCounted w _ refl refl

pub ack-IsCounted : (env : Environment) (w : World) → IsCounted 1 w → IsCounted 0 (ack env w).1
unfolding ack
ack-IsCounted env w = settled-IsCounted w _ refl refl

pub retry_or_dead_letter-IsCounted :
    (max : ℤ) (env : Environment) (delivery : Delivery) (key : String) (n : ℤ) (w : World)
    → IsCounted 1 w
    → IsCounted 0 (retry_or_dead_letter max env delivery key n w).1
retry_or_dead_letter-IsCounted max env delivery key n w =
    settled-IsCounted w _ (metrics-retry_or_dead_letter max env delivery key n w)
      (settlements-retry_or_dead_letter max env delivery key n w)

pub failed_request-IsCounted :
    (reason : Reason) (w : World)
    → IsCounted 0 w
    → IsCounted 1 (observe_failure requested_routing_key (reason_text reason) w)
unfolding observe_failure observe
failed_request-IsCounted reason w c = record {
  calls =
      observe_processed requested_routing_key "failed"
      ∷ increment_failed requested_routing_key (reason_text reason)
      ∷ c.calls;
  counted = rw c.counted refl;
  balanced = ground (
    arith,
    failed_request-IsBalanced reason (0 + settlements w.log) (counters_of c.calls) c.balanced,
  );
}

pub failed_release-IsCounted :
    (reason : Reason) (w : World)
    → IsCounted 0 w
    → IsCounted 1 (observe_failure release_requested_routing_key (reason_text reason) w)
unfolding observe_failure observe
failed_release-IsCounted reason w c = record {
  calls =
      observe_processed release_requested_routing_key "failed"
      ∷ increment_failed release_requested_routing_key (reason_text reason)
      ∷ c.calls;
  counted = rw c.counted refl;
  balanced = ground (
    arith,
    failed_release-IsBalanced reason (0 + settlements w.log) (counters_of c.calls) c.balanced,
  );
}

pub hit-IsCounted : (hit : Bool) (w : World) → IsCounted 0 w → IsCounted 0 (observe_hit hit w)
unfolding observe_hit observe
hit-IsCounted false w c = c
hit-IsCounted true w c = record {
  calls = idempotency_hit ∷ c.calls;
  counted = rw c.counted refl;
  balanced = c.balanced;
}

pub decided-IsCounted :
    (d : ReservationDecision) (w : World)
    → (d ≡ confirmed) ⊎ (d ≡ rejected)
    → IsCounted 0 w
    → IsCounted 1 (
        Requests.observe_decision d
          (observe (observe_processed requested_routing_key (decision_text d)) w))
unfolding Requests.observe_decision observe
decided-IsCounted d w (inl e) c = rw e (record {
  calls = confirmed_reservation ∷ observe_processed requested_routing_key "confirmed" ∷ c.calls;
  counted = rw c.counted refl;
  balanced =
      ground (arith, confirmed-IsBalanced (0 + settlements w.log) (counters_of c.calls) c.balanced);
})
decided-IsCounted d w (inr e) c = rw e (record {
  calls = rejected_reservation ∷ observe_processed requested_routing_key "rejected" ∷ c.calls;
  counted = rw c.counted refl;
  balanced =
      ground (arith, rejected-IsBalanced (0 + settlements w.log) (counters_of c.calls) c.balanced);
})

pub release_decided-IsCounted :
    (d : ReservationReleaseDecision) (w : World)
    → (d ≡ Release.released) ⊎ (d ≡ Release.failed)
    → IsCounted 0 w
    → IsCounted 1 (
        Releases.observe_release_decision d
          (observe (observe_processed release_requested_routing_key (release_decision_text d)) w))
unfolding Releases.observe_release_decision observe
release_decided-IsCounted d w (inl e) c = rw e (record {
  calls =
      released_reservation ∷ observe_processed release_requested_routing_key "released" ∷ c.calls;
  counted = rw c.counted refl;
  balanced =
      ground (arith, released-IsBalanced (0 + settlements w.log) (counters_of c.calls) c.balanced);
})
release_decided-IsCounted d w (inr e) c = rw e (record {
  calls = observe_processed release_requested_routing_key "release_failed" ∷ c.calls;
  counted = rw c.counted refl;
  balanced =
      ground
        (arith, release_failed-IsBalanced (0 + settlements w.log) (counters_of c.calls) c.balanced);
})
