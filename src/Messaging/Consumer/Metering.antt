-- ===== src/Messaging/Consumer/Metering.antt =====
-- The calls of `ConsumerMetrics` where a delivery is forwarded and settled.
use stockflow_erp_mock.Common.{◌≡◌, refl, none, some, String, inl, inr, Bool-cases}
use stockflow_erp_mock.Common.Int.{ℤ, pos, ltb_ℤ, add_int}
use stockflow_erp_mock.Messaging.Amqp.{Delivery}
use stockflow_erp_mock.Messaging.Publisher.{Sent}
use stockflow_erp_mock.Messaging.Consumer.{
  World, Environment, ack, nack, after_forward, retry_or_dead_letter,
}

metrics-after_forward :
    (env : Environment) (sent : Sent) (w : World) → (after_forward env sent w).1.metrics ≡ w.metrics
unfolding after_forward ack nack
metrics-after_forward env (none, log) w = refl
metrics-after_forward env (some e, log) w = refl

pub metrics-retry_or_dead_letter :
    (max : ℤ) (env : Environment) (delivery : Delivery) (key : String) (n : ℤ) (w : World)
    → (retry_or_dead_letter max env delivery key n w).1.metrics ≡ w.metrics
unfolding retry_or_dead_letter
metrics-retry_or_dead_letter max env delivery key n w =
    elim (Bool-cases (ltb_ℤ max (add_int n (pos 1)))) [
      | inl e ↦ rw e (metrics-after_forward env _ w)
      | inr e ↦ rw e (metrics-after_forward env _ w)
    ]
