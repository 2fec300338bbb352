-- ===== src/Messaging/Consumer/Loop/Returns.antt =====
-- What the handlers of one delivery of internal/messaging/rabbitmq/consumer.go return.
use stockflow_erp_mock.Common.{
  ◌≡◌, refl, Option, none, some, Result, ok, err, inl, inr, Bool-cases, Result-cases, if◌then◌else◌,
  String,
}
use stockflow_erp_mock.Common.Int.{ℤ, pos, ltb_ℤ, add_int}
use stockflow_erp_mock.Inventory.Errors.{Error, other}
use stockflow_erp_mock.App.Reservation.{ReservationRequest, ReservationResult}
use stockflow_erp_mock.App.Release.{ReservationReleaseRequest, ReservationReleaseResult}
use stockflow_erp_mock.Messaging.Amqp.{Delivery, Codec}
use stockflow_erp_mock.Messaging.Decode.{
  decode_reservation_requested, decode_reservation_release_requested,
}
use stockflow_erp_mock.Messaging.Publisher.{Sent}
use stockflow_erp_mock.Messaging.Consumer.{
  World, Environment, ack, nack, after_forward, retry_or_dead_letter, is_permanent_handler_error,
}
use stockflow_erp_mock.Messaging.Consumer.Requests
use stockflow_erp_mock.Messaging.Consumer.Requests.{handle_delivery}
use stockflow_erp_mock.Messaging.Consumer.Releases
use stockflow_erp_mock.Messaging.Consumer.Releases.{handle_release_delivery}

abbrev pub settle_error : Environment → Option Error
settle_error env = if env.settles then none else some (other "settle delivery")

after_forward-error :
    (env : Environment) (sent : Sent) (w : World) → (after_forward env sent w).0 ≡ settle_error env
unfolding after_forward ack nack
after_forward-error env (none, log) w = refl
after_forward-error env (some e, log) w = refl

retry_or_dead_letter-error :
    (max : ℤ) (env : Environment) (delivery : Delivery) (key : String) (n : ℤ) (w : World)
    → (retry_or_dead_letter max env delivery key n w).0 ≡ settle_error env
unfolding retry_or_dead_letter
retry_or_dead_letter-error max env delivery key n w =
    elim (Bool-cases (ltb_ℤ max (add_int n (pos 1)))) [
      | inl e ↦ rw e (after_forward-error env _ w)
      | inr e ↦ rw e (after_forward-error env _ w)
    ]

module _ (codec : Codec) (max : ℤ) (env : Environment) (delivery : Delivery) where
  after_publish-error :
      (request : ReservationRequest) (result : ReservationResult) (sent : Sent) (w : World)
      → (Requests.after_publish codec max env delivery request result sent w).0 ≡ settle_error env
  unfolding Requests.after_publish ack
  after_publish-error request result (some e, log) w =
      retry_or_dead_letter-error max env delivery _ _ _
  after_publish-error request result (none, log) w = refl

  after_handler-error :
      (request : ReservationRequest) (outcome : Result Error ReservationResult) (w : World)
      → (Requests.after_handler codec max env delivery request outcome w).0 ≡ settle_error env
  unfolding Requests.after_handler nack
  after_handler-error request (err e) w = elim (Bool-cases (is_permanent_handler_error e)) [
    | inl p ↦ rw p refl
    | inr p ↦ rw p (retry_or_dead_letter-error max env delivery _ _ _)
  ]
  after_handler-error request (ok result) w = after_publish-error request result _ _

  pub handle_delivery-error :
      (w : World) → (handle_delivery codec max env delivery w).0 ≡ settle_error env
  unfolding handle_delivery nack
  handle_delivery-error w = elim (Result-cases (decode_reservation_requested codec delivery)) [
    | inl (request, e) ↦ rw e (after_handler-error request _ _)
    | inr (x, e) ↦ rw e refl
  ]

  after_release_publish-error :
      (request : ReservationReleaseRequest) (result : ReservationReleaseResult) (sent : Sent)
      (w : World)
      → (Releases.after_publish codec max env delivery request result sent w).0 ≡ settle_error env
  unfolding Releases.after_publish ack
  after_release_publish-error request result (some e, log) w =
      retry_or_dead_letter-error max env delivery _ _ _
  after_release_publish-error request result (none, log) w = refl

  after_release_handler-error :
      (request : ReservationReleaseRequest) (outcome : Result Error ReservationReleaseResult)
      (w : World)
      → (Releases.after_handler codec max env delivery request outcome w).0 ≡ settle_error env
  unfolding Releases.after_handler nack
  after_release_handler-error request (err e) w = elim (Bool-cases (is_permanent_handler_error e)) [
    | inl p ↦ rw p refl
    | inr p ↦ rw p (retry_or_dead_letter-error max env delivery _ _ _)
  ]
  after_release_handler-error request (ok result) w = after_release_publish-error request result _ _

  pub handle_release_delivery-error :
      (w : World) → (handle_release_delivery codec max env delivery w).0 ≡ settle_error env
  unfolding handle_release_delivery nack
  handle_release_delivery-error w =
      elim (Result-cases (decode_reservation_release_requested codec delivery)) [
        | inl (request, e) ↦ rw e (after_release_handler-error request _ _)
        | inr (x, e) ↦ rw e refl
      ]
