-- ===== src/Messaging/Consumer/Promises.antt =====
-- The confirmations that the publisher sends, and the reservations that they promise.
pub mod OfRequests
pub mod OfReleases
use stockflow_erp_mock.Common.{
  ◌≡◌, refl, ◌∙◌, Option, none, some, String, List, [], ◌∷◌, Bool-cases, Option-cases, inl, inr,
  arith, Bool, true, false,
}
use stockflow_erp_mock.Common.Int.{ℤ, pos, ltb_ℤ, add_int}
use stockflow_erp_mock.Common.Text.{trim_space}
use stockflow_erp_mock.Memory.Repository.{Repository}
use stockflow_erp_mock.Memory.Repository.Retention.{Grows}
use stockflow_erp_mock.App.Reservation.{ReservationResult}
use stockflow_erp_mock.App.Reservation.Backing.{Backed, Later-trans}
use stockflow_erp_mock.App.FailureMode.{FailureMode, publish_failure, duplicate_response}
use stockflow_erp_mock.Messaging.Amqp.{Delivery, Publishing, Codec, reservation_confirmed}
use stockflow_erp_mock.Messaging.Publisher.{
  Effect, published, acked, nacked, taken, settle_failed, Sent, Confirmation, refused,
  confirmed_routing_key, publish_with_confirmation, publish_result, publish_retry,
  publish_dead_letter, retry_exchange, dead_letter_exchange, new_forwarded_delivery,
}
use stockflow_erp_mock.Messaging.Consumer.{
  World, Environment, observe_hit, retry_or_dead_letter, after_forward, ack, nack,
}

-- A message whose body is the payload of a confirmation that a reservation of `r` backs.
pub record IsKept (codec : Codec) (r : Repository) (p : Publishing) : Type 0 where
  pub result : ReservationResult
  pub backed : Backed r result
  pub body :
      codec.marshal (
        reservation_confirmed result.request.reservation_id result.request.order_id
          result.request.sku result.request.quantity result.reservation.created_at)
      ≡ some p.body

-- Every message of a log that is sent as a confirmation is kept.
abbrev pub AllKept : Codec → Repository → List Effect → Type 0
AllKept codec r [] = Unit
AllKept codec r (published exchange key p ∷ log) =
    (key ≡ confirmed_routing_key → IsKept codec r p) × AllKept codec r log
AllKept codec r (acked ∷ log) = AllKept codec r log
AllKept codec r (nacked _ ∷ log) = AllKept codec r log
AllKept codec r (taken _ ∷ log) = AllKept codec r log
AllKept codec r (settle_failed ∷ log) = AllKept codec r log

Grows-Backed :
    (r r' : Repository) (result : ReservationResult)
    → Grows r r'
    → Backed r result
    → Backed r' result
Grows-Backed r r' result grows (x, at_id, later, sku, quantity) =
    let (y, at_id', later') = grows (trim_space result.request.reservation_id) x at_id in
    (
      y,
      at_id',
      Later-trans result.reservation x y later later',
      later'.same_sku ∙ sku,
      later'.same_quantity ∙ quantity,
    )

-- A promise is kept as long as no reservation is forgotten.
pub Grows-AllKept :
    (codec : Codec) (r r' : Repository) (log : List Effect)
    → Grows r r'
    → AllKept codec r log
    → AllKept codec r' log
Grows-AllKept codec r r' [] grows kept = tt
Grows-AllKept codec r r' (published exchange key p ∷ log) grows (kept, rest) = (
  λ e.
      let k = kept e in
      record {
        result = k.result;
        backed = Grows-Backed r r' k.result grows k.backed;
        body = k.body;
      },
  Grows-AllKept codec r r' log grows rest,
)
Grows-AllKept codec r r' (acked ∷ log) grows kept = Grows-AllKept codec r r' log grows kept
Grows-AllKept codec r r' (nacked _ ∷ log) grows kept = Grows-AllKept codec r r' log grows kept
Grows-AllKept codec r r' (taken _ ∷ log) grows kept = Grows-AllKept codec r r' log grows kept
Grows-AllKept codec r r' (settle_failed ∷ log) grows kept = Grows-AllKept codec r r' log grows kept

module _ (codec : Codec) (r : Repository) where
  pub publish_with_confirmation-AllKept :
      (c : Confirmation) (exchange key : String) (p : Publishing) (log : List Effect)
      → (key ≡ confirmed_routing_key → IsKept codec r p)
      → AllKept codec r log
      → AllKept codec r (publish_with_confirmation c exchange key p log).1
  unfolding publish_with_confirmation
  publish_with_confirmation-AllKept refused exchange key p log k kept = kept
  publish_with_confirmation-AllKept _ exchange key p log k kept = (k, kept)

  pub publish_result-AllKept :
      (mode : FailureMode) (first second : List Effect → Sent) (log : List Effect)
      → ((l : List Effect) → AllKept codec r l → AllKept codec r (first l).1)
      → ((l : List Effect) → AllKept codec r l → AllKept codec r (second l).1)
      → AllKept codec r log
      → AllKept codec r (publish_result mode first second log).1
  unfolding publish_result
  publish_result-AllKept publish_failure first second log p q kept = kept
  publish_result-AllKept duplicate_response first second log p q kept =
      elim (Option-cases (first log).0) [
        | inl e ↦ rw e (q (first log).1 (p log kept))
        | inr (x, e) ↦ rw e (p log kept)
      ]
  publish_result-AllKept _ first second log p q kept = p log kept

  after_forward-AllKept :
      (env : Environment) (sent : Sent) (w : World)
      → AllKept codec r sent.1
      → AllKept codec r (after_forward env sent w).1.log
  unfolding after_forward ack nack
  after_forward-AllKept env (some e, log) w kept = kept
  after_forward-AllKept env (none, log) w kept = kept

  forward_copy-AllKept :
      (env : Environment) (exchange key : String) (p : Publishing) (w : World)
      → ¬ (key ≡ confirmed_routing_key)
      → AllKept codec r w.log
      → AllKept codec r
          (after_forward env (publish_with_confirmation env.forward exchange key p w.log) w).1.log
  forward_copy-AllKept env exchange key p w other kept =
      after_forward-AllKept env (publish_with_confirmation env.forward exchange key p w.log) w (
        publish_with_confirmation-AllKept env.forward exchange key p w.log
          (λ same. absurd (other same)) kept)

  pub retry_or_dead_letter-AllKept :
      (max : ℤ) (env : Environment) (delivery : Delivery) (key : String) (n : ℤ) (w : World)
      → ¬ (key ≡ confirmed_routing_key)
      → AllKept codec r w.log
      → AllKept codec r (retry_or_dead_letter max env delivery key n w).1.log
  unfolding retry_or_dead_letter publish_retry publish_dead_letter
  retry_or_dead_letter-AllKept max env delivery key n w other kept =
      let next = add_int n (pos 1) in
      elim (Bool-cases (ltb_ℤ max next)) [
        | inl e ↦ rw e (
            forward_copy-AllKept env dead_letter_exchange key (new_forwarded_delivery delivery n) w
              other kept)
        | inr e ↦ rw e (
            forward_copy-AllKept env retry_exchange key (new_forwarded_delivery delivery next) w
              other kept)
      ]

pub log-observe_hit : (hit : Bool) (w : World) → (observe_hit hit w).log ≡ w.log
unfolding observe_hit
log-observe_hit true w = refl
log-observe_hit false w = refl
