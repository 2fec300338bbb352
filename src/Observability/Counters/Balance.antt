-- ===== src/Observability/Counters/Balance.antt =====
-- The counters of internal/observability/metrics.go beside each other, call by call.
use stockflow_erp_mock.Common.{ℕ, suc, ◌+◌, ◌≡◌, String, arith}
use stockflow_erp_mock.Messaging.Consumer.{
  observe_processed, increment_failed, rejected_reservation, confirmed_reservation,
  released_reservation, idempotency_hit, requested_routing_key, release_requested_routing_key,
}
use stockflow_erp_mock.Observability.Counters.{Counters, new_counters, count}

-- The messages of a type that have failed, by their reasons.
abbrev pub failures : String → Counters → ℕ
failures message_type c =
    c.failed_messages message_type "invalid_message"
    + (c.failed_messages message_type "handler_error"
        + c.failed_messages message_type "publisher_error")

-- The messages that have been processed, with their outcomes.
abbrev pub processed : Counters → ℕ
processed c =
    c.processed_messages requested_routing_key "confirmed"
    + c.processed_messages requested_routing_key "rejected"
    + c.processed_messages requested_routing_key "failed"
    + c.processed_messages release_requested_routing_key "released"
    + c.processed_messages release_requested_routing_key "release_failed"
    + c.processed_messages release_requested_routing_key "failed"

-- `n` messages have been processed, the counters of decisions agree with the outcomes, and each
-- message that has failed has done so for one reason.
abbrev pub IsBalanced : ℕ → Counters → Type 0
IsBalanced n c =
    (n ≡ processed c)
    × (c.processed_messages requested_routing_key "confirmed" ≡ c.confirmed_reservations)
    × (c.processed_messages requested_routing_key "rejected" ≡ c.rejected_reservations)
    × (c.processed_messages release_requested_routing_key "released" ≡ c.released_reservations)
    × (c.processed_messages requested_routing_key "failed" ≡ failures requested_routing_key c)
    × (c.processed_messages release_requested_routing_key "failed"
        ≡ failures release_requested_routing_key c)

pub new_counters-IsBalanced : IsBalanced 0 new_counters
new_counters-IsBalanced = omega arith

-- The reasons of `observeFailure`.
pub data Reason : Type 0 where
  invalid_message handler_error publisher_error : Reason

abbrev pub reason_text : Reason → String
reason_text invalid_message = "invalid_message"
reason_text handler_error = "handler_error"
reason_text publisher_error = "publisher_error"

pub failed_request-IsBalanced :
    (reason : Reason) (n : ℕ) (c : Counters)
    → IsBalanced n c
    → IsBalanced (suc n) (
        count
          (observe_processed requested_routing_key "failed")
          (count (increment_failed requested_routing_key (reason_text reason)) c))
failed_request-IsBalanced invalid_message n c b = ground (arith, b)
failed_request-IsBalanced handler_error n c b = ground (arith, b)
failed_request-IsBalanced publisher_error n c b = ground (arith, b)

pub failed_release-IsBalanced :
    (reason : Reason) (n : ℕ) (c : Counters)
    → IsBalanced n c
    → IsBalanced (suc n) (
        count
          (observe_processed release_requested_routing_key "failed")
          (count (increment_failed release_requested_routing_key (reason_text reason)) c))
failed_release-IsBalanced invalid_message n c b = ground (arith, b)
failed_release-IsBalanced handler_error n c b = ground (arith, b)
failed_release-IsBalanced publisher_error n c b = ground (arith, b)

pub hit-IsBalanced :
    (n : ℕ) (c : Counters) → IsBalanced n c → IsBalanced n (count idempotency_hit c)
hit-IsBalanced n c b = b

pub confirmed-IsBalanced :
    (n : ℕ) (c : Counters)
    → IsBalanced n c
    → IsBalanced (suc n) (
        count confirmed_reservation (count (observe_processed requested_routing_key "confirmed") c))
confirmed-IsBalanced n c b = ground (arith, b)

pub rejected-IsBalanced :
    (n : ℕ) (c : Counters)
    → IsBalanced n c
    → IsBalanced
        (suc n)
        (count rejected_reservation (count (observe_processed requested_routing_key "rejected") c))
rejected-IsBalanced n c b = ground (arith, b)

pub released-IsBalanced :
    (n : ℕ) (c : Counters)
    → IsBalanced n c
    → IsBalanced (suc n) (
        count released_reservation
          (count (observe_processed release_requested_routing_key "released") c))
released-IsBalanced n c b = ground (arith, b)

pub release_failed-IsBalanced :
    (n : ℕ) (c : Counters)
    → IsBalanced n c
    → IsBalanced
        (suc n)
        (count (observe_processed release_requested_routing_key "release_failed") c)
release_failed-IsBalanced n c b = ground (arith, b)
