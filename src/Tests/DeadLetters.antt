-- ===== src/Tests/DeadLetters.antt =====
-- `RequeueDeadLetters` on a queue of one message.
use stockflow_erp_mock.Common.{◌≡◌, refl, none, [], ◌∷◌, ok, arith}
use Prim.Native.Nat.{min}
use stockflow_erp_mock.Common.Int.{pos}
use stockflow_erp_mock.Common.Text.{text}
use stockflow_erp_mock.Messaging.Amqp.{Delivery}
use stockflow_erp_mock.Messaging.Publisher.{acked, taken}
use stockflow_erp_mock.Messaging.Consumer.{requested_routing_key}
use stockflow_erp_mock.Messaging.Admin.{
  reservation_requests, DeadLetterQueueConfig, dead_letter_config, max_requeue_limit,
  requeue_dead_letters,
}
use stockflow_erp_mock.Messaging.Admin.Requeue.{copied, Reports, requeue-Reports}
use stockflow_erp_mock.Messaging.Admin.Complete.{served, requeue-served}

abbrev dead_letter : Delivery
dead_letter = record {
  headers = [];
  content_type = text "application/json";
  correlation_id = text "c1";
  message_id = text "m1";
  timestamp = 7;
  body = 123 ∷ 125 ∷ [];
}

abbrev config : DeadLetterQueueConfig
config = record {
  name = "stockflow.erp-mock.inventory.reservation.requested.v1.dlq";
  routing_key = requested_routing_key;
}

known : dead_letter_config reservation_requests ≡ ok config
unfolding dead_letter_config
known = refl

requeue-Reports_example :
    Reports requested_routing_key
      (min 5 max_requeue_limit)
      []
      (requeue_dead_letters reservation_requests (pos 5) (served (dead_letter ∷ [])) [])
requeue-Reports_example =
    requeue-Reports reservation_requests config (pos 5) (served (dead_letter ∷ [])) [] known

requeue-served_example :
    requeue_dead_letters reservation_requests (pos 5) (served (dead_letter ∷ [])) []
    ≡ (1, none, acked ∷ copied requested_routing_key dead_letter ∷ taken dead_letter ∷ [])
requeue-served_example =
    requeue-served reservation_requests config 5 (dead_letter ∷ []) [] known (omega arith)
      (omega arith)
