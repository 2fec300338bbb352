-- ===== src/Observability/Counters.antt =====
-- The counters of internal/observability/metrics.go. A counter of the Prometheus client is the number
-- of its `Inc` calls, one for each list of labels. Durations are left out.
pub mod Balance
pub mod Published
pub mod Counted
pub mod Delivered
pub mod Looped
use stockflow_erp_mock.Common.{ℕ, suc, Bool, ◌&&◌, String, List, [], ◌∷◌, if◌then◌else◌}
use package.text.Mathlib.Text.{◌==◌}
use stockflow_erp_mock.Messaging.Consumer.{
  Metric, observe_processed, increment_failed, rejected_reservation, confirmed_reservation,
  released_reservation, idempotency_hit,
}

-- `Metrics`
pub record Counters : Type 0 where
  pub processed_messages : (message_type outcome : String) → ℕ
  pub failed_messages : (message_type reason : String) → ℕ
  pub rejected_reservations : ℕ
  pub confirmed_reservations : ℕ
  pub released_reservations : ℕ
  pub idempotency_hits : ℕ

abbrev pub new_counters : Counters
new_counters = record {
  processed_messages = λ message_type outcome. 0;
  failed_messages = λ message_type reason. 0;
  rejected_reservations = 0;
  confirmed_reservations = 0;
  released_reservations = 0;
  idempotency_hits = 0;
}

-- `WithLabelValues(a, b).Inc()`
abbrev pub incremented : (String → String → ℕ) → String → String → String → String → ℕ
incremented counter a b x y = if (x == a) && (y == b) then suc (counter x y) else counter x y

-- The methods of `Metrics` that the consumer calls.
abbrev pub count : Metric → Counters → Counters
count (observe_processed message_type outcome) c = record c {
  processed_messages = incremented c.processed_messages message_type outcome;
}
count (increment_failed message_type reason) c = record c {
  failed_messages = incremented c.failed_messages message_type reason;
}
count rejected_reservation c = record c { rejected_reservations = suc c.rejected_reservations }
count confirmed_reservation c = record c { confirmed_reservations = suc c.confirmed_reservations }
count released_reservation c = record c { released_reservations = suc c.released_reservations }
count idempotency_hit c = record c { idempotency_hits = suc c.idempotency_hits }

-- The counters after some calls, the newest first.
abbrev pub counters_of : List Metric → Counters
counters_of [] = new_counters
counters_of (call ∷ calls) = count call (counters_of calls)
