-- ===== src/Observability/Counters/Looped.antt =====
-- The counters of internal/observability/metrics.go after the loop of the consumer.
use stockflow_erp_mock.Common.{◌≡◌, some, List, [], ◌∷◌, inl, inr, arith, Option-cases}
use stockflow_erp_mock.Common.Int.{ℤ}
use stockflow_erp_mock.Messaging.Amqp.{Codec}
use stockflow_erp_mock.Messaging.Consumer.{World, Metric}
use stockflow_erp_mock.Messaging.Consumer.Requests.{handle_delivery}
use stockflow_erp_mock.Messaging.Consumer.Releases.{handle_release_delivery}
use stockflow_erp_mock.Messaging.Consumer.Settlement.{settlements}
use stockflow_erp_mock.Messaging.Consumer.Loop.{
  Choice, context_done, request, release, requests_closed, releases_closed, consume_loop,
}
use stockflow_erp_mock.Messaging.Consumer.Loop.Serving.{after_delivery-none, after_delivery-some}
use stockflow_erp_mock.Observability.Counters.{counters_of}
use stockflow_erp_mock.Observability.Counters.Balance.{IsBalanced, new_counters-IsBalanced}
use stockflow_erp_mock.Observability.Counters.Counted.{IsCounted}
use stockflow_erp_mock.Observability.Counters.Delivered.{
  handle_delivery-IsCounted, handle_release_delivery-IsCounted,
}

module _ (codec : Codec) (max_retry_count : ℤ) where
  consume_loop-IsCounted :
      (choices : List Choice) (w : World)
      → IsCounted 0 w
      → IsCounted 0 (consume_loop codec max_retry_count choices w).1
  unfolding consume_loop
  consume_loop-IsCounted [] w c = c
  consume_loop-IsCounted (context_done a b ∷ choices) w c = c
  consume_loop-IsCounted (requests_closed e ∷ choices) w c = c
  consume_loop-IsCounted (releases_closed e ∷ choices) w c = c
  consume_loop-IsCounted (request env delivery ∷ choices) w c =
      let p = handle_delivery codec max_retry_count env delivery w in
      let loop = consume_loop codec max_retry_count choices in
      let next = handle_delivery-IsCounted codec max_retry_count env delivery w c in
      elim (Option-cases p.0) [
        | inl e ↦ rw (after_delivery-none loop p e) (consume_loop-IsCounted choices p.1 next)
        | inr (x, e) ↦ rw (after_delivery-some loop p x e) next
      ]
  consume_loop-IsCounted (release env delivery ∷ choices) w c =
      let p = handle_release_delivery codec max_retry_count env delivery w in
      let loop = consume_loop codec max_retry_count choices in
      let next = handle_release_delivery-IsCounted codec max_retry_count env delivery w c in
      elim (Option-cases p.0) [
        | inl e ↦ rw (after_delivery-none loop p e) (consume_loop-IsCounted choices p.1 next)
        | inr (x, e) ↦ rw (after_delivery-some loop p x e) next
      ]

  -- From new counters and an empty log, and whatever the loop meets: the deliveries that were
  -- acknowledged or rejected are as many as the messages counted as processed, the counters of
  -- confirmed, rejected and released reservations agree with the outcomes, and for each type the
  -- failed messages are the sum over the three reasons.
  pub consume_loop-IsBalanced :
      (choices : List Choice) (w : World)
      → w.log ≡ []
      → w.metrics ≡ some []
      → (calls : List Metric) × ((consume_loop codec max_retry_count choices w).1.metrics
          ≡ some calls)
        × IsBalanced
            (settlements (consume_loop codec max_retry_count choices w).1.log)
            (counters_of calls)
  consume_loop-IsBalanced choices w fresh new =
      let start : IsCounted 0 w = record {
        calls = [];
        counted = new;
        balanced = rw fresh (ground (arith, new_counters-IsBalanced));
      } in
      let c = consume_loop-IsCounted choices w start in
      (c.calls, c.counted, ground (arith, c.balanced))
