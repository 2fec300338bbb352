-- ===== src/Messaging/Consumer/Loop/Service.antt =====
-- What holds after `Consume` of internal/messaging/rabbitmq/consumer.go has run on the state that
-- cmd/erp-mock/main.go starts with.
use stockflow_erp_mock.Common.{
  ◌≡◌, Bool, true, false, some, List, [], ok, ◌∷◌, inl, inr, Option-cases,
}
use stockflow_erp_mock.Common.Int.{ℤ}
use stockflow_erp_mock.Memory.Repository.{Repository, StockSeed, new_inventory_repository}
use stockflow_erp_mock.Memory.Repository.History.{AllFit}
use stockflow_erp_mock.Messaging.Amqp.{Codec}
use stockflow_erp_mock.Messaging.Consumer.{World}
use stockflow_erp_mock.Messaging.Consumer.Consistency.{IsSystemConsistent}
use stockflow_erp_mock.Messaging.Consumer.Promises.{AllKept}
use stockflow_erp_mock.Messaging.Consumer.Run.{
  initial_state, Run, starts, Run-IsSystemConsistent, requests, releases,
}
use stockflow_erp_mock.Messaging.Consumer.Run.Confirmed.{Run-AllKept}
use stockflow_erp_mock.Messaging.Consumer.Loop.{
  Choice, consume, context_done, request, release, requests_closed, releases_closed, consume_loop,
}
use stockflow_erp_mock.Messaging.Consumer.Requests.{handle_delivery}
use stockflow_erp_mock.Messaging.Consumer.Releases.{handle_release_delivery}
use stockflow_erp_mock.Messaging.Consumer.Loop.Serving.{after_delivery-none, after_delivery-some}

module _ (codec : Codec) (max_retry_count : ℤ) where
  -- The worlds of the loop are those of a run of the service.
  consume_loop-Run :
      (choices : List Choice) {w : World}
      → Run codec max_retry_count w
      → Run codec max_retry_count (consume_loop codec max_retry_count choices w).1
  unfolding consume_loop
  consume_loop-Run [] run = run
  consume_loop-Run (context_done a b ∷ choices) run = run
  consume_loop-Run (requests_closed e ∷ choices) run = run
  consume_loop-Run (releases_closed e ∷ choices) run = run
  consume_loop-Run (request env delivery ∷ choices) {w} run =
      let p = handle_delivery codec max_retry_count env delivery w in
      let loop = consume_loop codec max_retry_count choices in
      elim (Option-cases p.0) [
        | inl e ↦
            rw (after_delivery-none loop p e) (consume_loop-Run choices (requests env delivery run))
        | inr (x, e) ↦ rw (after_delivery-some loop p x e) (requests env delivery run)
      ]
  consume_loop-Run (release env delivery ∷ choices) {w} run =
      let p = handle_release_delivery codec max_retry_count env delivery w in
      let loop = consume_loop codec max_retry_count choices in
      elim (Option-cases p.0) [
        | inl e ↦
            rw (after_delivery-none loop p e) (consume_loop-Run choices (releases env delivery run))
        | inr (x, e) ↦ rw (after_delivery-some loop p x e) (releases env delivery run)
      ]

  consume-Run :
      (requests_start releases_start : Bool) (choices : List Choice) {w : World}
      → Run codec max_retry_count w
      → Run codec max_retry_count
          (consume codec max_retry_count requests_start releases_start choices w).1
  unfolding consume
  consume-Run false b choices run = run
  consume-Run true false choices run = run
  consume-Run true true choices run = consume_loop-Run choices run

  -- From a repository whose seed fits, empty stores and an empty log, `Consume` may be left, or have
  -- returned, after any choices of its loop: the repository is then valid and the stores agree with
  -- it, and each confirmation that was sent has its reservation in it.
  pub consume-AllKept :
      (requests_start releases_start : Bool) (choices : List Choice) (seed : List StockSeed)
      {r : Repository} (w : World)
      → AllFit seed
      → new_inventory_repository (some tt) seed ≡ ok r
      → w.state ≡ initial_state r
      → w.log ≡ []
      → IsSystemConsistent
          (consume codec max_retry_count requests_start releases_start choices w).1.state
        × AllKept codec
            (consume codec max_retry_count requests_start releases_start choices
              w).1.state.repository
            (consume codec max_retry_count requests_start releases_start choices w).1.log
  consume-AllKept requests_start releases_start choices seed w fits seeded e f =
      let run = consume-Run requests_start releases_start choices (starts seed fits seeded e f) in
      (Run-IsSystemConsistent codec max_retry_count run, Run-AllKept codec max_retry_count run)
