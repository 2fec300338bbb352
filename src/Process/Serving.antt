-- ===== src/Process/Serving.antt =====
-- What the loop that `run` of cmd/erp-mock/main.go starts does.
use stockflow_erp_mock.Common.{
  ℕ, Bool, ◌≡◌, ◌<◌, refl, sym, ap, ◌∙◌, Option, some, none, List, [], ◌∷◌, ok, arith, inl, inr,
  Result-cases,
}
use stockflow_erp_mock.Common.Int.{ℤ, pos_part}
use stockflow_erp_mock.Memory.Repository.{Repository, default_stock_seed}
use stockflow_erp_mock.Messaging.Amqp.{Codec}
use stockflow_erp_mock.Messaging.Consumer.{Metric, World}
use stockflow_erp_mock.Messaging.Consumer.Consistency.{IsSystemConsistent}
use stockflow_erp_mock.Messaging.Consumer.Promises.{AllKept}
use stockflow_erp_mock.Messaging.Consumer.Run.{initial_state}
use stockflow_erp_mock.Messaging.Consumer.Loop.{Choice, consume}
use stockflow_erp_mock.Messaging.Consumer.Loop.Service.{consume-AllKept}
use stockflow_erp_mock.Config.{Config, load}
use stockflow_erp_mock.Config.Loading.{load-positive}
use stockflow_erp_mock.Process.{Surroundings, Action, consume_started, run_seeded, run}
use stockflow_erp_mock.Process.Stopping.{default_repository}

-- The loop that was started last: its retry limit, and the repository of its handlers.
abbrev pub started : List Action → Option (ℤ × Repository)
started [] = none
started (consume_started max_retry_count r ∷ log) = some (max_retry_count, r)
started (_ ∷ log) = started log

-- The world of a loop at its start: the repository, empty stores and an empty log.
abbrev pub first_world : Repository → Option (List Metric) → World
first_world r metrics = record { state = initial_state r; log = []; metrics = metrics }

seeded-started :
    (s : Surroundings) (config : Config) (r : Repository) (max_retry_count : ℤ) (r' : Repository)
    → started (run_seeded s config (ok r)).1 ≡ some (max_retry_count, r')
    → (config.max_retry_count ≡ max_retry_count) × (r ≡ r')
seeded-started s config r max_retry_count r' h = ground (arith, h)

-- A loop that `run` starts has a positive retry limit, and whatever it meets, it keeps the repository
-- valid, the stores in agreement with it, and each confirmation that it sends backed.
pub run-AllKept :
    (s : Surroundings) (max_retry_count : ℤ) (r : Repository) (codec : Codec)
    (metrics : Option (List Metric)) (requests_start releases_start : Bool) (choices : List Choice)
    {w : World}
    → started (run s).1 ≡ some (max_retry_count, r)
    → (consume codec max_retry_count requests_start releases_start choices
        (first_world r metrics)).1
      ≡ w
    → (0 < pos_part max_retry_count)
      × IsSystemConsistent w.state
      × AllKept codec w.state.repository w.log
unfolding run
run-AllKept s max_retry_count r codec metrics requests_start releases_start choices h served =
    let (default, seeded) = default_repository in
    elim (Result-cases (load s.parsers s.getenv)) [
      | inr (e, f) ↦ absurd (ground (arith, h, f))
      | inl (config, f) ↦
          let same : run s ≡ run_seeded s config (ok default) = rw (f, seeded) refl in
          let (limit, own) =
            seeded-started s config default max_retry_count r
              (ap (λ (x : ℕ × List Action). started x.1) (sym same) ∙ h) in
          let (_, positive, _, _, _) = load-positive s.parsers s.getenv config f in
          let (consistent, kept) =
            consume-AllKept codec max_retry_count requests_start releases_start choices
              default_stock_seed (first_world r metrics) (omega arith) (seeded ∙ ap ok own) refl
              refl in
          (rw (sym limit) positive, rw (sym served) consistent, rw (sym served) kept)
    ]
