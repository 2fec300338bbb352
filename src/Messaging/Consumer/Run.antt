-- ===== src/Messaging/Consumer/Run.antt =====
-- What cmd/erp-mock/main.go runs: the consumer over the state that starts with the seeded
-- repository and with empty stores, one delivery after the other, and stock set in between.
pub mod Confirmed
use stockflow_erp_mock.Common.{◌+◌, ◌≡◌, ◌≤◌, some, List, [], ok}
use stockflow_erp_mock.Common.Int.{ℤ, pos_part, max_int}
use stockflow_erp_mock.Common.Text.{Text, trim_space}
use stockflow_erp_mock.Common.Dict.{lookup}
use stockflow_erp_mock.Inventory.Model.{StockItem}
use stockflow_erp_mock.Memory.Repository.{
  Repository, CtxErr, StockSeed, reserved_of, set_stock, new_inventory_repository,
}
use stockflow_erp_mock.Memory.Repository.History.{AllFit, new-IsValid}
use stockflow_erp_mock.Memory.Repository.Preservation.{set_stock-IsValid}
use stockflow_erp_mock.Memory.Repository.Retention.{Grows, set_stock-Grows}
use stockflow_erp_mock.App.Reservation.Backing.{Grows-Agrees}
use stockflow_erp_mock.App.Release.Backing.{Grows-ReleasesAgree}
use stockflow_erp_mock.Messaging.Amqp.{Delivery, Codec}
use stockflow_erp_mock.Messaging.Consumer.{World, SystemState, Environment}
use stockflow_erp_mock.Messaging.Consumer.Requests.{handle_delivery}
use stockflow_erp_mock.Messaging.Consumer.Releases.{handle_release_delivery}
use stockflow_erp_mock.Messaging.Consumer.Consistency.{
  IsSystemConsistent, handle_delivery-IsSystemConsistent,
  handle_release_delivery-IsSystemConsistent,
}

-- `main`: the seeded repository, and a new store for each handler.
abbrev pub initial_state : Repository → SystemState
initial_state r = record { simulation = []; entries = []; releases = []; repository = r }

-- The worlds that a run of the service can reach, with the log of what it has done. The settings, the context and the answers of the
-- broker are other ones at each step. A `SetStock` leaves room for the reserved units.
pub data Run (codec : Codec) (max_retry_count : ℤ) : World → Type 0 where
  starts :
      (seed : List StockSeed) {r : Repository} {w : World}
      → AllFit seed
      → new_inventory_repository (some tt) seed ≡ ok r
      → w.state ≡ initial_state r
      → w.log ≡ []
      → Run codec max_retry_count w
  requests :
      (env : Environment) (delivery : Delivery) {w : World}
      → Run codec max_retry_count w
      → Run codec max_retry_count (handle_delivery codec max_retry_count env delivery w).1
  releases :
      (env : Environment) (delivery : Delivery) {w : World}
      → Run codec max_retry_count w
      → Run codec max_retry_count (handle_release_delivery codec max_retry_count env delivery w).1
  sets :
      (ctx_err : CtxErr) (sku : Text) (q : ℤ) {w : World} {r : Repository} {i : StockItem}
      → Run codec max_retry_count w
      → pos_part q + pos_part (reserved_of (lookup (trim_space sku) w.state.repository.stock))
        ≤ max_int
      → set_stock ctx_err sku q w.state.repository ≡ ok (r, i)
      → Run codec max_retry_count (record w { state = record w.state { repository = r } })

initial_state-IsSystemConsistent :
    (seed : List StockSeed) {r : Repository}
    → AllFit seed
    → new_inventory_repository (some tt) seed ≡ ok r
    → IsSystemConsistent (initial_state r)
unfolding lookup
initial_state-IsSystemConsistent seed fits h = record {
  valid = new-IsValid seed fits h;
  simulation = λ key result found c. cc found;
  entries = λ key result found c. cc found;
  releases = λ key result found c. cc found;
}

-- In every world that a run reaches, the repository is valid, and what the three stores have
-- answered agrees with it: each `confirmed` has its reservation, each `released` has one that is
-- released.
pub Run-IsSystemConsistent :
    (codec : Codec) (max_retry_count : ℤ) {w : World}
    → Run codec max_retry_count w
    → IsSystemConsistent w.state
Run-IsSystemConsistent codec limit (starts seed fits h e _) =
    rw e (initial_state-IsSystemConsistent seed fits h)
Run-IsSystemConsistent codec limit (requests env delivery {w = w} run) =
    handle_delivery-IsSystemConsistent codec limit env delivery w
      (Run-IsSystemConsistent codec limit run)
Run-IsSystemConsistent codec limit (releases env delivery {w = w} run) =
    handle_release_delivery-IsSystemConsistent codec limit env delivery w
      (Run-IsSystemConsistent codec limit run)
Run-IsSystemConsistent codec limit (sets ctx_err sku q {w = w} {r = r} run room h) =
    let c = Run-IsSystemConsistent codec limit run in
    let grows : Grows w.state.repository r = set_stock-Grows ctx_err sku q w.state.repository h in
    record {
      valid = set_stock-IsValid ctx_err sku q w.state.repository c.valid room h;
      simulation = Grows-Agrees w.state.simulation w.state.repository r grows c.simulation;
      entries = Grows-Agrees w.state.entries w.state.repository r grows c.entries;
      releases = Grows-ReleasesAgree w.state.releases w.state.repository r grows c.releases;
    }
