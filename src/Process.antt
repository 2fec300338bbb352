-- ===== src/Process.antt =====
-- `run` of cmd/erp-mock/main.go: what the process opens, starts, stops and closes, and its exit code.
pub mod Stopping
pub mod Serving
use stockflow_erp_mock.Common.{
  ℕ, Bool, true, false, some, List, [], ◌∷◌, Result, ok, err, if◌then◌else◌,
}
use stockflow_erp_mock.Common.Int.{ℤ}
use stockflow_erp_mock.Inventory.Errors.{Error}
use stockflow_erp_mock.Memory.Repository.{Repository, default_stock_seed, new_inventory_repository}
use stockflow_erp_mock.Config.{Config, Parsers, Getenv, load}

-- The clients that hold a connection.
pub data Client : Type 0 where
  consumer publisher admin : Client

-- What the `select` receives: a signal, the end of the HTTP server, which may be
-- `http.ErrServerClosed`, or the end of `Consume`, which may have an error.
pub data Stop : Type 0 where
  signal : Stop
  server_stopped : (server_closed : Bool) → Stop
  consumer_stopped : (failed : Bool) → Stop

-- What the process meets. `opens` is the result of `NewConsumer`, `NewPublisher` and `NewAdmin`,
-- `closes` that of the first `Close`; a later one returns nil.
pub record Surroundings : Type 0 where
  pub parsers : Parsers
  pub getenv : Getenv
  pub opens : Client → Bool
  pub metrics_register : Bool
  pub stop : Stop
  pub closes : Client → Bool
  pub shuts_down : Bool

-- What the process does; a log has the newest first.
pub data Action : Type 0 where
  opened closed : Client → Action
  consume_started : (max_retry_count : ℤ) → Repository → Action
  set_ready : Bool → Action
  consume_cancelled server_shut_down : Action

-- The exit code, and the log.
abbrev pub Exit : Type 0
Exit = ℕ × List Action

-- `New…` and the deferred `Close` around the rest of `run`.
abbrev pub with_client : Client → Bool → (List Action → Exit) → List Action → Exit
with_client c false rest log = (1, log)
with_client c true rest log = let (code, log') = rest (opened c ∷ log) in (code, closed c ∷ log')

-- A `Close` that ends `run` where it fails.
abbrev pub then_close : Client → Bool → (List Action → Exit) → List Action → Exit
then_close c false rest log = (1, closed c ∷ log)
then_close c true rest log = rest (closed c ∷ log)

abbrev pub shut_down : Bool → ℕ → List Action → Exit
shut_down false exit_code log = (1, server_shut_down ∷ log)
shut_down true exit_code log = (exit_code, server_shut_down ∷ log)

abbrev pub exit_code_of : Stop → ℕ
exit_code_of signal = 0
exit_code_of (server_stopped server_closed) = if server_closed then 0 else 1
exit_code_of (consumer_stopped failed) = if failed then 1 else 0

module _ (s : Surroundings) where
  -- From the flag's reset to the end.
  abbrev pub stop_all : List Action → Exit
  stop_all log =
      then_close consumer (s.closes consumer)
        (then_close publisher (s.closes publisher)
          (then_close admin (s.closes admin) (shut_down s.shuts_down (exit_code_of s.stop))))
        (consume_cancelled ∷ set_ready false ∷ log)

  -- From the registration of the metrics, with the deferred `cancelConsumer`.
  abbrev pub serve_until : ℤ → Repository → Bool → List Action → Exit
  serve_until max_retry_count r false log = (1, log)
  serve_until max_retry_count r true log =
      let (code, log') = stop_all (set_ready true ∷ consume_started max_retry_count r ∷ log) in
      (code, consume_cancelled ∷ log')

  abbrev pub run_seeded : Config → Result Error Repository → Exit
  run_seeded config (err e) = (1, [])
  run_seeded config (ok r) =
      with_client consumer (s.opens consumer)
        (with_client publisher (s.opens publisher) (
          with_client admin (s.opens admin)
            (serve_until config.max_retry_count r s.metrics_register)))
        []

  abbrev pub run_configured : Result Error Config → Exit
  run_configured (err e) = (1, [])
  run_configured (ok config) =
      run_seeded config (new_inventory_repository (some tt) default_stock_seed)

  unfoldable pub run : Exit
  run = run_configured (load s.parsers s.getenv)
