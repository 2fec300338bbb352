-- ===== src/Process/Stopping.antt =====
-- How `run` of cmd/erp-mock/main.go ends: what it has opened, and its exit code.
use stockflow_erp_mock.Common.{
  Bool, true, false, ◌≡◌, ◌↔◌, refl, sym, ap, ◌∙◌, some, List, [], ◌∷◌, Result, ok, err, arith, inl,
  inr, Result-cases,
}
use stockflow_erp_mock.Common.Int.{ℤ}
use stockflow_erp_mock.Inventory.Errors.{Error}
use stockflow_erp_mock.Memory.Repository.{
  Repository, default_stock_seed, new_inventory_repository, seed_stock,
}
use stockflow_erp_mock.Common.Text.{text_eq, trim_space, trim_left, trim_right, is_space}
use stockflow_erp_mock.Common.Dict.{lookup, insert}
use stockflow_erp_mock.Inventory.Model.{new_stock_item}
use stockflow_erp_mock.Config.{Config, load}
use stockflow_erp_mock.Process.{
  Client, consumer, publisher, admin, Stop, signal, server_stopped, consumer_stopped, Surroundings,
  Action, opened, closed, consume_started, set_ready, consume_cancelled, Exit, exit_code_of,
  serve_until, run_seeded, run_configured, run,
}

-- A client is open where its last action has opened it.
abbrev pub is_open : Client → List Action → Bool
is_open c [] = false
is_open consumer (opened consumer ∷ log) = true
is_open publisher (opened publisher ∷ log) = true
is_open admin (opened admin ∷ log) = true
is_open consumer (closed consumer ∷ log) = false
is_open publisher (closed publisher ∷ log) = false
is_open admin (closed admin ∷ log) = false
is_open c (_ ∷ log) = is_open c log

-- The last value of the flag.
abbrev pub is_ready : List Action → Bool
is_ready [] = false
is_ready (set_ready b ∷ log) = b
is_ready (_ ∷ log) = is_ready log

-- The loop of `Consume` was started and its context not cancelled since.
abbrev pub is_consuming : List Action → Bool
is_consuming [] = false
is_consuming (consume_started _ _ ∷ log) = true
is_consuming (consume_cancelled ∷ log) = false
is_consuming (_ ∷ log) = is_consuming log

-- Nothing is left behind.
abbrev pub IsStopped : List Action → Type 0
IsStopped log =
    ((c : Client) → is_open c log ≡ false) × (is_ready log ≡ false) × (is_consuming log ≡ false)

-- The log of the rest of `run`, once the metrics are to be registered.
served-IsStopped :
    (s : Surroundings) (r : Repository) (n : ℤ) (b : Bool) (log : List Action)
    → is_ready log ≡ false
    → is_consuming log ≡ false
    → (is_ready (serve_until s n r b log).1 ≡ false)
      × (is_consuming (serve_until s n r b log).1 ≡ false)
served-IsStopped s r n b log e f = (ground arith, ground arith)

opened-IsStopped :
    (s : Surroundings) (config : Config) (seeded : Result Error Repository)
    → IsStopped (run_seeded s config seeded).1
opened-IsStopped s config (err e) = (λ c. refl, refl, refl)
opened-IsStopped s config (ok r) = (
  (λ c. elim c [ consumer ↦ ground arith | publisher ↦ ground arith | admin ↦ ground arith ]),
  ground arith,
  ground arith,
)

configured-IsStopped :
    (s : Surroundings) (loaded : Result Error Config) → IsStopped (run_configured s loaded).1
configured-IsStopped s (err e) = (λ c. refl, refl, refl)
configured-IsStopped s (ok config) = opened-IsStopped s config _

-- However `run` ends, each client that was opened is closed, the flag of readiness is down, and the
-- context of a loop of `Consume` that was started is cancelled.
pub run-IsStopped : (s : Surroundings) → IsStopped (run s).1
unfolding run
run-IsStopped s = configured-IsStopped s (load s.parsers s.getenv)

-- A signal, a server that was shut down, or a loop that returned no error.
abbrev pub StopsCleanly : Stop → Type 0
StopsCleanly signal = Unit
StopsCleanly (server_stopped server_closed) = server_closed ≡ true
StopsCleanly (consumer_stopped failed) = failed ≡ false

-- All that `run` asks of its surroundings.
pub record IsClean (s : Surroundings) : Type 0 where
  pub loads : (config : Config) × (load s.parsers s.getenv ≡ ok config)
  pub opens : (s.opens consumer ≡ true) × (s.opens publisher ≡ true) × (s.opens admin ≡ true)
  pub registers : s.metrics_register ≡ true
  pub stops : StopsCleanly s.stop
  pub closes : (s.closes consumer ≡ true) × (s.closes publisher ≡ true) × (s.closes admin ≡ true)
  pub shuts_down : s.shuts_down ≡ true

exit_code_of-zero : (stop : Stop) → (exit_code_of stop ≡ 0) ↔ StopsCleanly stop
exit_code_of-zero signal = (λ e. tt, λ c. refl)
exit_code_of-zero (server_stopped b) = ground arith
exit_code_of-zero (consumer_stopped b) = ground arith

pub default_repository :
    (r : Repository) × (new_inventory_repository (some tt) default_stock_seed ≡ ok r)
unfolding new_inventory_repository seed_stock new_stock_item lookup insert trim_space trim_left
    trim_right is_space text_eq
default_repository = (_, refl)

seeded-code :
    (s : Surroundings) (config : Config) (r : Repository)
    → ((run_seeded s config (ok r)).0 ≡ 0) ↔ (
        ((s.opens consumer ≡ true) × (s.opens publisher ≡ true) × (s.opens admin ≡ true))
        × (s.metrics_register ≡ true)
        × (exit_code_of s.stop ≡ 0)
        × ((s.closes consumer ≡ true) × (s.closes publisher ≡ true) × (s.closes admin ≡ true))
        × (s.shuts_down ≡ true))
seeded-code s config r = ground arith

-- The exit code is 0 exactly where the environment describes a configuration, all clients open, the
-- metrics are registered, the process stops cleanly, and all clients and the server close.
pub run_succeeds_iff : (s : Surroundings) → ((run s).0 ≡ 0) ↔ IsClean s
unfolding run
run_succeeds_iff s =
    let (r, seeded) = default_repository in
    elim (Result-cases (load s.parsers s.getenv)) [
      | inr (e, h) ↦ (
        λ zero_code. absurd (ground (arith, h, zero_code)),
        λ clean. let (config, loaded) = clean.loads in absurd (ground (arith, h, loaded)),
      )
      | inl (config, h) ↦
          let same : run s ≡ run_seeded s config (ok r) = rw (h, seeded) refl in
          let code = seeded-code s config r in
          (
            λ zero_code.
                let (opens, registers, stops, closes, shuts_down) =
                  code.0 (ap (λ (x : Exit). x.0) (sym same) ∙ zero_code) in
                record {
                  loads = (config, h);
                  opens = opens;
                  registers = registers;
                  stops = (exit_code_of-zero s.stop).0 stops;
                  closes = closes;
                  shuts_down = shuts_down;
                },
            λ clean.
                ap (λ (x : Exit). x.0) same
                ∙ code.1 (
                  clean.opens,
                  clean.registers,
                  (exit_code_of-zero s.stop).1 clean.stops,
                  clean.closes,
                  clean.shuts_down,
                ),
          )
    ]
