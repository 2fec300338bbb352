-- ===== src/Tests/Process.antt =====
-- The process with the default configuration, from its start to a signal.
use stockflow_erp_mock.Common.{true, ◌≡◌, ◌<◌, ◌↔◌, refl, some, List, [], ◌∷◌}
use stockflow_erp_mock.Common.Int.{pos, pos_part}
use stockflow_erp_mock.Common.Text.{text, text_eq, trim_space, trim_left, trim_right, is_space}
use stockflow_erp_mock.Common.Dict.{lookup, insert}
use stockflow_erp_mock.Inventory.Model.{StockItem, new_stock_item}
use stockflow_erp_mock.Memory.Repository.{Repository, new_inventory_repository, seed_stock}
use stockflow_erp_mock.Messaging.Consumer.{World, Metric}
use stockflow_erp_mock.Messaging.Consumer.Consistency.{IsSystemConsistent}
use stockflow_erp_mock.Messaging.Consumer.Promises.{AllKept}
use stockflow_erp_mock.Messaging.Consumer.Loop.{consume, consume_loop}
use stockflow_erp_mock.Messaging.Consumer.Settlement.{settlements}
use stockflow_erp_mock.Observability.Counters.{counters_of}
use stockflow_erp_mock.Observability.Counters.Balance.{IsBalanced}
use stockflow_erp_mock.Observability.Counters.Looped.{consume_loop-IsBalanced}
use stockflow_erp_mock.Config.{
  load, string_from_env, duration_from_env, positive_int_from_env, parse_log_level,
}
use stockflow_erp_mock.Process.{Surroundings, signal, run}
use stockflow_erp_mock.Process.Stopping.{IsStopped, IsClean, run-IsStopped, run_succeeds_iff}
use stockflow_erp_mock.Process.Serving.{started, first_world, run-AllKept}
use stockflow_erp_mock.Tests.Messages.{codec, world}
use stockflow_erp_mock.Tests.Service.{parsers, getenv, choices}

abbrev surroundings : Surroundings
surroundings = record {
  parsers = parsers;
  getenv = getenv;
  opens = λ c. true;
  metrics_register = true;
  stop = signal;
  closes = λ c. true;
  shuts_down = true;
}

run-IsStopped_example : IsStopped (run surroundings).1
run-IsStopped_example = run-IsStopped surroundings

run_succeeds_iff_example : ((run surroundings).0 ≡ 0) ↔ IsClean surroundings
run_succeeds_iff_example = run_succeeds_iff surroundings

abbrev red_mug : StockItem
red_mug = record {
  sku = text "sku-red-mug";
  available_quantity = pos 120;
  reserved_quantity = pos 0;
}

abbrev blue_notebook : StockItem
blue_notebook = record {
  sku = text "sku-blue-notebook";
  available_quantity = pos 80;
  reserved_quantity = pos 0;
}

abbrev black_bag : StockItem
black_bag = record {
  sku = text "sku-black-bag";
  available_quantity = pos 40;
  reserved_quantity = pos 0;
}

abbrev default : Repository
default = record {
  stock =
      (text "sku-red-mug", red_mug)
      ∷ (text "sku-blue-notebook", blue_notebook)
      ∷ (text "sku-black-bag", black_bag)
      ∷ [];
  reservations = [];
}

default-started : started (run surroundings).1 ≡ some (pos 3, default)
unfolding run load string_from_env duration_from_env positive_int_from_env parse_log_level
    new_inventory_repository seed_stock new_stock_item lookup insert trim_space trim_left trim_right
    is_space text_eq
default-started = refl

abbrev last : World
last = (consume codec (pos 3) true true choices (first_world default (some []))).1

run-AllKept_example :
    (0 < pos_part (pos 3))
    × IsSystemConsistent last.state
    × AllKept codec last.state.repository last.log
run-AllKept_example =
    run-AllKept surroundings (pos 3) default codec (some []) true true choices default-started refl

consume_loop-IsBalanced_example :
    (calls : List Metric) × ((consume_loop codec (pos 3) choices world).1.metrics ≡ some calls)
    × IsBalanced (settlements (consume_loop codec (pos 3) choices world).1.log) (counters_of calls)
consume_loop-IsBalanced_example = consume_loop-IsBalanced codec (pos 3) choices world refl refl
