-- ===== src/Observability.antt =====
-- internal/observability/metrics.go: what `Collect` reads from the repository and from the dead-letter
-- administration, as the samples that it sends. A gauge's value is kept as the integer that is
-- converted to a float64.
pub mod Depths
pub mod Gauges
pub mod Counters
use stockflow_erp_mock.Common.{
  ℕ, suc, Bool, true, String, List, [], ◌∷◌, ◌++◌, map, Result, ok, err, if◌then◌else◌,
}
use stockflow_erp_mock.Common.Int.{ℤ, pos}
use stockflow_erp_mock.Common.Text.{Text}
use stockflow_erp_mock.Inventory.Errors.{Error}
use stockflow_erp_mock.Inventory.Model.{StockItem, Reservation}
use stockflow_erp_mock.Inventory.Service.{is_active}
use stockflow_erp_mock.Memory.Repository.{Repository, CtxErr}
use stockflow_erp_mock.Memory.Repository.Listing.{list_stock, list_reservations}
use stockflow_erp_mock.Messaging.Admin.{DeadLetterQueue}
use stockflow_erp_mock.Messaging.Admin.Depth.{dlq_depth}

-- The descriptors of `runtimeCollector`.
pub data Desc : Type 0 where
  current_stock active dlq_depths : Desc

pub data Sample : Type 0 where
  invalid_metric : Desc → Error → Sample
  stock_gauge : (sku : Text) (value : ℤ) → Sample
  active_gauge : (value : ℕ) → Sample
  depth_gauge : (queue : DeadLetterQueue) (messages : ℕ) → Sample

abbrev pub stock_sample : StockItem → Sample
stock_sample item = stock_gauge item.sku item.available_quantity

stock_samples : Result Error (List StockItem) → List Sample
stock_samples (err e) = invalid_metric current_stock e ∷ []
stock_samples (ok items) = map stock_sample items

unfoldable pub count_active : List Reservation → ℕ
count_active [] = 0
count_active (x ∷ xs) = let rest = count_active xs in if is_active x.status then suc rest else rest

active_samples : Result Error (List Reservation) → List Sample
unfolding count_active
active_samples (err e) = invalid_metric active e ∷ []
active_samples (ok all) = active_gauge (count_active all) ∷ []

abbrev pub depth_sample : DeadLetterQueue × ℕ → Sample
depth_sample (queue, messages) = depth_gauge queue messages

-- `range` goes over a map of two entries in either order.
abbrev pub ranged {ℓ} : {A : Type ℓ} → (swapped : Bool) → List A → List A
ranged true (a ∷ b ∷ []) = b ∷ a ∷ []
ranged _ entries = entries

unfoldable pub depth_samples :
    (swapped : Bool) → Result Error (List (DeadLetterQueue × ℕ)) → List Sample
depth_samples swapped (err e) = invalid_metric dlq_depths e ∷ []
depth_samples swapped (ok depths) = map depth_sample (ranged swapped depths)

-- `Collect`, with what the context's deadline makes of each of its three calls, and the order in
-- which it goes over the map of depths.
unfoldable pub collect :
    (stock_ctx reservations_ctx depth_ctx : CtxErr)
    → (swapped : Bool) → (String → Result Error ℕ)
    → Repository
    → List Sample
unfolding stock_samples active_samples depth_samples
collect stock_ctx reservations_ctx depth_ctx swapped inspect r =
    stock_samples (list_stock stock_ctx r)
    ++ (active_samples (list_reservations reservations_ctx r)
        ++ depth_samples swapped (dlq_depth depth_ctx inspect))
