-- ===== src/App/Context.antt =====
-- What the handlers of internal/app share: the metadata of a message, and what the context
-- answers to each of the checks that a call makes on its way down.
use stockflow_erp_mock.Common.Int.{ℤ}
use stockflow_erp_mock.Common.Text.{Text}
use stockflow_erp_mock.Inventory.Model.{Time}
use stockflow_erp_mock.Memory.Repository.{CtxErr}

pub record MessageMetadata : Type 0 where
  pub message_id : Text
  pub correlation_id : Text
  pub causation_id : Text
  pub idempotency_key : Text
  pub occurred_at : Time
  pub schema_version : ℤ
  pub retry_count : ℤ

-- `ctx.Err()` as it is found while the simulated delay is waited for, in the store of the failure
-- simulation, in the store of the handler and in the repository; and the repository's clock.
pub record Context : Type 0 where
  pub wait : CtxErr
  pub simulation_store : CtxErr
  pub store : CtxErr
  pub repository : CtxErr
  pub now : Time
