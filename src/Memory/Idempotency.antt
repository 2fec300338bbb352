-- ===== src/Memory/Idempotency.antt =====
-- internal/storage/memory/idempotency_store.go: `IdempotencyStore.Execute` for one caller at a
-- time, which is how the consumer's loop calls it. The operation works on a state of its own.
pub mod Once
pub mod Concurrent
use stockflow_erp_mock.Common.{
  Bool, true, false, Option, none, some, is_empty, Result, ok, err, if◌then◌else◌,
}
use stockflow_erp_mock.Common.Text.{Text, trim_space}
use stockflow_erp_mock.Common.Dict.{Dict, lookup, insert}
use stockflow_erp_mock.Inventory.Errors.{Error, wraps, invalid_idempotency_key}
use stockflow_erp_mock.Memory.Repository.{CtxErr}

-- A call that may fail and that changes the state, also where it fails.
abbrev pub Action : Type 0 → Type 0 → Type 0
Action S A = S → Result Error A × S

module _ {S T : Type 0} where
  -- What the store does with the result of the operation.
  abbrev pub record_result :
      Text → Dict T → Result Error T × S → Result Error (T × Bool) × Dict T × S
  record_result key entries (ok result, s) = (ok (result, false), insert key result entries, s)
  record_result key entries (err e, s) = (err e, entries, s)

  -- The part under the lock: a stored result, or a call of the operation.
  abbrev pub execute_key :
      Text → Option T → Action S T → Dict T → S → Result Error (T × Bool) × Dict T × S
  execute_key key (some result) operation entries s = (ok (result, true), entries, s)
  execute_key key none operation entries s = record_result key entries (operation s)

  abbrev pub execute_checked :
      CtxErr → Text → Action S T → Dict T → S → Result Error (T × Bool) × Dict T × S
  execute_checked (some e) key operation entries s = (err (wraps e), entries, s)
  execute_checked none key operation entries s =
      execute_key key (lookup key entries) operation entries s

  -- The result, and whether it was a stored one.
  unfoldable pub execute :
      CtxErr → Text → Action S T → Dict T → S → Result Error (T × Bool) × Dict T × S
  execute ctx_err raw_key operation entries s =
      let key = trim_space raw_key in
      if is_empty key
      then (err (wraps invalid_idempotency_key), entries, s)
      else execute_checked ctx_err key operation entries s
