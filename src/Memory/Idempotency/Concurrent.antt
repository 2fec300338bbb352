-- ===== src/Memory/Idempotency/Concurrent.antt =====
-- `IdempotencyStore.Execute` for callers on several goroutines. A caller holds the lock twice, as
-- it enters and as its operation has ended, so these are its steps; in between it runs the
-- operation, or waits for the call of another caller.
pub mod Invariant
pub mod Entering
pub mod Leaving
pub mod Safety
pub mod Alone
use stockflow_erp_mock.Common.{
  ℕ, Bool, true, false, Option, none, some, [], is_empty, Result, ok, err, if◌then◌else◌, ◌==◌, ◌≡◌,
}
use stockflow_erp_mock.Common.Text.{Text, trim_space}
use stockflow_erp_mock.Common.Dict.{Dict, lookup, insert, erase}
use stockflow_erp_mock.Inventory.Errors.{Sentinel, Error, wraps, invalid_idempotency_key}
use stockflow_erp_mock.Memory.Repository.{CtxErr}

-- `IdempotencyStore`, and the calls that it has made. The call that caller `c` makes is `c`;
-- `closed c` is what its `done` channel, once closed, lets others read.
pub record Store (T : Type 0) : Type 0 where
  pub entries : Dict T
  pub in_flight : Dict ℕ
  pub closed : ℕ → Option (Result Error T)

-- Where a caller stands, with its key.
pub data Pc (T : Type 0) : Type 0 where
  idle : Pc T
  running : Text → Pc T
  waiting : Text → (call : ℕ) → Pc T
  returned : Text → Result Error (T × Bool) → Pc T

module _ {ℓ} {A : Type ℓ} where
  -- The value at one index is replaced.
  abbrev pub update : (ℕ → A) → ℕ → A → ℕ → A
  update f i a j = if i == j then a else f j

module _ {T : Type 0} where
  -- The result, and whether it is another caller's.
  abbrev pub answer : Bool → Result Error T → Result Error (T × Bool)
  answer hit (ok t) = ok (t, hit)
  answer hit (err e) = err e

  abbrev pub enter_key : ℕ → Text → Option T → Option ℕ → Store T → Store T × Pc T
  enter_key i key (some t) call s = (s, returned key (ok (t, true)))
  enter_key i key none (some c) s = (s, waiting key c)
  enter_key i key none none s = (record s { in_flight = insert key i s.in_flight }, running key)

  abbrev pub enter_checked : ℕ → Text → CtxErr → Store T → Store T × Pc T
  enter_checked i key (some e) s = (s, returned key (err (wraps e)))
  enter_checked i key none s = enter_key i key (lookup key s.entries) (lookup key s.in_flight) s

  -- From the call of `Execute` to the first release of the lock.
  unfoldable pub enter : ℕ → Text → CtxErr → Store T → Store T × Pc T
  enter i raw_key ctx_err s =
      let key = trim_space raw_key in
      if is_empty key
      then (s, returned key (err (wraps invalid_idempotency_key)))
      else enter_checked i key ctx_err s

  abbrev pub stored : Text → Result Error T → Dict T → Dict T
  stored key (ok t) entries = insert key t entries
  stored key (err e) entries = entries

  -- From the end of the operation to the return.
  unfoldable pub leave : ℕ → Text → Result Error T → Store T → Store T × Pc T
  leave i key result s = (
    record {
      entries = stored key result s.entries;
      in_flight = erase key s.in_flight;
      closed = update s.closed i (some result);
    },
    returned key (answer false result),
  )

  -- What one caller can do next. The result of the operation is left open.
  pub data Move (s : Store T) (i : ℕ) : Pc T → Store T → Pc T → Type 0 where
    enters :
        (raw_key : Text) (ctx_err : CtxErr) {s' : Store T} {p : Pc T}
        → enter i raw_key ctx_err s ≡ (s', p)
        → Move s i idle s' p
    leaves :
        (key : Text) (result : Result Error T) {s' : Store T} {p : Pc T}
        → leave i key result s ≡ (s', p)
        → Move s i (running key) s' p
    wakes :
        (key : Text) (c : ℕ) (result : Result Error T)
        → s.closed c ≡ some result
        → Move s i (waiting key c) s (returned key (answer true result))
    gives_up :
        (key : Text) (c : ℕ) (e : Sentinel)
        → Move s i (waiting key c) s (returned key (err (wraps e)))

  -- `NewIdempotencyStore`
  abbrev pub new_store : Store T
  new_store = record { entries = []; in_flight = []; closed = λ _. none }

  -- The stores and callers that some interleaving of the callers reaches.
  pub data Reach : Store T → (ℕ → Pc T) → Type 0 where
    start : Reach new_store (λ _. idle)
    later :
        {s s' : Store T} {pc : ℕ → Pc T} {p : Pc T} (i : ℕ)
        → Reach s pc
        → Move s i (pc i) s' p
        → Reach s' (update pc i p)
