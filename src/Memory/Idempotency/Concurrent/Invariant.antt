-- ===== src/Memory/Idempotency/Concurrent/Invariant.antt =====
-- What holds of the store and its callers after every step.
use stockflow_erp_mock.Common.{ℕ, ◌≡◌, Bool, true, false, none, some, Result, ok, err, ◌⊎◌}
use stockflow_erp_mock.Common.Text.{Text}
use stockflow_erp_mock.Common.Dict.{Dict, lookup, HasUniqueKeys}
use stockflow_erp_mock.Inventory.Errors.{Error}
use stockflow_erp_mock.Memory.Idempotency.Concurrent.{Store, Pc, idle, running, waiting, returned}

module _ {T : Type 0} where
  -- A closed call that has succeeded has its result in the entries.
  abbrev pub IsStored : Text → Result Error T → Dict T → Type 0
  IsStored key (ok t) entries = lookup key entries ≡ some t
  IsStored key (err e) entries = Unit

  -- The call that a caller waits for is running, or it is closed.
  abbrev pub IsAwaited : Store T → (ℕ → Pc T) → Text → ℕ → Type 0
  IsAwaited s pc key c =
      (pc c ≡ running key)
      ⊎ ((result : Result Error T) × (s.closed c ≡ some result) × IsStored key result s.entries)

  pub record IsConsistent (s : Store T) (pc : ℕ → Pc T) : Type 0 where
    pub unique : HasUniqueKeys s.in_flight
    pub listed : (j : ℕ) (key : Text) → pc j ≡ running key → lookup key s.in_flight ≡ some j
    pub runs : (j : ℕ) (key : Text) → lookup key s.in_flight ≡ some j → pc j ≡ running key
    pub unstored :
        (j : ℕ) (key : Text) → lookup key s.in_flight ≡ some j → lookup key s.entries ≡ none
    pub kept :
        (j : ℕ) (key : Text) (t : T) (hit : Bool)
        → pc j ≡ returned key (ok (t, hit))
        → lookup key s.entries ≡ some t
    pub once :
        (j k : ℕ) (key : Text) (t u : T)
        → pc j ≡ returned key (ok (t, false))
        → pc k ≡ returned key (ok (u, false))
        → j ≡ k
    pub unclosed :
        (j : ℕ) → (pc j ≡ idle) ⊎ ((key : Text) × (pc j ≡ running key)) → s.closed j ≡ none
    pub awaited : (j : ℕ) (key : Text) (c : ℕ) → pc j ≡ waiting key c → IsAwaited s pc key c

  -- What a caller may come to without a change of the store.
  abbrev pub Allowed : Store T → (ℕ → Pc T) → Pc T → Type 0
  Allowed s pc idle = ⊥
  Allowed s pc (running key) = ⊥
  Allowed s pc (waiting key c) = IsAwaited s pc key c
  Allowed s pc (returned key (ok (t, hit))) = (hit ≡ true) × (lookup key s.entries ≡ some t)
  Allowed s pc (returned key (err e)) = Unit
