-- ===== src/Memory/Idempotency/Once.antt =====
-- The store runs an operation once for each key that it has a result of.
use stockflow_erp_mock.Common.{
  ◌≡◌, refl, Bool, true, false, none, some, is_empty, Result, ok, err, arith, Result-cases, Option,
  Option-cases, Bool-cases, ◌⊎◌, inl, inr,
}
use stockflow_erp_mock.Common.Text.{Text, trim_space}
use stockflow_erp_mock.Common.Dict.{Dict, lookup, insert, lookup-insert_self}
use stockflow_erp_mock.Inventory.Errors.{Error}
use stockflow_erp_mock.Memory.Repository.{CtxErr}
use stockflow_erp_mock.Memory.Idempotency.{Action, record_result, execute_checked, execute}

module _ {S T : Type 0} where
  -- A result that was returned is stored under its key.
  pub execute-stores :
      (ctx_err : CtxErr) (key : Text) (operation : Action S T) (entries : Dict T) (s : S)
      {result : T} {hit : Bool} {entries' : Dict T} {s' : S}
      → execute ctx_err key operation entries s ≡ (ok (result, hit), entries', s')
      → (is_empty (trim_space key) ≡ false) × (lookup (trim_space key) entries' ≡ some result)
  unfolding execute
  execute-stores (some x) key operation entries s h = ground arith
  execute-stores none key operation entries s h =
      elim (Option-cases (lookup (trim_space key) entries)) [
        | inl e ↦ elim (Result-cases (operation s).0) [
          | inl (t, f) ↦ ground (arith, lookup-insert_self (trim_space key) t entries)
          | inr (x, f) ↦ ground arith
        ]
        | inr (t, e) ↦ ground arith
      ]

  -- A stored result is returned as a hit.
  pub execute_hit :
      (key : Text) (operation : Action S T) (entries : Dict T) (s : S) (result : T)
      → is_empty (trim_space key) ≡ false
      → lookup (trim_space key) entries ≡ some result
      → execute none key operation entries s ≡ (ok (result, true), entries, s)
  unfolding execute
  execute_hit key operation entries s result h e = ground arith

  -- Once a call has returned a result, a later call with the same key, up to the spaces around it,
  -- returns that result as a hit, runs nothing, and changes neither the store nor the state.
  pub execute-execute :
      (ctx_err : CtxErr) (key key' : Text) (operation operation' : Action S T) (entries : Dict T)
      (s : S) {result : T} {hit : Bool} {entries' : Dict T} {s' : S}
      → execute ctx_err key operation entries s ≡ (ok (result, hit), entries', s')
      → trim_space key' ≡ trim_space key
      → execute none key' operation' entries' s' ≡ (ok (result, true), entries', s')
  execute-execute ctx_err key key' operation operation' entries s {result} {hit} {entries'} {s'} h
        e =
      let (named, stored) = execute-stores ctx_err key operation entries s h in
      execute_hit key' operation' entries' s' result (rw e named) (rw e stored)

  -- A call that returns an error stores nothing.
  pub execute-err :
      (ctx_err : CtxErr) (key : Text) (operation : Action S T) (entries : Dict T) (s : S)
      {x : Error} {entries' : Dict T} {s' : S}
      → execute ctx_err key operation entries s ≡ (err x, entries', s')
      → entries' ≡ entries
  unfolding execute
  execute-err (some x) key operation entries s h = ground arith
  execute-err none key operation entries s h =
      elim (Option-cases (lookup (trim_space key) entries)) [
        | inl e ↦ elim (Result-cases (operation s).0) [
          | inl (t, f) ↦ ground arith
          | inr (x, f) ↦ ground arith
        ]
        | inr (t, e) ↦ ground arith
      ]

  -- The two ways to a result: it was stored, or the operation has returned it and it is now.
  abbrev pub Hit : Text → Dict T → S → T → Bool → Dict T → S → Type 0
  Hit key entries s result hit entries' s' =
      (hit ≡ true)
      × (lookup (trim_space key) entries ≡ some result)
      × (entries' ≡ entries)
      × (s' ≡ s)

  abbrev pub Miss : Text → Action S T → Dict T → S → T → Bool → Dict T → S → Type 0
  Miss key operation entries s result hit entries' s' =
      (hit ≡ false)
      × (lookup (trim_space key) entries ≡ none)
      × ((operation s).0 ≡ ok result)
      × ((operation s).1 ≡ s')
      × (entries' ≡ insert (trim_space key) result entries)

  pub execute-eq_ok :
      (ctx_err : CtxErr) (key : Text) (operation : Action S T) (entries : Dict T) (s : S)
      {result : T} {hit : Bool} {entries' : Dict T} {s' : S}
      → execute ctx_err key operation entries s ≡ (ok (result, hit), entries', s')
      → Hit key entries s result hit entries' s'
        ⊎ Miss key operation entries s result hit entries' s'
  unfolding execute
  execute-eq_ok (some x) key operation entries s h = absurd (ground arith)
  execute-eq_ok none key operation entries s h =
      elim (Option-cases (lookup (trim_space key) entries)) [
        | inl e ↦ elim (Result-cases (operation s).0) [
          | inl (t, f) ↦ inr (ground arith, e, ground arith, ground arith, ground arith)
          | inr (x, f) ↦ absurd (ground arith)
        ]
        | inr (t, e) ↦ inl (ground arith, ground arith, ground arith, ground arith)
      ]

module _ {ℓ} {S T : Type 0} (P : Dict T → S → Type ℓ) where
  record_result-keeps :
      (key : Text) (entries : Dict T) (o : Result Error T × S)
      → ((x : Error) → o.0 ≡ err x → P entries o.1)
      → ((t : T) → o.0 ≡ ok t → P (insert key t entries) o.1)
      → P (record_result key entries o).1 (record_result key entries o).2
  record_result-keeps key entries (ok t, s) failed done = done t refl
  record_result-keeps key entries (err x, s) failed done = failed x refl

  -- What the operation keeps, with its result stored or with its error, a call keeps.
  pub execute-keeps :
      (ctx_err : CtxErr) (key : Text) (operation : Action S T) (entries : Dict T) (s : S)
      → P entries s
      → ((x : Error) → (operation s).0 ≡ err x → P entries (operation s).1)
      → ((t : T) → (operation s).0 ≡ ok t → P (insert (trim_space key) t entries) (operation s).1)
      → P (execute ctx_err key operation entries s).1 (execute ctx_err key operation entries s).2
  unfolding execute
  execute-keeps ctx_err key operation entries s p failed done =
      elim (Bool-cases (is_empty (trim_space key))) [
        | inl blank ↦ rw blank p
        | inr named ↦ rw named (checked ctx_err (lookup (trim_space key) entries) refl)
      ]
    where
      checked :
          (c : CtxErr) (found : Option T)
          → lookup (trim_space key) entries ≡ found
          → P
              (execute_checked c (trim_space key) operation entries s).1
              (execute_checked c (trim_space key) operation entries s).2
      checked (some x) found e = p
      checked none (some t) e = rw e p
      checked none none e =
          rw e (record_result-keeps (trim_space key) entries (operation s) failed done)
