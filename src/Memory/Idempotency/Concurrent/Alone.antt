-- ===== src/Memory/Idempotency/Concurrent/Alone.antt =====
-- A caller of the concurrent store that meets no other one, and the caller of its key after it.
use stockflow_erp_mock.Common.{
  ℕ, ◌≡◌, refl, ◌⊎◌, inl, inr, true, false, none, some, is_empty, Result, ok, err, arith,
}
use stockflow_erp_mock.Common.Text.{Text, trim_space}
use stockflow_erp_mock.Common.Dict.{lookup, insert, lookup-insert_self, lookup-erase_inserted}
use stockflow_erp_mock.Inventory.Errors.{Error}
use stockflow_erp_mock.Memory.Repository.{CtxErr}
use stockflow_erp_mock.Memory.Idempotency.{Action, execute}
use stockflow_erp_mock.Memory.Idempotency.Concurrent.{Store, Pc, running, returned, enter, leave}

module _ {T : Type 0} where
  enter-running :
      (i : ℕ) (raw_key : Text) (s : Store T)
      → is_empty (trim_space raw_key) ≡ false
      → lookup (trim_space raw_key) s.in_flight ≡ none
      → lookup (trim_space raw_key) s.entries ≡ none
      → enter i raw_key none s ≡ (
        record s { in_flight = insert (trim_space raw_key) i s.in_flight },
        running (trim_space raw_key),
      )
  unfolding enter
  enter-running i raw_key s named free fresh = rw (named, fresh, free) refl

  enter-returned :
      (i : ℕ) (raw_key : Text) (s : Store T) (t : T)
      → is_empty (trim_space raw_key) ≡ false
      → lookup (trim_space raw_key) s.entries ≡ some t
      → enter i raw_key none s ≡ (s, returned (trim_space raw_key) (ok (t, true)))
  unfolding enter
  enter-returned i raw_key s t named found = rw (named, found) refl

module _ {S T : Type 0} where
  -- The caller goes on without a step of another one: the operation, if it is to run it, and the
  -- return.
  abbrev pub go_on : ℕ → Action S T → Store T × Pc T → S → Store T × Pc T × S
  go_on i operation (s, running key) x =
      let (result, y) = operation x in let (s', p) = leave i key result s in (s', p, y)
  go_on i operation (s, p) x = (s, p, x)

  -- A call of `Execute` that nobody interrupts, with no error of the context.
  abbrev pub call_alone : ℕ → Text → Action S T → Store T → S → Store T × Pc T × S
  call_alone i raw_key operation s x = go_on i operation (enter i raw_key none s) x

  -- Where no call for its key is in flight, a caller that nobody interrupts returns what `execute`
  -- returns, and leaves the entries and the state that `execute` leaves.
  alone-execute :
      (i : ℕ) (raw_key : Text) (ctx_err : CtxErr) (operation : Action S T) (s : Store T) (x : S)
      → lookup (trim_space raw_key) s.in_flight ≡ none
      → (s' : Store T) × (go_on i operation (enter i raw_key ctx_err s) x ≡ (
        s',
        returned (trim_space raw_key) (execute ctx_err raw_key operation s.entries x).0,
        (execute ctx_err raw_key operation s.entries x).2,
      ))
        × (s'.entries ≡ (execute ctx_err raw_key operation s.entries x).1)
  unfolding enter leave execute
  alone-execute i raw_key ctx_err operation s x free =
      ((go_on i operation (enter i raw_key ctx_err s) x).0, ground arith, ground arith)

  Action-cases :
      (p : Result Error T × S)
      → ((t : T) × (y : S) × (p ≡ (ok t, y))) ⊎ ((e : Error) × (y : S) × (p ≡ (err e, y)))
  Action-cases (ok t, y) = inl (t, y, refl)
  Action-cases (err e, y) = inr (e, y, refl)

  -- A caller that nobody interrupts calls with a key that is not blank, has no stored result and no
  -- call in flight, and then a second one calls with the same key up to the spaces around it, neither
  -- with an error of the context. If the operation of the first succeeds, the first returns its
  -- result, and the second returns that result as a stored one, without running its own operation or
  -- changing the store. If it fails, the first returns the error, nothing is stored, the key is free
  -- again, and the second runs its own operation.
  pub first_call_decides :
      (i j : ℕ) (raw_key later_key : Text) (operation later_operation : Action S T) (s : Store T)
      (x z : S)
      → is_empty (trim_space raw_key) ≡ false
      → lookup (trim_space raw_key) s.in_flight ≡ none
      → lookup (trim_space raw_key) s.entries ≡ none
      → trim_space later_key ≡ trim_space raw_key
      → (s' : Store T) × (((t : T) × (y : S) × (operation x ≡ (ok t, y))
            × (call_alone i raw_key operation s x
                ≡ (s', returned (trim_space raw_key) (ok (t, false)), y))
            × (call_alone j later_key later_operation s' z
                ≡ (s', returned (trim_space raw_key) (ok (t, true)), z)))
          ⊎ ((e : Error) × (y : S) × (operation x ≡ (err e, y))
              × (call_alone i raw_key operation s x
                  ≡ (s', returned (trim_space raw_key) (err e), y))
              × (s'.entries ≡ s.entries)
              × (lookup (trim_space raw_key) s'.in_flight ≡ none)
              × ((call_alone j later_key later_operation s' z).2 ≡ (later_operation z).1)))
  unfolding leave
  first_call_decides i j raw_key later_key operation later_operation s x z named free fresh same =
      let key = trim_space raw_key in
      let enters = enter-running i raw_key s named free fresh in
      let later_named : is_empty (trim_space later_key) ≡ false = rw same named in
      let held = insert key i s.in_flight in
      elim (Action-cases (operation x)) [
        | inl (t, y, e) ↦
            let s' = (leave i key (ok t) (record s { in_flight = held })).0 in
            let found : lookup (trim_space later_key) s'.entries ≡ some t =
              rw same (lookup-insert_self key t s.entries) in
            let second = enter-returned j later_key s' t later_named found in
            (s', inl (t, y, e, rw (enters, e) refl, rw (second, same) refl))
        | inr (f, y, e) ↦
            let s' = (leave i key (err f) (record s { in_flight = held })).0 in
            let gone : lookup key s'.in_flight ≡ none =
              lookup-erase_inserted key i s.in_flight free in
            let second = enter-running j later_key s' later_named (rw same gone) (rw same fresh) in
            (s', inr (f, y, e, rw (enters, e) refl, refl, gone, rw second refl))
      ]
