-- ===== src/Memory/Idempotency/Concurrent/Safety.antt =====
-- The interleavings of the callers of internal/storage/memory/idempotency_store.go: the operations
-- and the results of a key, and the callers that wait.
use mathlib.Core.Path.{subst}
use mathlib.Core.Option.{some-injective}
use stockflow_erp_mock.Common.{
  ℕ, ◌≡◌, ◌≢◌, refl, sym, ◌∙◌, Bool, true, false, Option, none, some, is_empty, Result, ok, err,
  Bool-cases, ◌⊎◌, inl, inr,
}
use stockflow_erp_mock.Common.Text.{Text, trim_space}
use stockflow_erp_mock.Common.Dict.{lookup}
use stockflow_erp_mock.Inventory.Errors.{Error}
use stockflow_erp_mock.Memory.Repository.{CtxErr}
use stockflow_erp_mock.Memory.Idempotency.Concurrent.{
  Store, Pc, idle, running, waiting, returned, update, answer, enter, enter_checked, enter_key,
  leave, Move, enters, leaves, wakes, gives_up, new_store, Reach, start, later,
}
use stockflow_erp_mock.Memory.Idempotency.Concurrent.Invariant.{
  IsStored, IsAwaited, IsConsistent, Allowed,
}
use stockflow_erp_mock.Memory.Idempotency.Concurrent.Entering.{passive, lead}
use stockflow_erp_mock.Memory.Idempotency.Concurrent.Leaving.{leave-IsConsistent}

module _ {T : Type 0} where
  start-IsConsistent : IsConsistent {T = T} new_store (λ _. idle)
  unfolding lookup
  start-IsConsistent = record {
    unique = tt;
    listed = λ j key e. absurd (cc e);
    runs = λ j key e. absurd (cc e);
    unstored = λ j key e. absurd (cc e);
    kept = λ j key t hit e. absurd (cc e);
    once = λ j k key t u e f. absurd (cc e);
    unclosed = λ j h. refl;
    awaited = λ j key c e. absurd (cc e);
  }

  module _ (s : Store T) (pc : ℕ → Pc T) (i : ℕ) (v : IsConsistent s pc) where
    quiet :
        (p : Pc T)
        → Allowed s pc p
        → ((k : Text) → pc i ≢ running k)
        → IsConsistent s (update pc i p)
    quiet p allowed still = passive s pc i v p still allowed

    enter_key-IsConsistent :
        (key : Text)
        → pc i ≡ idle
        → (found : Option T) → lookup key s.entries ≡ found
        → (call : Option ℕ) → lookup key s.in_flight ≡ call
        → IsConsistent
            (enter_key i key found call s).0
            (update pc i (enter_key i key found call s).1)
    enter_key-IsConsistent key here (some t) e call f =
        quiet (returned key (ok (t, true))) (refl, e) (λ k g. cc (sym here ∙ g))
    enter_key-IsConsistent key here none e (some c) f =
        quiet (waiting key c) (inl (v.runs c key f)) (λ k g. cc (sym here ∙ g))
    enter_key-IsConsistent key here none e none f = lead s pc i v key here e f

    enter-IsConsistent :
        (raw_key : Text) (ctx_err : CtxErr)
        → pc i ≡ idle
        → IsConsistent (enter i raw_key ctx_err s).0 (update pc i (enter i raw_key ctx_err s).1)
    unfolding enter
    enter-IsConsistent raw_key ctx_err here = elim (Bool-cases (is_empty (trim_space raw_key))) [
      | inl blank ↦ rw blank (quiet _ tt (λ k g. cc (sym here ∙ g)))
      | inr named ↦ rw named (checked ctx_err)
    ]
      where
        checked :
            (c : CtxErr)
            → IsConsistent
                (enter_checked i (trim_space raw_key) c s).0
                (update pc i (enter_checked i (trim_space raw_key) c s).1)
        checked (some e) = quiet _ tt (λ k g. cc (sym here ∙ g))
        checked none = enter_key-IsConsistent (trim_space raw_key) here _ refl _ refl

    IsStored-Allowed :
        (key : Text) (result : Result Error T)
        → IsStored key result s.entries
        → Allowed s pc (returned key (answer true result))
    IsStored-Allowed key (ok t) e = (refl, e)
    IsStored-Allowed key (err x) e = tt

    woken-Allowed :
        (key : Text) (c : ℕ) (result : Result Error T)
        → s.closed c ≡ some result
        → IsAwaited s pc key c
        → Allowed s pc (returned key (answer true result))
    woken-Allowed key c result closed (inl r) =
        absurd (cc (sym closed ∙ v.unclosed c (inr (key, r))))
    woken-Allowed key c result closed (inr (r, closed', is_stored)) =
        let same : r ≡ result = cc in
        IsStored-Allowed key result
          (subst (λ (o : Result Error T). IsStored key o s.entries) same is_stored)

    Move-IsConsistent :
        {p p' : Pc T} {s' : Store T}
        → pc i ≡ p
        → Move s i p s' p'
        → IsConsistent s' (update pc i p')
    unfolding leave
    Move-IsConsistent here (enters raw_key ctx_err e) =
        subst (λ (o : Store T × Pc T). IsConsistent o.0 (update pc i o.1)) e
          (enter-IsConsistent raw_key ctx_err here)
    Move-IsConsistent here (leaves key result e) =
        subst (λ (o : Store T × Pc T). IsConsistent o.0 (update pc i o.1)) e
          (leave-IsConsistent s pc i v key result here)
    Move-IsConsistent here (wakes key c result closed) =
        quiet _ (woken-Allowed key c result closed (v.awaited i key c here))
          (λ k g. cc (sym here ∙ g))
    Move-IsConsistent here (gives_up key c e) = quiet _ tt (λ k g. cc (sym here ∙ g))

  Reach-IsConsistent : {s : Store T} {pc : ℕ → Pc T} → Reach s pc → IsConsistent s pc
  Reach-IsConsistent start = start-IsConsistent
  Reach-IsConsistent (later {s = s} {pc = pc} i r mv) =
      Move-IsConsistent s pc i (Reach-IsConsistent r) refl mv

  -- While a caller runs the operation of a key, no other caller runs one of that key, and none has
  -- returned a result for it.
  pub single_flight :
      {s : Store T} {pc : ℕ → Pc T} (i : ℕ) (key : Text)
      → Reach s pc
      → pc i ≡ running key
      → ((j : ℕ) → pc j ≡ running key → i ≡ j)
        × ((j : ℕ) (t : T) (hit : Bool) → pc j ≢ returned key (ok (t, hit)))
  single_flight {s} {pc} i key r here =
      let v = Reach-IsConsistent r in
      let own : lookup key s.in_flight ≡ some i = v.listed i key here in
      (
        λ j there. some-injective i j (sym own ∙ v.listed j key there),
        λ j t hit e. cc (sym (v.unstored i key own) ∙ v.kept j key t hit e),
      )

  -- All callers that return a result for a key return the same one, and at most one of them has run
  -- the operation that made it.
  pub one_result :
      {s : Store T} {pc : ℕ → Pc T} (i j : ℕ) (key : Text) (t u : T) (hit hit' : Bool)
      → Reach s pc
      → pc i ≡ returned key (ok (t, hit))
      → pc j ≡ returned key (ok (u, hit'))
      → (t ≡ u) × (hit ≡ false → hit' ≡ false → i ≡ j)
  one_result {s} {pc} i j key t u hit hit' r e f =
      let v = Reach-IsConsistent r in
      (
        some-injective t u (sym (v.kept i key t hit e) ∙ v.kept j key u hit' f),
        λ h h'. v.once i j key t u (rw h at e) (rw h' at f),
      )

  -- A caller that waits can return: the call it waits for is still running, or the caller's next
  -- step is to return what that call has returned.
  pub waiting_is_answered :
      {s : Store T} {pc : ℕ → Pc T} (i c : ℕ) (key : Text)
      → Reach s pc
      → pc i ≡ waiting key c
      → (pc c ≡ running key)
        ⊎ ((result : Result Error T) × (s.closed c ≡ some result)
            × Move s i (waiting key c) s (returned key (answer true result)))
  waiting_is_answered i c key r here = elim ((Reach-IsConsistent r).awaited i key c here) [
    | inl e ↦ inl e
    | inr (result, closed, _) ↦ inr (result, closed, wakes key c result closed)
  ]
