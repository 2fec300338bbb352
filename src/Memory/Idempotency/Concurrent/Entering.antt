-- ===== src/Memory/Idempotency/Concurrent/Entering.antt =====
-- What the steps of a caller that does not end an operation make of the invariant.
use mathlib.Core.Path.{subst}
use stockflow_erp_mock.Common.{ℕ, ◌≡◌, ◌≢◌, none, arith, ◌==◌, ==_iff, Bool-cases, ◌⊎◌, inl, inr}
use stockflow_erp_mock.Common.Text.{Text, text_eq_iff}
use stockflow_erp_mock.Common.Dict.{lookup, insert, lookup-insert, insert-HasUniqueKeys}
use stockflow_erp_mock.Memory.Idempotency.Concurrent.{Store, Pc, idle, running, waiting, update}
use stockflow_erp_mock.Memory.Idempotency.Concurrent.Invariant.{IsAwaited, IsConsistent, Allowed}

module _ {T : Type 0} where
  module _ (s : Store T) (pc : ℕ → Pc T) (i : ℕ) (v : IsConsistent s pc) where
    passive-IsAwaited :
        (p : Pc T) (key : Text) (c : ℕ)
        → ((k : Text) → pc i ≢ running k)
        → IsAwaited s pc key c
        → IsAwaited s (update pc i p) key c
    passive-IsAwaited p key c still (inl r) = inl (ground (arith, ==_iff i c, still key))
    passive-IsAwaited p key c still (inr closed) = inr closed

    passed-IsAwaited :
        (p : Pc T) (j : ℕ) (key : Text) (c : ℕ)
        → Allowed s pc p
        → update pc i p j ≡ waiting key c
        → IsAwaited s pc key c
    passed-IsAwaited p j key c allowed e = elim (Bool-cases (i == j)) [
      | inl here ↦ subst (Allowed s pc) (rw here at e) allowed
      | inr other ↦ v.awaited j key c (rw other at e)
    ]

    passive_unclosed :
        (p : Pc T) (j : ℕ)
        → Allowed s pc p
        → (update pc i p j ≡ idle) ⊎ ((key : Text) × (update pc i p j ≡ running key))
        → (pc j ≡ idle) ⊎ ((key : Text) × (pc j ≡ running key))
    passive_unclosed p j allowed h = elim (Bool-cases (i == j)) [
      | inl here ↦ absurd (here_not (rw here at h))
      | inr other ↦ rw other at h
    ]
      where
        here_not : (p ≡ idle) ⊎ ((key : Text) × (p ≡ running key)) → ⊥
        here_not (inl e) = subst (Allowed s pc) e allowed
        here_not (inr (key, e)) = subst (Allowed s pc) e allowed

    pub passive :
        (p : Pc T)
        → ((k : Text) → pc i ≢ running k)
        → Allowed s pc p
        → IsConsistent s (update pc i p)
    passive p still allowed = record {
      unique = v.unique;
      listed = λ j key e. ground (arith, ==_iff i j, v.listed j key);
      runs = λ j key e. ground (arith, ==_iff i j, v.runs j key e, still key);
      unstored = v.unstored;
      kept = λ j key t hit e. ground (arith, ==_iff i j, v.kept j key t hit);
      once = λ j k key t u e f. ground (arith, ==_iff i j, ==_iff i k, v.once j k key t u);
      unclosed = λ j h. v.unclosed j (passive_unclosed p j allowed h);
      awaited = λ j key c e. passive-IsAwaited p key c still (passed-IsAwaited p j key c allowed e);
    }

    -- The caller starts a call of its own.
    lead-IsAwaited :
        (key : Text)
        → pc i ≡ idle
        → (j : ℕ) (k : Text) (c : ℕ) → update pc i (running key) j ≡ waiting k c
        → IsAwaited
            (record s { in_flight = insert key i s.in_flight })
            (update pc i (running key))
            k
            c
    lead-IsAwaited key here j k c e =
        let before : IsAwaited s pc k c = v.awaited j k c (ground (arith, ==_iff i j)) in
        elim before [ inl r ↦ inl (ground (arith, ==_iff i c)) | inr closed ↦ inr closed ]

    lead_unclosed :
        (key : Text)
        → pc i ≡ idle
        → (j : ℕ)
        → (update pc i (running key) j ≡ idle)
          ⊎ ((k : Text) × (update pc i (running key) j ≡ running k))
        → (pc j ≡ idle) ⊎ ((k : Text) × (pc j ≡ running k))
    lead_unclosed key here j h = elim (Bool-cases (i == j)) [
      | inl e ↦ inl (rw (← (==_iff i j).0 e) here)
      | inr other ↦ rw other at h
    ]

    pub lead :
        (key : Text)
        → pc i ≡ idle
        → lookup key s.entries ≡ none
        → lookup key s.in_flight ≡ none
        → IsConsistent
            (record s { in_flight = insert key i s.in_flight })
            (update pc i (running key))
    lead key here fresh free = record {
      unique = insert-HasUniqueKeys key i s.in_flight v.unique;
      listed = λ j k e.
          ground
            (arith, ==_iff i j, lookup-insert key k i s.in_flight, text_eq_iff key k, v.listed j k);
      runs = λ j k e.
          ground
            (arith, ==_iff i j, lookup-insert key k i s.in_flight, text_eq_iff key k, v.runs j k);
      unstored = λ j k e.
          ground (arith, lookup-insert key k i s.in_flight, text_eq_iff key k, v.unstored j k);
      kept = λ j k t hit e. ground (arith, ==_iff i j, v.kept j k t hit);
      once = λ j l k t u e f. ground (arith, ==_iff i j, ==_iff i l, v.once j l k t u);
      unclosed = λ j h. v.unclosed j (lead_unclosed key here j h);
      awaited = lead-IsAwaited key here;
    }
