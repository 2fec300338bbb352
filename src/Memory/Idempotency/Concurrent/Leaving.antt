-- ===== src/Memory/Idempotency/Concurrent/Leaving.antt =====
-- What the end of an operation makes of the invariant.
use stockflow_erp_mock.Common.{
  ℕ, ◌≡◌, ◌≢◌, refl, ap, sym, ◌∙◌, Bool, false, none, some, Result, ok, err, arith, ◌==◌, ==_iff,
  Bool-cases, Result-cases, ◌⊎◌, inl, inr,
}
use stockflow_erp_mock.Common.Text.{Text, text_eq_iff}
use stockflow_erp_mock.Common.Dict.{
  lookup, erase, lookup-insert, lookup-insert_self, lookup-erase_ne, lookup-erase_self,
  erase-HasUniqueKeys,
}
use stockflow_erp_mock.Inventory.Errors.{Error}
use stockflow_erp_mock.Memory.Idempotency.Concurrent.{
  Store, Pc, idle, running, waiting, returned, update, answer, stored,
}
use stockflow_erp_mock.Memory.Idempotency.Concurrent.Invariant.{IsStored, IsAwaited, IsConsistent}

module _ {T : Type 0} (s : Store T) (pc : ℕ → Pc T) (i : ℕ) (v : IsConsistent s pc) (key : Text)
    (result : Result Error T) (here : pc i ≡ running key) where
  abbrev pub after : Store T
  after = record {
    entries = stored key result s.entries;
    in_flight = erase key s.in_flight;
    closed = update s.closed i (some result);
  }

  abbrev pub returns : ℕ → Pc T
  returns = update pc i (returned key (answer false result))

  own : lookup key s.in_flight ≡ some i
  own = v.listed i key here

  was_fresh : lookup key s.entries ≡ none
  was_fresh = v.unstored i key own

  gone : lookup key (erase key s.in_flight) ≡ none
  gone = lookup-erase_self key s.in_flight v.unique

  leave-listed : (j : ℕ) (k : Text) → returns j ≡ running k → lookup k after.in_flight ≡ some j
  leave-listed j k e = ground (
    arith,
    ==_iff i j,
    v.listed j k,
    own,
    text_eq_iff key k,
    λ (n : key ≢ k). lookup-erase_ne key k s.in_flight n,
  )

  -- Only the entry of the caller's own key leaves the calls in flight.
  still_listed :
      (j : ℕ) (k : Text)
      → lookup k after.in_flight ≡ some j
      → (key ≢ k) × (lookup k s.in_flight ≡ some j)
  still_listed j k e =
      let other : key ≢ k =
        λ same. ground (arith, ap (λ n. lookup n (erase key s.in_flight)) same, gone) in
      (other, sym (lookup-erase_ne key k s.in_flight other) ∙ e)

  leave-runs : (j : ℕ) (k : Text) → lookup k after.in_flight ≡ some j → returns j ≡ running k
  leave-runs j k e =
      let (other, before) = still_listed j k e in ground (arith, ==_iff i j, v.runs j k, here)

  lookup-stored_ne :
      (r : Result Error T) (k : Text)
      → key ≢ k
      → lookup k (stored key r s.entries) ≡ lookup k s.entries
  lookup-stored_ne (ok t) k other =
      ground (arith, lookup-insert key k t s.entries, text_eq_iff key k)
  lookup-stored_ne (err e) k other = refl

  lookup-stored : (r : Result Error T) → IsStored key r (stored key r s.entries)
  lookup-stored (ok t) = lookup-insert_self key t s.entries
  lookup-stored (err e) = tt

  -- What was in the entries stays there.
  stored_grows :
      (r : Result Error T) (k : Text) (t : T)
      → lookup k s.entries ≡ some t
      → lookup k (stored key r s.entries) ≡ some t
  stored_grows r k t e =
      lookup-stored_ne r k (λ same. ground (arith, ap (λ n. lookup n s.entries) same, was_fresh))
      ∙ e

  leave-unstored :
      (j : ℕ) (k : Text) → lookup k after.in_flight ≡ some j → lookup k after.entries ≡ none
  leave-unstored j k e =
      let (other, before) = still_listed j k e in
      lookup-stored_ne result k other ∙ v.unstored j k before

  returned-IsStored :
      (r : Result Error T) (k : Text) (t : T) (hit : Bool)
      → returned key (answer false r) ≡ returned k (ok (t, hit))
      → lookup k (stored key r s.entries) ≡ some t
  returned-IsStored (ok u) k t hit e = ground (arith, lookup-insert_self key u s.entries)
  returned-IsStored (err x) k t hit e = absurd (ground arith)

  leave-kept :
      (j : ℕ) (k : Text) (t : T) (hit : Bool)
      → returns j ≡ returned k (ok (t, hit))
      → lookup k after.entries ≡ some t
  leave-kept j k t hit e = elim (Bool-cases (i == j)) [
    | inl own_step ↦ returned-IsStored result k t hit (rw own_step at e)
    | inr other ↦ stored_grows result k t (v.kept j k t hit (rw other at e))
  ]

  -- No other caller has returned a result of its own under this key.
  leave-once :
      (j l : ℕ) (k : Text) (t u : T)
      → returns j ≡ returned k (ok (t, false))
      → returns l ≡ returned k (ok (u, false))
      → j ≡ l
  leave-once j l k t u e f = elim (Result-cases result) [
    | inr (x, made) ↦ ground (arith, ==_iff i j, ==_iff i l, v.once j l k t u)
    | inl (x, made) ↦ ground (
      arith,
      ==_iff i j,
      ==_iff i l,
      v.once j l k t u,
      v.kept j k t false,
      v.kept l k u false,
      was_fresh,
    )
  ]

  leave-unclosed :
      (j : ℕ) → (returns j ≡ idle) ⊎ ((k : Text) × (returns j ≡ running k)) → after.closed j ≡ none
  leave-unclosed j (inl e) =
      ground (arith, ==_iff i j, v.unclosed j (inl (ground (arith, ==_iff i j))))
  leave-unclosed j (inr (k, e)) =
      ground (arith, ==_iff i j, v.unclosed j (inr (k, ground (arith, ==_iff i j))))

  IsStored-grows :
      (k : Text) (r : Result Error T)
      → IsStored k r s.entries
      → IsStored k r (stored key result s.entries)
  IsStored-grows k (ok t) e = stored_grows result k t e
  IsStored-grows k (err x) e = tt

  leave-IsAwaited : (k : Text) (c : ℕ) → IsAwaited s pc k c → IsAwaited after returns k c
  leave-IsAwaited k c (inr (r, closed, is_stored)) =
      let other : i ≢ c =
        λ same. ground (arith, ap s.closed same, v.unclosed i (inr (key, here))) in
      inr (r, ground (arith, ==_iff i c), IsStored-grows k r is_stored)
  leave-IsAwaited k c (inl r) = elim (Bool-cases (i == c)) [
    | inl e ↦
        let same : k ≡ key = ground (arith, ==_iff i c, ap pc ((==_iff i c).0 e)) in
        rw same (inr (result, rw e refl, lookup-stored result))
    | inr e ↦ inl (rw e r)
  ]

  left-IsAwaited :
      (j : ℕ) (k : Text) (c : ℕ) → returns j ≡ waiting k c → IsAwaited after returns k c
  left-IsAwaited j k c e = elim (Bool-cases (i == j)) [
    | inl own_step ↦ absurd (ground (arith, own_step))
    | inr other ↦ leave-IsAwaited k c (v.awaited j k c (rw other at e))
  ]

  pub leave-IsConsistent : IsConsistent after returns
  leave-IsConsistent = record {
    unique = erase-HasUniqueKeys key s.in_flight v.unique;
    listed = leave-listed;
    runs = leave-runs;
    unstored = leave-unstored;
    kept = leave-kept;
    once = leave-once;
    unclosed = leave-unclosed;
    awaited = left-IsAwaited;
  }
