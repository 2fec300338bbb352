-- ===== src/App/Reservation/Confirmations.antt =====
-- What the handler of reservation requests has answered is true of the repository.
use stockflow_erp_mock.Common.{◌≡◌, ap, sym, ◌∙◌, Result, ok, inl, inr}
use mathlib.Core.Path.{subst}
use stockflow_erp_mock.Common.Text.{trim_space}
use stockflow_erp_mock.Common.Dict.{Dict}
use stockflow_erp_mock.Inventory.Errors.{Error}
use stockflow_erp_mock.Memory.Repository.{Repository}
use stockflow_erp_mock.Memory.Repository.Invariant.{IsValid}
use stockflow_erp_mock.Memory.Repository.Retention.{Grows, Grows-refl, reserve-Grows}
use stockflow_erp_mock.Memory.Idempotency.Once.{execute-keeps, execute-stores}
use stockflow_erp_mock.App.Context.{Context}
use stockflow_erp_mock.App.Reservation.{
  ReservationRequest, ReservationResult, confirmed, reserve, HandlerState,
  handle_reservation_requested,
}
use stockflow_erp_mock.App.Reservation.Backing.{
  Agrees, Backed, reserve_cases, reserve-Agrees, reserve-keeps-IsValid, reserve_failed,
}
use stockflow_erp_mock.App.Reservation.Delivery.{handle-eq_ok}

-- The store and the repository of the handler, together.
pub record IsConsistent (s : HandlerState) : Type 0 where
  pub valid : IsValid s.1
  pub agrees : Agrees s.0 s.1

-- Whatever the request and the state of the context, the handler keeps the repository valid and
-- every confirmation that it has stored backed by a reservation.
pub handle-IsConsistent :
    (ctx : Context) (request : ReservationRequest) (s : HandlerState)
    → IsConsistent s
    → IsConsistent (handle_reservation_requested ctx request s).1
unfolding handle_reservation_requested
handle-IsConsistent ctx request (entries, r) c =
    execute-keeps (λ e p. IsConsistent (e, p)) ctx.store request.metadata.idempotency_key
      (reserve ctx request) entries r c
      (λ x failed. rw (reserve_failed ctx request r c.valid x failed) c)
      (λ result made. record {
        valid = reserve-keeps-IsValid ctx request r c.valid;
        agrees =
            reserve-Agrees ctx request r c.valid entries
              (trim_space request.metadata.idempotency_key) result c.agrees made;
      })

-- The handler forgets no reservation.
pub handle-Grows :
    (ctx : Context) (request : ReservationRequest) (entries : Dict ReservationResult)
    (r : Repository)
    → Grows r (handle_reservation_requested ctx request (entries, r)).1.1
unfolding handle_reservation_requested
handle-Grows ctx request entries r =
    execute-keeps (λ e p. Grows r p) ctx.store request.metadata.idempotency_key
      (reserve ctx request) entries r (Grows-refl r) (λ x _. kept) (λ t _. kept)
  where
    kept : Grows r (reserve ctx request r).1
    kept = elim (reserve_cases ctx request r) [
      | inl (r', x, h, e) ↦ rw e (
          reserve-Grows ctx.repository ctx.now request.reservation_id request.sku request.quantity r
            h)
      | inr (_, same) ↦ rw same (Grows-refl r)
    ]

-- A request that is answered `confirmed`, at once or from the store, has its reservation in the
-- repository: under its id, for its item and its quantity, as old as the answer says.
pub confirmed-Backed :
    (ctx : Context) (request : ReservationRequest) (s : HandlerState) {result : ReservationResult}
    {s' : HandlerState}
    → IsConsistent s
    → handle_reservation_requested ctx request s ≡ (ok result, s')
    → result.decision ≡ confirmed
    → Backed s'.1 result
confirmed-Backed ctx request (entries, r) {result} {s'} c h confirms =
    let (stored, hit, call, same, e) = handle-eq_ok ctx request entries r h in
    let (_, found) =
      execute-stores ctx.store request.metadata.idempotency_key (reserve ctx request) entries r
        call in
    let after : IsConsistent s' =
      subst IsConsistent (ap (λ (o : Result Error ReservationResult × HandlerState). o.1) h)
        (handle-IsConsistent ctx request (entries, r) c) in
    let (x, at_id, later, sku, quantity) =
      after.agrees (trim_space request.metadata.idempotency_key) stored found
        (sym (ap (λ (o : ReservationResult). o.decision) e) ∙ confirms) in
    rw e (x, at_id, later, sku, quantity)
