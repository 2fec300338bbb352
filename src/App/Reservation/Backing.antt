-- ===== src/App/Reservation/Backing.antt =====
-- The handler of reservation requests keeps the stock consistent with what it has answered.
use stockflow_erp_mock.Common.{
  ◌≡◌, ap, sym, ◌∙◌, some, Result, ok, err, arith, Result-cases, Bool-cases, ◌⊎◌, inl, inr,
}
use mathlib.Core.Path.{subst}
use mathlib.Core.Option.{some-injective}
use stockflow_erp_mock.Common.Text.{Text, trim_space, text_eq}
use stockflow_erp_mock.Common.Dict.{Dict, lookup, insert, lookup-insert, lookup-insert_self}
use stockflow_erp_mock.Inventory.Errors.{Error}
use stockflow_erp_mock.Inventory.Model.{Reservation}
use stockflow_erp_mock.Inventory.Laws.{reserve-eq_ok}
use stockflow_erp_mock.Memory.Repository
use stockflow_erp_mock.Memory.Repository.{Repository, CtxErr}
use stockflow_erp_mock.Memory.Repository.Calls.{reserve-eq_ok_parts}
use stockflow_erp_mock.Memory.Repository.Invariant.{IsValid}
use stockflow_erp_mock.Memory.Repository.Preservation.{reserve-IsValid}
use stockflow_erp_mock.Memory.Repository.Retention.{Later, Later-refl, Grows, reserve-Grows}
use stockflow_erp_mock.App.Context.{Context}
use stockflow_erp_mock.App.Reservation.{
  ReservationRequest, ReservationResult, confirmed, rejected, reserve, confirmed_result,
}

-- The three ends of the operation: the repository has reserved, or nothing has changed.
pub reserve_cases :
    (ctx : Context) (request : ReservationRequest) (r : Repository)
    → ((r' : Repository) × (x : Reservation) × (Repository.reserve ctx.repository ctx.now
            request.reservation_id request.sku request.quantity r
          ≡ ok (r', x))
        × (reserve ctx request r ≡ (ok (confirmed_result request x), r')))
      ⊎ (((result : ReservationResult)
            → (reserve ctx request r).0 ≡ ok result
            → result.decision ≡ rejected)
          × ((reserve ctx request r).1 ≡ r))
unfolding reserve
reserve_cases ctx request r =
    elim (Result-cases (
      Repository.reserve ctx.repository ctx.now request.reservation_id request.sku request.quantity
        r)) [
          | inl ((r', x), e) ↦ inl (r', x, e, rw e)
          | inr (x, e) ↦ inr (λ result h. ground arith, ground arith)
        ]

-- The reservation that a confirmation speaks of is in the repository.
abbrev pub Backed : Repository → ReservationResult → Type 0
Backed r result =
    (x : Reservation) × (lookup (trim_space result.request.reservation_id) r.reservations ≡ some x)
    × Later result.reservation x
    × (x.sku ≡ trim_space result.request.sku)
    × (x.quantity ≡ result.request.quantity)

-- Each confirmation in the store is backed by a reservation of the repository.
abbrev pub Agrees : Dict ReservationResult → Repository → Type 0
Agrees entries r =
    (key : Text) (result : ReservationResult)
    → lookup key entries ≡ some result
    → result.decision ≡ confirmed
    → Backed r result

pub Later-trans : (x y z : Reservation) → Later x y → Later y z → Later x z
Later-trans x y z p q = record {
  same_id = q.same_id ∙ p.same_id;
  same_sku = q.same_sku ∙ p.same_sku;
  same_quantity = q.same_quantity ∙ p.same_quantity;
  same_created_at = q.same_created_at ∙ p.same_created_at;
  stays_released = λ h. q.stays_released (p.stays_released h);
}

pub Grows-Agrees :
    (entries : Dict ReservationResult) (r r' : Repository)
    → Grows r r'
    → Agrees entries r
    → Agrees entries r'
Grows-Agrees entries r r' grows agrees key result found c =
    let (x, at_id, later, sku, quantity) = agrees key result found c in
    let (y, at_id', later') = grows (trim_space result.request.reservation_id) x at_id in
    (
      y,
      at_id',
      Later-trans result.reservation x y later later',
      later'.same_sku ∙ sku,
      later'.same_quantity ∙ quantity,
    )

pub insert-Agrees :
    (entries : Dict ReservationResult) (key : Text) (result : ReservationResult) (p : Repository)
    → Agrees entries p
    → (result.decision ≡ confirmed → Backed p result)
    → Agrees (insert key result entries) p
insert-Agrees entries key result p agrees backed key' result' found c =
    elim (Bool-cases (text_eq key key')) [
      | inl e ↦
          let same : result ≡ result' =
            some-injective result result'
              (sym (rw e at (lookup-insert key key' result entries)) ∙ found) in
          subst (Backed p) same (backed (rw same c))
      | inr e ↦
          agrees key' result' (sym (rw e at (lookup-insert key key' result entries)) ∙ found) c
    ]

module _ (ctx : Context) (request : ReservationRequest) (r : Repository) (v : IsValid r) where
  reserve-Backed :
      (r' : Repository) (x : Reservation)
      → Repository.reserve ctx.repository ctx.now request.reservation_id request.sku
          request.quantity r
        ≡ ok (r', x)
      → Backed r' (confirmed_result request x)
  reserve-Backed r' x h =
      let (_, _, _, i, j, at_k, call, e) =
        reserve-eq_ok_parts ctx.repository ctx.now request.reservation_id request.sku
          request.quantity r h in
      let (_, _, _, _, ex) =
        reserve-eq_ok ctx.now i (trim_space request.reservation_id) request.quantity call in
      (
        x,
        rw e (lookup-insert_self (trim_space request.reservation_id) x r.reservations),
        Later-refl x,
        ap (λ (y : Reservation). y.sku) ex ∙ v.stock_keyed (trim_space request.sku) i at_k,
        ap (λ (y : Reservation). y.quantity) ex,
      )

  pub reserve-Agrees :
      (entries : Dict ReservationResult) (key : Text) (result : ReservationResult)
      → Agrees entries r
      → (reserve ctx request r).0 ≡ ok result
      → Agrees (insert key result entries) (reserve ctx request r).1
  reserve-Agrees entries key result agrees made = elim (reserve_cases ctx request r) [
    | inl (r', x, h, e) ↦
        let same : result ≡ confirmed_result request x = ground (arith, e, made) in
        rw (e, same)
          (insert-Agrees entries key (confirmed_result request x) r'
            (Grows-Agrees entries r r'
              (reserve-Grows ctx.repository ctx.now request.reservation_id request.sku
                request.quantity r h)
              agrees)
            (λ c. reserve-Backed r' x h))
    | inr (refuses, same) ↦
        rw same
          (insert-Agrees entries key result r agrees (λ c. absurd (cc (refuses result made, c))))
  ]

  pub reserve-keeps-IsValid : IsValid (reserve ctx request r).1
  reserve-keeps-IsValid = elim (reserve_cases ctx request r) [
    | inl (r', x, h, e) ↦ rw e (
        reserve-IsValid ctx.repository ctx.now request.reservation_id request.sku request.quantity r
          v h)
    | inr (refuses, same) ↦ rw same v
  ]

  -- The operation fails only where the repository has refused.
  pub reserve_failed :
      (e : Error) → (reserve ctx request r).0 ≡ err e → (reserve ctx request r).1 ≡ r
  reserve_failed x failed = elim (reserve_cases ctx request r) [
    | inl (r', y, h, e) ↦
        absurd (cc (ap (λ (o : Result Error ReservationResult × Repository). o.0) e, failed))
    | inr (refuses, same) ↦ same
  ]
