-- ===== src/App/Release/Backing.antt =====
-- The handler of release requests keeps the repository consistent with what it has answered.
use mathlib.Core.Path.{subst}
use mathlib.Core.Option.{some-injective}
use stockflow_erp_mock.Common.{
  ◌≡◌, ap, sym, ◌∙◌, false, some, Result, ok, err, arith, Bool-cases, inl, inr,
}
use stockflow_erp_mock.Common.Text.{Text, trim_space, text_eq}
use stockflow_erp_mock.Common.Dict.{Dict, lookup, insert, lookup-insert, lookup-insert_self}
use stockflow_erp_mock.Inventory.Errors.{Error}
use stockflow_erp_mock.Inventory.Model.{Reservation}
use stockflow_erp_mock.Inventory.Service.{is_active}
use stockflow_erp_mock.Inventory.Laws.{release-eq_ok}
use stockflow_erp_mock.Memory.Repository
use stockflow_erp_mock.Memory.Repository.{Repository, CtxErr}
use stockflow_erp_mock.Memory.Repository.Calls.{release-eq_ok_parts}
use stockflow_erp_mock.Memory.Repository.Invariant.{IsValid}
use stockflow_erp_mock.Memory.Repository.Preservation.{release-IsValid}
use stockflow_erp_mock.Memory.Repository.Retention.{Grows, Grows-refl, release-Grows}
use stockflow_erp_mock.Memory.Idempotency.Once.{execute-keeps}
use stockflow_erp_mock.App.Context.{Context}
use stockflow_erp_mock.App.Release.{
  ReservationReleaseRequest, ReservationReleaseResult, released, ReleaseState, release,
  handle_reservation_release_requested, released_result,
}
use stockflow_erp_mock.App.Release.Delivery.{release_cases}

-- The reservation that an answer `released` speaks of is in the repository, and is not active.
abbrev pub IsReturned : Repository → ReservationReleaseResult → Type 0
IsReturned r result =
    (x : Reservation) × (lookup (trim_space result.request.reservation_id) r.reservations ≡ some x)
    × (is_active x.status ≡ false)

-- Each answer `released` in the store speaks of a reservation that is released.
abbrev pub ReleasesAgree : Dict ReservationReleaseResult → Repository → Type 0
ReleasesAgree entries r =
    (key : Text) (result : ReservationReleaseResult)
    → lookup key entries ≡ some result
    → result.decision ≡ released
    → IsReturned r result

pub Grows-ReleasesAgree :
    (entries : Dict ReservationReleaseResult) (r r' : Repository)
    → Grows r r'
    → ReleasesAgree entries r
    → ReleasesAgree entries r'
Grows-ReleasesAgree entries r r' grows agrees key result found c =
    let (x, at_id, closed) = agrees key result found c in
    let (y, at_id', later) = grows (trim_space result.request.reservation_id) x at_id in
    (y, at_id', later.stays_released closed)

insert-ReleasesAgree :
    (entries : Dict ReservationReleaseResult) (key : Text) (result : ReservationReleaseResult)
    (p : Repository)
    → ReleasesAgree entries p
    → (result.decision ≡ released → IsReturned p result)
    → ReleasesAgree (insert key result entries) p
insert-ReleasesAgree entries key result p agrees returned key' result' found c =
    elim (Bool-cases (text_eq key key')) [
      | inl e ↦
          let same : result ≡ result' =
            some-injective result result'
              (sym (rw e at (lookup-insert key key' result entries)) ∙ found) in
          subst (IsReturned p) same (returned (rw same c))
      | inr e ↦
          agrees key' result' (sym (rw e at (lookup-insert key key' result entries)) ∙ found) c
    ]

-- What the handler keeps: a valid repository that has forgotten no reservation of `before`, and
-- answers that agree with it.
pub record IsReleaseConsistent (before : Repository) (s : ReleaseState) : Type 0 where
  pub valid : IsValid s.1
  pub grows : Grows before s.1
  pub agrees : ReleasesAgree s.0 s.1

release-IsReturned :
    (ctx : Context) (request : ReservationReleaseRequest) (r r' : Repository) (x : Reservation)
    → Repository.release ctx.repository ctx.now request.reservation_id r ≡ ok (r', x)
    → IsReturned r' (released_result request x)
release-IsReturned ctx request r r' x h =
    let (old, i, j, at_id, at_sku, call, e) =
      release-eq_ok_parts ctx.repository ctx.now request.reservation_id r h in
    (
      x,
      rw e (lookup-insert_self (trim_space request.reservation_id) x r.reservations),
      ap (λ (y : Reservation). is_active y.status) (release-eq_ok ctx.now i old call).3,
    )

module _ (ctx : Context) (request : ReservationReleaseRequest) (r : Repository)
    (entries : Dict ReservationReleaseResult) (v : IsValid r)
    (agrees : ReleasesAgree entries r) where
  release_kept :
      (x : Error)
      → (release ctx request r).0 ≡ err x
      → IsReleaseConsistent r (entries, (release ctx request r).1)
  release_kept x refused = elim (release_cases ctx request r) [
    | inl (r', y, h, e) ↦
        absurd
          (cc (ap (λ (o : Result Error ReservationReleaseResult × Repository). o.0) e, refused))
    | inr (_, same) ↦ rw same (record { valid = v; grows = Grows-refl r; agrees = agrees })
  ]

  release_made :
      (result : ReservationReleaseResult)
      → (release ctx request r).0 ≡ ok result
      → IsReleaseConsistent r (
        insert (trim_space request.metadata.idempotency_key) result entries,
        (release ctx request r).1,
      )
  release_made result made =
      let key : Text = trim_space request.metadata.idempotency_key in
      elim (release_cases ctx request r) [
        | inl (r', x, h, e) ↦
            let same : result ≡ released_result request x = ground (arith, e, made) in
            let grows : Grows r r' =
              release-Grows ctx.repository ctx.now request.reservation_id r h in
            rw (e, same)
              (record {
                valid = release-IsValid ctx.repository ctx.now request.reservation_id r v h;
                grows = grows;
                agrees =
                    insert-ReleasesAgree entries key (released_result request x) r'
                      (Grows-ReleasesAgree entries r r' grows agrees)
                      (λ c. release-IsReturned ctx request r r' x h);
              })
        | inr (refuses, same) ↦ rw same (record {
          valid = v;
          grows = Grows-refl r;
          agrees =
              insert-ReleasesAgree entries key result r agrees
                (λ c. absurd (cc (refuses result made, c)));
        })
      ]

-- Whatever the request and the state of the context, the handler keeps the repository valid, forgets
-- no reservation, and has stored `released` only for reservations that are released.
pub handle_release-IsReleaseConsistent :
    (ctx : Context) (request : ReservationReleaseRequest) (entries : Dict ReservationReleaseResult)
    (r : Repository)
    → IsValid r
    → ReleasesAgree entries r
    → IsReleaseConsistent r (handle_reservation_release_requested ctx request (entries, r)).1
unfolding handle_reservation_release_requested
handle_release-IsReleaseConsistent ctx request entries r v agrees =
    execute-keeps (λ e p. IsReleaseConsistent r (e, p)) ctx.store request.metadata.idempotency_key
      (release ctx request) entries r (record { valid = v; grows = Grows-refl r; agrees = agrees })
      (release_kept ctx request r entries v agrees) (release_made ctx request r entries v agrees)
