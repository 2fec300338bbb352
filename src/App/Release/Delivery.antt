-- ===== src/App/Release/Delivery.antt =====
-- What a release request does to the stock, delivered once or again.
use stockflow_erp_mock.Common.{
  ◌≡◌, ap, ◌∙◌, Bool, true, none, ok, arith, Result-cases, ◌⊎◌, inl, inr,
}
use stockflow_erp_mock.Common.Text.{Text, trim_space, text_eq_iff}
use stockflow_erp_mock.Common.Dict.{Dict}
use stockflow_erp_mock.Inventory.Model.{Reservation}
use stockflow_erp_mock.Memory.Repository
use stockflow_erp_mock.Memory.Repository.{Repository, CtxErr}
use stockflow_erp_mock.Memory.Idempotency.{execute}
use stockflow_erp_mock.Memory.Idempotency.Once.{execute_hit, execute-stores, execute-eq_ok}
use stockflow_erp_mock.App.Context.{Context}
use stockflow_erp_mock.App.Release.{
  ReservationReleaseRequest, ReservationReleaseResult, failed, release,
  same_reservation_release_request, handle_reservation_release_requested, released_result,
}

-- The same release is asked for.
pub record SameRelease (a b : ReservationReleaseRequest) : Type 0 where
  pub reservation_id : a.reservation_id ≡ b.reservation_id
  pub reason : a.reason ≡ b.reason

same_reservation_release_request_iff :
    (a b : ReservationReleaseRequest)
    → (same_reservation_release_request a b ≡ true → SameRelease a b)
      × (SameRelease a b → same_reservation_release_request a b ≡ true)
unfolding same_reservation_release_request
same_reservation_release_request_iff a b = (
  λ h. ground (arith, text_eq_iff a.reservation_id b.reservation_id, text_eq_iff a.reason b.reason),
  λ h. ground (arith, text_eq_iff a.reservation_id b.reservation_id, text_eq_iff a.reason b.reason),
)

-- The ends of the operation: the repository has released, or nothing has changed.
pub release_cases :
    (ctx : Context) (request : ReservationReleaseRequest) (r : Repository)
    → ((r' : Repository) × (x : Reservation) × (Repository.release ctx.repository ctx.now
            request.reservation_id r
          ≡ ok (r', x))
        × (release ctx request r ≡ (ok (released_result request x), r')))
      ⊎ (((result : ReservationReleaseResult)
            → (release ctx request r).0 ≡ ok result
            → result.decision ≡ failed)
          × ((release ctx request r).1 ≡ r))
unfolding release
release_cases ctx request r =
    elim (Result-cases (Repository.release ctx.repository ctx.now request.reservation_id r)) [
      | inl ((r', x), e) ↦ inl (r', x, e, rw e)
      | inr (x, e) ↦ inr (λ result h. ground arith, ground arith)
    ]

request-release :
    (ctx : Context) (request : ReservationReleaseRequest) (r : Repository)
    (result : ReservationReleaseResult)
    → (release ctx request r).0 ≡ ok result
    → result.request ≡ request
unfolding release
request-release ctx request r result h = ground arith

-- A stored result as it is returned to a request.
abbrev pub release_answer :
    ReservationReleaseRequest → ReservationReleaseResult → Bool → ReservationReleaseResult
release_answer request stored hit = record stored {
  idempotency_hit = hit;
  request = record stored.request { metadata = request.metadata };
}

handle_release-eq_ok :
    (ctx : Context) (request : ReservationReleaseRequest) (entries : Dict ReservationReleaseResult)
    (r : Repository) {result : ReservationReleaseResult} {entries' : Dict ReservationReleaseResult}
    {r' : Repository}
    → handle_reservation_release_requested ctx request (entries, r) ≡ (ok result, (entries', r'))
    → (stored : ReservationReleaseResult) × (hit : Bool) × (execute ctx.store
          request.metadata.idempotency_key
          (release ctx request)
          entries
          r
        ≡ (ok (stored, hit), entries', r'))
      × SameRelease stored.request request
      × (result ≡ release_answer request stored hit)
unfolding handle_reservation_release_requested
handle_release-eq_ok ctx request entries r {result} {entries'} {r'} h =
    let key : Text = request.metadata.idempotency_key in
    elim (Result-cases (execute ctx.store key (release ctx request) entries r).0) [
      | inr (x, e) ↦ absurd (ground arith)
      | inl ((stored, hit), e) ↦
          let call : execute ctx.store key (release ctx request) entries r
              ≡ (ok (stored, hit), entries', r') =
            ground arith in
          let same : SameRelease stored.request request =
            elim (execute-eq_ok ctx.store key (release ctx request) entries r call) [
              | inl (is_hit, _, _, _) ↦
                  (same_reservation_release_request_iff stored.request request).0 (ground arith)
              | inr (_, _, made, _, _) ↦
                  let own : stored.request ≡ request = request-release ctx request r stored made in
                  record {
                    reservation_id = ap (λ (q : ReservationReleaseRequest). q.reservation_id) own;
                    reason = ap (λ (q : ReservationReleaseRequest). q.reason) own;
                  }
            ] in
          (stored, hit, call, same, ground arith)
    ]

-- A release request that was answered is answered the same, as a hit, when its payload and key are
-- delivered again without an error of the context, and nothing changes.
pub release_redelivery :
    (ctx again : Context) (request request' : ReservationReleaseRequest)
    (entries : Dict ReservationReleaseResult) (r : Repository) {result : ReservationReleaseResult}
    {entries' : Dict ReservationReleaseResult} {r' : Repository}
    → handle_reservation_release_requested ctx request (entries, r) ≡ (ok result, (entries', r'))
    → SameRelease request request'
    → trim_space request'.metadata.idempotency_key ≡ trim_space request.metadata.idempotency_key
    → again.store ≡ none
    → handle_reservation_release_requested again request' (entries', r')
      ≡ (ok (release_answer request' result true), (entries', r'))
unfolding handle_reservation_release_requested
release_redelivery ctx again request request' entries r {result} {entries'} {r'} h same key idle =
    let (stored, hit, call, own, e) = handle_release-eq_ok ctx request entries r h in
    let (named, found) =
      execute-stores ctx.store request.metadata.idempotency_key (release ctx request) entries r
        call in
    ground (
      arith,
      e,
      idle,
      execute_hit request'.metadata.idempotency_key (release again request') entries' r' stored
          (rw key named) (rw key found),
      (same_reservation_release_request_iff stored.request request').1 (record {
        reservation_id = own.reservation_id ∙ same.reservation_id;
        reason = own.reason ∙ same.reason;
      }),
    )
