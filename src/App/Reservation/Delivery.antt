-- ===== src/App/Reservation/Delivery.antt =====
-- What a request does to the stock, delivered once or again.
use stockflow_erp_mock.Common.{
  ◌≡◌, refl, ap, sym, ◌∙◌, Bool, true, false, none, ok, err, arith, Result-cases, Bool-cases, inl,
  inr,
}
use stockflow_erp_mock.Common.Int.{int_eq_iff}
use stockflow_erp_mock.Common.Text.{Text, trim_space, text_eq_iff}
use stockflow_erp_mock.Common.Dict.{Dict}
use stockflow_erp_mock.Inventory.Errors.{wraps, idempotency_conflict}
use stockflow_erp_mock.Memory.Repository.{Repository}
use stockflow_erp_mock.Memory.Idempotency.{execute}
use stockflow_erp_mock.Memory.Idempotency.Once.{execute_hit, execute-stores, execute-eq_ok}
use stockflow_erp_mock.App.Context.{Context}
use stockflow_erp_mock.App.Reservation.{
  ReservationRequest, ReservationResult, reserve, same_reservation_request,
  handle_reservation_requested,
}

-- The same reservation is asked for.
pub record SamePayload (a b : ReservationRequest) : Type 0 where
  pub reservation_id : a.reservation_id ≡ b.reservation_id
  pub order_id : a.order_id ≡ b.order_id
  pub sku : a.sku ≡ b.sku
  pub quantity : a.quantity ≡ b.quantity

pub same_reservation_request→SamePayload :
    (a b : ReservationRequest) → same_reservation_request a b ≡ true → SamePayload a b
unfolding same_reservation_request
same_reservation_request→SamePayload a b h = ground (
  arith,
  text_eq_iff a.reservation_id b.reservation_id,
  text_eq_iff a.order_id b.order_id,
  text_eq_iff a.sku b.sku,
  int_eq_iff a.quantity b.quantity,
)

pub SamePayload→same_reservation_request :
    (a b : ReservationRequest) → SamePayload a b → same_reservation_request a b ≡ true
unfolding same_reservation_request
SamePayload→same_reservation_request a b h = ground (
  arith,
  text_eq_iff a.reservation_id b.reservation_id,
  text_eq_iff a.order_id b.order_id,
  text_eq_iff a.sku b.sku,
  int_eq_iff a.quantity b.quantity,
)

-- A new result is for the request that was made.
request-reserve :
    (ctx : Context) (request : ReservationRequest) (r : Repository) (result : ReservationResult)
    → (reserve ctx request r).0 ≡ ok result
    → result.request ≡ request
unfolding reserve
request-reserve ctx request r result h = ground arith

-- A stored result as it is returned to a request.
abbrev pub answer : ReservationRequest → ReservationResult → Bool → ReservationResult
answer request stored hit = record stored {
  idempotency_hit = hit;
  request = record stored.request { metadata = request.metadata };
}

-- A request that was answered has a result for its payload in the store.
pub handle-eq_ok :
    (ctx : Context) (request : ReservationRequest) (entries : Dict ReservationResult)
    (r : Repository) {result : ReservationResult} {entries' : Dict ReservationResult}
    {r' : Repository}
    → handle_reservation_requested ctx request (entries, r) ≡ (ok result, (entries', r'))
    → (stored : ReservationResult) × (hit : Bool) × (execute ctx.store
          request.metadata.idempotency_key
          (reserve ctx request)
          entries
          r
        ≡ (ok (stored, hit), entries', r'))
      × SamePayload stored.request request
      × (result ≡ answer request stored hit)
unfolding handle_reservation_requested
handle-eq_ok ctx request entries r {result} {entries'} {r'} h =
    let key : Text = request.metadata.idempotency_key in
    elim (Result-cases (execute ctx.store key (reserve ctx request) entries r).0) [
      | inr (x, e) ↦ absurd (ground arith)
      | inl ((stored, hit), e) ↦
          let call : execute ctx.store key (reserve ctx request) entries r
              ≡ (ok (stored, hit), entries', r') =
            ground arith in
          let same : SamePayload stored.request request =
            elim (execute-eq_ok ctx.store key (reserve ctx request) entries r call) [
              | inl (is_hit, _, _, _) ↦
                  same_reservation_request→SamePayload stored.request request (ground arith)
              | inr (_, _, made, _, _) ↦
                  let own : stored.request ≡ request = request-reserve ctx request r stored made in
                  record {
                    reservation_id = ap (λ (q : ReservationRequest). q.reservation_id) own;
                    order_id = ap (λ (q : ReservationRequest). q.order_id) own;
                    sku = ap (λ (q : ReservationRequest). q.sku) own;
                    quantity = ap (λ (q : ReservationRequest). q.quantity) own;
                  }
            ] in
          (stored, hit, call, same, ground arith)
    ]

pub SamePayload-refl : (a : ReservationRequest) → SamePayload a a
SamePayload-refl a = record { reservation_id = refl; order_id = refl; sku = refl; quantity = refl }

SamePayload-sym : {a b : ReservationRequest} → SamePayload a b → SamePayload b a
SamePayload-sym p = record {
  reservation_id = sym p.reservation_id;
  order_id = sym p.order_id;
  sku = sym p.sku;
  quantity = sym p.quantity;
}

pub SamePayload-trans :
    (a b c : ReservationRequest) → SamePayload a b → SamePayload b c → SamePayload a c
SamePayload-trans a b c p q = record {
  reservation_id = p.reservation_id ∙ q.reservation_id;
  order_id = p.order_id ∙ q.order_id;
  sku = p.sku ∙ q.sku;
  quantity = p.quantity ∙ q.quantity;
}

-- A request that was answered is answered the same when it is delivered again, at any later time
-- and with any metadata of the same idempotency key, without an error of the context: the first decision comes back as a hit, and
-- neither the stock nor the store changes.
pub redelivery :
    (ctx again : Context) (request request' : ReservationRequest) (entries : Dict ReservationResult)
    (r : Repository) {result : ReservationResult} {entries' : Dict ReservationResult}
    {r' : Repository}
    → handle_reservation_requested ctx request (entries, r) ≡ (ok result, (entries', r'))
    → SamePayload request request'
    → trim_space request'.metadata.idempotency_key ≡ trim_space request.metadata.idempotency_key
    → again.store ≡ none
    → handle_reservation_requested again request' (entries', r')
      ≡ (ok (answer request' result true), (entries', r'))
unfolding handle_reservation_requested
redelivery ctx again request request' entries r {result} {entries'} {r'} h same key idle =
    let (stored, hit, call, own, e) = handle-eq_ok ctx request entries r h in
    let (named, found) =
      execute-stores ctx.store request.metadata.idempotency_key (reserve ctx request) entries r
        call in
    ground (
      arith,
      e,
      idle,
      execute_hit request'.metadata.idempotency_key (reserve again request') entries' r' stored
          (rw key named) (rw key found),
      SamePayload→same_reservation_request stored.request request'
          (SamePayload-trans stored.request request request' own same),
    )

-- The key of a request that was answered, with another payload and without an error of the context,
-- is refused as a conflict, and nothing changes.
pub conflict :
    (ctx again : Context) (request request' : ReservationRequest) (entries : Dict ReservationResult)
    (r : Repository) {result : ReservationResult} {entries' : Dict ReservationResult}
    {r' : Repository}
    → handle_reservation_requested ctx request (entries, r) ≡ (ok result, (entries', r'))
    → ¬ SamePayload request request'
    → trim_space request'.metadata.idempotency_key ≡ trim_space request.metadata.idempotency_key
    → again.store ≡ none
    → handle_reservation_requested again request' (entries', r')
      ≡ (err (wraps idempotency_conflict), (entries', r'))
unfolding handle_reservation_requested
conflict ctx again request request' entries r {result} {entries'} {r'} h other key idle =
    let (stored, hit, call, own, e) = handle-eq_ok ctx request entries r h in
    let (named, found) =
      execute-stores ctx.store request.metadata.idempotency_key (reserve ctx request) entries r
        call in
    let differs : same_reservation_request stored.request request' ≡ false =
      elim (Bool-cases (same_reservation_request stored.request request')) [
        | inl t ↦ absurd (
            other (
              SamePayload-trans request stored.request request' (SamePayload-sym own)
                (same_reservation_request→SamePayload stored.request request' t)))
        | inr f ↦ f
      ] in
    ground (
      arith,
      idle,
      differs,
      execute_hit request'.metadata.idempotency_key (reserve again request') entries' r' stored
          (rw key named) (rw key found),
    )
