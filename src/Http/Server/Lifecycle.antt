-- ===== src/Http/Server/Lifecycle.antt =====
-- What `GET /reservations/{id}` of internal/http/server.go shows while the repository reserves and
-- releases.
use mathlib.Core.Bool.{decide}
use stockflow_erp_mock.Common.{◌≡◌, refl, ◌∙◌, false, none, some, is_empty, ok}
use stockflow_erp_mock.Common.Int.{ℤ}
use stockflow_erp_mock.Common.Text.{Text, trim_space, trim_space_idem}
use stockflow_erp_mock.Common.Dict.{lookup, lookup-insert_self}
use stockflow_erp_mock.Inventory.Model.{Time, Reservation, active, released}
use stockflow_erp_mock.Inventory.Laws.{closed, reserve-eq_ok}
use stockflow_erp_mock.Memory.Repository.{
  Repository, CtxErr, get_reservation, normalized_identifier, reserve, release,
}
use stockflow_erp_mock.Memory.Repository.Calls.{reserve-eq_ok_parts, release-eq_ok_parts}
use stockflow_erp_mock.Memory.Repository.Contract.{release-reserve}
use stockflow_erp_mock.Memory.Repository.Invariant.{IsValid}
use stockflow_erp_mock.Http.Messages.{
  ReservationResponse, Response, reservation_response, error_response,
}
use stockflow_erp_mock.Http.Server.{Server, write_error, handle_get_reservation}
use stockflow_erp_mock.Http.Server.Status.{refused}

-- The answer 200 with a reservation.
abbrev pub shown : ReservationResponse → Response
shown body = record { status = 200; body = reservation_response body }

handle_get_reservation-none :
    (id : Text) (s : Server)
    → is_empty (trim_space id) ≡ false
    → lookup (trim_space id) s.repository.reservations ≡ none
    → handle_get_reservation none id s ≡ (s, refused 404 (error_response "not_found"))
unfolding handle_get_reservation get_reservation normalized_identifier write_error decide
handle_get_reservation-none id s named e = rw (named, e) refl

handle_get_reservation-some :
    (id : Text) (s : Server) (x : Reservation)
    → is_empty (trim_space id) ≡ false
    → lookup (trim_space id) s.repository.reservations ≡ some x
    → handle_get_reservation none id s ≡ (
      s,
      shown (record {
        id = x.id;
        sku = x.sku;
        quantity = x.quantity;
        status = x.status;
        created_at = x.created_at;
        released_at = x.released_at;
      }),
    )
unfolding handle_get_reservation get_reservation normalized_identifier
handle_get_reservation-some id s x named e = rw (named, e) refl

-- Where `Reserve` succeeds on a valid repository, `GET` of its id, up to the spaces around it and
-- without an error of the context, answers 404 before the call. After it, it answers 200 with the id,
-- the SKU, both without the spaces around them, the quantity and the time of the call, as an active
-- reservation that has no time of release. A `Release` without an error of the context then succeeds,
-- and after it `GET` answers 200 with the same reservation as released at the time of that call.
pub reservation_is_shown :
    (ctx_err : CtxErr) (now later : Time) (reservation_id sku : Text) (q : ℤ) (id : Text)
    (s : Server) {r' : Repository} {x : Reservation}
    → IsValid s.repository
    → reserve ctx_err now reservation_id sku q s.repository ≡ ok (r', x)
    → trim_space id ≡ trim_space reservation_id
    → (handle_get_reservation none id s ≡ (s, refused 404 (error_response "not_found")))
      × (handle_get_reservation none id (record s { repository = r' }) ≡ (
        record s { repository = r' },
        shown (record {
          id = trim_space reservation_id;
          sku = trim_space sku;
          quantity = q;
          status = active;
          created_at = now;
          released_at = none;
        }),
      ))
      × (r'' : Repository) × (y : Reservation) × (release none later reservation_id r'
          ≡ ok (r'', y))
      × (handle_get_reservation none id (record s { repository = r'' }) ≡ (
        record s { repository = r'' },
        shown (record {
          id = trim_space reservation_id;
          sku = trim_space sku;
          quantity = q;
          status = released;
          created_at = now;
          released_at = some later;
        }),
      ))
reservation_is_shown ctx_err now later reservation_id sku q id s {r'} {x} v h same =
    let (named, _, fresh, i, j, at_k, call, e) =
      reserve-eq_ok_parts ctx_err now reservation_id sku q s.repository h in
    let (_, _, _, _, ex) = reserve-eq_ok now i (trim_space reservation_id) q call in
    let keyed = v.stock_keyed (trim_space sku) i at_k in
    let id_named : is_empty (trim_space id) ≡ false = rw same named in
    let held : lookup (trim_space id) r'.reservations ≡ some x =
      rw (e, same) (lookup-insert_self (trim_space reservation_id) x s.repository.reservations) in
    let (r'', releases, _) =
      release-reserve ctx_err now later reservation_id sku q s.repository v h in
    let (_, _, _, _, _, _, e') = release-eq_ok_parts none later reservation_id r' releases in
    let freed : lookup (trim_space id) r''.reservations ≡ some (closed later x) =
      rw (e', same)
        (lookup-insert_self (trim_space reservation_id) (closed later x) r'.reservations) in
    (
      handle_get_reservation-none id s id_named (rw same fresh),
      handle_get_reservation-some id (record s { repository = r' }) x id_named held
          ∙ rw (ex, keyed, trim_space_idem) refl,
      r'',
      closed later x,
      releases,
      handle_get_reservation-some id (record s { repository = r'' }) (closed later x) id_named freed
          ∙ rw (ex, keyed, trim_space_idem) refl,
    )
