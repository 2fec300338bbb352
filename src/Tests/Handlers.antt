-- ===== src/Tests/Handlers.antt =====
-- The handlers and the idempotency store, on one reservation of two mugs and its release.
use stockflow_erp_mock.Common.{◌≡◌, refl, Bool, true, false, none, List, [], ◌∷◌, ok, err}
use stockflow_erp_mock.Common.Int.{pos, add_int, sub_int, wrap_int}
use stockflow_erp_mock.Common.Text.{text, text_eq, trim_space, trim_left, trim_right, is_space}
use stockflow_erp_mock.Common.Dict.{Dict, lookup, insert}
use stockflow_erp_mock.Inventory.Errors.{wraps, idempotency_conflict}
use stockflow_erp_mock.Inventory.Model.{Time, validate_stock_item, validate_reservation}
use stockflow_erp_mock.Inventory.Service
use stockflow_erp_mock.Inventory.Laws.{closed}
use stockflow_erp_mock.Memory.Repository
use stockflow_erp_mock.Memory.Repository.{Repository, normalized_identifier}
use stockflow_erp_mock.Memory.Idempotency.{Action, execute}
use stockflow_erp_mock.App.Context.{MessageMetadata, Context}
use stockflow_erp_mock.App.Reservation
use stockflow_erp_mock.App.Reservation.{
  ReservationRequest, ReservationResult, HandlerState, confirmed, confirmed_result,
  handle_reservation_requested, same_reservation_request,
}
use stockflow_erp_mock.App.Reservation.Delivery.{SamePayload, answer, redelivery, conflict}
use stockflow_erp_mock.App.Reservation.Backing.{Backed}
use stockflow_erp_mock.App.Reservation.Confirmations.{IsConsistent, confirmed-Backed}
use stockflow_erp_mock.App.Release
use stockflow_erp_mock.App.Release.{
  ReservationReleaseRequest, ReservationReleaseResult, released_result,
  handle_reservation_release_requested,
}
use stockflow_erp_mock.App.Release.Delivery.{release_answer, release_redelivery}
use stockflow_erp_mock.App.Release.Backing.{ReleasesAgree}
use stockflow_erp_mock.App.FailureMode.{FailureModeSettings, initial_settings, always_reject}
use stockflow_erp_mock.App.FailureMode.Controller.{HoldsAllowed, set_lem}
use stockflow_erp_mock.App.FailureSimulation.{simulate, handle_simulated_reservation}
use stockflow_erp_mock.App.FailureSimulation.Caching.{simulated_redelivery}
use stockflow_erp_mock.Tests.Repository.{initial, holding, returned, two_mugs, initial-IsValid}

abbrev pub first_message : MessageMetadata
first_message = record {
  message_id = text "m1";
  correlation_id = text "c1";
  causation_id = text "c0";
  idempotency_key = text "k1";
  occurred_at = 5;
  schema_version = pos 1;
  retry_count = pos 0;
}

abbrev pub second_message : MessageMetadata
second_message = record first_message { message_id = text "m2"; idempotency_key = text " k1" }

abbrev pub two : ReservationRequest
two = record {
  metadata = first_message;
  reservation_id = text "r1 ";
  order_id = text "o1";
  sku = text "mug";
  quantity = pos 2;
}

abbrev pub two_again : ReservationRequest
two_again = record two { metadata = second_message }

abbrev pub three : ReservationRequest
three = record two { metadata = second_message; quantity = pos 3 }

-- The context at a time, without an error.
abbrev pub at : Time → Context
at now = record { wait = none; simulation_store = none; store = none; repository = none; now = now }

abbrev pub reserved_two : ReservationResult
reserved_two = confirmed_result two two_mugs

abbrev pub entries : Dict ReservationResult
entries = (text "k1", reserved_two) ∷ []

pub initial-IsConsistent : IsConsistent ([], initial)
unfolding lookup
initial-IsConsistent = record { valid = initial-IsValid; agrees = λ key result found c. cc found }

pub two-handled :
    handle_reservation_requested (at 10) two ([], initial) ≡ (ok reserved_two, (entries, holding))
unfolding handle_reservation_requested execute Reservation.reserve Repository.reserve
    normalized_identifier Service.reserve validate_stock_item add_int sub_int wrap_int lookup insert
    trim_space trim_left trim_right is_space text_eq
two-handled = refl

abbrev same_two : SamePayload two two_again
same_two = record { reservation_id = refl; order_id = refl; sku = refl; quantity = refl }

same_key : trim_space (text " k1") ≡ trim_space (text "k1")
unfolding trim_space trim_left trim_right is_space
same_key = refl

redelivery_example :
    handle_reservation_requested (at 30) two_again (entries, holding)
    ≡ (ok (answer two_again reserved_two true), (entries, holding))
redelivery_example =
    redelivery (at 10) (at 30) two two_again [] initial two-handled same_two same_key refl

two_is_not_three : ¬ SamePayload two three
two_is_not_three same = cc same.quantity

conflict_example :
    handle_reservation_requested (at 30) three (entries, holding)
    ≡ (err (wraps idempotency_conflict), (entries, holding))
conflict_example =
    conflict (at 10) (at 30) two three [] initial two-handled two_is_not_three same_key refl

confirmed-Backed_example : Backed holding reserved_two
confirmed-Backed_example =
    confirmed-Backed (at 10) two ([], initial) initial-IsConsistent two-handled refl

-- An operation that counts its calls.
abbrev counted : Action (List Bool) Bool
counted s = (ok true, true ∷ s)

counted-executed :
    execute none (text "k1") counted [] [] ≡ (ok (true, false), (text "k1", true) ∷ [], true ∷ [])
unfolding execute lookup insert trim_space trim_left trim_right is_space
counted-executed = refl

abbrev pub give_back : ReservationReleaseRequest
give_back = record {
  metadata = first_message;
  reservation_id = text "r1";
  reason = text "cancelled";
}

abbrev pub give_back_again : ReservationReleaseRequest
give_back_again = record give_back { metadata = second_message }

abbrev pub gave_back : ReservationReleaseResult
gave_back = released_result give_back (closed 20 two_mugs)

abbrev pub release_entries : Dict ReservationReleaseResult
release_entries = (text "k1", gave_back) ∷ []

give_back-handled :
    handle_reservation_release_requested (at 20) give_back ([], holding)
    ≡ (ok gave_back, (release_entries, returned))
unfolding handle_reservation_release_requested execute Release.release Repository.release
    normalized_identifier Service.release validate_stock_item validate_reservation add_int sub_int
    wrap_int lookup insert trim_space trim_left trim_right is_space text_eq
give_back-handled = refl

release_redelivery_example :
    handle_reservation_release_requested (at 40) give_back_again (release_entries, returned)
    ≡ (ok (release_answer give_back_again gave_back true), (release_entries, returned))
release_redelivery_example =
    release_redelivery (at 20) (at 40) give_back give_back_again [] holding give_back-handled
      (record { reservation_id = refl; reason = refl }) same_key refl

no_releases : (r : Repository) → ReleasesAgree [] r
unfolding lookup
no_releases r key result found c = cc found

-- Every request is rejected.
abbrev rejecting : FailureModeSettings
rejecting = record initial_settings { mode = always_reject }

two-simulated :
    handle_simulated_reservation (at 10) initial_settings (pos 0) two ([], ([], initial))
    ≡ (ok reserved_two, (entries, (entries, holding)))
unfolding handle_simulated_reservation simulate handle_reservation_requested execute
    Reservation.reserve Repository.reserve normalized_identifier Service.reserve validate_stock_item
    add_int sub_int wrap_int lookup insert trim_space trim_left trim_right is_space text_eq
two-simulated = refl

simulated_redelivery_example :
    (result : ReservationResult) × (handle_simulated_reservation
        (at 30)
        rejecting
        (pos 0)
        two_again
        (entries, (entries, holding))
      ≡ (ok result, (entries, (entries, holding))))
    × (result.decision ≡ confirmed)
    × (result.reservation ≡ two_mugs)
    × (result.rejection_reason ≡ "")
    × (result.idempotency_hit ≡ true)
simulated_redelivery_example =
    simulated_redelivery (at 10) (at 30) initial_settings rejecting (pos 0) (pos 0) two two_again []
      ([], initial) two-simulated same_two same_key refl refl

set_lem_example : HoldsAllowed rejecting initial_settings
set_lem_example = set_lem rejecting initial_settings
