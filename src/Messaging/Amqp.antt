-- ===== src/Messaging/Amqp.antt =====
-- What internal/messaging/rabbitmq uses of the AMQP client and of Go's encoders: the values of a
-- header table, deliveries and publishings, and the encoders as a parameter.
use stockflow_erp_mock.Common.{ℕ, Option, String, List, Bool}
use stockflow_erp_mock.Common.Int.{ℤ}
use stockflow_erp_mock.Common.Text.{Text}
use stockflow_erp_mock.Common.Dict.{Dict}
use stockflow_erp_mock.Inventory.Model.{Time}

-- A value of `amqp.Table`, by its Go type. `other` names a type that the program has no case for.
pub data Value : Type 0 where
  string : Text → Value
  int int32 int64 : ℤ → Value
  other : String → Value

abbrev pub Table : Type 0
Table = Dict Value

abbrev pub Bytes : Type 0
Bytes = List ℕ

pub record Delivery : Type 0 where
  pub headers : Table
  pub content_type : Text
  pub correlation_id : Text
  pub message_id : Text
  pub timestamp : Time
  pub body : Bytes

-- `DeliveryMode` is `amqp.Persistent` in every message of the program.
pub record Publishing : Type 0 where
  pub headers : Table
  pub content_type : Text
  pub correlation_id : Text
  pub message_id : Text
  pub timestamp : Time
  pub body : Bytes

-- The payload structs of the inbound messages.
pub record ReservationRequestedPayload : Type 0 where
  pub reservation_id : Text
  pub order_id : Text
  pub sku : Text
  pub quantity : ℤ

pub record ReservationReleaseRequestedPayload : Type 0 where
  pub reservation_id : Text
  pub reason : Text

-- The payload structs of the outbound messages.
pub data Payload : Type 0 where
  reservation_confirmed : (reservation_id order_id sku : Text) → ℤ → (reserved_at : Time) → Payload
  reservation_rejected :
      (reservation_id order_id sku : Text) → ℤ → (reason details : String) → Payload
  reservation_released : (reservation_id : Text) → (released_at : Time) → Payload
  reservation_release_failed : (reservation_id : Text) → (reason details : String) → Payload

-- `encoding/json` and `time`. A decoder that disallows unknown fields returns the payload of the
-- first JSON value, and whether nothing follows it.
pub record Codec : Type 0 where
  pub parse_rfc3339 : Text → Option Time
  pub format_rfc3339_nano : Time → Text
  pub decode_requested : Bytes → Option (ReservationRequestedPayload × Bool)
  pub decode_release_requested : Bytes → Option (ReservationReleaseRequestedPayload × Bool)
  pub marshal : Payload → Option Bytes
