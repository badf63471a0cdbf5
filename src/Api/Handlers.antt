-- ===== src/Api/Handlers.antt =====
-- src/api/handlers.rs: what the handlers share, and those of the queries and the webhook. A response
-- is the value that is serialised; the clock and the JSON of the other parts are arguments, as there.
-- The context of the request is used for the log, and is an argument where it decides something.
pub mod Devices
pub mod Tokens
pub mod Policies
pub mod Ingestion
use lo_ra_db.Prelude.{
  ℕ, ◌≡◌, ◌<◌, Bool, true, false, Option, none, some, Result, ok, err, ◌>>=◌, if◌then◌else◌, ltb,
  length, List,
}
use lo_ra_db.Prelude.Int.{ℤ}
use lo_ra_db.Model.Text.{Text, text, byte_len, eq_text}
use lo_ra_db.Model.Lorawan.{LoraDbError, Failure, error, panic, lift, DevEui}
use lo_ra_db.Model.Json.{Value}
use lo_ra_db.Model.Frames.{Frame, DateTime, dev_eui}
use lo_ra_db.Engine.Codec.{Formats}
use lo_ra_db.Engine.Bytes.{Bytes}
use lo_ra_db.Storage
use lo_ra_db.Storage.{StorageEngine}
use lo_ra_db.Query.Dsl.{Query, QueryResult}
use lo_ra_db.Query.Lexer.{CharClasses}
use lo_ra_db.Query.Parser.{Chrono, parse}
use lo_ra_db.Query.Executor.{execute}
use lo_ra_db.Ingest.Common.{IngestError, Readers}
use lo_ra_db.Ingest.ChirpStack.{Decoders, parse_uplink, parse_join, parse_status}

abbrev pub max_query_length : ℕ
max_query_length = 10000

abbrev pub max_token_name_length : ℕ
max_token_name_length = 100

abbrev pub max_dev_eui_length : ℕ
max_dev_eui_length = 32

abbrev pub max_token_id_length : ℕ
max_token_id_length = 64

abbrev pub max_app_id_length : ℕ
max_app_id_length = 256

abbrev pub max_payload_size : ℕ
max_payload_size = 1048576

unfoldable pub validate_string_length : Text → ℕ → Result LoraDbError (Unit {0})
validate_string_length s max_len =
    if ltb max_len (byte_len s) then err LoraDbError.query_parse_error else ok tt

-- The status and the name of the error in the response, by `IntoResponse`.
unfoldable pub into_response : LoraDbError → ℕ × Text
into_response LoraDbError.query_parse_error = (400, text "QueryParseError")
into_response LoraDbError.query_execution_error = (500, text "QueryExecutionError")
into_response LoraDbError.auth_error = (401, text "AuthError")
into_response LoraDbError.invalid_dev_eui = (400, text "InvalidDevEui")
into_response _ = (500, text "InternalError")

-- `map_err` to a kind of error; a panic is not caught.
abbrev pub map_failure {ℓ} : {A : Type ℓ} → LoraDbError → Result Failure A → Result Failure A
map_failure to (ok a) = ok a
map_failure to (err (error e)) = err (error to)
map_failure to (err panic) = err panic

abbrev pub map_error {ℓ} :
    {E : Type 0} {A : Type ℓ} → LoraDbError → Result E A → Result LoraDbError A
map_error to (ok a) = ok a
map_error to (err e) = err to

module _ (x : Formats) (to_value : Frame → Option Value) (from_str : Text → Option Value)
    (minus : DateTime → ℤ → Option DateTime) (u : CharClasses) (c : Chrono) where
  unfoldable pub execute_query : DateTime → StorageEngine → Text → Result Failure QueryResult
  execute_query now storage query = do
    checked ← lift (validate_string_length query max_query_length)
    parsed ← map_failure LoraDbError.query_parse_error (parse u c query)
    map_failure LoraDbError.query_execution_error
        (execute x to_value from_str minus now storage parsed)

pub record IngestResponse : Type 0 where
  pub success : Bool
  pub dev_eui : Text
  pub event_type : Text

module _ (d : Decoders) (r : Readers) where
  -- The frame of a webhook event, by its type.
  unfoldable pub parse_event : DateTime → Text → Bytes → Result LoraDbError Frame
  parse_event now event payload =
      let up = map_error LoraDbError.mqtt_parse_error (parse_uplink d r now payload) in
      let join = map_error LoraDbError.mqtt_parse_error (parse_join d r now payload) in
      let status = map_error LoraDbError.mqtt_parse_error (parse_status d r now payload) in
      if eq_text event (text "up")
      then up
      else if eq_text event (text "join")
      then join
      else if eq_text event (text "status")
      then status
      else err LoraDbError.query_parse_error

  unfoldable pub ingest_chirpstack :
      Formats
      → DateTime
      → Text
      → Bytes
      → StorageEngine
      → Result LoraDbError IngestResponse × StorageEngine
  ingest_chirpstack x now event payload storage =
      let parsed =
        if ltb max_payload_size (length payload)
        then err LoraDbError.mqtt_parse_error
        else parse_event now event payload in
      elim parsed [
        | err e ↦ (err e, storage)
        | ok frame ↦
            let (written, after) = Storage.write x now frame storage in
            elim written [
              | err e ↦ (err LoraDbError.storage_error, after)
              | ok _ ↦ (
                ok (record {
                  success = true;
                  dev_eui = (dev_eui frame).as_str;
                  event_type = event;
                }),
                after,
              )
            ]
      ]
