-- ===== src/Tests/Ingestion.antt =====
-- Runs of the parsers of network messages and of the handlers.
use lo_ra_db.Prelude.{
  ◌≡◌, ap, refl, true, false, Option, none, some, [], ◌∷◌, ok, ◌>>=◌, arith, if◌then◌else◌,
}
use lo_ra_db.Prelude.Int.{negsuc}
use lo_ra_db.Prelude.Order.{cmp_list}
use lo_ra_db.Model.Text.{text, ends_with, eq_text}
use lo_ra_db.Model.Lorawan.{LoraDbError, new_lora}
use lo_ra_db.Model.Json.{Value}
use lo_ra_db.Model.Frames.{uplink, UplinkFrame, dev_eui}
use lo_ra_db.Model.Device
use lo_ra_db.Model.Device.{seen}
use lo_ra_db.Engine.Bytes.{Bytes}
use lo_ra_db.Storage.{name_of, app_of}
use lo_ra_db.Ingest.Common.{Readers, contains, is_text}
use lo_ra_db.Ingest.ChirpStack.{Decoders, parse_message, parse_uplink}
use lo_ra_db.Ingest.ChirpStack.Uplinks
use lo_ra_db.Ingest.ChirpStack.Uplinks.{parse_message-parse_uplink, parse_uplink-message_of}
use lo_ra_db.Ingest.Ttn
use lo_ra_db.Ingest.Ttn.{TtnUplink}
use lo_ra_db.Ingest.Ttn.Messages
use lo_ra_db.Ingest.Ttn.Messages.{IsExpressible, parse_message-message_of}
use lo_ra_db.Api.Handlers.{parse_event, ingest_chirpstack, map_error}
use lo_ra_db.Api.Handlers.Ingestion.{ingest_chirpstack-registers}
use lo_ra_db.Tests.Formats.{toy_formats}
use lo_ra_db.Tests.Queries.{engine, from_str, noon, eui, eui-valid}
use lo_ra_db.Tests.Language.{chrono, print_time, read_time-print_time}

abbrev reading : UplinkFrame
reading = record {
  dev_eui = eui;
  application_id = record { as_str = text "field" };
  device_name = some (text "probe");
  received_at = noon;
  f_port = 2;
  f_cnt = 7;
  confirmed = false;
  adr = false;
  dr = new_lora 125000 7;
  frequency = 868100000;
  rx_info =
      record {
        gateway_id = record { as_str = text "gw" };
        rssi = negsuc 59;
        snr = 9;
        channel = 0;
        rf_chain = 0;
        location = some (record { latitude = 1; longitude = 2; altitude = none });
      }
      ∷ [];
  decoded_payload = some (record { object = Value.number (text "21") });
  raw_payload = none;
}

abbrev readers : Readers
readers = record { parse_from_rfc3339 = chrono.parse_from_rfc3339; from_str = from_str }

abbrev decoders : Decoders
decoders = record {
  uplink_message = λ payload. some (Uplinks.message_of print_time reading);
  join_message = λ payload. none;
  status_message = λ payload. none;
}

abbrev payload : Bytes
payload = text "{}"

parse_message-parse_uplink_example :
    parse_message decoders readers noon (text "a/event/up") payload ≡ (
      if contains (text "a/event/up") (text "/event/up")
      then (parse_uplink decoders readers noon payload >>= (λ f. ok (some f)))
      else ok none)
parse_message-parse_uplink_example =
    parse_message-parse_uplink decoders readers noon (text "a/event/up") payload

reading-dr : reading.dr ≡ new_lora 125000 reading.dr.spreading_factor
unfolding new_lora
reading-dr = refl

parse_uplink-message_of_example : parse_uplink decoders readers noon payload ≡ ok (uplink reading)
unfolding is_text
parse_uplink-message_of_example =
    parse_uplink-message_of decoders readers noon print_time reading payload refl (omega arith)
      (read_time-print_time noon) eui-valid reading-dr refl

abbrev from_slice : Bytes → Option TtnUplink
from_slice bytes = some (Messages.message_of print_time (text "probe") reading)

reading-IsExpressible : IsExpressible (text "probe") reading
unfolding IsExpressible new_lora
reading-IsExpressible = (refl, refl, refl, ((refl, refl), tt))

topic-up : ends_with (text "v3/a/devices/b/up") (text "/up") ≡ true
unfolding ends_with
topic-up = refl

parse_message-message_of_example :
    Ttn.parse_message from_slice readers noon (text "v3/a/devices/b/up") payload
    ≡ ok (some (uplink reading))
unfolding is_text
parse_message-message_of_example =
    parse_message-message_of from_slice readers noon print_time (text "probe") reading
      (text "v3/a/devices/b/up") payload topic-up refl (omega arith) (read_time-print_time noon)
      eui-valid (omega arith) reading-IsExpressible refl

event-parsed : parse_event decoders readers noon (text "up") payload ≡ ok (uplink reading)
unfolding parse_event eq_text cmp_list is_text
event-parsed = ap (map_error LoraDbError.mqtt_parse_error) (
    parse_uplink-message_of decoders readers noon print_time reading payload refl (omega arith)
      (read_time-print_time noon) eui-valid reading-dr refl)

ingest_chirpstack-registers_example :
    Device.get eui
      (ingest_chirpstack decoders readers toy_formats noon
        (text "up")
        payload
        engine).1.device_registry
    ≡ some (
        seen noon eui
          (name_of (uplink reading))
          (app_of (uplink reading))
          (Device.get eui engine.device_registry))
unfolding dev_eui
ingest_chirpstack-registers_example =
    ingest_chirpstack-registers decoders readers toy_formats noon (text "up") payload engine
      (uplink reading) (omega arith) event-parsed
