-- ===== src/Ingest/Ttn.antt =====
-- src/ingest/ttn.rs. The reading of a payload as a message is a parameter. Floats are bit patterns.
pub mod Messages
use lo_ra_db.Prelude.{
  ℕ, ◌^◌, ◌<◌, ◌≡◌, Bool, true, false, not, Option, none, some, List, [], ◌∷◌, map, Result, ok, err,
  ◌>>=◌, if◌then◌else◌, unwrap_or, ltb, ◌==◌,
}
use lo_ra_db.Prelude.Int.{ℤ}
use lo_ra_db.Model.Text.{Text, text, ends_with}
use lo_ra_db.Model.Json.{Value}
use lo_ra_db.Model.Lorawan.{DevEui, GatewayEui, ApplicationId, DataRate}
use lo_ra_db.Model.Frames.{Frame, uplink, DateTime, GatewayLocation, GatewayRxInfo}
use lo_ra_db.Engine.Bytes.{Bytes}
use lo_ra_db.Ingest.Common.{
  IngestError, invalid_json, invalid_frequency, not_lora, Readers, max_mqtt_payload_size,
  validate_payload_size, device_of, time_of, payload_of,
}
use lo_ra_db.Query.Lexer.{parse_digits}

pub record DeviceIds : Type 0 where
  pub device_id : Text
  pub dev_eui : Text
  pub application_id : Text

pub record RxMetadata : Type 0 where
  pub gateway_id : Text
  pub gateway_eui : Option Text
  pub rssi : ℤ
  pub channel_rssi : Option ℤ
  pub snr : ℕ
  pub location : Option GatewayLocation

pub record LoraDataRate : Type 0 where
  pub bandwidth : ℕ
  pub spreading_factor : ℕ

-- The uplink message with its settings.
pub record UplinkMessage : Type 0 where
  pub f_port : ℕ
  pub f_cnt : ℕ
  pub frm_payload : Option Text
  pub decoded_payload : Option Value
  pub rx_metadata : List RxMetadata
  pub lora : Option LoraDataRate
  pub frequency : Text
  pub confirmed : Bool
  pub received_at : Option Text

pub record TtnUplink : Type 0 where
  pub end_device_ids : DeviceIds
  pub uplink_message : UplinkMessage

-- `str.parse::<u64>()`
unfoldable pub parse_u64 : Text → Option ℕ
parse_u64 [] = none
parse_u64 (c ∷ s) =
    let number = if c == b'+' then s else c ∷ s in
    elim number [
      | [] ↦ none
      | a ∷ ds ↦ elim (parse_digits 0 (a ∷ ds)) [
        | none ↦ none
        | some n ↦ if ltb n (2 ^ 64) then some n else none
      ]
    ]

abbrev pub or_error {ℓ} : {A : Type ℓ} → IngestError → Option A → Result IngestError A
or_error e none = err e
or_error e (some a) = ok a

unfoldable pub gateway_of : RxMetadata → GatewayRxInfo
gateway_of rx = record {
  gateway_id = record { as_str = unwrap_or rx.gateway_eui rx.gateway_id };
  rssi = unwrap_or rx.channel_rssi rx.rssi;
  snr = rx.snr;
  channel = 0;
  rf_chain = 0;
  location = rx.location;
}

module _ (from_slice : Bytes → Option TtnUplink) (r : Readers) where
  unfoldable pub frame_of : DateTime → TtnUplink → DevEui → ℕ → LoraDataRate → Frame
  frame_of now msg dev_eui frequency lora_dr = uplink (record {
    dev_eui = dev_eui;
    application_id = record { as_str = msg.end_device_ids.application_id };
    device_name = some msg.end_device_ids.device_id;
    received_at = time_of r now msg.uplink_message.received_at;
    f_port = msg.uplink_message.f_port;
    f_cnt = msg.uplink_message.f_cnt;
    confirmed = msg.uplink_message.confirmed;
    adr = false;
    dr = record {
      modulation = text "LORA";
      bandwidth = lora_dr.bandwidth;
      spreading_factor = lora_dr.spreading_factor;
      bitrate = none;
    };
    frequency = frequency;
    rx_info = map gateway_of msg.uplink_message.rx_metadata;
    decoded_payload = payload_of r msg.uplink_message.decoded_payload;
    raw_payload = msg.uplink_message.frm_payload;
  })

  unfoldable pub parse_message : DateTime → Text → Bytes → Result IngestError (Option Frame)
  parse_message now topic payload =
      let parsed = (do
        checked ← validate_payload_size payload max_mqtt_payload_size
        msg ← or_error invalid_json (from_slice payload)
        dev_eui ← device_of msg.end_device_ids.dev_eui
        frequency ← or_error invalid_frequency (parse_u64 msg.uplink_message.frequency)
        lora_dr ← or_error not_lora msg.uplink_message.lora
        ok (some (frame_of now msg dev_eui frequency lora_dr))) in
      if not (ends_with topic (text "/up")) then ok none else parsed
