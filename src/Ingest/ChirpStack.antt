-- ===== src/Ingest/ChirpStack.antt =====
-- src/ingest/chirpstack.rs. The reading of a payload as one of the three messages is a parameter; the
-- fields that the source marks as dead code are left out of the messages. Floats are bit patterns.
pub mod Uplinks
use lo_ra_db.Prelude.{
  ℕ, zero, ◌≡◌, Bool, true, false, not, Option, none, some, List, [], ◌∷◌, map, Result, ok, err,
  ◌>>=◌, if◌then◌else◌, unwrap_or, and_then,
}
use lo_ra_db.Prelude.Int.{ℤ, pos}
use lo_ra_db.Model.Text.{Text, text}
use lo_ra_db.Model.Json.{Value}
use lo_ra_db.Model.Lorawan.{DevEui, GatewayEui, ApplicationId, new_lora}
use lo_ra_db.Model.Frames.{
  Frame, uplink, join_request, status, DateTime, GatewayLocation, GatewayRxInfo,
}
use lo_ra_db.Engine.Bytes.{Bytes}
use lo_ra_db.Ingest.Common.{
  IngestError, invalid_json, Readers, max_mqtt_payload_size, validate_payload_size, device_of,
  contains, time_of, payload_of,
}

pub record DeviceInfo : Type 0 where
  pub dev_eui : Text
  pub device_name : Option Text
  pub application_id : Text
  pub application_name : Option Text

pub record Location : Type 0 where
  pub latitude : Option ℕ
  pub longitude : Option ℕ
  pub altitude : Option ℕ

pub record RxInfo : Type 0 where
  pub gateway_id : Option Text
  pub rssi : Option ℤ
  pub snr : Option ℕ
  pub channel : ℕ
  pub rf_chain : ℕ
  pub location : Option Location

pub record ChirpStackUplink : Type 0 where
  pub time : Option Text
  pub device_info : DeviceInfo
  pub f_port : Option ℕ
  pub f_cnt : Option ℕ
  pub confirmed : Bool
  pub adr : Bool
  pub dr : Option ℕ
  pub rx_info : List RxInfo
  pub tx_info_frequency : Option (Option ℕ)
  pub object : Option Value
  pub raw : Option Text

pub record ChirpStackJoin : Type 0 where
  pub time : Option Text
  pub device_info : DeviceInfo
  pub dev_addr : Text
  pub rx_info : List RxInfo

pub record ChirpStackStatus : Type 0 where
  pub time : Option Text
  pub device_info : DeviceInfo
  pub margin : ℤ
  pub battery_level : Option ℕ
  pub battery_level_unavailable : Bool

-- `serde_json::from_slice` at the three types.
pub record Decoders : Type 0 where
  pub uplink_message : Bytes → Option ChirpStackUplink
  pub join_message : Bytes → Option ChirpStackJoin
  pub status_message : Bytes → Option ChirpStackStatus

abbrev pub read {ℓ} : {A : Type ℓ} → Option A → Result IngestError A
read none = err invalid_json
read (some a) = ok a

-- A location is made only of both coordinates.
unfoldable pub location_of : Location → Option GatewayLocation
location_of loc = elim loc.latitude [
  | none ↦ none
  | some lat ↦ elim loc.longitude [
    | none ↦ none
    | some lng ↦ some (record { latitude = lat; longitude = lng; altitude = loc.altitude })
  ]
]

unfoldable pub gateway_of : RxInfo → GatewayRxInfo
gateway_of rx = record {
  gateway_id = record { as_str = unwrap_or rx.gateway_id (text "unknown") };
  rssi = unwrap_or rx.rssi (pos 0);
  snr = unwrap_or rx.snr 0;
  channel = rx.channel;
  rf_chain = rx.rf_chain;
  location = and_then rx.location location_of;
}

-- The same two, as `parse_message` has them.
unfoldable pub topic_location_of : Location → Option GatewayLocation
topic_location_of loc = elim loc.latitude [
  | none ↦ none
  | some lat ↦ elim loc.longitude [
    | none ↦ none
    | some lng ↦ some (record { latitude = lat; longitude = lng; altitude = loc.altitude })
  ]
]

unfoldable pub topic_gateway_of : RxInfo → GatewayRxInfo
unfolding topic_location_of
topic_gateway_of rx = record {
  gateway_id = record { as_str = unwrap_or rx.gateway_id (text "unknown") };
  rssi = unwrap_or rx.rssi (pos 0);
  snr = unwrap_or rx.snr 0;
  channel = rx.channel;
  rf_chain = rx.rf_chain;
  location = and_then rx.location topic_location_of;
}

-- `application_name.or(Some(application_id))`
unfoldable pub application_of : DeviceInfo → Text
application_of info = unwrap_or info.application_name info.application_id

module _ (d : Decoders) (r : Readers) where
  -- The frame of a message for a device, as `parse_uplink` makes it.
  unfoldable pub frame_of : DateTime → ChirpStackUplink → DevEui → Frame
  frame_of now msg dev_eui = uplink (record {
    dev_eui = dev_eui;
    application_id = record { as_str = application_of msg.device_info };
    device_name = msg.device_info.device_name;
    received_at = time_of r now msg.time;
    f_port = unwrap_or msg.f_port 0;
    f_cnt = unwrap_or msg.f_cnt 0;
    confirmed = msg.confirmed;
    adr = msg.adr;
    dr = new_lora 125000 (unwrap_or msg.dr 0);
    frequency = unwrap_or (and_then msg.tx_info_frequency (λ f. f)) 0;
    rx_info = map gateway_of msg.rx_info;
    decoded_payload = payload_of r msg.object;
    raw_payload = msg.raw;
  })

  -- The frame of `parse_message`, which the source writes out a second time.
  unfoldable pub topic_frame_of : DateTime → ChirpStackUplink → DevEui → Frame
  unfolding topic_gateway_of
  topic_frame_of now msg dev_eui = uplink (record {
    dev_eui = dev_eui;
    application_id = record {
      as_str = unwrap_or msg.device_info.application_name msg.device_info.application_id;
    };
    device_name = msg.device_info.device_name;
    received_at = unwrap_or (and_then msg.time r.parse_from_rfc3339) now;
    f_port = unwrap_or msg.f_port 0;
    f_cnt = unwrap_or msg.f_cnt 0;
    confirmed = msg.confirmed;
    adr = msg.adr;
    dr = new_lora 125000 (unwrap_or msg.dr 0);
    frequency = unwrap_or (and_then msg.tx_info_frequency (λ f. f)) 0;
    rx_info = map topic_gateway_of msg.rx_info;
    decoded_payload = payload_of r msg.object;
    raw_payload = msg.raw;
  })

  unfoldable pub parse_message : DateTime → Text → Bytes → Result IngestError (Option Frame)
  parse_message now topic payload =
      let parsed = (do
        checked ← validate_payload_size payload max_mqtt_payload_size
        msg ← read (d.uplink_message payload)
        dev_eui ← device_of msg.device_info.dev_eui
        ok (some (topic_frame_of now msg dev_eui))) in
      if not (contains topic (text "/event/up")) then ok none else parsed

  unfoldable pub parse_uplink : DateTime → Bytes → Result IngestError Frame
  parse_uplink now payload = do
    checked ← validate_payload_size payload max_mqtt_payload_size
    msg ← read (d.uplink_message payload)
    dev_eui ← device_of msg.device_info.dev_eui
    ok (frame_of now msg dev_eui)

  -- The application stands as the join EUI.
  unfoldable pub parse_join : DateTime → Bytes → Result IngestError Frame
  parse_join now payload = do
    checked ← validate_payload_size payload max_mqtt_payload_size
    msg ← read (d.join_message payload)
    dev_eui ← device_of msg.device_info.dev_eui
    ok (
        join_request (record {
          dev_eui = dev_eui;
          join_eui = application_of msg.device_info;
          received_at = time_of r now msg.time;
          rx_info = map gateway_of msg.rx_info;
        }))

  unfoldable pub battery_of : ChirpStackStatus → ℕ
  battery_of msg = if msg.battery_level_unavailable then 255 else unwrap_or msg.battery_level 255

  unfoldable pub parse_status : DateTime → Bytes → Result IngestError Frame
  parse_status now payload = do
    checked ← validate_payload_size payload max_mqtt_payload_size
    msg ← read (d.status_message payload)
    dev_eui ← device_of msg.device_info.dev_eui
    ok (
        status (record {
          dev_eui = dev_eui;
          application_id = record { as_str = application_of msg.device_info };
          device_name = msg.device_info.device_name;
          received_at = time_of r now msg.time;
          margin = msg.margin;
          battery_level = battery_of msg;
        }))
