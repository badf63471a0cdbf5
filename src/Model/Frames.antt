-- ===== src/Model/Frames.antt =====
-- src/model/frames.rs and src/model/gateway.rs. Floats are carried and never computed with: they
-- stand as their bit patterns. An instant is its number of nanoseconds since the epoch.
use lo_ra_db.Prelude.{ℕ, Bool, Option, none, some, List}
use lo_ra_db.Prelude.Int.{ℤ, div_floor}
use lo_ra_db.Model.Text.{Text}
use lo_ra_db.Model.Lorawan.{DevEui, GatewayEui, ApplicationId, DataRate}
use lo_ra_db.Model.Json.{Value}

-- `DateTime<Utc>`
pub record DateTime : Type 0 where
  pub nanos : ℤ

-- `DateTime::timestamp_micros` rounds down.
abbrev pub timestamp_micros : DateTime → ℤ
timestamp_micros t = div_floor t.nanos 1000

pub record GatewayLocation : Type 0 where
  pub latitude : ℕ
  pub longitude : ℕ
  pub altitude : Option ℕ

pub record GatewayRxInfo : Type 0 where
  pub gateway_id : GatewayEui
  pub rssi : ℤ
  pub snr : ℕ
  pub channel : ℕ
  pub rf_chain : ℕ
  pub location : Option GatewayLocation

-- `DecodedPayload` of src/model/decoded.rs.
pub record DecodedPayload : Type 0 where
  pub object : Value

pub record UplinkFrame : Type 0 where
  pub dev_eui : DevEui
  pub application_id : ApplicationId
  pub device_name : Option Text
  pub received_at : DateTime
  pub f_port : ℕ
  pub f_cnt : ℕ
  pub confirmed : Bool
  pub adr : Bool
  pub dr : DataRate
  pub frequency : ℕ
  pub rx_info : List GatewayRxInfo
  pub decoded_payload : Option DecodedPayload
  pub raw_payload : Option Text

pub record DownlinkFrame : Type 0 where
  pub dev_eui : DevEui
  pub application_id : ApplicationId
  pub queued_at : DateTime
  pub f_port : ℕ
  pub f_cnt : ℕ
  pub confirmed : Bool
  pub base64_data : Text

pub record JoinRequest : Type 0 where
  pub dev_eui : DevEui
  pub join_eui : Text
  pub received_at : DateTime
  pub rx_info : List GatewayRxInfo

pub record JoinAccept : Type 0 where
  pub dev_eui : DevEui
  pub accepted_at : DateTime
  pub dev_addr : Text

pub record StatusFrame : Type 0 where
  pub dev_eui : DevEui
  pub application_id : ApplicationId
  pub device_name : Option Text
  pub received_at : DateTime
  pub margin : ℤ
  pub battery_level : ℕ

pub data Frame : Type 0 where
  uplink : UplinkFrame → Frame
  downlink : DownlinkFrame → Frame
  join_request : JoinRequest → Frame
  join_accept : JoinAccept → Frame
  status : StatusFrame → Frame

unfoldable pub dev_eui : Frame → DevEui
dev_eui (uplink f) = f.dev_eui
dev_eui (downlink f) = f.dev_eui
dev_eui (join_request f) = f.dev_eui
dev_eui (join_accept f) = f.dev_eui
dev_eui (status f) = f.dev_eui

unfoldable pub timestamp : Frame → DateTime
timestamp (uplink f) = f.received_at
timestamp (downlink f) = f.queued_at
timestamp (join_request f) = f.received_at
timestamp (join_accept f) = f.accepted_at
timestamp (status f) = f.received_at

unfoldable pub application_id : Frame → Option ApplicationId
application_id (uplink f) = some f.application_id
application_id (downlink f) = some f.application_id
application_id (status f) = some f.application_id
application_id (join_request f) = none
application_id (join_accept f) = none
