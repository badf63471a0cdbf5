-- ===== src/Ingest/ChirpStack/Uplinks.antt =====
-- What the parser of src/ingest/chirpstack.rs makes of messages.
use lo_ra_db.Prelude.{
  ◌≡◌, ◌≤◌, refl, false, Option, none, some, List, [], ◌∷◌, map, Result, ok, err, ◌>>=◌,
  if◌then◌else◌, and_then, Bool-cases, Result-cases, inl, inr, length, ap, sym,
}
use lo_ra_db.Model.Text.{Text, text}
use lo_ra_db.Model.Lorawan
use lo_ra_db.Model.Lorawan.{LoraDbError, DevEui, GatewayEui, ApplicationId, new_lora}
use lo_ra_db.Model.Frames.{uplink, UplinkFrame, DateTime, GatewayLocation, GatewayRxInfo}
use lo_ra_db.Engine.Bytes.{Bytes}
use lo_ra_db.Ingest.Common.{
  Readers, max_mqtt_payload_size, validate_payload_size, device_of, contains, has_text_payload,
  time_of, object_of, payload_of-object_of, time_of-some, validate_payload_size-small,
  device_of-valid,
}
use lo_ra_db.Ingest.ChirpStack.{
  ChirpStackUplink, RxInfo, Location, Decoders, read, location_of, gateway_of, application_of,
  frame_of, topic_frame_of, parse_message, parse_uplink,
}

bind_last {ℓ} :
    {E A B C : Type 0} {D : Type ℓ} (checked : Result E A) (read : Result E B) (of : B → Result E C)
    (f : B → C → D)
    → (checked >>= (λ _. read >>= (λ m. of m >>= (λ e. ok (some (f m e))))))
      ≡ ((checked >>= (λ _. read >>= (λ m. of m >>= (λ e. ok (f m e))))) >>= (λ z. ok (some z)))
bind_last (err e) read of f = refl
bind_last (ok _) (err e) of f = refl
bind_last (ok _) (ok m) of f = elim (Result-cases (of m)) [
  | inl (e, h) ↦ rw h refl
  | inr (c, h) ↦ rw h refl
]

module _ (d : Decoders) (r : Readers) where
  -- A message on a topic with `/event/up` in it is parsed as the webhook parses an uplink, although the
  -- source has the construction of the frame twice, with the same errors, and a message on another
  -- topic is passed over, whatever its payload.
  pub parse_message-parse_uplink :
      (now : DateTime) (topic : Text) (payload : Bytes)
      → parse_message d r now topic payload ≡ (
          if contains topic (text "/event/up")
          then (parse_uplink d r now payload >>= (λ f. ok (some f)))
          else ok none)
  unfolding parse_message parse_uplink frame_of topic_frame_of application_of time_of gateway_of
      location_of
  parse_message-parse_uplink now topic payload =
      elim (Bool-cases (contains topic (text "/event/up"))) [
        | inl e ↦ rw e (
            bind_last (validate_payload_size payload max_mqtt_payload_size)
              (read (d.uplink_message payload)) (λ msg. device_of msg.device_info.dev_eui)
              (λ msg eui. topic_frame_of d r now msg eui))
        | inr e ↦ rw e refl
      ]

-- The message of an uplink: what a network server sends for it.
abbrev pub location_message : Option GatewayLocation → Option Location
location_message none = none
location_message (some l) =
    some
      (record { latitude = some l.latitude; longitude = some l.longitude; altitude = l.altitude })

abbrev pub gateway_message : GatewayRxInfo → RxInfo
gateway_message g = record {
  gateway_id = some g.gateway_id.as_str;
  rssi = some g.rssi;
  snr = some g.snr;
  channel = g.channel;
  rf_chain = g.rf_chain;
  location = location_message g.location;
}

unfoldable pub message_of : (DateTime → Text) → UplinkFrame → ChirpStackUplink
message_of to_rfc3339 f = record {
  time = some (to_rfc3339 f.received_at);
  device_info = record {
    dev_eui = f.dev_eui.as_str;
    device_name = f.device_name;
    application_id = f.application_id.as_str;
    application_name = none;
  };
  f_port = some f.f_port;
  f_cnt = some f.f_cnt;
  confirmed = f.confirmed;
  adr = f.adr;
  dr = some f.dr.spreading_factor;
  rx_info = map gateway_message f.rx_info;
  tx_info_frequency = some (some f.frequency);
  object = object_of f.decoded_payload;
  raw = f.raw_payload;
}

location_of-message : (l : Option GatewayLocation) → and_then (location_message l) location_of ≡ l
unfolding location_of
location_of-message none = refl
location_of-message (some l) = refl

gateway_of-message : (g : GatewayRxInfo) → gateway_of (gateway_message g) ≡ g
unfolding gateway_of
gateway_of-message g = ap (λ l. record g { location = l }) (location_of-message g.location)

map-gateway_message : (l : List GatewayRxInfo) → map gateway_of (map gateway_message l) ≡ l
map-gateway_message [] = refl
map-gateway_message (g ∷ l) = cc (gateway_of-message g, map-gateway_message l)

module _ (d : Decoders) (r : Readers) where
  frame_of-message_of :
      (now : DateTime) (to_rfc3339 : DateTime → Text) (f : UplinkFrame)
      → r.parse_from_rfc3339 (to_rfc3339 f.received_at) ≡ some f.received_at
      → f.dr ≡ new_lora 125000 f.dr.spreading_factor
      → has_text_payload f.decoded_payload ≡ false
      → frame_of d r now (message_of to_rfc3339 f) f.dev_eui ≡ uplink f
  unfolding frame_of message_of application_of
  frame_of-message_of now to_rfc3339 f time dr plain =
      rw
        (
          time_of-some r now f.received_at (to_rfc3339 f.received_at) time,
          map-gateway_message f.rx_info,
          payload_of-object_of r f.decoded_payload plain,
        )
        (ap (λ z. uplink (record f { dr = z })) (sym dr))

  -- An uplink at 125 kHz of a valid device, with a payload that is no JSON text, is what its message
  -- is parsed to, where the payload of the message has at most 1 MiB and its time can be read.
  pub parse_uplink-message_of :
      (now : DateTime) (to_rfc3339 : DateTime → Text) (f : UplinkFrame) (payload : Bytes)
      → d.uplink_message payload ≡ some (message_of to_rfc3339 f)
      → length payload ≤ max_mqtt_payload_size
      → r.parse_from_rfc3339 (to_rfc3339 f.received_at) ≡ some f.received_at
      → Lorawan.new f.dev_eui.as_str ≡ ok f.dev_eui
      → f.dr ≡ new_lora 125000 f.dr.spreading_factor
      → has_text_payload f.decoded_payload ≡ false
      → parse_uplink d r now payload ≡ ok (uplink f)
  unfolding parse_uplink message_of
  parse_uplink-message_of now to_rfc3339 f payload decodes small time valid dr plain =
      rw
        (
          validate_payload_size-small payload max_mqtt_payload_size small,
          decodes,
          device_of-valid f.dev_eui valid,
        )
        (ap (λ z. ok z) (frame_of-message_of now to_rfc3339 f time dr plain))
