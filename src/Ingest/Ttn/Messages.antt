-- ===== src/Ingest/Ttn/Messages.antt =====
-- What the parser of src/ingest/ttn.rs makes of the message of an uplink.
use lo_ra_db.Prelude.{
  ℕ, suc, ◌≡◌, ◌≤◌, ◌<◌, ◌^◌, refl, true, false, Option, none, some, List, [], ◌∷◌, map, ok, arith,
  length, ap, ◌∙◌, sym, All, all, ◌==◌, lt→ltb,
}
use lo_ra_db.Model.Text.{Text, text, ends_with}
use lo_ra_db.Model.Lorawan
use lo_ra_db.Model.Lorawan.{DevEui}
use lo_ra_db.Model.Frames.{uplink, UplinkFrame, DateTime, GatewayRxInfo}
use lo_ra_db.Storage.{digits}
use lo_ra_db.Engine.Bytes.{Bytes}
use lo_ra_db.Query.Lexer.{is_digit, parse_digits}
use lo_ra_db.Query.Lexer.Step.{all-digits}
use lo_ra_db.Query.Lexer.RoundTrip.{length-digits, parse_digits-all_digits}
use lo_ra_db.Ingest.Common.{
  Readers, max_mqtt_payload_size, has_text_payload, object_of, payload_of-object_of, time_of-some,
  validate_payload_size-small, device_of-valid,
}
use lo_ra_db.Ingest.Ttn.{TtnUplink, RxMetadata, gateway_of, frame_of, parse_message, parse_u64}

abbrev pub gateway_message : GatewayRxInfo → RxMetadata
gateway_message g = record {
  gateway_id = g.gateway_id.as_str;
  gateway_eui = none;
  rssi = g.rssi;
  channel_rssi = none;
  snr = g.snr;
  location = g.location;
}

-- The message of an uplink of a named device.
unfoldable pub message_of : (DateTime → Text) → Text → UplinkFrame → TtnUplink
message_of to_rfc3339 name f = record {
  end_device_ids = record {
    device_id = name;
    dev_eui = f.dev_eui.as_str;
    application_id = f.application_id.as_str;
  };
  uplink_message = record {
    f_port = f.f_port;
    f_cnt = f.f_cnt;
    frm_payload = f.raw_payload;
    decoded_payload = object_of f.decoded_payload;
    rx_metadata = map gateway_message f.rx_info;
    lora = some (record { bandwidth = f.dr.bandwidth; spreading_factor = f.dr.spreading_factor });
    frequency = digits (suc f.frequency) f.frequency [];
    confirmed = f.confirmed;
    received_at = some (to_rfc3339 f.received_at);
  };
}

-- What the messages of this network server cannot express is absent: the setting of the data rate, the
-- gateways' channels, and any modulation but LoRa.
unfoldable pub IsExpressible : Text → UplinkFrame → Type 0
IsExpressible name f =
    (f.device_name ≡ some name)
    × (f.adr ≡ false)
    × (f.dr ≡ record {
      modulation = text "LORA";
      bandwidth = f.dr.bandwidth;
      spreading_factor = f.dr.spreading_factor;
      bitrate = none;
    })
    × All (λ g. (g.channel ≡ 0) × (g.rf_chain ≡ 0)) f.rx_info

not_plus : (c : ℕ) → is_digit c ≡ true → (c == b'+') ≡ false
not_plus c h = ground arith

parse_u64_digits :
    (s : Text) (n : ℕ)
    → all is_digit s ≡ true
    → 0 < length s
    → parse_digits 0 s ≡ some n
    → n < 2 ^ 64
    → parse_u64 s ≡ some n
unfolding parse_u64
parse_u64_digits [] n a l e b = absurd (omega arith)
parse_u64_digits (c ∷ s) n a l e b =
    rw (not_plus c (ground (arith, a)), parse_u64, e, lt→ltb n (2 ^ 64) b) refl

parse_u64-digits : (n : ℕ) → n < 2 ^ 64 → parse_u64 (digits (suc n) n []) ≡ some n
parse_u64-digits n h =
    parse_u64_digits (digits (suc n) n []) n (all-digits (suc n) n [] refl) (length-digits n n [])
      (parse_digits-all_digits n) h

map-gateway_message :
    (l : List GatewayRxInfo)
    → All (λ g. (g.channel ≡ 0) × (g.rf_chain ≡ 0)) l
    → map gateway_of (map gateway_message l) ≡ l
unfolding gateway_of
map-gateway_message [] h = refl
map-gateway_message (g ∷ l) h =
    let first : gateway_of (gateway_message g) ≡ g =
      ap (λ c. record g { channel = c; rf_chain = 0 }) (sym h.0.0)
      ∙ ap (λ c. record g { rf_chain = c }) (sym h.0.1) in
    cc (first, map-gateway_message l h.1)

module _ (from_slice : Bytes → Option TtnUplink) (r : Readers) where
  frame_of-message_of :
      (now : DateTime) (to_rfc3339 : DateTime → Text) (name : Text) (f : UplinkFrame)
      → r.parse_from_rfc3339 (to_rfc3339 f.received_at) ≡ some f.received_at
      → IsExpressible name f
      → has_text_payload f.decoded_payload ≡ false
      → frame_of from_slice r now
          (message_of to_rfc3339 name f)
          f.dev_eui
          f.frequency
          (record { bandwidth = f.dr.bandwidth; spreading_factor = f.dr.spreading_factor })
        ≡ uplink f
  unfolding frame_of message_of IsExpressible
  frame_of-message_of now to_rfc3339 name f time h plain =
      let (named, adr, dr, gateways) = h in
      rw
        (
          time_of-some r now f.received_at (to_rfc3339 f.received_at) time,
          map-gateway_message f.rx_info gateways,
          payload_of-object_of r f.decoded_payload plain,
          sym named,
          sym adr,
        )
        (ap (λ z. uplink (record f { dr = z })) (sym dr))

  -- An uplink of a valid, named device, which the messages of The Things Network can express and whose
  -- payload is no JSON text, is what its message on a topic that ends in `/up` is parsed to, where the
  -- payload has at most 1 MiB, the frequency fits 64 bits and the time can be read.
  pub parse_message-message_of :
      (now : DateTime) (to_rfc3339 : DateTime → Text) (name : Text) (f : UplinkFrame) (topic : Text)
      (payload : Bytes)
      → ends_with topic (text "/up") ≡ true
      → from_slice payload ≡ some (message_of to_rfc3339 name f)
      → length payload ≤ max_mqtt_payload_size
      → r.parse_from_rfc3339 (to_rfc3339 f.received_at) ≡ some f.received_at
      → Lorawan.new f.dev_eui.as_str ≡ ok f.dev_eui
      → f.frequency < 2 ^ 64
      → IsExpressible name f
      → has_text_payload f.decoded_payload ≡ false
      → parse_message from_slice r now topic payload ≡ ok (some (uplink f))
  unfolding parse_message message_of
  parse_message-message_of now to_rfc3339 name f topic payload up decodes small time valid frequency
        h plain =
      rw
        (
          up,
          validate_payload_size-small payload max_mqtt_payload_size small,
          decodes,
          device_of-valid f.dev_eui valid,
          parse_u64-digits f.frequency frequency,
        )
        (ap (λ z. ok (some z)) (frame_of-message_of now to_rfc3339 name f time h plain))
