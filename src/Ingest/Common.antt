-- ===== src/Ingest/Common.antt =====
-- src/ingest/common.rs, and what the two parsers of src/ingest share: the errors by kind, the tests of
-- a topic, and the reading of times and of stored JSON, which are parameters.
use lo_ra_db.Prelude.{
  ℕ, ◌*◌, ◌≤◌, ◌≡◌, refl, ap, arith, Bool, true, false, ◌||◌, Option, none, some, [], ◌∷◌, Result,
  ok, err, if◌then◌else◌, ltb, length, unwrap_or, and_then, get_elem?,
}
use lo_ra_db.Model.Text.{Text, starts_with}
use lo_ra_db.Model.Json.{Value, split_from}
use lo_ra_db.Model.Lorawan
use lo_ra_db.Model.Lorawan.{LoraDbError, DevEui}
use lo_ra_db.Model.Frames.{DateTime, DecodedPayload}
use lo_ra_db.Engine.Bytes.{Bytes}
use lo_ra_db.Query.Project.{from_json}

-- An `LoraDbError`, or an error with a text: JSON that cannot be read, a frequency, a modulation.
pub data IngestError : Type 0 where
  lora_db : LoraDbError → IngestError
  invalid_json invalid_frequency not_lora : IngestError

abbrev pub max_mqtt_payload_size : ℕ
max_mqtt_payload_size = 1024 * 1024

unfoldable pub validate_payload_size : Bytes → ℕ → Result IngestError (Unit {0})
validate_payload_size payload max_size =
    if ltb max_size (length payload) then err (lora_db LoraDbError.mqtt_parse_error) else ok tt

-- `DevEui::new(..).map_err(LoraDbError::MqttParseError)`
unfoldable pub device_of : Text → Result IngestError DevEui
device_of s = elim (Lorawan.new s) [
  | ok eui ↦ ok eui
  | err e ↦ err (lora_db LoraDbError.mqtt_parse_error)
]

-- `str::contains`
unfoldable pub contains : Text → Text → Bool
unfolding starts_with
contains [] part = starts_with [] part
contains (c ∷ s) part = starts_with (c ∷ s) part || contains s part

-- `topic.split('/').nth(3)`, in both parsers.
unfoldable pub extract_dev_eui : Text → Option Text
unfolding split_from
extract_dev_eui topic = get_elem? (split_from b'/' [] topic) 3

pub record Readers : Type 0 where
  pub parse_from_rfc3339 : Text → Option DateTime
  pub from_str : Text → Option Value

-- The time of a message, where it has one that can be read, else the clock's.
unfoldable pub time_of : Readers → DateTime → Option Text → DateTime
time_of r now time = unwrap_or (and_then time r.parse_from_rfc3339) now

unfoldable pub payload_of : Readers → Option Value → Option DecodedPayload
payload_of r none = none
payload_of r (some value) = some (from_json r.from_str value)

-- A decoded payload that is a JSON text can be read for what it says, and is not kept as it is.
unfoldable pub is_text : Value → Bool
is_text (Value.string s) = true
is_text _ = false

abbrev pub has_text_payload : Option DecodedPayload → Bool
has_text_payload none = false
has_text_payload (some p) = is_text p.object

abbrev pub object_of : Option DecodedPayload → Option Value
object_of none = none
object_of (some p) = some p.object

from_json_plain :
    (from_str : Text → Option Value) (v : Value)
    → is_text v ≡ false
    → from_json from_str v ≡ record { object = v }
unfolding from_json is_text
from_json_plain from_str (Value.string s) h = cc
from_json_plain from_str Value.null h = refl
from_json_plain from_str (Value.bool b) h = refl
from_json_plain from_str (Value.number n) h = refl
from_json_plain from_str (Value.array xs) h = refl
from_json_plain from_str (Value.object fs) h = refl

pub payload_of-object_of :
    (r : Readers) (p : Option DecodedPayload)
    → has_text_payload p ≡ false
    → payload_of r (object_of p) ≡ p
unfolding payload_of
payload_of-object_of r none h = refl
payload_of-object_of r (some p) h = ap (λ z. some z) (from_json_plain r.from_str p.object h)

pub time_of-some :
    (r : Readers) (now t : DateTime) (s : Text)
    → r.parse_from_rfc3339 s ≡ some t
    → time_of r now (some s) ≡ t
unfolding time_of
time_of-some r now t s h = rw (h, time_of) refl

pub validate_payload_size-small :
    (payload : Bytes) (max_size : ℕ)
    → length payload ≤ max_size
    → validate_payload_size payload max_size ≡ ok tt
unfolding validate_payload_size
validate_payload_size-small payload max_size h = ground arith

pub device_of-valid :
    (eui : DevEui) → Lorawan.new eui.as_str ≡ ok eui → device_of eui.as_str ≡ ok eui
unfolding device_of
device_of-valid eui h = rw (h, device_of) refl
