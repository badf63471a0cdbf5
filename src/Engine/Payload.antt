-- ===== src/Engine/Payload.antt =====
-- How a frame is serialised (bincode), with the adapters of src/model/decoded.rs, which put a decoded
-- payload into the bytes as the text of its JSON. The library is a parameter on frames whose decoded
-- payload is a text; so are the printing and the reading of JSON (serde_json).
use lo_ra_db.Prelude.{◌≡◌, refl, sym, ◌∙◌, ap, ℕ, Option, none, some, List, and_then}
use lo_ra_db.Model.Text.{Text}
use lo_ra_db.Model.Json.{Value}
use lo_ra_db.Model.Frames.{
  Frame, uplink, downlink, join_request, join_accept, status, UplinkFrame, DecodedPayload,
}
use lo_ra_db.Engine.Bincode.{Bincode}

-- An uplink beside the text that stands for its decoded payload, and the other frames.
pub data WireFrame : Type 0 where
  wire_uplink : UplinkFrame → Option Text → WireFrame
  wire_other : Frame → WireFrame

pub record Libraries : Type 0 where
  pub to_string : Value → Option Text
  pub from_str : Text → Option Value
  pub serialized_size : WireFrame → Option ℕ
  pub serialize : WireFrame → Option (List ℕ)
  pub deserialize : List ℕ → Option WireFrame

module _ (x : Libraries) where
  unfoldable pub serialize_value : DecodedPayload → Option Text
  serialize_value payload = x.to_string payload.object

  unfoldable pub deserialize_value : Text → Option DecodedPayload
  deserialize_value s = and_then (x.from_str s) (λ v. some (record { object = v }))

  -- The payload of an uplink as a text; the frame is kept without it.
  unfoldable pub to_wire : Frame → Option WireFrame
  unfolding serialize_value
  to_wire (uplink f) = elim f.decoded_payload [
    | none ↦ some (wire_uplink f none)
    | some payload ↦
        and_then (serialize_value payload)
          (λ s. some (wire_uplink (record f { decoded_payload = none }) (some s)))
  ]
  to_wire (downlink f) = some (wire_other (downlink f))
  to_wire (join_request f) = some (wire_other (join_request f))
  to_wire (join_accept f) = some (wire_other (join_accept f))
  to_wire (status f) = some (wire_other (status f))

  unfoldable pub from_wire : WireFrame → Option Frame
  unfolding deserialize_value
  from_wire (wire_uplink f none) = some (uplink f)
  from_wire (wire_uplink f (some s)) =
      and_then (deserialize_value s) (λ p. some (uplink (record f { decoded_payload = some p })))
  from_wire (wire_other f) = some f

  unfoldable pub frame_bincode : Bincode
  unfolding to_wire from_wire
  frame_bincode = record {
    serialized_size = λ f. and_then (to_wire f) x.serialized_size;
    serialize = λ f. and_then (to_wire f) x.serialize;
    deserialize = λ p. and_then (x.deserialize p) from_wire;
  }

  -- The JSON of the payload, if there is one, reads back as the payload.
  abbrev pub PayloadReads : Option DecodedPayload → Type 0
  PayloadReads none = Unit
  PayloadReads (some p) =
      (s : Text) × (x.to_string p.object ≡ some s) × (x.from_str s ≡ some p.object)

  abbrev pub payload_of_frame : Frame → Option DecodedPayload
  payload_of_frame (uplink f) = f.decoded_payload
  payload_of_frame (downlink f) = none
  payload_of_frame (join_request f) = none
  payload_of_frame (join_accept f) = none
  payload_of_frame (status f) = none

  unwired :
      (f : UplinkFrame) → f.decoded_payload ≡ none → to_wire (uplink f) ≡ some (wire_uplink f none)
  unfolding to_wire
  unwired f e =
      ap
        (λ o. elim o as (λ _. Option WireFrame) [
          | none ↦ some (wire_uplink f none)
          | some payload ↦
              and_then (serialize_value payload)
                (λ s. some (wire_uplink (record f { decoded_payload = none }) (some s)))
        ])
        e

  from_wire-to_wire :
      (f : Frame)
      → PayloadReads (payload_of_frame f)
      → (w : WireFrame) × (to_wire f ≡ some w) × (from_wire w ≡ some f)
  unfolding to_wire from_wire serialize_value deserialize_value
  from_wire-to_wire (uplink f) h = go f f.decoded_payload refl h
    where
      go :
          (f : UplinkFrame) (p : Option DecodedPayload)
          → f.decoded_payload ≡ p
          → PayloadReads p
          → (w : WireFrame) × (to_wire (uplink f) ≡ some w) × (from_wire w ≡ some (uplink f))
      go f none e h = (wire_uplink f none, unwired f e, refl)
      go f (some p) e (s, written, reads) = (
        wire_uplink (record f { decoded_payload = none }) (some s),
        rw (e, to_wire, written) refl,
        rw reads (ap (λ o. some (uplink (record f { decoded_payload = o }))) (sym e)),
      )
  from_wire-to_wire (downlink f) h = (_, refl, refl)
  from_wire-to_wire (join_request f) h = (_, refl, refl)
  from_wire-to_wire (join_accept f) h = (_, refl, refl)
  from_wire-to_wire (status f) h = (_, refl, refl)

  -- Where the library reads back what it wrote, and the JSON of the decoded payload of a frame, if it has
  -- one, reads back as it was, a serialised frame reads back as it was.
  pub deserialize-serialize :
      ((w : WireFrame) (p : List ℕ) → x.serialize w ≡ some p → x.deserialize p ≡ some w)
      → (f : Frame) (p : List ℕ) → PayloadReads (payload_of_frame f)
      → frame_bincode.serialize f ≡ some p
      → frame_bincode.deserialize p ≡ some f
  unfolding frame_bincode
  deserialize-serialize law f p h e =
      let (w, wired, back) = from_wire-to_wire f h in
      let wrote : x.serialize w ≡ some p = sym (ap (λ o. and_then o x.serialize) wired) ∙ e in
      ap (λ o. and_then o from_wire) (law w p wrote) ∙ back
