-- ===== src/Api/Handlers/Ingestion.antt =====
-- What a webhook event does, through the handler of src/api/handlers.rs.
use lo_ra_db.Prelude.{
  ◌≡◌, ◌≤◌, ◌∙◌, ap, false, some, ok, length, ltb, arith, Result-cases, inl, inr,
}
use lo_ra_db.Model.Text.{Text}
use lo_ra_db.Model.Frames.{Frame, DateTime, dev_eui}
use lo_ra_db.Model.Device
use lo_ra_db.Model.Device.{seen, get-register_self}
use lo_ra_db.Engine.Codec.{Formats}
use lo_ra_db.Engine.Bytes.{Bytes}
use lo_ra_db.Storage
use lo_ra_db.Storage.{StorageEngine, name_of, app_of}
use lo_ra_db.Storage.Registry.{write-registry}
use lo_ra_db.Ingest.Common.{Readers}
use lo_ra_db.Ingest.ChirpStack.{Decoders}
use lo_ra_db.Api.Handlers.{max_payload_size, parse_event, ingest_chirpstack}

module _ (d : Decoders) (r : Readers) (x : Formats) where
  -- An event that is parsed to a frame, with a payload of at most 1 MiB, leaves the device of the frame
  -- in the registry as seen, whatever becomes of the frame in the storage.
  pub ingest_chirpstack-registers :
      (now : DateTime) (event : Text) (payload : Bytes) (storage : StorageEngine) (frame : Frame)
      → length payload ≤ max_payload_size
      → parse_event d r now event payload ≡ ok frame
      → Device.get
          (dev_eui frame)
          (ingest_chirpstack d r x now event payload storage).1.device_registry
        ≡ some (
            seen now
              (dev_eui frame)
              (name_of frame)
              (app_of frame)
              (Device.get (dev_eui frame) storage.device_registry))
  unfolding ingest_chirpstack
  ingest_chirpstack-registers now event payload storage frame small parsed =
      let within : ltb max_payload_size (length payload) ≡ false = ground (arith, small) in
      let written = Storage.write x now frame storage in
      let known =
        ap (Device.get (dev_eui frame)) (write-registry x now frame storage)
        ∙ get-register_self now (dev_eui frame) (name_of frame) (app_of frame)
            storage.device_registry in
      elim (Result-cases written.0) [
        | inl (why, bad) ↦ rw (within, parsed, ingest_chirpstack, bad) known
        | inr (done, good) ↦ rw (within, parsed, ingest_chirpstack, good) known
      ]
