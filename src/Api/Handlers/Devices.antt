-- ===== src/Api/Handlers/Devices.antt =====
-- The handlers of src/api/handlers.rs for devices.
use lo_ra_db.Prelude.{
  ℕ, Option, none, some, List, map, Result, ok, err, ◌>>=◌, length, is_none, if◌then◌else◌,
}
use lo_ra_db.Model.Text.{Text}
use lo_ra_db.Model.Lorawan
use lo_ra_db.Model.Lorawan.{LoraDbError, DevEui}
use lo_ra_db.Model.Frames.{DateTime}
use lo_ra_db.Model.Device
use lo_ra_db.Model.Device.{DeviceRegistry}
use lo_ra_db.Engine.Codec.{Formats}
use lo_ra_db.Storage.{StorageEngine}
use lo_ra_db.Storage.Deletion
use lo_ra_db.Api.Handlers.{max_dev_eui_length, validate_string_length, map_error}

-- The device of a response.
pub record DeviceInfo : Type 0 where
  pub dev_eui : Text
  pub device_name : Option Text
  pub application_id : Text
  pub last_seen : Option Text

pub record DeviceListResponse : Type 0 where
  pub total_devices : ℕ
  pub devices : List DeviceInfo

module _ (to_rfc3339 : DateTime → Text) where
  unfoldable pub info_of : Device.DeviceInfo → DeviceInfo
  info_of device = record {
    dev_eui = device.dev_eui.as_str;
    device_name = device.device_name;
    application_id = device.application_id;
    last_seen = mathlib.Core.Option.map to_rfc3339 device.last_seen;
  }

  unfoldable pub list_devices : DeviceRegistry → DeviceListResponse
  unfolding info_of
  list_devices registry =
      let devices = map info_of (Device.list_all registry) in
      record { total_devices = length devices; devices = devices }

  unfoldable pub get_device : Text → DeviceRegistry → Result LoraDbError DeviceInfo
  get_device dev_eui registry = do
    checked ← validate_string_length dev_eui max_dev_eui_length
    elim (Device.get_device dev_eui registry) [
      | some device ↦ ok (info_of device)
      | none ↦ err LoraDbError.invalid_dev_eui
    ]

pub record DeleteDeviceResponse : Type 0 where
  pub dev_eui : Text
  pub deleted_frames : ℕ

-- The device of the path, once it is in the registry under the text of the path.
unfoldable pub device_to_delete : Text → DeviceRegistry → Result LoraDbError DevEui
device_to_delete dev_eui registry = do
  checked ← validate_string_length dev_eui max_dev_eui_length
  let parsed = map_error LoraDbError.invalid_dev_eui (Lorawan.new dev_eui)
  if is_none (Device.get_device dev_eui registry) then err LoraDbError.invalid_dev_eui else parsed

unfoldable pub delete_device :
    Formats
    → DateTime
    → Text
    → StorageEngine
    → Result LoraDbError DeleteDeviceResponse × StorageEngine
delete_device x now dev_eui storage = elim (device_to_delete dev_eui storage.device_registry) [
  | err e ↦ (err e, storage)
  | ok dev_eui_parsed ↦
      let (deleted, after) = Deletion.delete_device x now dev_eui_parsed storage in
      elim deleted [
        | err e ↦ (err LoraDbError.storage_error, after)
        | ok deleted_count ↦
            (ok (record { dev_eui = dev_eui; deleted_frames = deleted_count }), after)
      ]
]
