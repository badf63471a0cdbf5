-- ===== src/Model/Device.antt =====
-- src/model/device.rs: the devices by their normalized EUI. The map of the source has no order; here
-- it ascends by key. The clock is an argument.
pub mod History
use lo_ra_db.Prelude.{
  ℕ, ◌+◌, ◌%◌, ◌^◌, ◌≡◌, ◌≢◌, Bool, Option, none, some, List, [], map, length, is_some,
  Option-cases, inl, inr,
}
use lo_ra_db.Prelude.Assoc
use lo_ra_db.Model.Text.{Text, text_ord}
use lo_ra_db.Model.Lorawan.{DevEui, normalized}
use lo_ra_db.Model.Frames.{DateTime}

pub record DeviceInfo : Type 0 where
  pub dev_eui : DevEui
  pub device_name : Option Text
  pub application_id : Text
  pub first_seen : DateTime
  pub last_seen : Option DateTime
  pub frame_count : ℕ

abbrev pub DeviceRegistry : Type 0
DeviceRegistry = List (Text × DeviceInfo)

unfoldable pub new : DeviceRegistry
new = []

-- The closure of `and_modify`.
unfoldable pub update : DateTime → Option Text → DeviceInfo → DeviceInfo
update now name info = record info {
  last_seen = some now;
  frame_count = (info.frame_count + 1) % 2 ^ 64;
  device_name = elim name [ none ↦ info.device_name | some n ↦ some n ];
}

-- The closure of `or_insert_with`.
unfoldable pub first : DateTime → DevEui → Option Text → Text → DeviceInfo
first now eui name app_id = record {
  dev_eui = eui;
  device_name = name;
  application_id = app_id;
  first_seen = now;
  last_seen = some now;
  frame_count = 1;
}

unfoldable pub register_or_update :
    DateTime → DevEui → Option Text → Text → DeviceRegistry → DeviceRegistry
unfolding update first
register_or_update now eui name app_id devices =
    let key = normalized eui in
    elim (Assoc.get key devices) [
      | some info ↦ Assoc.insert key (update now name info) devices
      | none ↦ Assoc.insert key (first now eui name app_id) devices
    ]

unfoldable pub get : DevEui → DeviceRegistry → Option DeviceInfo
get eui devices = Assoc.get (normalized eui) devices

unfoldable pub list_all : DeviceRegistry → List DeviceInfo
list_all devices = map (λ e. e.1) devices

-- The text is the key as it stands, and is not normalized.
unfoldable pub get_device : Text → DeviceRegistry → Option DeviceInfo
get_device dev_eui_str devices = Assoc.get dev_eui_str devices

unfoldable pub device_count : DeviceRegistry → ℕ
device_count devices = length devices

unfoldable pub remove_device : Text → DeviceRegistry → DeviceRegistry × Bool
remove_device dev_eui_str devices =
    (Assoc.remove dev_eui_str devices, is_some (Assoc.get dev_eui_str devices))

-- What a device's entry is after it is seen.
abbrev pub seen : DateTime → DevEui → Option Text → Text → Option DeviceInfo → DeviceInfo
seen now eui name app_id none = first now eui name app_id
seen now eui name app_id (some info) = update now name info

-- Registering a device keeps the registry ascending, updates the device's own entry or makes its
-- first one, and leaves every other device's entry as it is.
pub get-register_or_update :
    (now : DateTime) (eui other : DevEui) (name : Option Text) (app_id : Text)
    (devices : DeviceRegistry)
    → Assoc.IsSorted devices
    → normalized eui ≢ normalized other
    → Assoc.IsSorted (register_or_update now eui name app_id devices)
      × (get eui (register_or_update now eui name app_id devices)
          ≡ some (seen now eui name app_id (get eui devices)))
      × (get other (register_or_update now eui name app_id devices) ≡ get other devices)
unfolding register_or_update get
get-register_or_update now eui other name app_id devices s h =
    elim (Option-cases (Assoc.get (normalized eui) devices)) [
      | inl p ↦
          rw (p, register_or_update)
            (
              Assoc.insert-IsSorted (normalized eui) (first now eui name app_id) devices s,
              Assoc.get-insert_self (normalized eui) (first now eui name app_id) devices,
              Assoc.get-insert_ne (normalized eui) (normalized other) (first now eui name app_id)
                  devices s h,
            )
      | inr (info, p) ↦
          rw (p, register_or_update)
            (
              Assoc.insert-IsSorted (normalized eui) (update now name info) devices s,
              Assoc.get-insert_self (normalized eui) (update now name info) devices,
              Assoc.get-insert_ne (normalized eui) (normalized other) (update now name info) devices
                  s h,
            )
    ]

pub get-register_self :
    (now : DateTime) (eui : DevEui) (name : Option Text) (app_id : Text) (devices : DeviceRegistry)
    → get eui (register_or_update now eui name app_id devices)
      ≡ some (seen now eui name app_id (get eui devices))
unfolding register_or_update get
get-register_self now eui name app_id devices =
    elim (Option-cases (Assoc.get (normalized eui) devices)) [
      | inl p ↦
          rw (p, register_or_update)
            (Assoc.get-insert_self (normalized eui) (first now eui name app_id) devices)
      | inr (info, p) ↦
          rw (p, register_or_update)
            (Assoc.get-insert_self (normalized eui) (update now name info) devices)
    ]
