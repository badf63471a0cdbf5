-- ===== src/Model/Lorawan.antt =====
-- src/model/lorawan.rs
use lo_ra_db.Prelude.{ℕ, Option, none, if◌then◌else◌, ◌==◌, not, all, Result, ok, err}
use lo_ra_db.Model.Text.{Text, byte_len, is_ascii_hexdigit, to_lowercase, text}

-- The errors of src/error.rs that the modelled code returns; the message texts are left out.
pub data LoraDbError : Type 0 where
  storage_error wal_error invalid_dev_eui : LoraDbError
  query_parse_error query_execution_error auth_error config_error bincode_error : LoraDbError
  mqtt_parse_error io_error json_error : LoraDbError
  incompatible_sstable_version : ℕ → LoraDbError

-- What stops a caller: an error that is returned, or a panic.
pub data Failure : Type 0 where
  error : LoraDbError → Failure
  panic : Failure

abbrev pub lift {ℓ} : {A : Type ℓ} → Result LoraDbError A → Result Failure A
lift (ok a) = ok a
lift (err e) = err (error e)

pub record DevEui : Type 0 where
  pub as_str : Text

unfoldable pub validate : DevEui → Result LoraDbError (Unit {0})
unfolding byte_len is_ascii_hexdigit
validate eui =
    if not (byte_len eui.as_str == 16)
    then err invalid_dev_eui
    else if not (all is_ascii_hexdigit eui.as_str)
    then err invalid_dev_eui
    else ok tt

unfoldable pub new : Text → Result LoraDbError DevEui
unfolding validate
new dev_eui = elim (validate (record { as_str = dev_eui })) [
  | ok _ ↦ ok (record { as_str = dev_eui })
  | err e ↦ err e
]

-- `DevEui::normalized`
unfoldable pub normalized : DevEui → Text
unfolding to_lowercase
normalized eui = to_lowercase eui.as_str

pub record GatewayEui : Type 0 where
  pub as_str : Text

pub record ApplicationId : Type 0 where
  pub as_str : Text

pub record DataRate : Type 0 where
  pub modulation : Text
  pub bandwidth : ℕ
  pub spreading_factor : ℕ
  pub bitrate : Option ℕ

unfoldable pub new_lora : ℕ → ℕ → DataRate
new_lora bandwidth spreading_factor = record {
  modulation = text "LORA";
  bandwidth = bandwidth;
  spreading_factor = spreading_factor;
  bitrate = none;
}
