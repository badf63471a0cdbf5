-- ===== src/Model/Device/History.antt =====
-- The registry of src/model/device.rs as the history of what it was told.
use lo_ra_db.Prelude.{
  ◌+◌, ◌%◌, ◌^◌, ◌≡◌, refl, ◌∙◌, ap, Bool, true, false, Option, none, some, List, [], ◌∷◌, length,
  filter, arith, Option-cases, Bool-cases, inl, inr,
}
use lo_ra_db.Prelude.Assoc
use lo_ra_db.Model.Text.{Text, text_ord, eq_text, eq_of_eq_text, eq_text_self}
use lo_ra_db.Model.Lorawan.{DevEui, normalized}
use lo_ra_db.Model.Frames.{DateTime}
use lo_ra_db.Model.Device.{
  DeviceInfo, DeviceRegistry, get, register_or_update, update, first, seen, get-register_self,
  get-register_or_update,
}

-- A call of `register_or_update`.
pub record Sighting : Type 0 where
  pub now : DateTime
  pub eui : DevEui
  pub name : Option Text
  pub app_id : Text

unfoldable pub register_all : List Sighting → DeviceRegistry → DeviceRegistry
register_all [] devices = devices
register_all (s ∷ l) devices =
    register_all l (register_or_update s.now s.eui s.name s.app_id devices)

-- The device is the same, by its normalized EUI.
abbrev pub is_same : DevEui → Sighting → Bool
is_same eui s = eq_text (normalized s.eui) (normalized eui)

-- The last time, and the last name that was given.
unfoldable pub last_time : DateTime → List Sighting → DateTime
last_time t [] = t
last_time t (s ∷ l) = last_time s.now l

unfoldable pub last_name : Option Text → List Sighting → Option Text
last_name n [] = n
last_name n (s ∷ l) = last_name (elim s.name [ none ↦ n | some m ↦ some m ]) l

-- What is known of a device that was seen so, the oldest sighting first.
unfoldable pub summary : List Sighting → Option DeviceInfo
unfolding last_time last_name
summary [] = none
summary (s ∷ l) = some (record {
  dev_eui = s.eui;
  device_name = last_name s.name l;
  application_id = s.app_id;
  first_seen = s.now;
  last_seen = some (last_time s.now l);
  frame_count = length (s ∷ l) % 2 ^ 64;
})

-- An entry behind further sightings.
abbrev pub resumed : DateTime → DeviceInfo → List Sighting → DeviceInfo
resumed t info l = record info {
  device_name = last_name info.device_name l;
  last_seen = some (last_time t l);
  frame_count = (info.frame_count + length l) % 2 ^ 64;
}

register-IsSorted :
    (s : Sighting) (devices : DeviceRegistry)
    → Assoc.IsSorted devices
    → Assoc.IsSorted (register_or_update s.now s.eui s.name s.app_id devices)
unfolding register_or_update
register-IsSorted s devices h = elim (Option-cases (Assoc.get (normalized s.eui) devices)) [
  | inl p ↦
      rw (p, register_or_update)
        (Assoc.insert-IsSorted (normalized s.eui) (first s.now s.eui s.name s.app_id) devices h)
  | inr (info, p) ↦
      rw (p, register_or_update)
        (Assoc.insert-IsSorted (normalized s.eui) (update s.now s.name info) devices h)
]

get-register_other :
    (s : Sighting) (eui : DevEui) (devices : DeviceRegistry)
    → Assoc.IsSorted devices
    → is_same eui s ≡ false
    → get eui (register_or_update s.now s.eui s.name s.app_id devices) ≡ get eui devices
get-register_other s eui devices h p =
    (get-register_or_update s.now s.eui eui s.name s.app_id devices h (λ e. different e)).2
  where
    different : normalized s.eui ≡ normalized eui → ⊥
    different e =
        let same : is_same eui s ≡ true = rw e (eq_text_self (normalized eui)) in cc (same, p)

get-register_same :
    (s : Sighting) (eui : DevEui) (devices : DeviceRegistry)
    → is_same eui s ≡ true
    → get eui (register_or_update s.now s.eui s.name s.app_id devices)
      ≡ some (seen s.now s.eui s.name s.app_id (get eui devices))
unfolding get
get-register_same s eui devices p =
    rw (← eq_of_eq_text (normalized s.eui) (normalized eui) p)
      (get-register_self s.now s.eui s.name s.app_id devices)

-- A known device, last seen at `t`.
get-register_known :
    (l : List Sighting) (eui : DevEui) (t : DateTime) (info : DeviceInfo) (devices : DeviceRegistry)
    → Assoc.IsSorted devices
    → info.last_seen ≡ some t
    → info.frame_count ≡ info.frame_count % 2 ^ 64
    → get eui devices ≡ some info
    → get eui (register_all l devices) ≡ some (resumed t info (filter (is_same eui) l))
unfolding register_all last_time last_name update
get-register_known [] eui t info devices h last small g =
    g ∙ ap some (λ i. record info { last_seen = last i; frame_count = small' i })
  where
    small' : info.frame_count ≡ (info.frame_count + 0) % 2 ^ 64
    small' = omega (arith, small)
get-register_known (s ∷ l) eui t info devices h last small g = elim (Bool-cases (is_same eui s)) [
  | inl p ↦ rw p (
      get-register_known l eui s.now (update s.now s.name info) _ (register-IsSorted s devices h)
        refl (omega arith)
        (get-register_same s eui devices p ∙ ap (λ o. some (seen s.now s.eui s.name s.app_id o)) g)
      ∙ ap
          (λ n. some (record info {
            device_name =
                last_name (elim s.name [ none ↦ info.device_name | some m ↦ some m ])
                  (filter (is_same eui) l);
            last_seen = some (last_time s.now (filter (is_same eui) l));
            frame_count = n;
          }))
          (omega arith))
  | inr p ↦ rw p (
      get-register_known l eui t info _ (register-IsSorted s devices h) last small
        (get-register_other s eui devices h p ∙ g))
]

get-register_unknown :
    (l : List Sighting) (eui : DevEui) (devices : DeviceRegistry)
    → Assoc.IsSorted devices
    → get eui devices ≡ none
    → get eui (register_all l devices) ≡ summary (filter (is_same eui) l)
unfolding register_all summary first
get-register_unknown [] eui devices h g = g
get-register_unknown (s ∷ l) eui devices h g = elim (Bool-cases (is_same eui s)) [
  | inl p ↦ rw p (
      get-register_known l eui s.now (first s.now s.eui s.name s.app_id) _
        (register-IsSorted s devices h) refl (omega arith)
        (get-register_same s eui devices p ∙ ap (λ o. some (seen s.now s.eui s.name s.app_id o)) g)
      ∙ ap
          (λ n. some (record (first s.now s.eui s.name s.app_id) {
            device_name = last_name s.name (filter (is_same eui) l);
            last_seen = some (last_time s.now (filter (is_same eui) l));
            frame_count = n;
          }))
          (omega arith))
  | inr p ↦ rw p (
      get-register_unknown l eui _ (register-IsSorted s devices h)
        (get-register_other s eui devices h p ∙ g))
]

-- After any calls on an empty registry, a device has an entry just if a call was for it, by its
-- normalized EUI; the entry has the EUI and the application of the first such call and its time as the
-- first, the time of the last one, the last name that one gave, and their number, modulo 2^64.
pub get-register_all :
    (l : List Sighting) (eui : DevEui)
    → get eui (register_all l []) ≡ summary (filter (is_same eui) l)
get-register_all l eui = get-register_unknown l eui [] tt (unfold get in unfold Assoc.get in refl)
