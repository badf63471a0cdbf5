-- ===== src/Engine/Memtable/Keys.antt =====
-- `MemtableKey` of src/engine/memtable.rs: its derived order, and the ends of a device's range.
use lo_ra_db.Prelude.{
  Bool-cases, inl, inr, ℕ, ◌-◌, ◌^◌, ◌<◌, ◌≡◌, refl, Bool, true, false, ◌&&◌, Option, none, some,
  arith, Ordering, compare,
}
use lo_ra_db.Prelude.Int.{ℤ, pos, negsuc, cmp_ℤ, int_ord}
use lo_ra_db.Prelude.Order.{Ord, cmp_list, then_with, reverse, list_ord, nat_ord, le}
use lo_ra_db.Model.Text.{text_ord, Text, eq_text, eq_of_eq_text}
use lo_ra_db.Model.Lorawan.{DevEui, normalized}
use lo_ra_db.Model.Frames.{DateTime, timestamp_micros}

pub record MemtableKey : Type 0 where
  pub dev_eui : Text
  pub timestamp : ℤ
  pub sequence : ℕ

-- The derived order compares the fields in their order.
unfoldable pub cmp_key : MemtableKey → MemtableKey → Ordering
cmp_key a b =
    then_with (cmp_list a.dev_eui b.dev_eui)
      (then_with (cmp_ℤ a.timestamp b.timestamp) (compare a.sequence b.sequence))

unfoldable pub new_key : DevEui → DateTime → ℕ → MemtableKey
new_key dev_eui timestamp sequence = record {
  dev_eui = normalized dev_eui;
  timestamp = timestamp_micros timestamp;
  sequence = sequence;
}

abbrev pub i64_min : ℤ
i64_min = negsuc (2 ^ 63 - 1)

abbrev pub i64_max : ℤ
i64_max = pos (2 ^ 63 - 1)

abbrev pub u64_max : ℕ
u64_max = 2 ^ 64 - 1

unfoldable pub range_start : DevEui → Option DateTime → MemtableKey
range_start dev_eui start_time = record {
  dev_eui = normalized dev_eui;
  timestamp = elim start_time [ none ↦ i64_min | some t ↦ timestamp_micros t ];
  sequence = 0;
}

unfoldable pub range_end : DevEui → Option DateTime → MemtableKey
range_end dev_eui end_time = record {
  dev_eui = normalized dev_eui;
  timestamp = elim end_time [ none ↦ i64_max | some t ↦ timestamp_micros t ];
  sequence = u64_max;
}

pub cmp_key_refl : (a : MemtableKey) → cmp_key a a ≡ Ordering.eq
unfolding cmp_key
cmp_key_refl a =
    ground (
      arith,
      text_ord.cmp_refl a.dev_eui,
      int_ord.cmp_refl a.timestamp,
      nat_ord.cmp_refl a.sequence,
    )

pub eq_of_cmp_key : (a b : MemtableKey) → cmp_key a b ≡ Ordering.eq → a ≡ b
unfolding cmp_key
eq_of_cmp_key a b h =
    ground
      (arith, text_ord.eq_of_cmp a.dev_eui b.dev_eui, int_ord.eq_of_cmp a.timestamp b.timestamp)

pub cmp_key-reverse : (a b : MemtableKey) → cmp_key b a ≡ reverse (cmp_key a b)
unfolding cmp_key
cmp_key-reverse a b =
    ground
      (arith, text_ord.cmp-reverse a.dev_eui b.dev_eui, int_ord.cmp-reverse a.timestamp b.timestamp)

pub cmp_key_trans :
    (a b c : MemtableKey)
    → cmp_key a b ≡ Ordering.lt
    → cmp_key b c ≡ Ordering.lt
    → cmp_key a c ≡ Ordering.lt
unfolding cmp_key
cmp_key_trans a b c p q = ground (
  arith,
  text_ord.eq_of_cmp a.dev_eui b.dev_eui,
  text_ord.eq_of_cmp b.dev_eui c.dev_eui,
  text_ord.cmp_refl a.dev_eui,
  text_ord.cmp_trans a.dev_eui b.dev_eui c.dev_eui,
  int_ord.eq_of_cmp a.timestamp b.timestamp,
  int_ord.eq_of_cmp b.timestamp c.timestamp,
  int_ord.cmp_refl a.timestamp,
  int_ord.cmp_trans a.timestamp b.timestamp c.timestamp,
)

instance abbrev pub key_ord : Ord MemtableKey
key_ord = record {
  cmp = cmp_key;
  cmp_refl = cmp_key_refl;
  eq_of_cmp = eq_of_cmp_key;
  cmp-reverse = cmp_key-reverse;
  cmp_trans = cmp_key_trans;
}

-- The values of an `i64`.
abbrev pub InI64 : ℤ → Type 0
InI64 (pos n) = n < 2 ^ 63
InI64 (negsuc n) = n < 2 ^ 63

-- A time is in a window whose ends may be open, and both ends of which belong to it.
abbrev pub after : Option DateTime → ℤ → Bool
after none t = true
after (some s) t = le (timestamp_micros s) t

abbrev pub before : Option DateTime → ℤ → Bool
before none t = true
before (some e) t = le t (timestamp_micros e)

unfoldable pub in_window : DevEui → Option DateTime → Option DateTime → Text → ℤ → Bool
in_window eui start_time end_time device t =
    eq_text (normalized eui) device && after start_time t && before end_time t

start_test :
    (eui : DevEui) (s : Option DateTime) (k : MemtableKey)
    → InI64 k.timestamp
    → normalized eui ≡ k.dev_eui
    → le (range_start eui s) k ≡ after s k.timestamp
unfolding range_start cmp_key
start_test eui none k h e = ground (arith, text_ord.cmp_refl k.dev_eui)
start_test eui (some s) k h e = ground (arith, text_ord.cmp_refl k.dev_eui)

end_test :
    (eui : DevEui) (s : Option DateTime) (k : MemtableKey)
    → InI64 k.timestamp
    → k.sequence < 2 ^ 64
    → normalized eui ≡ k.dev_eui
    → le k (range_end eui s) ≡ before s k.timestamp
unfolding range_end cmp_key
end_test eui none k h q e = ground (arith, text_ord.cmp_refl k.dev_eui)
end_test eui (some s) k h q e = ground (arith, text_ord.cmp_refl k.dev_eui)

outside :
    (eui : DevEui) (s e : Option DateTime) (k : MemtableKey)
    → eq_text (normalized eui) k.dev_eui ≡ false
    → (le (range_start eui s) k && le k (range_end eui e)) ≡ false
unfolding range_start range_end cmp_key eq_text
outside eui s e k h = ground (arith, text_ord.cmp-reverse (normalized eui) k.dev_eui)

-- The keys between the two ends are those of the device with a time in the window.
pub range_test :
    (eui : DevEui) (s e : Option DateTime) (k : MemtableKey)
    → InI64 k.timestamp
    → k.sequence < 2 ^ 64
    → (le (range_start eui s) k && le k (range_end eui e)) ≡ in_window eui s e k.dev_eui k.timestamp
unfolding in_window
range_test eui s e k h q = elim (Bool-cases (eq_text (normalized eui) k.dev_eui)) [
  | inl p ↦
      let same = eq_of_eq_text (normalized eui) k.dev_eui p in
      rw (start_test eui s k h same, end_test eui e k h q same, p) refl
  | inr p ↦ rw (outside eui s e k p, p)
]

pub in_window-device :
    (eui : DevEui) (s e : Option DateTime) (d : Text) (t : ℤ)
    → in_window eui s e d t ≡ true
    → normalized eui ≡ d
unfolding in_window
in_window-device eui s e d t h = eq_of_eq_text (normalized eui) d (ground arith)
