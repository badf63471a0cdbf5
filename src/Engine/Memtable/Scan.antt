-- ===== src/Engine/Memtable/Scan.antt =====
-- The memtable as the stable sort of the frames that were inserted, by device and microsecond.
use lo_ra_db.Prelude.{
  ℕ, ◌+◌, ◌%◌, ◌^◌, ◌≤◌, ◌<◌, ◌≡◌, refl, ◌∙◌, Bool, ◌&&◌, Option, List, [], ◌∷◌, map, length,
  filter, All, All-map, arith, Ordering,
}
use lo_ra_db.Prelude.Int.{ℤ, cmp_ℤ, int_ord}
use lo_ra_db.Prelude.Order.{cmp_list, then_with, le, nat_ord}
use lo_ra_db.Prelude.Assoc
use lo_ra_db.Model.Text.{Text, text_ord}
use lo_ra_db.Model.Lorawan.{DevEui, normalized}
use lo_ra_db.Model.Frames.{Frame, DateTime, timestamp_micros, dev_eui, timestamp}
use lo_ra_db.Engine.Bincode.{Bincode}
use lo_ra_db.Engine.Memtable.{Memtable, new, insert, scan_device_range}
use lo_ra_db.Engine.Memtable.Keys.{
  MemtableKey, key_ord, cmp_key, new_key, range_start, range_end, InI64, in_window, range_test,
}

-- What the entries and the lookups are about.
abbrev pub device : Frame → Text
device f = normalized (dev_eui f)

abbrev pub micros : Frame → ℤ
micros f = timestamp_micros (timestamp f)

abbrev pub Representable : Frame → Type 0
Representable f = InI64 (micros f)

-- The frame belongs to the device, and its time to the window.
abbrev pub matches : DevEui → Option DateTime → Option DateTime → Frame → Bool
matches eui s e f = in_window eui s e (device f) (micros f)

pub record IsEntry (next : ℕ) (e : MemtableKey × Frame) : Type 0 where
  pub of_device : e.0.dev_eui ≡ device e.1
  pub at_time : e.0.timestamp ≡ micros e.1
  pub representable : InI64 e.0.timestamp
  pub numbered : e.0.sequence < next

pub record IsValid (m : Memtable) : Type 0 where
  pub sorted : Assoc.IsSorted m.entries
  pub keyed : All (IsEntry m.sequence) m.entries
  pub counted : length m.entries ≤ m.sequence
  pub room : m.sequence < 2 ^ 64

-- The frames in the order of their keys.
unfoldable pub frames : Memtable → List Frame
frames m = map (λ e. e.1) m.entries

-- The order of frames, and the insertion behind all frames that are not greater.
unfoldable pub cmp_frame : Frame → Frame → Ordering
cmp_frame f g = then_with (cmp_list (device f) (device g)) (cmp_ℤ (micros f) (micros g))

unfoldable pub place : Frame → List Frame → List Frame
place f [] = f ∷ []
place f (g ∷ l) = elim (cmp_frame f g) [ Ordering.lt ↦ f ∷ g ∷ l | _ ↦ g ∷ place f l ]

-- The stable sort of a history, the oldest insertion first, on top of sorted frames.
unfoldable pub stable_sort : List Frame → List Frame → List Frame
stable_sort [] sorted = sorted
stable_sort (f ∷ fs) sorted = stable_sort fs (place f sorted)

unfoldable pub insert_all : Bincode → Memtable → List Frame → Memtable
insert_all bincode m [] = m
insert_all bincode m (f ∷ fs) = insert_all bincode (insert bincode m f) fs

IsEntry-suc : {n : ℕ} (e : MemtableKey × Frame) → IsEntry n e → IsEntry (n + 1) e
IsEntry-suc e h = record {
  of_device = h.of_device;
  at_time = h.at_time;
  representable = h.representable;
  numbered = omega (arith, h.numbered);
}

insert-place :
    (f : Frame) (n : ℕ) (l : List (MemtableKey × Frame))
    → All (IsEntry n) l
    → map (λ e. e.1) (Assoc.insert (new_key (dev_eui f) (timestamp f) n) f l)
      ≡ place f (map (λ e. e.1) l)
unfolding Assoc.insert place cmp_frame cmp_key new_key
insert-place f n [] h = refl
insert-place f n ((k, g) ∷ l) h =
    ground (arith, insert-place f n l h.1, h.0.of_device, h.0.at_time, h.0.numbered)

pub new-IsValid : IsValid new
unfolding new
new-IsValid = record { sorted = tt; keyed = tt; counted = omega arith; room = omega arith }

length-insert-le :
    (k : MemtableKey) (f : Frame) (l : List (MemtableKey × Frame))
    → length (Assoc.insert k f l) ≤ length l + 1
unfolding Assoc.insert
length-insert-le k f [] = omega arith
length-insert-le k f ((j, g) ∷ l) = ground (arith, length-insert-le k f l)

module _ (bincode : Bincode) where
  -- `insert` keeps the invariant while sequence numbers are left.
  pub insert-IsValid :
      (m : Memtable) (f : Frame)
      → IsValid m
      → Representable f
      → m.sequence + 1 < 2 ^ 64
      → IsValid (insert bincode m f)
  unfolding insert new_key
  insert-IsValid m f v r room =
      let next : (m.sequence + 1) % 2 ^ 64 ≡ m.sequence + 1 = omega arith in
      record {
        sorted =
            Assoc.insert-IsSorted (new_key (dev_eui f) (timestamp f) m.sequence) f m.entries
              v.sorted;
        keyed = rw next (
            Assoc.All-insert (IsEntry (m.sequence + 1))
              (new_key (dev_eui f) (timestamp f) m.sequence) f m.entries
              (record {
                of_device = refl;
                at_time = refl;
                representable = r;
                numbered = omega arith;
              })
              (All-map IsEntry-suc m.entries v.keyed));
        counted = rw next (
            omega (
              arith,
              v.counted,
              length-insert-le (new_key (dev_eui f) (timestamp f) m.sequence) f m.entries,
            ));
        room = omega arith;
      }

  pub frames-insert :
      (m : Memtable) (f : Frame) → IsValid m → frames (insert bincode m f) ≡ place f (frames m)
  unfolding insert frames
  frames-insert m f v = insert-place f m.sequence m.entries v.keyed

  sequence-insert :
      (m : Memtable) (f : Frame)
      → m.sequence + 1 < 2 ^ 64
      → (insert bincode m f).sequence ≡ m.sequence + 1
  unfolding insert
  sequence-insert m f h = omega arith

  pub insert_all-IsValid :
      (fs : List Frame) (m : Memtable)
      → IsValid m
      → All Representable fs
      → m.sequence + length fs < 2 ^ 64
      → IsValid (insert_all bincode m fs)
        × (frames (insert_all bincode m fs) ≡ stable_sort fs (frames m))
  unfolding insert_all stable_sort
  insert_all-IsValid [] m v r room = (v, refl)
  insert_all-IsValid (f ∷ fs) m v r room = rw (← frames-insert m f v) (
      insert_all-IsValid fs (insert bincode m f) (insert-IsValid m f v r.0 (omega arith)) r.1
        (rw (sequence-insert m f (omega arith)) (omega arith)))

-- The test on an entry's key is the test on its frame.
pub entry_test :
    (eui : DevEui) (s e : Option DateTime) {n : ℕ} (k : MemtableKey) (f : Frame)
    → IsEntry n (k, f)
    → n < 2 ^ 64
    → (le (range_start eui s) k && le k (range_end eui e)) ≡ matches eui s e f
entry_test eui s e k f h room =
    range_test eui s e k h.representable (omega (arith, h.numbered))
    ∙ rw (h.of_device, h.at_time) refl

pub range_entries :
    (eui : DevEui) (s e : Option DateTime) (n : ℕ) (l : List (MemtableKey × Frame))
    → n < 2 ^ 64
    → All (IsEntry n) l
    → map (λ x. x.1) (Assoc.range (range_start eui s) (range_end eui e) l)
      ≡ filter (matches eui s e) (map (λ x. x.1) l)
range_entries eui s e n [] room h = refl
range_entries eui s e n ((k, f) ∷ l) room h =
    ground (arith, entry_test eui s e k f h.0 room, range_entries eui s e n l room h.1)

-- A scan returns the frames of the device in the window, in the order of their keys.
pub scan-filter :
    (m : Memtable) (eui : DevEui) (s e : Option DateTime)
    → IsValid m
    → scan_device_range m eui s e ≡ filter (matches eui s e) (frames m)
unfolding scan_device_range frames
scan-filter m eui s e v = range_entries eui s e m.sequence m.entries v.room v.keyed
