-- ===== src/Storage/Write.antt =====
-- `write` of src/storage/mod.rs: what a query returns behind it.
use mathlib.Core.List.{Perm}
use mathlib.Core.List.Perm
use lo_ra_db.Prelude.{
  ◌+◌, ◌^◌, ◌<◌, ◌≡◌, ◌⊎◌, refl, ap, ◌∙◌, Bool, false, Option, List, [], ◌∷◌, ◌++◌, filter, ok,
  if◌then◌else◌, Bool-cases, inl, inr,
}
use lo_ra_db.Prelude.Int.{int_ord}
use lo_ra_db.Prelude.Order.{Ordering-cases}
use lo_ra_db.Model.Text.{text_ord}
use lo_ra_db.Model.Lorawan.{DevEui}
use lo_ra_db.Model.Frames.{Frame, DateTime, dev_eui}
use lo_ra_db.Model.Device
use lo_ra_db.Engine.Codec.{Formats}
use lo_ra_db.Engine.Memtable
use lo_ra_db.Engine.Memtable.{Memtable}
use lo_ra_db.Engine.Memtable.Scan.{
  Representable, matches, IsValid, frames, place, cmp_frame, insert-IsValid, frames-insert,
  scan-filter,
}
use lo_ra_db.Engine.Wal
use lo_ra_db.Engine.Wal.{WriteAheadLog}
use lo_ra_db.Storage.{
  StorageEngine, name_of, app_of, write, query, scan_tables, sort_one, sort_by_timestamp,
}
use lo_ra_db.Storage.Query.{Ordered, not_after, sort_by_timestamp-Ordered}

sort_one-perm : (f : Frame) (l : List Frame) → Perm (sort_one f l) (f ∷ l)
unfolding sort_one
sort_one-perm f [] = Perm.rfl
sort_one-perm f (g ∷ l) = elim (Bool-cases (not_after f g)) [
  | inl q ↦ rw (q, sort_one) Perm.rfl
  | inr q ↦ rw (q, sort_one) (Perm.trans (Perm.cons g (sort_one-perm f l)) (Perm.swap f g l))
]

-- The sort by time keeps the frames.
pub sort_by_timestamp-perm : (l : List Frame) → Perm (sort_by_timestamp l) l
unfolding sort_by_timestamp
sort_by_timestamp-perm [] = Perm.rfl
sort_by_timestamp-perm (f ∷ l) =
    Perm.trans (sort_one-perm f (sort_by_timestamp l)) (Perm.cons f (sort_by_timestamp-perm l))

abbrev pub with_matching : (Frame → Bool) → Frame → List Frame → List Frame
with_matching p f l = if p f then f ∷ l else l

with_matching-cons :
    (p : Frame → Bool) (f g : Frame) (l : List Frame)
    → Perm (g ∷ with_matching p f l) (with_matching p f (g ∷ l))
with_matching-cons p f g l = elim (Bool-cases (p f)) [
  | inl q ↦ rw q (Perm.swap f g l)
  | inr q ↦ rw q Perm.rfl
]

with_matching-cong :
    (p : Frame → Bool) (f : Frame) {k l : List Frame}
    → Perm k l
    → Perm (with_matching p f k) (with_matching p f l)
with_matching-cong p f h = elim (Bool-cases (p f)) [ inl q ↦ rw q (Perm.cons f h) | inr q ↦ rw q h ]

with_matching-append :
    (p : Frame → Bool) (f : Frame) (k l : List Frame)
    → with_matching p f k ++ l ≡ with_matching p f (k ++ l)
with_matching-append p f k l = elim (Bool-cases (p f)) [ inl q ↦ rw q refl | inr q ↦ rw q refl ]

place-cases :
    (f g : Frame) (l : List Frame)
    → (place f (g ∷ l) ≡ f ∷ g ∷ l) ⊎ (place f (g ∷ l) ≡ g ∷ place f l)
unfolding place
place-cases f g l = elim (Ordering-cases (cmp_frame f g)) [
  | inl q ↦ inl (rw (q, place) refl)
  | inr (inl q) ↦ inr (rw (q, place) refl)
  | inr (inr q) ↦ inr (rw (q, place) refl)
]

-- The new frame of a memtable is in a scan where it matches, and the other frames stay.
filter-place :
    (p : Frame → Bool) (f : Frame) (l : List Frame)
    → Perm (filter p (place f l)) (with_matching p f (filter p l))
unfolding place
filter-place p f [] = Perm.rfl
filter-place p f (g ∷ l) = elim (place-cases f g l) [
  | inl e ↦ rw e Perm.rfl
  | inr e ↦ rw e (elim (Bool-cases (p g)) [
    | inl q ↦
        rw q (Perm.trans (Perm.cons g (filter-place p f l)) (with_matching-cons p f g (filter p l)))
    | inr q ↦ rw q (filter-place p f l)
  ])
]

module _ (x : Formats) where
  scan-insert :
      (m : Memtable) (f : Frame) (eui : DevEui) (s z : Option DateTime)
      → IsValid m
      → Representable f
      → m.sequence + 1 < 2 ^ 64
      → Perm
          (Memtable.scan_device_range (Memtable.insert x.bincode m f) eui s z)
          (with_matching (matches eui s z) f (Memtable.scan_device_range m eui s z))
  scan-insert m f eui s z v r room =
      rw
        (
          scan-filter (Memtable.insert x.bincode m f) eui s z
              (insert-IsValid x.bincode m f v r room),
          frames-insert x.bincode m f v,
          scan-filter m eui s z v,
        )
        (filter-place (matches eui s z) f (frames m))

  sorted-perm :
      (p : Frame → Bool) (f : Frame) (old new found : List Frame)
      → Perm new (with_matching p f old)
      → Perm
          (sort_by_timestamp (new ++ found))
          (with_matching p f (sort_by_timestamp (old ++ found)))
  sorted-perm p f old new found h = Perm.trans (sort_by_timestamp-perm (new ++ found)) (
      Perm.trans (Perm.append_right found h) (
        rw (with_matching-append p f old found)
          (with_matching-cong p f (Perm.symm (sort_by_timestamp-perm (old ++ found))))))

  pub query-ok :
      (e : StorageEngine) (eui : DevEui) (s z : Option DateTime) (found : List Frame)
      → scan_tables x e.files e.sstables eui s z ≡ ok found
      → query x e eui s z
        ≡ ok (sort_by_timestamp (Memtable.scan_device_range e.memtable eui s z ++ found))
  unfolding query
  query-ok e eui s z found h = rw h refl

  abbrev written : DateTime → Frame → StorageEngine → WriteAheadLog → StorageEngine
  written now frame e wal = record e {
    device_registry =
        Device.register_or_update now (dev_eui frame) (name_of frame) (app_of frame)
          e.device_registry;
    wal = wal;
    memtable = Memtable.insert x.bincode e.memtable frame;
  }

  write-written :
      (now : DateTime) (frame : Frame) (e : StorageEngine) (wal : WriteAheadLog)
      → Wal.append x.bincode x.crc32 e.wal frame ≡ ok wal
      → Memtable.should_flush (Memtable.insert x.bincode e.memtable frame) e.memtable_size_mb
        ≡ false
      → write x now frame e ≡ (ok tt, written now frame e wal)
  unfolding write
  write-written now frame e wal good room = rw (good, write, room) refl

  -- Behind a write whose frame the log takes and which does not fill the memtable, a query that
  -- succeeds returns, in the order of the times, what it returned before, and the frame, where it is of
  -- the device and in the window, where the memtable is valid, has a sequence number left, and the
  -- microsecond of the frame fits an `i64`.
  pub query-write :
      (now : DateTime) (frame : Frame) (e : StorageEngine) (wal : WriteAheadLog) (eui : DevEui)
      (start_time end_time : Option DateTime) (found : List Frame)
      → IsValid e.memtable
      → Representable frame
      → e.memtable.sequence + 1 < 2 ^ 64
      → Wal.append x.bincode x.crc32 e.wal frame ≡ ok wal
      → Memtable.should_flush (Memtable.insert x.bincode e.memtable frame) e.memtable_size_mb
        ≡ false
      → scan_tables x e.files e.sstables eui start_time end_time ≡ ok found
      → (before after : List Frame) × (query x e eui start_time end_time ≡ ok before)
        × ((write x now frame e).0 ≡ ok tt)
        × (query x (write x now frame e).1 eui start_time end_time ≡ ok after)
        × Ordered after
        × Perm after (with_matching (matches eui start_time end_time) frame before)
  query-write now frame e wal eui s z found v r room good low h =
      let m = Memtable.insert x.bincode e.memtable frame in
      let new = Memtable.scan_device_range m eui s z in
      let old = Memtable.scan_device_range e.memtable eui s z in
      let done = write-written now frame e wal good low in
      (
        sort_by_timestamp (old ++ found),
        sort_by_timestamp (new ++ found),
        query-ok e eui s z found h,
        ap (λ r. r.0) done,
        ap (λ r. query x r.1 eui s z) done ∙ query-ok (written now frame e wal) eui s z found h,
        sort_by_timestamp-Ordered (new ++ found),
        sorted-perm (matches eui s z) frame old new found
            (scan-insert e.memtable frame eui s z v r room),
      )
