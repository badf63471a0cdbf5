-- ===== src/Storage/Registry.antt =====
-- What the operations of src/storage/mod.rs do to the device registry.
use lo_ra_db.Prelude.{
  ◌≡◌, refl, ◌++◌, [], ◌∷◌, map, length, take, min, Result-cases, Bool-cases, inl, inr,
}
use lo_ra_db.Prelude.Assoc
use lo_ra_db.Model.Text.{text_ord}
use lo_ra_db.Model.Frames.{Frame, DateTime, timestamp_micros, dev_eui}
use lo_ra_db.Model.Device
use lo_ra_db.Model.Device.{DeviceRegistry}
use lo_ra_db.Engine.Codec.{Formats}
use lo_ra_db.Engine.Memtable
use lo_ra_db.Engine.Wal
use lo_ra_db.Engine.Compaction
use lo_ra_db.Engine.Compaction.{should_compact, write_merged, allocate_sstable_id}
use lo_ra_db.Storage.{
  StorageEngine, name_of, app_of, write, flush_memtable, compact, open_path, open_paths,
  sstable_path,
}

module _ (x : Formats) where
  compact-registry :
      (now : DateTime) (e : StorageEngine) → (compact x now e).1.device_registry ≡ e.device_registry
  unfolding compact
  compact-registry now e =
      let batch_size = min e.compaction_threshold (length e.sstables) in
      elim (Result-cases (open_paths x (map (λ t. t.path) (take batch_size e.sstables)) e.files)) [
        | inl (why, shut) ↦ rw (shut, compact) refl
        | inr (old, opened) ↦
            let done = Compaction.compact x (timestamp_micros now) old e.compaction_manager in
            elim (Result-cases done.0) [
              | inl (why, bad) ↦ rw (opened, compact, bad) refl
              | inr (((file, meta), paths), good) ↦
                  elim (Result-cases (
                    open_path x (sstable_path meta.id)
                      (Assoc.insert (sstable_path meta.id) file e.files))) [
                        | inl (why, shut) ↦ rw (opened, compact, good, shut) refl
                        | inr (t, fresh) ↦ rw (opened, compact, good, fresh) refl
                      ]
            ]
      ]

  flush_memtable-registry :
      (now : DateTime) (e : StorageEngine)
      → (flush_memtable x now e).1.device_registry ≡ e.device_registry
  unfolding flush_memtable allocate_sstable_id
  flush_memtable-registry now e =
      let (id, m) = allocate_sstable_id e.compaction_manager in
      elim (Result-cases (write_merged x id (timestamp_micros now) e.memtable.entries)) [
        | inl (why, bad) ↦ rw (bad, flush_memtable) refl
        | inr ((file, meta), good) ↦
            let files = Assoc.insert (sstable_path id) file e.files in
            elim (Result-cases (open_path x (sstable_path id) files)) [
              | inl (why, shut) ↦ rw (good, flush_memtable, shut) refl
              | inr (t, opened) ↦
                  let flushed = record e {
                    compaction_manager = m;
                    files = files;
                    sstables = e.sstables ++ t ∷ [];
                    memtable = Memtable.clear e.memtable;
                    wal = Wal.truncate e.wal;
                  } in
                  elim (Bool-cases (should_compact m (length (e.sstables ++ t ∷ [])))) [
                    | inl many ↦
                        rw (good, flush_memtable, opened, many) (compact-registry now flushed)
                    | inr few ↦ rw (good, flush_memtable, opened, few) refl
                  ]
            ]
      ]

  -- A write registers the device of its frame, whether the frame is then stored or refused, flushed or
  -- not, and does nothing else to the registry.
  pub write-registry :
      (now : DateTime) (frame : Frame) (e : StorageEngine)
      → (write x now frame e).1.device_registry
        ≡ Device.register_or_update now
            (dev_eui frame)
            (name_of frame)
            (app_of frame)
            e.device_registry
  unfolding write
  write-registry now frame e = elim (Result-cases (Wal.append x.bincode x.crc32 e.wal frame)) [
    | inl (why, bad) ↦ rw (bad, write) refl
    | inr (wal, good) ↦
        let devices =
          Device.register_or_update now (dev_eui frame) (name_of frame) (app_of frame)
            e.device_registry in
        let written = record e {
          device_registry = devices;
          wal = wal;
          memtable = Memtable.insert x.bincode e.memtable frame;
        } in
        elim (Bool-cases (Memtable.should_flush written.memtable e.memtable_size_mb)) [
          | inl full ↦ rw (good, write, full) (flush_memtable-registry now written)
          | inr room ↦ rw (good, write, room) refl
        ]
  ]
