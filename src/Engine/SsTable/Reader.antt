-- ===== src/Engine/SsTable/Reader.antt =====
-- `SSTableReader` of src/engine/sstable.rs. The source reads the file again at each operation; here
-- its bytes are an argument.
use lo_ra_db.Prelude.{
  ℕ, zero, suc, ◌-◌, Bool, not, ◌&&◌, Option, none, some, List, [], ◌∷◌, length, drop, leb, ◌==◌,
  if◌then◌else◌, Result, ok, err, false, ◌>>=◌,
}
use lo_ra_db.Prelude.Int.{ℤ}
use lo_ra_db.Prelude.Order.{le}
use lo_ra_db.Model.Text.{Text, text_ord}
use lo_ra_db.Model.Lorawan.{LoraDbError, DevEui, normalized}
use lo_ra_db.Model.Frames.{Frame, DateTime}
use lo_ra_db.Engine.Codec.{Formats}
use lo_ra_db.Engine.Bytes.{Bytes, to_i64, read, read_word}
use lo_ra_db.Engine.Bloom
use lo_ra_db.Engine.Bloom.{BloomFilter}
use lo_ra_db.Engine.Memtable.Keys.{MemtableKey, key_ord, range_start, range_end}
use lo_ra_db.Engine.SsTable.{
  sstable_magic, sstable_version, IndexEntry, AppIds, SsTableReader, or_bincode, or_io, check, ◌>>◌,
  same_device, add_app_id,
}

module _ (x : Formats) where
  unfoldable pub read_key : Bytes → Result LoraDbError (MemtableKey × Bytes)
  read_key bytes = do
    (key_size, r) ← read_word 4 bytes
    (key_data, rest) ← read key_size r
    key ← or_bincode (x.deserialize_key key_data)
    ok (key, rest)

  -- The loop over the entries of the index.
  unfoldable pub read_index : ℕ → Bytes → Result LoraDbError (List IndexEntry × Bytes)
  unfolding read_key
  read_index zero bytes = ok ([], bytes)
  read_index (suc count) bytes = do
    (key, r0) ← read_key bytes
    (offset, r1) ← read_word 8 r0
    (size, r2) ← read_word 4 r1
    (entries, rest) ← read_index count r2
    ok (record { key = key; offset = offset; size = size } ∷ entries, rest)

  -- The last 16 bytes hold the time and the offset of the index.
  unfoldable pub read_footer : Bytes → Result LoraDbError (ℤ × ℕ)
  read_footer file = do
    check (leb 16 (length file)) LoraDbError.io_error
    (created_at, r) ← read_word 8 (drop (length file - 16) file)
    (index_offset, _) ← read_word 8 r
    ok (to_i64 created_at, index_offset)

  -- What is read in front of the time.
  unfoldable pub read_header : Bytes → Result LoraDbError BloomFilter
  read_header file = do
    (magic, r0) ← read_word 4 file
    check (magic == sstable_magic) LoraDbError.storage_error
    (version, r1) ← read_word 2 r0
    check (version == sstable_version) (LoraDbError.incompatible_sstable_version version)
    (id, r2) ← read_word 8 r1
    (num_entries, r3) ← read_word 8 r2
    (bloom_size, r4) ← read_word 4 r3
    (bloom_data, _) ← read bloom_size r4
    or_bincode (x.deserialize_bloom bloom_data)

  -- The `unwrap` of the time: the opening panics where it comes so far and the time is out of range.
  unfoldable pub open_panics : Bytes → Bool
  unfolding read_header read_footer
  open_panics file = elim (read_header file) [
    | err e ↦ false
    | ok bloom_filter ↦ elim (read_footer file) [
      | err e ↦ false
      | ok (created_at, index_offset) ↦ not (x.is_timestamp created_at)
    ]
  ]

  -- What the opening returns where it does not panic.
  unfoldable pub open_sstable : Bytes → Result LoraDbError SsTableReader
  unfolding read_index read_footer
  open_sstable file = do
    (magic, r0) ← read_word 4 file
    check (magic == sstable_magic) LoraDbError.storage_error
    (version, r1) ← read_word 2 r0
    check (version == sstable_version) (LoraDbError.incompatible_sstable_version version)
    (id, r2) ← read_word 8 r1
    (num_entries, r3) ← read_word 8 r2
    (bloom_size, r4) ← read_word 4 r3
    (bloom_data, _) ← read bloom_size r4
    bloom_filter ← or_bincode (x.deserialize_bloom bloom_data)
    (created_at, index_offset) ← read_footer file
    (index_count, r5) ← read_word 4 (drop index_offset file)
    (index, r6) ← read_index index_count r5
    (min_key, r7) ← read_key r6
    (max_key, _) ← read_key r7
    ok (record {
      id = id;
      metadata = record {
        id = id;
        created_at = created_at;
        num_entries = num_entries;
        min_key = min_key;
        max_key = max_key;
        bloom_filter = bloom_filter;
        data_size_bytes = 0;
        compressed_size_bytes = 0;
        application_ids = [];
      };
      index = index;
      app_ids_cache = none;
    })

  unfoldable pub might_contain : SsTableReader → DevEui → Bool
  unfolding Bloom.contains
  might_contain t eui = Bloom.contains x.hash (normalized eui) t.metadata.bloom_filter

  -- The frame behind an index entry.
  unfoldable pub read_frame : Bytes → IndexEntry → Result LoraDbError Frame
  read_frame file entry = do
    (compressed_size, r0) ← read_word 4 (drop entry.offset file)
    (compressed_data, r1) ← read compressed_size r0
    (stored_checksum, _) ← read_word 4 r1
    check (stored_checksum == x.crc32 compressed_data) LoraDbError.storage_error
    decompressed ← or_io (x.decompress compressed_data)
    or_bincode (x.bincode.deserialize decompressed)

  unfoldable pub read_frames : Bytes → List IndexEntry → Result LoraDbError (List Frame)
  unfolding read_frame
  read_frames file [] = ok []
  read_frames file (entry ∷ entries) = do
    frame ← read_frame file entry
    frames ← read_frames file entries
    ok (frame ∷ frames)

  unfoldable pub iter_all : Bytes → SsTableReader → Result LoraDbError (List Frame)
  unfolding read_frames
  iter_all file t = read_frames file t.index

  -- The first entry of each run of entries of one device.
  unfoldable pub first_of_devices : Option Text → List IndexEntry → List IndexEntry
  first_of_devices last_dev_eui [] = []
  first_of_devices last_dev_eui (entry ∷ entries) =
      let rest = first_of_devices (some entry.key.dev_eui) entries in
      let other = first_of_devices last_dev_eui entries in
      if same_device last_dev_eui entry.key.dev_eui then other else entry ∷ rest

  unfoldable pub iter_unique_device_frames : Bytes → SsTableReader → Result LoraDbError (List Frame)
  unfolding read_frames first_of_devices
  iter_unique_device_frames file t = read_frames file (first_of_devices none t.index)

  -- Where `binary_search_by` finds the key, or would insert it, in an ascending index.
  unfoldable pub lower_bound : MemtableKey → List IndexEntry → List IndexEntry
  lower_bound start_key [] = []
  lower_bound start_key (entry ∷ entries) =
      let rest = lower_bound start_key entries in
      if le start_key entry.key then entry ∷ entries else rest

  -- The loop of `scan`, from there to the first key above the end.
  unfoldable pub scan_from :
      Bytes → MemtableKey → MemtableKey → List IndexEntry → Result LoraDbError (List Frame)
  unfolding read_frame
  scan_from file start_key end_key [] = ok []
  scan_from file start_key end_key (entry ∷ entries) =
      let rest = scan_from file start_key end_key entries in
      if not (le entry.key end_key)
      then ok []
      else if le start_key entry.key && le entry.key end_key
      then (do frame ← read_frame file entry; frames ← rest; ok (frame ∷ frames))
      else rest

  unfoldable pub scan :
      Bytes
      → SsTableReader
      → DevEui
      → Option DateTime
      → Option DateTime
      → Result LoraDbError (List Frame)
  unfolding might_contain lower_bound scan_from
  scan file t eui start_time end_time =
      if not (might_contain t eui)
      then ok []
      else let start_key = range_start eui start_time in
        let end_key = range_end eui end_time in
        scan_from file start_key end_key (lower_bound start_key t.index)

  -- The texts of the application ids of the frames.
  unfoldable pub collect_app_ids : List Frame → AppIds → AppIds
  collect_app_ids [] ids = ids
  collect_app_ids (frame ∷ frames) ids = collect_app_ids frames (add_app_id frame ids)

  -- The reader comes back with its cache.
  unfoldable pub application_ids :
      Bytes → SsTableReader → Result LoraDbError (AppIds × SsTableReader)
  unfolding iter_all collect_app_ids
  application_ids file t = elim t.metadata.application_ids [
    | [] ↦ elim t.app_ids_cache [
      | some ids ↦ ok (ids, t)
      | none ↦ do
        frames ← iter_all file t
        let app_ids = collect_app_ids frames []
        ok (app_ids, record t { app_ids_cache = some app_ids })
    ]
    | ◌∷◌ a l ↦ ok (a ∷ l, t)
  ]
