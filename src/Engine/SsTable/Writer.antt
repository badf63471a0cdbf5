-- ===== src/Engine/SsTable/Writer.antt =====
-- `SSTableWriter` of src/engine/sstable.rs.
use lo_ra_db.Prelude.{
  ℕ, ◌+◌, ◌%◌, ◌^◌, not, none, some, List, [], ◌∷◌, ◌++◌, length, drop, replicate, ◌==◌,
  if◌then◌else◌, Result, ok, err, ◌>>=◌, is_none,
}
use lo_ra_db.Prelude.Int.{ℤ}
use lo_ra_db.Model.Text.{text_ord}
use lo_ra_db.Model.Lorawan.{LoraDbError}
use lo_ra_db.Model.Frames.{Frame}
use lo_ra_db.Engine.Codec.{Formats}
use lo_ra_db.Engine.Bytes.{Bytes, to_le_bytes, of_i64}
use lo_ra_db.Engine.Bloom
use lo_ra_db.Engine.Bloom.{BloomFilter}
use lo_ra_db.Engine.Memtable.Keys.{MemtableKey, key_ord}
use lo_ra_db.Engine.SsTable.{
  sstable_magic, sstable_version, IndexEntry, SsTableMetadata, SsTableWriter, or_bincode, or_io,
  check, ◌>>◌, in_order, add_app_id,
}

module _ (x : Formats) where
  unfoldable pub new : ℕ → Result LoraDbError SsTableWriter
  unfolding Bloom.new
  new id = do
    let bloom_filter = Bloom.new x.num_bits x.num_hash_functions
    placeholder_bloom ← or_bincode (x.serialize_bloom bloom_filter)
    ok (record {
      id = id;
      written = replicate (4 + 2 + 8 + 8 + 4 + length placeholder_bloom) 0;
      bloom_header_size = length placeholder_bloom;
      index_entries = [];
      bloom_filter = bloom_filter;
      application_ids = [];
      min_key = none;
      max_key = none;
      num_entries = 0;
      data_size_bytes = 0;
    })

  -- compressed size | compressed frame | checksum. A size written in 4 bytes keeps its low 32 bits.
  unfoldable pub data_bytes : Bytes → Bytes
  data_bytes compressed =
      to_le_bytes 4 (length compressed) ++ (compressed ++ to_le_bytes 4 (x.crc32 compressed))

  -- The file position is the number of bytes written.
  unfoldable pub add : SsTableWriter → MemtableKey → Frame → Result LoraDbError SsTableWriter
  unfolding data_bytes Bloom.insert
  add w key frame = do
    check (in_order w.max_key key) LoraDbError.storage_error
    frame_data ← or_bincode (x.bincode.serialize frame)
    compressed ← or_io (x.compress frame_data)
    let entry_size = (4 + length compressed + 4) % 2 ^ 32
    ok (record w {
      written = w.written ++ data_bytes compressed;
      index_entries =
          w.index_entries
          ++ record { key = key; offset = length w.written; size = entry_size } ∷ [];
      bloom_filter = Bloom.insert x.hash key.dev_eui w.bloom_filter;
      application_ids = add_app_id frame w.application_ids;
      min_key = (if is_none w.min_key then some key else w.min_key);
      max_key = some key;
      num_entries = (w.num_entries + 1) % 2 ^ 64;
      data_size_bytes = (w.data_size_bytes + entry_size) % 2 ^ 64;
    })

  -- size of the key | key
  unfoldable pub key_bytes : MemtableKey → Result LoraDbError Bytes
  key_bytes key = do
    key_data ← or_bincode (x.serialize_key key)
    ok (to_le_bytes 4 (length key_data) ++ key_data)

  -- size of the key | key | offset | size, for each entry
  unfoldable pub index_bytes : List IndexEntry → Result LoraDbError Bytes
  unfolding key_bytes
  index_bytes [] = ok []
  index_bytes (entry ∷ entries) = do
    key ← key_bytes entry.key
    rest ← index_bytes entries
    ok (key ++ (to_le_bytes 8 entry.offset ++ (to_le_bytes 4 entry.size ++ rest)))

  unfoldable pub header_bytes : ℕ → ℕ → Bytes → Bytes
  header_bytes id num_entries bloom_data =
      to_le_bytes 4 sstable_magic
      ++ (to_le_bytes 2 sstable_version
          ++ (to_le_bytes 8 id
              ++ (to_le_bytes 8 num_entries ++ (to_le_bytes 4 (length bloom_data) ++ bloom_data))))

  -- The finished file and its metadata. The header overwrites the bytes at the start. A table with
  -- entries has a least and a greatest key (the source unwraps them).
  unfoldable pub finish : SsTableWriter → ℤ → Result LoraDbError (Bytes × SsTableMetadata)
  unfolding index_bytes header_bytes
  finish w now = do
    check (not (w.num_entries == 0)) LoraDbError.storage_error
    elim w.min_key [
      | none ↦ err LoraDbError.storage_error
      | some min_key ↦ elim w.max_key [
        | none ↦ err LoraDbError.storage_error
        | some max_key ↦ do
          index ← index_bytes w.index_entries
          min_key_data ← key_bytes min_key
          max_key_data ← key_bytes max_key
          bloom_data ← or_bincode (x.serialize_bloom w.bloom_filter)
          let body =
              w.written
              ++ (to_le_bytes 4 (length w.index_entries)
                  ++ (index
                      ++ (min_key_data
                          ++ (max_key_data
                              ++ (to_le_bytes 8 (of_i64 now)
                                  ++ to_le_bytes 8 (length w.written))))))
          let header = header_bytes w.id w.num_entries bloom_data
          ok (
            header ++ drop (length header) body,
            record {
              id = w.id;
              created_at = now;
              num_entries = w.num_entries;
              min_key = min_key;
              max_key = max_key;
              bloom_filter = w.bloom_filter;
              data_size_bytes = w.data_size_bytes;
              compressed_size_bytes = w.data_size_bytes;
              application_ids = w.application_ids;
            },
          )
      ]
    ]

  -- The entries of the loops that fill a table.
  unfoldable pub add_all :
      SsTableWriter → List (MemtableKey × Frame) → Result LoraDbError SsTableWriter
  add_all w [] = ok w
  add_all w ((key, frame) ∷ entries) = add w key frame >>= λ w'. add_all w' entries
