-- ===== src/Engine/SsTable/RoundTrip.antt =====
-- The bytes of `finish` of src/engine/sstable.rs, and what `open` reads from them.
use mathlib.Core.List.{append_assoc}
use lo_ra_db.Prelude.{
  ℕ, ◌+◌, ◌-◌, ◌^◌, ◌<◌, ◌≡◌, refl, sym, ◌∙◌, ap, none, some, List, [], ◌∷◌, ◌++◌, length, drop,
  All, arith, ok, length-append, drop-append,
}
use lo_ra_db.Prelude.Int.{ℤ}
use lo_ra_db.Engine.Codec.{Formats, FormatLaws}
use lo_ra_db.Engine.Bytes.{
  Bytes, to_le_bytes, of_i64, to_i64, length-to_le_bytes, read_word, read-append, read_word-append,
}
use lo_ra_db.Engine.Bloom.{BloomFilter}
use lo_ra_db.Engine.Memtable.Keys.{MemtableKey, InI64}
use lo_ra_db.Engine.SsTable.{sstable_magic, sstable_version, IndexEntry}
use lo_ra_db.Engine.SsTable.Writer.{key_bytes, index_bytes, header_bytes}
use lo_ra_db.Engine.SsTable.Reader.{read_key, read_index, read_footer, open_sstable}
use lo_ra_db.Engine.SsTable.Written.{IndexFits}

module _ (x : Formats) (law : FormatLaws x) where
  pub key_bytes-read_key :
      (k : MemtableKey) (d : Bytes)
      → x.serialize_key k ≡ some d
      → length d < 2 ^ 32
      → (b : Bytes) × (key_bytes x k ≡ ok b)
        × ((rest : Bytes) → read_key x (b ++ rest) ≡ ok (k, rest))
  unfolding key_bytes read_key
  key_bytes-read_key k d e short = (
    to_le_bytes 4 (length d) ++ d,
    rw e refl,
    λ rest.
        rw
          (
            append_assoc (to_le_bytes 4 (length d)) d rest,
            read_word-append 4 (length d) (d ++ rest) (omega arith),
            read-append (length d) d rest refl,
            law.key_round_trip k d e,
          )
          refl,
  )

  pub index_bytes-read_index :
      (entries : List IndexEntry)
      → All (IndexFits x law) entries
      → All (λ e. e.offset < 2 ^ 64) entries
      → (b : Bytes) × (index_bytes x entries ≡ ok b)
        × ((rest : Bytes) → read_index x (length entries) (b ++ rest) ≡ ok (entries, rest))
  unfolding index_bytes read_index
  index_bytes-read_index [] fits low = ([], refl, λ rest. refl)
  index_bytes-read_index (e ∷ entries) fits low =
      let (kb, kw, kr) =
        key_bytes-read_key e.key fits.0.key_data fits.0.key_serializes fits.0.key_short in
      let (ib, iw, ir) = index_bytes-read_index entries fits.1 low.1 in
      (
        kb ++ (to_le_bytes 8 e.offset ++ (to_le_bytes 4 e.size ++ ib)),
        rw (kw, iw) refl,
        λ rest. simp append_assoc (
            rw
              (
                kr (to_le_bytes 8 e.offset ++ (to_le_bytes 4 e.size ++ (ib ++ rest))),
                read_word-append 8 e.offset (to_le_bytes 4 e.size ++ (ib ++ rest))
                    (omega (arith, low.0)),
                read_word-append 4 e.size (ib ++ rest) (omega (arith, fits.0.size_word)),
                ir rest,
              )
              refl),
      )

  word_of_i64 : (t : ℤ) → InI64 t → of_i64 t < 2 ^ 64
  word_of_i64 t h = ground arith

  to_i64-of_i64 : (t : ℤ) → InI64 t → to_i64 (of_i64 t) ≡ t
  to_i64-of_i64 t h = ground arith

  -- The last 16 bytes of a file.
  pub read_footer-footer :
      (front : Bytes) (now : ℤ) (offset : ℕ)
      → InI64 now
      → offset < 2 ^ 64
      → read_footer x (front ++ (to_le_bytes 8 (of_i64 now) ++ to_le_bytes 8 offset))
        ≡ ok (now, offset)
  unfolding read_footer
  read_footer-footer front now offset i low =
      let t8 = to_le_bytes 8 (of_i64 now) in
      let o8 = to_le_bytes 8 offset in
      let size : length (front ++ (t8 ++ o8)) ≡ length front + 16 = omega (
        arith,
        length-append front (t8 ++ o8),
        length-append t8 o8,
        length-to_le_bytes 8 (of_i64 now),
        length-to_le_bytes 8 offset,
      ) in
      let here : drop (length (front ++ (t8 ++ o8)) - 16) (front ++ (t8 ++ o8)) ≡ t8 ++ o8 =
        ap (λ n. drop n (front ++ (t8 ++ o8))) (omega (arith, size))
        ∙ drop-append front (t8 ++ o8) in
      let word = word_of_i64 now i in
      let last : read_word 8 o8 ≡ ok (offset, []) =
        ap (read_word 8) (sym (mathlib.Core.List.append-nil o8))
        ∙ read_word-append 8 offset [] (omega arith) in
      ground (
        arith,
        size,
        here,
        read_word-append 8 (of_i64 now) o8 (omega (arith, word)),
        last,
        to_i64-of_i64 now i,
      )

  pub length-header_bytes :
      (id n : ℕ) (bloom : Bytes) → length (header_bytes x id n bloom) ≡ 26 + length bloom
  unfolding header_bytes
  length-header_bytes id n bloom = omega (
    arith,
    length-append (to_le_bytes 4 sstable_magic) (
        to_le_bytes 2 sstable_version
        ++ (to_le_bytes 8 id ++ (to_le_bytes 8 n ++ (to_le_bytes 4 (length bloom) ++ bloom)))),
    length-append (to_le_bytes 2 sstable_version)
        (to_le_bytes 8 id ++ (to_le_bytes 8 n ++ (to_le_bytes 4 (length bloom) ++ bloom))),
    length-append (to_le_bytes 8 id) (to_le_bytes 8 n ++ (to_le_bytes 4 (length bloom) ++ bloom)),
    length-append (to_le_bytes 8 n) (to_le_bytes 4 (length bloom) ++ bloom),
    length-append (to_le_bytes 4 (length bloom)) bloom,
    length-to_le_bytes 4 sstable_magic,
    length-to_le_bytes 2 sstable_version,
    length-to_le_bytes 8 id,
    length-to_le_bytes 8 n,
    length-to_le_bytes 4 (length bloom),
  )

  -- A file whose header is in place is opened as its parts say.
  pub open_sstable-parts :
      (file : Bytes) (id n : ℕ) (bloom_data behind : Bytes) (bloom : BloomFilter) (now : ℤ)
      (offset : ℕ) (entries : List IndexEntry) (index min_data max_data last : Bytes)
      (min_key max_key : MemtableKey)
      → file ≡ header_bytes x id n bloom_data ++ behind
      → id < 2 ^ 64
      → n < 2 ^ 64
      → length bloom_data < 2 ^ 32
      → x.deserialize_bloom bloom_data ≡ some bloom
      → read_footer x file ≡ ok (now, offset)
      → drop offset file
        ≡ to_le_bytes 4 (length entries) ++ (index ++ (min_data ++ (max_data ++ last)))
      → length entries < 2 ^ 32
      → ((rest : Bytes) → read_index x (length entries) (index ++ rest) ≡ ok (entries, rest))
      → ((rest : Bytes) → read_key x (min_data ++ rest) ≡ ok (min_key, rest))
      → ((rest : Bytes) → read_key x (max_data ++ rest) ≡ ok (max_key, rest))
      → open_sstable x file
        ≡ ok (record {
          id = id;
          metadata = record {
            id = id;
            created_at = now;
            num_entries = n;
            min_key = min_key;
            max_key = max_key;
            bloom_filter = bloom;
            data_size_bytes = 0;
            compressed_size_bytes = 0;
            application_ids = [];
          };
          index = entries;
          app_ids_cache = none;
        })
  unfolding open_sstable header_bytes
  open_sstable-parts file id n bloom_data behind bloom now offset entries index min_data max_data
        last min_key max_key e i c s d f o k ri r1 r2 =
      let p4 = to_le_bytes 4 (length bloom_data) ++ (bloom_data ++ behind) in
      let p3 = to_le_bytes 8 n ++ p4 in
      let p2 = to_le_bytes 8 id ++ p3 in
      let p1 = to_le_bytes 2 sstable_version ++ p2 in
      let parts : file ≡ to_le_bytes 4 sstable_magic ++ p1 = e ∙ simp append_assoc in
      let w0 : read_word 4 file ≡ ok (sstable_magic, p1) =
        ap (read_word 4) parts ∙ read_word-append 4 sstable_magic p1 (omega arith) in
      rw
        (
          w0,
          read_word-append 2 sstable_version p2 (omega arith),
          read_word-append 8 id p3 (omega arith),
          read_word-append 8 n p4 (omega arith),
          read_word-append 4 (length bloom_data) (bloom_data ++ behind) (omega arith),
          read-append (length bloom_data) bloom_data behind refl,
          d,
          f,
          o,
          read_word-append 4 (length entries) (index ++ (min_data ++ (max_data ++ last)))
              (omega arith),
          ri (min_data ++ (max_data ++ last)),
          r1 (max_data ++ last),
          r2 last,
        )
        refl
