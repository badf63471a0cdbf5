-- ===== src/Engine/SsTable/Reopen.antt =====
-- `finish` and `open` of src/engine/sstable.rs together.
use mathlib.Core.List.{append_assoc}
use lo_ra_db.Prelude.{
  ℕ, suc, ◌^◌, ◌≤◌, ◌<◌, ◌≡◌, refl, sym, ◌∙◌, ap, false, some, List, [], ◌∷◌, ◌++◌, length, map,
  last?, drop, All, All-map, arith, ok, ◌==◌, length-append, drop-append, drop-overwrite,
  drop-append_within,
}
use lo_ra_db.Prelude.Int.{ℤ}
use lo_ra_db.Model.Frames.{Frame}
use lo_ra_db.Engine.Codec.{Formats, FormatLaws}
use lo_ra_db.Engine.Bytes.{Bytes, to_le_bytes, of_i64}
use lo_ra_db.Engine.Memtable.Keys.{MemtableKey, InI64}
use lo_ra_db.Engine.SsTable.{IndexEntry, SsTableMetadata, SsTableWriter, SsTableReader}
use lo_ra_db.Engine.SsTable.Writer.{key_bytes, index_bytes, header_bytes, finish}
use lo_ra_db.Engine.SsTable.Reader.{read_footer, open_sstable}
use lo_ra_db.Engine.SsTable.Stored.{Stored, Stored-overwrite, Stored-append}
use lo_ra_db.Engine.SsTable.Written.{Holds, IndexFits, header_size}
use lo_ra_db.Engine.SsTable.RoundTrip.{
  key_bytes-read_key, index_bytes-read_index, read_footer-footer, length-header_bytes,
  open_sstable-parts,
}

module _ (x : Formats) (law : FormatLaws x) where
  -- The reader of the file has what the writer held.
  pub record Opened (w : SsTableWriter) (slots : List (IndexEntry × Frame)) (file : Bytes)
      (t : SsTableReader) : Type 0 where
    pub id : t.id ≡ w.id
    pub index : t.index ≡ map (λ s. s.0) slots
    pub bloom : t.metadata.bloom_filter ≡ w.bloom_filter
    pub min_key : some t.metadata.min_key ≡ w.min_key
    pub max_key : some t.metadata.max_key ≡ w.max_key
    pub stored : All (λ s. Stored x law (header_size x law w) file s.0 s.1) slots

  offsets_low :
      (from : ℕ) (file : Bytes) (slots : List (IndexEntry × Frame))
      → length file < 2 ^ 64
      → All (λ s. Stored x law from file s.0 s.1) slots
      → All (λ e. e.offset < 2 ^ 64) (map (λ s. s.0) slots)
  offsets_low from file [] h s = tt
  offsets_low from file (e ∷ slots) h s =
      (omega (arith, s.0.within), offsets_low from file slots h s.1)

  All-index :
      (slots : List (IndexEntry × Frame))
      → All (λ s. IndexFits x law s.0) slots
      → All (IndexFits x law) (map (λ s. s.0) slots)
  All-index [] h = tt
  All-index (s ∷ slots) h = (h.0, All-index slots h.1)

  length-index : (slots : List (IndexEntry × Frame)) → length (map (λ s. s.0) slots) ≡ length slots
  length-index [] = refl
  length-index (s ∷ slots) = ap suc (length-index slots)

  -- The keys of the first and the last slot fit.
  last_fits :
      (s : IndexEntry × Frame) (slots : List (IndexEntry × Frame))
      → All (λ s. IndexFits x law s.0) (s ∷ slots)
      → (e : IndexEntry × Frame) × (last? (s ∷ slots) ≡ some e) × IndexFits x law e.0
  last_fits s [] h = (s, refl, h.0)
  last_fits s (s' ∷ slots) h = last_fits s' slots h.1

  finish-parts :
      (w : SsTableWriter) (now : ℤ) (entries : List IndexEntry) (index : Bytes)
      (min_key max_key : MemtableKey) (min_data max_data bloom_data : Bytes)
      → w.index_entries ≡ entries
      → index_bytes x entries ≡ ok index
      → w.min_key ≡ some min_key
      → key_bytes x min_key ≡ ok min_data
      → w.max_key ≡ some max_key
      → key_bytes x max_key ≡ ok max_data
      → x.serialize_bloom w.bloom_filter ≡ some bloom_data
      → 0 < w.num_entries
      → finish x w now
        ≡ ok (
          (let header = header_bytes x w.id w.num_entries bloom_data in
              header
              ++ drop (length header) (
                  w.written
                  ++ (to_le_bytes 4 (length entries)
                      ++ (index
                          ++ (min_data
                              ++ (max_data
                                  ++ (to_le_bytes 8 (of_i64 now)
                                      ++ to_le_bytes 8 (length w.written)))))))),
          record {
            id = w.id;
            created_at = now;
            num_entries = w.num_entries;
            min_key = min_key;
            max_key = max_key;
            bloom_filter = w.bloom_filter;
            data_size_bytes = w.data_size_bytes;
            compressed_size_bytes = w.data_size_bytes;
            application_ids = w.application_ids;
          },
        )
  unfolding finish
  finish-parts w now entries index min_key max_key min_data max_data bloom_data e i a b c d f pos =
      let some_entries : (w.num_entries == 0) ≡ false = ground arith in
      rw (some_entries, a, c, e, i, b, d, f) refl

  -- A writer that holds at least one entry, in a file whose sizes fit their fields, is finished to a
  -- file that opens, and the reader has the writer's index, filter, keys and frames.
  pub open-finish :
      (w : SsTableWriter) (s : IndexEntry × Frame) (slots : List (IndexEntry × Frame)) (now : ℤ)
      → Holds x law w (s ∷ slots)
      → length (s ∷ slots) < 2 ^ 32
      → length w.written < 2 ^ 64
      → w.id < 2 ^ 64
      → InI64 now
      → (file : Bytes) × (meta : SsTableMetadata) × (t : SsTableReader) × (finish x w now
          ≡ ok (file, meta))
        × (open_sstable x file ≡ ok t)
        × Opened w (s ∷ slots) file t
  open-finish w s slots now h few low id_low now_i =
      let all = s ∷ slots in
      let entries = map (λ (s : IndexEntry × Frame). s.0) all in
      let (ib, iw, ir) =
        index_bytes-read_index x law entries (All-index all h.fits)
          (offsets_low (header_size x law w) w.written all low h.stored) in
      let (minb, minw, minr) =
        key_bytes-read_key x law s.0.key h.fits.0.key_data h.fits.0.key_serializes
          h.fits.0.key_short in
      let (z, z_last, z_fits) = last_fits s slots h.fits in
      let (maxb, maxw, maxr) =
        key_bytes-read_key x law z.0.key z_fits.key_data z_fits.key_serializes z_fits.key_short in
      let (bb, bw, bs) = law.bloom_serializes w.bloom_filter h.bloom_bits in
      let offset = length w.written in
      let header = header_bytes x w.id w.num_entries bb in
      let first : w.min_key ≡ some s.0.key = h.first in
      let last : w.max_key ≡ some z.0.key =
        h.last ∙ ap (mathlib.Core.Option.map (λ (s : IndexEntry × Frame). s.0.key)) z_last in
      let footer = to_le_bytes 8 (of_i64 now) ++ to_le_bytes 8 offset in
      let tail = to_le_bytes 4 (length entries) ++ (ib ++ (minb ++ (maxb ++ footer))) in
      let body = w.written ++ tail in
      let file = header ++ drop (length header) body in
      let header_len : length header ≡ header_size x law w = omega (
        arith,
        length-header_bytes x law w.id w.num_entries bb,
        h.header w.bloom_filter bb h.bloom_bits bw,
      ) in
      let fits : length header ≤ offset = omega (arith, header_len, h.room) in
      let front =
        header
        ++ (drop (length header) w.written
            ++ (to_le_bytes 4 (length entries) ++ (ib ++ (minb ++ maxb)))) in
      let whole : file ≡ front ++ footer =
        ap (λ b. header ++ b) (drop-append_within (length header) w.written tail fits)
        ∙ simp append_assoc in
      (
        file,
        _,
        _,
        finish-parts w now entries ib s.0.key z.0.key minb maxb bb h.index iw first minw last maxw
            bw (omega (arith, h.counted)),
        open_sstable-parts x law file w.id w.num_entries bb (drop (length header) body)
            w.bloom_filter now offset entries ib minb maxb footer s.0.key z.0.key refl id_low
            (omega (arith, h.counted)) bs (law.bloom_round_trip w.bloom_filter bb bw)
            (ap (read_footer x) whole ∙ read_footer-footer x law front now offset now_i low)
            (drop-overwrite offset header body fits ∙ drop-append w.written tail)
            (omega (arith, length-index all)) ir minr maxr,
        record {
          id = refl;
          index = refl;
          bloom = refl;
          min_key = sym first;
          max_key = sym last;
          stored =
              All-map
                (λ e st. rw (← header_len) (
                  Stored-overwrite x law header body e.0 e.1
                    (omega (arith, fits, length-append w.written tail))
                    (rw header_len
                      (Stored-append x law (header_size x law w) w.written tail e.0 e.1 st))))
                all h.stored;
        },
      )
