-- ===== src/Engine/SsTable/Table.antt =====
-- A table of src/engine/sstable.rs from `new` to the reads of the reopened file.
use Prim.{absurd}
use lo_ra_db.Prelude.{
  ℕ, suc, ◌≡◌, refl, ◌∙◌, ap, Option, List, [], ◌∷◌, map, length, filter, All, All-map, arith, ok,
  ◌<◌, ◌^◌,
}
use lo_ra_db.Prelude.Int.{ℤ}
use lo_ra_db.Prelude.Assoc
use lo_ra_db.Model.Lorawan.{DevEui}
use lo_ra_db.Model.Frames.{Frame, DateTime}
use lo_ra_db.Engine.Codec.{Formats, FormatLaws}
use lo_ra_db.Engine.Bytes.{Bytes}
use lo_ra_db.Engine.Bloom
use lo_ra_db.Engine.Memtable.Keys.{
  MemtableKey, key_ord, InI64, in_window, range_test, range_start, range_end,
}
use lo_ra_db.Engine.SsTable.{IndexEntry, SsTableMetadata, SsTableWriter, SsTableReader}
use lo_ra_db.Engine.SsTable.Writer.{new, add_all, finish}
use lo_ra_db.Engine.SsTable.Reader.{open_sstable, iter_all, read_frames, scan}
use lo_ra_db.Engine.SsTable.Stored.{read_frames-Stored}
use lo_ra_db.Engine.SsTable.Written.{
  content, header_size, Follows, Holds, Writable, new-Holds, add_all-Holds,
}
use lo_ra_db.Engine.SsTable.Reopen.{open-finish}
use lo_ra_db.Engine.SsTable.Scan.{KeysFit, scan-range}

-- The fields of the key are in the range of their types.
abbrev pub KeyFits : MemtableKey × Frame → Type 0
KeyFits e = InI64 e.0.timestamp × (e.0.sequence < 2 ^ 64)

-- The entries of the device with a time in the window.
abbrev pub in_range :
    DevEui
    → Option DateTime
    → Option DateTime
    → List (MemtableKey × Frame)
    → List (MemtableKey × Frame)
in_range eui start_time end_time =
    filter (λ e. in_window eui start_time end_time e.0.dev_eui e.0.timestamp)

pub range-in_range :
    (eui : DevEui) (s e : Option DateTime) (l : List (MemtableKey × Frame))
    → All KeyFits l
    → Assoc.range (range_start eui s) (range_end eui e) l ≡ in_range eui s e l
range-in_range eui s e [] h = refl
range-in_range eui s e ((k, f) ∷ l) h =
    rw (range_test eui s e k h.0.0 h.0.1, range-in_range eui s e l h.1) refl

no_entry {ℓ} : {A : Type ℓ} → 0 < 0 → A
no_entry h = absurd (omega (arith, h))

module _ (x : Formats) (law : FormatLaws x) where
  content-KeysFit :
      (slots : List (IndexEntry × Frame)) → All KeyFits (content x law slots) → KeysFit x law slots
  content-KeysFit [] h = tt
  content-KeysFit (s ∷ slots) h = (h.0, content-KeysFit slots h.1)

  length-content : (slots : List (IndexEntry × Frame)) → length (content x law slots) ≡ length slots
  length-content [] = refl
  length-content (s ∷ slots) = ap suc (length-content slots)

  frames_of_content :
      (slots : List (IndexEntry × Frame))
      → map (λ s. s.1) slots ≡ map (λ e. e.1) (content x law slots)
  frames_of_content [] = refl
  frames_of_content (s ∷ slots) = ap (λ l. s.1 ∷ l) (frames_of_content slots)

  -- The file of the writer opens, and reads back the entries.
  pub record Reads (w : SsTableWriter) (now : ℤ) (entries : List (MemtableKey × Frame))
      : Type 0 where
    pub file : Bytes
    pub metadata : SsTableMetadata
    pub reader : SsTableReader
    pub finishes : finish x w now ≡ ok (file, metadata)
    pub opens : open_sstable x file ≡ ok reader
    pub same_id : reader.id ≡ w.id
    pub all_frames : iter_all x file reader ≡ ok (map (λ e. e.1) entries)
    pub scans :
        (eui : DevEui) (start_time end_time : Option DateTime)
        → scan x file reader eui start_time end_time
          ≡ ok (map (λ e. e.1) (in_range eui start_time end_time entries))

  Holds-Reads :
      (w : SsTableWriter) (slots : List (IndexEntry × Frame)) (now : ℤ)
      → Holds x law w slots
      → 0 < length (content x law slots)
      → length (content x law slots) < 2 ^ 32
      → length w.written < 2 ^ 64
      → w.id < 2 ^ 64
      → InI64 now
      → Assoc.IsSorted (content x law slots)
      → All KeyFits (content x law slots)
      → Reads w now (content x law slots)
  unfolding iter_all
  Holds-Reads w [] now h some_entries few low id_low i s k = no_entry some_entries
  Holds-Reads w (s0 ∷ slots) now h some_entries few low id_low i s k =
      let all = s0 ∷ slots in
      let (file, meta, t, finishes, opens, o) =
        open-finish x law w s0 slots now h (omega (arith, few, length-content all)) low id_low i in
      record {
        file = file;
        metadata = meta;
        reader = t;
        finishes = finishes;
        opens = opens;
        same_id = o.id;
        all_frames =
            ap (read_frames x file) o.index
            ∙ read_frames-Stored x law (header_size x law w) file all o.stored
            ∙ ap ok (frames_of_content all);
        scans = λ eui start_time end_time.
            scan-range x law (header_size x law w) file t all eui start_time end_time o.index
              o.stored s
              (All-map (λ e m. ap (Bloom.contains x.hash e.0.key.dev_eui) o.bloom ∙ m) all h.member)
              (content-KeysFit all k)
            ∙ ap (λ l. ok (map (λ e. e.1) l))
                (range-in_range eui start_time end_time (content x law all) k);
      }

  -- Entries that are not empty, fewer than 2^31, ascend by key, fit the formats and the fields of the
  -- file, and whose frames read back as they were serialised, are all taken by a new writer, and the
  -- writer is finished to a file that opens to a reader with the writer's id, whose `iter_all` gives the
  -- frames in the order of the keys, and whose `scan` gives those of the device in the window of times.
  pub reads-add_all :
      (id : ℕ) (now : ℤ) (k : MemtableKey) (f : Frame) (entries : List (MemtableKey × Frame))
      → Assoc.IsSorted ((k, f) ∷ entries)
      → All (λ e. Writable x law e.0 e.1) ((k, f) ∷ entries)
      → All KeyFits ((k, f) ∷ entries)
      → length ((k, f) ∷ entries) < 2 ^ 31
      → id < 2 ^ 64
      → InI64 now
      → (w w' : SsTableWriter) × (new x id ≡ ok w)
        × (add_all x w ((k, f) ∷ entries) ≡ ok w')
        × Reads w' now ((k, f) ∷ entries)
        × (w'.id ≡ id)
  reads-add_all id now k f entries s t fit few id_low i =
      let (w0, made0, holds0, fresh, id0, short0) = new-Holds x law id in
      let all = (k, f) ∷ entries in
      let start : Follows x law w0.max_key all = rw fresh tt in
      let (w1, slots, added1, holds, same, size, id1, long) =
        add_all-Holds x law all w0 [] holds0 s start t in
      let counted : length (content x law slots) ≡ length all = ap length same in
      let reads : Reads w1 now (content x law slots) =
        Holds-Reads w1 slots now holds (omega (arith, counted)) (omega (arith, counted, few))
          (omega (arith, short0, long, few)) (omega (arith, id_low, id1, id0)) i (rw same s)
          (rw same fit) in
      (w0, w1, made0, added1, rw (← same) reads, id1 ∙ id0)
