-- ===== src/Engine/SsTable/Written.antt =====
-- What a writer has put into its file, as an invariant of `add`.
use mathlib.Core.List.{map-append, append-nil, append_assoc}
use lo_ra_db.Prelude.{
  ℕ, zero, ◌+◌, ◌*◌, ◌%◌, ◌^◌, ◌≤◌, ◌<◌, ◌≡◌, refl, sym, ◌∙◌, ap, true, false, Option, none, some,
  List, [], ◌∷◌, ◌++◌, length, map, last?, replicate, All, All-map, All-append, arith, ok, err,
  ◌>>=◌, length-append, length-replicate, drop-append, last?-snoc, is_none, if◌then◌else◌,
}
use lo_ra_db.Prelude.Order.{gt_of_lt}
use lo_ra_db.Prelude.Assoc
use lo_ra_db.Model.Lorawan.{LoraDbError}
use lo_ra_db.Model.Frames.{Frame}
use lo_ra_db.Engine.Codec.{Formats, FormatLaws}
use lo_ra_db.Engine.Bytes.{Bytes, to_le_bytes, length-to_le_bytes}
use lo_ra_db.Engine.Bloom
use lo_ra_db.Engine.Bloom.{BloomFilter}
use lo_ra_db.Engine.Memtable.Keys.{MemtableKey, key_ord}
use lo_ra_db.Engine.SsTable.{IndexEntry, SsTableWriter, in_order, add_app_id}
use lo_ra_db.Engine.SsTable.Writer.{new, data_bytes, add, add_all}
use lo_ra_db.Engine.SsTable.Stored.{Stored, Stored-append}

module _ (x : Formats) (law : FormatLaws x) where
  -- The formats take the frame and its key, to parts of less than 4 GiB, and the frame reads back.
  pub record Writable (key : MemtableKey) (frame : Frame) : Type 0 where
    pub plain : Bytes
    pub compressed : Bytes
    pub key_data : Bytes
    pub serializes : x.bincode.serialize frame ≡ some plain
    pub compresses : x.compress plain ≡ some compressed
    pub short : length compressed < 2 ^ 32
    pub reads_back : x.bincode.deserialize plain ≡ some frame
    pub key_serializes : x.serialize_key key ≡ some key_data
    pub key_short : length key_data < 2 ^ 32

  -- An index entry whose key and size fit their fields.
  pub record IndexFits (entry : IndexEntry) : Type 0 where
    pub key_data : Bytes
    pub key_serializes : x.serialize_key entry.key ≡ some key_data
    pub key_short : length key_data < 2 ^ 32
    pub size_word : entry.size < 2 ^ 32

  abbrev pub content : List (IndexEntry × Frame) → List (MemtableKey × Frame)
  content = map (λ s. (s.0.key, s.1))

  abbrev pub header_size : SsTableWriter → ℕ
  header_size w = 26 + w.bloom_header_size

  -- The writer was given the entries of the slots, in this order.
  pub record Holds (w : SsTableWriter) (slots : List (IndexEntry × Frame)) : Type 0 where
    pub index : w.index_entries ≡ map (λ s. s.0) slots
    pub stored : All (λ s. Stored x law (header_size w) w.written s.0 s.1) slots
    pub room : header_size w ≤ length w.written
    pub counted : w.num_entries ≡ length slots % 2 ^ 64
    pub bloom_valid : Bloom.IsValid x.hash w.bloom_filter
    pub bloom_bits : length w.bloom_filter.bits ≡ x.num_bits
    pub member : All (λ s. Bloom.contains x.hash s.0.key.dev_eui w.bloom_filter ≡ true) slots
    pub fits : All (λ s. IndexFits s.0) slots
    pub header :
        (b : BloomFilter) (p : Bytes)
        → length b.bits ≡ x.num_bits
        → x.serialize_bloom b ≡ some p
        → length p ≡ w.bloom_header_size
    pub first : w.min_key ≡ mathlib.Core.Option.map (λ s. s.0.key) (mathlib.Core.List.head? slots)
    pub last : w.max_key ≡ mathlib.Core.Option.map (λ s. s.0.key) (last? slots)

  -- The state behind an `add` that succeeds.
  abbrev pub slot : SsTableWriter → MemtableKey → Bytes → IndexEntry
  slot w key compressed = record {
    key = key;
    offset = length w.written;
    size = (4 + length compressed + 4) % 2 ^ 32;
  }

  abbrev pub added : SsTableWriter → MemtableKey → Frame → Bytes → SsTableWriter
  added w key frame compressed = record w {
    written = w.written ++ data_bytes x compressed;
    index_entries = w.index_entries ++ slot w key compressed ∷ [];
    bloom_filter = Bloom.insert x.hash key.dev_eui w.bloom_filter;
    application_ids = add_app_id frame w.application_ids;
    min_key = (if is_none w.min_key then some key else w.min_key);
    max_key = some key;
    num_entries = (w.num_entries + 1) % 2 ^ 64;
    data_size_bytes = (w.data_size_bytes + (4 + length compressed + 4) % 2 ^ 32) % 2 ^ 64;
  }

  pub add-added :
      (w : SsTableWriter) (key : MemtableKey) (frame : Frame) (ok_entry : Writable key frame)
      → in_order w.max_key key ≡ true
      → add x w key frame ≡ ok (added w key frame ok_entry.compressed)
  unfolding add
  add-added w key frame e h = rw (h, e.serializes, e.compresses) refl

  -- A key that is not above the last one is refused.
  pub add_unsorted :
      (w : SsTableWriter) (key : MemtableKey) (frame : Frame)
      → in_order w.max_key key ≡ false
      → add x w key frame ≡ err LoraDbError.storage_error
  unfolding add
  add_unsorted w key frame h = rw h refl

  first_snoc :
      (slots : List (IndexEntry × Frame)) (m : Option MemtableKey) (e : IndexEntry) (f : Frame)
      → m ≡ mathlib.Core.Option.map (λ s. s.0.key) (mathlib.Core.List.head? slots)
      → (if is_none m then some e.key else m)
        ≡ mathlib.Core.Option.map (λ s. s.0.key) (mathlib.Core.List.head? (slots ++ (e, f) ∷ []))
  first_snoc [] m e f h = rw h refl
  first_snoc (s ∷ slots) m e f h = rw h refl

  pub added-Holds :
      (w : SsTableWriter) (slots : List (IndexEntry × Frame)) (key : MemtableKey) (frame : Frame)
      (e : Writable key frame)
      → Holds w slots
      → Holds (added w key frame e.compressed) (slots ++ (slot w key e.compressed, frame) ∷ [])
  added-Holds w slots key frame e h = record {
    index =
        ap (λ l. l ++ slot w key e.compressed ∷ []) h.index
        ∙ sym (
            map-append (λ (s : IndexEntry × Frame). s.0) slots
              ((slot w key e.compressed, frame) ∷ []));
    stored =
        All-append
          (λ s. Stored x law (header_size w) (w.written ++ data_bytes x e.compressed) s.0 s.1) slots
          ((slot w key e.compressed, frame) ∷ [])
          (All-map
            (λ s. Stored-append x law (header_size w) w.written (data_bytes x e.compressed) s.0 s.1)
            slots h.stored)
          (
            record {
              compressed = e.compressed;
              plain = e.plain;
              behind = [];
              here =
                  drop-append w.written (data_bytes x e.compressed)
                  ∙ sym (append-nil (data_bytes x e.compressed));
              not_before = h.room;
              within = omega (arith, length-append w.written (data_bytes x e.compressed));
              short = e.short;
              expands = law.decompress-compress e.plain e.compressed e.compresses;
              decodes = e.reads_back;
            },
            tt,
          );
    room = omega (arith, h.room, length-append w.written (data_bytes x e.compressed));
    counted = omega (arith, h.counted, length-append slots ((slot w key e.compressed, frame) ∷ []));
    bloom_valid = Bloom.insert-IsValid x.hash key.dev_eui w.bloom_filter h.bloom_valid;
    bloom_bits = Bloom.length-insert x.hash key.dev_eui w.bloom_filter ∙ h.bloom_bits;
    member =
        All-append
          (λ s.
            Bloom.contains x.hash s.0.key.dev_eui (Bloom.insert x.hash key.dev_eui w.bloom_filter)
            ≡ true)
          slots ((slot w key e.compressed, frame) ∷ [])
          (All-map
            (λ s. Bloom.contains-insert_keeps x.hash s.0.key.dev_eui key.dev_eui w.bloom_filter)
            slots h.member)
          (Bloom.contains-insert_self x.hash key.dev_eui w.bloom_filter h.bloom_valid, tt);
    fits =
        All-append (λ s. IndexFits s.0) slots ((slot w key e.compressed, frame) ∷ []) h.fits
          (
            record {
              key_data = e.key_data;
              key_serializes = e.key_serializes;
              key_short = e.key_short;
              size_word = omega arith;
            },
            tt,
          );
    header = h.header;
    first = first_snoc slots w.min_key (slot w key e.compressed) frame h.first;
    last = sym (
        ap (mathlib.Core.Option.map (λ s. s.0.key))
          (last?-snoc slots (slot w key e.compressed, frame)));
  }

  length-data_bytes :
      (compressed : Bytes) → length (data_bytes x compressed) ≡ length compressed + 8
  unfolding data_bytes
  length-data_bytes compressed = omega (
    arith,
    length-append (to_le_bytes 4 (length compressed))
        (compressed ++ to_le_bytes 4 (x.crc32 compressed)),
    length-append compressed (to_le_bytes 4 (x.crc32 compressed)),
    length-to_le_bytes 4 (length compressed),
    length-to_le_bytes 4 (x.crc32 compressed),
  )

  -- The last key is below the keys that are still to come.
  abbrev pub Follows : Option MemtableKey → List (MemtableKey × Frame) → Type 0
  Follows none entries = Unit
  Follows (some k) entries = Assoc.Above k entries

  in_order_of_Follows :
      (m : Option MemtableKey) (k : MemtableKey) (f : Frame) (entries : List (MemtableKey × Frame))
      → Follows m ((k, f) ∷ entries)
      → in_order m k ≡ true
  in_order_of_Follows none k f entries h = refl
  in_order_of_Follows (some j) k f entries h = ground (arith, gt_of_lt j k h.0)

  -- Adding ascending entries that the formats take succeeds, and the writer holds them.
  pub add_all-Holds :
      (entries : List (MemtableKey × Frame)) (w : SsTableWriter) (slots : List (IndexEntry × Frame))
      → Holds w slots
      → Assoc.IsSorted entries
      → Follows w.max_key entries
      → All (λ e. Writable e.0 e.1) entries
      → (w' : SsTableWriter) × (slots' : List (IndexEntry × Frame)) × (add_all x w entries ≡ ok w')
        × Holds w' slots'
        × (content slots' ≡ content slots ++ entries)
        × (header_size w' ≡ header_size w)
        × (w'.id ≡ w.id)
        × (length w'.written ≤ length w.written + length entries * (2 ^ 32 + 8))
  unfolding add_all
  add_all-Holds [] w slots h s k t =
      (w, slots, refl, h, sym (append-nil (content slots)), refl, refl, omega arith)
  add_all-Holds ((k, f) ∷ entries) w slots h s after t =
      let e = t.0 in
      let w1 = added w k f e.compressed in
      let slots1 = slots ++ (slot w k e.compressed, f) ∷ [] in
      let (w', slots', done, holds, same, size, id, long) =
        add_all-Holds entries w1 slots1 (added-Holds w slots k f e h) s.1 s.0 t.1 in
      (
        w',
        slots',
        ap (λ r. r >>= λ w. add_all x w entries)
              (add-added w k f e (in_order_of_Follows w.max_key k f entries after))
            ∙ done,
        holds,
        same
            ∙ ap (λ c. c ++ entries)
                (map-append (λ (s : IndexEntry × Frame). (s.0.key, s.1)) slots
                  ((slot w k e.compressed, f) ∷ []))
            ∙ append_assoc (content slots) ((k, f) ∷ []) entries,
        size,
        id,
        omega (
          arith,
          long,
          length-append w.written (data_bytes x e.compressed),
          length-data_bytes e.compressed,
          e.short,
        ),
      )

  -- A new writer holds nothing, behind the space for the header.
  pub new-Holds :
      (id : ℕ)
      → (w : SsTableWriter) × (new x id ≡ ok w)
        × Holds w []
        × (w.max_key ≡ none)
        × (w.id ≡ id)
        × (length w.written < 2 ^ 32 + 26)
  unfolding new
  new-Holds id =
      let empty = Bloom.new x.num_bits x.num_hash_functions in
      let bits : length empty.bits ≡ x.num_bits =
        unfold Bloom.new in length-replicate x.num_bits false in
      let (p, made, small) = law.bloom_serializes empty bits in
      let w : SsTableWriter = record {
        id = id;
        written = replicate (4 + 2 + 8 + 8 + 4 + length p) 0;
        bloom_header_size = length p;
        index_entries = [];
        bloom_filter = empty;
        application_ids = [];
        min_key = none;
        max_key = none;
        num_entries = 0;
        data_size_bytes = 0;
      } in
      (
        w,
        rw made refl,
        record {
          index = refl;
          stored = tt;
          room = omega (arith, length-replicate (4 + 2 + 8 + 8 + 4 + length p) (zero));
          counted = omega arith;
          bloom_valid = Bloom.new-IsValid x.hash x.num_bits x.num_hash_functions law.some_bits;
          bloom_bits = bits;
          member = tt;
          fits = tt;
          header = λ b q same e. law.bloom_size b empty q p (same ∙ sym bits) e made;
          first = refl;
          last = refl;
        },
        refl,
        refl,
        omega (arith, small, length-replicate (4 + 2 + 8 + 8 + 4 + length p) (zero)),
      )
