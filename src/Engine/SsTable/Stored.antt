-- ===== src/Engine/SsTable/Stored.antt =====
-- Where a table's file holds a frame, and `read_frame` of src/engine/sstable.rs there.
use mathlib.Core.List.{append_assoc}
use lo_ra_db.Prelude.{
  ℕ, ◌^◌, ◌≤◌, ◌<◌, ◌≡◌, refl, ◌∙◌, ap, some, List, [], ◌∷◌, ◌++◌, length, drop, map, All, arith,
  ok, length-append, length-drop, drop-append_within, drop-overwrite,
}
use lo_ra_db.Model.Frames.{Frame}
use lo_ra_db.Engine.Codec.{Formats, FormatLaws}
use lo_ra_db.Engine.Bytes.{Bytes, to_le_bytes, read-append, read_word-append}
use lo_ra_db.Engine.SsTable.{IndexEntry}
use lo_ra_db.Engine.SsTable.Writer.{data_bytes}
use lo_ra_db.Engine.SsTable.Reader.{read_frame, read_frames}

module _ (x : Formats) (law : FormatLaws x) where
  -- Behind the first `from` bytes, at the entry's offset, stand the bytes of the frame.
  pub record Stored (from : ℕ) (file : Bytes) (entry : IndexEntry) (frame : Frame) : Type 0 where
    pub compressed : Bytes
    pub plain : Bytes
    pub behind : Bytes
    pub here : drop entry.offset file ≡ data_bytes x compressed ++ behind
    pub not_before : from ≤ entry.offset
    pub within : entry.offset ≤ length file
    pub short : length compressed < 2 ^ 32
    pub expands : x.decompress compressed ≡ some plain
    pub decodes : x.bincode.deserialize plain ≡ some frame

  pub Stored-append :
      (from : ℕ) (file more : Bytes) (entry : IndexEntry) (frame : Frame)
      → Stored from file entry frame
      → Stored from (file ++ more) entry frame
  Stored-append from file more entry frame s = record {
    compressed = s.compressed;
    plain = s.plain;
    behind = s.behind ++ more;
    here =
        drop-append_within entry.offset file more s.within
        ∙ ap (λ b. b ++ more) s.here
        ∙ append_assoc (data_bytes x s.compressed) s.behind more;
    not_before = s.not_before;
    within = omega (arith, s.within, length-append file more);
    short = s.short;
    expands = s.expands;
    decodes = s.decodes;
  }

  pub Stored-overwrite :
      (header file : Bytes) (entry : IndexEntry) (frame : Frame)
      → length header ≤ length file
      → Stored (length header) file entry frame
      → Stored (length header) (header ++ drop (length header) file) entry frame
  Stored-overwrite header file entry frame fits s = record {
    compressed = s.compressed;
    plain = s.plain;
    behind = s.behind;
    here = drop-overwrite entry.offset header file s.not_before ∙ s.here;
    not_before = s.not_before;
    within = omega (
      arith,
      s.within,
      length-append header (drop (length header) file),
      length-drop (length header) file,
    );
    short = s.short;
    expands = s.expands;
    decodes = s.decodes;
  }

  pub read_frame-Stored :
      (from : ℕ) (file : Bytes) (entry : IndexEntry) (frame : Frame)
      → Stored from file entry frame
      → read_frame x file entry ≡ ok frame
  unfolding read_frame data_bytes
  read_frame-Stored from file entry frame s =
      let sum = to_le_bytes 4 (x.crc32 s.compressed) in
      let here : drop entry.offset file
          ≡ to_le_bytes 4 (length s.compressed) ++ (s.compressed ++ (sum ++ s.behind)) =
        s.here ∙ simp append_assoc in
      ground (
        arith,
        here,
        read_word-append 4 (length s.compressed) (s.compressed ++ (sum ++ s.behind))
            (omega (arith, s.short)),
        read-append (length s.compressed) s.compressed (sum ++ s.behind) refl,
        read_word-append 4 (x.crc32 s.compressed) s.behind (omega (arith, law.word s.compressed)),
        s.expands,
        s.decodes,
      )

  pub read_frames-Stored :
      (from : ℕ) (file : Bytes) (l : List (IndexEntry × Frame))
      → All (λ e. Stored from file e.0 e.1) l
      → read_frames x file (map (λ e. e.0) l) ≡ ok (map (λ e. e.1) l)
  unfolding read_frames
  read_frames-Stored from file [] h = refl
  read_frames-Stored from file ((e, f) ∷ l) h =
      rw (read_frame-Stored from file e f h.0, read_frames-Stored from file l h.1)
