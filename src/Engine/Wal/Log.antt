-- ===== src/Engine/Wal/Log.antt =====
-- Segments: what replaying the entries that `append` wrote returns, whole, damaged or cut short.
use mathlib.Core.List.{append_assoc, append-nil}
use lo_ra_db.Prelude.{
  ℕ, zero, suc, ◌+◌, ◌^◌, ◌<◌, ◌≡◌, ◌≢◌, refl, sym, ◌∙◌, ap, some, List, [], ◌∷◌, ◌++◌, map, arith,
  length, take, ltb, if◌then◌else◌, Result, ok, err, All,
}
use lo_ra_db.Model.Lorawan.{LoraDbError}
use lo_ra_db.Model.Frames.{Frame}
use lo_ra_db.Engine.Bincode.{Bincode}
use lo_ra_db.Engine.Bytes.{
  Bytes, read_exact, to_le_bytes, from_le_bytes, from_le_bytes-to_le_bytes, length-to_le_bytes,
}
use lo_ra_db.Engine.Wal.Entry.{magic, version, left, left-replay_entry, replay_entry-parts}
use lo_ra_db.Engine.Wal.Torn.{replay_entry_torn}
use lo_ra_db.Engine.Wal.{
  wal_version, Round, stop, fail, skip, push, entry_bytes, check_entry, replay_entry, replay_from,
  replay_segment,
}

-- The bytes of the entries, one behind the other.
abbrev pub log_bytes : (Bytes → ℕ) → List Bytes → Bytes
log_bytes crc32 [] = []
log_bytes crc32 (p ∷ ps) = entry_bytes crc32 p ++ log_bytes crc32 ps

module _ (bincode : Bincode) (crc32 : Bytes → ℕ) (word : (b : Bytes) → crc32 b < 2 ^ 32) where
  -- A payload that an append can have written for the frame.
  pub record Holds (payload : Bytes) (frame : Frame) : Type 0 where
    pub short : length payload < 2 ^ 32
    pub decodes : bincode.deserialize payload ≡ some frame

  entry_right :
      (payload rest : Bytes)
      → entry_bytes crc32 payload ++ rest
        ≡ magic
          ++ (version
              ++ (to_le_bytes 4 (length payload)
                  ++ (payload
                      ++ (to_le_bytes 4
                            (crc32 (version ++ (to_le_bytes 4 (length payload) ++ payload)))
                          ++ rest))))
  unfolding entry_bytes
  entry_right payload rest = simp append_assoc

  pub replay_entry-entry :
      (payload rest : Bytes) (frame : Frame)
      → Holds payload frame
      → replay_entry bincode crc32 (entry_bytes crc32 payload ++ rest) ≡ push frame rest
  unfolding check_entry
  replay_entry-entry payload rest frame h =
      let sum = crc32 (version ++ (to_le_bytes 4 (length payload) ++ payload)) in
      rw (entry_right payload rest) (
        replay_entry-parts bincode crc32 payload (to_le_bytes 4 sum) rest h.short
          (length-to_le_bytes 4 sum)
        ∙ ground (
          arith,
          from_le_bytes-to_le_bytes 4 sum (word _),
          from_le_bytes-to_le_bytes 2 wal_version (omega arith),
          h.decodes,
        ))

  -- What the loop does behind a round.
  abbrev after_round : ℕ → Round → List Frame → Result LoraDbError (List Frame)
  after_round fuel stop frames = ok frames
  after_round fuel fail frames = err LoraDbError.io_error
  after_round fuel (skip rest) frames = replay_from bincode crc32 fuel rest frames
  after_round fuel (push frame rest) frames =
      replay_from bincode crc32 fuel rest (frames ++ frame ∷ [])

  replay_from-suc :
      (n : ℕ) (bytes : Bytes) (frames : List Frame)
      → replay_from bincode crc32 (suc n) bytes frames
        ≡ after_round n (replay_entry bincode crc32 bytes) frames
  unfolding replay_from
  replay_from-suc n bytes frames = ground arith

  after_round_fuel :
      (n m : ℕ) (r : Round) (frames : List Frame)
      → ((rest : Bytes) (fs : List Frame)
          → left r ≡ some rest
          → replay_from bincode crc32 n rest fs ≡ replay_from bincode crc32 m rest fs)
      → after_round n r frames ≡ after_round m r frames
  after_round_fuel n m stop frames same = refl
  after_round_fuel n m fail frames same = refl
  after_round_fuel n m (skip rest) frames same = same rest frames refl
  after_round_fuel n m (push frame rest) frames same = same rest (frames ++ frame ∷ []) refl

  -- More fuel than bytes changes nothing.
  pub replay_from_fuel :
      (n m : ℕ) (bytes : Bytes) (frames : List Frame)
      → length bytes < n
      → length bytes < m
      → replay_from bincode crc32 n bytes frames ≡ replay_from bincode crc32 m bytes frames
  replay_from_fuel zero m bytes frames h k = absurd (omega arith)
  replay_from_fuel (suc n) zero bytes frames h k = absurd (omega arith)
  replay_from_fuel (suc n) (suc m) bytes frames h k =
      rw (replay_from-suc n bytes frames, replay_from-suc m bytes frames)
        (after_round_fuel n m (replay_entry bincode crc32 bytes) frames (λ rest fs e.
          replay_from_fuel n m rest fs (omega (arith, left-replay_entry bincode crc32 bytes rest e))
            (omega (arith, left-replay_entry bincode crc32 bytes rest e))))

  -- One round with as much fuel as the loop of a segment has.
  replay_from-round :
      (bytes : Bytes) (frames : List Frame)
      → replay_from bincode crc32 (suc (length bytes)) bytes frames
        ≡ after_round (length bytes) (replay_entry bincode crc32 bytes) frames
  replay_from-round bytes frames = replay_from-suc (length bytes) bytes frames

  -- The loop reads an entry and goes on behind it.
  replay_from-entry :
      (payload rest : Bytes) (frame : Frame) (frames : List Frame)
      → Holds payload frame
      → replay_from bincode crc32
          (suc (length (entry_bytes crc32 payload ++ rest)))
          (entry_bytes crc32 payload ++ rest)
          frames
        ≡ replay_from bincode crc32 (suc (length rest)) rest (frames ++ frame ∷ [])
  replay_from-entry payload rest frame frames h =
      let bytes = entry_bytes crc32 payload ++ rest in
      let pushed = replay_entry-entry payload rest frame h in
      replay_from-round bytes frames
      ∙ ap (λ r. after_round (length bytes) r frames) pushed
      ∙ replay_from_fuel (length bytes) (suc (length rest)) rest (frames ++ frame ∷ [])
          (left-replay_entry bincode crc32 bytes rest (ap left pushed)) (omega arith)

  -- A log of whole entries in front of any bytes gives its frames, and the loop goes on behind it.
  replay_from-log :
      (l : List (Bytes × Frame)) (rest : Bytes) (frames : List Frame)
      → All (λ e. Holds e.0 e.1) l
      → replay_from bincode crc32
          (suc (length (log_bytes crc32 (map (λ e. e.0) l) ++ rest)))
          (log_bytes crc32 (map (λ e. e.0) l) ++ rest)
          frames
        ≡ replay_from bincode crc32 (suc (length rest)) rest (frames ++ map (λ e. e.1) l)
  replay_from-log [] rest frames h = rw append-nil refl
  replay_from-log ((p, f) ∷ l) rest frames h =
      rw (append_assoc (entry_bytes crc32 p) (log_bytes crc32 (map (λ e. e.0) l)) rest) (
        replay_from-entry p (log_bytes crc32 (map (λ e. e.0) l) ++ rest) f frames h.0
        ∙ replay_from-log l rest (frames ++ f ∷ []) h.1
        ∙ ap (replay_from bincode crc32 (suc (length rest)) rest)
            (append_assoc frames (f ∷ []) (map (λ e. e.1) l)))

  nothing_left : (frames : List Frame) → replay_from bincode crc32 1 [] frames ≡ ok frames
  unfolding replay_from replay_entry read_exact
  nothing_left frames = refl

  -- Replaying a segment of entries that `append` wrote returns their frames, in order.
  pub replay_segment-log :
      (l : List (Bytes × Frame))
      → All (λ e. Holds e.0 e.1) l
      → replay_segment bincode crc32 (log_bytes crc32 (map (λ e. e.0) l)) ≡ ok (map (λ e. e.1) l)
  unfolding replay_segment
  replay_segment-log l h =
      let bytes = log_bytes crc32 (map (λ (e : Bytes × Frame). e.0) l) in
      ap (λ b. replay_from bincode crc32 (suc (length b)) b []) (sym (append-nil bytes))
      ∙ replay_from-log l [] [] h
      ∙ nothing_left (map (λ e. e.1) l)

  -- An entry that was cut short behind whole entries: if at most its magic number and a part of its
  -- version were written, the frames of the whole entries are returned; if more was written, the
  -- replay of the segment is an error, and returns no frame.
  pub replay_segment-torn :
      (l : List (Bytes × Frame)) (payload : Bytes) (k : ℕ)
      → All (λ e. Holds e.0 e.1) l
      → length payload < 2 ^ 32
      → k < length payload + 14
      → replay_segment bincode crc32
          (log_bytes crc32 (map (λ e. e.0) l) ++ take k (entry_bytes crc32 payload))
        ≡ (if ltb k 6 then ok (map (λ e. e.1) l) else err LoraDbError.io_error)
  unfolding replay_segment
  replay_segment-torn l payload k h fits below =
      let rest = take k (entry_bytes crc32 payload) in
      replay_from-log l rest [] h
      ∙ replay_from-round rest (map (λ e. e.1) l)
      ∙ ap (λ r. after_round (length rest) r (map (λ e. e.1) l))
          (replay_entry_torn bincode crc32 payload k fits below)
      ∙ ground arith

  -- The bytes of an entry under any four bytes of checksum.
  abbrev pub entry_with : Bytes → Bytes → Bytes
  entry_with payload sum =
      magic ++ (version ++ (to_le_bytes 4 (length payload) ++ (payload ++ sum)))

  damaged_round :
      (payload sum rest : Bytes)
      → length payload < 2 ^ 32
      → length sum ≡ 4
      → from_le_bytes sum ≢ crc32 (version ++ (to_le_bytes 4 (length payload) ++ payload))
      → replay_entry bincode crc32 (entry_with payload sum ++ rest) ≡ skip rest
  unfolding check_entry
  damaged_round payload sum rest fits four differs =
      simp append_assoc (replay_entry-parts bincode crc32 payload sum rest fits four ∙ ground arith)

  -- An entry whose payload and checksum disagree is passed over: the frames of the whole entries in
  -- front of it and behind it are returned.
  pub replay_segment-damaged :
      (before after : List (Bytes × Frame)) (payload sum : Bytes)
      → All (λ e. Holds e.0 e.1) before
      → All (λ e. Holds e.0 e.1) after
      → length payload < 2 ^ 32
      → length sum ≡ 4
      → from_le_bytes sum ≢ crc32 (version ++ (to_le_bytes 4 (length payload) ++ payload))
      → replay_segment bincode crc32 (
          log_bytes crc32 (map (λ e. e.0) before)
          ++ (entry_with payload sum ++ log_bytes crc32 (map (λ e. e.0) after)))
        ≡ ok (map (λ e. e.1) before ++ map (λ e. e.1) after)
  unfolding replay_segment
  replay_segment-damaged before after payload sum h k fits four differs =
      let bytes = log_bytes crc32 (map (λ (e : Bytes × Frame). e.0) after) in
      let rest = entry_with payload sum ++ bytes in
      let frames = map (λ (e : Bytes × Frame). e.1) before in
      let skipped = damaged_round payload sum bytes fits four differs in
      replay_from-log before rest [] h
      ∙ replay_from-round rest frames
      ∙ ap (λ r. after_round (length rest) r frames) skipped
      ∙ replay_from_fuel (length rest) (suc (length bytes)) bytes frames
          (left-replay_entry bincode crc32 rest bytes (ap left skipped)) (omega arith)
      ∙ ap (λ b. replay_from bincode crc32 (suc (length b)) b frames) (sym (append-nil bytes))
      ∙ replay_from-log after [] frames k
      ∙ nothing_left (frames ++ map (λ e. e.1) after)
