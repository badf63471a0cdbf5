-- ===== src/Engine/Wal/Replay.antt =====
-- The log as a sequence of frames: `append` adds at its end, `replay` returns it, `truncate` and the
-- opening of an empty directory leave it empty.
use mathlib.Core.List.{append_assoc, append-nil, map-append}
use lo_ra_db.Prelude.{
  ℕ, zero, suc, ◌+◌, ◌^◌, ◌<◌, ◌≤◌, ◌≡◌, ◌≢◌, refl, sym, ◌∙◌, ap, Option, none, some, List, [], ◌∷◌,
  ◌++◌, map, arith, length, Result, ok, err, ◌>>=◌, All, All-append, dec_lt,
}
use lo_ra_db.Prelude.Order.{nat_ord}
use lo_ra_db.Prelude.Assoc
use lo_ra_db.Model.Lorawan.{LoraDbError}
use lo_ra_db.Model.Frames.{Frame}
use lo_ra_db.Engine.Bincode.{Bincode}
use lo_ra_db.Engine.Bytes.{Bytes}
use lo_ra_db.Engine.Wal.Log.{Holds, log_bytes, replay_segment-log}
use lo_ra_db.Engine.Wal.{
  WriteAheadLog, entry_bytes, replay_segment, replay_segments, replay, append,
}

log_bytes-append :
    (crc32 : Bytes → ℕ) (ps : List Bytes) (p : Bytes)
    → log_bytes crc32 ps ++ entry_bytes crc32 p ≡ log_bytes crc32 (ps ++ p ∷ [])
log_bytes-append crc32 [] p = sym (append-nil (entry_bytes crc32 p))
log_bytes-append crc32 (q ∷ ps) p =
    append_assoc (entry_bytes crc32 q) (log_bytes crc32 ps) (entry_bytes crc32 p)
    ∙ ap (λ b. entry_bytes crc32 q ++ b) (log_bytes-append crc32 ps p)

module _ (bincode : Bincode) (crc32 : Bytes → ℕ) (word : (b : Bytes) → crc32 b < 2 ^ 32) where
  -- The open segment holds the given entries, and no segment comes behind it.
  pub record IsLog (wal : WriteAheadLog) (l : List (Bytes × Frame)) : Type 0 where
    pub sorted : Assoc.IsSorted wal.segments
    pub bounded : wal.current_segment ≤ wal.segment_number
    pub holds :
        Assoc.get wal.current_segment wal.segments ≡ some (log_bytes crc32 (map (λ e. e.0) l))
    pub written : All (λ e. Holds bincode crc32 word e.0 e.1) l
    pub is_last : (n : ℕ) → wal.current_segment < n → Assoc.get n wal.segments ≡ none

  -- The frames that the loop of `replay` takes from one segment.
  frames_of_result : Result LoraDbError (List Frame) → List Frame
  frames_of_result (ok frames) = frames
  frames_of_result (err e) = []

  pub frames_of : Option Bytes → List Frame
  unfolding frames_of_result
  frames_of none = []
  frames_of (some bytes) = frames_of_result (replay_segment bincode crc32 bytes)

  pub replay_segments-suc :
      (segments : List (ℕ × Bytes)) (num count : ℕ)
      → replay_segments bincode crc32 segments num (suc count)
        ≡ frames_of (Assoc.get num segments)
          ++ replay_segments bincode crc32 segments (suc num) count
  unfolding replay_segments frames_of
  replay_segments-suc segments num count = ground arith

  pub absent_segments :
      (segments : List (ℕ × Bytes)) (num count : ℕ)
      → ((n : ℕ) → num ≤ n → Assoc.get n segments ≡ none)
      → replay_segments bincode crc32 segments num count ≡ []
  unfolding replay_segments frames_of
  absent_segments segments num zero h = refl
  absent_segments segments num (suc count) h =
      replay_segments-suc segments num count
      ∙ ap (λ o. frames_of o ++ replay_segments bincode crc32 segments (suc num) count)
          (h num (omega arith))
      ∙ absent_segments segments (suc num) count (λ n k. h n (omega arith))

  -- Adding frames to the last segment adds them to the replay.
  module _ (segments segments' : List (ℕ × Bytes)) (gs : List Frame) (current : ℕ)
      (more : frames_of (Assoc.get current segments')
        ≡ frames_of (Assoc.get current segments) ++ gs)
      (same : (n : ℕ) → n ≢ current → Assoc.get n segments' ≡ Assoc.get n segments)
      (is_last : (n : ℕ) → current < n → Assoc.get n segments ≡ none) where
    replay_segments-more :
        (num count : ℕ)
        → num ≤ current
        → current < num + count
        → replay_segments bincode crc32 segments' num count
          ≡ replay_segments bincode crc32 segments num count ++ gs
    replay_segments-more num zero lo hi = absurd (omega arith)
    replay_segments-more num (suc count) lo hi = elim (dec_lt num current) [
      | yes p ↦
          rw
            (
              replay_segments-suc segments' num count,
              replay_segments-suc segments num count,
              same num (λ e. omega arith),
            )
            (ap (λ r. frames_of (Assoc.get num segments) ++ r)
                (replay_segments-more (suc num) count (omega arith) (omega arith))
              ∙ sym (
                  append_assoc (frames_of (Assoc.get num segments))
                    (replay_segments bincode crc32 segments (suc num) count) gs))
      | no p ↦
          let here : num ≡ current = omega arith in
          let none_behind =
            absent_segments segments (suc num) count (λ n k. is_last n (omega arith)) in
          let none_behind' =
            absent_segments segments' (suc num) count
              (λ n k. same n (λ e. omega arith) ∙ is_last n (omega arith)) in
          rw
            (
              replay_segments-suc segments' num count,
              replay_segments-suc segments num count,
              none_behind,
              none_behind',
              here,
              more,
            )
            (append-nil (frames_of (Assoc.get current segments) ++ gs)
              ∙ ap (λ x. x ++ gs) (sym (append-nil (frames_of (Assoc.get current segments)))))
    ]

  -- The log behind an append.
  abbrev pub appended : WriteAheadLog → List (Bytes × Frame) → Bytes → WriteAheadLog
  appended wal l p = record wal {
    segments =
        Assoc.insert wal.current_segment (log_bytes crc32 (map (λ e. e.0) l) ++ entry_bytes crc32 p)
          wal.segments;
  }

  pub append-appended :
      (wal : WriteAheadLog) (l : List (Bytes × Frame)) (f : Frame) (p : Bytes)
      → IsLog wal l
      → bincode.serialize f ≡ some p
      → length p < 2 ^ 32
      → append bincode crc32 wal f ≡ ok (appended wal l p)
  unfolding append
  append-appended wal l f p h e fits = ground (arith, h.holds)

  -- The entries behind an append, as the bytes of the segment.
  log_bytes-snoc :
      (l : List (Bytes × Frame)) (f : Frame) (p : Bytes)
      → log_bytes crc32 (map (λ e. e.0) l) ++ entry_bytes crc32 p
        ≡ log_bytes crc32 (map (λ e. e.0) (l ++ (p, f) ∷ []))
  log_bytes-snoc l f p =
      log_bytes-append crc32 (map (λ e. e.0) l) p
      ∙ ap (log_bytes crc32) (sym (map-append (λ (e : Bytes × Frame). e.0) l ((p, f) ∷ [])))

  pub frames_of-log :
      (l : List (Bytes × Frame))
      → All (λ e. Holds bincode crc32 word e.0 e.1) l
      → frames_of (some (log_bytes crc32 (map (λ e. e.0) l))) ≡ map (λ e. e.1) l
  unfolding frames_of
  frames_of-log l h = ap frames_of_result (replay_segment-log bincode crc32 word l h)

  pub appended-IsLog :
      (wal : WriteAheadLog) (l : List (Bytes × Frame)) (f : Frame) (p : Bytes)
      → IsLog wal l
      → Holds bincode crc32 word p f
      → IsLog (appended wal l p) (l ++ (p, f) ∷ [])
  appended-IsLog wal l f p h new = record {
    sorted = Assoc.insert-IsSorted wal.current_segment _ wal.segments h.sorted;
    bounded = h.bounded;
    holds =
        Assoc.get-insert_self wal.current_segment _ wal.segments ∙ ap some (log_bytes-snoc l f p);
    written =
        All-append (λ e. Holds bincode crc32 word e.0 e.1) l ((p, f) ∷ []) h.written (new, tt);
    is_last = λ n k.
        Assoc.get-insert_ne wal.current_segment n _ wal.segments h.sorted (λ e. omega arith)
        ∙ h.is_last n k;
  }

  pub replay-appended :
      (wal : WriteAheadLog) (l : List (Bytes × Frame)) (f : Frame) (p : Bytes)
      → IsLog wal l
      → Holds bincode crc32 word p f
      → replay bincode crc32 (appended wal l p) ≡ replay bincode crc32 wal ++ f ∷ []
  unfolding replay
  replay-appended wal l f p h new =
      let h' = appended-IsLog wal l f p h new in
      replay_segments-more wal.segments (appended wal l p).segments (f ∷ []) wal.current_segment
        (ap frames_of h'.holds
          ∙ frames_of-log (l ++ (p, f) ∷ []) h'.written
          ∙ map-append (λ (e : Bytes × Frame). e.1) l ((p, f) ∷ [])
          ∙ ap (λ x. x ++ f ∷ []) (sym (ap frames_of h.holds ∙ frames_of-log l h.written)))
        (λ n k. Assoc.get-insert_ne wal.current_segment n _ wal.segments h.sorted (λ e. k (sym e)))
        h.is_last 0 (suc wal.segment_number) (omega arith) (omega (arith, h.bounded))

  unfoldable pub append_all : WriteAheadLog → List Frame → Result LoraDbError WriteAheadLog
  append_all wal [] = ok wal
  append_all wal (f ∷ fs) = append bincode crc32 wal f >>= λ w. append_all w fs

  -- The frame is serialised, to less than 4 GiB, and reads back as it was.
  abbrev pub Serializes : Frame → Type 0
  Serializes f =
      (p : Bytes) × (bincode.serialize f ≡ some p)
      × (length p < 2 ^ 32)
      × (bincode.deserialize p ≡ some f)

  -- On a log in order, whose open segment holds whole entries only and is the last one, appending
  -- frames that serialise to less than 4 GiB and read back as they were succeeds, and adds exactly these
  -- frames, in order, to what the log replays to. The checksum is assumed to be a 32-bit word.
  pub replay-append_all :
      (fs : List Frame) (wal : WriteAheadLog) (l : List (Bytes × Frame))
      → IsLog wal l
      → All Serializes fs
      → (wal' : WriteAheadLog) × (append_all wal fs ≡ ok wal')
        × (replay bincode crc32 wal' ≡ replay bincode crc32 wal ++ fs)
  unfolding append_all
  replay-append_all [] wal l h s = (wal, refl, sym (append-nil (replay bincode crc32 wal)))
  replay-append_all (f ∷ fs) wal l h s =
      let (p, e, fits, reads) = s.0 in
      let new : Holds bincode crc32 word p f = record { short = fits; decodes = reads } in
      let (wal', done, same) =
        replay-append_all fs (appended wal l p) (l ++ (p, f) ∷ []) (appended-IsLog wal l f p h new)
          s.1 in
      (
        wal',
        ap (λ r. r >>= λ w. append_all w fs) (append-appended wal l f p h e fits) ∙ done,
        same
            ∙ ap (λ x. x ++ fs) (replay-appended wal l f p h new)
            ∙ append_assoc (replay bincode crc32 wal) (f ∷ []) fs,
      )
