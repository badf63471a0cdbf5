-- ===== src/Tests/Logs.antt =====
-- Runs of the write-ahead log.
use lo_ra_db.Prelude.{
  ◌≡◌, ◌≢◌, refl, List, [], ◌∷◌, ◌++◌, map, length, arith, All, ok, err, take, ltb, if◌then◌else◌,
}
use lo_ra_db.Model.Text.{text}
use lo_ra_db.Model.Lorawan.{LoraDbError}
use lo_ra_db.Model.Frames.{Frame}
use lo_ra_db.Engine.Bytes.{Bytes, to_le_bytes, from_le_bytes}
use lo_ra_db.Engine.Wal.{WriteAheadLog, open_wal, truncate, replay, replay_segment, entry_bytes}
use lo_ra_db.Engine.Wal.Entry.{version}
use lo_ra_db.Engine.Wal.Log.{
  log_bytes, entry_with, Holds, replay_segment-torn, replay_segment-damaged,
}
use lo_ra_db.Engine.Wal.Replay.{append_all, Serializes, replay-append_all}
use lo_ra_db.Engine.Wal.Truncate.{open_wal-IsLog, replay-truncate}
use lo_ra_db.Tests.Formats.{accept_at, toy_bincode, toy_crc32, toy_word}

abbrev payload_a : Bytes
payload_a = 5000 ∷ text "a"

abbrev payload_b : Bytes
payload_b = 7000 ∷ text "b"

abbrev frame_a : Frame
frame_a = accept_at (text "a") 5000

abbrev frame_b : Frame
frame_b = accept_at (text "b") 7000

abbrev whole_a : List (Bytes × Frame)
whole_a = (payload_a, frame_a) ∷ []

whole_a-Holds : All (λ e. Holds toy_bincode toy_crc32 toy_word e.0 e.1) whole_a
whole_a-Holds = (record { short = omega arith; decodes = refl }, tt)

abbrev whole_b : List (Bytes × Frame)
whole_b = (payload_b, frame_b) ∷ []

whole_b-Holds : All (λ e. Holds toy_bincode toy_crc32 toy_word e.0 e.1) whole_b
whole_b-Holds = (record { short = omega arith; decodes = refl }, tt)

replay_segment-torn_example :
    replay_segment toy_bincode toy_crc32
      (log_bytes toy_crc32 (map (λ e. e.0) whole_a) ++ take 9 (entry_bytes toy_crc32 payload_b))
    ≡ (if ltb 9 6 then ok (map (λ e. e.1) whole_a) else err LoraDbError.io_error)
replay_segment-torn_example =
    replay_segment-torn toy_bincode toy_crc32 toy_word whole_a payload_b 9 whole_a-Holds
      (omega arith) (omega arith)

wrong_sum :
    from_le_bytes (0 ∷ 0 ∷ 0 ∷ 0 ∷ [])
    ≢ toy_crc32 (version ++ (to_le_bytes 4 (length payload_a) ++ payload_a))
unfolding from_le_bytes to_le_bytes
wrong_sum = omega arith

replay_segment-damaged_example :
    replay_segment toy_bincode toy_crc32 (
      log_bytes toy_crc32 (map (λ e. e.0) whole_a)
      ++ (entry_with toy_bincode toy_crc32 toy_word payload_a (0 ∷ 0 ∷ 0 ∷ 0 ∷ [])
          ++ log_bytes toy_crc32 (map (λ e. e.0) whole_b)))
    ≡ ok (map (λ e. e.1) whole_a ++ map (λ e. e.1) whole_b)
replay_segment-damaged_example =
    replay_segment-damaged toy_bincode toy_crc32 toy_word whole_a whole_b payload_a
      (0 ∷ 0 ∷ 0 ∷ 0 ∷ []) whole_a-Holds whole_b-Holds (omega arith) refl wrong_sum

abbrev pub two : List Frame
two = frame_a ∷ frame_b ∷ []

pub two-Serializes : All (Serializes toy_bincode toy_crc32 toy_word) two
two-Serializes = ((payload_a, refl, omega arith, refl), ((payload_b, refl, omega arith, refl), tt))

replay-append_all_example :
    (wal' : WriteAheadLog) × (append_all toy_bincode toy_crc32 toy_word (open_wal []) two ≡ ok wal')
    × (replay toy_bincode toy_crc32 wal' ≡ replay toy_bincode toy_crc32 (open_wal []) ++ two)
replay-append_all_example =
    replay-append_all toy_bincode toy_crc32 toy_word two (open_wal []) []
      (open_wal-IsLog toy_bincode toy_crc32 toy_word) two-Serializes

replay-truncate_example :
    (wal' : WriteAheadLog) × (append_all toy_bincode toy_crc32 toy_word (truncate (open_wal [])) two
      ≡ ok wal')
    × (replay toy_bincode toy_crc32 wal' ≡ two)
replay-truncate_example =
    replay-truncate toy_bincode toy_crc32 toy_word (open_wal []) [] two
      (open_wal-IsLog toy_bincode toy_crc32 toy_word) two-Serializes
