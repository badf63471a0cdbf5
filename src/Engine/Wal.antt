-- ===== src/Engine/Wal.antt =====
-- src/engine/wal.rs. A segment is the bytes of its file, and the log directory is the segments by
-- number. File names, permissions and failures of the file system are left out; what `flush` has
-- written stays written. The checksum (the crate crc32fast) is a parameter.
pub mod Entry
pub mod Torn
pub mod Log
pub mod Replay
pub mod Truncate
use lo_ra_db.Prelude.{
  ℕ, zero, suc, ◌+◌, ◌-◌, ◌*◌, ◌^◌, ◌≡◌, Bool, true, false, not, Option, none, some, List, [], ◌∷◌,
  ◌++◌, arith, length, leb, ltb, ◌==◌, if◌then◌else◌, Result, ok, err, ◌>>=◌, unwrap_or, max,
}
use lo_ra_db.Prelude.Order.{nat_ord}
use lo_ra_db.Prelude.Assoc
use lo_ra_db.Model.Lorawan.{LoraDbError}
use lo_ra_db.Model.Frames.{Frame}
use lo_ra_db.Engine.Bincode.{Bincode}
use lo_ra_db.Engine.Bytes.{Bytes, to_le_bytes, from_le_bytes, read_exact}

abbrev pub wal_magic : ℕ
wal_magic = 0x4C4F5241

abbrev pub wal_version : ℕ
wal_version = 2

-- What one round of the loop of `replay_segment` does: leave it, return an error, or go on behind
-- the entry without or with a frame.
pub data Round : Type 0 where
  stop fail : Round
  skip : Bytes → Round
  push : Frame → Bytes → Round

pub record WriteAheadLog : Type 0 where
  pub segments : List (ℕ × Bytes)
  pub current_segment : ℕ
  pub segment_number : ℕ

-- magic | version | length | payload | checksum of version, length and payload
unfoldable pub entry_bytes : (Bytes → ℕ) → Bytes → Bytes
entry_bytes crc32 payload =
    let version = to_le_bytes 2 wal_version in
    let len = to_le_bytes 4 (length payload) in
    to_le_bytes 4 wal_magic
    ++ (version ++ (len ++ (payload ++ to_le_bytes 4 (crc32 (version ++ (len ++ payload))))))

module _ (bincode : Bincode) (crc32 : Bytes → ℕ) where
  -- The checks of an entry that was read whole.
  unfoldable pub check_entry : Bytes → Bytes → Bytes → Bytes → Bytes → Round
  check_entry version_buf len_buf payload crc_buf rest =
      if not (from_le_bytes crc_buf == crc32 (version_buf ++ (len_buf ++ payload)))
      then skip rest
      else if not (from_le_bytes version_buf == wal_version)
      then skip rest
      else elim (bincode.deserialize payload) [ none ↦ skip rest | some frame ↦ push frame rest ]

  -- The body of the loop. The end of the file before the magic number or the version leaves the
  -- loop; a later end is an error of `read_exact`.
  unfoldable pub replay_entry : Bytes → Round
  replay_entry bytes = elim (read_exact 4 bytes) [
    | none ↦ stop
    | some (magic_buf, r0) ↦
        if not (from_le_bytes magic_buf == wal_magic) then stop else elim (read_exact 2 r0) [
          | none ↦ stop
          | some (version_buf, r1) ↦ elim (read_exact 4 r1) [
            | none ↦ fail
            | some (len_buf, r2) ↦ elim (read_exact (from_le_bytes len_buf) r2) [
              | none ↦ fail
              | some (payload, r3) ↦ elim (read_exact 4 r3) [
                | none ↦ fail
                | some (crc_buf, r4) ↦ check_entry version_buf len_buf payload crc_buf r4
              ]
            ]
          ]
        ]
  ]

  -- The loop, on fuel; a round that goes on has read at least the fixed parts of an entry.
  unfoldable pub replay_from : ℕ → Bytes → List Frame → Result LoraDbError (List Frame)
  replay_from zero bytes frames = ok frames
  replay_from (suc fuel) bytes frames = elim (replay_entry bytes) [
    | stop ↦ ok frames
    | fail ↦ err LoraDbError.io_error
    | skip rest ↦ replay_from fuel rest frames
    | push frame rest ↦ replay_from fuel rest (frames ++ frame ∷ [])
  ]

  unfoldable pub replay_segment : Bytes → Result LoraDbError (List Frame)
  replay_segment bytes = replay_from (suc (length bytes)) bytes []

  -- The loop over the segments `num..num + count`; a segment that fails is passed over.
  unfoldable pub replay_segments : List (ℕ × Bytes) → ℕ → ℕ → List Frame
  replay_segments segments num zero = []
  replay_segments segments num (suc count) =
      let rest = replay_segments segments (suc num) count in
      elim (Assoc.get num segments) [
        | none ↦ rest
        | some bytes ↦ elim (replay_segment bytes) [ ok frames ↦ frames ++ rest | err e ↦ rest ]
      ]

  unfoldable pub replay : WriteAheadLog → List Frame
  replay wal = replay_segments wal.segments 0 (suc wal.segment_number)

  -- The new bytes stand behind those of the open segment.
  unfoldable pub append : WriteAheadLog → Frame → Result LoraDbError WriteAheadLog
  append wal frame = elim (bincode.serialize frame) [
    | none ↦ err LoraDbError.bincode_error
    | some payload ↦
        if ltb (2 ^ 32 - 1) (length payload)
        then err LoraDbError.wal_error
        else ok (record wal {
          segments =
              Assoc.insert wal.current_segment
                (unwrap_or (Assoc.get wal.current_segment wal.segments) []
                  ++ entry_bytes crc32 payload)
                wal.segments;
        })
  ]

-- The largest number of a segment file, or 0.
unfoldable pub find_latest_segment : List (ℕ × Bytes) → ℕ
find_latest_segment [] = 0
find_latest_segment ((n, _) ∷ segments) = max n (find_latest_segment segments)

-- Opening a segment for appending creates it if it is missing.
unfoldable pub open_segment : ℕ → List (ℕ × Bytes) → List (ℕ × Bytes)
open_segment n segments = elim (Assoc.get n segments) [
  | none ↦ Assoc.insert n [] segments
  | some bytes ↦ segments
]

unfoldable pub open_wal : List (ℕ × Bytes) → WriteAheadLog
unfolding find_latest_segment open_segment
open_wal files =
    let segment_number = find_latest_segment files in
    record {
      segments = open_segment segment_number files;
      current_segment = segment_number;
      segment_number = segment_number;
    }

unfoldable pub remove_segments : ℕ → ℕ → List (ℕ × Bytes) → List (ℕ × Bytes)
remove_segments num zero segments = segments
remove_segments num (suc count) segments =
    remove_segments (suc num) count (Assoc.remove num segments)

unfoldable pub truncate : WriteAheadLog → WriteAheadLog
unfolding remove_segments open_segment
truncate wal = record wal {
  segments = open_segment 0 (remove_segments 0 (suc wal.segment_number) wal.segments);
  current_segment = 0;
}
