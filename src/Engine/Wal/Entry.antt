-- ===== src/Engine/Wal/Entry.antt =====
-- One entry of a segment: what the loop of `replay_segment` makes of it when it is there whole.
use lo_ra_db.Prelude.{ℕ, ◌^◌, ◌<◌, ◌≡◌, refl, Option, none, some, ◌++◌, arith, length}
use lo_ra_db.Engine.Bincode.{Bincode}
use lo_ra_db.Engine.Bytes.{
  Bytes, to_le_bytes, length-to_le_bytes, from_le_bytes-to_le_bytes, read_exact-append,
  length-read_exact,
}
use lo_ra_db.Engine.Wal.{
  wal_magic, wal_version, Round, stop, fail, skip, push, check_entry, replay_entry,
}

abbrev pub magic : Bytes
magic = to_le_bytes 4 wal_magic

abbrev pub version : Bytes
version = to_le_bytes 2 wal_version

-- What a round that goes on leaves.
abbrev pub left : Round → Option Bytes
left stop = none
left fail = none
left (skip rest) = some rest
left (push frame rest) = some rest

module _ (bincode : Bincode) (crc32 : Bytes → ℕ) where
  -- An entry that is there whole is read into its parts, whatever its payload and its checksum.
  pub replay_entry-parts :
      (payload crc rest : Bytes)
      → length payload < 2 ^ 32
      → length crc ≡ 4
      → replay_entry bincode crc32 (
          to_le_bytes 4 wal_magic
          ++ (to_le_bytes 2 wal_version
              ++ (to_le_bytes 4 (length payload) ++ (payload ++ (crc ++ rest)))))
        ≡ check_entry bincode crc32
            (to_le_bytes 2 wal_version)
            (to_le_bytes 4 (length payload))
            payload
            crc
            rest
  unfolding replay_entry
  replay_entry-parts payload crc rest h k =
      let r4 = crc ++ rest in
      let r3 = payload ++ r4 in
      let r2 = to_le_bytes 4 (length payload) ++ r3 in
      let r1 = to_le_bytes 2 wal_version ++ r2 in
      ground (
        arith,
        read_exact-append 4 (to_le_bytes 4 wal_magic) r1 (length-to_le_bytes 4 wal_magic),
        from_le_bytes-to_le_bytes 4 wal_magic (omega arith),
        read_exact-append 2 (to_le_bytes 2 wal_version) r2 (length-to_le_bytes 2 wal_version),
        read_exact-append 4 (to_le_bytes 4 (length payload)) r3
            (length-to_le_bytes 4 (length payload)),
        from_le_bytes-to_le_bytes 4 (length payload) (omega arith),
        read_exact-append (length payload) payload r4 refl,
        read_exact-append 4 crc rest k,
      )

  left-check_entry :
      (v l p c r rest : Bytes) → left (check_entry bincode crc32 v l p c r) ≡ some rest → rest ≡ r
  unfolding check_entry
  left-check_entry v l p c r rest h = ground arith

  -- A round that goes on has consumed bytes.
  pub left-replay_entry :
      (bytes rest : Bytes)
      → left (replay_entry bincode crc32 bytes) ≡ some rest
      → length rest < length bytes
  unfolding replay_entry
  left-replay_entry bytes rest h = grind (arith, length-read_exact, left-check_entry)
