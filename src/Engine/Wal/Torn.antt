-- ===== src/Engine/Wal/Torn.antt =====
-- An entry whose write was cut short: what the loop of `replay_segment` of src/engine/wal.rs makes
-- of each proper prefix.
use lo_ra_db.Prelude.{
  ℕ, ◌+◌, ◌-◌, ◌^◌, ◌<◌, ◌≡◌, refl, ◌∙◌, ◌++◌, arith, length, take, ltb, if◌then◌else◌,
  length-take-le, take-append_within, take-append_through, dec_lt,
}
use lo_ra_db.Engine.Bincode.{Bincode}
use lo_ra_db.Engine.Bytes.{
  Bytes, to_le_bytes, length-to_le_bytes, from_le_bytes-to_le_bytes, read_exact-append,
  read_exact_short,
}
use lo_ra_db.Engine.Wal.Entry.{magic, version}
use lo_ra_db.Engine.Wal.{wal_magic, wal_version, Round, stop, fail, entry_bytes, replay_entry}

module _ (bincode : Bincode) (crc32 : Bytes → ℕ) where
  -- What a write of an entry that is cut short leaves behind.
  abbrev pub torn_round : ℕ → Round
  torn_round k = if ltb k 6 then stop else fail

  torn_round_early : (k : ℕ) → k < 6 → stop ≡ torn_round k
  torn_round_early k h = ground arith

  torn_round_late : (k : ℕ) → ¬ (k < 6) → fail ≡ torn_round k
  torn_round_late k h = ground arith

  torn_magic : (t : Bytes) → length t < 4 → replay_entry bincode crc32 t ≡ stop
  unfolding replay_entry
  torn_magic t h = ground (arith, read_exact_short 4 t h)

  module _ (t : Bytes) where
    torn_version : length t < 2 → replay_entry bincode crc32 (magic ++ t) ≡ stop
    unfolding replay_entry
    torn_version h = ground (
      arith,
      read_exact-append 4 magic t (length-to_le_bytes 4 wal_magic),
      from_le_bytes-to_le_bytes 4 wal_magic (omega arith),
      read_exact_short 2 t h,
    )

    torn_length : length t < 4 → replay_entry bincode crc32 (magic ++ (version ++ t)) ≡ fail
    unfolding replay_entry
    torn_length h = ground (
      arith,
      read_exact-append 4 magic (version ++ t) (length-to_le_bytes 4 wal_magic),
      from_le_bytes-to_le_bytes 4 wal_magic (omega arith),
      read_exact-append 2 version t (length-to_le_bytes 2 wal_version),
      read_exact_short 4 t h,
    )

    torn_payload :
        (n : ℕ)
        → n < 2 ^ 32
        → length t < n
        → replay_entry bincode crc32 (magic ++ (version ++ (to_le_bytes 4 n ++ t))) ≡ fail
    unfolding replay_entry
    torn_payload n fits h =
        let r2 = to_le_bytes 4 n ++ t in
        ground (
          arith,
          read_exact-append 4 magic (version ++ r2) (length-to_le_bytes 4 wal_magic),
          from_le_bytes-to_le_bytes 4 wal_magic (omega arith),
          read_exact-append 2 version r2 (length-to_le_bytes 2 wal_version),
          read_exact-append 4 (to_le_bytes 4 n) t (length-to_le_bytes 4 n),
          from_le_bytes-to_le_bytes 4 n (omega arith),
          read_exact_short n t h,
        )

    torn_checksum :
        (payload : Bytes)
        → length payload < 2 ^ 32
        → length t < 4
        → replay_entry bincode crc32
            (magic ++ (version ++ (to_le_bytes 4 (length payload) ++ (payload ++ t))))
          ≡ fail
    unfolding replay_entry
    torn_checksum payload fits h =
        let r3 = payload ++ t in
        let r2 = to_le_bytes 4 (length payload) ++ r3 in
        ground (
          arith,
          read_exact-append 4 magic (version ++ r2) (length-to_le_bytes 4 wal_magic),
          from_le_bytes-to_le_bytes 4 wal_magic (omega arith),
          read_exact-append 2 version r2 (length-to_le_bytes 2 wal_version),
          read_exact-append 4 (to_le_bytes 4 (length payload)) r3
              (length-to_le_bytes 4 (length payload)),
          from_le_bytes-to_le_bytes 4 (length payload) (omega arith),
          read_exact-append (length payload) payload t refl,
          read_exact_short 4 t h,
        )

  -- Cutting four parts and a rest cuts the first part, or goes through it.
  module _ (payload crc : Bytes) (fits : length payload < 2 ^ 32) (four : length crc ≡ 4) where
    cut_crc :
        (k : ℕ)
        → k < 4
        → replay_entry bincode crc32
            (magic ++ (version ++ (to_le_bytes 4 (length payload) ++ (payload ++ take k crc))))
          ≡ fail
    cut_crc k h = torn_checksum (take k crc) payload fits (omega (arith, length-take-le k crc))

    cut_payload :
        (k : ℕ)
        → k < length payload + 4
        → replay_entry bincode crc32
            (magic ++ (version ++ (to_le_bytes 4 (length payload) ++ take k (payload ++ crc))))
          ≡ fail
    cut_payload k h = elim (dec_lt k (length payload)) [
      | yes p ↦
          torn_payload (take k (payload ++ crc)) (length payload) fits
            (omega (arith, take-append_within k payload crc p))
      | no p ↦
          rw (take-append_through k payload crc (omega arith))
            (cut_crc (k - length payload) (omega arith))
    ]

    cut_length :
        (k : ℕ)
        → k < length payload + 8
        → replay_entry bincode crc32
            (magic ++ (version ++ take k (to_le_bytes 4 (length payload) ++ (payload ++ crc))))
          ≡ fail
    cut_length k h =
        let len = to_le_bytes 4 (length payload) in
        let l4 = length-to_le_bytes 4 (length payload) in
        elim (dec_lt k 4) [
          | yes p ↦
              torn_length (take k (len ++ (payload ++ crc)))
                (omega (arith, take-append_within k len (payload ++ crc) (omega (arith, l4))))
          | no p ↦
              rw (take-append_through k len (payload ++ crc) (omega (arith, l4)))
                (cut_payload (k - length len) (omega (arith, l4)))
        ]

    cut_entry :
        (k : ℕ)
        → k < length payload + 14
        → replay_entry bincode crc32
            (take k (magic ++ (version ++ (to_le_bytes 4 (length payload) ++ (payload ++ crc)))))
          ≡ torn_round k
    cut_entry k h =
        let rest = to_le_bytes 4 (length payload) ++ (payload ++ crc) in
        let m4 = length-to_le_bytes 4 wal_magic in
        let v2 = length-to_le_bytes 2 wal_version in
        let j = k - length magic in
        elim (dec_lt k 4) [
          | yes p ↦
              torn_magic (take k (magic ++ (version ++ rest)))
                (omega (arith, take-append_within k magic (version ++ rest) (omega (arith, m4))))
              ∙ torn_round_early k (omega arith)
          | no p ↦
              rw (take-append_through k magic (version ++ rest) (omega (arith, m4)))
                (elim (dec_lt j 2) [
                  | yes q ↦
                      torn_version (take j (version ++ rest))
                        (omega (arith, take-append_within j version rest (omega (arith, v2))))
                      ∙ torn_round_early k (omega (arith, m4))
                  | no q ↦ rw (take-append_through j version rest (omega (arith, v2))) (
                      cut_length (j - length version) (omega (arith, m4, v2))
                      ∙ torn_round_late k (omega (arith, m4)))
                ])
        ]

  -- A proper prefix of an entry ends the loop: without an error if it ends before the length, and
  -- with one from there on.
  pub replay_entry_torn :
      (payload : Bytes) (k : ℕ)
      → length payload < 2 ^ 32
      → k < length payload + 14
      → replay_entry bincode crc32 (take k (entry_bytes crc32 payload)) ≡ torn_round k
  unfolding entry_bytes
  replay_entry_torn payload k h below =
      let crc = crc32 (version ++ (to_le_bytes 4 (length payload) ++ payload)) in
      cut_entry payload (to_le_bytes 4 crc) h (length-to_le_bytes 4 crc) k below
