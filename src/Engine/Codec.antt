-- ===== src/Engine/Codec.antt =====
-- The libraries that the engine calls, as parameters: the serialiser (bincode), the compressor
-- (lz4), the checksum (crc32fast) the hash of the Bloom filters (`DefaultHasher` of std), and the
-- times that chrono can represent. A failure is `none`.
use lo_ra_db.Prelude.{ℕ, Bool, ◌<◌, ◌^◌, ◌≡◌, Option, some, length}
use lo_ra_db.Prelude.Int.{ℤ}
use lo_ra_db.Model.Text.{Text}
use lo_ra_db.Model.Frames.{Frame}
use lo_ra_db.Engine.Bincode.{Bincode}
use lo_ra_db.Engine.Bytes.{Bytes}
use lo_ra_db.Engine.Bloom.{BloomFilter}
use lo_ra_db.Engine.Memtable.Keys.{MemtableKey}

pub record Formats : Type 0 where
  pub bincode : Bincode
  -- `serialize(key)`, `serialize(bloom_filter)` and their inverses.
  pub serialize_key : MemtableKey → Option Bytes
  pub deserialize_key : Bytes → Option MemtableKey
  pub serialize_bloom : BloomFilter → Option Bytes
  pub deserialize_bloom : Bytes → Option BloomFilter
  pub compress : Bytes → Option Bytes
  pub decompress : Bytes → Option Bytes
  pub crc32 : Bytes → ℕ
  -- Whether `DateTime::from_timestamp_micros` has a time for the microseconds.
  pub is_timestamp : ℤ → Bool
  -- The hash of a text under a seed (`DefaultHasher`).
  pub hash : Text → ℕ → ℕ
  -- The sizes of `BloomFilter::new(10_000, 0.01)`, computed in floating point.
  pub num_bits : ℕ
  pub num_hash_functions : ℕ

-- What the engine relies on: keys, filters and compressed bytes read back as they were written, a
-- serialised frame can be read, though not always as the same frame, the checksum is a 32-bit word, and
-- the size of a serialised filter depends only on its number of bits, and is below 4 GiB.
pub record FormatLaws (x : Formats) : Type 0 where
  pub frame_decodes :
      (f : Frame) (p : Bytes)
      → x.bincode.serialize f ≡ some p
      → (g : Frame) × (x.bincode.deserialize p ≡ some g)
  pub key_round_trip :
      (k : MemtableKey) (p : Bytes) → x.serialize_key k ≡ some p → x.deserialize_key p ≡ some k
  pub bloom_round_trip :
      (b : BloomFilter) (p : Bytes) → x.serialize_bloom b ≡ some p → x.deserialize_bloom p ≡ some b
  pub decompress-compress : (p c : Bytes) → x.compress p ≡ some c → x.decompress c ≡ some p
  pub word : (p : Bytes) → x.crc32 p < 2 ^ 32
  pub bloom_size :
      (b c : BloomFilter) (p q : Bytes)
      → length b.bits ≡ length c.bits
      → x.serialize_bloom b ≡ some p
      → x.serialize_bloom c ≡ some q
      → length p ≡ length q
  pub bloom_serializes :
      (b : BloomFilter)
      → length b.bits ≡ x.num_bits
      → (p : Bytes) × (x.serialize_bloom b ≡ some p) × (length p < 2 ^ 32)
  pub some_bits : 0 < x.num_bits
