-- ===== src/Tests/Formats.antt =====
-- Formats with which the engine runs: plain encodings of join accepts, keys and filters.
use lo_ra_db.Prelude.{
  ℕ, zero, suc, ◌+◌, ◌%◌, ◌^◌, ◌<◌, ◌≡◌, refl, sym, ◌∙◌, ap, Bool, true, false, Option, none, some,
  List, [], ◌∷◌, map, length, arith, some-injective,
}
use lo_ra_db.Prelude.Int.{ℤ, pos, negsuc}
use lo_ra_db.Model.Text.{Text}
use lo_ra_db.Model.Frames.{Frame, uplink, downlink, join_request, join_accept, status}
use lo_ra_db.Engine.Bincode.{Bincode}
use lo_ra_db.Engine.Codec.{Formats, FormatLaws}
use lo_ra_db.Engine.Bytes.{Bytes}
use lo_ra_db.Engine.Bloom.{BloomFilter}
use lo_ra_db.Engine.Memtable.Keys.{MemtableKey}

abbrev pub accept_at : Text → ℕ → Frame
accept_at eui n = join_accept (record {
  dev_eui = record { as_str = eui };
  accepted_at = record { nanos = pos n };
  dev_addr = [];
})

abbrev encode_accept : Text → ℤ → Text → Option Bytes
encode_accept eui (pos n) [] = some (n ∷ eui)
encode_accept eui (pos n) (c ∷ s) = none
encode_accept eui (negsuc n) s = none

abbrev encode_frame : Frame → Option Bytes
encode_frame (join_accept f) = encode_accept f.dev_eui.as_str f.accepted_at.nanos f.dev_addr
encode_frame (uplink f) = none
encode_frame (downlink f) = none
encode_frame (join_request f) = none
encode_frame (status f) = none

abbrev decode_frame : Bytes → Option Frame
decode_frame [] = none
decode_frame (n ∷ eui) = some (accept_at eui n)

abbrev encode_key : MemtableKey → Option Bytes
encode_key k = elim k.timestamp [
  | pos n ↦ some (0 ∷ n ∷ k.sequence ∷ k.dev_eui)
  | negsuc n ↦ some (1 ∷ n ∷ k.sequence ∷ k.dev_eui)
]

abbrev decode_key : Bytes → Option MemtableKey
decode_key [] = none
decode_key (s ∷ []) = none
decode_key (s ∷ n ∷ []) = none
decode_key (zero ∷ n ∷ q ∷ eui) = some (record { dev_eui = eui; timestamp = pos n; sequence = q })
decode_key (suc s ∷ n ∷ q ∷ eui) =
    some (record { dev_eui = eui; timestamp = negsuc n; sequence = q })

abbrev bit_code : Bool → ℕ
bit_code false = 0
bit_code true = 1

abbrev code_bit : ℕ → Bool
code_bit zero = false
code_bit (suc n) = true

abbrev encode_bloom : BloomFilter → Option Bytes
encode_bloom b = some (b.num_hash_functions ∷ b.num_bits ∷ map bit_code b.bits)

abbrev decode_bloom : Bytes → Option BloomFilter
decode_bloom [] = none
decode_bloom (k ∷ []) = none
decode_bloom (k ∷ n ∷ bits) =
    some (record { bits = map code_bit bits; num_hash_functions = k; num_bits = n })

abbrev pub toy_bincode : Bincode
toy_bincode = record {
  serialized_size = λ f. some 9;
  serialize = encode_frame;
  deserialize = decode_frame;
}

abbrev pub toy_crc32 : Bytes → ℕ
toy_crc32 b = (length b + 7) % 2 ^ 32

abbrev pub toy_formats : Formats
toy_formats = record {
  bincode = toy_bincode;
  serialize_key = encode_key;
  deserialize_key = decode_key;
  serialize_bloom = encode_bloom;
  deserialize_bloom = decode_bloom;
  compress = λ p. some p;
  decompress = λ p. some p;
  crc32 = toy_crc32;
  is_timestamp = λ t. true;
  hash = λ s n. length s + n;
  num_bits = 8;
  num_hash_functions = 2;
}

pub toy_word : (b : Bytes) → toy_crc32 b < 2 ^ 32
toy_word b = omega arith

decode-encode_accept :
    (f : Frame) (eui : Text) (t : ℤ) (addr : Text) (p : Bytes)
    → f
      ≡ join_accept (record {
        dev_eui = record { as_str = eui };
        accepted_at = record { nanos = t };
        dev_addr = addr;
      })
    → encode_accept eui t addr ≡ some p
    → decode_frame p ≡ some f
decode-encode_accept f eui (pos n) [] p e h =
    ap decode_frame (sym (some-injective _ _ h)) ∙ ap some (sym e)
decode-encode_accept f eui (pos n) (c ∷ s) p e h = cc
decode-encode_accept f eui (negsuc n) s p e h = cc

pub toy_round_trip :
    (f : Frame) (p : Bytes) → toy_bincode.serialize f ≡ some p → toy_bincode.deserialize p ≡ some f
toy_round_trip (join_accept f) p h =
    decode-encode_accept (join_accept f) f.dev_eui.as_str f.accepted_at.nanos f.dev_addr p refl h
toy_round_trip (uplink f) p h = cc
toy_round_trip (downlink f) p h = cc
toy_round_trip (join_request f) p h = cc
toy_round_trip (status f) p h = cc

decode-encode_key :
    (eui : Text) (t : ℤ) (q : ℕ) (p : Bytes)
    → encode_key (record { dev_eui = eui; timestamp = t; sequence = q }) ≡ some p
    → decode_key p ≡ some (record { dev_eui = eui; timestamp = t; sequence = q })
decode-encode_key eui (pos n) q p h = ap decode_key (sym (some-injective _ _ h))
decode-encode_key eui (negsuc n) q p h = ap decode_key (sym (some-injective _ _ h))

key_round_trip : (k : MemtableKey) (p : Bytes) → encode_key k ≡ some p → decode_key p ≡ some k
key_round_trip k p h = decode-encode_key k.dev_eui k.timestamp k.sequence p h

bits_round_trip : (l : List Bool) → map code_bit (map bit_code l) ≡ l
bits_round_trip [] = refl
bits_round_trip (false ∷ l) = ap (λ l. false ∷ l) (bits_round_trip l)
bits_round_trip (true ∷ l) = ap (λ l. true ∷ l) (bits_round_trip l)

bloom_round_trip : (b : BloomFilter) (p : Bytes) → encode_bloom b ≡ some p → decode_bloom p ≡ some b
bloom_round_trip b p h =
    ap decode_bloom (sym (some-injective _ _ h))
    ∙ ap
        (λ l.
          some
            (record { bits = l; num_hash_functions = b.num_hash_functions; num_bits = b.num_bits }))
        (bits_round_trip b.bits)

length-codes : (l : List Bool) → length (map bit_code l) ≡ length l
length-codes [] = refl
length-codes (b ∷ l) = ap suc (length-codes l)

pub toy_laws : FormatLaws toy_formats
toy_laws = record {
  frame_decodes = λ f p h. (f, toy_round_trip f p h);
  key_round_trip = key_round_trip;
  bloom_round_trip = bloom_round_trip;
  decompress-compress = λ p c h. sym h;
  word = toy_word;
  bloom_size = λ b c p q same hp hq. omega (
    arith,
    ap length (some-injective _ _ hp),
    ap length (some-injective _ _ hq),
    length-codes b.bits,
    length-codes c.bits,
    same,
  );
  bloom_serializes = λ b h. (
    b.num_hash_functions ∷ b.num_bits ∷ map bit_code b.bits,
    refl,
    omega (arith, length-codes b.bits, h),
  );
  some_bits = omega arith;
}
