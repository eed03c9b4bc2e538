-- ===== src/Media/Records.antt =====
-- packages/media/src/records.ts and nonce.ts: the SPC1 chunk record, built and parsed.
pub mod RoundTrip
pub mod Sequence
pub mod Bounds
mod Tests
use understandproof.Base.{
  ℕ, zero, suc, ◌+◌, ◌-◌, Bool, true, false, not, ◌&&◌, ◌||◌, List, [], ◌∷◌, ◌++◌, Option, none,
  some, Number, nat, nat_value, is_int_between, Outcome, ok, throw, ◌>>=◌, ◌>>◌, throw_if,
  if◌then◌else◌, leb, ltb, nat_eqb, length, take, drop,
}
use understandproof.Media.Protocol.{
  RecordingErrorCode, invalid_nonce, invalid_record, limit_exceeded, Protocol, require,
  record_magic, record_version, record_header_bytes, aes_gcm_tag_bytes, nonce_prefix_bytes,
  max_plaintext_chunk_bytes, max_recording_chunks, max_recording_object_bytes, max_uint32,
}
use understandproof.Media.Bytes.{
  Bytes, slice, concat_bytes, bytes_equal, uint16_bytes, uint32_bytes, get_uint8, get_uint16,
  get_uint32,
}

unfoldable pub build_chunk_nonce : Bytes → Number → Protocol Bytes
build_chunk_nonce prefix chunk_index = do
  require (nat_eqb (length prefix) nonce_prefix_bytes) invalid_nonce
  require (is_int_between 0 max_uint32 chunk_index) invalid_nonce
  ok (prefix ++ uint32_bytes (nat_value chunk_index))

pub record ChunkInput : Type 0 where
  pub chunk_index : Number
  pub nonce : Bytes
  pub plaintext_length : Number
  pub sealed : Bytes

unfoldable pub validate_record_fields : ChunkInput → Protocol (Unit {0})
validate_record_fields input = do
  require (is_int_between 0 max_uint32 input.chunk_index) invalid_record
  require (nat_eqb (length input.nonce) 12) invalid_record
  expected ← build_chunk_nonce (slice 0 8 input.nonce) input.chunk_index
  require (bytes_equal input.nonce expected) invalid_nonce
  require (is_int_between 1 max_plaintext_chunk_bytes input.plaintext_length) limit_exceeded
  require (nat_eqb (length input.sealed) (nat_value input.plaintext_length + aes_gcm_tag_bytes))
      invalid_record

-- The 32 bytes that stand before the sealed chunk.
unfoldable pub record_header : ChunkInput → Bytes
record_header input =
    record_magic
    ++ record_version ∷ 0 ∷ []
    ++ uint16_bytes record_header_bytes
    ++ uint32_bytes (nat_value input.chunk_index)
    ++ input.nonce
    ++ uint32_bytes (nat_value input.plaintext_length)
    ++ uint32_bytes (length input.sealed)

unfoldable pub build_chunk_record : ChunkInput → Protocol Bytes
build_chunk_record input = do
  validate_record_fields input
  ok (concat_bytes (record_header input ∷ input.sealed ∷ []))

pub record ChunkRecord : Type 0 where
  pub chunk_index : ℕ
  pub nonce : Bytes
  pub plaintext_length : ℕ
  pub sealed_length : ℕ
  pub sealed : Bytes
  pub bytes : Bytes

pub record HeaderFields : Type 0 where
  pub chunk_index : ℕ
  pub nonce : Bytes
  pub plaintext_length : ℕ
  pub sealed_length : ℕ

-- The part of `parseRecordAt` that reads and checks the header.
unfoldable pub read_header : Bytes → Protocol HeaderFields
read_header header = do
  require (bytes_equal (slice 0 4 header) record_magic) invalid_record
  require
      (nat_eqb (get_uint8 header 4) record_version
        && nat_eqb (get_uint8 header 5) 0
        && nat_eqb (get_uint16 header 6) record_header_bytes)
      invalid_record
  let chunk_index = get_uint32 header 8
  let nonce = slice 12 24 header
  expected ← build_chunk_nonce (slice 0 8 nonce) (nat chunk_index)
  require (bytes_equal nonce expected) invalid_nonce
  let plaintext_length = get_uint32 header 24
  let sealed_length = get_uint32 header 28
  require
      (leb 1 plaintext_length
        && leb plaintext_length max_plaintext_chunk_bytes
        && nat_eqb sealed_length (plaintext_length + aes_gcm_tag_bytes))
      invalid_record
  ok (record {
    chunk_index = chunk_index;
    nonce = nonce;
    plaintext_length = plaintext_length;
    sealed_length = sealed_length;
  })

-- The part of `parseRecordAt` that cuts the record out of the bytes from the offset on.
unfoldable pub cut_record : Bytes → HeaderFields → Protocol ChunkRecord
cut_record rest fields = do
  let record_length = record_header_bytes + fields.sealed_length
  require (leb record_length (length rest)) invalid_record
  let bytes = take record_length rest
  ok (record {
    chunk_index = fields.chunk_index;
    nonce = fields.nonce;
    plaintext_length = fields.plaintext_length;
    sealed_length = fields.sealed_length;
    sealed = drop record_header_bytes bytes;
    bytes = bytes;
  })

unfoldable pub parse_header : Bytes → Protocol ChunkRecord
parse_header rest = read_header (take record_header_bytes rest) >>= cut_record rest

unfoldable pub parse_record_at : Bytes → ℕ → Protocol ChunkRecord
parse_record_at bytes offset = do
  require (leb record_header_bytes (length bytes - offset)) invalid_record
  parse_header (drop offset bytes)

unfoldable pub parse_chunk_record : Bytes → Protocol ChunkRecord
parse_chunk_record bytes = do
  parsed ← parse_record_at bytes 0
  require (nat_eqb (length parsed.bytes) (length bytes)) invalid_record
  ok parsed
