-- ===== src/Media/Records/Sequence.antt =====
-- packages/media/src/records.ts: `parseChunkRecordSequence`. Its `while` loop takes fuel; `none` means
-- that the fuel ran out, which never happens.
pub mod Soundness
pub mod Completeness
pub mod Accepted
use understandproof.Base.{
  ℕ, zero, suc, ◌+◌, ◌-◌, Bool, true, false, not, List, [], ◌∷◌, ◌++◌, Option, none, some, Number,
  nat_value, is_int_between, Outcome, ok, throw, ◌>>=◌, ◌>>◌, throw_if, leb, ltb, nat_eqb, length,
  take,
}
use understandproof.Media.Protocol.{
  invalid_nonce, invalid_record, limit_exceeded, Protocol, require, max_recording_chunks,
  max_recording_object_bytes, max_uint32,
}
use understandproof.Media.Bytes.{Bytes, slice, bytes_equal}
use understandproof.Media.Records.{ChunkRecord, parse_record_at}

-- The variables of the loop.
pub record Scan : Type 0 where
  pub records : List ChunkRecord
  pub nonce_prefix : Option Bytes
  pub offset : ℕ
  pub expected_index : ℕ

abbrev pub prefix_or : Option Bytes → Bytes → Bytes
prefix_or none prefix = prefix
prefix_or (some prefix) _ = prefix

abbrev pub nonce_prefix_of : ChunkRecord → Bytes
nonce_prefix_of r = slice 0 8 r.nonce

-- One round of the loop.
unfoldable pub scan_record : Bytes → Scan → Protocol Scan
scan_record bytes s = do
  found ← parse_record_at bytes s.offset
  let prefix = prefix_or s.nonce_prefix (nonce_prefix_of found)
  require (nat_eqb found.chunk_index s.expected_index) invalid_record
  require (bytes_equal (nonce_prefix_of found) prefix) invalid_nonce
  let records = s.records ++ found ∷ []
  require (leb (length records) max_recording_chunks) limit_exceeded
  ok (record {
    records = records;
    nonce_prefix = some prefix;
    offset = s.offset + length found.bytes;
    expected_index = s.expected_index + 1;
  })

unfoldable pub scan_records : ℕ → Bytes → Scan → Option (Protocol (List ChunkRecord))
scan_records zero bytes s = none
scan_records (suc fuel) bytes s = elim (ltb s.offset (length bytes)) [
  | true ↦ elim (scan_record bytes s) [
    | ok next ↦ scan_records fuel bytes next
    | throw code ↦ some (throw code)
  ]
  | false ↦ some (ok s.records)
]

unfoldable pub check_nonempty : Protocol (List ChunkRecord) → Protocol (List ChunkRecord)
check_nonempty result = do
  records ← result
  require (leb 1 (length records)) invalid_record
  ok records

abbrev pub start_scan : ℕ → Scan
start_scan first = record { records = []; nonce_prefix = none; offset = 0; expected_index = first }

unfoldable pub check_sequence_input : Bytes → Number → Protocol (Unit {0})
check_sequence_input bytes first = do
  require (is_int_between 0 max_uint32 first) invalid_record
  require (leb (length bytes) max_recording_object_bytes) limit_exceeded

-- The checks before the loop, and the loop with fuel for a round at each byte and one more.
unfoldable pub parse_chunk_record_sequence : Bytes → Number → Option (Protocol (List ChunkRecord))
parse_chunk_record_sequence bytes first = elim (check_sequence_input bytes first) [
  | throw code ↦ some (throw code)
  | ok _ ↦ elim (scan_records (suc (length bytes)) bytes (start_scan (nat_value first))) [
    | none ↦ none
    | some result ↦ some (check_nonempty result)
  ]
]
