-- ===== src/Media/Multipart/Tests.antt =====
-- Runs of the packer, and the theorems at them.
use understandproof.Base.{
  ℕ, ◌≡◌, refl, true, List, [], ◌∷◌, ◌++◌, some, Text, replicate, nat, ok, throw, Outcome, concat,
}
use understandproof.Domain.Primitives.{is_sha256}
use understandproof.Media.Protocol.{invalid_record}
use understandproof.Media.Bytes.{
  Bytes, bytes_equal, concat_bytes, uint16_bytes, uint32_bytes, get_uint8, get_uint16, get_uint32,
}
use understandproof.Media.Records.{
  build_chunk_nonce, ChunkInput, validate_record_fields, record_header, build_chunk_record,
  read_header, cut_record, parse_header, parse_record_at, parse_chunk_record,
}
use understandproof.Media.Multipart.{
  Part, PartFailure, refused, is_manifest_part, wipe, advance, fill, check_flush, check_push,
  enqueue, new_part, close_part, flush, flush_ready, push, finish, pack_all, pack_chunk_records,
}
use understandproof.Media.Multipart.Uploads.{
  IsPackable, pack_chunk_records_total, pack_chunk_records_sound, pack_chunk_records_complete,
}
use understandproof.Media.Multipart.Packed.{IsUpload}

runs : Unit {0}
unfolding bytes_equal concat_bytes uint16_bytes uint32_bytes get_uint8 get_uint16 get_uint32
    build_chunk_nonce validate_record_fields record_header build_chunk_record read_header cut_record
    parse_header parse_record_at parse_chunk_record is_sha256 is_manifest_part wipe advance fill
    check_flush check_push enqueue new_part close_part flush flush_ready push finish pack_all
    pack_chunk_records
runs = tt

-- Some function that gives 64 hexadecimal digits.
abbrev constant_hash : Bytes → Text
constant_hash bytes = replicate 64 b'0'

constant_hash-is_sha256 : (bytes : Bytes) → is_sha256 (constant_hash bytes) ≡ true
unfolding is_sha256
constant_hash-is_sha256 bytes = refl

abbrev input : ℕ → ChunkInput
input index = record {
  chunk_index = nat index;
  nonce = (1 ∷ 2 ∷ 3 ∷ 4 ∷ 5 ∷ 6 ∷ 7 ∷ 8 ∷ []) ++ uint32_bytes index;
  plaintext_length = nat 1;
  sealed = 9 ∷ replicate 16 0;
}

abbrev block : ℕ → Bytes
block index = record_header (input index) ++ 9 ∷ replicate 16 0

abbrev blocks : List Bytes
blocks = block 0 ∷ block 1 ∷ []

abbrev only_part : Part
only_part = record {
  part_number = 1;
  first_chunk_index = 0;
  last_chunk_index = 1;
  byte_length = 98;
  sha256 = constant_hash [];
  bytes = concat blocks;
}

packs : pack_chunk_records constant_hash blocks ≡ some (ok (only_part ∷ []))
unfolding runs
packs = refl

-- A record that is missing is noticed.
gap_is_refused :
    pack_chunk_records constant_hash (block 0 ∷ block 2 ∷ [])
    ≡ some (throw (refused invalid_record))
unfolding runs
gap_is_refused = refl

pack_chunk_records_total_example :
    (result : Outcome PartFailure (List Part)) × (pack_chunk_records constant_hash blocks
      ≡ some result)
pack_chunk_records_total_example =
    pack_chunk_records_total constant_hash constant_hash-is_sha256 blocks

pack_chunk_records_sound_example :
    IsPackable blocks × IsUpload constant_hash (concat blocks) (only_part ∷ [])
pack_chunk_records_sound_example =
    pack_chunk_records_sound constant_hash constant_hash-is_sha256 blocks (only_part ∷ []) packs

pack_chunk_records_complete_example :
    (parts : List Part) × (pack_chunk_records constant_hash blocks ≡ some (ok parts))
pack_chunk_records_complete_example =
    pack_chunk_records_complete constant_hash constant_hash-is_sha256 blocks
      pack_chunk_records_sound_example.0
