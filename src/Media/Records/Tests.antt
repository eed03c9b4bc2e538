-- ===== src/Media/Records/Tests.antt =====
-- Runs of the record functions, and the theorems at them.
use understandproof.Base.{
  ℕ, ◌≡◌, refl, List, [], ◌∷◌, ◌++◌, some, nat, ok, arith, concat, replicate, throw,
}
use understandproof.Media.Protocol.{Protocol, invalid_record}
use understandproof.Media.Bytes.{
  Bytes, bytes_equal, concat_bytes, uint16_bytes, uint32_bytes, get_uint8, get_uint16, get_uint32,
}
use understandproof.Media.Records.{
  build_chunk_nonce, ChunkInput, validate_record_fields, record_header, build_chunk_record,
  ChunkRecord, read_header, cut_record, parse_header, parse_record_at, parse_chunk_record,
}
use understandproof.Media.Records.RoundTrip.{built, parse-build_chunk_record}
use understandproof.Media.Records.Sequence.{
  scan_record, scan_records, check_nonempty, check_sequence_input, parse_chunk_record_sequence,
}
use understandproof.Media.Records.Sequence.Accepted.{
  IsSequence, parse_chunk_record_sequence_total, parse_chunk_record_sequence_sound,
}
use understandproof.Media.Records.Sequence.Completeness.{
  built_records, parse_chunk_record_sequence-built,
}

runs : Unit {0}
unfolding bytes_equal concat_bytes uint16_bytes uint32_bytes get_uint8 get_uint16 get_uint32
    build_chunk_nonce validate_record_fields record_header build_chunk_record read_header cut_record
    parse_header parse_record_at parse_chunk_record scan_record scan_records check_nonempty
    check_sequence_input parse_chunk_record_sequence
runs = tt

abbrev prefix : Bytes
prefix = 1 ∷ 2 ∷ 3 ∷ 4 ∷ 5 ∷ 6 ∷ 7 ∷ 8 ∷ []

abbrev sealed_chunk : Bytes
sealed_chunk = 9 ∷ replicate 16 0

abbrev input : ℕ → ChunkInput
input index = record {
  chunk_index = nat index;
  nonce = prefix ++ uint32_bytes index;
  plaintext_length = nat 1;
  sealed = sealed_chunk;
}

abbrev block : ℕ → Bytes
block index = record_header (input index) ++ sealed_chunk

builds :
    (build_chunk_record (input 0) ≡ ok (block 0)) × (build_chunk_record (input 1) ≡ ok (block 1))
unfolding runs
builds = (refl, refl)

parse-build_chunk_record_example : parse_chunk_record (block 1) ≡ ok (built (input 1) (block 1))
parse-build_chunk_record_example = parse-build_chunk_record (input 1) (block 1) builds.1

abbrev inputs : List ChunkInput
inputs = input 0 ∷ input 1 ∷ []

abbrev blocks : List Bytes
blocks = block 0 ∷ block 1 ∷ []

parse_chunk_record_sequence-built_example :
    parse_chunk_record_sequence (concat blocks) (nat 0) ≡ some (ok (built_records inputs blocks))
unfolding runs
parse_chunk_record_sequence-built_example =
    parse_chunk_record_sequence-built prefix 0 inputs blocks
      ((refl, refl, refl, (refl, refl, refl, refl))) (omega arith) (omega arith) (omega arith)

parse_chunk_record_sequence_total_example :
    (result : Protocol (List ChunkRecord)) × (parse_chunk_record_sequence (block 0) (nat 0)
      ≡ some result)
parse_chunk_record_sequence_total_example = parse_chunk_record_sequence_total (block 0) (nat 0)

parse_chunk_record_sequence_sound_example :
    IsSequence (concat blocks) 0 (built_records inputs blocks)
parse_chunk_record_sequence_sound_example =
    parse_chunk_record_sequence_sound (concat blocks) 0 (built_records inputs blocks)
      parse_chunk_record_sequence-built_example

-- A record that is missing is noticed.
gap_is_refused :
    parse_chunk_record_sequence (concat (block 0 ∷ block 2 ∷ [])) (nat 0)
    ≡ some (throw invalid_record)
unfolding runs
gap_is_refused = refl
