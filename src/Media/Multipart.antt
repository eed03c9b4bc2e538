-- ===== src/Media/Multipart.antt =====
-- packages/media/src/multipart.ts: records are packed into the parts of an upload. The packer's
-- private fields are a record, and a call gives the next one beside what it returns or throws.
-- SHA-256 is a parameter.
pub mod Filling
pub mod Flushing
pub mod Packing
pub mod Packed
pub mod Uploads
mod Tests
use understandproof.Base.{
  ℕ, zero, suc, ◌+◌, ◌-◌, ◌*◌, ◌/◌, min, Bool, true, false, not, ◌&&◌, ◌||◌, List, [], ◌∷◌, ◌++◌,
  Option, none, some, Text, Outcome, ok, throw, throw_if, ◌>>=◌, ◌>>◌, if◌then◌else◌, length, drop,
  take, replicate, leb, ltb, nat_eqb,
}
use understandproof.Domain.Primitives.{is_sha256}
use understandproof.Media.Protocol.{
  RecordingErrorCode, invalid_record, limit_exceeded, multipart_mismatch, Protocol,
  max_encrypted_buffer_bytes, max_multipart_parts, max_recording_chunks, max_recording_object_bytes,
  multipart_target_bytes, s3_minimum_nonfinal_part_bytes, max_uint32,
}
use understandproof.Media.Bytes.{Bytes, slice}
use understandproof.Media.Records.{ChunkRecord, parse_chunk_record}

-- What a call throws: a protocol error, or the schema library's.
pub data PartFailure : Type 0 where
  refused : RecordingErrorCode → PartFailure
  schema_error : PartFailure

abbrev pub refuse_if : Bool → RecordingErrorCode → Outcome PartFailure (Unit {0})
refuse_if bad code = throw_if bad (refused code)

abbrev pub lifted : {A : Type 0} → Protocol A → Outcome PartFailure A
lifted (ok a) = ok a
lifted (throw code) = throw (refused code)

-- A part with its bytes.
pub record Part : Type 0 where
  pub part_number : ℕ
  pub first_chunk_index : ℕ
  pub last_chunk_index : ℕ
  pub byte_length : ℕ
  pub sha256 : Text
  pub bytes : Bytes

unfoldable pub is_manifest_part : Part → Bool
is_manifest_part part =
    leb 1 part.part_number
    && leb part.part_number max_multipart_parts
    && leb part.first_chunk_index max_uint32
    && leb part.last_chunk_index max_uint32
    && leb 1 part.byte_length
    && leb part.byte_length max_recording_object_bytes
    && is_sha256 part.sha256

pub record Segment : Type 0 where
  pub chunk_index : ℕ
  pub bytes : Bytes
  pub offset : ℕ

pub record Packer : Type 0 where
  pub pending : List Segment
  pub pending_bytes : ℕ
  pub chunk_count : ℕ
  pub part_count : ℕ
  pub object_bytes : ℕ
  pub finished : Bool

abbrev pub new_packer : Packer
new_packer = record {
  pending = [];
  pending_bytes = 0;
  chunk_count = 0;
  part_count = 0;
  object_bytes = 0;
  finished = false;
}

abbrev pub Step : Type 0 → Type 0
Step A = Packer × Outcome PartFailure A

-- `bytes.fill(0, from, from + count)`
unfoldable pub wipe : ℕ → ℕ → Bytes → Bytes
wipe from count bytes = take from bytes ++ replicate count 0 ++ drop (from + count) bytes

unfoldable pub advance : ℕ → Segment → Segment
advance taken s = record s { bytes = wipe s.offset taken s.bytes; offset = s.offset + taken }

pub record Filled : Type 0 where
  pub pending : List Segment
  pub output : Bytes
  pub last_chunk_index : ℕ
  pub complete : Bool

-- The loop that fills a part, with the number of bytes that it still needs. A segment that is not
-- used up has given all of them, which ends the loop.
unfoldable pub fill : ℕ → List Segment → Bytes → ℕ → Filled
fill zero pending output last = record {
  pending = pending;
  output = output;
  last_chunk_index = last;
  complete = true;
}
fill (suc needed) [] output last = record {
  pending = [];
  output = output;
  last_chunk_index = last;
  complete = false;
}
fill (suc needed) (s ∷ rest) output last =
    let taken = min (length s.bytes - s.offset) (suc needed) in
    let output = output ++ slice s.offset (s.offset + taken) s.bytes in
    let next = fill (suc needed - taken) rest output s.chunk_index in
    if nat_eqb (s.offset + taken) (length s.bytes) then next else record {
      pending = advance taken s ∷ rest;
      output = output;
      last_chunk_index = s.chunk_index;
      complete = true;
    }

abbrev pub first_index : List Segment → ℕ
first_index [] = 0
first_index (s ∷ rest) = s.chunk_index

abbrev pub no_segments : List Segment → Bool
no_segments [] = true
no_segments (s ∷ rest) = false

unfoldable pub check_flush : Packer → ℕ → Bool → Outcome PartFailure (Unit {0})
check_flush p byte_length final_part = do
  refuse_if (no_segments p.pending || ltb byte_length 1 || ltb p.pending_bytes byte_length)
      invalid_record
  refuse_if
      (ltb max_encrypted_buffer_bytes byte_length
        || not final_part
          && (ltb byte_length s3_minimum_nonfinal_part_bytes
              || not (nat_eqb byte_length multipart_target_bytes)))
      limit_exceeded
  refuse_if (leb max_multipart_parts p.part_count) limit_exceeded

unfoldable pub check_push : Packer → Bytes → Outcome PartFailure ChunkRecord
check_push p record_bytes = do
  refuse_if p.finished invalid_record
  refuse_if (leb max_recording_chunks p.chunk_count) limit_exceeded
  found ← lifted (parse_chunk_record record_bytes)
  refuse_if (not (nat_eqb found.chunk_index p.chunk_count)) invalid_record
  refuse_if (ltb max_recording_object_bytes (p.object_bytes + length found.bytes)) limit_exceeded
  refuse_if (ltb max_encrypted_buffer_bytes (p.pending_bytes + length found.bytes)) limit_exceeded
  ok found

unfoldable pub enqueue : ChunkRecord → Packer → Packer
enqueue found p = record p {
  pending =
      p.pending ++ record { chunk_index = found.chunk_index; bytes = found.bytes; offset = 0 } ∷ [];
  pending_bytes = p.pending_bytes + length found.bytes;
  object_bytes = p.object_bytes + length found.bytes;
  chunk_count = p.chunk_count + 1;
}

module _ (sha256_hex : Bytes → Text) where
  unfoldable pub new_part : Packer → Filled → Part
  new_part p filled = record {
    part_number = p.part_count + 1;
    first_chunk_index = first_index p.pending;
    last_chunk_index = filled.last_chunk_index;
    byte_length = length filled.output;
    sha256 = sha256_hex filled.output;
    bytes = filled.output;
  }

  -- What follows the loop in `#flush`; `p` is the packer before it.
  unfoldable pub close_part : Packer → ℕ → Filled → Step Part
  close_part p byte_length filled =
      if not filled.complete
      then (record p { pending = filled.pending }, throw (refused invalid_record))
      else if is_manifest_part (new_part p filled)
      then (
        record p {
          pending = filled.pending;
          pending_bytes = p.pending_bytes - byte_length;
          part_count = p.part_count + 1;
        },
        ok (new_part p filled),
      )
      else (
        record p { pending = filled.pending; pending_bytes = p.pending_bytes - byte_length },
        throw schema_error,
      )

  unfoldable pub flush : Packer → ℕ → Bool → Step Part
  flush p byte_length final_part = elim (check_flush p byte_length final_part) [
    | throw e ↦ (p, throw e)
    | ok _ ↦ close_part p byte_length (fill byte_length p.pending [] (first_index p.pending))
  ]

  -- The loop of `push`.
  unfoldable pub flush_ready : ℕ → Packer → List Part → Option (Step (List Part))
  flush_ready zero p ready = none
  flush_ready (suc fuel) p ready = elim (leb multipart_target_bytes p.pending_bytes) [
    | false ↦ some (p, ok ready)
    | true ↦
        let (next, result) = flush p multipart_target_bytes false in
        elim result [
          | throw e ↦ some (next, throw e)
          | ok part ↦ flush_ready fuel next (ready ++ part ∷ [])
        ]
  ]

  -- Each round of the loop takes a whole part, so that many rounds and one more are enough fuel.
  unfoldable pub push : Packer → Bytes → Option (Step (List Part))
  push p record_bytes = elim (check_push p record_bytes) [
    | throw e ↦ some (p, throw e)
    | ok found ↦
        let next = enqueue found p in
        flush_ready (suc (next.pending_bytes / multipart_target_bytes)) next []
  ]

  unfoldable pub finish : Packer → Step (List Part)
  finish p =
      if p.finished
      then (p, throw (refused invalid_record))
      else let closed : Packer = record p { finished = true } in
        if nat_eqb p.chunk_count 0
        then (closed, throw (refused limit_exceeded))
        else elim (no_segments p.pending) [
          | true ↦ (closed, ok [])
          | false ↦
              let (next, result) = flush closed p.pending_bytes true in
              elim result [ throw e ↦ (next, throw e) | ok part ↦ (next, ok (part ∷ [])) ]
        ]

  -- The loop of `packChunkRecords`, and the call of `finish` after it.
  unfoldable pub pack_all :
      Packer → List Part → List Bytes → Option (Outcome PartFailure (List Part))
  pack_all p result [] = elim ((finish p).1) [
    | throw e ↦ some (throw e)
    | ok parts ↦ some (ok (result ++ parts))
  ]
  pack_all p result (bytes ∷ rest) = elim (push p bytes) [
    | none ↦ none
    | some (next, throw e) ↦ some (throw e)
    | some (next, ok parts) ↦ pack_all next (result ++ parts) rest
  ]

  unfoldable pub pack_chunk_records : List Bytes → Option (Outcome PartFailure (List Part))
  pack_chunk_records records =
      if ltb (length records) 1 || ltb max_recording_chunks (length records)
      then some (throw (refused limit_exceeded))
      else pack_all new_packer [] records
