-- ===== src/Media/Manifest/Schema.antt =====
-- packages/media/src/schemas.ts: `RecordingManifestSchema`. What the schema library throws for a value
-- that is refused is one error, whichever checks it fails.
pub mod Layout
pub mod Accepted
use understandproof.Base.{
  ℕ, zero, suc, ◌+◌, Bool, true, false, not, ◌&&◌, ◌||◌, List, [], ◌∷◌, ◌++◌, Option, none, some,
  nat, Text, text_eq, text, length, every, includes, get_elem?, get_or, drop, leb, ltb, nat_eqb,
  ◌==◌, Outcome, ok, throw, throw_if, ◌>>=◌, ◌>>◌, if◌then◌else◌,
}
use understandproof.Domain.Primitives.{is_sha256}
use understandproof.Media.Protocol.{
  Protocol, aes_gcm_tag_bytes, nonce_prefix_bytes, record_header_bytes, max_plaintext_chunk_bytes,
  max_multipart_parts, max_recording_chunks, max_recording_object_bytes, max_recording_duration_ms,
  max_uint32, multipart_target_bytes, s3_minimum_nonfinal_part_bytes,
}
use understandproof.Media.Bytes.{Bytes}
use understandproof.Media.Encoding.{encode_base64url, decode_base64url}
use understandproof.Media.Records.{build_chunk_nonce}
use understandproof.Media.Intervals.{RawInterval, is_empty, parse_intervals}
use understandproof.Media.Canonical.{
  MediaFailure, schema_error, is_canonical_uuid, is_recording_binding, recording_codec,
  has_decoded_length,
}
use understandproof.Media.Manifest.{
  ManifestChunk, ManifestPart, ManifestWrapping, RecordingManifest,
}

abbrev pub wrapping_algorithm : Text
wrapping_algorithm = text "RSA-OAEP-256"

abbrev is_alphanumeric : ℕ → Bool
is_alphanumeric c = leb b'A' c && leb c b'Z' || leb b'a' c && leb c b'z' || leb b'0' c && leb c b'9'

abbrev is_key_id_unit : ℕ → Bool
is_key_id_unit c =
    is_alphanumeric c
    || nat_eqb c b'.'
    || nat_eqb c b'_'
    || nat_eqb c b':'
    || nat_eqb c b'/'
    || nat_eqb c b'-'

-- `/^[A-Za-z0-9][A-Za-z0-9._:/-]{0,127}$/`
unfoldable pub is_key_id : Text → Bool
is_key_id [] = false
is_key_id (c ∷ rest) = is_alphanumeric c && every is_key_id_unit rest && leb (length rest) 127

unfoldable pub is_manifest_chunk : ManifestChunk → Bool
is_manifest_chunk c =
    leb c.index max_uint32
    && has_decoded_length c.nonce 12
    && leb 1 c.plaintext_bytes
    && leb c.plaintext_bytes max_plaintext_chunk_bytes
    && leb (aes_gcm_tag_bytes + 1) c.sealed_bytes
    && leb c.sealed_bytes (max_plaintext_chunk_bytes + aes_gcm_tag_bytes)
    && is_sha256 c.ciphertext_sha256

unfoldable pub is_part_entry : ManifestPart → Bool
is_part_entry p =
    leb 1 p.part_number
    && leb p.part_number max_multipart_parts
    && leb p.first_chunk_index max_uint32
    && leb p.last_chunk_index max_uint32
    && leb 1 p.byte_length
    && leb p.byte_length max_recording_object_bytes
    && is_sha256 p.sha256

unfoldable pub is_wrapping : ManifestWrapping → Bool
is_wrapping w =
    is_canonical_uuid w.material_id
    && is_key_id w.key_id
    && w.algorithm == wrapping_algorithm
    && is_sha256 w.wrapped_key_sha256

-- The issues that the `superRefine` of the manifest adds, with the index of the chunk or the part.
pub data ManifestIssue : Type 0 where
  chunk_index_gap sealed_length_mismatch nonce_mismatch nonce_repeated : ℕ → ManifestIssue
  plaintext_total_mismatch object_total_mismatch part_total_mismatch : ManifestIssue
  part_number_gap part_range_mismatch part_size_mismatch : ℕ → ManifestIssue

abbrev pub add_issue_if : Bool → ManifestIssue → List ManifestIssue
add_issue_if true issue = issue ∷ []
add_issue_if false issue = []

-- `encodeBase64Url(buildChunkNonce(prefix, chunk.index))` is the chunk's nonce.
abbrev is_nonce : Text → Protocol Bytes → Bool
is_nonce nonce (ok bytes) = nonce == encode_base64url bytes
is_nonce nonce (throw code) = false

unfoldable pub is_expected_nonce : Bytes → ManifestChunk → Bool
is_expected_nonce prefix c = is_nonce c.nonce (build_chunk_nonce prefix (nat c.index))

-- The loop over the chunks, with the index and the nonces before.
unfoldable pub chunk_issues : Bytes → ℕ → List Text → List ManifestChunk → List ManifestIssue
chunk_issues prefix index nonces [] = []
chunk_issues prefix index nonces (c ∷ rest) =
    add_issue_if (not (nat_eqb c.index index)) (chunk_index_gap index)
    ++ (add_issue_if (not (nat_eqb c.sealed_bytes (c.plaintext_bytes + aes_gcm_tag_bytes)))
          (sealed_length_mismatch index)
        ++ (add_issue_if (not (is_expected_nonce prefix c)) (nonce_mismatch index)
            ++ (add_issue_if (includes nonces c.nonce) (nonce_repeated index)
                ++ chunk_issues prefix (suc index) (c.nonce ∷ nonces) rest)))

-- What the loop adds up: `plaintextTotal` and `objectTotal`.
unfoldable pub plaintext_total : List ManifestChunk → ℕ
plaintext_total [] = 0
plaintext_total (c ∷ rest) = c.plaintext_bytes + plaintext_total rest

-- `chunkOffsets`: the list that the loop pushes the object's size to, chunk by chunk.
unfoldable pub chunk_offsets : ℕ → List ManifestChunk → List ℕ
chunk_offsets object_total [] = object_total ∷ []
chunk_offsets object_total (c ∷ rest) =
    object_total ∷ chunk_offsets (object_total + (record_header_bytes + c.sealed_bytes)) rest

-- `chunkOffsets.findIndex(...)` from an index on.
unfoldable pub first_chunk_after : ℕ → ℕ → List ℕ → ℕ → Option ℕ
first_chunk_after count index [] part_start = none
first_chunk_after count index (offset ∷ rest) part_start =
    let later = first_chunk_after count (suc index) rest part_start in
    if ltb index count && ltb part_start (get_or rest 0 offset) then some index else later

-- The loop for the last chunk: the chunks that are left, the index, the offsets from there on.
unfoldable pub last_chunk_before : ℕ → ℕ → List ℕ → ℕ → Option ℕ → Option ℕ
last_chunk_before zero index offsets part_end last = last
last_chunk_before (suc left) index [] part_end last =
    last_chunk_before left (suc index) [] part_end last
last_chunk_before (suc left) index (offset ∷ rest) part_end last =
    last_chunk_before left (suc index) rest part_end
      (if ltb offset part_end then some index else last)

abbrev is_range : ManifestPart → Option ℕ → Option ℕ → Bool
is_range p none last = false
is_range p (some first) none = false
is_range p (some first) (some last) =
    not (ltb last first) && nat_eqb p.first_chunk_index first && nat_eqb p.last_chunk_index last

unfoldable pub has_chunk_range : List ManifestChunk → ℕ → ℕ → ManifestPart → Bool
has_chunk_range chunks object_total part_start p =
    let offsets = chunk_offsets 0 chunks in
    let part_end = part_start + p.byte_length in
    not (ltb object_total part_end)
    && is_range p (first_chunk_after (length chunks) 0 offsets part_start)
        (last_chunk_before (length chunks) 0 offsets part_end none)

-- The loop over the parts, with the index and the bytes of the parts before.
unfoldable pub part_issues : List ManifestChunk → ℕ → ℕ → ℕ → List ManifestPart → List ManifestIssue
part_issues chunks object_total index part_start [] = []
part_issues chunks object_total index part_start (p ∷ rest) =
    add_issue_if (not (nat_eqb p.part_number (index + 1))) (part_number_gap index)
    ++ (add_issue_if (not (has_chunk_range chunks object_total part_start p))
          (part_range_mismatch index)
        ++ (add_issue_if
              (not (is_empty rest)
                && (ltb p.byte_length s3_minimum_nonfinal_part_bytes
                    || not (nat_eqb p.byte_length multipart_target_bytes)))
              (part_size_mismatch index)
            ++ part_issues chunks object_total (suc index) (part_start + p.byte_length) rest))

unfoldable pub part_byte_total : List ManifestPart → ℕ
part_byte_total [] = 0
part_byte_total (p ∷ rest) = p.byte_length + part_byte_total rest

-- `objectTotal` after the loop over the chunks.
unfoldable pub object_total : List ManifestChunk → ℕ
object_total [] = 0
object_total (c ∷ rest) = record_header_bytes + c.sealed_bytes + object_total rest

unfoldable pub manifest_issues : Bytes → RecordingManifest → List ManifestIssue
manifest_issues prefix m =
    chunk_issues prefix 0 [] m.chunks
    ++ (add_issue_if (not (nat_eqb m.total_plaintext_bytes (plaintext_total m.chunks)))
          plaintext_total_mismatch
        ++ (add_issue_if (not (nat_eqb m.total_object_bytes (object_total m.chunks)))
              object_total_mismatch
            ++ (part_issues m.chunks (object_total m.chunks) 0 0 m.parts
                ++ add_issue_if (not (nat_eqb (part_byte_total m.parts) m.total_object_bytes))
                    part_total_mismatch)))

abbrev has_no_issues : RecordingManifest → Protocol Bytes → Bool
has_no_issues m (ok prefix) = is_empty (manifest_issues prefix m)
has_no_issues m (throw code) = false

module _ (is_uuid : Text → Bool) where
  abbrev are_intervals : Option (List RawInterval) → Bool
  are_intervals none = true
  are_intervals (some raws) = elim (parse_intervals is_uuid raws) [
    | ok intervals ↦ true
    | throw e ↦ false
  ]

  unfoldable pub has_manifest_fields : RecordingManifest → Bool
  has_manifest_fields m =
      nat_eqb m.protocol_version 1
      && m.suite_id == text "SP-RC1"
      && is_recording_binding m.binding
      && m.codec == recording_codec
      && has_decoded_length m.nonce_prefix_base64url nonce_prefix_bytes
      && is_wrapping m.wrapping
      && leb m.duration_ms max_recording_duration_ms
      && leb 1 m.total_plaintext_bytes
      && leb m.total_plaintext_bytes max_recording_object_bytes
      && leb 1 m.total_object_bytes
      && leb m.total_object_bytes max_recording_object_bytes
      && are_intervals m.question_intervals
      && every is_manifest_chunk m.chunks
      && leb 1 (length m.chunks)
      && leb (length m.chunks) max_recording_chunks
      && every is_part_entry m.parts
      && leb 1 (length m.parts)
      && leb (length m.parts) max_multipart_parts

  -- `RecordingManifestSchema.parse`
  unfoldable pub parse_manifest : RecordingManifest → Outcome MediaFailure RecordingManifest
  parse_manifest m = do
    throw_if (not (has_manifest_fields m)) schema_error
    throw_if (not (has_no_issues m (decode_base64url m.nonce_prefix_base64url))) schema_error
    ok m
