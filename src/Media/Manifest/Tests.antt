-- ===== src/Media/Manifest/Tests.antt =====
-- The schema and the authentication of a manifest, on one of two chunks in one part.
use understandproof.Base.{
  ℕ, zero, suc, ◌<◌, ◌≡◌, ◌↔◌, arith, refl, Bool, true, [], ◌∷◌, none, Text, Text-discrete, text,
  replicate, ok, throw,
}
use understandproof.Domain.Primitives.{is_lower_hex, is_sha256}
use understandproof.Media.Bytes.{Bytes, AreBytes, uint32_bytes}
use understandproof.Media.Encoding.{
  sextet_char, base64url_lookup, encode_base64url, shift_in, check_trailing, decode_sextets,
  decode_base64url, encode_hex,
}
use understandproof.Media.Records.{build_chunk_nonce}
use understandproof.Media.Canonical.{
  schema_error, is_canonical_uuid, is_head_sha, is_recording_binding, recording_codec,
  has_decoded_length,
}
use understandproof.Media.Manifest.{ManifestChunk, RecordingManifest}
use understandproof.Media.Manifest.Schema.{
  wrapping_algorithm, is_key_id, is_manifest_chunk, is_part_entry, is_wrapping, is_expected_nonce,
  chunk_issues, plaintext_total, chunk_offsets, first_chunk_after, last_chunk_before,
  has_chunk_range, part_issues, part_byte_total, object_total, manifest_issues, has_manifest_fields,
  parse_manifest,
}
use understandproof.Media.Manifest.Schema.Accepted.{DescribesObject, parse_manifest-DescribesObject}
use understandproof.Media.Manifest.Authentication.{
  AuthenticatedManifest, canonical_manifest_bytes, assert_finalize_json_limit,
  authenticate_manifest, verify_authenticated_manifest,
}
use understandproof.Media.Manifest.Authentication.RoundTrip.{
  IsAuthentic, verify-authenticate_manifest, verify_authenticated_manifest_iff,
}

runs : Unit {0}
unfolding Text-discrete is_lower_hex is_sha256 uint32_bytes sextet_char base64url_lookup
    encode_base64url shift_in check_trailing decode_sextets decode_base64url build_chunk_nonce
    is_canonical_uuid is_head_sha is_recording_binding has_decoded_length is_key_id
    is_manifest_chunk is_part_entry is_wrapping is_expected_nonce chunk_issues plaintext_total
    chunk_offsets first_chunk_after last_chunk_before has_chunk_range part_issues part_byte_total
    object_total manifest_issues has_manifest_fields parse_manifest
runs = tt

abbrev uuid : Text
uuid = text "00000000-0000-4000-8000-000000000000"

abbrev chunk : ℕ → Text → ManifestChunk
chunk index nonce = record {
  index = index;
  nonce = nonce;
  plaintext_bytes = 1;
  sealed_bytes = 17;
  ciphertext_sha256 = replicate 64 b'a';
}

abbrev manifest : ℕ → RecordingManifest
manifest last_chunk_index = record {
  protocol_version = 1;
  suite_id = text "SP-RC1";
  binding = record { attempt_id = uuid; head_sha = replicate 40 b'a'; object_id = uuid };
  codec = recording_codec;
  nonce_prefix_base64url = text "AAAAAAAAAAA";
  wrapping = record {
    material_id = uuid;
    key_id = text "k1";
    algorithm = wrapping_algorithm;
    wrapped_key_sha256 = replicate 64 b'0';
  };
  duration_ms = 1000;
  total_plaintext_bytes = 2;
  total_object_bytes = 98;
  question_intervals = none;
  chunks = chunk 0 (text "AAAAAAAAAAAAAAAA") ∷ chunk 1 (text "AAAAAAAAAAAAAAAB") ∷ [];
  parts =
      record {
        part_number = 1;
        first_chunk_index = 0;
        last_chunk_index = last_chunk_index;
        byte_length = 98;
        sha256 = replicate 64 b'b';
      }
      ∷ [];
}

abbrev no_uuid : Text → Bool
no_uuid s = true

accepts :
    (parse_manifest no_uuid (manifest 1) ≡ ok (manifest 1))
    × (parse_manifest no_uuid (manifest 0) ≡ throw schema_error)
unfolding runs
accepts = (refl, refl)

parse_manifest-DescribesObject_example : (manifest 1 ≡ manifest 1) × DescribesObject (manifest 1)
parse_manifest-DescribesObject_example =
    parse_manifest-DescribesObject no_uuid (manifest 1) (manifest 1) accepts.0

abbrev constant_hash : Bytes → Bytes
constant_hash bytes = replicate 32 7

abbrev constant_tag : Bytes → Bytes
constant_tag bytes = replicate 32 9

abbrev is_constant_tag : Bytes → Bytes → Bool
is_constant_tag tag bytes = true

abbrev no_json : AuthenticatedManifest → ℕ
no_json a = 100

replicate-AreBytes : (n b : ℕ) → b < 256 → AreBytes (replicate n b)
replicate-AreBytes zero b h = tt
replicate-AreBytes (suc n) b h = (h, replicate-AreBytes n b h)

authenticated_manifest : AuthenticatedManifest
authenticated_manifest = record {
  manifest = manifest 1;
  manifest_tag_base64url = encode_base64url (replicate 32 9);
  manifest_digest = encode_hex (replicate 32 7);
}

authenticates :
    authenticate_manifest no_uuid no_json constant_hash constant_tag (manifest 1)
    ≡ ok authenticated_manifest
unfolding runs canonical_manifest_bytes assert_finalize_json_limit authenticate_manifest
    authenticated_manifest
authenticates = refl

verify-authenticate_manifest_example :
    verify_authenticated_manifest no_uuid constant_hash is_constant_tag authenticated_manifest
    ≡ ok (manifest 1)
verify-authenticate_manifest_example =
    verify-authenticate_manifest no_uuid no_json constant_hash constant_tag is_constant_tag
      (manifest 1) authenticated_manifest (λ bytes. (replicate-AreBytes 32 7 (omega arith), refl))
      (λ bytes. (replicate-AreBytes 32 9 (omega arith), refl, refl)) authenticates

verify_authenticated_manifest_iff_example :
    (verify_authenticated_manifest no_uuid constant_hash is_constant_tag authenticated_manifest
      ≡ ok (manifest 1))
    ↔ IsAuthentic no_uuid constant_hash is_constant_tag authenticated_manifest (manifest 1)
verify_authenticated_manifest_iff_example =
    verify_authenticated_manifest_iff no_uuid constant_hash is_constant_tag authenticated_manifest
      (manifest 1) (λ bytes. (replicate-AreBytes 32 7 (omega arith), refl))
