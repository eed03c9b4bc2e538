-- ===== src/Media/Manifest/Authentication.antt =====
-- packages/media/src/manifest.ts, with the canonical bytes of a manifest of canonical.ts and
-- `verifyManifestBytes` of crypto.ts. The UUID test, SHA-256, HMAC under the manifest's key and the size of
-- a value as JSON are parameters.
pub mod RoundTrip
use understandproof.Base.{
  ℕ, ◌*◌, Bool, false, not, ◌&&◌, List, [], ◌∷◌, ◌++◌, map, Option, none, some, nat_value, Text,
  text, length, ltb, nat_eqb, Outcome, ok, throw, throw_if, ◌>>=◌, ◌>>◌,
}
use understandproof.Domain.Primitives.{is_sha256}
use understandproof.Media.Protocol.{
  Protocol, invalid_manifest, authentication_failed, limit_exceeded,
}
use understandproof.Media.Bytes.{Bytes, bytes_equal}
use understandproof.Media.Encoding.{encode_base64url, decode_base64url, encode_hex, decode_hex}
use understandproof.Media.Intervals.{RawInterval}
use understandproof.Media.Canonical.{
  MediaFailure, refused, schema_error, decimal, quoted, json_array,
}
use understandproof.Media.Decryption.{lifted}
use understandproof.Media.Manifest.{ManifestChunk, ManifestPart, RecordingManifest}
use understandproof.Media.Manifest.Schema.{wrapping_algorithm, parse_manifest}

abbrev pub max_finalize_json_bytes : ℕ
max_finalize_json_bytes = 512 * 1024

abbrev pub json_list : List Text → Text
json_list [] = text "[]"
json_list (item ∷ rest) = json_array item rest

unfoldable pub canonical_chunk : ManifestChunk → Text
canonical_chunk c = json_list (
    decimal c.index
    ∷ quoted c.nonce
    ∷ decimal c.plaintext_bytes
    ∷ decimal c.sealed_bytes
    ∷ quoted c.ciphertext_sha256
    ∷ [])

unfoldable pub canonical_part : ManifestPart → Text
canonical_part p = json_list (
    decimal p.part_number
    ∷ decimal p.first_chunk_index
    ∷ decimal p.last_chunk_index
    ∷ decimal p.byte_length
    ∷ quoted p.sha256
    ∷ [])

unfoldable pub canonical_interval : RawInterval → Text
canonical_interval i = json_list (
    quoted i.schema_version
    ∷ quoted i.interval_version
    ∷ quoted i.question_id
    ∷ decimal (nat_value i.ordinal)
    ∷ decimal (nat_value i.start_ms)
    ∷ decimal (nat_value i.end_ms)
    ∷ decimal (nat_value i.recorded_duration_ms)
    ∷ quoted i.source
    ∷ [])

unfoldable pub canonical_intervals : Option (List RawInterval) → List Text
canonical_intervals none = []
canonical_intervals (some intervals) =
    json_list (
      quoted (text "proof-question-intervals-v1")
      ∷ json_list (map canonical_interval intervals)
      ∷ [])
    ∷ []

unfoldable pub canonical_manifest : RecordingManifest → Text
canonical_manifest m = json_list (
    quoted (text "slopproof-recording-manifest")
    ∷ text "1"
    ∷ quoted (text "SP-RC1")
    ∷ quoted m.binding.attempt_id
    ∷ quoted m.binding.head_sha
    ∷ quoted m.binding.object_id
    ∷ quoted m.codec
    ∷ quoted m.nonce_prefix_base64url
    ∷ quoted m.wrapping.material_id
    ∷ quoted m.wrapping.key_id
    ∷ quoted wrapping_algorithm
    ∷ quoted m.wrapping.wrapped_key_sha256
    ∷ decimal m.duration_ms
    ∷ decimal m.total_plaintext_bytes
    ∷ decimal m.total_object_bytes
    ∷ json_list (map canonical_chunk m.chunks)
    ∷ json_list (map canonical_part m.parts)
    ∷ canonical_intervals m.question_intervals)

pub record AuthenticatedManifest : Type 0 where
  pub manifest : RecordingManifest
  pub manifest_tag_base64url : Text
  pub manifest_digest : Text

module _ (is_uuid : Text → Bool) where
  unfoldable pub canonical_manifest_bytes : RecordingManifest → Outcome MediaFailure Bytes
  canonical_manifest_bytes m = do
    manifest ← parse_manifest is_uuid m
    ok (canonical_manifest manifest)

module _ (json_bytes : AuthenticatedManifest → ℕ) where
  unfoldable pub assert_finalize_json_limit :
      AuthenticatedManifest → Outcome MediaFailure (Unit {0})
  assert_finalize_json_limit value =
      throw_if (ltb max_finalize_json_bytes (json_bytes value)) (refused limit_exceeded)

module _ (is_uuid : Text → Bool) (json_bytes : AuthenticatedManifest → ℕ)
    (sha256 hmac_sign : Bytes → Bytes) where
  unfoldable pub authenticate_manifest :
      RecordingManifest → Outcome MediaFailure AuthenticatedManifest
  authenticate_manifest input = do
    manifest ← parse_manifest is_uuid input
    canonical_bytes ← canonical_manifest_bytes is_uuid manifest
    let result : AuthenticatedManifest = record {
      manifest = manifest;
      manifest_tag_base64url = encode_base64url (hmac_sign canonical_bytes);
      manifest_digest = encode_hex (sha256 canonical_bytes);
    }
    assert_finalize_json_limit json_bytes result
    ok result

-- `decodeBase64Url` in a `try` whose `catch` throws an error of its own.
abbrev pub decoded_tag : Protocol Bytes → Outcome MediaFailure Bytes
decoded_tag (ok tag) = ok tag
decoded_tag (throw code) = throw (refused invalid_manifest)

module _ (hmac_verify : Bytes → Bytes → Bool) where
  unfoldable pub verify_manifest_bytes : Bytes → Bytes → Bool
  verify_manifest_bytes canonical_bytes signature =
      nat_eqb (length signature) 32 && hmac_verify signature canonical_bytes

module _ (is_uuid : Text → Bool) (sha256 : Bytes → Bytes) (hmac_verify : Bytes → Bytes → Bool) where
  unfoldable pub verify_authenticated_manifest :
      AuthenticatedManifest → Outcome MediaFailure RecordingManifest
  verify_authenticated_manifest input = do
    manifest ← parse_manifest is_uuid input.manifest
    throw_if (not (is_sha256 input.manifest_digest)) schema_error
    canonical_bytes ← canonical_manifest_bytes is_uuid manifest
    supplied_digest ← lifted (decode_hex input.manifest_digest)
    throw_if (not (bytes_equal (sha256 canonical_bytes) supplied_digest)) (refused invalid_manifest)
    tag ← decoded_tag (decode_base64url input.manifest_tag_base64url)
    throw_if (not (verify_manifest_bytes hmac_verify canonical_bytes tag))
        (refused authentication_failed)
    ok manifest
