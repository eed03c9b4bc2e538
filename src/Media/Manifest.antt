-- ===== src/Media/Manifest.antt =====
-- packages/media/src/schemas.ts: the manifest of a recording and what its schema asks. A field of
-- numbers holds a natural number: the schemas refuse every other number before they look further.
pub mod Schema
pub mod Authentication
mod Tests
use understandproof.Base.{ℕ, List, Option, Text}
use understandproof.Media.Canonical.{RecordingBinding}
use understandproof.Media.Intervals.{RawInterval}

pub record ManifestChunk : Type 0 where
  pub index : ℕ
  pub nonce : Text
  pub plaintext_bytes : ℕ
  pub sealed_bytes : ℕ
  pub ciphertext_sha256 : Text

pub record ManifestPart : Type 0 where
  pub part_number : ℕ
  pub first_chunk_index : ℕ
  pub last_chunk_index : ℕ
  pub byte_length : ℕ
  pub sha256 : Text

pub record ManifestWrapping : Type 0 where
  pub material_id : Text
  pub key_id : Text
  pub algorithm : Text
  pub wrapped_key_sha256 : Text

pub record RecordingManifest : Type 0 where
  pub protocol_version : ℕ
  pub suite_id : Text
  pub binding : RecordingBinding
  pub codec : Text
  pub nonce_prefix_base64url : Text
  pub wrapping : ManifestWrapping
  pub duration_ms : ℕ
  pub total_plaintext_bytes : ℕ
  pub total_object_bytes : ℕ
  pub question_intervals : Option (List RawInterval)
  pub chunks : List ManifestChunk
  pub parts : List ManifestPart
