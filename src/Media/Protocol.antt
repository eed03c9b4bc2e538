-- ===== src/Media/Protocol.antt =====
-- packages/media/src/constants.ts and errors.ts.
use understandproof.Base.{ℕ, ◌*◌, List, [], ◌∷◌, Outcome, throw_if, not, Bool}

pub data RecordingErrorCode : Type 0 where
  invalid_schema invalid_key invalid_nonce invalid_record : RecordingErrorCode
  authentication_failed invalid_manifest limit_exceeded multipart_mismatch : RecordingErrorCode

abbrev pub Protocol : Type 0 → Type 0
Protocol A = Outcome RecordingErrorCode A

abbrev pub require : Bool → RecordingErrorCode → Protocol (Unit {0})
require test code = throw_if (not test) code

abbrev pub record_magic : List ℕ
record_magic = b'S' ∷ b'P' ∷ b'C' ∷ b'1' ∷ []

abbrev pub record_version : ℕ
record_version = 1

abbrev pub record_header_bytes : ℕ
record_header_bytes = 32

abbrev pub aes_gcm_tag_bytes : ℕ
aes_gcm_tag_bytes = 16

abbrev pub nonce_prefix_bytes : ℕ
nonce_prefix_bytes = 8

abbrev pub s3_minimum_nonfinal_part_bytes : ℕ
s3_minimum_nonfinal_part_bytes = 5 * 1024 * 1024

abbrev pub multipart_target_bytes : ℕ
multipart_target_bytes = 8 * 1024 * 1024

abbrev pub max_plaintext_chunk_bytes : ℕ
max_plaintext_chunk_bytes = 4 * 1024 * 1024

abbrev pub max_encrypted_buffer_bytes : ℕ
max_encrypted_buffer_bytes = 16 * 1024 * 1024

abbrev pub max_recording_chunks : ℕ
max_recording_chunks = 1024

abbrev pub max_multipart_parts : ℕ
max_multipart_parts = 32

abbrev pub max_recording_object_bytes : ℕ
max_recording_object_bytes = 128 * 1024 * 1024

abbrev pub max_recording_duration_ms : ℕ
max_recording_duration_ms = 8 * 60 * 1000

abbrev pub max_uint32 : ℕ
max_uint32 = 0xffff_ffff
