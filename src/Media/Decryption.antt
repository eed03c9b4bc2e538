-- ===== src/Media/Decryption.antt =====
-- packages/media/src/crypto.ts: a chunk of the recording is opened. AES-GCM is a parameter: it takes
-- the nonce, the additional data and the sealed bytes, and gives the plaintext or refuses.
use understandproof.Base.{
  ℕ, not, ◌&&◌, Option, none, some, nat, Outcome, ok, throw, throw_if, ◌>>=◌, ◌>>◌, length, nat_eqb,
}
use understandproof.Media.Protocol.{Protocol, invalid_nonce, invalid_record, authentication_failed}
use understandproof.Media.Bytes.{Bytes, bytes_equal}
use understandproof.Media.Encoding.{encode_base64url}
use understandproof.Media.Records.{ChunkRecord, build_chunk_nonce, parse_chunk_record}
use understandproof.Media.Canonical.{
  MediaFailure, refused, schema_error, RecordingBinding, is_recording_binding, recording_codec,
  ChunkAadContext, canonical_chunk_aad_bytes,
}

abbrev pub lifted : {A : Type 0} → Protocol A → Outcome MediaFailure A
lifted (ok a) = ok a
lifted (throw code) = throw (refused code)

pub record DecryptInput : Type 0 where
  pub record_bytes : Bytes
  pub expected_chunk_index : ℕ
  pub expected_nonce_prefix : Bytes
  pub binding : RecordingBinding

unfoldable pub chunk_context : RecordingBinding → ChunkRecord → ChunkAadContext
chunk_context binding r = record {
  binding = binding;
  codec = recording_codec;
  chunk_index = r.chunk_index;
  nonce_base64url = encode_base64url r.nonce;
  plaintext_bytes = r.plaintext_length;
}

-- What `subtle.decrypt` gave is the plaintext if it has the length that the record says.
unfoldable pub check_plaintext : ChunkRecord → Option Bytes → Outcome MediaFailure Bytes
check_plaintext r none = throw (refused authentication_failed)
check_plaintext r (some plaintext) = do
  throw_if (not (nat_eqb (length plaintext) r.plaintext_length)) (refused invalid_record)
  ok plaintext

module _ (aes_gcm_decrypt : Bytes → Bytes → Bytes → Option Bytes) where
  unfoldable pub open_chunk : RecordingBinding → ChunkRecord → Outcome MediaFailure Bytes
  open_chunk binding r = do
    throw_if (not (is_recording_binding binding)) schema_error
    aad ← canonical_chunk_aad_bytes (chunk_context binding r)
    check_plaintext r (aes_gcm_decrypt r.nonce aad r.sealed)

  unfoldable pub decrypt_recording_chunk : DecryptInput → Outcome MediaFailure Bytes
  decrypt_recording_chunk input = do
    r ← lifted (parse_chunk_record input.record_bytes)
    expected_nonce ←
        lifted (build_chunk_nonce input.expected_nonce_prefix (nat input.expected_chunk_index))
    throw_if
        (not
          (nat_eqb r.chunk_index input.expected_chunk_index && bytes_equal r.nonce expected_nonce))
        (refused invalid_nonce)
    open_chunk input.binding r
