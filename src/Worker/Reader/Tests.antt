-- ===== src/Worker/Reader/Tests.antt =====
-- `streamDecryptedRecording` on an object of one record. The hash of the tests is the length of the
-- bytes, and their cipher drops the tag.
use understandproof.Base.{
  ◌-◌, ◌≡◌, ◌≢◌, refl, List, [], ◌∷◌, ◌++◌, Option, none, some, Text, Text-discrete, text, arith,
  length, take, drop, replicate, concat, throw,
}
use understandproof.Media.Bytes.{
  Bytes, bytes_equal, uint32_bytes, get_uint8, get_uint16, get_uint32,
}
use understandproof.Media.Encoding.{
  sextet_char, base64url_lookup, encode_base64url, shift_in, check_trailing, decode_sextets,
  decode_base64url,
}
use understandproof.Media.Records.{
  build_chunk_nonce, read_header, cut_record, parse_header, parse_record_at, parse_chunk_record,
}
use understandproof.Media.Canonical.{
  RecordingBinding, is_canonical_uuid, is_head_sha, is_recording_binding, recording_codec,
  has_decoded_length, is_chunk_aad_context, canonical_chunk_aad_bytes,
}
use understandproof.Domain.Primitives.{is_lower_hex}
use understandproof.Media.Decryption.{
  chunk_context, check_plaintext, open_chunk, decrypt_recording_chunk,
}
use understandproof.Media.Manifest.{RecordingManifest}
use understandproof.Worker.Reader.{
  start_part, initial, framing, take_bytes, receive, is_part_hash, close_part, feed_part,
  feed_parts, matches_manifest, open_record, read_frame, read_frames, read_incoming, read_stream,
  finish, stream_decrypted_recording, out_of_fuel,
}
use understandproof.Worker.Reader.Refinement.{
  delivered, read_object, stream_decrypted_recording-read_object,
}
use understandproof.Worker.Reader.Termination.{stream_decrypted_recording-ends}

abbrev length_hash : Bytes → Text
length_hash bytes = length bytes ∷ []

abbrev drop_tag : Bytes → Bytes → Bytes → Option Bytes
drop_tag nonce aad sealed = some (take (length sealed - 16) sealed)

abbrev uuid : Text
uuid = text "00000000-0000-4000-8000-000000000000"

abbrev binding : RecordingBinding
binding = record { attempt_id = uuid; head_sha = replicate 40 b'a'; object_id = uuid }

abbrev object : Bytes
object =
    b'S' ∷ b'P' ∷ b'C' ∷ b'1' ∷ 1 ∷ 0 ∷ 0 ∷ 32 ∷ replicate 16 0
    ++ 0 ∷ 0 ∷ 0 ∷ 1 ∷ 0 ∷ 0 ∷ 0 ∷ 17 ∷ 7 ∷ replicate 16 9

abbrev manifest : RecordingManifest
manifest = record {
  protocol_version = 1;
  suite_id = text "SP-RC1";
  binding = binding;
  codec = recording_codec;
  nonce_prefix_base64url = text "AAAAAAAAAAA";
  wrapping = record {
    material_id = uuid;
    key_id = text "k";
    algorithm = text "RSA-OAEP-3072-SHA256";
    wrapped_key_sha256 = replicate 64 b'0';
  };
  duration_ms = 1000;
  total_plaintext_bytes = 1;
  total_object_bytes = 49;
  question_intervals = none;
  chunks =
      record {
        index = 0;
        nonce = text "AAAAAAAAAAAAAAAA";
        plaintext_bytes = 1;
        sealed_bytes = 17;
        ciphertext_sha256 = 17 ∷ [];
      }
      ∷ [];
  parts =
      record {
        part_number = 1;
        first_chunk_index = 0;
        last_chunk_index = 0;
        byte_length = 49;
        sha256 = 49 ∷ [];
      }
      ∷ [];
}

abbrev stream : List Bytes
stream = take 20 object ∷ [] ∷ drop 20 object ∷ []

runs : Unit {0}
unfolding Text-discrete bytes_equal uint32_bytes get_uint8 get_uint16 get_uint32 shift_in
    check_trailing base64url_lookup decode_sextets decode_base64url build_chunk_nonce read_header
    cut_record parse_header parse_record_at parse_chunk_record is_lower_hex is_canonical_uuid
    is_head_sha has_decoded_length is_recording_binding is_chunk_aad_context
    canonical_chunk_aad_bytes sextet_char encode_base64url chunk_context check_plaintext open_chunk
    decrypt_recording_chunk start_part initial framing take_bytes receive is_part_hash close_part
    feed_part feed_parts matches_manifest open_record read_frame read_frames read_incoming
    read_stream finish stream_decrypted_recording
runs = tt

delivers :
    delivered length_hash drop_tag (stream_decrypted_recording length_hash drop_tag stream manifest)
    ≡ some ((7 ∷ []) ∷ [])
unfolding runs
delivers = refl

stream_decrypted_recording-read_object_example :
    delivered length_hash drop_tag (stream_decrypted_recording length_hash drop_tag stream manifest)
    ≡ read_object length_hash drop_tag manifest (concat stream)
stream_decrypted_recording-read_object_example =
    stream_decrypted_recording-read_object length_hash drop_tag stream manifest (omega arith, tt)

stream_decrypted_recording-ends_example :
    stream_decrypted_recording length_hash drop_tag stream manifest ≢ throw out_of_fuel
stream_decrypted_recording-ends_example =
    stream_decrypted_recording-ends length_hash drop_tag stream manifest
