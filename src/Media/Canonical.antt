-- ===== src/Media/Canonical.antt =====
-- packages/media/src/canonical.ts with the schemas that it parses: the bytes that are authenticated
-- beside a chunk. They are JSON over ASCII, so that UTF-8 is the list of the code units.
use understandproof.Base.{
  ℕ, zero, suc, ◌+◌, ◌/◌, ◌%◌, Bool, true, false, ◌&&◌, List, [], ◌∷◌, ◌++◌, Text, text_eq, text,
  length, every, take, drop, leb, ltb, nat_eqb, ◌==◌, Outcome, ok, throw,
}
use understandproof.Domain.Primitives.{is_lower_hex}
use understandproof.Media.Protocol.{RecordingErrorCode, max_uint32, max_plaintext_chunk_bytes}
use understandproof.Media.Bytes.{Bytes}
use understandproof.Media.Encoding.{decode_base64url}

-- What the protocol's functions throw: an error of their own, or the schema library's.
pub data MediaFailure : Type 0 where
  refused : RecordingErrorCode → MediaFailure
  schema_error : MediaFailure

abbrev all_hex : ℕ → Text → Bool
all_hex count s = nat_eqb (length s) count && every is_lower_hex s

abbrev is_dash : Text → Bool
is_dash s = s == text "-"

-- `/^[0-9a-f]{8}-[0-9a-f]{4}-[0-9a-f]{4}-[0-9a-f]{4}-[0-9a-f]{12}$/`
unfoldable pub is_canonical_uuid : Text → Bool
is_canonical_uuid s =
    all_hex 8 (take 8 s)
    && is_dash (take 1 (drop 8 s))
    && all_hex 4 (take 4 (drop 9 s))
    && is_dash (take 1 (drop 13 s))
    && all_hex 4 (take 4 (drop 14 s))
    && is_dash (take 1 (drop 18 s))
    && all_hex 4 (take 4 (drop 19 s))
    && is_dash (take 1 (drop 23 s))
    && all_hex 12 (drop 24 s)

unfoldable pub is_head_sha : Text → Bool
is_head_sha s = all_hex 40 s

-- `hasDecodedLength`
unfoldable pub has_decoded_length : Text → ℕ → Bool
has_decoded_length value expected = elim (decode_base64url value) [
  | ok bytes ↦ nat_eqb (length bytes) expected
  | throw code ↦ false
]

pub record RecordingBinding : Type 0 where
  pub attempt_id : Text
  pub head_sha : Text
  pub object_id : Text

unfoldable pub is_recording_binding : RecordingBinding → Bool
is_recording_binding b =
    is_canonical_uuid b.attempt_id && is_head_sha b.head_sha && is_canonical_uuid b.object_id

abbrev pub recording_codec : Text
recording_codec = text "video/webm;codecs=vp8,opus"

pub record ChunkAadContext : Type 0 where
  pub binding : RecordingBinding
  pub codec : Text
  pub chunk_index : ℕ
  pub nonce_base64url : Text
  pub plaintext_bytes : ℕ

unfoldable pub is_chunk_aad_context : ChunkAadContext → Bool
is_chunk_aad_context c =
    is_recording_binding c.binding
    && c.codec == recording_codec
    && leb c.chunk_index max_uint32
    && has_decoded_length c.nonce_base64url 12
    && leb 1 c.plaintext_bytes
    && leb c.plaintext_bytes max_plaintext_chunk_bytes

-- `String(n)` in decimal, on fuel for its digits.
abbrev decimal_digits : ℕ → ℕ → Text
decimal_digits zero n = []
decimal_digits (suc fuel) n =
    let front = decimal_digits fuel (n / 10) in
    (elim (ltb n 10) [ true ↦ [] | false ↦ front ]) ++ (b'0' + n % 10) ∷ []

unfoldable pub decimal : ℕ → Text
decimal n = decimal_digits (suc n) n

-- `JSON.stringify` of a text that needs no escapes, as the schemas' texts.
abbrev pub quoted : Text → Text
quoted s = b'"' ∷ s ++ b'"' ∷ []

abbrev pub joined : Text → List Text → Text
joined item [] = item
joined item (next ∷ rest) = item ++ b',' ∷ joined next rest

abbrev pub json_array : Text → List Text → Text
json_array item rest = b'[' ∷ joined item rest ++ b']' ∷ []

unfoldable pub canonical_kdf_context_bytes : RecordingBinding → Outcome MediaFailure Bytes
canonical_kdf_context_bytes b = elim (is_recording_binding b) [
  | false ↦ throw schema_error
  | true ↦ ok (
      json_array (quoted (text "slopproof-recording-kdf"))
        (text "1" ∷ quoted b.attempt_id ∷ quoted b.head_sha ∷ quoted b.object_id ∷ []))
]

unfoldable pub canonical_chunk_aad_bytes : ChunkAadContext → Outcome MediaFailure Bytes
canonical_chunk_aad_bytes c = elim (is_chunk_aad_context c) [
  | false ↦ throw schema_error
  | true ↦ ok (
      json_array (quoted (text "slopproof-recording-chunk")) (
        text "1"
        ∷ quoted (text "SP-RC1")
        ∷ quoted c.binding.attempt_id
        ∷ quoted c.binding.head_sha
        ∷ quoted c.binding.object_id
        ∷ quoted c.codec
        ∷ decimal c.chunk_index
        ∷ quoted c.nonce_base64url
        ∷ decimal c.plaintext_bytes
        ∷ []))
]
