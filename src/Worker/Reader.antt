-- ===== src/Worker/Reader.antt =====
-- apps/worker/src/recording-reader.ts: `streamDecryptedRecording`. The stream is the list of the
-- chunks that it delivers, and what the sink is given is the list of the plaintexts. The hash that is
-- under way is the list of the bytes it was given. SHA-256 in hexadecimal and AES-GCM are parameters.
pub mod Parts
pub mod Frames
pub mod Refinement
pub mod Termination
mod Tests
use understandproof.Base.{
  ℕ, zero, suc, ◌+◌, ◌-◌, min, Bool, false, not, ◌&&◌, ◌||◌, List, [], ◌∷◌, ◌++◌, map, Option, none,
  some, Text, text_eq, length, take, drop, get_elem?, ltb, leb, nat_eqb, ◌==◌, Outcome, ok, throw,
  throw_if, ◌>>=◌, ◌>>◌, if◌then◌else◌,
}
use understandproof.Media.Protocol.{record_header_bytes, max_plaintext_chunk_bytes}
use understandproof.Media.Bytes.{Bytes, get_uint32}
use understandproof.Media.Encoding.{decode_base64url}
use understandproof.Media.Records.{ChunkRecord, parse_chunk_record}
use understandproof.Media.Canonical.{MediaFailure, refused, RecordingBinding}
use understandproof.Media.Decryption.{lifted, decrypt_recording_chunk}
use understandproof.Media.Manifest.{ManifestChunk, ManifestPart, RecordingManifest}

-- The errors of the reader's own, those of the protocol's functions, and a loop of the model that
-- has no fuel left.
pub data ReadFailure : Type 0 where
  exceeds_part_ranges part_hash_mismatch invalid_framed_length record_mismatch : ReadFailure
  outside_boundaries out_of_fuel : ReadFailure
  protocol_failure : MediaFailure → ReadFailure

abbrev pub Reading : Type 0 → Type 0
Reading A = Outcome ReadFailure A

abbrev pub from_protocol : {A : Type 0} → Outcome MediaFailure A → Reading A
from_protocol (ok a) = ok a
from_protocol (throw e) = throw (protocol_failure e)

pub record PartState : Type 0 where
  pub part_index : ℕ
  pub part_remaining : ℕ
  pub part_bytes : Bytes

pub record FrameState : Type 0 where
  pub record_index : ℕ
  pub pending : Bytes
  pub released : List Bytes

pub record ReaderState : Type 0 where
  pub part_state : PartState
  pub frame_state : FrameState
  pub object_bytes : ℕ

-- `parts[i]?.byteLength ?? 0`
abbrev byte_length_or_zero : Option ManifestPart → ℕ
byte_length_or_zero none = 0
byte_length_or_zero (some p) = p.byte_length

unfoldable pub start_part : List ManifestPart → ℕ → PartState
start_part parts i = record {
  part_index = i;
  part_remaining = byte_length_or_zero (get_elem? parts i);
  part_bytes = [];
}

unfoldable pub initial : RecordingManifest → ReaderState
initial m = record {
  part_state = start_part m.parts 0;
  frame_state = record { record_index = 0; pending = []; released = [] };
  object_bytes = 0;
}

-- `pending.byteLength >= RECORD_HEADER_BYTES`, with the length of the record that stands first if all
-- of it has come.
pub data Framing : Type 0 where
  waits invalid : Framing
  framed : ℕ → Framing

unfoldable pub framing : Bytes → Framing
framing pending =
    let sealed_length = get_uint32 pending 28 in
    if not (leb record_header_bytes (length pending))
    then waits
    else if ltb sealed_length 17 || ltb (max_plaintext_chunk_bytes + 16) sealed_length
    then invalid
    else if ltb (length pending) (record_header_bytes + sealed_length)
    then waits
    else framed (record_header_bytes + sealed_length)

-- What the loop does in each case.
abbrev pub on_framing : Framing → FrameState → (ℕ → Reading FrameState) → Reading FrameState
on_framing waits s read = ok s
on_framing invalid s read = throw invalid_framed_length
on_framing (framed record_length) s read = read record_length

unfoldable pub receive : FrameState → Bytes → FrameState
receive s incoming = record {
  record_index = s.record_index;
  pending = s.pending ++ incoming;
  released = s.released;
}

-- What the hash of the part takes of the bytes.
unfoldable pub take_bytes : PartState → Bytes → PartState
take_bytes s incoming =
    let taken = min s.part_remaining (length incoming) in
    record {
      part_index = s.part_index;
      part_remaining = s.part_remaining - taken;
      part_bytes = s.part_bytes ++ take taken incoming;
    }

module _ (sha256_hex : Bytes → Text) where
  unfoldable pub is_part_hash : Option ManifestPart → Bytes → Bool
  is_part_hash none bytes = false
  is_part_hash (some expected) bytes = sha256_hex bytes == expected.sha256

  -- What the loop does when a part is complete.
  unfoldable pub close_part : List ManifestPart → PartState → Reading PartState
  close_part parts s = do
    throw_if (not (is_part_hash (get_elem? parts s.part_index) s.part_bytes)) part_hash_mismatch
    ok (start_part parts (suc s.part_index))

  -- One turn of the loop: what is taken of the bytes goes into the hash of the part.
  unfoldable pub feed_part : List ManifestPart → PartState → Bytes → Reading PartState
  feed_part parts s incoming = do
    let taken = min s.part_remaining (length incoming)
    throw_if (leb taken 0) exceeds_part_ranges
    let fed = take_bytes s incoming
    if nat_eqb fed.part_remaining 0 then close_part parts fed else ok fed

  -- `while (hashOffset < incoming.byteLength)`, on what is left of the bytes.
  unfoldable pub feed_parts : ℕ → List ManifestPart → PartState → Bytes → Reading PartState
  feed_parts fuel parts s [] = ok s
  feed_parts zero parts s (b ∷ bs) = throw out_of_fuel
  feed_parts (suc fuel) parts s (b ∷ bs) = feed_part parts s (b ∷ bs) >>= λ t.
      feed_parts fuel parts t (drop (min s.part_remaining (length (b ∷ bs))) (b ∷ bs))

  unfoldable pub matches_manifest : Option ManifestChunk → ChunkRecord → Bool
  matches_manifest none r = false
  matches_manifest (some expected) r =
      nat_eqb r.chunk_index expected.index
      && nat_eqb r.plaintext_length expected.plaintext_bytes
      && nat_eqb r.sealed_length expected.sealed_bytes
      && sha256_hex r.sealed == expected.ciphertext_sha256

  module _ (aes_gcm_decrypt : Bytes → Bytes → Bytes → Option Bytes) where
    -- A record that has come in whole is checked against the manifest and opened.
    unfoldable pub open_record :
        Bytes → RecordingBinding → ℕ → Option ManifestChunk → Bytes → Reading Bytes
    open_record prefix binding index expected record_bytes = do
      r ← from_protocol (lifted (parse_chunk_record record_bytes))
      throw_if (not (matches_manifest expected r)) record_mismatch
      from_protocol (
          decrypt_recording_chunk aes_gcm_decrypt (record {
            record_bytes = record_bytes;
            expected_chunk_index = index;
            expected_nonce_prefix = prefix;
            binding = binding;
          }))

    -- One turn of the loop on a record that is cut off.
    unfoldable pub read_frame : Bytes → RecordingManifest → FrameState → ℕ → Reading FrameState
    read_frame prefix m s record_length = do
      plaintext ←
          open_record prefix m.binding s.record_index (get_elem? m.chunks s.record_index)
            (take record_length s.pending)
      ok (record {
        record_index = suc s.record_index;
        pending = drop record_length s.pending;
        released = s.released ++ plaintext ∷ [];
      })

    -- `while (pending.byteLength >= RECORD_HEADER_BYTES)`
    unfoldable pub read_frames : ℕ → Bytes → RecordingManifest → FrameState → Reading FrameState
    read_frames zero prefix m s = throw out_of_fuel
    read_frames (suc fuel) prefix m s =
        on_framing (framing s.pending) s (λ record_length.
          read_frame prefix m s record_length >>= λ t. read_frames fuel prefix m t)

    -- The body of the loop for one chunk of the stream.
    unfoldable pub read_incoming :
        Bytes → RecordingManifest → ReaderState → Bytes → Reading ReaderState
    read_incoming prefix m s incoming = do
      part_state ← feed_parts (length incoming) m.parts s.part_state incoming
      frame_state ←
          read_frames (suc (length (s.frame_state.pending ++ incoming))) prefix m
            (receive s.frame_state incoming)
      ok (record {
        part_state = part_state;
        frame_state = frame_state;
        object_bytes = s.object_bytes + length incoming;
      })

    unfoldable pub read_stream :
        Bytes → RecordingManifest → ReaderState → List Bytes → Reading ReaderState
    read_stream prefix m s [] = ok s
    read_stream prefix m s (incoming ∷ rest) =
        read_incoming prefix m s incoming >>= λ t. read_stream prefix m t rest

    -- The check at the end of the stream, and what the sink was given.
    unfoldable pub finish : RecordingManifest → ReaderState → Reading (List Bytes)
    finish m s = do
      throw_if
          (not (nat_eqb (length s.frame_state.pending) 0)
            || not (nat_eqb s.frame_state.record_index (length m.chunks))
            || not (nat_eqb s.part_state.part_index (length m.parts))
            || not (nat_eqb s.part_state.part_remaining 0)
            || not (nat_eqb s.object_bytes m.total_object_bytes))
          outside_boundaries
      ok s.frame_state.released

    unfoldable pub stream_decrypted_recording :
        List Bytes → RecordingManifest → Reading (List Bytes)
    stream_decrypted_recording stream m = do
      prefix ← from_protocol (lifted (decode_base64url m.nonce_prefix_base64url))
      s ← read_stream prefix m (initial m) stream
      finish m s
