-- ===== src/Worker/Reader/Termination.antt =====
-- The loops of `streamDecryptedRecording` come to an end: the fuel of the model is enough.
use understandproof.Base.{
  ℕ, zero, suc, ◌≤◌, ◌<◌, min, ◌≡◌, ◌≢◌, refl, inl, inr, Bool, true, false, not, List, [], ◌∷◌,
  ◌++◌, Option, Text, arith, length, length-drop, take, drop, get_elem?, Outcome, ok, throw,
  throw_if, ◌>>=◌, ◌>>◌,
}
use understandproof.Media.Bytes.{Bytes}
use understandproof.Media.Encoding.{decode_base64url}
use understandproof.Media.Manifest.{ManifestPart, ManifestChunk, RecordingManifest}
use understandproof.Media.Canonical.{MediaFailure, RecordingBinding}
use understandproof.Media.Records.{parse_chunk_record}
use understandproof.Media.Decryption.{lifted, decrypt_recording_chunk}
use understandproof.Worker.Reader.{
  out_of_fuel, record_mismatch, Reading, from_protocol, PartState, FrameState, ReaderState, framing,
  initial, close_part, feed_part, feed_parts, matches_manifest, open_record, read_frame,
  read_frames, receive, read_incoming, read_stream, finish, stream_decrypted_recording,
}
use understandproof.Worker.Reader.Parts.{take_bytes-less}
use understandproof.Worker.Reader.Frames.{Framing-cases, read_frame-less}

-- A call that does not run out of fuel.
abbrev Ends : {A : Type 0} → Reading A → Type 0
Ends call = call ≢ throw out_of_fuel

ok-Ends : {A : Type 0} (a : A) → Ends (ok a)
ok-Ends a e = ground (arith, e)

>>=-Ends :
    {A B : Type 0} (call : Reading A) (next : A → Reading B)
    → Ends call
    → ((a : A) → call ≡ ok a → Ends (next a))
    → Ends (call >>= next)
>>=-Ends (ok a) next h k = k a refl
>>=-Ends (throw e) next h k = λ same. h (ground (arith, same))

from_protocol-Ends : {A : Type 0} (call : Outcome MediaFailure A) → Ends (from_protocol call)
from_protocol-Ends (ok a) e = ground (arith, e)
from_protocol-Ends (throw f) e = ground (arith, e)

guarded-Ends :
    (b : Bool) (call : Outcome MediaFailure Bytes)
    → Ends (throw_if b record_mismatch >> from_protocol call)
guarded-Ends true call = λ e. ground (arith, e)
guarded-Ends false call = from_protocol-Ends call

module _ (sha256_hex : Bytes → Text) where
  feed_part-Ends :
      (parts : List ManifestPart) (s : PartState) (incoming : Bytes)
      → Ends (feed_part sha256_hex parts s incoming)
  unfolding feed_part close_part
  feed_part-Ends parts s incoming e = ground (arith, e)

  feed_parts-Ends :
      (fuel : ℕ) (parts : List ManifestPart) (s : PartState) (incoming : Bytes)
      → length incoming ≤ fuel
      → Ends (feed_parts sha256_hex fuel parts s incoming)
  unfolding feed_parts
  feed_parts-Ends fuel parts s [] enough = ok-Ends s
  feed_parts-Ends zero parts s (b ∷ bs) enough = absurd (omega (arith, enough))
  feed_parts-Ends (suc fuel) parts s (b ∷ bs) enough =
      let taken = min s.part_remaining (length (b ∷ bs)) in
      >>=-Ends (feed_part sha256_hex parts s (b ∷ bs)) _ (feed_part-Ends parts s (b ∷ bs)) (λ t fed.
        feed_parts-Ends fuel parts t (drop taken (b ∷ bs)) (
          omega (
            arith,
            enough,
            length-drop taken (b ∷ bs),
            take_bytes-less sha256_hex parts s (b ∷ bs) t fed,
          )))

  module _ (aes_gcm_decrypt : Bytes → Bytes → Bytes → Option Bytes) where
    open_record-Ends :
        (prefix : Bytes) (binding : RecordingBinding) (i : ℕ) (expected : Option ManifestChunk)
        (bytes : Bytes)
        → Ends (open_record sha256_hex aes_gcm_decrypt prefix binding i expected bytes)
    unfolding open_record
    open_record-Ends prefix binding i expected bytes =
        let parsing = lifted (parse_chunk_record bytes) in
        >>=-Ends (from_protocol parsing) _ (from_protocol-Ends parsing) (λ r parsed.
          guarded-Ends (not (matches_manifest sha256_hex expected r)) (
            decrypt_recording_chunk aes_gcm_decrypt (record {
              record_bytes = bytes;
              expected_chunk_index = i;
              expected_nonce_prefix = prefix;
              binding = binding;
            })))

    module _ (prefix : Bytes) (m : RecordingManifest) where
      read_frame-Ends :
          (s : FrameState) (n : ℕ) → Ends (read_frame sha256_hex aes_gcm_decrypt prefix m s n)
      unfolding read_frame
      read_frame-Ends s n =
          >>=-Ends
            (open_record sha256_hex aes_gcm_decrypt prefix m.binding s.record_index
              (get_elem? m.chunks s.record_index) (take n s.pending))
            _
            (open_record-Ends prefix m.binding s.record_index (get_elem? m.chunks s.record_index)
              (take n s.pending))
            (λ plaintext opened. ok-Ends _)

      read_frames-Ends :
          (fuel : ℕ) (s : FrameState)
          → length s.pending < fuel
          → Ends (read_frames sha256_hex aes_gcm_decrypt fuel prefix m s)
      unfolding read_frames
      read_frames-Ends zero s enough = absurd (omega (arith, enough))
      read_frames-Ends (suc fuel) s enough = elim (Framing-cases (framing s.pending)) [
        | inl waiting ↦ rw waiting (ok-Ends s)
        | inr (inl wrong) ↦ rw wrong (λ e. ground (arith, e))
        | inr (inr (n, first)) ↦ rw first (
            >>=-Ends (read_frame sha256_hex aes_gcm_decrypt prefix m s n) _ (read_frame-Ends s n)
              (λ t read.
                read_frames-Ends fuel t (
                  read_frame-less sha256_hex aes_gcm_decrypt prefix m s t n fuel first read
                    enough)))
      ]

      read_incoming-Ends :
          (s : ReaderState) (incoming : Bytes)
          → Ends (read_incoming sha256_hex aes_gcm_decrypt prefix m s incoming)
      unfolding read_incoming receive
      read_incoming-Ends s incoming =
          >>=-Ends (feed_parts sha256_hex (length incoming) m.parts s.part_state incoming) _
            (feed_parts-Ends (length incoming) m.parts s.part_state incoming (omega arith))
            (λ t fed.
              >>=-Ends
                (read_frames sha256_hex aes_gcm_decrypt
                  (suc (length (s.frame_state.pending ++ incoming))) prefix m
                  (receive s.frame_state incoming))
                _
                (read_frames-Ends (suc (length (s.frame_state.pending ++ incoming)))
                  (receive s.frame_state incoming) (omega arith))
                (λ u read. ok-Ends _))

      read_stream-Ends :
          (s : ReaderState) (stream : List Bytes)
          → Ends (read_stream sha256_hex aes_gcm_decrypt prefix m s stream)
      unfolding read_stream
      read_stream-Ends s [] = ok-Ends s
      read_stream-Ends s (incoming ∷ rest) =
          >>=-Ends (read_incoming sha256_hex aes_gcm_decrypt prefix m s incoming) _
            (read_incoming-Ends s incoming) (λ t read. read_stream-Ends t rest)

    finish-Ends :
        (m : RecordingManifest) (s : ReaderState) → Ends (finish sha256_hex aes_gcm_decrypt m s)
    unfolding finish
    finish-Ends m s e = ground (arith, e)

    -- On every stream and every manifest, the loops of the reader come to an end: the model never runs
    -- out of the fuel that it starts with.
    pub stream_decrypted_recording-ends :
        (stream : List Bytes) (m : RecordingManifest)
        → stream_decrypted_recording sha256_hex aes_gcm_decrypt stream m ≢ throw out_of_fuel
    unfolding stream_decrypted_recording
    stream_decrypted_recording-ends stream m =
        let decoding = lifted (decode_base64url m.nonce_prefix_base64url) in
        >>=-Ends (from_protocol decoding) _ (from_protocol-Ends decoding) (λ prefix decoded.
          >>=-Ends (read_stream sha256_hex aes_gcm_decrypt prefix m (initial m) stream) _
            (read_stream-Ends prefix m (initial m) stream) (λ s read. finish-Ends m s))
