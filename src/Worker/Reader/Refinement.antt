-- ===== src/Worker/Reader/Refinement.antt =====
-- `streamDecryptedRecording` on a stream against the reading of the whole object at once.
use understandproof.Base.{
  ℕ, suc, ◌+◌, ◌≤◌, ◌≡◌, refl, sym, subst, ◌∙◌, inl, inr, Bool, true, false, not, ◌&&◌, ◌||◌, List,
  [], ◌∷◌, ◌++◌, append_assoc, concat, Option, none, some, Text, arith, length, All, length-append,
  nat_eqb, Outcome-cases, ok, throw, throw_if, ◌>>=◌, ◌>>◌, if◌then◌else◌,
}
use understandproof.Media.Protocol.{Protocol}
use understandproof.Media.Bytes.{Bytes}
use understandproof.Media.Encoding.{decode_base64url}
use understandproof.Media.Manifest.{RecordingManifest}
use understandproof.Worker.Reader.{
  outside_boundaries, Reading, FrameState, ReaderState, initial, start_part, feed_parts, waits,
  framing, read_frames, receive, read_incoming, read_stream, finish, stream_decrypted_recording,
}
use understandproof.Worker.Reader.Parts.{
  parts_match, parts_left, NonEmpty, PartsInvariant, start_part-PartsInvariant, Fed, feed_parts-Fed,
  parts_left_nil,
}
use understandproof.Worker.Reader.Frames.{
  Plaintexts, after-nil, open_records, frames_left, Framed, frames_left_nil, read_frames-Framed,
  read_frames-waits,
}

module _ (sha256_hex : Bytes → Text) (aes_gcm_decrypt : Bytes → Bytes → Bytes → Option Bytes) where
  unfoldable pub read_whole : Bytes → RecordingManifest → Bytes → Plaintexts
  read_whole prefix m bytes =
      if parts_match sha256_hex m.parts bytes && nat_eqb (length bytes) m.total_object_bytes
      then open_records sha256_hex aes_gcm_decrypt prefix m 0 m.chunks bytes
      else none

  abbrev read_decoded : RecordingManifest → Bytes → Protocol Bytes → Plaintexts
  read_decoded m bytes (ok prefix) = read_whole prefix m bytes
  read_decoded m bytes (throw code) = none

  -- The plaintexts of an object, if it is the one that the manifest describes.
  unfoldable pub read_object : RecordingManifest → Bytes → Plaintexts
  read_object m bytes = read_decoded m bytes (decode_base64url m.nonce_prefix_base64url)

  -- What the sink was given when the stream was read to its end without an error.
  abbrev pub delivered : Reading (List Bytes) → Plaintexts
  delivered (ok plaintexts) = some plaintexts
  delivered (throw e) = none

  module _ (prefix : Bytes) (m : RecordingManifest) where
    abbrev left : ReaderState → Bytes → Plaintexts
    left s future =
        if parts_left sha256_hex m.parts s.part_state future
          && nat_eqb (s.object_bytes + length future) m.total_object_bytes
        then frames_left sha256_hex aes_gcm_decrypt prefix m s.frame_state future
        else none

    abbrev Invariant : ReaderState → Type 0
    Invariant s =
        PartsInvariant m.parts s.part_state
        × (s.frame_state.record_index ≤ length m.chunks)
        × (framing s.frame_state.pending ≡ waits)

    abbrev Delivers : Plaintexts → Bytes → Reading ReaderState → Type 0
    Delivers whole future (ok t) = Invariant t × (whole ≡ left t future)
    Delivers whole future (throw e) = whole ≡ none

    if_none : (b : Bool) (p : Plaintexts) → p ≡ none → (if b then p else none) ≡ none
    if_none true p e = e
    if_none false p e = refl

    same_if :
        (a a' : Bool) (n n' total : ℕ) (p p' : Plaintexts)
        → a ≡ a'
        → n ≡ n'
        → p ≡ p'
        → (if a && nat_eqb n total then p else none) ≡ (if a' && nat_eqb n' total then p' else none)
    same_if a a' n n' total p p' e f g = rw (e, f, g) refl

    receive-frames_left :
        (s : FrameState) (incoming future : Bytes)
        → frames_left sha256_hex aes_gcm_decrypt prefix m s (incoming ++ future)
          ≡ frames_left sha256_hex aes_gcm_decrypt prefix m (receive s incoming) future
    unfolding receive
    receive-frames_left s incoming future = rw (append_assoc s.pending incoming future) refl

    read_incoming-Delivers :
        (s : ReaderState) (incoming future : Bytes)
        → All NonEmpty m.parts
        → Invariant s
        → Delivers
            (left s (incoming ++ future))
            future
            (read_incoming sha256_hex aes_gcm_decrypt prefix m s incoming)
    unfolding read_incoming receive
    read_incoming-Delivers s incoming future h stands =
        let by_parts =
          Fed sha256_hex (parts_left sha256_hex m.parts s.part_state (incoming ++ future)) m.parts
            future in
        let by_frames =
          Framed sha256_hex aes_gcm_decrypt prefix m
            (frames_left sha256_hex aes_gcm_decrypt prefix m (receive s.frame_state incoming)
              future)
            future in
        let fed =
          feed_parts-Fed sha256_hex (length incoming) m.parts s.part_state incoming future h
            stands.0 (omega arith) in
        let pending = s.frame_state.pending ++ incoming in
        let pass = receive-frames_left s.frame_state incoming future in
        let read =
          read_frames-Framed sha256_hex aes_gcm_decrypt prefix m (suc (length pending))
            (receive s.frame_state incoming) future stands.1 (omega arith) in
        elim (Outcome-cases
          (feed_parts sha256_hex (length incoming) m.parts s.part_state incoming)) [
            | inr (e, refused) ↦ rw refused (rw (subst by_parts refused fed) refl)
            | inl (t, went) ↦
                elim (Outcome-cases (
                  read_frames sha256_hex aes_gcm_decrypt (suc (length pending)) prefix m
                    (receive s.frame_state incoming))) [
                      | inr (e, refused) ↦
                          rw (went, refused) (if_none _ _ (pass ∙ subst by_frames refused read))
                      | inl (u, opened) ↦
                          let parts : by_parts (ok t) = subst by_parts went fed in
                          let frames : by_frames (ok u) = subst by_frames opened read in
                          rw (went, opened)
                            (
                              (
                                parts.0,
                                frames.0,
                                read_frames-waits sha256_hex aes_gcm_decrypt prefix m
                                    (suc (length pending)) (receive s.frame_state incoming) u
                                    opened,
                              ),
                              same_if _ _ _ _ m.total_object_bytes _ _ parts.1
                                  (omega (arith, length-append incoming future)) (pass ∙ frames.1),
                            )
                    ]
          ]

    read_stream-Delivers :
        (s : ReaderState) (stream : List Bytes)
        → All NonEmpty m.parts
        → Invariant s
        → Delivers
            (left s (concat stream))
            []
            (read_stream sha256_hex aes_gcm_decrypt prefix m s stream)
    unfolding read_stream
    read_stream-Delivers s [] h stands = (stands, refl)
    read_stream-Delivers s (incoming ∷ rest) h stands =
        let by_chunk = Delivers (left s (incoming ++ concat rest)) (concat rest) in
        let turn = read_incoming-Delivers s incoming (concat rest) h stands in
        elim (Outcome-cases (read_incoming sha256_hex aes_gcm_decrypt prefix m s incoming)) [
          | inl (t, read) ↦
              let done : by_chunk (ok t) = subst by_chunk read turn in
              rw (read, done.1) (read_stream-Delivers t rest h done.0)
          | inr (e, refused) ↦ rw refused (subst by_chunk refused turn)
        ]

    initial-left : (bytes : Bytes) → left (initial m) bytes ≡ read_whole prefix m bytes
    unfolding initial start_part read_whole
    initial-left bytes = same_if _ _ _ _ m.total_object_bytes _ _ refl (omega arith) (after-nil _)

    framing_nil : framing [] ≡ waits
    unfolding framing
    framing_nil = ground arith

    initial-Invariant : All NonEmpty m.parts → Invariant (initial m)
    unfolding initial
    initial-Invariant h =
        (start_part-PartsInvariant m.parts 0 h (omega arith), omega arith, framing_nil)

    finish_tests :
        (a b c d e : Bool) (released : List Bytes)
        → delivered
            (throw_if (not a || not b || not c || not d || not e) outside_boundaries >> ok released)
          ≡ (if (c && d) && e then if a && b then some released else none else none)
    finish_tests a b c d e released = ground arith

    finish-left :
        (s : ReaderState)
        → Invariant s
        → delivered (finish sha256_hex aes_gcm_decrypt m s) ≡ left s []
    unfolding finish
    finish-left s stands =
        rw
          (
            parts_left_nil sha256_hex m.parts s.part_state stands.0,
            frames_left_nil sha256_hex aes_gcm_decrypt prefix m s.frame_state stands.1 stands.2,
          )
          (finish_tests (nat_eqb (length s.frame_state.pending) 0)
              (nat_eqb s.frame_state.record_index (length m.chunks))
              (nat_eqb s.part_state.part_index (length m.parts))
              (nat_eqb s.part_state.part_remaining 0) (nat_eqb s.object_bytes m.total_object_bytes)
              s.frame_state.released
            ∙ same_if _ _ _ _ m.total_object_bytes _ _ refl (omega arith) refl)

    read_stream-read_whole :
        (stream : List Bytes)
        → All NonEmpty m.parts
        → delivered (
            read_stream sha256_hex aes_gcm_decrypt prefix m (initial m) stream
            >>= finish sha256_hex aes_gcm_decrypt m)
          ≡ read_whole prefix m (concat stream)
    read_stream-read_whole stream h =
        let by_stream = Delivers (left (initial m) (concat stream)) [] in
        let whole = read_stream-Delivers (initial m) stream h (initial-Invariant h) in
        elim (Outcome-cases (read_stream sha256_hex aes_gcm_decrypt prefix m (initial m) stream)) [
          | inl (t, read) ↦
              let done : by_stream (ok t) = subst by_stream read whole in
              rw read (finish-left t done.0 ∙ sym done.1 ∙ initial-left (concat stream))
          | inr (e, refused) ↦
              rw refused (sym (subst by_stream refused whole) ∙ initial-left (concat stream))
        ]

  -- Whatever the chunks are in which the stream delivers the object, the reader ends without an error
  -- exactly if the object is the one that the manifest describes, and then the sink was given its
  -- plaintexts in order. Every part of the manifest has at least one byte, as its schema asks.
  pub stream_decrypted_recording-read_object :
      (stream : List Bytes) (m : RecordingManifest)
      → All NonEmpty m.parts
      → delivered (stream_decrypted_recording sha256_hex aes_gcm_decrypt stream m)
        ≡ read_object m (concat stream)
  unfolding stream_decrypted_recording read_object
  stream_decrypted_recording-read_object stream m h =
      elim (Outcome-cases (decode_base64url m.nonce_prefix_base64url)) [
        | inl (prefix, decoded) ↦ rw decoded (read_stream-read_whole prefix m stream h)
        | inr (code, refused) ↦ rw refused refl
      ]
