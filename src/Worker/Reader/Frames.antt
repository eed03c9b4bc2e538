-- ===== src/Worker/Reader/Frames.antt =====
-- The records, as `streamDecryptedRecording` opens them while the bytes come in, and as they are cut
-- off the bytes of the whole object.
use understandproof.Base.{
  ℕ, zero, suc, ◌+◌, ◌≤◌, ◌<◌, ◌≡◌, refl, sym, ap, subst, ◌∙◌, ◌⊎◌, inl, inr, true, ◌&&◌, List, [],
  ◌∷◌, ◌++◌, append_assoc, append-nil, Option, none, some, Text, text_eq, arith, length, take, drop,
  get_elem?, length-append, length-take, length-drop, take-append_left, drop-append_left,
  get_elem?-some, get_elem?-drop, drop-suc, Option-cases, nat_eqb, >>=-eq-ok, Outcome-cases, ok,
  throw, if◌then◌else◌,
}
use mathlib.Core.Option.{some-injective}
use native.Mathlib.Decide.{ℕ_discrete}
use understandproof.Media.Bytes.{Bytes, get_uint32}
use understandproof.Media.Records.{ChunkRecord, parse_chunk_record}
use understandproof.Media.Records.Bounds.{
  HasSealedLength, parse_chunk_record-HasSealedLength, get_uint32-take, get_uint32-append,
}
use understandproof.Media.Manifest.{ManifestChunk, RecordingManifest}
use understandproof.Worker.Reader.{
  Reading, FrameState, Framing, waits, invalid, framed, framing, matches_manifest, open_record,
  read_frame, read_frames,
}

abbrev pub Plaintexts : Type 0
Plaintexts = Option (List Bytes)

abbrev pub after : List Bytes → Plaintexts → Plaintexts
after released none = none
after released (some rest) = some (released ++ rest)

after-after :
    (xs ys : List Bytes) (rest : Plaintexts) → after xs (after ys rest) ≡ after (xs ++ ys) rest
after-after xs ys none = refl
after-after xs ys (some rest) = ap some (sym (append_assoc xs ys rest))

pub after-nil : (rest : Plaintexts) → after [] rest ≡ rest
after-nil none = refl
after-nil (some rest) = refl

abbrev put_first : Reading Bytes → Plaintexts → Plaintexts
put_first (ok plaintext) rest = after (plaintext ∷ []) rest
put_first (throw e) rest = none

pub Framing-cases : (f : Framing) → (f ≡ waits) ⊎ ((f ≡ invalid) ⊎ ((n : ℕ) × (f ≡ framed n)))
Framing-cases waits = inl refl
Framing-cases invalid = inr (inl refl)
Framing-cases (framed n) = inr (inr (n, refl))

module _ (sha256_hex : Bytes → Text) (aes_gcm_decrypt : Bytes → Bytes → Bytes → Option Bytes)
    (prefix : Bytes) (m : RecordingManifest) where
  -- The plaintexts of bytes that are the records of these chunks, one after the other.
  unfoldable pub open_records : ℕ → List ManifestChunk → Bytes → Plaintexts
  open_records i [] bytes = if nat_eqb (length bytes) 0 then some [] else none
  open_records i (c ∷ cs) bytes =
      put_first
        (open_record sha256_hex aes_gcm_decrypt prefix m.binding i (some c)
          (take (32 + c.sealed_bytes) bytes))
        (open_records (suc i) cs (drop (32 + c.sealed_bytes) bytes))

  abbrev pub frames_left : FrameState → Bytes → Plaintexts
  frames_left s future =
      after s.released
        (open_records s.record_index (drop s.record_index m.chunks) (s.pending ++ future))

  abbrev opened : ℕ → Option ManifestChunk → Bytes → Reading Bytes
  opened = open_record sha256_hex aes_gcm_decrypt prefix m.binding

  open_record-inv :
      (i : ℕ) (expected : Option ManifestChunk) (bytes plaintext : Bytes)
      → opened i expected bytes ≡ ok plaintext
      → (r : ChunkRecord) × (parse_chunk_record bytes ≡ ok r)
        × (matches_manifest sha256_hex expected r ≡ true)
  unfolding open_record
  open_record-inv i expected bytes plaintext e = elim (Outcome-cases (parse_chunk_record bytes)) [
    | inl (r, parsed) ↦ (r, parsed, ground (arith, e, parsed))
    | inr (code, refused) ↦ absurd (ground (arith, e, refused))
  ]

  open_record-HasSealedLength :
      (i : ℕ) (c : ManifestChunk) (bytes plaintext : Bytes)
      → opened i (some c) bytes ≡ ok plaintext
      → HasSealedLength bytes c.sealed_bytes
  unfolding matches_manifest
  open_record-HasSealedLength i c bytes plaintext e =
      let (r, parsed, fits) = open_record-inv i (some c) bytes plaintext e in
      subst (HasSealedLength bytes) (ground (arith, fits))
        (parse_chunk_record-HasSealedLength bytes r parsed)

  open_record-unexpected :
      (i : ℕ) (bytes plaintext : Bytes) → ¬ (opened i none bytes ≡ ok plaintext)
  unfolding matches_manifest
  open_record-unexpected i bytes plaintext e =
      let (r, parsed, fits) = open_record-inv i none bytes plaintext e in
      absurd (ground (arith, fits))

  -- What a call of the loop says of an object whose plaintexts are `whole`.
  abbrev pub Framed : Plaintexts → Bytes → Reading FrameState → Type 0
  Framed whole future (ok t) = (t.record_index ≤ length m.chunks) × (whole ≡ frames_left t future)
  Framed whole future (throw e) = whole ≡ none

  -- The records that are left begin with one of another length than the bytes say, or with none.
  open_records_other :
      (i : ℕ) (cs : List ManifestChunk) (bytes : Bytes)
      → 32 ≤ length bytes
      → ((c : ManifestChunk) (plaintext : Bytes)
          → (get_elem? cs 0 ≡ some c)
          → ¬ (opened i (some c) (take (32 + c.sealed_bytes) bytes) ≡ ok plaintext))
      → open_records i cs bytes ≡ none
  unfolding open_records
  open_records_other i [] bytes long h = ground (arith, long)
  open_records_other i (c ∷ cs) bytes long h =
      elim (Outcome-cases (opened i (some c) (take (32 + c.sealed_bytes) bytes))) [
        | inl (plaintext, e) ↦ absurd (h c plaintext refl e)
        | inr (code, e) ↦ rw e refl
      ]

  stated-take :
      (c : ManifestChunk) (pending future : Bytes)
      → 32 ≤ length pending
      → HasSealedLength (take (32 + c.sealed_bytes) (pending ++ future)) c.sealed_bytes
      → get_uint32 pending 28 ≡ c.sealed_bytes
  stated-take c pending future long h =
      sym (get_uint32-append pending future long)
      ∙ sym (get_uint32-take (32 + c.sealed_bytes) (pending ++ future) (omega arith))
      ∙ h.stated

  open_records-framed_same :
      (i : ℕ) (c : ManifestChunk) (cs : List ManifestChunk) (pending future : Bytes) (n : ℕ)
      → n ≡ 32 + c.sealed_bytes
      → n ≤ length pending
      → open_records i (c ∷ cs) (pending ++ future)
        ≡ put_first
            (opened i (some c) (take n pending))
            (open_records (suc i) cs (drop n pending ++ future))
  unfolding open_records
  open_records-framed_same i c cs pending future n same fits =
      rw (sym same, take-append_left n pending future fits, drop-append_left n pending future fits)
        refl

  open_records-framed :
      (i : ℕ) (cs : List ManifestChunk) (pending future : Bytes) (n : ℕ)
      → 32 ≤ length pending
      → n ≡ 32 + get_uint32 pending 28
      → n ≤ length pending
      → open_records i cs (pending ++ future)
        ≡ put_first
            (opened i (get_elem? cs 0) (take n pending))
            (open_records (suc i) (drop 1 cs) (drop n pending ++ future))
  open_records-framed i [] pending future n long size fits =
      elim (Outcome-cases (opened i none (take n pending))) [
        | inl (plaintext, e) ↦ absurd (open_record-unexpected i (take n pending) plaintext e)
        | inr (code, e) ↦ rw e (
            open_records_other i [] (pending ++ future)
              (omega (arith, long, length-append pending future))
              (λ c plaintext here. absurd (ground (arith, here))))
      ]
  open_records-framed i (c ∷ cs) pending future n long size fits =
      elim (ℕ_discrete n (32 + c.sealed_bytes)) [
        | yes same ↦ open_records-framed_same i c cs pending future n same fits
        | no different ↦ elim (Outcome-cases (opened i (some c) (take n pending))) [
          | inl (plaintext, e) ↦
              let h = open_record-HasSealedLength i c (take n pending) plaintext e in
              absurd (different (omega (arith, h.size, length-take n pending, fits)))
          | inr (code, e) ↦ rw e (
              open_records_other i (c ∷ cs) (pending ++ future)
                (omega (arith, long, length-append pending future))
                (λ d plaintext here e'.
                  let h =
                    open_record-HasSealedLength i d (take (32 + d.sealed_bytes) (pending ++ future))
                      plaintext e' in
                  different (
                    omega (
                      arith,
                      size,
                      stated-take d pending future long h,
                      ap (λ k. k.sealed_bytes) (some-injective c d here),
                    ))))
        ]
      ]

  framing-framed :
      (pending : Bytes) (n : ℕ)
      → framing pending ≡ framed n
      → (32 ≤ length pending) × (n ≡ 32 + get_uint32 pending 28) × (n ≤ length pending)
  unfolding framing
  framing-framed pending n e = ground arith

  framing-invalid :
      (pending : Bytes)
      → framing pending ≡ invalid
      → (32 ≤ length pending) × ((get_uint32 pending 28 < 17) ⊎ (4194320 < get_uint32 pending 28))
  unfolding framing
  framing-invalid pending e = ground arith

  open_records-invalid :
      (i : ℕ) (cs : List ManifestChunk) (pending future : Bytes)
      → framing pending ≡ invalid
      → open_records i cs (pending ++ future) ≡ none
  open_records-invalid i cs pending future e =
      let (long, beyond) = framing-invalid pending e in
      open_records_other i cs (pending ++ future)
        (omega (arith, long, length-append pending future))
        (λ c plaintext here e'.
          let h =
            open_record-HasSealedLength i c (take (32 + c.sealed_bytes) (pending ++ future))
              plaintext e' in
          ground (arith, beyond, h.lower, h.upper, stated-take c pending future long h))

  open_record-expected :
      (i : ℕ) (cs : List ManifestChunk) (bytes plaintext : Bytes)
      → opened i (get_elem? cs i) bytes ≡ ok plaintext
      → suc i ≤ length cs
  open_record-expected i cs bytes plaintext e = elim (Option-cases (get_elem? cs i)) [
    | inl missing ↦ absurd (open_record-unexpected i bytes plaintext (rw (sym missing) e))
    | inr (c, here) ↦ get_elem?-some i cs c here
  ]

  read_frame-Framed :
      (s : FrameState) (future : Bytes) (n : ℕ)
      → framing s.pending ≡ framed n
      → Framed (frames_left s future) future (read_frame sha256_hex aes_gcm_decrypt prefix m s n)
  unfolding read_frame
  read_frame-Framed s future n first =
      let (long, size, fits) = framing-framed s.pending n first in
      let i = s.record_index in
      let record_bytes = take n s.pending in
      let rest = open_records (suc i) (drop (suc i) m.chunks) (drop n s.pending ++ future) in
      let cut : open_records i (drop i m.chunks) (s.pending ++ future)
          ≡ put_first (opened i (get_elem? m.chunks i) record_bytes) rest =
        open_records-framed i (drop i m.chunks) s.pending future n long size fits
        ∙ rw (get_elem?-drop i m.chunks, drop-suc i m.chunks) refl in
      let whole = ap (after s.released) cut in
      elim (Outcome-cases (opened i (get_elem? m.chunks i) record_bytes)) [
        | inl (plaintext, e) ↦ rw e (
          open_record-expected i m.chunks record_bytes plaintext e,
          whole
              ∙ ap (λ r. after s.released (put_first r rest)) e
              ∙ after-after s.released (plaintext ∷ []) rest,
        )
        | inr (code, e) ↦ rw e (whole ∙ ap (λ r. after s.released (put_first r rest)) e)
      ]

  read_frame-pending :
      (s t : FrameState) (n : ℕ)
      → read_frame sha256_hex aes_gcm_decrypt prefix m s n ≡ ok t
      → t.pending ≡ drop n s.pending
  unfolding read_frame
  read_frame-pending s t n e = ground arith

  pub read_frame-less :
      (s t : FrameState) (n fuel : ℕ)
      → framing s.pending ≡ framed n
      → read_frame sha256_hex aes_gcm_decrypt prefix m s n ≡ ok t
      → length s.pending < suc fuel
      → length t.pending < fuel
  read_frame-less s t n fuel first read enough =
      let (long, size, fits) = framing-framed s.pending n first in
      omega (
        arith,
        long,
        size,
        enough,
        ap length (read_frame-pending s t n read),
        length-drop n s.pending,
      )

  -- The loop on the records that have come in, with fuel for each of their bytes.
  pub read_frames-Framed :
      (fuel : ℕ) (s : FrameState) (future : Bytes)
      → s.record_index ≤ length m.chunks
      → length s.pending < fuel
      → Framed
          (frames_left s future)
          future
          (read_frames sha256_hex aes_gcm_decrypt fuel prefix m s)
  unfolding read_frames
  read_frames-Framed zero s future bound enough = absurd (omega (arith, enough))
  read_frames-Framed (suc fuel) s future bound enough = elim (Framing-cases (framing s.pending)) [
    | inl waiting ↦ rw waiting (bound, refl)
    | inr (inl wrong) ↦ rw wrong (
        ap (after s.released) (
          open_records-invalid s.record_index (drop s.record_index m.chunks) s.pending future
            wrong))
    | inr (inr (n, first)) ↦
        rw first (elim (Outcome-cases (read_frame sha256_hex aes_gcm_decrypt prefix m s n)) [
          | inl (t, read) ↦
              let turn : Framed (frames_left s future) future (ok t) =
                subst (Framed (frames_left s future) future) read
                  (read_frame-Framed s future n first) in
              rw (read, turn.1)
                (read_frames-Framed fuel t future turn.0
                  (read_frame-less s t n fuel first read enough))
          | inr (code, read) ↦ rw read (
              subst (Framed (frames_left s future) future) read
                (read_frame-Framed s future n first))
        ])
  ]

  pub read_frames-waits :
      (fuel : ℕ) (s t : FrameState)
      → read_frames sha256_hex aes_gcm_decrypt fuel prefix m s ≡ ok t
      → framing t.pending ≡ waits
  unfolding read_frames
  read_frames-waits zero s t e = absurd (ground (arith, e))
  read_frames-waits (suc fuel) s t e = elim (Framing-cases (framing s.pending)) [
    | inl waiting ↦ ground (arith, e, waiting)
    | inr (inl wrong) ↦ absurd (ground (arith, e, wrong))
    | inr (inr (n, first)) ↦
        let (u, read, rest) =
          >>=-eq-ok (read_frame sha256_hex aes_gcm_decrypt prefix m s n)
            (λ t. read_frames sha256_hex aes_gcm_decrypt fuel prefix m t) (rw first at e) in
        read_frames-waits fuel u t rest
  ]

  framing-waits :
      (pending : Bytes)
      → framing pending ≡ waits
      → 32 ≤ length pending
      → 17 ≤ get_uint32 pending 28
      → get_uint32 pending 28 ≤ 4194320
      → length pending < 32 + get_uint32 pending 28
  unfolding framing
  framing-waits pending e long lower upper = ground arith

  -- At the end of the stream.
  open_records_end :
      (i : ℕ) (cs : List ManifestChunk) (pending : Bytes)
      → framing pending ≡ waits
      → open_records i cs pending
        ≡ (if nat_eqb (length pending) 0 && nat_eqb (length cs) 0 then some [] else none)
  unfolding open_records
  open_records_end i [] pending waiting = ground arith
  open_records_end i (c ∷ cs) pending waiting =
      elim (Outcome-cases (opened i (some c) (take (32 + c.sealed_bytes) pending))) [
        | inr (code, e) ↦ rw e (ground arith)
        | inl (plaintext, e) ↦
            let h =
              open_record-HasSealedLength i c (take (32 + c.sealed_bytes) pending) plaintext e in
            let same : get_uint32 pending 28 ≡ c.sealed_bytes =
              sym (get_uint32-take (32 + c.sealed_bytes) pending (omega arith)) ∙ h.stated in
            let long : 32 + c.sealed_bytes ≤ length pending =
              omega (arith, h.size, length-take (32 + c.sealed_bytes) pending) in
            absurd (
              omega (
                arith,
                same,
                long,
                framing-waits pending waiting (omega (arith, long)) (omega (arith, same, h.lower))
                    (omega (arith, same, h.upper)),
              ))
      ]

  pub frames_left_nil :
      (s : FrameState)
      → s.record_index ≤ length m.chunks
      → framing s.pending ≡ waits
      → frames_left s [] ≡ (
          if nat_eqb (length s.pending) 0 && nat_eqb s.record_index (length m.chunks)
          then some s.released
          else none)
  frames_left_nil s bound waiting =
      rw
        (
          append-nil s.pending,
          open_records_end s.record_index (drop s.record_index m.chunks) s.pending waiting,
          length-drop s.record_index m.chunks,
        )
        (ground (arith, bound, append-nil s.released))
