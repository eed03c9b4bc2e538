-- ===== src/Media/Multipart/Packed.antt =====
-- The calls of a packer: `push`, `finish` and `packChunkRecords`.
use understandproof.Base.{
  ℕ, suc, ◌/◌, ◌≤◌, ◌<◌, ◌≡◌, refl, sym, ap, ◌∙◌, subst, inl, inr, true, false, List, [], ◌∷◌, ◌++◌,
  some, append-nil, Text, ok, drop, length, length-append, length-drop, All, All-append, Bool-cases,
  arith,
}
use understandproof.Domain.Primitives.{is_sha256}
use understandproof.Media.Bytes.{Bytes}
use understandproof.Media.Records.{ChunkRecord}
use understandproof.Media.Multipart.{
  Segment, Packer, Part, no_segments, flush, check_push, enqueue, push, finish,
}
use understandproof.Media.Multipart.Filling.{remaining, IsOpen}
use understandproof.Media.Multipart.Flushing.{
  HoldsPending, MayFlush, IsPart, IsFlushed, flush-IsFlushed,
}
use understandproof.Media.Multipart.Packing.{
  bytes_of, bytes_of-snoc, Numbered, Numbered-snoc, IsPacking, IsReady, flush_ready-IsReady,
  enqueue-IsPacking, push-eq,
}

module _ (sha256_hex : Bytes → Text) where
  -- The parts are the bytes, cut up: all of 8 MiB but for a last one that is smaller.
  pub record IsUpload (bytes : Bytes) (parts : List Part) : Type 0 where
    pub whole : bytes_of parts ≡ bytes
    pub numbered : Numbered 1 parts
    pub valid : All (IsPart sha256_hex) parts
    pub sizes :
        (full last : List Part) × (parts ≡ full ++ last)
        × All (λ q. length q.bytes ≡ 8388608) full
        × All (λ q. (1 ≤ length q.bytes) × (length q.bytes < 8388608)) last
        × (length last ≤ 1)
    pub count : length parts ≤ 16

  module _ (is_hash : (bytes : Bytes) → is_sha256 (sha256_hex bytes) ≡ true) where
    -- A record that the checks accept is taken in whole: no later step of the call throws.
    pub push-IsReady :
        (pushed : Bytes) (parts : List Part) (p : Packer) (bytes : Bytes) (found : ChunkRecord)
        → IsPacking sha256_hex pushed parts p
        → check_push p bytes ≡ ok found
        → (new : List Part) × (next : Packer) × (push sha256_hex p bytes ≡ some (next, ok new))
          × IsReady sha256_hex is_hash (pushed ++ bytes) parts (enqueue found p) next new
    push-IsReady pushed parts p bytes found k e =
        let packing =
          subst (λ t. IsPacking sha256_hex (pushed ++ bytes) t (enqueue found p))
            (sym (append-nil parts))
            (enqueue-IsPacking sha256_hex pushed parts p bytes found k e) in
        let fuel = suc ((enqueue found p).pending_bytes / 8388608) in
        let (new, next, run, r) =
          flush_ready-IsReady sha256_hex is_hash fuel (pushed ++ bytes) parts [] (enqueue found p)
            packing (omega arith) in
        (new, next, push-eq sha256_hex p bytes found e ∙ run, r)

    abbrev closed : Packer → Packer
    closed p = record p { finished = true }

    finish_none :
        (p : Packer)
        → p.finished ≡ false
        → 1 ≤ p.chunk_count
        → no_segments p.pending ≡ true
        → finish sha256_hex p ≡ (closed p, ok [])
    unfolding finish
    finish_none p unfinished some_chunks empty = ground arith

    finish_part :
        (p next : Packer) (part : Part)
        → p.finished ≡ false
        → 1 ≤ p.chunk_count
        → no_segments p.pending ≡ false
        → flush sha256_hex (closed p) p.pending_bytes true ≡ (next, ok part)
        → finish sha256_hex p ≡ (next, ok (part ∷ []))
    unfolding finish
    finish_part p next part unfinished some_chunks waiting e =
        let state : (flush sha256_hex (closed p) p.pending_bytes true).0 ≡ next = ap (λ s. s.0) e in
        let result : (flush sha256_hex (closed p) p.pending_bytes true).1 ≡ ok part =
          ap (λ s. s.1) e in
        ground (arith, state, result)

    no_length : (bytes : Bytes) → length bytes ≡ 0 → bytes ≡ []
    no_length [] h = refl
    no_length (b ∷ bytes) h = absurd (omega (arith, h))

    no_segments-nil : (pending : List Segment) → no_segments pending ≡ true → remaining pending ≡ []
    no_segments-nil [] h = refl
    no_segments-nil (s ∷ rest) h = cc

    some_segments :
        (count : ℕ) (pending : List Segment)
        → no_segments pending ≡ false
        → All (IsOpen count) pending
        → 1 ≤ length (remaining pending)
    some_segments count [] h o = cc
    some_segments count (s ∷ rest) h o = omega (
      arith,
      o.0.0,
      length-append (drop s.offset s.bytes) (remaining rest),
      length-drop s.offset s.bytes,
    )

    finished_full :
        (pushed : Bytes) (parts : List Part) (p : Packer)
        → IsPacking sha256_hex pushed parts p
        → no_segments p.pending ≡ true
        → IsUpload pushed (parts ++ [])
    finished_full pushed parts p k empty = rw (append-nil parts) (record {
      whole =
          sym (append-nil (bytes_of parts))
          ∙ ap (λ t. bytes_of parts ++ t) (sym (no_segments-nil p.pending empty))
          ∙ k.conserved;
      numbered = k.numbered;
      valid = k.valid;
      sizes = (parts, [], sym (append-nil parts), k.full, tt, omega arith);
      count = omega (arith, k.count, k.account, k.bounded);
    })

    finished_last :
        (pushed : Bytes) (parts : List Part) (p : Packer) (part : Part) (next : Packer)
        → IsPacking sha256_hex pushed parts p
        → 1 ≤ p.pending_bytes
        → p.pending_bytes < 8388608
        → IsFlushed sha256_hex (closed p) p.pending_bytes part next
        → IsUpload pushed (parts ++ part ∷ [])
    finished_last pushed parts p part next k some_bytes little f =
        let rest : remaining next.pending ≡ [] = no_length (remaining next.pending) (
          omega (
            arith,
            ap length f.front,
            length-append part.bytes (remaining next.pending),
            f.size,
            k.holds.held,
          )) in
        let front : part.bytes ≡ remaining p.pending =
          sym (append-nil part.bytes) ∙ ap (λ t. part.bytes ++ t) (sym rest) ∙ f.front in
        record {
          whole = bytes_of-snoc parts part ∙ ap (λ t. bytes_of parts ++ t) front ∙ k.conserved;
          numbered = Numbered-snoc 1 parts part k.numbered (omega (arith, f.number, k.count));
          valid = All-append (IsPart sha256_hex) parts (part ∷ []) k.valid (f.part_IsPart, tt);
          sizes = (
            parts,
            part ∷ [],
            refl,
            k.full,
            ((omega (arith, f.size, some_bytes), omega (arith, f.size, little)), tt),
            omega arith,
          );
          count =
              omega
                (arith, length-append parts (part ∷ []), k.count, k.account, k.bounded, some_bytes);
        }

    pub finish-IsUpload :
        (pushed : Bytes) (parts : List Part) (p : Packer)
        → IsPacking sha256_hex pushed parts p
        → p.pending_bytes < 8388608
        → 1 ≤ p.chunk_count
        → (new : List Part) × (next : Packer) × (finish sha256_hex p ≡ (next, ok new))
          × IsUpload pushed (parts ++ new)
    finish-IsUpload pushed parts p k little some_chunks =
        elim (Bool-cases (no_segments p.pending)) [
          | inl empty ↦ (
            [],
            closed p,
            finish_none p k.unfinished some_chunks empty,
            finished_full pushed parts p k empty,
          )
          | inr waiting ↦
              let some_bytes : 1 ≤ p.pending_bytes = omega (
                arith,
                k.holds.held,
                some_segments p.chunk_count p.pending waiting k.holds.all_open,
              ) in
              let holds : HoldsPending (closed p) = record {
                held = k.holds.held;
                all_open = k.holds.all_open;
                chunks = k.holds.chunks;
              } in
              let may : MayFlush (closed p) p.pending_bytes true = record {
                some_bytes = some_bytes;
                pending = omega arith;
                buffer = omega (arith, little);
                full = inl refl;
                room = omega (arith, k.account, k.bounded);
              } in
              let (part, next, e, f) =
                flush-IsFlushed sha256_hex is_hash (closed p) p.pending_bytes true holds may in
              (
                part ∷ [],
                next,
                finish_part p next part k.unfinished some_chunks waiting e,
                finished_last pushed parts p part next k some_bytes little f,
              )
        ]
