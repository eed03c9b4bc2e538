-- ===== src/Media/Multipart/Flushing.antt =====
-- `#flush` as it is called: it never throws, and cuts the part off the front of what is pending.
use understandproof.Base.{
  ℕ, ◌+◌, ◌-◌, ◌≤◌, ◌<◌, ◌≡◌, refl, ◌∙◌, ◌⊎◌, Bool, true, false, List, [], ◌∷◌, ◌++◌, Text, ok,
  length, All, arith,
}
use understandproof.Domain.Primitives.{is_sha256}
use understandproof.Media.Bytes.{Bytes}
use understandproof.Media.Multipart.{
  Segment, Packer, Part, Filled, fill, first_index, is_manifest_part, no_segments, check_flush,
  new_part, close_part, flush,
}
use understandproof.Media.Multipart.Filling.{remaining, IsOpen, fill-IsFilled}

-- The packer's pending bytes are the ones its segments hold.
pub record HoldsPending (p : Packer) : Type 0 where
  pub held : length (remaining p.pending) ≡ p.pending_bytes
  pub all_open : All (IsOpen p.chunk_count) p.pending
  pub chunks : p.chunk_count ≤ 1024

-- A length that the next part may have.
pub record MayFlush (p : Packer) (n : ℕ) (final_part : Bool) : Type 0 where
  pub some_bytes : 1 ≤ n
  pub pending : n ≤ p.pending_bytes
  pub buffer : n ≤ 16777216
  pub full : (final_part ≡ true) ⊎ (n ≡ 8388608)
  pub room : p.part_count < 32

module _ (sha256_hex : Bytes → Text) where
  -- What a part says of its bytes is true, and the manifest's schema accepts it.
  pub record IsPart (part : Part) : Type 0 where
    pub size : part.byte_length ≡ length part.bytes
    pub digest : part.sha256 ≡ sha256_hex part.bytes
    pub valid : is_manifest_part part ≡ true

  -- The part is the front of what was pending, and the rest stays pending.
  pub record IsFlushed (p : Packer) (n : ℕ) (part : Part) (next : Packer) : Type 0 where
    pub front : part.bytes ++ remaining next.pending ≡ remaining p.pending
    pub size : length part.bytes ≡ n
    pub part_IsPart : IsPart part
    pub number : part.part_number ≡ p.part_count + 1
    pub all_open : All (IsOpen p.chunk_count) next.pending
    pub pending_bytes : next.pending_bytes ≡ p.pending_bytes - n
    pub part_count : next.part_count ≡ p.part_count + 1
    pub chunk_count : next.chunk_count ≡ p.chunk_count
    pub object_bytes : next.object_bytes ≡ p.object_bytes
    pub finished : next.finished ≡ p.finished

  first_open :
      (count : ℕ) (pending : List Segment)
      → 1 ≤ length (remaining pending)
      → All (IsOpen count) pending
      → first_index pending < count
  first_open count [] h o = absurd (omega (arith, h))
  first_open count (s ∷ rest) h o = o.0.1

  some_pending :
      (pending : List Segment) → 1 ≤ length (remaining pending) → no_segments pending ≡ false
  some_pending [] h = absurd (omega (arith, h))
  some_pending (s ∷ rest) h = refl

  check_flush-ok :
      (p : Packer) (n : ℕ) (final_part : Bool)
      → HoldsPending p
      → MayFlush p n final_part
      → check_flush p n final_part ≡ ok tt
  unfolding check_flush
  check_flush-ok p n final_part h m =
      let waiting = some_pending p.pending (omega (arith, h.held, m.some_bytes, m.pending)) in
      ground (arith, waiting, m.some_bytes, m.pending, m.buffer, m.full, m.room)

  abbrev closed_part : Packer → ℕ → Filled → Packer
  closed_part p n f = record p {
    pending = f.pending;
    pending_bytes = p.pending_bytes - n;
    part_count = p.part_count + 1;
  }

  close_part-ok :
      (p : Packer) (n : ℕ) (f : Filled)
      → f.complete ≡ true
      → is_manifest_part (new_part sha256_hex p f) ≡ true
      → close_part sha256_hex p n f ≡ (closed_part p n f, ok (new_part sha256_hex p f))
  unfolding close_part
  close_part-ok p n f complete valid = rw valid (rw complete)

  flush-eq :
      (p : Packer) (n : ℕ) (final_part : Bool)
      → check_flush p n final_part ≡ ok tt
      → flush sha256_hex p n final_part
        ≡ close_part sha256_hex p n (fill n p.pending [] (first_index p.pending))
  unfolding flush
  flush-eq p n final_part e = rw (flush, e)

  module _ (is_hash : (bytes : Bytes) → is_sha256 (sha256_hex bytes) ≡ true) where
    new_part-valid :
        (p : Packer) (f : Filled)
        → f.last_chunk_index < p.chunk_count
        → first_index p.pending < p.chunk_count
        → p.chunk_count ≤ 1024
        → p.part_count < 32
        → 1 ≤ length f.output
        → length f.output ≤ 16777216
        → is_manifest_part (new_part sha256_hex p f) ≡ true
    unfolding is_manifest_part new_part
    new_part-valid p f last first chunks room some_bytes few = ground (arith, is_hash f.output)

    pub flush-IsFlushed :
        (p : Packer) (n : ℕ) (final_part : Bool)
        → HoldsPending p
        → MayFlush p n final_part
        → (part : Part) × (next : Packer) × (flush sha256_hex p n final_part ≡ (next, ok part))
          × IsFlushed p n part next
    unfolding new_part
    flush-IsFlushed p n final_part h m =
        let f = fill n p.pending [] (first_index p.pending) in
        let first =
          first_open p.chunk_count p.pending (omega (arith, h.held, m.some_bytes, m.pending))
            h.all_open in
        let k =
          fill-IsFilled p.chunk_count n p.pending [] (first_index p.pending) h.all_open first
            (omega (arith, h.held, m.pending)) in
        let next = closed_part p n f in
        let valid =
          new_part-valid p f k.last first h.chunks m.room (omega (arith, k.size, m.some_bytes))
            (omega (arith, k.size, m.buffer)) in
        (
          new_part sha256_hex p f,
          next,
          flush-eq p n final_part (check_flush-ok p n final_part h m)
              ∙ close_part-ok p n f k.complete valid,
          record {
            front = k.kept;
            size = omega (arith, k.size);
            part_IsPart = record { size = refl; digest = refl; valid = valid };
            number = refl;
            all_open = k.all_open;
            pending_bytes = refl;
            part_count = refl;
            chunk_count = refl;
            object_bytes = refl;
            finished = refl;
          },
        )
