-- ===== src/Media/Multipart/Packing.antt =====
-- A packer at work: every record that was pushed is in a part or pending, in order.
use understandproof.Base.{
  ℕ, zero, suc, ◌+◌, ◌*◌, ◌/◌, ◌≤◌, ◌<◌, ◌≡◌, refl, sym, ap, ◌∙◌, subst, inl, inr, true, false,
  List, [], ◌∷◌, ◌++◌, some, append_assoc, append-nil, Text, ok, throw, drop, length, length-append,
  All, All-append, All-map, Bool-cases, leb, arith,
}
use understandproof.Domain.Primitives.{is_sha256}
use understandproof.Media.Bytes.{Bytes}
use understandproof.Media.Records.{ChunkRecord, parse_chunk_record}
use understandproof.Media.Records.Bounds.{parse_chunk_record-IsWhole}
use understandproof.Media.Multipart.{
  Segment, Packer, Part, PartFailure, flush, flush_ready, check_push, enqueue, push,
}
use understandproof.Media.Multipart.Filling.{remaining, IsOpen}
use understandproof.Media.Multipart.Flushing.{
  HoldsPending, MayFlush, IsPart, IsFlushed, flush-IsFlushed,
}

abbrev pub bytes_of : List Part → Bytes
bytes_of [] = []
bytes_of (part ∷ parts) = part.bytes ++ bytes_of parts

-- The part numbers count up from a number.
abbrev pub Numbered : ℕ → List Part → Type 0
Numbered n [] = Unit
Numbered n (part ∷ parts) = (part.part_number ≡ n) × Numbered (suc n) parts

bytes_of-append : (xs ys : List Part) → bytes_of (xs ++ ys) ≡ bytes_of xs ++ bytes_of ys
bytes_of-append [] ys = refl
bytes_of-append (part ∷ xs) ys =
    ap (λ t. part.bytes ++ t) (bytes_of-append xs ys)
    ∙ sym (append_assoc part.bytes (bytes_of xs) (bytes_of ys))

pub bytes_of-snoc :
    (xs : List Part) (part : Part) → bytes_of (xs ++ part ∷ []) ≡ bytes_of xs ++ part.bytes
bytes_of-snoc xs part =
    bytes_of-append xs (part ∷ []) ∙ ap (λ t. bytes_of xs ++ t) (append-nil part.bytes)

pub Numbered-snoc :
    (n : ℕ) (xs : List Part) (part : Part)
    → Numbered n xs
    → part.part_number ≡ n + length xs
    → Numbered n (xs ++ part ∷ [])
Numbered-snoc n [] part h e = (omega (arith, e), tt)
Numbered-snoc n (x ∷ xs) part h e = (h.0, Numbered-snoc (suc n) xs part h.1 (omega (arith, e)))

remaining-append : (xs ys : List Segment) → remaining (xs ++ ys) ≡ remaining xs ++ remaining ys
remaining-append [] ys = refl
remaining-append (s ∷ xs) ys =
    ap (λ t. drop s.offset s.bytes ++ t) (remaining-append xs ys)
    ∙ sym (append_assoc (drop s.offset s.bytes) (remaining xs) (remaining ys))

module _ (sha256_hex : Bytes → Text) where
  -- A packer that is at work on the pushed bytes and has given out the parts, all of 8 MiB.
  pub record IsPacking (pushed : Bytes) (parts : List Part) (p : Packer) : Type 0 where
    pub holds : HoldsPending p
    pub conserved : bytes_of parts ++ remaining p.pending ≡ pushed
    pub numbered : Numbered 1 parts
    pub valid : All (IsPart sha256_hex) parts
    pub full : All (λ q. length q.bytes ≡ 8388608) parts
    pub count : p.part_count ≡ length parts
    pub account : p.part_count * 8388608 + p.pending_bytes ≡ p.object_bytes
    pub object : p.object_bytes ≡ length pushed
    pub bounded : p.object_bytes ≤ 134217728
    pub unfinished : p.finished ≡ false

  module _ (pushed : Bytes) (parts : List Part) (p : Packer) (part : Part) (next : Packer) where
    IsFlushed-IsPacking :
        IsPacking pushed parts p
        → 8388608 ≤ p.pending_bytes
        → IsFlushed sha256_hex p 8388608 part next
        → IsPacking pushed (parts ++ part ∷ []) next
    IsFlushed-IsPacking k enough f = record {
      holds = record {
        held = omega (
          arith,
          ap length f.front,
          length-append part.bytes (remaining next.pending),
          f.size,
          k.holds.held,
          f.pending_bytes,
        );
        all_open = subst (λ n. All (IsOpen n) next.pending) (sym f.chunk_count) f.all_open;
        chunks = omega (arith, f.chunk_count, k.holds.chunks);
      };
      conserved =
          ap (λ t. t ++ remaining next.pending) (bytes_of-snoc parts part)
          ∙ append_assoc (bytes_of parts) part.bytes (remaining next.pending)
          ∙ ap (λ t. bytes_of parts ++ t) f.front
          ∙ k.conserved;
      numbered = Numbered-snoc 1 parts part k.numbered (omega (arith, f.number, k.count));
      valid = All-append (IsPart sha256_hex) parts (part ∷ []) k.valid (f.part_IsPart, tt);
      full = All-append (λ q. length q.bytes ≡ 8388608) parts (part ∷ []) k.full (f.size, tt);
      count = omega (arith, f.part_count, k.count, length-append parts (part ∷ []));
      account = omega (arith, f.part_count, f.pending_bytes, f.object_bytes, k.account, enough);
      object = f.object_bytes ∙ k.object;
      bounded = omega (arith, f.object_bytes, k.bounded);
      unfinished = f.finished ∙ k.unfinished;
    }

  module _ (is_hash : (bytes : Bytes) → is_sha256 (sha256_hex bytes) ≡ true) where
    -- The loop of `push` ends with less than a part pending.
    pub record IsReady (pushed : Bytes) (before : List Part) (p next : Packer) (ready : List Part)
        : Type 0 where
      pub packing : IsPacking pushed (before ++ ready) next
      pub little : next.pending_bytes < 8388608
      pub chunk_count : next.chunk_count ≡ p.chunk_count
      pub object_bytes : next.object_bytes ≡ p.object_bytes

    flush_ready-stop :
        (fuel : ℕ) (p : Packer) (ready : List Part)
        → p.pending_bytes < 8388608
        → flush_ready sha256_hex (suc fuel) p ready ≡ some (p, ok ready)
    unfolding flush_ready
    flush_ready-stop fuel p ready h = ground arith

    flush_ready-next :
        (fuel : ℕ) (p next : Packer) (part : Part) (ready : List Part)
        → 8388608 ≤ p.pending_bytes
        → flush sha256_hex p 8388608 false ≡ (next, ok part)
        → flush_ready sha256_hex (suc fuel) p ready
          ≡ flush_ready sha256_hex fuel next (ready ++ part ∷ [])
    unfolding flush_ready
    flush_ready-next fuel p next part ready h e =
        let state : (flush sha256_hex p 8388608 false).0 ≡ next = ap (λ s. s.0) e in
        let result : (flush sha256_hex p 8388608 false).1 ≡ ok part = ap (λ s. s.1) e in
        ground (arith, state, result)

    pub flush_ready-IsReady :
        (fuel : ℕ) (pushed : Bytes) (before ready : List Part) (p : Packer)
        → IsPacking pushed (before ++ ready) p
        → p.pending_bytes < fuel * 8388608
        → (parts : List Part) × (next : Packer) × (flush_ready sha256_hex fuel p ready
            ≡ some (next, ok parts))
          × IsReady pushed before p next parts
    flush_ready-IsReady zero pushed before ready p k h = absurd (omega (arith, h))
    flush_ready-IsReady (suc fuel) pushed before ready p k h =
        elim (Bool-cases (leb 8388608 p.pending_bytes)) [
          | inr less ↦ (
            ready,
            p,
            flush_ready-stop fuel p ready (ground arith),
            record { packing = k; little = ground arith; chunk_count = refl; object_bytes = refl },
          )
          | inl enough ↦
              let may : MayFlush p 8388608 false = record {
                some_bytes = omega arith;
                pending = ground arith;
                buffer = omega arith;
                full = inr refl;
                room = ground (arith, k.account, k.bounded);
              } in
              let (part, next, e, f) =
                flush-IsFlushed sha256_hex is_hash p 8388608 false k.holds may in
              let pushed_on =
                IsFlushed-IsPacking pushed (before ++ ready) p part next k (ground arith) f in
              let packing =
                subst (λ parts. IsPacking pushed parts next) (append_assoc before ready (part ∷ []))
                  pushed_on in
              let (parts, end, run, r) =
                flush_ready-IsReady fuel pushed before (ready ++ part ∷ []) next packing
                  (omega (arith, f.pending_bytes, h)) in
              (
                parts,
                end,
                flush_ready-next fuel p next part ready (ground arith) e ∙ run,
                record {
                  packing = r.packing;
                  little = r.little;
                  chunk_count = r.chunk_count ∙ f.chunk_count;
                  object_bytes = r.object_bytes ∙ f.object_bytes;
                },
              )
        ]

  pub check_push-inv :
      (p : Packer) (bytes : Bytes) (found : ChunkRecord)
      → check_push p bytes ≡ ok found
      → (parse_chunk_record bytes ≡ ok found)
        × (found.chunk_index ≡ p.chunk_count)
        × (p.chunk_count < 1024)
        × (p.object_bytes + length found.bytes ≤ 134217728)
  unfolding check_push
  check_push-inv p bytes found e = ground arith

  pub check_push-ok :
      (p : Packer) (bytes : Bytes) (found : ChunkRecord)
      → parse_chunk_record bytes ≡ ok found
      → found.chunk_index ≡ p.chunk_count
      → p.finished ≡ false
      → p.chunk_count < 1024
      → p.pending_bytes + length found.bytes ≤ 16777216
      → p.object_bytes + length found.bytes ≤ 134217728
      → check_push p bytes ≡ ok found
  unfolding check_push
  check_push-ok p bytes found parsed index unfinished few pending object = ground arith

  pub enqueue-IsPacking :
      (pushed : Bytes) (parts : List Part) (p : Packer) (bytes : Bytes) (found : ChunkRecord)
      → IsPacking pushed parts p
      → check_push p bytes ≡ ok found
      → IsPacking (pushed ++ bytes) parts (enqueue found p)
  unfolding enqueue
  enqueue-IsPacking pushed parts p bytes found k e =
      let (parsed, index, few, object) = check_push-inv p bytes found e in
      let whole = parse_chunk_record-IsWhole bytes found parsed in
      let segment : Segment = record {
        chunk_index = found.chunk_index;
        bytes = found.bytes;
        offset = 0;
      } in
      let added : remaining (p.pending ++ segment ∷ []) ≡ remaining p.pending ++ bytes =
        remaining-append p.pending (segment ∷ [])
        ∙ ap (λ t. remaining p.pending ++ t) (append-nil found.bytes ∙ whole.same) in
      let size : length found.bytes ≡ length bytes = ap length whole.same in
      record {
        holds = record {
          held = omega (
            arith,
            ap length added,
            length-append (remaining p.pending) bytes,
            k.holds.held,
            size,
          );
          all_open =
              All-append (IsOpen (p.chunk_count + 1)) p.pending (segment ∷ [])
                (All-map (λ s. λ o. (o.0, omega (arith, o.1))) p.pending k.holds.all_open)
                ((omega (arith, size, whole.long), omega (arith, index)), tt);
          chunks = omega (arith, few);
        };
        conserved =
            ap (λ t. bytes_of parts ++ t) added
            ∙ sym (append_assoc (bytes_of parts) (remaining p.pending) bytes)
            ∙ ap (λ t. t ++ bytes) k.conserved;
        numbered = k.numbered;
        valid = k.valid;
        full = k.full;
        count = k.count;
        account = omega (arith, k.account);
        object = omega (arith, k.object, length-append pushed bytes, size);
        bounded = object;
        unfinished = k.unfinished;
      }

  pub push-eq :
      (p : Packer) (bytes : Bytes) (found : ChunkRecord)
      → check_push p bytes ≡ ok found
      → push sha256_hex p bytes
        ≡ flush_ready sha256_hex
            (suc ((enqueue found p).pending_bytes / 8388608))
            (enqueue found p)
            []
  unfolding push
  push-eq p bytes found e = rw (push, e)

  pub push-eq-throw :
      (p : Packer) (bytes : Bytes) (e : PartFailure)
      → check_push p bytes ≡ throw e
      → push sha256_hex p bytes ≡ some (p, throw e)
  unfolding push
  push-eq-throw p bytes e h = rw (push, h)
