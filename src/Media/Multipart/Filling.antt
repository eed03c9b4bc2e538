-- ===== src/Media/Multipart/Filling.antt =====
-- The inner loop of `#flush`: it takes as many bytes as asked from the front of the segments.
use understandproof.Base.{
  ℕ, zero, suc, ◌+◌, ◌-◌, ◌≤◌, ◌<◌, min, ◌≡◌, refl, sym, ap, ◌∙◌, true, List, [], ◌∷◌, ◌++◌,
  append_assoc, append-nil, length, length-append, length-take, length-drop, take, drop, replicate,
  take-append-drop, drop-append, drop-drop, All, drop-all, if_either, nat_eqb, arith,
}
use understandproof.Media.Bytes.{Bytes, slice}
use understandproof.Media.Multipart.{Segment, Filled, wipe, advance, fill}

-- What the segments still hold.
abbrev pub remaining : List Segment → Bytes
remaining [] = []
remaining (s ∷ rest) = drop s.offset s.bytes ++ remaining rest

-- A segment has bytes left, and comes from one of the first `count` chunks.
abbrev pub IsOpen : ℕ → Segment → Type 0
IsOpen count s = (s.offset < length s.bytes) × (s.chunk_index < count)

length-replicate : (n x : ℕ) → length (replicate n x) ≡ n
length-replicate zero x = refl
length-replicate (suc n) x = ap suc (length-replicate n x)

length-slice :
    (from count : ℕ) (bytes : Bytes)
    → from + count ≤ length bytes
    → length (slice from (from + count) bytes) ≡ count
length-slice from count bytes h =
    omega (arith, length-take (from + count - from) (drop from bytes), length-drop from bytes)

slice-append-drop :
    (from count : ℕ) (bytes : Bytes)
    → slice from (from + count) bytes ++ drop (from + count) bytes ≡ drop from bytes
slice-append-drop from count bytes =
    let same : from + count - from ≡ count = omega arith in
    ap (λ n. take n (drop from bytes) ++ drop (from + count) bytes) same
    ∙ ap (λ t. take count (drop from bytes) ++ t) (sym (drop-drop count from bytes))
    ∙ take-append-drop count (drop from bytes)

drop-wipe :
    (from count : ℕ) (bytes : Bytes)
    → from + count ≤ length bytes
    → drop (from + count) (wipe from count bytes) ≡ drop (from + count) bytes
unfolding wipe
drop-wipe from count bytes h =
    let front = take from bytes ++ replicate count 0 in
    let size : length front ≡ from + count = omega (
      arith,
      length-append (take from bytes) (replicate count 0),
      length-take from bytes,
      length-replicate count 0,
    ) in
    ap (λ n. drop n (front ++ drop (from + count) bytes)) (sym size)
    ∙ drop-append front (drop (from + count) bytes)

length-wipe :
    (from count : ℕ) (bytes : Bytes)
    → from + count ≤ length bytes
    → length (wipe from count bytes) ≡ length bytes
unfolding wipe
length-wipe from count bytes h = omega (
  arith,
  length-append (take from bytes ++ replicate count 0) (drop (from + count) bytes),
  length-append (take from bytes) (replicate count 0),
  length-take from bytes,
  length-replicate count 0,
  length-drop (from + count) bytes,
)

-- A part that was filled: nothing is lost and nothing is mixed up.
pub record IsFilled (count needed : ℕ) (pending : List Segment) (output : Bytes) (f : Filled)
    : Type 0 where
  pub complete : f.complete ≡ true
  pub kept : f.output ++ remaining f.pending ≡ output ++ remaining pending
  pub size : length f.output ≡ length output + needed
  pub all_open : All (IsOpen count) f.pending
  pub last : f.last_chunk_index < count

module _ (count needed taken : ℕ) (s : Segment) (rest : List Segment) (output : Bytes) where
  abbrev piece : Bytes
  piece = slice s.offset (s.offset + taken) s.bytes

  used_up-IsFilled :
      (f : Filled)
      → s.offset + taken ≡ length s.bytes
      → taken ≤ needed
      → IsFilled count (needed - taken) rest (output ++ piece) f
      → IsFilled count needed (s ∷ rest) output f
  used_up-IsFilled f all_taken few k =
      let sized = length-slice s.offset taken s.bytes (omega (arith, all_taken)) in
      let none_left : drop (s.offset + taken) s.bytes ≡ [] =
        drop-all (s.offset + taken) s.bytes (omega (arith, all_taken)) in
      let whole : piece ≡ drop s.offset s.bytes =
        sym (append-nil piece)
        ∙ ap (λ t. piece ++ t) (sym none_left)
        ∙ slice-append-drop s.offset taken s.bytes in
      record {
        complete = k.complete;
        kept =
            k.kept
            ∙ append_assoc output piece (remaining rest)
            ∙ ap (λ t. output ++ (t ++ remaining rest)) whole;
        size = omega (arith, k.size, length-append output piece, sized, few);
        all_open = k.all_open;
        last = k.last;
      }

  left-IsFilled :
      IsOpen count s
      → All (IsOpen count) rest
      → s.offset + taken < length s.bytes
      → taken ≡ needed
      → IsFilled count needed (s ∷ rest) output (record {
        pending = advance taken s ∷ rest;
        output = output ++ piece;
        last_chunk_index = s.chunk_index;
        complete = true;
      })
  unfolding advance
  left-IsFilled o all_open within all_needed =
      let sized = length-slice s.offset taken s.bytes (omega (arith, within)) in
      let split : piece ++ drop (s.offset + taken) (wipe s.offset taken s.bytes)
          ≡ drop s.offset s.bytes =
        ap (λ t. piece ++ t) (drop-wipe s.offset taken s.bytes (omega (arith, within)))
        ∙ slice-append-drop s.offset taken s.bytes in
      record {
        complete = refl;
        kept =
            append_assoc output piece _
            ∙ ap (λ t. output ++ t)
                (sym (append_assoc piece _ (remaining rest)) ∙ ap (λ t. t ++ remaining rest) split);
        size = omega (arith, length-append output piece, sized, all_needed);
        all_open = (
          (omega (arith, length-wipe s.offset taken s.bytes (omega (arith, within)), within), o.1),
          all_open,
        );
        last = o.1;
      }

pub fill-IsFilled :
    (count needed : ℕ) (pending : List Segment) (output : Bytes) (last : ℕ)
    → All (IsOpen count) pending
    → last < count
    → needed ≤ length (remaining pending)
    → IsFilled count needed pending output (fill needed pending output last)
unfolding fill
fill-IsFilled count zero pending output last o l h = record {
  complete = refl;
  kept = refl;
  size = omega arith;
  all_open = o;
  last = l;
}
fill-IsFilled count (suc needed) [] output last o l h = absurd (omega (arith, h))
fill-IsFilled count (suc needed) (s ∷ rest) output last o l h =
    let available = length s.bytes - s.offset in
    let taken = min available (suc needed) in
    let within : s.offset + taken ≤ length s.bytes = omega (arith, o.0.0) in
    let enough : suc needed ≤ available + length (remaining rest) = omega (
      arith,
      h,
      length-append (drop s.offset s.bytes) (remaining rest),
      length-drop s.offset s.bytes,
    ) in
    if_either (IsFilled count (suc needed) (s ∷ rest) output)
      (nat_eqb (s.offset + taken) (length s.bytes)) _ _
      (λ used_up.
        let all_taken : s.offset + taken ≡ length s.bytes = ground arith in
        used_up-IsFilled count (suc needed) taken s rest output _ all_taken (omega arith) (
          fill-IsFilled count (suc needed - taken) rest
            (output ++ slice s.offset (s.offset + taken) s.bytes) s.chunk_index o.1 o.0.1
            (omega (arith, enough, all_taken))))
      (λ left.
        let more : s.offset + taken < length s.bytes = ground (arith, within) in
        left-IsFilled count (suc needed) taken s rest output o.0 o.1 more (omega (arith, more)))
