-- ===== src/Media/Manifest/Schema/Layout.antt =====
-- Where the records of a manifest's chunks stand in the object, and which of them a part has to name.
use understandproof.Base.{
  ℕ, zero, suc, ◌+◌, ◌≤◌, ◌<◌, ◌≡◌, ◌≢◌, ◌↔◌, ◌⊎◌, inl, inr, refl, ap, subst, ◌∙◌, Bool, true,
  false, ◌&&◌, List, [], ◌∷◌, Option, none, some, arith, length, get_or, leb, ltb, if◌then◌else◌,
  Bool-cases,
}
use understandproof.Media.Manifest.{ManifestChunk, ManifestPart}
use understandproof.Media.Manifest.Schema.{
  chunk_offsets, first_chunk_after, last_chunk_before, has_chunk_range, object_total,
}

-- The offset of the record of a chunk, when the first record stands at `start`. Past the last one it is
-- the end of the object.
unfoldable pub record_offset : ℕ → List ManifestChunk → ℕ → ℕ
record_offset start chunks zero = start
record_offset start [] (suc i) = start
record_offset start (c ∷ rest) (suc i) = record_offset (start + (32 + c.sealed_bytes)) rest i

-- The record of the chunk shares a byte with the part.
unfoldable pub Intersects : List ManifestChunk → ℕ → ManifestPart → ℕ → Type 0
Intersects chunks part_start p i =
    (i < length chunks)
    × (part_start < record_offset 0 chunks (suc i))
    × (record_offset 0 chunks i < part_start + p.byte_length)

-- The range of chunks that a part names is that of the records that it shares a byte with.
unfoldable pub NamesRecords : List ManifestChunk → ℕ → ManifestPart → Type 0
NamesRecords chunks part_start p =
    (i : ℕ)
    → ((p.first_chunk_index ≤ i) × (i ≤ p.last_chunk_index)) ↔ Intersects chunks part_start p i

record_offset-from :
    (start : ℕ) (chunks : List ManifestChunk) (i : ℕ) → start ≤ record_offset start chunks i
unfolding record_offset
record_offset-from start chunks zero = omega arith
record_offset-from start [] (suc i) = omega arith
record_offset-from start (c ∷ rest) (suc i) =
    omega (arith, record_offset-from (start + (32 + c.sealed_bytes)) rest i)

pub record_offset-monotone :
    (start : ℕ) (chunks : List ManifestChunk) (i j : ℕ)
    → i ≤ j
    → record_offset start chunks i ≤ record_offset start chunks j
unfolding record_offset
record_offset-monotone start chunks zero j h = record_offset-from start chunks j
record_offset-monotone start chunks (suc i) zero h = absurd (omega (arith, h))
record_offset-monotone start [] (suc i) (suc j) h = omega arith
record_offset-monotone start (c ∷ rest) (suc i) (suc j) h =
    record_offset-monotone (start + (32 + c.sealed_bytes)) rest i j (omega (arith, h))

-- What the search for the first chunk finds, counted from the chunk that it starts with.
record First (start part_start : ℕ) (chunks : List ManifestChunk) (j : ℕ) : Type 0 where
  pub within : j < length chunks
  pub ends_after : part_start < record_offset start chunks (suc j)
  pub is_first : (j ≡ 0) ⊎ (record_offset start chunks j ≤ part_start)

next_offset : (t : ℕ) (rest : List ManifestChunk) (d : ℕ) → get_or (chunk_offsets t rest) 0 d ≡ t
unfolding chunk_offsets
next_offset t [] d = refl
next_offset t (c ∷ rest) d = refl

first_chunk_after-step :
    (count index start t part_start : ℕ) (rest : List ManifestChunk)
    → first_chunk_after count index (start ∷ chunk_offsets t rest) part_start ≡ (
        if ltb index count && ltb part_start t
        then some index
        else first_chunk_after count (suc index) (chunk_offsets t rest) part_start)
unfolding first_chunk_after
first_chunk_after-step count index start t part_start rest = rw (next_offset t rest start) refl

first_chunk_after-end :
    (count index start part_start k : ℕ)
    → count ≤ index
    → first_chunk_after count index (chunk_offsets start []) part_start ≢ some k
unfolding first_chunk_after chunk_offsets
first_chunk_after-end count index start part_start k h e = ground (arith, h, e)

First-later :
    (start part_start : ℕ) (c : ManifestChunk) (rest : List ManifestChunk) (j : ℕ)
    → start + (32 + c.sealed_bytes) ≤ part_start
    → First (start + (32 + c.sealed_bytes)) part_start rest j
    → First start part_start (c ∷ rest) (suc j)
unfolding record_offset
First-later start part_start c rest j before found = record {
  within = omega (arith, found.within);
  ends_after = found.ends_after;
  is_first = inr (elim found.is_first [ inl starts ↦ rw starts before | inr ended ↦ ended ]);
}

first_chunk_after-First :
    (count index start part_start k : ℕ) (chunks : List ManifestChunk)
    → count ≡ index + length chunks
    → first_chunk_after count index (chunk_offsets start chunks) part_start ≡ some k
    → (j : ℕ) × (k ≡ index + j) × First start part_start chunks j
unfolding chunk_offsets record_offset
first_chunk_after-First count index start part_start k [] size e =
    absurd (first_chunk_after-end count index start part_start k (omega (arith, size)) e)
first_chunk_after-First count index start part_start k (c ∷ rest) size e =
    let next = start + (32 + c.sealed_bytes) in
    let step = first_chunk_after-step count index start next part_start rest in
    elim (Bool-cases (ltb part_start next)) [
      | inl here ↦ (
        0,
        ground (arith, size, e, step, here),
        record { within = omega arith; ends_after = ground (arith, here); is_first = inl refl },
      )
      | inr later ↦
          let (j, same, found) =
            first_chunk_after-First count (suc index) next part_start k rest (omega (arith, size))
              (ground (arith, e, step, later)) in
          (
            suc j,
            omega (arith, same),
            First-later start part_start c rest j (ground (arith, later)) found,
          )
    ]

-- What the loop for the last chunk finds.
record Last (start part_end : ℕ) (chunks : List ManifestChunk) (j : ℕ) : Type 0 where
  pub within : j < length chunks
  pub starts_before : record_offset start chunks j < part_end
  pub is_last : (suc j ≡ length chunks) ⊎ (part_end ≤ record_offset start chunks (suc j))

Last-later :
    (start part_end : ℕ) (c : ManifestChunk) (rest : List ManifestChunk) (j : ℕ)
    → Last (start + (32 + c.sealed_bytes)) part_end rest j
    → Last start part_end (c ∷ rest) (suc j)
unfolding record_offset
Last-later start part_end c rest j found = record {
  within = omega (arith, found.within);
  starts_before = found.starts_before;
  is_last = elim found.is_last [ inl ends ↦ inl (omega (arith, ends)) | inr after ↦ inr after ];
}

chosen :
    (b : Bool) (index : ℕ) (last : Option ℕ)
    → b ≡ true
    → (if b then some index else last) ≡ some (index + 0)
chosen true index last e = ap some {y = index + 0} (omega arith)
chosen false index last e = absurd (ground (arith, e))

-- Either a chunk from here on starts before the end of the part, or none does.
last_chunk_before-cases :
    (index start part_end : ℕ) (last : Option ℕ) (chunks : List ManifestChunk)
    → ((j : ℕ) × (last_chunk_before (length chunks) index (chunk_offsets start chunks) part_end last
          ≡ some (index + j))
        × Last start part_end chunks j)
      ⊎ ((last_chunk_before (length chunks) index (chunk_offsets start chunks) part_end last ≡ last)
          × ((chunks ≡ []) ⊎ (part_end ≤ start)))
unfolding last_chunk_before chunk_offsets record_offset
last_chunk_before-cases index start part_end last [] = inr (refl, inl refl)
last_chunk_before-cases index start part_end last (c ∷ rest) =
    let next = start + (32 + c.sealed_bytes) in
    let found = if ltb start part_end then some index else last in
    elim (last_chunk_before-cases (suc index) next part_end found rest) [
      | inl (j, same, later) ↦ inl (
        suc j,
        same ∙ ap some {y = index + suc j} (omega arith),
        Last-later start part_end c rest j later,
      )
      | inr (same, none_after) ↦ elim (Bool-cases (ltb start part_end)) [
        | inl before ↦ inl (
          0,
          same ∙ chosen (ltb start part_end) index last before,
          record {
            within = omega arith;
            starts_before = ground (arith, before);
            is_last = elim none_after [
              | inl ends ↦ inl (omega (arith, ap length ends))
              | inr after ↦ inr after
            ];
          },
        )
        | inr after ↦ inr (same ∙ rw after refl, inr (ground (arith, after)))
      ]
    ]

last_chunk_before-Last :
    (part_end k : ℕ) (chunks : List ManifestChunk)
    → last_chunk_before (length chunks) 0 (chunk_offsets 0 chunks) part_end none ≡ some k
    → Last 0 part_end chunks k
last_chunk_before-Last part_end k chunks e =
    elim (last_chunk_before-cases 0 0 part_end none chunks) [
      | inl (j, same, found) ↦ subst (Last 0 part_end chunks) (ground (arith, e, same)) found
      | inr (same, none_after) ↦ absurd (ground (arith, e, same))
    ]

has_chunk_range-inv :
    (chunks : List ManifestChunk) (total part_start : ℕ) (p : ManifestPart)
    → has_chunk_range chunks total part_start p ≡ true
    → (first_chunk_after (length chunks) 0 (chunk_offsets 0 chunks) part_start
        ≡ some p.first_chunk_index)
      × (last_chunk_before
            (length chunks)
            0
            (chunk_offsets 0 chunks)
            (part_start + p.byte_length)
            none
          ≡ some p.last_chunk_index)
unfolding has_chunk_range
has_chunk_range-inv chunks total part_start p e = ground arith

le_unless : (a b : ℕ) → (b < a → ⊥) → a ≤ b
le_unless a b h = elim (Bool-cases (leb a b)) [
  | inl le ↦ ground (arith, le)
  | inr gt ↦ absurd (h (ground (arith, gt)))
]

intersects-of_range :
    (chunks : List ManifestChunk) (part_start : ℕ) (p : ManifestPart)
    → First 0 part_start chunks p.first_chunk_index
    → Last 0 (part_start + p.byte_length) chunks p.last_chunk_index
    → NamesRecords chunks part_start p
unfolding NamesRecords Intersects
intersects-of_range chunks part_start p first last i =
    let offset_le = record_offset-monotone 0 chunks in
    (
      λ named. (
        omega (arith, named.1, last.within),
        omega (
          arith,
          first.ends_after,
          offset_le (suc p.first_chunk_index) (suc i) (omega (arith, named.0)),
        ),
        omega (arith, last.starts_before, offset_le i p.last_chunk_index named.1),
      ),
      λ meets. (
        le_unless p.first_chunk_index i (λ lower. elim first.is_first [
          | inl starts ↦ omega (arith, lower, starts)
          | inr before ↦
              omega (
                arith,
                meets.1,
                before,
                offset_le (suc i) p.first_chunk_index (omega (arith, lower)),
              )
        ]),
        le_unless i p.last_chunk_index (λ higher. elim last.is_last [
          | inl ends ↦ omega (arith, higher, ends, meets.0)
          | inr after ↦
              omega (
                arith,
                meets.2,
                after,
                offset_le (suc p.last_chunk_index) i (omega (arith, higher)),
              )
        ]),
      ),
    )

pub has_chunk_range-NamesRecords :
    (chunks : List ManifestChunk) (total part_start : ℕ) (p : ManifestPart)
    → has_chunk_range chunks total part_start p ≡ true
    → NamesRecords chunks part_start p
has_chunk_range-NamesRecords chunks total part_start p e =
    let (found, last) = has_chunk_range-inv chunks total part_start p e in
    let (j, same, first) =
      first_chunk_after-First (length chunks) 0 0 part_start p.first_chunk_index chunks
        (omega arith) found in
    intersects-of_range chunks part_start p
      (subst (First 0 part_start chunks) {y = p.first_chunk_index} (omega (arith, same)) first)
      (last_chunk_before-Last (part_start + p.byte_length) p.last_chunk_index chunks last)

-- The end of the last record is the size of the object.
pub record_offset-length :
    (start : ℕ) (chunks : List ManifestChunk)
    → record_offset start chunks (length chunks) ≡ start + object_total chunks
unfolding record_offset object_total
record_offset-length start [] = omega arith
record_offset-length start (c ∷ rest) =
    omega (arith, record_offset-length (start + (32 + c.sealed_bytes)) rest)
