-- ===== src/Media/Multipart/Uploads.antt =====
-- `packChunkRecords`: when it packs, and what into.
use understandproof.Base.{
  ℕ, suc, ◌+◌, ◌≤◌, ◌<◌, ◌≡◌, refl, sym, ap, ◌∙◌, subst, ◌⊎◌, inl, inr, true, List, [], ◌∷◌, ◌++◌,
  some, append_assoc, append-nil, Text, Outcome, ok, throw, length, length-append, concat,
  Outcome-cases, Bool-cases, ltb, ◌||◌, arith,
}
use understandproof.Domain.Primitives.{is_sha256}
use understandproof.Media.Protocol.{limit_exceeded}
use understandproof.Media.Bytes.{Bytes}
use understandproof.Media.Records.{ChunkRecord, parse_chunk_record}
use understandproof.Media.Records.Bounds.{parse_chunk_record-IsWhole}
use understandproof.Media.Multipart.{
  Packer, Part, PartFailure, refused, new_packer, check_push, enqueue, push, finish, pack_all,
  pack_chunk_records,
}
use understandproof.Media.Multipart.Packing.{
  IsPacking, check_push-inv, check_push-ok, push-eq-throw,
}
use understandproof.Media.Multipart.Packed.{IsUpload, push-IsReady, finish-IsUpload}

-- Each of the byte arrays is a record, and their indices count up from a number.
abbrev pub AreRecords : ℕ → List Bytes → Type 0
AreRecords index [] = Unit
AreRecords index (bytes ∷ rest) =
    ((found : ChunkRecord) × (parse_chunk_record bytes ≡ ok found) × (found.chunk_index ≡ index))
    × AreRecords (suc index) rest

-- 1 to 1024 records, with indices from 0, of at most 128 MiB together.
pub record IsPackable (records : List Bytes) : Type 0 where
  pub count : (1 ≤ length records) × (length records ≤ 1024)
  pub indexed : AreRecords 0 records
  pub size : length (concat records) ≤ 134217728

module _ (sha256_hex : Bytes → Text) where
  pack_all-end :
      (p next : Packer) (result new : List Part)
      → finish sha256_hex p ≡ (next, ok new)
      → pack_all sha256_hex p result [] ≡ some (ok (result ++ new))
  unfolding pack_all
  pack_all-end p next result new e =
      let returned : (finish sha256_hex p).1 ≡ ok new = ap (λ s. s.1) e in rw (pack_all, returned)

  pack_all-next :
      (p next : Packer) (result new : List Part) (bytes : Bytes) (rest : List Bytes)
      → push sha256_hex p bytes ≡ some (next, ok new)
      → pack_all sha256_hex p result (bytes ∷ rest) ≡ pack_all sha256_hex next (result ++ new) rest
  unfolding pack_all
  pack_all-next p next result new bytes rest e = rw (pack_all, e)

  pack_all-throw :
      (p next : Packer) (result : List Part) (bytes : Bytes) (rest : List Bytes)
      (failure : PartFailure)
      → push sha256_hex p bytes ≡ some (next, throw failure)
      → pack_all sha256_hex p result (bytes ∷ rest) ≡ some (throw failure)
  unfolding pack_all
  pack_all-throw p next result bytes rest failure e = rw (pack_all, e)

  module _ (is_hash : (bytes : Bytes) → is_sha256 (sha256_hex bytes) ≡ true) where
    -- The rest of the records can still be packed.
    abbrev Fits : Packer → List Bytes → Type 0
    Fits p records =
        AreRecords p.chunk_count records × (p.object_bytes + length (concat records) ≤ 134217728)

    enqueued :
        (p : Packer) (found : ChunkRecord)
        → ((enqueue found p).chunk_count ≡ suc p.chunk_count)
          × ((enqueue found p).object_bytes ≡ p.object_bytes + length found.bytes)
    unfolding enqueue
    enqueued p found = (omega arith, refl)

    abbrev IsNext : ℕ → Bytes → Type 0
    IsNext index bytes =
        (found : ChunkRecord) × (parse_chunk_record bytes ≡ ok found) × (found.chunk_index ≡ index)

    Fits-IsNext :
        (p next : Packer) (bytes : Bytes) (rest : List Bytes)
        → next.chunk_count ≡ suc p.chunk_count
        → next.object_bytes ≡ p.object_bytes + length bytes
        → (Fits p (bytes ∷ rest) → Fits next rest)
          × (IsNext p.chunk_count bytes × Fits next rest → Fits p (bytes ∷ rest))
    Fits-IsNext p next bytes rest counted sized =
        let joined = length-append bytes (concat rest) in
        (
          λ fits. (
            subst (λ n. AreRecords n rest) (sym counted) fits.0.1,
            omega (arith, fits.1, joined, sized),
          ),
          λ fits. (
            (fits.0, subst (λ n. AreRecords n rest) counted fits.1.0),
            omega (arith, fits.1.1, joined, sized),
          ),
        )

    refused-Fits :
        (pushed : Bytes) (result : List Part) (p : Packer) (bytes : Bytes) (rest : List Bytes)
        (failure : PartFailure)
        → IsPacking sha256_hex pushed result p
        → p.pending_bytes < 8388608
        → p.chunk_count < 1024
        → check_push p bytes ≡ throw failure
        → ¬ Fits p (bytes ∷ rest)
    refused-Fits pushed result p bytes rest failure k little few e fits =
        let (found, parsed, index) = fits.0.0 in
        let whole = parse_chunk_record-IsWhole bytes found parsed in
        let size : length found.bytes ≡ length bytes = ap length whole.same in
        let accepted =
          check_push-ok sha256_hex p bytes found parsed index k.unfinished few
            (omega (arith, size, whole.short, little))
            (omega (arith, size, fits.1, length-append bytes (concat rest))) in
        cc

    abbrev Packs : Bytes → Packer → List Part → List Bytes → Type 0
    Packs pushed p result records =
        (parts : List Part) × (pack_all sha256_hex p result records ≡ some (ok parts))
        × IsUpload sha256_hex (pushed ++ concat records) parts
        × Fits p records

    abbrev Refuses : Packer → List Part → List Bytes → Type 0
    Refuses p result records =
        (failure : PartFailure) × (pack_all sha256_hex p result records ≡ some (throw failure))
        × (¬ Fits p records)

    pack_all-cases :
        (pushed : Bytes) (result : List Part) (p : Packer) (records : List Bytes)
        → IsPacking sha256_hex pushed result p
        → p.pending_bytes < 8388608
        → 1 ≤ p.chunk_count + length records
        → p.chunk_count + length records ≤ 1024
        → Packs pushed p result records ⊎ Refuses p result records
    pack_all-cases pushed result p [] k little some_records few =
        let (new, next, e, upload) =
          finish-IsUpload sha256_hex is_hash pushed result p k little
            (omega (arith, some_records)) in
        inl (
          result ++ new,
          pack_all-end p next result new e,
          subst (λ t. IsUpload sha256_hex t (result ++ new)) (sym (append-nil pushed)) upload,
          (tt, omega (arith, k.bounded)),
        )
    pack_all-cases pushed result p (bytes ∷ rest) k little some_records few =
        elim (Outcome-cases (check_push p bytes)) [
          | inr (failure, e) ↦ inr (
            failure,
            pack_all-throw p p result bytes rest failure
                (push-eq-throw sha256_hex p bytes failure e),
            λ fits.
                refused-Fits pushed result p bytes rest failure k little (omega (arith, few)) e
                  fits,
          )
          | inl (found, e) ↦
              let (new, next, run, r) =
                push-IsReady sha256_hex is_hash pushed result p bytes found k e in
              let counted : next.chunk_count ≡ suc p.chunk_count =
                r.chunk_count ∙ (enqueued p found).0 in
              let (parsed, index, _, _) = check_push-inv sha256_hex p bytes found e in
              let sized : next.object_bytes ≡ p.object_bytes + length bytes =
                r.object_bytes
                ∙ (enqueued p found).1
                ∙ ap (λ b. p.object_bytes + length b)
                    (parse_chunk_record-IsWhole bytes found parsed).same in
              let onward = pack_all-next p next result new bytes rest run in
              let fits = Fits-IsNext p next bytes rest counted sized in
              elim (pack_all-cases (pushed ++ bytes) (result ++ new) next rest r.packing r.little
                (omega (arith, counted)) (omega (arith, counted, few))) [
                  | inl (parts, packed, upload, fitted) ↦ inl (
                    parts,
                    onward ∙ packed,
                    subst (λ t. IsUpload sha256_hex t parts)
                        (append_assoc pushed bytes (concat rest)) upload,
                    fits.1 ((found, parsed, index), fitted),
                  )
                  | inr (failure, thrown, unfit) ↦
                      inr (failure, onward ∙ thrown, λ fitted. unfit (fits.0 fitted))
                ]
        ]

    start-IsPacking : IsPacking sha256_hex [] [] new_packer
    start-IsPacking = record {
      holds = record { held = refl; all_open = tt; chunks = omega arith };
      conserved = refl;
      numbered = tt;
      valid = tt;
      full = tt;
      count = refl;
      account = omega arith;
      object = refl;
      bounded = omega arith;
      unfinished = refl;
    }

    abbrev HasCount : List Bytes → Type 0
    HasCount records = (1 ≤ length records) × (length records ≤ 1024)

    counted-cases :
        (records : List Bytes)
        → (HasCount records
            × (pack_chunk_records sha256_hex records ≡ pack_all sha256_hex new_packer [] records))
          ⊎ ((¬ HasCount records)
              × (failure : PartFailure) × (pack_chunk_records sha256_hex records
                  ≡ some (throw failure)))
    unfolding pack_chunk_records
    counted-cases records =
        elim (Bool-cases (ltb (length records) 1 || ltb 1024 (length records))) [
          | inl bad ↦
              inr (λ fits. ground (arith, fits.0, fits.1), refused limit_exceeded, ground arith)
          | inr good ↦ inl (ground arith, ground arith)
        ]

    -- With a SHA-256 whose hexadecimal has 64 lower-case digits, the packing of records always ends:
    -- it returns parts or throws.
    pub pack_chunk_records_total :
        (records : List Bytes)
        → (result : Outcome PartFailure (List Part)) × (pack_chunk_records sha256_hex records
            ≡ some result)
    pack_chunk_records_total records = elim (counted-cases records) [
      | inr (_, failure, e) ↦ (throw failure, e)
      | inl (count, e) ↦
          elim (pack_all-cases [] [] new_packer records start-IsPacking (omega arith)
            (omega (arith, count)) (omega (arith, count))) [
              | inl (parts, packed, _, _) ↦ (ok parts, e ∙ packed)
              | inr (failure, thrown, _) ↦ (throw failure, e ∙ thrown)
            ]
    ]

    -- With such a SHA-256, parts come only of 1 to 1024 records with indices from 0 and of at most 128 MiB. They are the
    -- records' bytes in order, cut into at most 16 parts that are numbered from 1, all of 8 MiB but for
    -- a last one that may be smaller, each with its length and digest.
    pub pack_chunk_records_sound :
        (records : List Bytes) (parts : List Part)
        → pack_chunk_records sha256_hex records ≡ some (ok parts)
        → IsPackable records × IsUpload sha256_hex (concat records) parts
    pack_chunk_records_sound records parts h = elim (counted-cases records) [
      | inr (_, failure, e) ↦ absurd (ground (arith, e))
      | inl (count, e) ↦
          elim (pack_all-cases [] [] new_packer records start-IsPacking (omega arith)
            (omega (arith, count)) (omega (arith, count))) [
              | inr (failure, thrown, _) ↦ absurd (ground (arith, e, thrown))
              | inl (found, packed, upload, fits) ↦
                  let same : found ≡ parts = ground (arith, e, packed) in
                  (
                    record { count = count; indexed = fits.0; size = omega (arith, fits.1) },
                    subst (IsUpload sha256_hex (concat records)) same upload,
                  )
            ]
    ]

    -- With such a SHA-256, 1 to 1024 records with indices from 0 and of at most 128 MiB are always
    -- packed.
    pub pack_chunk_records_complete :
        (records : List Bytes)
        → IsPackable records
        → (parts : List Part) × (pack_chunk_records sha256_hex records ≡ some (ok parts))
    pack_chunk_records_complete records h = elim (counted-cases records) [
      | inr (unfit, _, _) ↦ absurd (unfit h.count)
      | inl (count, e) ↦
          elim (pack_all-cases [] [] new_packer records start-IsPacking (omega arith)
            (omega (arith, count)) (omega (arith, count))) [
              | inl (parts, packed, _, _) ↦ (parts, e ∙ packed)
              | inr (failure, thrown, unfit) ↦ absurd (unfit (h.indexed, omega (arith, h.size)))
            ]
    ]
