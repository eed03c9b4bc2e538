-- ===== src/Media/Records/Sequence/Completeness.antt =====
-- A sequence of records that were built one after the other is accepted.
use understandproof.Base.{
  ℕ, zero, suc, ◌+◌, ◌-◌, ◌≤◌, ◌<◌, ◌≡◌, refl, sym, ap, ◌∙◌, List, [], ◌∷◌, ◌++◌, some, nat, ok,
  arith, length, take, drop, concat, drop-drop, append_assoc, append-nil, length-append,
  drop-append, length-drop, subst,
}
use understandproof.Media.Protocol.{max_uint32, max_recording_object_bytes}
use understandproof.Media.Bytes.{Bytes}
use understandproof.Media.Bytes.Laws.{bytes_equal_self}
use understandproof.Media.Records.{
  ChunkInput, ChunkRecord, record_header, build_chunk_record, parse_record_at,
}
use understandproof.Media.Records.RoundTrip.{
  built, build_chunk_record-eq, parse_record_at-built, length-record_header,
}
use understandproof.Media.Records.Sequence.{
  Scan, prefix_or, scan_record, scan_records, check_nonempty, check_sequence_input, start_scan,
  parse_chunk_record_sequence,
}

-- The blocks were built from the inputs, with indices that count up from `first` and one prefix.
abbrev pub BuiltFrom : Bytes → ℕ → List ChunkInput → List Bytes → Type 0
BuiltFrom prefix first [] blocks = blocks ≡ []
BuiltFrom prefix first (i ∷ inputs) [] = ⊥
BuiltFrom prefix first (i ∷ inputs) (block ∷ blocks) =
    (build_chunk_record i ≡ ok block)
    × (i.chunk_index ≡ nat first)
    × (take 8 i.nonce ≡ prefix)
    × BuiltFrom prefix (suc first) inputs blocks

-- The records that the parser is to return.
abbrev pub built_records : List ChunkInput → List Bytes → List ChunkRecord
built_records [] blocks = []
built_records (i ∷ inputs) [] = []
built_records (i ∷ inputs) (block ∷ blocks) = built i block ∷ built_records inputs blocks

scans_built :
    (bytes : Bytes) (s : Scan) (prefix : Bytes) (i : ChunkInput) (block rest : Bytes)
    → build_chunk_record i ≡ ok block
    → i.chunk_index ≡ nat s.expected_index
    → take 8 i.nonce ≡ prefix
    → prefix_or s.nonce_prefix prefix ≡ prefix
    → length s.records < 1024
    → drop s.offset bytes ≡ block ++ rest
    → scan_record bytes s
      ≡ ok (record {
        records = s.records ++ built i block ∷ [];
        nonce_prefix = some prefix;
        offset = s.offset + length block;
        expected_index = s.expected_index + 1;
      })
unfolding scan_record
scans_built bytes s prefix i block rest b index p same room e =
    let (v, shape) = build_chunk_record-eq i block b in
    let split : drop s.offset bytes ≡ record_header i ++ (i.sealed ++ rest) =
      e ∙ ap (λ t. t ++ rest) shape ∙ append_assoc (record_header i) i.sealed rest in
    let parsed : parse_record_at bytes s.offset ≡ ok (built i block) =
      parse_record_at-built i v bytes s.offset rest split ∙ ap (λ t. ok (built i t)) (sym shape) in
    rw (parsed, p, same, bytes_equal_self prefix, index)
      (ground (arith, length-append s.records (built i block ∷ [])))

built_length :
    (i : ChunkInput) (block : Bytes) → build_chunk_record i ≡ ok block → 32 ≤ length block
built_length i block b =
    let (v, shape) = build_chunk_record-eq i block b in
    omega
      (arith, ap length shape, length-append (record_header i) i.sealed, length-record_header i v)

scan_built_records :
    (fuel : ℕ) (bytes : Bytes) (s : Scan) (prefix : Bytes) (inputs : List ChunkInput)
    (blocks : List Bytes)
    → BuiltFrom prefix s.expected_index inputs blocks
    → prefix_or s.nonce_prefix prefix ≡ prefix
    → length s.records + length inputs ≤ 1024
    → drop s.offset bytes ≡ concat blocks
    → length bytes - s.offset < fuel
    → scan_records fuel bytes s ≡ some (ok (s.records ++ built_records inputs blocks))
unfolding scan_records
scan_built_records zero bytes s prefix inputs blocks b same room e h = absurd (omega arith)
scan_built_records (suc fuel) bytes s prefix [] blocks b same room e h =
    let over : length bytes ≤ s.offset =
      omega (arith, length-drop s.offset bytes, ap length (e ∙ ap concat b)) in
    ground (arith, over, append-nil s.records)
scan_built_records (suc fuel) bytes s prefix (i ∷ inputs) [] b same room e h = absurd b
scan_built_records (suc fuel) bytes s prefix (i ∷ inputs) (block ∷ blocks) b same room e h =
    let step =
      scans_built bytes s prefix i block (concat blocks) b.0 b.1 b.2 same (omega arith) e in
    let more : s.offset < length bytes = omega (
      arith,
      length-drop s.offset bytes,
      ap length e,
      length-append block (concat blocks),
      built_length i block b.0,
    ) in
    let next : Scan = record {
      records = s.records ++ built i block ∷ [];
      nonce_prefix = some prefix;
      offset = s.offset + length block;
      expected_index = s.expected_index + 1;
    } in
    let there : drop next.offset bytes ≡ concat blocks =
      sym (drop-drop (length block) s.offset bytes)
      ∙ ap (drop (length block)) e
      ∙ drop-append block (concat blocks) in
    let rest =
      scan_built_records fuel bytes next prefix inputs blocks
        (subst (λ n. BuiltFrom prefix n inputs blocks) (omega arith) b.3) refl
        (omega (arith, length-append s.records (built i block ∷ []))) there
        (omega (arith, built_length i block b.0)) in
    ground (
      arith,
      step,
      more,
      rest,
      append_assoc s.records (built i block ∷ []) (built_records inputs blocks),
    )

length-built_records :
    (prefix : Bytes) (first : ℕ) (inputs : List ChunkInput) (blocks : List Bytes)
    → BuiltFrom prefix first inputs blocks
    → length (built_records inputs blocks) ≡ length inputs
length-built_records prefix first [] blocks b = refl
length-built_records prefix first (i ∷ inputs) [] b = absurd b
length-built_records prefix first (i ∷ inputs) (block ∷ blocks) b =
    ap suc (length-built_records prefix (suc first) inputs blocks b.3)

-- Records that were built with indices counting up from `first` and under one nonce prefix, 1 to 1024
-- of them and within the size limit, are parsed back to what they were built from.
pub parse_chunk_record_sequence-built :
    (prefix : Bytes) (first : ℕ) (inputs : List ChunkInput) (blocks : List Bytes)
    → BuiltFrom prefix first inputs blocks
    → (1 ≤ length inputs) × (length inputs ≤ 1024)
    → first ≤ max_uint32
    → length (concat blocks) ≤ max_recording_object_bytes
    → parse_chunk_record_sequence (concat blocks) (nat first)
      ≡ some (ok (built_records inputs blocks))
unfolding parse_chunk_record_sequence check_sequence_input check_nonempty
parse_chunk_record_sequence-built prefix first inputs blocks b count low small = ground (
  arith,
  scan_built_records (suc (length (concat blocks))) (concat blocks) (start_scan first) prefix inputs
      blocks b refl (omega arith) refl (omega arith),
  length-built_records prefix first inputs blocks b,
)
