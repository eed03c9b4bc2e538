-- ===== src/Media/Records/Sequence/Accepted.antt =====
-- The whole of `parseChunkRecordSequence`: it always comes to an end, and what it accepts.
use understandproof.Base.{
  ℕ, zero, suc, ◌-◌, ◌≤◌, ◌<◌, ◌≡◌, refl, sym, ap, ◌∙◌, List, [], ◌++◌, Option, none, some, Number,
  nat, nat_value, ok, throw, arith, length, All, drop-all, ltb, Bool-cases, Outcome-cases, inl, inr,
  append-nil,
}
use understandproof.Media.Protocol.{Protocol}
use understandproof.Media.Bytes.{Bytes}
use understandproof.Media.Records.{ChunkRecord}
use understandproof.Media.Records.Sequence.{
  Scan, nonce_prefix_of, scan_record, scan_records, check_nonempty, check_sequence_input,
  start_scan, parse_chunk_record_sequence,
}
use understandproof.Media.Records.Sequence.Soundness.{
  CountsFrom, bytes_of, HavePrefix, ScanFits, Found-ScanFits, scan_record-Found,
}

-- The records are the bytes, cut up without a gap: 1 to 1024 of them, counted from `first`, and all
-- under one nonce prefix.
pub record IsSequence (bytes : Bytes) (first : ℕ) (rs : List ChunkRecord) : Type 0 where
  pub whole : bytes_of rs ≡ bytes
  pub count : (1 ≤ length rs) × (length rs ≤ 1024)
  pub indices : CountsFrom first rs
  pub prefix : (p : Bytes) × All (λ r. nonce_prefix_of r ≡ p) rs

step_keeps :
    (bytes : Bytes) (first : ℕ) (s next : Scan)
    → ScanFits bytes first s
    → scan_record bytes s ≡ ok next
    → ScanFits bytes first next × (s.offset < next.offset)
step_keeps bytes first s next k e =
    let (r, f) = scan_record-Found bytes s next e in Found-ScanFits bytes first s next r k f

scan_records_total :
    (fuel : ℕ) (bytes : Bytes) (first : ℕ) (s : Scan)
    → ScanFits bytes first s
    → length bytes - s.offset < fuel
    → (result : Protocol (List ChunkRecord)) × (scan_records fuel bytes s ≡ some result)
unfolding scan_records
scan_records_total zero bytes first s k h = absurd (omega arith)
scan_records_total (suc fuel) bytes first s k h = elim (Bool-cases (ltb s.offset (length bytes))) [
  | inr over ↦ (ok s.records, ground arith)
  | inl more ↦ elim (Outcome-cases (scan_record bytes s)) [
    | inr (code, e) ↦ (throw code, ground arith)
    | inl (next, e) ↦
        let (k', later) = step_keeps bytes first s next k e in
        let (result, r) = scan_records_total fuel bytes first next k' (ground arith) in
        (result, ground (arith, r, e))
  ]
]

scan_records_sound :
    (fuel : ℕ) (bytes : Bytes) (first : ℕ) (s : Scan) (rs : List ChunkRecord)
    → ScanFits bytes first s
    → scan_records fuel bytes s ≡ some (ok rs)
    → (end : Scan) × ScanFits bytes first end × (length bytes ≤ end.offset) × (end.records ≡ rs)
unfolding scan_records
scan_records_sound zero bytes first s rs k e = cc
scan_records_sound (suc fuel) bytes first s rs k e =
    elim (Bool-cases (ltb s.offset (length bytes))) [
      | inr over ↦ (s, k, ground arith, ground arith)
      | inl more ↦ elim (Outcome-cases (scan_record bytes s)) [
        | inr (code, bad) ↦ absurd (ground arith)
        | inl (next, good) ↦
            scan_records_sound fuel bytes first next rs (step_keeps bytes first s next k good).0
              (ground arith)
      ]
    ]

start-ScanFits : (bytes : Bytes) (first : ℕ) → ScanFits bytes first (start_scan first)
start-ScanFits bytes first = record {
  covered = refl;
  within = omega arith;
  counted = omega arith;
  indices = tt;
  prefix = refl;
  room = omega arith;
}

some_prefix :
    (p : Option Bytes) (rs : List ChunkRecord)
    → HavePrefix p rs
    → (q : Bytes) × All (λ r. nonce_prefix_of r ≡ q) rs
some_prefix none rs h = ([], rw h tt)
some_prefix (some q) rs h = (q, h)

finished :
    (bytes : Bytes) (first : ℕ) (s : Scan)
    → ScanFits bytes first s
    → length bytes ≤ s.offset
    → 1 ≤ length s.records
    → IsSequence bytes first s.records
finished bytes first s k over h = record {
  whole =
      sym (append-nil _)
      ∙ ap (λ t. bytes_of s.records ++ t) (sym (drop-all s.offset bytes over))
      ∙ k.covered;
  count = (h, k.room);
  indices = k.indices;
  prefix = some_prefix s.nonce_prefix s.records k.prefix;
}

-- The loop of the sequence parser always ends: the fuel of one round a byte is enough.
pub parse_chunk_record_sequence_total :
    (bytes : Bytes) (first : Number)
    → (result : Protocol (List ChunkRecord)) × (parse_chunk_record_sequence bytes first
        ≡ some result)
unfolding parse_chunk_record_sequence
parse_chunk_record_sequence_total bytes first =
    elim (Outcome-cases (check_sequence_input bytes first)) [
      | inr (code, e) ↦ (throw code, ground arith)
      | inl (_, e) ↦
          let (result, r) =
            scan_records_total (suc (length bytes)) bytes (nat_value first) _
              (start-ScanFits bytes (nat_value first)) (omega arith) in
          (check_nonempty result, ground (arith, e, r))
    ]

check_nonempty-eq-ok :
    (result : Protocol (List ChunkRecord)) (rs : List ChunkRecord)
    → check_nonempty result ≡ ok rs
    → (result ≡ ok rs) × (1 ≤ length rs)
unfolding check_nonempty
check_nonempty-eq-ok (throw code) rs e = cc
check_nonempty-eq-ok (ok records) rs e = ground arith

-- A sequence that is accepted is its bytes cut up into 1 to 1024 records, with indices that count up
-- from the expected one and with one nonce prefix.
pub parse_chunk_record_sequence_sound :
    (bytes : Bytes) (first : ℕ) (rs : List ChunkRecord)
    → parse_chunk_record_sequence bytes (nat first) ≡ some (ok rs)
    → IsSequence bytes first rs
unfolding parse_chunk_record_sequence
parse_chunk_record_sequence_sound bytes first rs e =
    let k = start-ScanFits bytes first in
    let (result, r) = scan_records_total (suc (length bytes)) bytes first _ k (omega arith) in
    let (good, nonempty) = check_nonempty-eq-ok result rs (ground (arith, r)) in
    let (end, k', over, same) =
      scan_records_sound (suc (length bytes)) bytes first _ rs k (cc (r, good)) in
    rw same at (finished bytes first end k' over (rw (← same) at nonempty))
