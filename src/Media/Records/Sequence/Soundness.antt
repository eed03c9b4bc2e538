-- ===== src/Media/Records/Sequence/Soundness.antt =====
-- What a sequence of records is that the parser accepts, and that the parser always comes to an end.
use understandproof.Base.{
  ℕ, suc, ◌+◌, ◌≤◌, ◌<◌, ◌≡◌, refl, sym, ap, ◌∙◌, List, [], ◌∷◌, ◌++◌, map, Option, none, some, ok,
  arith, length, take, drop, concat, take-append-drop, length-take, length-drop, length-append,
  drop-drop, append_assoc, append-nil, All, >>=-eq-ok, All-append,
}
use understandproof.Media.Bytes.{Bytes}
use understandproof.Media.Bytes.Laws.{bytes_equal_iff}
use understandproof.Media.Records.{
  ChunkRecord, HeaderFields, read_header, cut_record, parse_header, parse_record_at,
}
use understandproof.Media.Records.Sequence.{Scan, prefix_or, nonce_prefix_of, scan_record}

-- A record that is parsed at an offset is the bytes that stand there.
pub record StandsAt (bytes : Bytes) (offset : ℕ) (r : ChunkRecord) : Type 0 where
  pub here : r.bytes ++ drop (offset + length r.bytes) bytes ≡ drop offset bytes
  pub long : 32 ≤ length r.bytes
  pub fits : offset + length r.bytes ≤ length bytes

pub cut_record-bytes :
    (rest : Bytes) (f : HeaderFields) (r : ChunkRecord)
    → cut_record rest f ≡ ok r
    → (r.bytes ≡ take (32 + r.sealed_length) rest) × (32 + r.sealed_length ≤ length rest)
unfolding cut_record
cut_record-bytes rest f r e = ground arith

pub parse_header-bytes :
    (rest : Bytes) (r : ChunkRecord)
    → parse_header rest ≡ ok r
    → (r.bytes ≡ take (32 + r.sealed_length) rest) × (32 + r.sealed_length ≤ length rest)
unfolding parse_header
parse_header-bytes rest r e =
    let (f, _, cut) = >>=-eq-ok (read_header (take 32 rest)) (cut_record rest) e in
    cut_record-bytes rest f r cut

pub StandsAt-of_parsed :
    (bytes : Bytes) (offset : ℕ) (r : ChunkRecord)
    → parse_record_at bytes offset ≡ ok r
    → StandsAt bytes offset r
unfolding parse_record_at
StandsAt-of_parsed bytes offset r e =
    let rest = drop offset bytes in
    let (cut, fits) = parse_header-bytes rest r (ground arith) in
    let size : length r.bytes ≡ 32 + r.sealed_length =
      ap length cut ∙ omega (arith, length-take (32 + r.sealed_length) rest) in
    record {
      here = rw (← drop-drop (length r.bytes) offset bytes, size, cut) (take-append-drop _ rest);
      long = omega (arith, size);
      fits = omega (arith, size, length-drop offset bytes);
    }

-- What a round found.
pub record Found (bytes : Bytes) (s next : Scan) (r : ChunkRecord) : Type 0 where
  pub parsed : parse_record_at bytes s.offset ≡ ok r
  pub index : r.chunk_index ≡ s.expected_index
  pub prefix : nonce_prefix_of r ≡ prefix_or s.nonce_prefix (nonce_prefix_of r)
  pub room : length next.records ≤ 1024
  pub records : next.records ≡ s.records ++ r ∷ []
  pub nonce_prefix : next.nonce_prefix ≡ some (prefix_or s.nonce_prefix (nonce_prefix_of r))
  pub offset : next.offset ≡ s.offset + length r.bytes
  pub expected_index : next.expected_index ≡ s.expected_index + 1

check-Found :
    (bytes : Bytes) (s next : Scan) (r : ChunkRecord)
    → parse_record_at bytes s.offset ≡ ok r
    → scan_record bytes s ≡ ok next
    → Found bytes s next r
unfolding scan_record
check-Found bytes s next r p e = record {
  parsed = p;
  index = ground arith;
  prefix = (bytes_equal_iff _ _).0 (ground arith);
  room = ground arith;
  records = ground arith;
  nonce_prefix = ground arith;
  offset = ground arith;
  expected_index = ground arith;
}

pub scan_record-Found :
    (bytes : Bytes) (s next : Scan)
    → scan_record bytes s ≡ ok next
    → (r : ChunkRecord) × Found bytes s next r
unfolding scan_record
scan_record-Found bytes s next e =
    let (r, p, _) = >>=-eq-ok (parse_record_at bytes s.offset) _ e in
    (r, check-Found bytes s next r p (unfold scan_record in e))

-- The indices count up from `first`.
abbrev pub CountsFrom : ℕ → List ChunkRecord → Type 0
CountsFrom first [] = Unit
CountsFrom first (r ∷ rs) = (r.chunk_index ≡ first) × CountsFrom (suc first) rs

abbrev pub bytes_of : List ChunkRecord → Bytes
bytes_of rs = concat (map (λ (r : ChunkRecord). r.bytes) rs)

abbrev pub HavePrefix : Option Bytes → List ChunkRecord → Type 0
HavePrefix none rs = rs ≡ []
HavePrefix (some prefix) rs = All (λ r. nonce_prefix_of r ≡ prefix) rs

-- What holds between two rounds.
pub record ScanFits (bytes : Bytes) (first : ℕ) (s : Scan) : Type 0 where
  pub covered : bytes_of s.records ++ drop s.offset bytes ≡ bytes
  pub within : s.offset ≤ length bytes
  pub counted : s.expected_index ≡ first + length s.records
  pub indices : CountsFrom first s.records
  pub prefix : HavePrefix s.nonce_prefix s.records
  pub room : length s.records ≤ 1024

CountsFrom-snoc :
    (first : ℕ) (rs : List ChunkRecord) (r : ChunkRecord)
    → CountsFrom first rs
    → r.chunk_index ≡ first + length rs
    → CountsFrom first (rs ++ r ∷ [])
CountsFrom-snoc first [] r c e = (omega arith, tt)
CountsFrom-snoc first (x ∷ rs) r c e = (c.0, CountsFrom-snoc (suc first) rs r c.1 (omega arith))

HavePrefix-snoc :
    (p : Option Bytes) (rs : List ChunkRecord) (r : ChunkRecord)
    → HavePrefix p rs
    → nonce_prefix_of r ≡ prefix_or p (nonce_prefix_of r)
    → HavePrefix (some (prefix_or p (nonce_prefix_of r))) (rs ++ r ∷ [])
HavePrefix-snoc none rs r h e = rw h (refl, tt)
HavePrefix-snoc (some p) rs r h e = All-append _ rs (r ∷ []) h (e, tt)

bytes_of-snoc :
    (rs : List ChunkRecord) (r : ChunkRecord) (tail : Bytes)
    → bytes_of (rs ++ r ∷ []) ++ tail ≡ bytes_of rs ++ (r.bytes ++ tail)
bytes_of-snoc [] r tail = rw (append-nil r.bytes)
bytes_of-snoc (x ∷ rs) r tail =
    append_assoc x.bytes _ tail
    ∙ ap (λ t. x.bytes ++ t) (bytes_of-snoc rs r tail)
    ∙ sym (append_assoc x.bytes _ _)

pub Found-ScanFits :
    (bytes : Bytes) (first : ℕ) (s next : Scan) (r : ChunkRecord)
    → ScanFits bytes first s
    → Found bytes s next r
    → ScanFits bytes first next × (s.offset < next.offset)
Found-ScanFits bytes first s next r k f =
    let st = StandsAt-of_parsed bytes s.offset r f.parsed in
    (
      record {
        covered =
            rw (f.records, f.offset)
              (bytes_of-snoc s.records r _ ∙ ap (λ t. bytes_of s.records ++ t) st.here ∙ k.covered);
        within = omega (arith, f, st);
        counted = omega (
          arith,
          f,
          k,
          ap (λ (l : List ChunkRecord). length l) f.records,
          length-append s.records (r ∷ []),
        );
        indices = rw f.records (CountsFrom-snoc first s.records r k.indices (omega (arith, f, k)));
        prefix =
            rw (f.records, f.nonce_prefix)
              (HavePrefix-snoc s.nonce_prefix s.records r k.prefix f.prefix);
        room = f.room;
      },
      omega (arith, f, st),
    )
