-- ===== src/Media/Records/Bounds.antt =====
-- A record that `parseChunkRecord` accepts is its bytes, and their number is bounded.
use understandproof.Base.{
  ℕ, ◌+◌, ◌≤◌, ◌≡◌, refl, sym, ap, ◌∙◌, [], ◌++◌, ok, arith, length, length-take, take, drop,
  append-nil, drop-all, >>=-eq-ok, get_or-take, get_or-append,
}
use understandproof.Media.Bytes.{Bytes, get_uint8, get_uint32}
use understandproof.Media.Records.{
  ChunkRecord, HeaderFields, read_header, cut_record, parse_header, parse_record_at,
  parse_chunk_record,
}
use understandproof.Media.Records.Sequence.Soundness.{StandsAt-of_parsed, parse_header-bytes}

read_header-bound :
    (header : Bytes) (f : HeaderFields) → read_header header ≡ ok f → f.sealed_length ≤ 4194320
unfolding read_header
read_header-bound header f e = ground arith

cut_record-bound :
    (rest : Bytes) (f : HeaderFields) (r : ChunkRecord)
    → cut_record rest f ≡ ok r
    → length r.bytes ≤ 32 + f.sealed_length
unfolding cut_record
cut_record-bound rest f r e =
    let cut : r.bytes ≡ take (32 + f.sealed_length) rest = ground arith in
    omega (arith, ap length cut, length-take (32 + f.sealed_length) rest)

-- The whole of the bytes is the record, and they are neither too few nor too many.
pub record IsWhole (bytes : Bytes) (r : ChunkRecord) : Type 0 where
  pub same : r.bytes ≡ bytes
  pub long : 32 ≤ length bytes
  pub short : length bytes ≤ 4194352

parse_header-bound :
    (rest : Bytes) (r : ChunkRecord) → parse_header rest ≡ ok r → length r.bytes ≤ 4194352
unfolding parse_header
parse_header-bound rest r e =
    let (f, header, cut) = >>=-eq-ok (read_header (take 32 rest)) (cut_record rest) e in
    omega (arith, read_header-bound (take 32 rest) f header, cut_record-bound rest f r cut)

parse_record_at-bound :
    (bytes : Bytes) (offset : ℕ) (r : ChunkRecord)
    → parse_record_at bytes offset ≡ ok r
    → length r.bytes ≤ 4194352
unfolding parse_record_at
parse_record_at-bound bytes offset r e = parse_header-bound (drop offset bytes) r (ground arith)

parse_chunk_record-inv :
    (bytes : Bytes) (r : ChunkRecord)
    → parse_chunk_record bytes ≡ ok r
    → (parse_record_at bytes 0 ≡ ok r) × (length r.bytes ≡ length bytes)
unfolding parse_chunk_record
parse_chunk_record-inv bytes r e = ground arith

pub parse_chunk_record-IsWhole :
    (bytes : Bytes) (r : ChunkRecord) → parse_chunk_record bytes ≡ ok r → IsWhole bytes r
parse_chunk_record-IsWhole bytes r e =
    let (parsed, size) = parse_chunk_record-inv bytes r e in
    let stands = StandsAt-of_parsed bytes 0 r parsed in
    let none_left : drop (0 + length r.bytes) bytes ≡ [] =
      drop-all (0 + length r.bytes) bytes (omega (arith, size)) in
    record {
      same = sym (append-nil r.bytes) ∙ ap (λ t. r.bytes ++ t) (sym none_left) ∙ stands.here;
      long = omega (arith, size, stands.long);
      short = omega (arith, size, parse_record_at-bound bytes 0 r parsed);
    }

-- What a record that is accepted says of the length of its sealed part.
pub record HasSealedLength (bytes : Bytes) (sealed_length : ℕ) : Type 0 where
  pub size : length bytes ≡ 32 + sealed_length
  pub stated : get_uint32 bytes 28 ≡ sealed_length
  pub lower : 17 ≤ sealed_length
  pub upper : sealed_length ≤ 4194320

pub get_uint32-take :
    (n : ℕ) (bytes : Bytes) → 32 ≤ n → get_uint32 (take n bytes) 28 ≡ get_uint32 bytes 28
unfolding get_uint32 get_uint8
get_uint32-take n bytes h =
    rw
      (
        get_or-take n bytes 28 0 (omega (arith, h)),
        get_or-take n bytes 29 0 (omega (arith, h)),
        get_or-take n bytes 30 0 (omega (arith, h)),
        get_or-take n bytes 31 0 (omega (arith, h)),
      )
      refl

pub get_uint32-append :
    (bytes rest : Bytes) → 32 ≤ length bytes → get_uint32 (bytes ++ rest) 28 ≡ get_uint32 bytes 28
unfolding get_uint32 get_uint8
get_uint32-append bytes rest h =
    rw
      (
        get_or-append bytes rest 28 0 (omega (arith, h)),
        get_or-append bytes rest 29 0 (omega (arith, h)),
        get_or-append bytes rest 30 0 (omega (arith, h)),
        get_or-append bytes rest 31 0 (omega (arith, h)),
      )
      refl

read_header-sealed_length :
    (header : Bytes) (f : HeaderFields)
    → read_header header ≡ ok f
    → (get_uint32 header 28 ≡ f.sealed_length)
      × (17 ≤ f.sealed_length)
      × (f.sealed_length ≤ 4194320)
unfolding read_header
read_header-sealed_length header f e = ground arith

cut_record-sealed_length :
    (rest : Bytes) (f : HeaderFields) (r : ChunkRecord)
    → cut_record rest f ≡ ok r
    → f.sealed_length ≡ r.sealed_length
unfolding cut_record
cut_record-sealed_length rest f r e = ground arith

parse_header-sealed_length :
    (bytes : Bytes) (r : ChunkRecord)
    → parse_header bytes ≡ ok r
    → (get_uint32 bytes 28 ≡ r.sealed_length) × (17 ≤ r.sealed_length) × (r.sealed_length ≤ 4194320)
unfolding parse_header
parse_header-sealed_length bytes r e =
    let (f, header, cut) = >>=-eq-ok (read_header (take 32 bytes)) (cut_record bytes) e in
    let same = cut_record-sealed_length bytes f r cut in
    let (stated, lower, upper) = read_header-sealed_length (take 32 bytes) f header in
    (
      sym (get_uint32-take 32 bytes (omega arith)) ∙ stated ∙ same,
      omega (arith, lower, same),
      omega (arith, upper, same),
    )

pub parse_chunk_record-HasSealedLength :
    (bytes : Bytes) (r : ChunkRecord)
    → parse_chunk_record bytes ≡ ok r
    → HasSealedLength bytes r.sealed_length
unfolding parse_record_at
parse_chunk_record-HasSealedLength bytes r e =
    let (parsed, size) = parse_chunk_record-inv bytes r e in
    let (cut, fits) = parse_header-bytes bytes r (ground arith) in
    let (stated, lower, upper) = parse_header-sealed_length bytes r (ground arith) in
    record {
      size =
          sym size ∙ ap length cut ∙ omega (arith, fits, length-take (32 + r.sealed_length) bytes);
      stated = stated;
      lower = lower;
      upper = upper;
    }
