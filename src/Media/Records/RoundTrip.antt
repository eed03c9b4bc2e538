-- ===== src/Media/Records/RoundTrip.antt =====
-- A chunk record that was built is parsed to what it was built from.
use understandproof.Base.{
  ℕ, ◌+◌, ◌*◌, ◌/◌, ◌%◌, ◌≤◌, ◌≡◌, refl, sym, ap, ◌∙◌, [], ◌∷◌, ◌++◌, nat, nat_value, ok, arith,
  length, take, drop, append-nil, get_or, take-append, length-append, length-drop, ◌-◌,
}
use understandproof.Media.Protocol.{max_uint32}
use understandproof.Media.Bytes.{
  Bytes, concat_bytes, uint16_bytes, uint32_bytes, get_uint8, get_uint16, get_uint32,
}
use understandproof.Media.Bytes.Laws.{bytes_equal_iff, bytes_equal_self}
use understandproof.Media.Records.{
  build_chunk_nonce, ChunkInput, validate_record_fields, record_header, build_chunk_record,
  ChunkRecord, parse_header, read_header, cut_record, parse_record_at, parse_chunk_record,
}

-- What a record holds that was built from an input.
abbrev pub built : ChunkInput → Bytes → ChunkRecord
built input bytes = record {
  chunk_index = nat_value input.chunk_index;
  nonce = input.nonce;
  plaintext_length = nat_value input.plaintext_length;
  sealed_length = length input.sealed;
  sealed = input.sealed;
  bytes = bytes;
}

uint32_value : ℕ → ℕ
uint32_value n =
    n / 16777216 % 256 * 16777216 + n / 65536 % 256 * 65536 + n / 256 % 256 * 256 + n % 256

uint32_value-eq : (n : ℕ) → n ≤ max_uint32 → uint32_value n ≡ n
unfolding uint32_value
uint32_value-eq n h = omega arith

pub record IsValidInput (i : ChunkInput) : Type 0 where
  pub index :
      (i.chunk_index ≡ nat (nat_value i.chunk_index)) × (nat_value i.chunk_index ≤ max_uint32)
  pub nonce : i.nonce ≡ take 8 i.nonce ++ uint32_bytes (nat_value i.chunk_index)
  pub nonce_length : length (take 8 i.nonce) ≡ 8
  pub plaintext : (1 ≤ nat_value i.plaintext_length) × (nat_value i.plaintext_length ≤ 4194304)
  pub sealed : length i.sealed ≡ nat_value i.plaintext_length + 16

valid_of_validated : (i : ChunkInput) → validate_record_fields i ≡ ok tt → IsValidInput i
unfolding validate_record_fields build_chunk_nonce
valid_of_validated i h = record {
  index = ground arith;
  nonce = (bytes_equal_iff _ _).0 (ground arith);
  nonce_length = ground arith;
  plaintext = ground arith;
  sealed = ground arith;
}

-- The header as 32 bytes, with the nonce prefix written out.
module _ (p0 p1 p2 p3 p4 p5 p6 p7 : ℕ) where
  abbrev spelled_nonce : ℕ → Bytes
  spelled_nonce index =
      p0
      ∷ p1
      ∷ p2
      ∷ p3
      ∷ p4
      ∷ p5
      ∷ p6
      ∷ p7
      ∷ index / 16777216 % 256
      ∷ index / 65536 % 256
      ∷ index / 256 % 256
      ∷ index % 256
      ∷ []

  abbrev spelled : ℕ → ℕ → ℕ → Bytes → Bytes
  spelled index n sealed_length tail =
      83
      ∷ 80
      ∷ 67
      ∷ 49
      ∷ 1
      ∷ 0
      ∷ 0
      ∷ 32
      ∷ index / 16777216 % 256
      ∷ index / 65536 % 256
      ∷ index / 256 % 256
      ∷ index % 256
      ∷ p0
      ∷ p1
      ∷ p2
      ∷ p3
      ∷ p4
      ∷ p5
      ∷ p6
      ∷ p7
      ∷ index / 16777216 % 256
      ∷ index / 65536 % 256
      ∷ index / 256 % 256
      ∷ index % 256
      ∷ n / 16777216 % 256
      ∷ n / 65536 % 256
      ∷ n / 256 % 256
      ∷ n % 256
      ∷ sealed_length / 16777216 % 256
      ∷ sealed_length / 65536 % 256
      ∷ sealed_length / 256 % 256
      ∷ sealed_length % 256
      ∷ tail

  nonce_fits :
      (index : ℕ)
      → index ≤ max_uint32
      → build_chunk_nonce (p0 ∷ p1 ∷ p2 ∷ p3 ∷ p4 ∷ p5 ∷ p6 ∷ p7 ∷ []) (nat index)
        ≡ ok (spelled_nonce index)
  unfolding build_chunk_nonce uint32_bytes
  nonce_fits index h = ground arith

  spelled_reads :
      (index n m : ℕ)
      → index ≤ max_uint32
      → 1 ≤ n
      → n ≤ 4194304
      → m ≡ n + 16
      → read_header (spelled index n m [])
        ≡ ok (record {
          chunk_index = index;
          nonce = spelled_nonce index;
          plaintext_length = n;
          sealed_length = m;
        })
  unfolding read_header get_uint32 get_uint16 get_uint8 uint32_value
  spelled_reads index n m hi h1 hn hm =
      rw
        (uint32_value-eq index hi, uint32_value-eq n (omega arith), uint32_value-eq m (omega arith))
        (ground (
          arith,
          bytes_equal_self (83 ∷ 80 ∷ 67 ∷ 49 ∷ []),
          bytes_equal_self (spelled_nonce index),
          nonce_fits index hi,
        ))

  record_length :
      (index n : ℕ) (sealed : Bytes)
      → 32 + length sealed ≡ length (spelled index n (length sealed) sealed)
  record_length index n sealed = omega arith

  spelled_parses :
      (index n : ℕ) (sealed rest : Bytes)
      → index ≤ max_uint32
      → 1 ≤ n
      → n ≤ 4194304
      → length sealed ≡ n + 16
      → parse_header (spelled index n (length sealed) (sealed ++ rest))
        ≡ ok (record {
          chunk_index = index;
          nonce = spelled_nonce index;
          plaintext_length = n;
          sealed_length = length sealed;
          sealed = sealed;
          bytes = spelled index n (length sealed) sealed;
        })
  unfolding parse_header cut_record
  spelled_parses index n sealed rest hi h1 hn hs =
      rw (spelled_reads index n (length sealed) hi h1 hn hs, record_length index n sealed)
        (rw (take-append sealed rest) (ground (arith, length-append sealed rest)))

-- A list of eight, spelled out.
eight :
    (p : Bytes)
    → length p ≡ 8
    → p
      ≡ get_or p 0 0
        ∷ get_or p 1 0
        ∷ get_or p 2 0
        ∷ get_or p 3 0
        ∷ get_or p 4 0
        ∷ get_or p 5 0
        ∷ get_or p 6 0
        ∷ get_or p 7 0
        ∷ []
eight (a ∷ b ∷ c ∷ d ∷ e ∷ f ∷ g ∷ h ∷ []) n = refl
eight _ n = absurd (omega arith)

module _ (i : ChunkInput) (v : IsValidInput i) where
  abbrev spelled_input : Bytes → Bytes
  spelled_input =
      let p = take 8 i.nonce in
      spelled (get_or p 0 0) (get_or p 1 0) (get_or p 2 0) (get_or p 3 0) (get_or p 4 0)
        (get_or p 5 0) (get_or p 6 0) (get_or p 7 0) (nat_value i.chunk_index)
        (nat_value i.plaintext_length) (length i.sealed)

  spelled_header : (tail : Bytes) → record_header i ++ tail ≡ spelled_input tail
  unfolding record_header uint16_bytes uint32_bytes
  spelled_header tail = rw (v.nonce, eight (take 8 i.nonce) v.nonce_length) refl

  spelled_header_nonce :
      let p = take 8 i.nonce in
      spelled_nonce
        (get_or p 0 0)
        (get_or p 1 0)
        (get_or p 2 0)
        (get_or p 3 0)
        (get_or p 4 0)
        (get_or p 5 0)
        (get_or p 6 0)
        (get_or p 7 0)
        (nat_value i.chunk_index)
      ≡ i.nonce
  unfolding uint32_bytes
  spelled_header_nonce =
      ap (λ p. p ++ uint32_bytes (nat_value i.chunk_index))
        (sym (eight (take 8 i.nonce) v.nonce_length))
      ∙ sym v.nonce

  -- The header and the sealed chunk, wherever they stand in a longer array.
  pub parse_header-built :
      (rest : Bytes)
      → parse_header (record_header i ++ (i.sealed ++ rest))
        ≡ ok (built i (record_header i ++ i.sealed))
  parse_header-built rest =
      let p = take 8 i.nonce in
      ap parse_header (spelled_header (i.sealed ++ rest))
      ∙ spelled_parses (get_or p 0 0) (get_or p 1 0) (get_or p 2 0) (get_or p 3 0) (get_or p 4 0)
          (get_or p 5 0) (get_or p 6 0) (get_or p 7 0) (nat_value i.chunk_index)
          (nat_value i.plaintext_length) i.sealed rest v.index.1 v.plaintext.0 v.plaintext.1
          v.sealed
      ∙ cc (spelled_header_nonce, spelled_header i.sealed)

  pub length-record_header : length (record_header i) ≡ 32
  length-record_header = ap length (sym (append-nil (record_header i)) ∙ spelled_header [])

  pub parse_record_at-built :
      (bytes : Bytes) (offset : ℕ) (rest : Bytes)
      → drop offset bytes ≡ record_header i ++ (i.sealed ++ rest)
      → parse_record_at bytes offset ≡ ok (built i (record_header i ++ i.sealed))
  unfolding parse_record_at
  parse_record_at-built bytes offset rest e =
      let long : 32 ≤ length bytes - offset = omega (
        arith,
        length-drop offset bytes,
        ap length e,
        length-append (record_header i) (i.sealed ++ rest),
        length-record_header,
      ) in
      rw e (ground (arith, long, parse_header-built rest))

pub build_chunk_record-eq :
    (i : ChunkInput) (bytes : Bytes)
    → build_chunk_record i ≡ ok bytes
    → IsValidInput i × (bytes ≡ record_header i ++ i.sealed)
unfolding build_chunk_record concat_bytes
build_chunk_record-eq i bytes h =
    (valid_of_validated i (ground arith), ground (arith, append-nil i.sealed))

-- Parsing a record that was built gives back its index, nonce, lengths and sealed bytes.
pub parse-build_chunk_record :
    (i : ChunkInput) (bytes : Bytes)
    → build_chunk_record i ≡ ok bytes
    → parse_chunk_record bytes ≡ ok (built i bytes)
unfolding parse_chunk_record
parse-build_chunk_record i bytes h =
    let (v, e) = build_chunk_record-eq i bytes h in
    let parsed =
      parse_record_at-built i v bytes 0 []
        (e ∙ ap (λ s. record_header i ++ s) (sym (append-nil i.sealed))) in
    ground (arith, parsed, e)
