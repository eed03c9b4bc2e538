-- ===== src/Media/Encoding/Hex.antt =====
-- Hexadecimal: the two directions undo each other, and a digest's 64 digits.
use understandproof.Base.{
  ℕ, ◌+◌, ◌*◌, ◌/◌, ◌%◌, ◌<◌, ◌≡◌, ◌↔◌, refl, sym, subst, ap, ◌∙◌, true, [], ◌∷◌, some, Text, ok,
  length, every, Outcome-cases, Option-cases, inl, inr, arith,
}
use understandproof.Domain.Primitives.{is_sha256, is_lower_hex}
use understandproof.Media.Bytes.{Bytes, AreBytes}
use understandproof.Media.Encoding.{hex_digit, hex_value, encode_hex, decode_hex}

hex_value-hex_digit : (n : ℕ) → n < 16 → hex_value (hex_digit n) ≡ some n
unfolding hex_value hex_digit
hex_value-hex_digit n h = ground arith

hex_digit-hex_value : (c n : ℕ) → hex_value c ≡ some n → (n < 16) × (hex_digit n ≡ c)
unfolding hex_value hex_digit
hex_digit-hex_value c n h = ground arith

decode_pair :
    (c d high low : ℕ) (rest : Text) (bytes : Bytes)
    → hex_value c ≡ some high
    → hex_value d ≡ some low
    → decode_hex rest ≡ ok bytes
    → decode_hex (c ∷ d ∷ rest) ≡ ok ((high * 16 + low) ∷ bytes)
unfolding decode_hex
decode_pair c d high low rest bytes h l r = ground (arith, h, l, r)

decode_pair-inv :
    (c d : ℕ) (rest : Text) (bytes : Bytes)
    → decode_hex (c ∷ d ∷ rest) ≡ ok bytes
    → (high low : ℕ) × (later : Bytes) × (hex_value c ≡ some high)
      × (hex_value d ≡ some low)
      × (decode_hex rest ≡ ok later)
      × (bytes ≡ (high * 16 + low) ∷ later)
unfolding decode_hex
decode_pair-inv c d rest bytes e = elim (Option-cases (hex_value c)) [
  | inl h ↦ absurd (ground (arith, h))
  | inr (high, h) ↦ elim (Option-cases (hex_value d)) [
    | inl l ↦ absurd (ground (arith, h, l))
    | inr (low, l) ↦ elim (Outcome-cases (decode_hex rest)) [
      | inr (code, r) ↦ absurd (ground (arith, h, l, r))
      | inl (later, r) ↦ (high, low, later, h, l, r, ground (arith, h, l, r))
    ]
  ]
]

encode_hex-nil : encode_hex [] ≡ []
unfolding encode_hex
encode_hex-nil = refl

decode_hex-nil : (bytes : Bytes) → (decode_hex [] ≡ ok bytes) ↔ (bytes ≡ [])
unfolding decode_hex
decode_hex-nil bytes = ground arith

decode_hex-odd : (c : ℕ) (bytes : Bytes) → ¬ (decode_hex (c ∷ []) ≡ ok bytes)
unfolding decode_hex
decode_hex-odd c bytes e = cc

encode_pair :
    (high low : ℕ) (later : Bytes)
    → high < 16
    → low < 16
    → encode_hex ((high * 16 + low) ∷ later) ≡ hex_digit high ∷ hex_digit low ∷ encode_hex later
unfolding encode_hex
encode_pair high low later h l =
    let first : (high * 16 + low) / 16 ≡ high = omega arith in
    let second : (high * 16 + low) % 16 ≡ low = omega arith in rw (first, second)

-- Bytes, all below 256, that are written in hexadecimal are read back.
pub decode-encode_hex : (bytes : Bytes) → AreBytes bytes → decode_hex (encode_hex bytes) ≡ ok bytes
unfolding encode_hex
decode-encode_hex [] h = (decode_hex-nil []).1 refl
decode-encode_hex (byte ∷ rest) h =
    decode_pair _ _ (byte / 16) (byte % 16) (encode_hex rest) rest
      (hex_value-hex_digit (byte / 16) (omega (arith, h.0)))
      (hex_value-hex_digit (byte % 16) (omega arith)) (decode-encode_hex rest h.1)
    ∙ ap (λ b. ok (b ∷ rest)) (omega arith)

-- A text that is read as bytes is the one that these bytes are written as.
pub encode-decode_hex :
    (value : Text) (bytes : Bytes)
    → decode_hex value ≡ ok bytes
    → (encode_hex bytes ≡ value) × AreBytes bytes
encode-decode_hex [] bytes e =
    subst (λ b. (encode_hex b ≡ []) × AreBytes b) (sym ((decode_hex-nil bytes).0 e))
      (encode_hex-nil, tt)
encode-decode_hex (c ∷ []) bytes e = absurd (decode_hex-odd c bytes e)
encode-decode_hex (c ∷ d ∷ rest) bytes e =
    let (high, low, later, h, l, r, same) = decode_pair-inv c d rest bytes e in
    let (high_small, high_back) = hex_digit-hex_value c high h in
    let (low_small, low_back) = hex_digit-hex_value d low l in
    let (back, small) = encode-decode_hex rest later r in
    let whole = encode_pair high low later high_small low_small ∙ rw (high_back, low_back, back) in
    subst (λ b. (encode_hex b ≡ c ∷ d ∷ rest) × AreBytes b) (sym same)
      (whole, (omega (arith, high_small, low_small), small))

hex_digit-is_lower_hex : (n : ℕ) → n < 16 → is_lower_hex (hex_digit n) ≡ true
unfolding is_lower_hex hex_digit
hex_digit-is_lower_hex n h = ground arith

encode_hex-all_lower :
    (bytes : Bytes)
    → AreBytes bytes
    → (every is_lower_hex (encode_hex bytes) ≡ true)
      × (length (encode_hex bytes) ≡ 2 * length bytes)
unfolding encode_hex
encode_hex-all_lower [] h = (refl, omega arith)
encode_hex-all_lower (byte ∷ rest) h =
    let (lower, size) = encode_hex-all_lower rest h.1 in
    (
      ground (
        arith,
        hex_digit-is_lower_hex (byte / 16) (omega (arith, h.0)),
        hex_digit-is_lower_hex (byte % 16) (omega arith),
        lower,
      ),
      omega (arith, size),
    )

-- A digest of 32 bytes, all below 256, in hexadecimal is what the schemas ask of a SHA-256.
pub encode_hex-is_sha256 :
    (bytes : Bytes) → AreBytes bytes → length bytes ≡ 32 → is_sha256 (encode_hex bytes) ≡ true
unfolding is_sha256
encode_hex-is_sha256 bytes h size =
    let (lower, double) = encode_hex-all_lower bytes h in ground (arith, lower, double, size)
