-- ===== src/Media/Encoding/RoundTrip.antt =====
-- `encodeBase64Url` and `decodeBase64Url` as a whole, with the decoder's check before its loop.
use understandproof.Base.{
  ℕ, ◌+◌, ◌*◌, ◌/◌, ◌%◌, ◌<◌, ◌≡◌, ◌↔◌, refl, ap, false, not, List, [], ◌∷◌, ◌++◌, map, All, none,
  Text, ok, length, includes, any, nat_eq, nat_eqb, Bool-cases, inl, inr, arith,
}
use understandproof.Media.Bytes.{Bytes, AreBytes}
use understandproof.Media.Encoding.{
  sextet_char, base64url_lookup, encode_base64url, decode_sextets, decode_base64url, is_some,
}
use understandproof.Media.Encoding.Alphabet.{lookup-sextet_char}
use understandproof.Media.Encoding.Base64url.{
  encode_nil, encode_one, encode_two, encode_three, decode_sextets-encode,
}
use understandproof.Media.Encoding.Canonical.{encode-decode_sextets}

-- The check before the loop lets a text pass.
abbrev Passes : Text → Type 0
Passes value =
    (includes value b'=' ≡ false) × (any (λ c. not (is_some (base64url_lookup c))) value ≡ false)

equals_sign : base64url_lookup b'=' ≡ none
unfolding base64url_lookup
equals_sign = refl

Passes-sextet_char : (n : ℕ) (rest : Text) → n < 64 → Passes rest → Passes (sextet_char n ∷ rest)
Passes-sextet_char n rest h p =
    let found = lookup-sextet_char n h in
    let other : nat_eqb (sextet_char n) b'=' ≡ false =
      elim (Bool-cases (nat_eqb (sextet_char n) b'=')) [
        | inr differs ↦ differs
        | inl same ↦
            let equal : sextet_char n ≡ b'=' = ground arith in
            absurd (cc (found, ap base64url_lookup equal, equals_sign))
      ] in
    (ground (arith, other, p.0), ground (arith, found, p.1))

Passes-sextets :
    (ns : List ℕ) (rest : Text)
    → All (λ n. n < 64) ns
    → Passes rest
    → Passes (map sextet_char ns ++ rest)
Passes-sextets [] rest h p = p
Passes-sextets (n ∷ ns) rest h p =
    Passes-sextet_char n (map sextet_char ns ++ rest) h.0 (Passes-sextets ns rest h.1 p)

encode-Passes :
    (bytes : Bytes)
    → AreBytes bytes
    → Passes (encode_base64url bytes) × (¬ (length (encode_base64url bytes) % 4 ≡ 1))
encode-Passes [] h = rw encode_nil ((refl, refl), omega arith)
encode-Passes (f ∷ []) h = rw (encode_one f h.0) (
  Passes-sextets (f / 4 ∷ f % 4 * 16 ∷ []) [] (omega (arith, h.0), (omega arith, tt)) (refl, refl),
  omega arith,
)
encode-Passes (f ∷ s ∷ []) h = rw (encode_two f s h.0 h.1.0) (
  Passes-sextets (f / 4 ∷ (f % 4 * 16 + s / 16) ∷ s % 16 * 4 ∷ []) []
      (omega (arith, h.0), (omega (arith, h.1.0), (omega arith, tt))) (refl, refl),
  omega arith,
)
encode-Passes (f ∷ s ∷ t ∷ rest) h =
    let (passes, size) = encode-Passes rest h.1.1.1 in
    rw (encode_three f s t rest h.0 h.1.0 h.1.1.0) (
      Passes-sextets (f / 4 ∷ (f % 4 * 16 + s / 16) ∷ (s % 16 * 4 + t / 64) ∷ t % 64 ∷ [])
          (encode_base64url rest)
          (omega (arith, h.0), (omega (arith, h.1.0), (omega (arith, h.1.1.0), (omega arith, tt))))
          passes,
      λ k. size (omega (arith, k)),
    )

decode_base64url_iff :
    (value : Text) (bytes : Bytes)
    → (decode_base64url value ≡ ok bytes)
      ↔ (¬ (length value % 4 ≡ 1)) × Passes value × (decode_sextets value 0 0 ≡ ok bytes)
unfolding decode_base64url
decode_base64url_iff value bytes = ground arith

-- Bytes, all below 256, that are written in base64url are read back.
pub decode-encode_base64url :
    (bytes : Bytes) → AreBytes bytes → decode_base64url (encode_base64url bytes) ≡ ok bytes
decode-encode_base64url bytes h =
    let (passes, size) = encode-Passes bytes h in
    (decode_base64url_iff (encode_base64url bytes) bytes).1
      (size, passes, decode_sextets-encode bytes 0 h)

-- A text that is read as bytes is the one that these bytes are written as, so that no two texts are
-- read as the same bytes.
pub encode-decode_base64url :
    (value : Text) (bytes : Bytes)
    → decode_base64url value ≡ ok bytes
    → (encode_base64url bytes ≡ value) × AreBytes bytes
encode-decode_base64url value bytes e =
    let (size, _, read) = (decode_base64url_iff value bytes).0 e in
    encode-decode_sextets value 0 bytes size read
