-- ===== src/Media/Encoding.antt =====
-- packages/media/src/encoding.ts: hexadecimal and unpadded base64url. A character is its code unit,
-- and a byte of the input is below 256, as every element of a byte array is.
pub mod Hex
pub mod Alphabet
pub mod Steps
pub mod Base64url
pub mod Canonical
pub mod RoundTrip
mod Tests
use understandproof.Base.{
  ℕ, zero, suc, ◌+◌, ◌-◌, ◌*◌, ◌/◌, ◌%◌, ◌^◌, Bool, true, false, not, ◌&&◌, ◌||◌, List, [], ◌∷◌,
  ◌++◌, Option, none, some, Text, text_eq, text, ok, throw, ◌>>=◌, ◌>>◌, if◌then◌else◌, length,
  get_or, includes, every, any, leb, ltb, nat_eqb, ◌==◌, nat_eq,
}
use understandproof.Media.Protocol.{RecordingErrorCode, invalid_schema, Protocol, require}
use understandproof.Media.Bytes.{Bytes}

abbrev pub base64url_alphabet : Text
base64url_alphabet = text "ABCDEFGHIJKLMNOPQRSTUVWXYZabcdefghijklmnopqrstuvwxyz0123456789-_"

unfoldable pub sextet_char : ℕ → ℕ
sextet_char n = get_or base64url_alphabet n 0

-- `map.get(character)` on the map of the alphabet's characters to their positions.
abbrev position : ℕ → ℕ → Text → Option ℕ
position index c [] = none
position index c (a ∷ rest) =
    let later = position (suc index) c rest in if nat_eqb a c then some index else later

unfoldable pub base64url_lookup : ℕ → Option ℕ
base64url_lookup c = position 0 c base64url_alphabet

-- The characters of three bytes, of which the last two may be missing.
unfoldable pub encode_base64url : Bytes → Text
encode_base64url [] = []
encode_base64url (first ∷ []) =
    let aggregate = first * 65536 in
    sextet_char (aggregate / 262144 % 64) ∷ sextet_char (aggregate / 4096 % 64) ∷ []
encode_base64url (first ∷ second ∷ []) =
    let aggregate = first * 65536 + second * 256 in
    sextet_char (aggregate / 262144 % 64)
    ∷ sextet_char (aggregate / 4096 % 64)
    ∷ sextet_char (aggregate / 64 % 64)
    ∷ []
encode_base64url (first ∷ second ∷ third ∷ rest) =
    let aggregate = first * 65536 + second * 256 + third in
    sextet_char (aggregate / 262144 % 64)
    ∷ sextet_char (aggregate / 4096 % 64)
    ∷ sextet_char (aggregate / 64 % 64)
    ∷ sextet_char (aggregate % 64)
    ∷ encode_base64url rest

-- `(buffer << 6) | decoded` on 32 bits.
unfoldable pub shift_in : ℕ → ℕ → ℕ
shift_in buffer decoded = buffer * 64 % 4294967296 + decoded

-- The check of the bits that are left over.
unfoldable pub check_trailing : ℕ → ℕ → Protocol (Unit {0})
check_trailing buffer buffered_bits =
    require (not (ltb 0 buffered_bits && not (nat_eqb (buffer % 2 ^ buffered_bits) 0)))
      invalid_schema

-- The loop over the characters; the bytes come out in order.
unfoldable pub decode_sextets : Text → ℕ → ℕ → Protocol Bytes
decode_sextets [] buffer buffered_bits = do check_trailing buffer buffered_bits; ok []
decode_sextets (c ∷ rest) buffer buffered_bits = elim (base64url_lookup c) [
  | none ↦ throw invalid_schema
  | some decoded ↦
      let buffer = shift_in buffer decoded in
      let bits = buffered_bits + 6 in
      elim (leb 8 bits) [
        | true ↦ do
          bytes ← decode_sextets rest buffer (bits - 8)
          ok (buffer / 2 ^ (bits - 8) % 256 ∷ bytes)
        | false ↦ decode_sextets rest buffer bits
      ]
]

abbrev is_some {ℓ} : {A : Type ℓ} → Option A → Bool
is_some none = false
is_some (some a) = true

unfoldable pub decode_base64url : Text → Protocol Bytes
decode_base64url value = do
  require
      (not (
        nat_eqb (length value % 4) 1
        || includes value b'='
        || any (λ c. not (is_some (base64url_lookup c))) value))
      invalid_schema
  decode_sextets value 0 0

unfoldable pub hex_digit : ℕ → ℕ
hex_digit n = if ltb n 10 then b'0' + n else b'a' + (n - 10)

-- `byte.toString(16).padStart(2, "0")`, joined.
unfoldable pub encode_hex : Bytes → Text
encode_hex [] = []
encode_hex (byte ∷ rest) = hex_digit (byte / 16) ∷ hex_digit (byte % 16) ∷ encode_hex rest

unfoldable pub hex_value : ℕ → Option ℕ
hex_value c =
    if leb b'0' c && leb c b'9'
    then some (c - b'0')
    else (if leb b'a' c && leb c b'f' then some (c - b'a' + 10) else none)

-- The pattern and the loop over the pairs of digits in one.
unfoldable pub decode_hex : Text → Protocol Bytes
decode_hex [] = ok []
decode_hex (c ∷ []) = throw invalid_schema
decode_hex (c ∷ d ∷ rest) = elim (hex_value c) [
  | none ↦ throw invalid_schema
  | some high ↦ elim (hex_value d) [
    | none ↦ throw invalid_schema
    | some low ↦ do bytes ← decode_hex rest; ok ((high * 16 + low) ∷ bytes)
  ]
]
