-- ===== src/Media/Encoding/Tests.antt =====
-- Runs of the encodings, and the theorems at them.
use understandproof.Base.{ℕ, zero, suc, ◌≡◌, refl, [], ◌∷◌, text, replicate, ok, throw, arith}
use understandproof.Media.Protocol.{invalid_schema}
use understandproof.Media.Bytes.{Bytes, AreBytes}
use understandproof.Media.Encoding.{
  sextet_char, base64url_lookup, encode_base64url, shift_in, check_trailing, decode_sextets,
  decode_base64url, hex_digit, encode_hex, hex_value, decode_hex,
}
use understandproof.Media.Encoding.RoundTrip.{decode-encode_base64url, encode-decode_base64url}

runs : Unit {0}
unfolding sextet_char base64url_lookup encode_base64url shift_in check_trailing decode_sextets
    decode_base64url hex_digit encode_hex hex_value decode_hex
runs = tt

abbrev some_bytes : Bytes
some_bytes = 255 ∷ 0 ∷ 16 ∷ 77 ∷ []

some_bytes-AreBytes : AreBytes some_bytes
some_bytes-AreBytes = (omega arith, (omega arith, (omega arith, (omega arith, tt))))

encodes : (encode_base64url some_bytes ≡ text "_wAQTQ") × (encode_hex some_bytes ≡ text "ff00104d")
unfolding runs
encodes = (refl, refl)

decodes :
    (decode_base64url (text "_wAQTQ") ≡ ok some_bytes)
    × (decode_hex (text "ff00104d") ≡ ok some_bytes)
unfolding runs
decodes = (refl, refl)

refuses :
    (decode_base64url (text "_wAQTR") ≡ throw invalid_schema)
    × (decode_base64url (text "_wAQT") ≡ throw invalid_schema)
    × (decode_base64url (text "TQ==") ≡ throw invalid_schema)
    × (decode_hex (text "FF") ≡ throw invalid_schema)
unfolding runs
refuses = (refl, refl, refl, refl)

decode-encode_base64url_example : decode_base64url (encode_base64url some_bytes) ≡ ok some_bytes
decode-encode_base64url_example = decode-encode_base64url some_bytes some_bytes-AreBytes

encode-decode_base64url_example :
    (encode_base64url some_bytes ≡ text "_wAQTQ") × AreBytes some_bytes
encode-decode_base64url_example = encode-decode_base64url (text "_wAQTQ") some_bytes decodes.0

replicate-AreBytes : (n : ℕ) → AreBytes (replicate n 7)
replicate-AreBytes zero = tt
replicate-AreBytes (suc n) = (omega arith, replicate-AreBytes n)
