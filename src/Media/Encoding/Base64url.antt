-- ===== src/Media/Encoding/Base64url.antt =====
-- base64url: the groups of characters, and that written bytes are read back.
use understandproof.Base.{
  ℕ, ◌+◌, ◌*◌, ◌/◌, ◌%◌, ◌<◌, ◌≡◌, refl, ap, ◌∙◌, [], ◌∷◌, some, Text, ok, nat_eq, arith,
}
use understandproof.Media.Bytes.{Bytes, AreBytes}
use understandproof.Media.Encoding.{
  sextet_char, base64url_lookup, encode_base64url, shift_in, check_trailing, decode_sextets,
}
use understandproof.Media.Encoding.Alphabet.{lookup-sextet_char, sextet_char-lookup}
use understandproof.Media.Encoding.Steps.{
  step_wait, step_out, stop, first_out, second_out, third_out, trailing_four, trailing_two,
}

-- The bytes of four, three and two characters.
pub decode_four :
    (c d e f : ℕ) (v w x y : ℕ) (rest : Text) (buffer : ℕ) (bytes : Bytes)
    → base64url_lookup c ≡ some v
    → base64url_lookup d ≡ some w
    → base64url_lookup e ≡ some x
    → base64url_lookup f ≡ some y
    → decode_sextets rest (shift_in (shift_in (shift_in (shift_in buffer v) w) x) y) 0 ≡ ok bytes
    → decode_sextets (c ∷ d ∷ e ∷ f ∷ rest) buffer 0
      ≡ ok ((v * 4 + w / 16) ∷ (w % 16 * 16 + x / 4) ∷ (x % 4 * 64 + y) ∷ bytes)
decode_four c d e f v w x y rest buffer bytes lc ld le lf h =
    let small = λ (a n : ℕ) (l : base64url_lookup a ≡ some n). (sextet_char-lookup a n l).0 in
    let b1 = shift_in buffer v in
    let b2 = shift_in b1 w in
    let b3 = shift_in b2 x in
    step_wait c v (d ∷ e ∷ f ∷ rest) buffer 0 _ lc (omega arith) (
      step_out d w (e ∷ f ∷ rest) b1 6 _ ld (omega arith) (
        step_out e x (f ∷ rest) b2 4 _ le (omega arith)
          (step_out f y rest b3 2 bytes lf (omega arith) h)))
    ∙ rw (
      first_out buffer v w (small c v lc) (small d w ld),
      second_out b1 w x (small d w ld) (small e x le),
      third_out b2 x y (small e x le) (small f y lf),
    )

pub decode_three :
    (c d e : ℕ) (v w x : ℕ) (buffer : ℕ)
    → base64url_lookup c ≡ some v
    → base64url_lookup d ≡ some w
    → base64url_lookup e ≡ some x
    → x % 4 ≡ 0
    → decode_sextets (c ∷ d ∷ e ∷ []) buffer 0 ≡ ok ((v * 4 + w / 16) ∷ (w % 16 * 16 + x / 4) ∷ [])
decode_three c d e v w x buffer lc ld le clean =
    let small = λ (a n : ℕ) (l : base64url_lookup a ≡ some n). (sextet_char-lookup a n l).0 in
    let b1 = shift_in buffer v in
    let b2 = shift_in b1 w in
    step_wait c v (d ∷ e ∷ []) buffer 0 _ lc (omega arith) (
      step_out d w (e ∷ []) b1 6 _ ld (omega arith) (
        step_out e x [] b2 4 _ le (omega arith)
          (stop (shift_in b2 x) 2 ((trailing_two b2 x (small e x le)).1 clean))))
    ∙ rw (
      first_out buffer v w (small c v lc) (small d w ld),
      second_out b1 w x (small d w ld) (small e x le),
    )

pub decode_two :
    (c d : ℕ) (v w : ℕ) (buffer : ℕ)
    → base64url_lookup c ≡ some v
    → base64url_lookup d ≡ some w
    → w % 16 ≡ 0
    → decode_sextets (c ∷ d ∷ []) buffer 0 ≡ ok ((v * 4 + w / 16) ∷ [])
decode_two c d v w buffer lc ld clean =
    let small = λ (a n : ℕ) (l : base64url_lookup a ≡ some n). (sextet_char-lookup a n l).0 in
    let b1 = shift_in buffer v in
    step_wait c v (d ∷ []) buffer 0 _ lc (omega arith) (
      step_out d w [] b1 6 _ ld (omega arith)
        (stop (shift_in b1 w) 4 ((trailing_four b1 w (small d w ld)).1 clean)))
    ∙ rw (first_out buffer v w (small c v lc) (small d w ld))

-- The characters of three, two and one bytes, by the bytes' own bits.
pub encode_three :
    (f s t : ℕ) (rest : Bytes)
    → f < 256
    → s < 256
    → t < 256
    → encode_base64url (f ∷ s ∷ t ∷ rest)
      ≡ sextet_char (f / 4)
        ∷ sextet_char (f % 4 * 16 + s / 16)
        ∷ sextet_char (s % 16 * 4 + t / 64)
        ∷ sextet_char (t % 64)
        ∷ encode_base64url rest
unfolding encode_base64url
encode_three f s t rest hf hs ht =
    let a : (f * 65536 + s * 256 + t) / 262144 % 64 ≡ f / 4 = omega arith in
    let b : (f * 65536 + s * 256 + t) / 4096 % 64 ≡ f % 4 * 16 + s / 16 = omega arith in
    let c : (f * 65536 + s * 256 + t) / 64 % 64 ≡ s % 16 * 4 + t / 64 = omega arith in
    let d : (f * 65536 + s * 256 + t) % 64 ≡ t % 64 = omega arith in rw (a, b, c, d)

pub encode_two :
    (f s : ℕ)
    → f < 256
    → s < 256
    → encode_base64url (f ∷ s ∷ [])
      ≡ sextet_char (f / 4) ∷ sextet_char (f % 4 * 16 + s / 16) ∷ sextet_char (s % 16 * 4) ∷ []
unfolding encode_base64url
encode_two f s hf hs =
    let a : (f * 65536 + s * 256) / 262144 % 64 ≡ f / 4 = omega arith in
    let b : (f * 65536 + s * 256) / 4096 % 64 ≡ f % 4 * 16 + s / 16 = omega arith in
    let c : (f * 65536 + s * 256) / 64 % 64 ≡ s % 16 * 4 = omega arith in rw (a, b, c)

pub encode_one :
    (f : ℕ)
    → f < 256
    → encode_base64url (f ∷ []) ≡ sextet_char (f / 4) ∷ sextet_char (f % 4 * 16) ∷ []
unfolding encode_base64url
encode_one f hf =
    let a : f * 65536 / 262144 % 64 ≡ f / 4 = omega arith in
    let b : f * 65536 / 4096 % 64 ≡ f % 4 * 16 = omega arith in rw (a, b)

pub encode_nil : encode_base64url [] ≡ []
unfolding encode_base64url
encode_nil = refl

pub check_none : (buffer : ℕ) → check_trailing buffer 0 ≡ ok tt
unfolding check_trailing
check_none buffer = refl

pub decode_sextets-encode :
    (bytes : Bytes) (buffer : ℕ)
    → AreBytes bytes
    → decode_sextets (encode_base64url bytes) buffer 0 ≡ ok bytes
decode_sextets-encode [] buffer h = rw encode_nil (stop buffer 0 (check_none buffer))
decode_sextets-encode (f ∷ []) buffer h = rw (encode_one f h.0) (
    decode_two _ _ (f / 4) (f % 4 * 16) buffer (lookup-sextet_char (f / 4) (omega (arith, h.0)))
      (lookup-sextet_char (f % 4 * 16) (omega arith)) (omega arith)
    ∙ ap (λ b. ok (b ∷ [])) (omega (arith, h.0)))
decode_sextets-encode (f ∷ s ∷ []) buffer h =
    let first : f / 4 * 4 + (f % 4 * 16 + s / 16) / 16 ≡ f = omega (arith, h.0, h.1.0) in
    let second : (f % 4 * 16 + s / 16) % 16 * 16 + s % 16 * 4 / 4 ≡ s = omega (arith, h.0, h.1.0) in
    rw (encode_two f s h.0 h.1.0) (
      decode_three _ _ _ (f / 4) (f % 4 * 16 + s / 16) (s % 16 * 4) buffer
        (lookup-sextet_char (f / 4) (omega (arith, h.0)))
        (lookup-sextet_char (f % 4 * 16 + s / 16) (omega (arith, h.1.0)))
        (lookup-sextet_char (s % 16 * 4) (omega arith)) (omega arith)
      ∙ rw (first, second))
decode_sextets-encode (f ∷ s ∷ t ∷ rest) buffer h =
    let hf = h.0 in
    let hs = h.1.0 in
    let ht = h.1.1.0 in
    let first : f / 4 * 4 + (f % 4 * 16 + s / 16) / 16 ≡ f = omega (arith, hf, hs) in
    let second : (f % 4 * 16 + s / 16) % 16 * 16 + (s % 16 * 4 + t / 64) / 4 ≡ s =
      omega (arith, hs, ht) in
    let third : (s % 16 * 4 + t / 64) % 4 * 64 + t % 64 ≡ t = omega (arith, ht) in
    rw (encode_three f s t rest hf hs ht) (
      decode_four _ _ _ _ (f / 4) (f % 4 * 16 + s / 16) (s % 16 * 4 + t / 64) (t % 64)
        (encode_base64url rest) buffer rest (lookup-sextet_char (f / 4) (omega (arith, hf)))
        (lookup-sextet_char (f % 4 * 16 + s / 16) (omega (arith, hs)))
        (lookup-sextet_char (s % 16 * 4 + t / 64) (omega (arith, ht)))
        (lookup-sextet_char (t % 64) (omega arith)) (decode_sextets-encode rest _ h.1.1.1)
      ∙ rw (first, second, third))
