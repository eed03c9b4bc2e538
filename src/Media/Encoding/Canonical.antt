-- ===== src/Media/Encoding/Canonical.antt =====
-- base64url: a text that is read is the one that its bytes are written as.
use understandproof.Base.{
  ℕ, ◌+◌, ◌*◌, ◌/◌, ◌%◌, ◌<◌, ◌≡◌, sym, subst, ◌∙◌, [], ◌∷◌, some, Text, ok, length, nat_eq, arith,
}
use understandproof.Media.Protocol.{Protocol}
use understandproof.Media.Bytes.{Bytes, AreBytes}
use understandproof.Media.Encoding.{base64url_lookup, encode_base64url, shift_in, decode_sextets}
use understandproof.Media.Encoding.Alphabet.{sextet_char-lookup}
use understandproof.Media.Encoding.Steps.{
  stop, trailing_four, trailing_two, waited, gave_out, stopped,
}
use understandproof.Media.Encoding.Base64url.{
  encode_nil, encode_one, encode_two, encode_three, decode_two, decode_three, decode_four,
  check_none,
}

back_two :
    (c d v w : ℕ)
    → base64url_lookup c ≡ some v
    → base64url_lookup d ≡ some w
    → w % 16 ≡ 0
    → (encode_base64url ((v * 4 + w / 16) ∷ []) ≡ c ∷ d ∷ []) × AreBytes ((v * 4 + w / 16) ∷ [])
back_two c d v w lc ld clean =
    let (hv, cv) = sextet_char-lookup c v lc in
    let (hw, cw) = sextet_char-lookup d w ld in
    let small : v * 4 + w / 16 < 256 = omega (arith, hv, hw) in
    let first : (v * 4 + w / 16) / 4 ≡ v = omega (arith, hv, hw) in
    let second : (v * 4 + w / 16) % 4 * 16 ≡ w = omega (arith, hw, clean) in
    (encode_one (v * 4 + w / 16) small ∙ rw (first, second, cv, cw), (small, tt))

back_three :
    (c d e v w x : ℕ)
    → base64url_lookup c ≡ some v
    → base64url_lookup d ≡ some w
    → base64url_lookup e ≡ some x
    → x % 4 ≡ 0
    → (encode_base64url ((v * 4 + w / 16) ∷ (w % 16 * 16 + x / 4) ∷ []) ≡ c ∷ d ∷ e ∷ [])
      × AreBytes ((v * 4 + w / 16) ∷ (w % 16 * 16 + x / 4) ∷ [])
back_three c d e v w x lc ld le clean =
    let (hv, cv) = sextet_char-lookup c v lc in
    let (hw, cw) = sextet_char-lookup d w ld in
    let (hx, cx) = sextet_char-lookup e x le in
    let f = v * 4 + w / 16 in
    let s = w % 16 * 16 + x / 4 in
    let hf : f < 256 = omega (arith, hv, hw) in
    let hs : s < 256 = omega (arith, hw, hx) in
    let first : f / 4 ≡ v = omega (arith, hv, hw) in
    let second : f % 4 * 16 + s / 16 ≡ w = omega (arith, hw, hx) in
    let third : s % 16 * 4 ≡ x = omega (arith, hx, clean) in
    (encode_two f s hf hs ∙ rw (first, second, third, cv, cw, cx), (hf, (hs, tt)))

back_four :
    (c d e f v w x y : ℕ) (rest : Text) (later : Bytes)
    → base64url_lookup c ≡ some v
    → base64url_lookup d ≡ some w
    → base64url_lookup e ≡ some x
    → base64url_lookup f ≡ some y
    → (encode_base64url later ≡ rest) × AreBytes later
    → (encode_base64url ((v * 4 + w / 16) ∷ (w % 16 * 16 + x / 4) ∷ (x % 4 * 64 + y) ∷ later)
        ≡ c ∷ d ∷ e ∷ f ∷ rest)
      × AreBytes ((v * 4 + w / 16) ∷ (w % 16 * 16 + x / 4) ∷ (x % 4 * 64 + y) ∷ later)
back_four c d e f v w x y rest later lc ld le lf (back, small) =
    let (hv, cv) = sextet_char-lookup c v lc in
    let (hw, cw) = sextet_char-lookup d w ld in
    let (hx, cx) = sextet_char-lookup e x le in
    let (hy, cy) = sextet_char-lookup f y lf in
    let p = v * 4 + w / 16 in
    let q = w % 16 * 16 + x / 4 in
    let r = x % 4 * 64 + y in
    let hp : p < 256 = omega (arith, hv, hw) in
    let hq : q < 256 = omega (arith, hw, hx) in
    let hr : r < 256 = omega (arith, hx, hy) in
    let first : p / 4 ≡ v = omega (arith, hv, hw) in
    let second : p % 4 * 16 + q / 16 ≡ w = omega (arith, hw, hx) in
    let third : q % 16 * 4 + r / 64 ≡ x = omega (arith, hx, hy) in
    let fourth : r % 64 ≡ y = omega (arith, hy) in
    (
      encode_three p q r later hp hq hr ∙ rw (first, second, third, fourth, cv, cw, cx, cy, back),
      (hp, (hq, (hr, small))),
    )

same_bytes :
    (a b : Bytes) (value : Text)
    → ◌≡◌ {A = Protocol Bytes} (ok a) (ok b)
    → (encode_base64url b ≡ value) × AreBytes b
    → (encode_base64url a ≡ value) × AreBytes a
same_bytes a b value e h =
    subst (λ t. (encode_base64url t ≡ value) × AreBytes t) (ground (arith, e)) h

pub encode-decode_sextets :
    (value : Text) (buffer : ℕ) (bytes : Bytes)
    → ¬ (length value % 4 ≡ 1)
    → decode_sextets value buffer 0 ≡ ok bytes
    → (encode_base64url bytes ≡ value) × AreBytes bytes
encode-decode_sextets [] buffer bytes n e =
    same_bytes bytes [] [] (sym e ∙ stop buffer 0 (check_none buffer)) (encode_nil, tt)
encode-decode_sextets (c ∷ []) buffer bytes n e = absurd (n (omega arith))
encode-decode_sextets (c ∷ d ∷ []) buffer bytes n e =
    let (v, lc, e1) = waited c (d ∷ []) buffer 0 bytes (omega arith) e in
    let b1 = shift_in buffer v in
    let (w, later, ld, e2) = gave_out d [] b1 6 bytes (omega arith) e1 in
    let clean =
      (trailing_four b1 w (sextet_char-lookup d w ld).0).0 (stopped (shift_in b1 w) 4 later e2).0 in
    same_bytes bytes _ (c ∷ d ∷ []) (sym e ∙ decode_two c d v w buffer lc ld clean)
      (back_two c d v w lc ld clean)
encode-decode_sextets (c ∷ d ∷ f ∷ []) buffer bytes n e =
    let (v, lc, e1) = waited c (d ∷ f ∷ []) buffer 0 bytes (omega arith) e in
    let b1 = shift_in buffer v in
    let (w, later, ld, e2) = gave_out d (f ∷ []) b1 6 bytes (omega arith) e1 in
    let b2 = shift_in b1 w in
    let (x, last, lf, e3) = gave_out f [] b2 4 later (omega arith) e2 in
    let clean =
      (trailing_two b2 x (sextet_char-lookup f x lf).0).0 (stopped (shift_in b2 x) 2 last e3).0 in
    same_bytes bytes _ (c ∷ d ∷ f ∷ []) (sym e ∙ decode_three c d f v w x buffer lc ld lf clean)
      (back_three c d f v w x lc ld lf clean)
encode-decode_sextets (c ∷ d ∷ f ∷ g ∷ rest) buffer bytes n e =
    let (v, lc, e1) = waited c (d ∷ f ∷ g ∷ rest) buffer 0 bytes (omega arith) e in
    let b1 = shift_in buffer v in
    let (w, later, ld, e2) = gave_out d (f ∷ g ∷ rest) b1 6 bytes (omega arith) e1 in
    let b2 = shift_in b1 w in
    let (x, more, lf, e3) = gave_out f (g ∷ rest) b2 4 later (omega arith) e2 in
    let b3 = shift_in b2 x in
    let (y, last, lg, e4) = gave_out g rest b3 2 more (omega arith) e3 in
    let whole = encode-decode_sextets rest (shift_in b3 y) last (λ k. n (omega (arith, k))) e4 in
    same_bytes bytes _ (c ∷ d ∷ f ∷ g ∷ rest)
      (sym e ∙ decode_four c d f g v w x y rest buffer last lc ld lf lg e4)
      (back_four c d f g v w x y rest last lc ld lf lg whole)
