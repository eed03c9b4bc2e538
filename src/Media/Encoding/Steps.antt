-- ===== src/Media/Encoding/Steps.antt =====
-- The steps of the base64url decoder, and the bits that they give out.
use understandproof.Base.{
  ℕ, ◌+◌, ◌-◌, ◌*◌, ◌/◌, ◌%◌, ◌^◌, ◌≤◌, ◌<◌, ◌≡◌, ◌↔◌, [], ◌∷◌, some, Text, ok, nat_eq,
  Outcome-cases, Option-cases, inl, inr, arith,
}
use understandproof.Media.Bytes.{Bytes}
use understandproof.Media.Encoding.{base64url_lookup, shift_in, check_trailing, decode_sextets}

pub step_wait :
    (c d : ℕ) (rest : Text) (buffer bits : ℕ) (bytes : Bytes)
    → base64url_lookup c ≡ some d
    → bits < 2
    → decode_sextets rest (shift_in buffer d) (bits + 6) ≡ ok bytes
    → decode_sextets (c ∷ rest) buffer bits ≡ ok bytes
unfolding decode_sextets
step_wait c d rest buffer bits bytes l few h = ground (arith, l, few, h)

pub step_out :
    (c d : ℕ) (rest : Text) (buffer bits : ℕ) (bytes : Bytes)
    → base64url_lookup c ≡ some d
    → 2 ≤ bits
    → decode_sextets rest (shift_in buffer d) (bits + 6 - 8) ≡ ok bytes
    → decode_sextets (c ∷ rest) buffer bits
      ≡ ok (shift_in buffer d / 2 ^ (bits + 6 - 8) % 256 ∷ bytes)
unfolding decode_sextets
step_out c d rest buffer bits bytes l many h = ground (arith, l, many, h)

pub stop :
    (buffer bits : ℕ) → check_trailing buffer bits ≡ ok tt → decode_sextets [] buffer bits ≡ ok []
unfolding decode_sextets
stop buffer bits h = ground (arith, h)

module _ (buffer : ℕ) where
  pub first_out :
      (d e : ℕ) → d < 64 → e < 64 → shift_in (shift_in buffer d) e / 16 % 256 ≡ d * 4 + e / 16
  unfolding shift_in
  first_out d e h k = omega arith

  pub second_out :
      (d e : ℕ) → d < 64 → e < 64 → shift_in (shift_in buffer d) e / 4 % 256 ≡ d % 16 * 16 + e / 4
  unfolding shift_in
  second_out d e h k = omega arith

  pub third_out :
      (d e : ℕ) → d < 64 → e < 64 → shift_in (shift_in buffer d) e / 1 % 256 ≡ d % 4 * 64 + e
  unfolding shift_in
  third_out d e h k = omega arith

  pub trailing_four :
      (d : ℕ) → d < 64 → (check_trailing (shift_in buffer d) 4 ≡ ok tt) ↔ (d % 16 ≡ 0)
  unfolding shift_in check_trailing
  trailing_four d h = ground arith

  pub trailing_two : (d : ℕ) → d < 64 → (check_trailing (shift_in buffer d) 2 ≡ ok tt) ↔ (d % 4 ≡ 0)
  unfolding shift_in check_trailing
  trailing_two d h = ground arith

-- What a step was, when the whole was accepted.
pub waited :
    (c : ℕ) (rest : Text) (buffer bits : ℕ) (bytes : Bytes)
    → bits < 2
    → decode_sextets (c ∷ rest) buffer bits ≡ ok bytes
    → (d : ℕ) × (base64url_lookup c ≡ some d)
      × (decode_sextets rest (shift_in buffer d) (bits + 6) ≡ ok bytes)
unfolding decode_sextets
waited c rest buffer bits bytes few h = elim (Option-cases (base64url_lookup c)) [
  | inl unknown ↦ absurd (ground (arith, unknown))
  | inr (d, l) ↦ (d, l, ground (arith, l))
]

pub gave_out :
    (c : ℕ) (rest : Text) (buffer bits : ℕ) (bytes : Bytes)
    → 2 ≤ bits
    → decode_sextets (c ∷ rest) buffer bits ≡ ok bytes
    → (d : ℕ) × (later : Bytes) × (base64url_lookup c ≡ some d)
      × (decode_sextets rest (shift_in buffer d) (bits + 6 - 8) ≡ ok later)
unfolding decode_sextets
gave_out c rest buffer bits bytes many h = elim (Option-cases (base64url_lookup c)) [
  | inl unknown ↦ absurd (ground (arith, unknown))
  | inr (d, l) ↦ elim (Outcome-cases (decode_sextets rest (shift_in buffer d) (bits + 6 - 8))) [
    | inr (code, bad) ↦ absurd (ground (arith, l, bad))
    | inl (later, good) ↦ (d, later, l, good)
  ]
]

pub stopped :
    (buffer bits : ℕ) (bytes : Bytes)
    → decode_sextets [] buffer bits ≡ ok bytes
    → (check_trailing buffer bits ≡ ok tt) × (bytes ≡ [])
unfolding decode_sextets
stopped buffer bits bytes h = ground arith
