-- ===== src/Media/Encoding/Alphabet.antt =====
-- The base64url alphabet: its 64 characters and their positions.
use understandproof.Base.{
  ℕ, zero, suc, ◌+◌, ◌-◌, ◌≤◌, ◌<◌, ◌≡◌, refl, sym, ap, ◌∙◌, Bool, true, false, ◌&&◌, [], ◌∷◌,
  Option, none, some, Text, length, get_or, nat_eqb, Bool-cases, inl, inr, arith,
}
use understandproof.Media.Encoding.{base64url_alphabet, sextet_char, position, base64url_lookup}

-- The lookup finds a position from the character there.
abbrev is_at : ℕ → Option ℕ → Bool
is_at n none = false
is_at n (some m) = nat_eqb m n

abbrev is_found : ℕ → Bool
is_found n = is_at n (base64url_lookup (sextet_char n))

is_at-eq_some : (n : ℕ) (o : Option ℕ) → is_at n o ≡ true → o ≡ some n
is_at-eq_some n none h = cc
is_at-eq_some n (some m) h = ground arith

abbrev all_below : (ℕ → Bool) → ℕ → Bool
all_below test zero = true
all_below test (suc n) = test n && all_below test n

all_below-at : (test : ℕ → Bool) (n m : ℕ) → all_below test n ≡ true → m < n → test m ≡ true
all_below-at test zero m h k = absurd (omega (arith, k))
all_below-at test (suc n) m h k = ground (arith, all_below-at test n m)

all_found : all_below is_found 64 ≡ true
unfolding base64url_lookup sextet_char
all_found = refl

pub lookup-sextet_char : (n : ℕ) → n < 64 → base64url_lookup (sextet_char n) ≡ some n
lookup-sextet_char n h =
    is_at-eq_some n (base64url_lookup (sextet_char n)) (all_below-at is_found 64 n all_found h)

position-at :
    (index c n : ℕ) (rest : Text)
    → position index c rest ≡ some n
    → (index ≤ n) × (n < index + length rest) × (get_or rest (n - index) 0 ≡ c)
position-at index c n [] e = cc
position-at index c n (a ∷ rest) e = elim (Bool-cases (nat_eqb a c)) [
  | inl here ↦
      let same : index ≡ n = ground arith in
      let none_before : n - index ≡ 0 = omega (arith, same) in
      (
        omega (arith, same),
        omega (arith, same),
        ap (λ k. get_or (a ∷ rest) k 0) none_before ∙ ground arith,
      )
  | inr later ↦
      let (after, before, at) = position-at (suc index) c n rest (ground arith) in
      let one_more : n - index ≡ suc (n - suc index) = omega (arith, after) in
      (omega (arith, after), omega (arith, before), ap (λ k. get_or (a ∷ rest) k 0) one_more ∙ at)
]

pub sextet_char-lookup : (c n : ℕ) → base64url_lookup c ≡ some n → (n < 64) × (sextet_char n ≡ c)
unfolding base64url_lookup sextet_char
sextet_char-lookup c n e =
    let (_, below, at) = position-at 0 c n base64url_alphabet e in
    let same : n - 0 ≡ n = omega arith in
    (omega (arith, below), ap (λ k. get_or base64url_alphabet k 0) (sym same) ∙ at)
