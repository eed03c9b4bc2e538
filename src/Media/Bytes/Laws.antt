-- ===== src/Media/Bytes/Laws.antt =====
-- The comparison of byte arrays, which takes no early exit, agrees with equality.
use understandproof.Base.{
  ℕ, ◌≡◌, ◌↔◌, refl, true, [], ◌∷◌, length, arith, bit_or-eq-zero_iff, bit_xor-eq-zero_iff,
  nat_eqb_iff,
}
use Prim.Native.Nat.{bit_or, bit_xor}
use understandproof.Media.Bytes.{Bytes, difference, bytes_equal}

difference-eq-zero :
    (d : ℕ) (l r : Bytes) → length l ≡ length r → difference d l r ≡ 0 → (d ≡ 0) × (l ≡ r)
unfolding difference
difference-eq-zero d [] [] n e = (e, refl)
difference-eq-zero d (x ∷ l) [] n e = cc
difference-eq-zero d [] (y ∷ r) n e = cc
difference-eq-zero d (x ∷ l) (y ∷ r) n e =
    let (here, rest) = difference-eq-zero (bit_or d (bit_xor x y)) l r (omega arith) e in
    let (before, digit) = (bit_or-eq-zero_iff d (bit_xor x y)).0 here in
    (before, cc ((bit_xor-eq-zero_iff x y).0 digit, rest))

difference-zero : (d : ℕ) (l r : Bytes) → difference d l r ≡ 0 → d ≡ 0
unfolding difference
difference-zero d [] [] e = e
difference-zero d (x ∷ l) [] e =
    ((bit_or-eq-zero_iff d _).0 (difference-zero (bit_or d (bit_xor x 0)) l [] e)).0
difference-zero d [] (y ∷ r) e =
    ((bit_or-eq-zero_iff d _).0 (difference-zero (bit_or d (bit_xor 0 y)) [] r e)).0
difference-zero d (x ∷ l) (y ∷ r) e =
    ((bit_or-eq-zero_iff d _).0 (difference-zero (bit_or d (bit_xor x y)) l r e)).0

difference_self : (d : ℕ) (l : Bytes) → d ≡ 0 → difference d l l ≡ 0
unfolding difference
difference_self d [] e = e
difference_self d (x ∷ l) e =
    difference_self (bit_or d (bit_xor x x)) l
      ((bit_or-eq-zero_iff d (bit_xor x x)).1 (e, (bit_xor-eq-zero_iff x x).1 refl))

bytes_equal_sound : (l r : Bytes) → bytes_equal l r ≡ true → l ≡ r
unfolding bytes_equal
bytes_equal_sound l r h =
    let e = (nat_eqb_iff (difference (bit_xor (length l) (length r)) l r) 0).0 h in
    let n = (bit_xor-eq-zero_iff (length l) (length r)).0 (difference-zero _ l r e) in
    (difference-eq-zero _ l r n e).1

pub bytes_equal_self : (l : Bytes) → bytes_equal l l ≡ true
unfolding bytes_equal
bytes_equal_self l =
    (nat_eqb_iff (difference (bit_xor (length l) (length l)) l l) 0).1
      (difference_self _ l ((bit_xor-eq-zero_iff (length l) (length l)).1 refl))

-- Two arrays compare as equal exactly when they hold the same bytes.
pub bytes_equal_iff : (l r : Bytes) → (bytes_equal l r ≡ true) ↔ (l ≡ r)
bytes_equal_iff l r = (bytes_equal_sound l r, λ e. rw e (bytes_equal_self r))
