-- ===== src/Media/Bytes.antt =====
-- packages/media/src/encoding.ts: byte arrays, as lists of numbers. The writes of a DataView are
-- the big-endian bytes of a number.
pub mod Laws
use Prim.Native.Nat.{bit_or, bit_xor}
use understandproof.Base.{
  ℕ, ◌+◌, ◌*◌, ◌/◌, ◌%◌, ◌-◌, ◌<◌, Bool, List, [], ◌∷◌, ◌++◌, concat, length, nat_eqb, take, drop,
  get_or, All,
}

abbrev pub Bytes : Type 0
Bytes = List ℕ

-- The values that a byte array can hold.
abbrev pub AreBytes : Bytes → Type 0
AreBytes bytes = All (λ b. b < 256) bytes

-- `values.subarray(from, to)`
abbrev pub slice : ℕ → ℕ → Bytes → Bytes
slice from to bytes = take (to - from) (drop from bytes)

unfoldable pub concat_bytes : List Bytes → Bytes
concat_bytes values = concat values

-- The loop of `bytesEqual`; a byte past an end counts as 0.
difference : ℕ → Bytes → Bytes → ℕ
difference d [] [] = d
difference d (x ∷ xs) [] = difference (bit_or d (bit_xor x 0)) xs []
difference d [] (y ∷ ys) = difference (bit_or d (bit_xor 0 y)) [] ys
difference d (x ∷ xs) (y ∷ ys) = difference (bit_or d (bit_xor x y)) xs ys

unfoldable pub bytes_equal : Bytes → Bytes → Bool
unfolding difference
bytes_equal left right = nat_eqb (difference (bit_xor (length left) (length right)) left right) 0

unfoldable pub uint16_bytes : ℕ → Bytes
uint16_bytes n = n / 256 % 256 ∷ n % 256 ∷ []

unfoldable pub uint32_bytes : ℕ → Bytes
uint32_bytes n = n / 16777216 % 256 ∷ n / 65536 % 256 ∷ n / 256 % 256 ∷ n % 256 ∷ []

unfoldable pub get_uint8 : Bytes → ℕ → ℕ
get_uint8 bytes at = get_or bytes at 0

unfoldable pub get_uint16 : Bytes → ℕ → ℕ
unfolding get_uint8
get_uint16 bytes at = get_uint8 bytes at * 256 + get_uint8 bytes (at + 1)

unfoldable pub get_uint32 : Bytes → ℕ → ℕ
unfolding get_uint8
get_uint32 bytes at =
    get_uint8 bytes at * 16777216
    + get_uint8 bytes (at + 1) * 65536
    + get_uint8 bytes (at + 2) * 256
    + get_uint8 bytes (at + 3)
