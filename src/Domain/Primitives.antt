-- ===== src/Domain/Primitives.antt =====
-- packages/domain/src/primitives.ts: the string schemas. Where a schema trims, its parser returns
-- the trimmed text. The UUID test is the validation library's, and a parameter of its callers.
use understandproof.Base.{ℕ, Bool, ◌&&◌, ◌||◌, leb, nat_eqb, Text, length, every}

unfoldable pub is_lower_hex : ℕ → Bool
is_lower_hex c = leb b'0' c && leb c b'9' || leb b'a' c && leb c b'f'

unfoldable pub is_git_sha : Text → Bool
unfolding is_lower_hex
is_git_sha s = (nat_eqb (length s) 40 || nat_eqb (length s) 64) && every is_lower_hex s

unfoldable pub is_sha256 : Text → Bool
unfolding is_lower_hex
is_sha256 s = nat_eqb (length s) 64 && every is_lower_hex s

-- What `NonEmptyIdentifierSchema` asks of a text that is trimmed already.
unfoldable pub is_identifier : Text → Bool
is_identifier s = leb 1 (length s) && leb (length s) 200

is_key_unit : ℕ → Bool
is_key_unit c =
    leb b'A' c && leb c b'Z'
    || leb b'a' c && leb c b'z'
    || leb b'0' c && leb c b'9'
    || nat_eqb c b'.'
    || nat_eqb c b'_'
    || nat_eqb c b':'
    || nat_eqb c b'-'

unfoldable pub is_idempotency_key : Text → Bool
unfolding is_key_unit
is_idempotency_key s = leb 8 (length s) && leb (length s) 200 && every is_key_unit s
