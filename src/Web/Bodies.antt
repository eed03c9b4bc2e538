-- ===== src/Web/Bodies.antt =====
-- apps/web/lib/bounded-body.ts: a request's body is read up to a limit. A body is the list of chunks
-- that its reader gives; a missing header and a missing body are `none`.
pub mod Laws
mod Tests
use understandproof.Base.{
  ℕ, zero, suc, ◌+◌, ◌-◌, ◌*◌, Bool, true, false, not, ◌&&◌, ◌||◌, List, [], ◌∷◌, ◌++◌, Option,
  none, some, Text, Number, is_int_between, nat_value, max_safe_integer, Outcome, ok, throw,
  throw_if, ◌>>=◌, ◌>>◌, length, every, concat, ltb, leb, nat_eqb,
}
use understandproof.Media.Bytes.{Bytes}

pub data BodyFailure : Type 0 where
  type_error body_too_large invalid_body : BodyFailure

abbrev is_digit : ℕ → Bool
is_digit c = leb b'0' c && leb c b'9'

-- `/^\d+$/`
unfoldable pub is_decimal : Text → Bool
is_decimal value = leb 1 (length value) && every is_digit value

-- `Number(value)` of a text of digits.
abbrev decimal_from : ℕ → Text → ℕ
decimal_from n [] = n
decimal_from n (c ∷ rest) = decimal_from (n * 10 + (c - b'0')) rest

unfoldable pub decimal_value : Text → ℕ
decimal_value value = decimal_from 0 value

unfoldable pub check_declared : ℕ → Option Text → Outcome BodyFailure (Unit {0})
check_declared maximum none = ok tt
check_declared maximum (some declared) =
    throw_if
      (not (is_decimal declared)
        || ltb max_safe_integer (decimal_value declared)
        || ltb maximum (decimal_value declared))
      body_too_large

-- The loop that reads the chunks.
unfoldable pub read_chunks : ℕ → ℕ → List Bytes → List Bytes → Outcome BodyFailure (List Bytes)
read_chunks maximum total chunks [] = ok chunks
read_chunks maximum total chunks (next ∷ rest) = do
  throw_if (ltb maximum (total + length next)) body_too_large
  read_chunks maximum (total + length next) (chunks ++ next ∷ []) rest

unfoldable pub read_body : ℕ → Option (List Bytes) → Outcome BodyFailure Bytes
read_body maximum none = ok []
read_body maximum (some stream) = do chunks ← read_chunks maximum 0 [] stream; ok (concat chunks)

unfoldable pub read_bounded_body :
    Number → Option Text → Option (List Bytes) → Outcome BodyFailure Bytes
read_bounded_body maximum_bytes content_length body = do
  throw_if (not (is_int_between 1 max_safe_integer maximum_bytes)) type_error
  check_declared (nat_value maximum_bytes) content_length
  read_body (nat_value maximum_bytes) body

abbrev is_zero : Text → Bool
is_zero [] = false
is_zero (c ∷ []) = nat_eqb c b'0'
is_zero (c ∷ d ∷ rest) = false

abbrev must_be_zero : Option Text → Bool
must_be_zero none = true
must_be_zero (some declared) = is_zero declared

-- The two reads: a first chunk has to be empty, and a second must not come.
unfoldable pub holds_nothing : Option (List Bytes) → Bool
holds_nothing none = true
holds_nothing (some []) = true
holds_nothing (some (first ∷ [])) = nat_eqb (length first) 0
holds_nothing (some (first ∷ second ∷ rest)) = false

unfoldable pub require_empty_request_body :
    Option Text → Option (List Bytes) → Outcome BodyFailure (Unit {0})
require_empty_request_body content_length body = do
  throw_if (not (must_be_zero content_length)) invalid_body
  throw_if (not (holds_nothing body)) invalid_body
