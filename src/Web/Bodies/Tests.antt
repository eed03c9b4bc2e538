-- ===== src/Web/Bodies/Tests.antt =====
-- Runs of the body readers, and the theorems at them.
use understandproof.Base.{
  ◌≤◌, ◌≡◌, ◌↔◌, refl, List, [], ◌∷◌, Option, none, some, text, nat, ok, throw, length,
}
use understandproof.Media.Bytes.{Bytes}
use understandproof.Web.Bodies.{
  is_decimal, decimal_value, check_declared, read_chunks, read_body, read_bounded_body,
  require_empty_request_body, holds_nothing, body_too_large, invalid_body,
}
use understandproof.Web.Bodies.Laws.{bytes_of, Declares, read_bounded_body_iff}

runs : Unit {0}
unfolding is_decimal decimal_value check_declared read_chunks read_body read_bounded_body
    require_empty_request_body holds_nothing
runs = tt

abbrev stream : Option (List Bytes)
stream = some ((1 ∷ 2 ∷ []) ∷ (3 ∷ []) ∷ [])

reads : read_bounded_body (nat 3) (some (text "3")) stream ≡ ok (1 ∷ 2 ∷ 3 ∷ [])
unfolding runs
reads = refl

refuses :
    (read_bounded_body (nat 2) none stream ≡ throw body_too_large)
    × (read_bounded_body (nat 3) (some (text "4")) stream ≡ throw body_too_large)
    × (require_empty_request_body none stream ≡ throw invalid_body)
unfolding runs
refuses = (refl, refl, refl)

read_bounded_body_iff_example :
    (read_bounded_body (nat 3) (some (text "3")) stream ≡ ok (1 ∷ 2 ∷ 3 ∷ []))
    ↔ ((1 ≤ 3) × (3 ≤ 9007199254740991))
      × Declares 3 (some (text "3"))
      × (length (bytes_of stream) ≤ 3)
      × (1 ∷ 2 ∷ 3 ∷ [] ≡ bytes_of stream)
read_bounded_body_iff_example = read_bounded_body_iff 3 (some (text "3")) stream (1 ∷ 2 ∷ 3 ∷ [])
