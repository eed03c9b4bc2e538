-- ===== src/Web/Bodies/Laws.antt =====
-- When a body is read, and that no more than the limit is ever taken.
use understandproof.Base.{
  ℕ, ◌+◌, ◌≤◌, ◌≡◌, ◌↔◌, refl, sym, ap, ◌∙◌, true, List, [], ◌∷◌, ◌++◌, append_assoc, append-nil,
  Option, none, some, Text, nat, Outcome, ok, length, length-append, concat, ltb, Bool-cases, inl,
  inr, >>=-eq-ok, arith,
}
use understandproof.Media.Bytes.{Bytes}
use understandproof.Web.Bodies.{
  BodyFailure, is_decimal, decimal_value, check_declared, read_chunks, read_body, read_bounded_body,
}

abbrev pub bytes_of : Option (List Bytes) → Bytes
bytes_of none = []
bytes_of (some stream) = concat stream

-- A declared length is in decimal, and within the limit.
abbrev pub Declares : ℕ → Option Text → Type 0
Declares maximum none = Unit
Declares maximum (some declared) = (is_decimal declared ≡ true) × (decimal_value declared ≤ maximum)

ok_eq : (a b : List Bytes) → ◌≡◌ {A = Outcome BodyFailure (List Bytes)} (ok a) (ok b) → a ≡ b
ok_eq a b e = ground (arith, e)

read_chunks_iff :
    (maximum total : ℕ) (chunks stream result : List Bytes)
    → total ≤ maximum
    → (read_chunks maximum total chunks stream ≡ ok result)
      ↔ (result ≡ chunks ++ stream) × (total + length (concat stream) ≤ maximum)
unfolding read_chunks
read_chunks_iff maximum total chunks [] result h = (
  λ e. (sym (ok_eq chunks result e) ∙ sym (append-nil chunks), omega (arith, h)),
  λ k. ap ok (sym (k.0 ∙ append-nil chunks)),
)
read_chunks_iff maximum total chunks (next ∷ rest) result h =
    elim (Bool-cases (ltb maximum (total + length next))) [
      | inl over ↦ (
        λ e. absurd (ground (arith, e)),
        λ k. absurd (ground (arith, k.1, length-append next (concat rest))),
      )
      | inr fits ↦
          let IH =
            read_chunks_iff maximum (total + length next) (chunks ++ next ∷ []) rest result
              (ground arith) in
          let size = length-append next (concat rest) in
          let joined = append_assoc chunks (next ∷ []) rest in
          (
            λ e.
                let (same, small) = IH.0 (ground (arith, e)) in
                (same ∙ joined, omega (arith, small, size)),
            λ k. let run = IH.1 (k.0 ∙ sym joined, omega (arith, k.1, size)) in ground (arith, run),
          )
    ]

check_declared_iff :
    (maximum : ℕ) (declared : Option Text)
    → maximum ≤ 9007199254740991
    → (check_declared maximum declared ≡ ok tt) ↔ Declares maximum declared
unfolding check_declared
check_declared_iff maximum none h = ground arith
check_declared_iff maximum (some declared) h = ground arith

read_body_iff :
    (maximum : ℕ) (body : Option (List Bytes)) (bytes : Bytes)
    → (read_body maximum body ≡ ok bytes)
      ↔ (bytes ≡ bytes_of body) × (length (bytes_of body) ≤ maximum)
unfolding read_body
read_body_iff maximum none bytes = ground arith
read_body_iff maximum (some stream) bytes = (
  λ e.
      let (chunks, run, rest) =
        >>=-eq-ok (read_chunks maximum 0 [] stream) (λ chunks. ok (concat chunks)) e in
      let (same, small) = (read_chunks_iff maximum 0 [] stream chunks (omega arith)).0 run in
      let back : concat chunks ≡ bytes = ground (arith, rest) in
      (sym back ∙ ap concat same, omega (arith, small)),
  λ k.
      let run =
        (read_chunks_iff maximum 0 [] stream stream (omega arith)).1 (refl, omega (arith, k.1)) in
      ground (arith, run, k.0),
)

bounded_tests :
    (maximum : ℕ) (content_length : Option Text) (body : Option (List Bytes)) (bytes : Bytes)
    → (read_bounded_body (nat maximum) content_length body ≡ ok bytes)
      ↔ ((1 ≤ maximum) × (maximum ≤ 9007199254740991))
        × (check_declared maximum content_length ≡ ok tt)
        × (read_body maximum body ≡ ok bytes)
unfolding read_bounded_body
bounded_tests maximum content_length body bytes = ground arith

-- A body is read exactly when the limit is a positive safe integer, a length that is declared is a decimal
-- within it, and the chunks that come are within it; the bytes are then all of them, in order.
pub read_bounded_body_iff :
    (maximum : ℕ) (content_length : Option Text) (body : Option (List Bytes)) (bytes : Bytes)
    → (read_bounded_body (nat maximum) content_length body ≡ ok bytes)
      ↔ ((1 ≤ maximum) × (maximum ≤ 9007199254740991))
        × Declares maximum content_length
        × (length (bytes_of body) ≤ maximum)
        × (bytes ≡ bytes_of body)
read_bounded_body_iff maximum content_length body bytes =
    let tests = bounded_tests maximum content_length body bytes in
    let declared = check_declared_iff maximum content_length in
    let read = read_body_iff maximum body bytes in
    (
      λ e.
          let (limit, fits, run) = tests.0 e in
          let (same, small) = read.0 run in (limit, (declared limit.1).0 fits, small, same),
      λ k. tests.1 (k.0, (declared k.0.1).1 k.1, read.1 (k.3, k.2)),
    )
