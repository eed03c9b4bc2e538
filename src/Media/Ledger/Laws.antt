-- ===== src/Media/Ledger/Laws.antt =====
-- What the ledger of parts and the provider's list guarantee.
use understandproof.Base.{
  ℕ, ◌≡◌, ◌↔◌, refl, sym, ap, ◌∙◌, subst, All, Bool, true, List, [], ◌∷◌, none, some, text_eq, ok,
  length, find, find_passes, Option-cases, Bool-cases, inl, inr, arith,
}
use understandproof.Media.Bytes.Laws.{bytes_equal_iff}
use understandproof.Media.Multipart.{Part, is_manifest_part}
use understandproof.Media.Ledger.{
  Registration, duplicate, has_number, is_same_part, enter, register,
}

-- What `register` asks of a part by itself.
abbrev pub IsRegistrable : Part → Type 0
IsRegistrable part = (is_manifest_part part ≡ true) × (part.byte_length ≡ length part.bytes)

same_parts :
    (p q : Part)
    → p.part_number ≡ q.part_number
    → p.first_chunk_index ≡ q.first_chunk_index
    → p.last_chunk_index ≡ q.last_chunk_index
    → p.byte_length ≡ q.byte_length
    → p.sha256 ≡ q.sha256
    → p.bytes ≡ q.bytes
    → p ≡ q
same_parts p q a b c d e f = cc

is_same_part_iff :
    (p q : Part)
    → p.part_number ≡ q.part_number
    → p.byte_length ≡ length p.bytes
    → q.byte_length ≡ length q.bytes
    → (is_same_part p q ≡ true) ↔ (p ≡ q)
unfolding is_same_part
is_same_part_iff p q number p_size q_size =
    let same_bytes = bytes_equal_iff p.bytes q.bytes in
    (
      λ h.
          same_parts p q number (ground arith) (ground arith)
            (ground (arith, p_size, q_size, ap length (same_bytes.0 (ground arith)))) (ground arith)
            (same_bytes.0 (ground arith)),
      λ e. ground (
        arith,
        ap (λ r. r.sha256) e,
        ap (λ r. r.first_chunk_index) e,
        ap (λ r. r.last_chunk_index) e,
        same_bytes.1 (ap (λ r. r.bytes) e),
      ),
    )

register_iff :
    (parts : List Part) (part : Part) (result : List Part × Registration)
    → (register parts part ≡ ok result)
      ↔ IsRegistrable part
        × (enter parts part (find (has_number part.part_number) parts) ≡ ok result)
unfolding register
register_iff parts part result = ground arith

find-has_number :
    (n : ℕ) (parts : List Part) (part : Part)
    → find (has_number n) parts ≡ some part
    → part.part_number ≡ n
unfolding has_number
find-has_number n parts part e = ground (arith, find_passes (has_number n) parts part e)

All-find :
    (P : Part → Type 0) (test : Part → Bool) (parts : List Part) (part : Part)
    → All P parts
    → find test parts ≡ some part
    → P part
All-find P test [] part h e = cc
All-find P test (x ∷ parts) part h e = elim (Bool-cases (test x)) [
  | inl here ↦ subst P (ground (arith, here)) h.0
  | inr later ↦ All-find P test parts part h.1 (ground (arith, later))
]

enter-some_iff :
    (parts : List Part) (part existing : Part) (result : List Part × Registration)
    → (enter parts part (some existing) ≡ ok result)
      ↔ (is_same_part existing part ≡ true) × (result ≡ (parts, duplicate))
unfolding enter
enter-some_iff parts part existing result = ground arith

-- Registering a part under a number that is in use.
register_found :
    (parts : List Part) (part other : Part) (result : List Part × Registration)
    → find (has_number other.part_number) parts ≡ some part
    → IsRegistrable part
    → IsRegistrable other
    → (register parts other ≡ ok result) ↔ (part ≡ other) × (result ≡ (parts, duplicate))
register_found parts part other result found valid valid_other =
    let number = find-has_number other.part_number parts part found in
    let same = is_same_part_iff part other number valid.1 valid_other.1 in
    let entered = enter-some_iff parts other part result in
    let whole = register_iff parts other result in
    (
      λ e.
          let (identical, unchanged) =
            entered.0 (subst (λ o. enter parts other o ≡ ok result) found (whole.0 e).1) in
          (same.0 identical, unchanged),
      λ h. whole.1 (
        valid_other,
        subst (λ o. enter parts other o ≡ ok result) (sym found) (entered.1 (same.1 h.0, h.1)),
      ),
    )

-- What a registration that was not refused leaves behind: the part stands in the ledger under its
-- number, and the other numbers keep theirs.
pub record IsEntered (before : List Part) (part : Part) (after : List Part) : Type 0 where
  pub stands : find (has_number part.part_number) after ≡ some part
  pub others :
      (n : ℕ) → ¬ (part.part_number ≡ n) → find (has_number n) after ≡ find (has_number n) before
  pub valid : All IsRegistrable after

register_new :
    (parts : List Part) (part : Part) (after : List Part) (answer : Registration)
    → enter parts part none ≡ ok (after, answer)
    → after ≡ part ∷ parts
unfolding enter
register_new parts part after answer e = ground arith

enter_front-IsEntered :
    (parts : List Part) (part : Part)
    → All IsRegistrable parts
    → IsRegistrable part
    → IsEntered parts part (part ∷ parts)
unfolding has_number
enter_front-IsEntered parts part all_valid valid = record {
  stands = ground arith;
  others = λ n other. ground (arith, other);
  valid = (valid, all_valid);
}

-- A registration in a ledger of valid entries that is not refused leaves the part there under its
-- number, keeps what stands under the other numbers, and keeps every entry valid.
pub register-IsEntered :
    (parts : List Part) (part : Part) (after : List Part) (answer : Registration)
    → All IsRegistrable parts
    → register parts part ≡ ok (after, answer)
    → IsEntered parts part after
register-IsEntered parts part after answer all_valid e =
    let (valid, entered) = (register_iff parts part (after, answer)).0 e in
    elim (Option-cases (find (has_number part.part_number) parts)) [
      | inl free ↦
          let front =
            register_new parts part after answer
              (subst (λ o. enter parts part o ≡ ok (after, answer)) free entered) in
          subst (IsEntered parts part) (sym front)
            (enter_front-IsEntered parts part all_valid valid)
      | inr (existing, found) ↦
          let old_valid =
            All-find IsRegistrable (has_number part.part_number) parts existing all_valid found in
          let (same, unchanged) =
            (register_found parts existing part (after, answer) found old_valid valid).0 e in
          let kept : after ≡ parts = ap (λ r. r.0) unchanged in
          subst (IsEntered parts part) (sym kept)
            (record { stands = found ∙ ap some same; others = λ n other. refl; valid = all_valid })
    ]

-- After a part was registered in a ledger of valid entries, another valid one under its number is
-- taken only if it is the same in everything, and then it is a duplicate and changes nothing.
pub register_again_iff :
    (parts : List Part) (part : Part) (after : List Part) (answer : Registration) (other : Part)
    (result : List Part × Registration)
    → All IsRegistrable parts
    → register parts part ≡ ok (after, answer)
    → IsRegistrable other
    → other.part_number ≡ part.part_number
    → (register after other ≡ ok result) ↔ (part ≡ other) × (result ≡ (after, duplicate))
register_again_iff parts part after answer other result all_valid e valid_other number =
    let entered = register-IsEntered parts part after answer all_valid e in
    let (valid, _) = (register_iff parts part (after, answer)).0 e in
    register_found after part other result
      (ap (λ n. find (has_number n) after) number ∙ entered.stands) valid valid_other
