-- ===== src/Media/Ledger/Provider.antt =====
-- The check of the provider's list of parts against the manifest's and the receipts.
use understandproof.Base.{
  ℕ, suc, ◌≡◌, ◌↔◌, refl, ap, true, false, List, [], ◌∷◌, text_eq, ok, length, every, map, drop,
  arith,
}
use understandproof.Media.Multipart.{Part, is_manifest_part}
use understandproof.Media.Multipart.Packing.{Numbered}
use understandproof.Media.Ledger.{
  Receipt, ListedPart, is_receipt, is_listed_part, differs, any_differs, verify_provider_part_list,
}

-- The parts count up from a number, the receipts are for them in order, and the provider lists them
-- with their lengths and under the receipts' tags.
pub record Agree (first : ℕ) (parts : List Part) (receipts : List Receipt)
    (listed : List ListedPart) : Type 0 where
  pub numbered : Numbered first parts
  pub for_parts : map (λ r. r.part_number) receipts ≡ map (λ p. p.part_number) parts
  pub numbers : map (λ l. l.part_number) listed ≡ map (λ p. p.part_number) parts
  pub lengths : map (λ l. l.byte_length) listed ≡ map (λ p. p.byte_length) parts
  pub tags : map (λ l. l.etag) listed ≡ map (λ r. r.etag) receipts

abbrev SameLength : List Part → List Receipt → List ListedPart → Type 0
SameLength parts receipts listed = (length parts ≡ length receipts) × (length parts ≡ length listed)

Agree-any_differs :
    (index : ℕ) (parts : List Part) (receipts : List Receipt) (listed : List ListedPart)
    → SameLength parts receipts listed
    → any_differs index parts receipts listed ≡ false
    → Agree (suc index) parts receipts listed
unfolding any_differs differs
Agree-any_differs index [] [] [] h e = record {
  numbered = tt;
  for_parts = refl;
  numbers = refl;
  lengths = refl;
  tags = refl;
}
Agree-any_differs index [] (r ∷ receipts) listed h e = absurd (omega (arith, h.0))
Agree-any_differs index [] [] (l ∷ listed) h e = absurd (omega (arith, h.1))
Agree-any_differs index (p ∷ parts) [] listed h e = cc
Agree-any_differs index (p ∷ parts) (r ∷ receipts) [] h e = cc
Agree-any_differs index (p ∷ parts) (r ∷ receipts) (l ∷ listed) h e =
    let rest =
      Agree-any_differs (suc index) parts receipts listed (omega (arith, h.0), omega (arith, h.1))
        (ground arith) in
    record {
      numbered = (ground arith, rest.numbered);
      for_parts = ground (arith, rest.for_parts);
      numbers = ground (arith, rest.numbers);
      lengths = ground (arith, rest.lengths);
      tags = ground (arith, rest.tags);
    }

differs-Agree :
    (index : ℕ) (parts : List Part) (receipts : List Receipt) (listed : List ListedPart)
    → Agree (suc index) parts receipts listed
    → any_differs index parts receipts listed ≡ false
unfolding any_differs differs
differs-Agree index [] receipts listed a = refl
differs-Agree index (p ∷ parts) [] listed a = absurd (omega (arith, ap length a.for_parts))
differs-Agree index (p ∷ parts) (r ∷ receipts) [] a = absurd (omega (arith, ap length a.numbers))
differs-Agree index (p ∷ parts) (r ∷ receipts) (l ∷ listed) a =
    let rest : Agree (suc (suc index)) parts receipts listed = record {
      numbered = a.numbered.1;
      for_parts = ap (drop 1) a.for_parts;
      numbers = ap (drop 1) a.numbers;
      lengths = ap (drop 1) a.lengths;
      tags = ap (drop 1) a.tags;
    } in
    ground (
      arith,
      differs-Agree (suc index) parts receipts listed rest,
      a.numbered.0,
      a.for_parts,
      a.numbers,
      a.lengths,
      a.tags,
    )

length-map {ℓ κ} :
    {A : Type ℓ} {B : Type κ} (f : A → B) (xs : List A) → length (map f xs) ≡ length xs
length-map f [] = refl
length-map f (x ∷ xs) = ap suc (length-map f xs)

verify_tests :
    (parts : List Part) (receipts : List Receipt) (listed : List ListedPart)
    → (verify_provider_part_list parts receipts listed ≡ ok tt)
      ↔ (every is_manifest_part parts ≡ true)
        × (every is_receipt receipts ≡ true)
        × (every is_listed_part listed ≡ true)
        × (length parts ≡ length receipts)
        × (length parts ≡ length listed)
        × (any_differs 0 parts receipts listed ≡ false)
unfolding verify_provider_part_list
verify_tests parts receipts listed = ground arith

-- The check passes exactly when every entry is valid by itself, the parts are numbered from 1, the
-- receipts are for them in order, and the provider lists them with their lengths and the receipts' tags.
pub verify_provider_part_list_iff :
    (parts : List Part) (receipts : List Receipt) (listed : List ListedPart)
    → (verify_provider_part_list parts receipts listed ≡ ok tt)
      ↔ (every is_manifest_part parts ≡ true)
        × (every is_receipt receipts ≡ true)
        × (every is_listed_part listed ≡ true)
        × Agree 1 parts receipts listed
verify_provider_part_list_iff parts receipts listed =
    let tests = verify_tests parts receipts listed in
    (
      λ e.
          let (a, b, c, n, m, same) = tests.0 e in
          (a, b, c, Agree-any_differs 0 parts receipts listed (n, m) same),
      λ h.
          let (a, b, c, agree) = h in
          let n : length parts ≡ length receipts = omega (
            arith,
            ap length agree.for_parts,
            length-map (λ r. r.part_number) receipts,
            length-map (λ p. p.part_number) parts,
          ) in
          let m : length parts ≡ length listed = omega (
            arith,
            ap length agree.numbers,
            length-map (λ l. l.part_number) listed,
            length-map (λ p. p.part_number) parts,
          ) in
          tests.1 (a, b, c, n, m, differs-Agree 0 parts receipts listed agree),
    )
