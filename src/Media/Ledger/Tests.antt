-- ===== src/Media/Ledger/Tests.antt =====
-- Runs of the ledger and of the check of the provider's list, and the theorems at them.
use understandproof.Base.{
  ℕ, ◌≡◌, ◌↔◌, refl, true, List, [], ◌∷◌, text, Text-discrete, replicate, ok, throw, every,
}
use understandproof.Domain.Primitives.{is_sha256}
use understandproof.Media.Protocol.{multipart_mismatch}
use understandproof.Media.Bytes.{bytes_equal}
use understandproof.Media.Multipart.{Part, refused, is_manifest_part}
use understandproof.Media.Ledger.{
  Registration, accepted, duplicate, has_number, is_same_part, enter, register, Receipt, ListedPart,
  is_receipt, is_listed_part, differs, any_differs, verify_provider_part_list,
}
use understandproof.Media.Ledger.Laws.{
  IsRegistrable, IsEntered, register-IsEntered, register_again_iff,
}
use understandproof.Media.Ledger.Provider.{Agree, verify_provider_part_list_iff}

runs : Unit {0}
unfolding Text-discrete is_sha256 bytes_equal is_manifest_part has_number is_same_part enter
    register is_receipt is_listed_part differs any_differs verify_provider_part_list
runs = tt

abbrev part : ℕ → ℕ → Part
part n byte = record {
  part_number = n;
  first_chunk_index = 0;
  last_chunk_index = 0;
  byte_length = 1;
  sha256 = replicate 64 b'0';
  bytes = byte ∷ [];
}

registers : register (part 1 5 ∷ []) (part 2 6) ≡ ok (part 2 6 ∷ part 1 5 ∷ [], accepted)
unfolding runs
registers = refl

conflicts : register (part 2 6 ∷ part 1 5 ∷ []) (part 1 6) ≡ throw (refused multipart_mismatch)
unfolding runs
conflicts = refl

part-IsRegistrable : IsRegistrable (part 1 5) × IsRegistrable (part 2 6)
unfolding runs
part-IsRegistrable = ((refl, refl), (refl, refl))

register-IsEntered_example : IsEntered (part 1 5 ∷ []) (part 2 6) (part 2 6 ∷ part 1 5 ∷ [])
register-IsEntered_example =
    register-IsEntered (part 1 5 ∷ []) (part 2 6) (part 2 6 ∷ part 1 5 ∷ []) accepted
      (part-IsRegistrable.0, tt) registers

abbrev repeated : List Part × Registration
repeated = (part 2 6 ∷ part 1 5 ∷ [], duplicate)

register_again_iff_example :
    (register (part 2 6 ∷ part 1 5 ∷ []) (part 2 6) ≡ ok repeated)
    ↔ (part 2 6 ≡ part 2 6) × (repeated ≡ (part 2 6 ∷ part 1 5 ∷ [], duplicate))
register_again_iff_example =
    register_again_iff (part 1 5 ∷ []) (part 2 6) (part 2 6 ∷ part 1 5 ∷ []) accepted (part 2 6)
      repeated (part-IsRegistrable.0, tt) registers part-IsRegistrable.1 refl

abbrev receipts : List Receipt
receipts = record { part_number = 1; etag = text "a" } ∷ []

abbrev listed : List ListedPart
listed = record { part_number = 1; byte_length = 1; etag = text "a" } ∷ []

verifies : verify_provider_part_list (part 1 5 ∷ []) receipts listed ≡ ok tt
unfolding runs
verifies = refl

verify_provider_part_list_iff_example :
    (verify_provider_part_list (part 1 5 ∷ []) receipts listed ≡ ok tt)
    ↔ (every is_manifest_part (part 1 5 ∷ []) ≡ true)
      × (every is_receipt receipts ≡ true)
      × (every is_listed_part listed ≡ true)
      × Agree 1 (part 1 5 ∷ []) receipts listed
verify_provider_part_list_iff_example =
    verify_provider_part_list_iff (part 1 5 ∷ []) receipts listed
