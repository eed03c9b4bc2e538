-- ===== src/Media/Ledger.antt =====
-- packages/media/src/multipart.ts: the ledger of parts and the check of the provider's list. The
-- ledger's map is a list, the newest entry first; `existing.bytes` is a copy of what was given.
pub mod Laws
pub mod Provider
mod Tests
use understandproof.Base.{
  ℕ, suc, ◌+◌, Bool, true, false, not, ◌&&◌, ◌||◌, List, [], ◌∷◌, Option, none, some, Text, text_eq,
  Outcome, ok, throw, throw_if, ◌>>=◌, ◌>>◌, if◌then◌else◌, length, every, find, leb, nat_eqb, ◌==◌,
}
use understandproof.Media.Protocol.{
  multipart_mismatch, max_multipart_parts, max_recording_object_bytes,
}
use understandproof.Media.Bytes.{bytes_equal}
use understandproof.Media.Multipart.{Part, PartFailure, schema_error, refuse_if, is_manifest_part}

pub data Registration : Type 0 where
  accepted duplicate : Registration

unfoldable pub has_number : ℕ → Part → Bool
has_number n part = nat_eqb part.part_number n

unfoldable pub is_same_part : Part → Part → Bool
is_same_part existing part =
    existing.sha256 == part.sha256
    && nat_eqb existing.first_chunk_index part.first_chunk_index
    && nat_eqb existing.last_chunk_index part.last_chunk_index
    && bytes_equal existing.bytes part.bytes

unfoldable pub enter :
    List Part → Part → Option Part → Outcome PartFailure (List Part × Registration)
enter parts part none = ok (part ∷ parts, accepted)
enter parts part (some existing) = do
  refuse_if (not (is_same_part existing part)) multipart_mismatch
  ok (parts, duplicate)

unfoldable pub register : List Part → Part → Outcome PartFailure (List Part × Registration)
register parts part = do
  throw_if (not (is_manifest_part part)) schema_error
  refuse_if (not (nat_eqb part.byte_length (length part.bytes))) multipart_mismatch
  enter parts part (find (has_number part.part_number) parts)

pub record Receipt : Type 0 where
  pub part_number : ℕ
  pub etag : Text

pub record ListedPart : Type 0 where
  pub part_number : ℕ
  pub byte_length : ℕ
  pub etag : Text

abbrev is_etag : Text → Bool
is_etag etag = leb 1 (length etag) && leb (length etag) 512

unfoldable pub is_receipt : Receipt → Bool
is_receipt r = leb 1 r.part_number && leb r.part_number max_multipart_parts && is_etag r.etag

unfoldable pub is_listed_part : ListedPart → Bool
is_listed_part p =
    leb 1 p.part_number
    && leb p.part_number max_multipart_parts
    && leb 1 p.byte_length
    && leb p.byte_length max_recording_object_bytes
    && is_etag p.etag

-- The body of the loop, for the three entries at an index.
unfoldable pub differs : ℕ → Part → Receipt → ListedPart → Bool
differs index part receipt listed =
    not (nat_eqb part.part_number (index + 1))
    || not (nat_eqb receipt.part_number part.part_number)
    || not (nat_eqb listed.part_number part.part_number)
    || not (nat_eqb listed.byte_length part.byte_length)
    || not (listed.etag == receipt.etag)

unfoldable pub any_differs : ℕ → List Part → List Receipt → List ListedPart → Bool
any_differs index [] receipts listed = false
any_differs index (part ∷ parts) [] listed = true
any_differs index (part ∷ parts) (receipt ∷ receipts) [] = true
any_differs index (part ∷ parts) (receipt ∷ receipts) (entry ∷ listed) =
    differs index part receipt entry || any_differs (suc index) parts receipts listed

unfoldable pub verify_provider_part_list :
    List Part → List Receipt → List ListedPart → Outcome PartFailure (Unit {0})
verify_provider_part_list parts receipts listed = do
  throw_if (not (every is_manifest_part parts)) schema_error
  throw_if (not (every is_receipt receipts)) schema_error
  throw_if (not (every is_listed_part listed)) schema_error
  refuse_if
      (not (nat_eqb (length parts) (length receipts))
        || not (nat_eqb (length parts) (length listed)))
      multipart_mismatch
  refuse_if (any_differs 0 parts receipts listed) multipart_mismatch
