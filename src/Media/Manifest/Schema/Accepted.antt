-- ===== src/Media/Manifest/Schema/Accepted.antt =====
-- What a manifest is that `RecordingManifestSchema` accepts.
use understandproof.Base.{
  ℕ, suc, ◌+◌, ◌≤◌, ◌≡◌, refl, ap, subst, ◌∙◌, ◌⊎◌, inl, inr, Bool, true, false, not, ◌&&◌, List,
  [], ◌∷◌, ◌++◌, map, Memᴰ, Text, text_eq, arith, every, includes, All, Unique, All-map, every→All,
  nat_eqb, Outcome-cases, ok,
}
use understandproof.Media.Protocol.{aes_gcm_tag_bytes}
use understandproof.Media.Bytes.{Bytes, uint32_bytes}
use understandproof.Media.Encoding.{encode_base64url, decode_base64url}
use understandproof.Media.Records.{build_chunk_nonce}
use understandproof.Media.Intervals.{is_empty}
use understandproof.Media.Manifest.{ManifestChunk, ManifestPart, RecordingManifest}
use understandproof.Media.Manifest.Schema.{
  ManifestIssue, add_issue_if, is_expected_nonce, chunk_issues, plaintext_total, has_chunk_range,
  part_issues, part_byte_total, object_total, manifest_issues, has_manifest_fields, is_part_entry,
  has_no_issues, parse_manifest,
}
use understandproof.Media.Manifest.Schema.Layout.{NamesRecords, has_chunk_range-NamesRecords}

-- The chunks from an index on: their indices count up, their nonces are the prefix and the index, and
-- each is sealed with a tag of 16 bytes.
unfoldable pub AreChunks : Bytes → ℕ → List ManifestChunk → Type 0
AreChunks prefix index [] = Unit
AreChunks prefix index (c ∷ rest) =
    (c.index ≡ index)
    × (c.sealed_bytes ≡ c.plaintext_bytes + 16)
    × (c.nonce ≡ encode_base64url (prefix ++ uint32_bytes index))
    × AreChunks prefix (suc index) rest

-- The parts from an index on, which stand one after the other from an offset on: their numbers count
-- up, each names the records that it shares a byte with, and each but the last has 8 MiB.
unfoldable pub AreParts : List ManifestChunk → ℕ → ℕ → List ManifestPart → Type 0
AreParts chunks index start [] = Unit
AreParts chunks index start (p ∷ rest) =
    (p.part_number ≡ suc index)
    × NamesRecords chunks start p
    × ((is_empty rest ≡ true) ⊎ (p.byte_length ≡ 8388608))
    × AreParts chunks (suc index) (start + p.byte_length) rest

pub record DescribesObject (m : RecordingManifest) : Type 0 where
  pub prefix : Bytes
  pub prefix_decoded : decode_base64url m.nonce_prefix_base64url ≡ ok prefix
  pub are_chunks : AreChunks prefix 0 m.chunks
  pub nonces_unique : Unique (map (λ c. c.nonce) m.chunks)
  pub are_parts : AreParts m.chunks 0 0 m.parts
  pub nonempty : All (λ p. 1 ≤ p.byte_length) m.parts
  pub plaintexts_total : m.total_plaintext_bytes ≡ plaintext_total m.chunks
  pub records_total : m.total_object_bytes ≡ object_total m.chunks
  pub parts_total : m.total_object_bytes ≡ part_byte_total m.parts

no_issue_before :
    (b : Bool) (issue : ManifestIssue) (rest : List ManifestIssue)
    → is_empty (add_issue_if b issue ++ rest) ≡ true
    → (b ≡ false) × (is_empty rest ≡ true)
no_issue_before true issue rest e = ground (arith, e)
no_issue_before false issue rest e = (refl, e)

no_issues_before :
    (left right : List ManifestIssue)
    → is_empty (left ++ right) ≡ true
    → (is_empty left ≡ true) × (is_empty right ≡ true)
no_issues_before [] right e = (refl, e)
no_issues_before (issue ∷ left) right e = ground (arith, e)

record FirstChunk (prefix : Bytes) (index : ℕ) (nonces : List Text) (c : ManifestChunk)
    (rest : List ManifestChunk) : Type 0 where
  pub at_index : c.index ≡ index
  pub sealed_with_tag : c.sealed_bytes ≡ c.plaintext_bytes + 16
  pub expected_nonce : is_expected_nonce prefix c ≡ true
  pub fresh : includes nonces c.nonce ≡ false
  pub later : is_empty (chunk_issues prefix (suc index) (c.nonce ∷ nonces) rest) ≡ true

chunk_issues-FirstChunk :
    (prefix : Bytes) (index : ℕ) (nonces : List Text) (c : ManifestChunk)
    (rest : List ManifestChunk)
    → is_empty (chunk_issues prefix index nonces (c ∷ rest)) ≡ true
    → FirstChunk prefix index nonces c rest
unfolding chunk_issues
chunk_issues-FirstChunk prefix index nonces c rest e =
    let (a, e) = no_issue_before (not (nat_eqb c.index index)) _ _ e in
    let (b, e) =
      no_issue_before (not (nat_eqb c.sealed_bytes (c.plaintext_bytes + aes_gcm_tag_bytes))) _ _
        e in
    let (n, e) = no_issue_before (not (is_expected_nonce prefix c)) _ _ e in
    let (f, e) = no_issue_before (includes nonces c.nonce) _ _ e in
    record {
      at_index = ground (arith, a);
      sealed_with_tag = ground (arith, b);
      expected_nonce = ground (arith, n);
      fresh = f;
      later = e;
    }

is_expected_nonce-eq :
    (prefix : Bytes) (c : ManifestChunk)
    → is_expected_nonce prefix c ≡ true
    → c.nonce ≡ encode_base64url (prefix ++ uint32_bytes c.index)
unfolding is_expected_nonce build_chunk_nonce
is_expected_nonce-eq prefix c e =
    (text_eq.same_iff c.nonce (encode_base64url (prefix ++ uint32_bytes c.index))).0
      (ground (arith, e))

chunk_issues-AreChunks :
    (prefix : Bytes) (index : ℕ) (nonces : List Text) (chunks : List ManifestChunk)
    → is_empty (chunk_issues prefix index nonces chunks) ≡ true
    → AreChunks prefix index chunks
unfolding AreChunks
chunk_issues-AreChunks prefix index nonces [] e = tt
chunk_issues-AreChunks prefix index nonces (c ∷ rest) e =
    let first = chunk_issues-FirstChunk prefix index nonces c rest e in
    (
      first.at_index,
      first.sealed_with_tag,
      is_expected_nonce-eq prefix c first.expected_nonce
          ∙ ap (λ i. encode_base64url (prefix ++ uint32_bytes i)) first.at_index,
      chunk_issues-AreChunks prefix (suc index) (c.nonce ∷ nonces) rest first.later,
    )

not_among :
    (nonce : Text) (nonces : List Text) (chunks : List ManifestChunk)
    → All (λ d. includes (nonce ∷ nonces) d.nonce ≡ false) chunks
    → ¬ Memᴰ nonce (map (λ d. d.nonce) chunks)
not_among nonce nonces [] h m = elim m [ ]
not_among nonce nonces (d ∷ rest) h (Memᴰ.head same) =
    ground (arith, h.0, (text_eq.same_iff nonce d.nonce).1 same)
not_among nonce nonces (d ∷ rest) h (Memᴰ.tail later) = not_among nonce nonces rest h.1 later

-- None of the nonces stands before, and none twice.
chunk_issues-Unique :
    (prefix : Bytes) (index : ℕ) (nonces : List Text) (chunks : List ManifestChunk)
    → is_empty (chunk_issues prefix index nonces chunks) ≡ true
    → All (λ c. includes nonces c.nonce ≡ false) chunks × Unique (map (λ c. c.nonce) chunks)
chunk_issues-Unique prefix index nonces [] e = (tt, tt)
chunk_issues-Unique prefix index nonces (c ∷ rest) e =
    let first = chunk_issues-FirstChunk prefix index nonces c rest e in
    let (fresh, unique) =
      chunk_issues-Unique prefix (suc index) (c.nonce ∷ nonces) rest first.later in
    (
      (first.fresh, All-map (λ d h. ground (arith, h)) rest fresh),
      (not_among c.nonce nonces rest fresh, unique),
    )

part_issues-AreParts :
    (chunks : List ManifestChunk) (total index start : ℕ) (parts : List ManifestPart)
    → is_empty (part_issues chunks total index start parts) ≡ true
    → AreParts chunks index start parts
unfolding part_issues AreParts
part_issues-AreParts chunks total index start [] e = tt
part_issues-AreParts chunks total index start (p ∷ rest) e =
    let (a, e) = no_issue_before (not (nat_eqb p.part_number (index + 1))) _ _ e in
    let (b, e) = no_issue_before (not (has_chunk_range chunks total start p)) _ _ e in
    let (c, e) = no_issue_before (not (is_empty rest) && _) _ _ e in
    (
      ground (arith, a),
      has_chunk_range-NamesRecords chunks total start p (ground (arith, b)),
      ground (arith, c),
      part_issues-AreParts chunks total (suc index) (start + p.byte_length) rest e,
    )

is_part_entry-nonempty : (p : ManifestPart) → is_part_entry p ≡ true → 1 ≤ p.byte_length
unfolding is_part_entry
is_part_entry-nonempty p e = ground arith

manifest_issues-DescribesObject :
    (m : RecordingManifest) (prefix : Bytes)
    → decode_base64url m.nonce_prefix_base64url ≡ ok prefix
    → every is_part_entry m.parts ≡ true
    → is_empty (manifest_issues prefix m) ≡ true
    → DescribesObject m
unfolding manifest_issues
manifest_issues-DescribesObject m prefix decoded entries e =
    let (chunks, e) = no_issues_before (chunk_issues prefix 0 [] m.chunks) _ e in
    let (a, e) =
      no_issue_before (not (nat_eqb m.total_plaintext_bytes (plaintext_total m.chunks))) _ _ e in
    let (b, e) =
      no_issue_before (not (nat_eqb m.total_object_bytes (object_total m.chunks))) _ _ e in
    let (parts, e) =
      no_issues_before (part_issues m.chunks (object_total m.chunks) 0 0 m.parts) _ e in
    record {
      prefix = prefix;
      prefix_decoded = decoded;
      are_chunks = chunk_issues-AreChunks prefix 0 [] m.chunks chunks;
      nonces_unique = (chunk_issues-Unique prefix 0 [] m.chunks chunks).1;
      are_parts = part_issues-AreParts m.chunks (object_total m.chunks) 0 0 m.parts parts;
      nonempty = All-map is_part_entry-nonempty m.parts (every→All is_part_entry m.parts entries);
      plaintexts_total = ground (arith, a);
      records_total = ground (arith, b);
      parts_total = ground (arith, e);
    }

pub parse_manifest-inv :
    (is_uuid : Text → Bool) (m parsed : RecordingManifest)
    → parse_manifest is_uuid m ≡ ok parsed
    → (parsed ≡ m)
      × (has_manifest_fields is_uuid m ≡ true)
      × (has_no_issues m (decode_base64url m.nonce_prefix_base64url) ≡ true)
unfolding parse_manifest
parse_manifest-inv is_uuid m parsed e = ground arith

has_manifest_fields-entries :
    (is_uuid : Text → Bool) (m : RecordingManifest)
    → has_manifest_fields is_uuid m ≡ true
    → every is_part_entry m.parts ≡ true
unfolding has_manifest_fields
has_manifest_fields-entries is_uuid m e = ground arith

-- A manifest that the schema accepts describes an object: its chunks are numbered from 0, sealed with
-- 16 bytes more than their plaintexts, under nonces that are the prefix and the index, no two alike; its
-- records fill the object of the size that is given, and its parts fill it as well, one after the other,
-- each but the last of 8 MiB; and each part names exactly the chunks whose records share a byte with it.
pub parse_manifest-DescribesObject :
    (is_uuid : Text → Bool) (m parsed : RecordingManifest)
    → parse_manifest is_uuid m ≡ ok parsed
    → (parsed ≡ m) × DescribesObject m
parse_manifest-DescribesObject is_uuid m parsed e =
    let (same, fields, clear) = parse_manifest-inv is_uuid m parsed e in
    elim (Outcome-cases (decode_base64url m.nonce_prefix_base64url)) [
      | inl (prefix, decoded) ↦ (
        same,
        manifest_issues-DescribesObject m prefix decoded
            (has_manifest_fields-entries is_uuid m fields)
            (subst (λ call. has_no_issues m call ≡ true) decoded clear),
      )
      | inr (code, refused) ↦
          absurd (ground (arith, subst (λ call. has_no_issues m call ≡ true) refused clear))
    ]
