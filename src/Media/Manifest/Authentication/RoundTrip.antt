-- ===== src/Media/Manifest/Authentication/RoundTrip.antt =====
-- A manifest that was authenticated verifies, and what a manifest is that verifies.
use understandproof.Base.{
  ℕ, ◌≡◌, refl, sym, ap, ◌∙◌, ◌↔◌, subst, Bool, true, Text, arith, length, ok, inl, inr,
  Outcome-cases, >>=-eq-ok,
}
use understandproof.Media.Bytes.{Bytes, AreBytes}
use understandproof.Media.Bytes.Laws.{bytes_equal_iff}
use understandproof.Media.Encoding.{encode_base64url, decode_base64url, encode_hex, decode_hex}
use understandproof.Media.Encoding.Hex.{decode-encode_hex, encode-decode_hex, encode_hex-is_sha256}
use understandproof.Media.Encoding.RoundTrip.{decode-encode_base64url}
use understandproof.Media.Manifest.{RecordingManifest}
use understandproof.Media.Manifest.Schema.{parse_manifest}
use understandproof.Media.Manifest.Schema.Accepted.{parse_manifest-inv}
use understandproof.Media.Manifest.Authentication.{
  AuthenticatedManifest, canonical_manifest, canonical_manifest_bytes, assert_finalize_json_limit,
  authenticate_manifest, verify_manifest_bytes, verify_authenticated_manifest,
}

record Authenticated (is_uuid : Text → Bool) (sha256 hmac_sign : Bytes → Bytes)
    (m : RecordingManifest) (a : AuthenticatedManifest) : Type 0 where
  pub accepted : parse_manifest is_uuid m ≡ ok m
  pub manifest_same : a.manifest ≡ m
  pub tag : a.manifest_tag_base64url ≡ encode_base64url (hmac_sign (canonical_manifest m))
  pub digest : a.manifest_digest ≡ encode_hex (sha256 (canonical_manifest m))

module _ (is_uuid : Text → Bool) where
  parse_manifest-same :
      (m parsed : RecordingManifest)
      → parse_manifest is_uuid m ≡ ok parsed
      → parse_manifest is_uuid m ≡ ok m
  parse_manifest-same m parsed e = e ∙ ap ok (parse_manifest-inv is_uuid m parsed e).0

  canonical_manifest_bytes-accepted :
      (m : RecordingManifest)
      → parse_manifest is_uuid m ≡ ok m
      → canonical_manifest_bytes is_uuid m ≡ ok (canonical_manifest m)
  unfolding canonical_manifest_bytes
  canonical_manifest_bytes-accepted m e = rw e refl

-- What a manifest is that verifies: it is accepted, its digest is that of its canonical bytes, and its
-- tag is 32 bytes that HMAC verifies for them.
pub record IsAuthentic (is_uuid : Text → Bool) (sha256 : Bytes → Bytes)
    (hmac_verify : Bytes → Bytes → Bool) (a : AuthenticatedManifest) (m : RecordingManifest)
    : Type 0 where
  pub same : a.manifest ≡ m
  pub accepted : parse_manifest is_uuid m ≡ ok m
  pub digest : a.manifest_digest ≡ encode_hex (sha256 (canonical_manifest m))
  pub tag : Bytes
  pub tag_decoded : decode_base64url a.manifest_tag_base64url ≡ ok tag
  pub tag_size : length tag ≡ 32
  pub tag_verified : hmac_verify tag (canonical_manifest m) ≡ true

module _ (is_uuid : Text → Bool) (sha256 : Bytes → Bytes) (hmac_verify : Bytes → Bytes → Bool) where
  -- What the checks after the schema say.
  checks-IsAuthentic :
      (a : AuthenticatedManifest) (m : RecordingManifest) (digest tag : Bytes)
      → parse_manifest is_uuid a.manifest ≡ ok a.manifest
      → decode_hex a.manifest_digest ≡ ok digest
      → decode_base64url a.manifest_tag_base64url ≡ ok tag
      → verify_authenticated_manifest is_uuid sha256 hmac_verify a ≡ ok m
      → IsAuthentic is_uuid sha256 hmac_verify a m
  unfolding verify_authenticated_manifest verify_manifest_bytes
  checks-IsAuthentic a m digest tag accepted hex_read tag_read e =
      let e1 =
        rw
          (
            accepted,
            canonical_manifest_bytes-accepted is_uuid a.manifest accepted,
            hex_read,
            tag_read,
          )
          at e in
      let same : a.manifest ≡ m = ground (arith, e1) in
      let equal =
        (bytes_equal_iff (sha256 (canonical_manifest a.manifest)) digest).0 (ground (arith, e1)) in
      record {
        same = same;
        accepted = subst (λ n. parse_manifest is_uuid n ≡ ok n) same accepted;
        digest =
            sym (encode-decode_hex a.manifest_digest digest hex_read).0
            ∙ ap encode_hex (sym equal)
            ∙ ap (λ n. encode_hex (sha256 (canonical_manifest n))) same;
        tag = tag;
        tag_decoded = tag_read;
        tag_size = ground (arith, e1);
        tag_verified =
            subst (λ n. hmac_verify tag (canonical_manifest n) ≡ true) same (ground (arith, e1));
      }

  verify_authenticated_manifest-IsAuthentic :
      (a : AuthenticatedManifest) (m : RecordingManifest)
      → verify_authenticated_manifest is_uuid sha256 hmac_verify a ≡ ok m
      → IsAuthentic is_uuid sha256 hmac_verify a m
  unfolding verify_authenticated_manifest
  verify_authenticated_manifest-IsAuthentic a m e =
      let (parsed, accepts, _) = >>=-eq-ok (parse_manifest is_uuid a.manifest) _ e in
      let accepted = parse_manifest-same is_uuid a.manifest parsed accepts in
      let e1 = rw (accepted, canonical_manifest_bytes-accepted is_uuid a.manifest accepted) at e in
      elim (Outcome-cases (decode_hex a.manifest_digest)) [
        | inr (code, failed) ↦ absurd (ground (arith, e1, failed))
        | inl (digest, hex_read) ↦
            elim (Outcome-cases (decode_base64url a.manifest_tag_base64url)) [
              | inr (code, failed) ↦ absurd (ground (arith, e1, hex_read, failed))
              | inl (tag, tag_read) ↦ checks-IsAuthentic a m digest tag accepted hex_read tag_read e
            ]
      ]

  -- verifyAuthenticatedManifest returns a manifest exactly if the schema accepts it, the digest beside it
  -- is that of its canonical bytes in hexadecimal, and the tag decodes to 32 bytes that HMAC verifies for
  -- its canonical bytes. SHA-256 gives 32 bytes.
  pub verify_authenticated_manifest_iff :
      (a : AuthenticatedManifest) (m : RecordingManifest)
      → ((bytes : Bytes) → AreBytes (sha256 bytes) × (length (sha256 bytes) ≡ 32))
      → (verify_authenticated_manifest is_uuid sha256 hmac_verify a ≡ ok m)
        ↔ IsAuthentic is_uuid sha256 hmac_verify a m
  unfolding verify_authenticated_manifest verify_manifest_bytes
  verify_authenticated_manifest_iff a m digests = (
    verify_authenticated_manifest-IsAuthentic a m,
    λ h.
        let bytes = canonical_manifest m in
        rw
          (
            h.same,
            h.accepted,
            canonical_manifest_bytes-accepted is_uuid m h.accepted,
            h.digest,
            encode_hex-is_sha256 (sha256 bytes) (digests bytes).0 (digests bytes).1,
            decode-encode_hex (sha256 bytes) (digests bytes).0,
            (bytes_equal_iff (sha256 bytes) (sha256 bytes)).1 refl,
            h.tag_decoded,
            h.tag_size,
            h.tag_verified,
          )
          refl,
  )

module _ (is_uuid : Text → Bool) (json_bytes : AuthenticatedManifest → ℕ)
    (sha256 hmac_sign : Bytes → Bytes) where
  authenticate_manifest-Authenticated :
      (m : RecordingManifest) (a : AuthenticatedManifest)
      → authenticate_manifest is_uuid json_bytes sha256 hmac_sign m ≡ ok a
      → Authenticated is_uuid sha256 hmac_sign m a
  unfolding authenticate_manifest assert_finalize_json_limit
  authenticate_manifest-Authenticated m a e =
      let (parsed, accepts, _) = >>=-eq-ok (parse_manifest is_uuid m) _ e in
      let accepted = parse_manifest-same is_uuid m parsed accepts in
      let e' = rw (accepted, canonical_manifest_bytes-accepted is_uuid m accepted) at e in
      record {
        accepted = accepted;
        manifest_same = ground (arith, e');
        tag = ground (arith, e');
        digest = ground (arith, e');
      }

  module _ (hmac_verify : Bytes → Bytes → Bool) where
    -- A manifest that was authenticated is given back by verifyAuthenticatedManifest. HMAC verifies what it
    -- signed, with 32 bytes, and SHA-256 gives 32 bytes.
    pub verify-authenticate_manifest :
        (m : RecordingManifest) (a : AuthenticatedManifest)
        → ((bytes : Bytes) → AreBytes (sha256 bytes) × (length (sha256 bytes) ≡ 32))
        → ((bytes : Bytes)
            → AreBytes (hmac_sign bytes)
              × (length (hmac_sign bytes) ≡ 32)
              × (hmac_verify (hmac_sign bytes) bytes ≡ true))
        → authenticate_manifest is_uuid json_bytes sha256 hmac_sign m ≡ ok a
        → verify_authenticated_manifest is_uuid sha256 hmac_verify a ≡ ok m
    unfolding verify_authenticated_manifest verify_manifest_bytes
    verify-authenticate_manifest m a digests signs e =
        let signed = authenticate_manifest-Authenticated m a e in
        let bytes = canonical_manifest m in
        let (signature_bytes, size, verified) = signs bytes in
        rw
          (
            signed.manifest_same,
            signed.accepted,
            canonical_manifest_bytes-accepted is_uuid m signed.accepted,
            signed.digest,
            signed.tag,
            encode_hex-is_sha256 (sha256 bytes) (digests bytes).0 (digests bytes).1,
            decode-encode_hex (sha256 bytes) (digests bytes).0,
            (bytes_equal_iff (sha256 bytes) (sha256 bytes)).1 refl,
            decode-encode_base64url (hmac_sign bytes) signature_bytes,
            size,
            verified,
          )
          refl
