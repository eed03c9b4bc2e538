-- ===== src/Auth/Handoff.antt =====
-- packages/auth/src/handoff.ts: `createHandoff` and `exchangeHandoff`. A transaction that throws is rolled back, so
-- that only one that ends gives a database. Credentials, identifiers and times are arguments.
pub mod Writes
pub mod SingleUse
pub mod OneOpen
mod Tests
use understandproof.Base.{
  ℕ, ◌+◌, ◌-◌, min, Bool, true, false, not, ◌&&◌, ◌||◌, List, [], ◌∷◌, ◌++◌, map, Option, none,
  some, Text, text_eq, text, Outcome, ok, throw, throw_if, ◌>>=◌, ◌>>◌, find, leb, nat_eq, length,
  every, includes, nat_eqb, if◌then◌else◌, ◌==◌,
}
use understandproof.Media.Encoding.{base64url_alphabet}
use understandproof.Auth.{
  ActorRole, author, maintainer, support, AuthFailure, handoff_rejected, schema_error, AttemptRow,
  RevisionRow, SessionRow, HandoffRow, WrappingRow, Database, is_none, OpaqueCredential,
  SessionInput, SessionIssue, issue_session,
}

pub record PublicWrappingMaterial : Type 0 where
  pub key_id : Text
  pub algorithm : Text
  pub spki_der : Text
  pub spki_sha256 : Text

abbrev is_key_char : ℕ → Bool
is_key_char c = includes base64url_alphabet c || includes (text "._:/-") c

-- `PublicWrappingMaterialInputSchema`
unfoldable pub is_wrapping_material : PublicWrappingMaterial → Bool
is_wrapping_material m =
    every is_key_char m.key_id
    && leb 1 (length m.key_id)
    && leb (length m.key_id) 128
    && m.algorithm == text "RSA-OAEP-256"
    && every (includes base64url_alphabet) m.spki_der
    && leb 1 (length m.spki_der)
    && every (includes base64url_alphabet) m.spki_sha256
    && nat_eqb (length m.spki_sha256) 43

abbrev pub found {ℓ} : {A : Type ℓ} → Option A → Outcome AuthFailure A
found none = throw handoff_rejected
found (some row) = ok row

abbrev is_author : ActorRole → Bool
is_author author = true
is_author maintainer = false
is_author support = false

abbrev matches_repository : Option Text → Text → Bool
matches_repository none id = false
matches_repository (some repository) id = id == repository

pub record CreateInput : Type 0 where
  pub attempt_id : Text
  pub session : SessionRow
  pub ttl_ms : ℕ

-- What the call takes from its surroundings: the times of its three calls of the clock, the credential and the id.
pub record CreateIssue : Type 0 where
  pub checked_at : ℕ
  pub consumed_at : ℕ
  pub granted_at : ℕ
  pub credential : OpaqueCredential
  pub id : Text

-- `UPDATE handoff_tokens SET consumed_at WHERE attempt_id AND consumed_at IS NULL`
abbrev pub consume_open : Text → ℕ → HandoffRow → HandoffRow
consume_open attempt_id now row =
    if row.attempt_id == attempt_id && is_none row.consumed_at
    then record row { consumed_at = some now }
    else row

-- `UPDATE handoff_tokens SET consumed_at WHERE id`
abbrev pub consume_row : Text → ℕ → HandoffRow → HandoffRow
consume_row id now row = if row.id == id then record row { consumed_at = some now } else row

pub record HandoffGrant : Type 0 where
  pub token : Text
  pub expires_at : ℕ

-- The attempt that may be handed off.
unfoldable pub authorized_attempt :
    Database → CreateInput → CreateIssue → Outcome AuthFailure AttemptRow
authorized_attempt db input issue = do
  throw_if (not (is_author input.session.actor_role)) handoff_rejected
  attempt ← found (find (λ a. a.id == input.attempt_id) db.attempts)
  revision ← found (find (λ r. r.id == attempt.revision_id) db.revisions)
  throw_if
      (not (attempt.author_id == input.session.actor_id)
        || not (matches_repository input.session.repository_id attempt.repository_id)
        || not (attempt.status == text "ready")
        || not revision.is_current
        || leb attempt.expires_at issue.checked_at)
      handoff_rejected
  ok attempt

unfoldable pub grant_handoff :
    Database
    → CreateInput
    → CreateIssue
    → AttemptRow
    → Outcome AuthFailure (Database × HandoffGrant)
grant_handoff db input issue attempt =
    let expires_at : ℕ = min attempt.expires_at (issue.granted_at + input.ttl_ms) in
    let row : HandoffRow = record {
      id = issue.id;
      attempt_id = input.attempt_id;
      desktop_session_id = input.session.id;
      token_hash = issue.credential.hash;
      expires_at = expires_at;
      consumed_at = none;
    } in
    ok (
      record db {
        handoffs = map (consume_open input.attempt_id issue.consumed_at) db.handoffs ++ row ∷ [];
      },
      record { token = issue.credential.value; expires_at = expires_at },
    )

unfoldable pub create_handoff :
    Database → CreateInput → CreateIssue → Outcome AuthFailure (Database × HandoffGrant)
create_handoff db input issue = authorized_attempt db input issue >>= grant_handoff db input issue

pub record ExchangeIssue : Type 0 where
  pub now : ℕ
  pub session : SessionIssue
  pub material_id : Text
  pub object_id : Text

pub record ExchangedHandoff : Type 0 where
  pub mobile_session : SessionRow
  pub material_id : Text
  pub material : PublicWrappingMaterial
  pub attempt_id : Text
  pub head_sha : Text
  pub object_id : Text
  pub usable_until : ℕ

-- The row of the query: the token with the attempt that it is for.
pub record Redeemable : Type 0 where
  pub handoff : HandoffRow
  pub attempt : AttemptRow

unfoldable pub check_handoff :
    Database → ExchangeIssue → HandoffRow → Outcome AuthFailure Redeemable
check_handoff db issue handoff = do
  attempt ← found (find (λ a. a.id == handoff.attempt_id) db.attempts)
  revision ← found (find (λ r. r.id == attempt.revision_id) db.revisions)
  desktop ← found (find (λ s. s.id == handoff.desktop_session_id) db.sessions)
  throw_if
      (not (is_none handoff.consumed_at)
        || leb handoff.expires_at issue.now
        || leb attempt.expires_at issue.now
        || leb desktop.expires_at issue.now
        || not (is_none desktop.revoked_at)
        || not (desktop.actor_id == attempt.author_id)
        || not (attempt.status == text "ready")
        || not revision.is_current)
      handoff_rejected
  ok (record { handoff = handoff; attempt = attempt })

unfoldable pub record_material :
    PublicWrappingMaterial
    → ExchangeIssue
    → AttemptRow
    → Database × SessionRow
    → Outcome AuthFailure (Database × ExchangedHandoff)
record_material material issue attempt (db, session) =
    let row : WrappingRow = record {
      id = issue.material_id;
      attempt_id = attempt.id;
      object_id = issue.object_id;
      key_id = material.key_id;
      algorithm = material.algorithm;
      spki_sha256 = material.spki_sha256;
      usable_until = attempt.expires_at;
    } in
    ok (
      record db { materials = db.materials ++ row ∷ [] },
      record {
        mobile_session = session;
        material_id = issue.material_id;
        material = material;
        attempt_id = attempt.id;
        head_sha = attempt.head_sha;
        object_id = issue.object_id;
        usable_until = attempt.expires_at;
      },
    )

abbrev pub consume_handoff : Database → ExchangeIssue → Redeemable → Database
consume_handoff db issue grant = record db {
  handoffs = map (consume_row grant.handoff.id issue.now) db.handoffs;
}

abbrev pub mobile_session_input : ExchangeIssue → Redeemable → SessionInput
mobile_session_input issue grant = record {
  actor_id = grant.attempt.author_id;
  actor_role = author;
  repository_id = some grant.attempt.repository_id;
  ttl_ms = grant.attempt.expires_at - issue.now;
}

-- What is written for a token that may be redeemed: it is consumed, and a session of the author is issued.
unfoldable pub redeem :
    Database
    → PublicWrappingMaterial
    → ExchangeIssue
    → Redeemable
    → Outcome AuthFailure (Database × ExchangedHandoff)
redeem db material issue grant =
    issue_session (consume_handoff db issue grant) (mobile_session_input issue grant) issue.session
    >>= record_material material issue grant.attempt

abbrev pub has_hash : Text → HandoffRow → Bool
has_hash token_hash h = h.token_hash == token_hash

unfoldable pub redeemable : Database → Text → ExchangeIssue → Outcome AuthFailure Redeemable
redeemable db token_hash issue =
    found (find (has_hash token_hash) db.handoffs) >>= check_handoff db issue

-- `exchangeHandoff`, by the hash of the token
unfoldable pub exchange_handoff :
    Database
    → Text
    → PublicWrappingMaterial
    → ExchangeIssue
    → Outcome AuthFailure (Database × ExchangedHandoff)
exchange_handoff db token_hash material issue =
    throw_if (not (is_wrapping_material material)) schema_error
    >> (redeemable db token_hash issue >>= redeem db material issue)
