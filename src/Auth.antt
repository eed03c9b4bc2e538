-- ===== src/Auth.antt =====
-- packages/auth/src: sessions, and the rows of the database that the handoff of an attempt reads and writes. Dates
-- are milliseconds.
pub mod Handoff
use understandproof.Base.{
  ℕ, ◌+◌, Bool, true, false, not, ◌&&◌, List, [], ◌∷◌, ◌++◌, Option, none, some, Text, text_eq,
  Outcome, ok, throw, throw_if, ◌>>=◌, ◌>>◌, find, leb, ltb, ◌==◌, map, max_safe_integer,
  if◌then◌else◌,
}

pub data ActorRole : Type 0 where
  author maintainer support : ActorRole

pub data AuthFailure : Type 0 where
  handoff_rejected schema_error invalid_session_ttl : AuthFailure

pub record AttemptRow : Type 0 where
  pub id : Text
  pub revision_id : Text
  pub author_id : Text
  pub repository_id : Text
  pub head_sha : Text
  pub status : Text
  pub expires_at : ℕ

pub record RevisionRow : Type 0 where
  pub id : Text
  pub is_current : Bool

pub record SessionRow : Type 0 where
  pub id : Text
  pub token_hash : Text
  pub actor_id : Text
  pub actor_role : ActorRole
  pub repository_id : Option Text
  pub csrf_hash : Text
  pub expires_at : ℕ
  pub revoked_at : Option ℕ

pub record HandoffRow : Type 0 where
  pub id : Text
  pub attempt_id : Text
  pub desktop_session_id : Text
  pub token_hash : Text
  pub expires_at : ℕ
  pub consumed_at : Option ℕ

pub record WrappingRow : Type 0 where
  pub id : Text
  pub attempt_id : Text
  pub object_id : Text
  pub key_id : Text
  pub algorithm : Text
  pub spki_sha256 : Text
  pub usable_until : ℕ

pub record Database : Type 0 where
  pub attempts : List AttemptRow
  pub revisions : List RevisionRow
  pub sessions : List SessionRow
  pub handoffs : List HandoffRow
  pub materials : List WrappingRow

abbrev pub is_none {ℓ} : {A : Type ℓ} → Option A → Bool
is_none none = true
is_none (some a) = false

-- `createOpaqueCredential`: a random value and its hash
pub record OpaqueCredential : Type 0 where
  pub value : Text
  pub hash : Text

pub record SessionInput : Type 0 where
  pub actor_id : Text
  pub actor_role : ActorRole
  pub repository_id : Option Text
  pub ttl_ms : ℕ

-- What a new session is given: its id, its credentials and the time.
pub record SessionIssue : Type 0 where
  pub id : Text
  pub session_credential : OpaqueCredential
  pub csrf_credential : OpaqueCredential
  pub now : ℕ

unfoldable pub issue_session :
    Database → SessionInput → SessionIssue → Outcome AuthFailure (Database × SessionRow)
issue_session db input issue = do
  throw_if (not (leb 1 input.ttl_ms && leb input.ttl_ms max_safe_integer)) invalid_session_ttl
  let session : SessionRow = record {
    id = issue.id;
    token_hash = issue.session_credential.hash;
    actor_id = input.actor_id;
    actor_role = input.actor_role;
    repository_id = input.repository_id;
    csrf_hash = issue.csrf_credential.hash;
    expires_at = issue.now + input.ttl_ms;
    revoked_at = none;
  }
  ok (record db { sessions = db.sessions ++ session ∷ [] }, session)

-- The session of `authenticateSession`, by the hash of the token
unfoldable pub authenticate_session : Database → Text → ℕ → Option SessionRow
authenticate_session db token_hash now =
    find (λ s. s.token_hash == token_hash && is_none s.revoked_at && ltb now s.expires_at)
      db.sessions

abbrev revoke_if : Text → ℕ → SessionRow → SessionRow
revoke_if id now s =
    if s.id == id && is_none s.revoked_at then record s { revoked_at = some now } else s

unfoldable pub revoke_session : Database → Text → ℕ → Database
revoke_session db id now = record db { sessions = map (revoke_if id now) db.sessions }
