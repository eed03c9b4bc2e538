-- ===== src/Auth/Handoff/Tests.antt =====
-- A handoff that is created and exchanged, and the theorems at it.
use understandproof.Base.{
  ◌≡◌, refl, true, [], ◌∷◌, none, some, Text-discrete, text, arith, ok, throw,
}
use understandproof.Auth.{
  author, handoff_rejected, AttemptRow, SessionRow, HandoffRow, Database, issue_session,
}
use understandproof.Auth.Handoff.{
  PublicWrappingMaterial, is_wrapping_material, CreateInput, CreateIssue, HandoffGrant,
  ExchangeIssue, ExchangedHandoff, authorized_attempt, grant_handoff, create_handoff, check_handoff,
  record_material, redeem, redeemable, exchange_handoff,
}
use understandproof.Auth.Handoff.Writes.{begin, created, exchanged}
use understandproof.Auth.Handoff.SingleUse.{exchange_handoff-single_use}
use understandproof.Auth.Handoff.OneOpen.{open_tokens, HasOneOpen, Reaches-HasOneOpen}

abbrev attempt : AttemptRow
attempt = record {
  id = text "attempt";
  revision_id = text "revision";
  author_id = text "7";
  repository_id = text "repo";
  head_sha = text "abc";
  status = text "ready";
  expires_at = 5000;
}

abbrev desktop : SessionRow
desktop = record {
  id = text "desktop";
  token_hash = text "d";
  actor_id = text "7";
  actor_role = author;
  repository_id = some (text "repo");
  csrf_hash = text "c";
  expires_at = 9000;
  revoked_at = none;
}

abbrev first_db : Database
first_db = record {
  attempts = attempt ∷ [];
  revisions = record { id = text "revision"; is_current = true } ∷ [];
  sessions = desktop ∷ [];
  handoffs = [];
  materials = [];
}

abbrev create_input : CreateInput
create_input = record { attempt_id = text "attempt"; session = desktop; ttl_ms = 300 }

abbrev create_issue : CreateIssue
create_issue = record {
  checked_at = 1000;
  consumed_at = 1000;
  granted_at = 1001;
  credential = record { value = text "token"; hash = text "h" };
  id = text "handoff";
}

abbrev handoff : HandoffRow
handoff = record {
  id = text "handoff";
  attempt_id = text "attempt";
  desktop_session_id = text "desktop";
  token_hash = text "h";
  expires_at = 1301;
  consumed_at = none;
}

abbrev granted : Database × HandoffGrant
granted = (
  record first_db { handoffs = handoff ∷ [] },
  record { token = text "token"; expires_at = 1301 },
)

abbrev material : PublicWrappingMaterial
material = record {
  key_id = text "key:1";
  algorithm = text "RSA-OAEP-256";
  spki_der = text "MII";
  spki_sha256 = text "AAAAAAAAAAAAAAAAAAAAAAAAAAAAAAAAAAAAAAAAAAA";
}

abbrev exchange_issue : ExchangeIssue
exchange_issue = record {
  now = 1200;
  session = record {
    id = text "mobile";
    session_credential = record { value = text "s"; hash = text "sh" };
    csrf_credential = record { value = text "x"; hash = text "xh" };
    now = 1201;
  };
  material_id = text "material";
  object_id = text "object";
}

abbrev mobile : SessionRow
mobile = record {
  id = text "mobile";
  token_hash = text "sh";
  actor_id = text "7";
  actor_role = author;
  repository_id = some (text "repo");
  csrf_hash = text "xh";
  expires_at = 5001;
  revoked_at = none;
}

abbrev exchanged_out : Database × ExchangedHandoff
exchanged_out = (
  record {
    attempts = attempt ∷ [];
    revisions = record { id = text "revision"; is_current = true } ∷ [];
    sessions = desktop ∷ mobile ∷ [];
    handoffs = record handoff { consumed_at = some 1200 } ∷ [];
    materials =
        record {
          id = text "material";
          attempt_id = text "attempt";
          object_id = text "object";
          key_id = text "key:1";
          algorithm = text "RSA-OAEP-256";
          spki_sha256 = material.spki_sha256;
          usable_until = 5000;
        }
        ∷ [];
  },
  record {
    mobile_session = mobile;
    material_id = text "material";
    material = material;
    attempt_id = text "attempt";
    head_sha = text "abc";
    object_id = text "object";
    usable_until = 5000;
  },
)

runs : Unit {0}
unfolding Text-discrete issue_session is_wrapping_material authorized_attempt grant_handoff
    create_handoff check_handoff record_material redeem redeemable exchange_handoff
runs = tt

creates : create_handoff first_db create_input create_issue ≡ ok granted
unfolding runs
creates = refl

accepts : is_wrapping_material material ≡ true
unfolding runs
accepts = refl

exchanges : exchange_handoff granted.0 (text "h") material exchange_issue ≡ ok exchanged_out
unfolding runs
exchanges = refl

exchange_handoff-single_use_example :
    exchange_handoff exchanged_out.0 (text "h") material exchange_issue ≡ throw handoff_rejected
exchange_handoff-single_use_example =
    exchange_handoff-single_use granted.0 (text "h") material exchange_issue exchanged_out
      exchanged_out.0 material exchange_issue exchanges begin accepts

none_open : HasOneOpen first_db
unfolding open_tokens
none_open attempt_id = omega arith

Reaches-HasOneOpen_example : HasOneOpen exchanged_out.0
Reaches-HasOneOpen_example =
    Reaches-HasOneOpen
      (exchanged (text "h") material exchange_issue exchanged_out
        (created create_input create_issue granted begin creates) exchanges)
      none_open
