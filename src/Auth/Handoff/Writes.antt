-- ===== src/Auth/Handoff/Writes.antt =====
-- What the two functions write in the table of tokens.
use understandproof.Base.{
  min, ◌+◌, ◌≡◌, refl, sym, ap, ◌∙◌, inl, inr, ◌&&◌, List, [], ◌∷◌, ◌++◌, map, none, Text, text_eq,
  Outcome, ok, throw, >>=-eq-ok, arith, leb, max_safe_integer, Bool-cases,
}
use understandproof.Auth.{
  AuthFailure, HandoffRow, SessionRow, Database, SessionInput, SessionIssue, issue_session,
}
use understandproof.Auth.Handoff.{
  PublicWrappingMaterial, is_wrapping_material, CreateInput, CreateIssue, HandoffGrant,
  ExchangeIssue, ExchangedHandoff, consume_open, consume_row, authorized_attempt, grant_handoff,
  create_handoff, Redeemable, record_material, redeem, consume_handoff, mobile_session_input,
  redeemable, exchange_handoff,
}

abbrev pub handoffs_of {ℓ} :
    {X : Type ℓ} → List HandoffRow → Outcome AuthFailure (Database × X) → List HandoffRow
handoffs_of rows (ok out) = out.0.handoffs
handoffs_of rows (throw e) = rows

pub issue_session-handoffs :
    (db : Database) (input : SessionInput) (issue : SessionIssue) (out : Database × SessionRow)
    → issue_session db input issue ≡ ok out
    → out.0.handoffs ≡ db.handoffs
unfolding issue_session
issue_session-handoffs db input issue out e =
    elim (Bool-cases (leb 1 input.ttl_ms && leb input.ttl_ms max_safe_integer)) [
      | inl usable ↦ sym (ap (handoffs_of []) (rw usable at e))
      | inr unusable ↦ absurd (ground (arith, rw unusable at e))
    ]

pub redeem-handoffs :
    (db : Database) (material : PublicWrappingMaterial) (issue : ExchangeIssue) (grant : Redeemable)
    (out : Database × ExchangedHandoff)
    → redeem db material issue grant ≡ ok out
    → out.0.handoffs ≡ map (consume_row grant.handoff.id issue.now) db.handoffs
unfolding redeem record_material
redeem-handoffs db material issue grant out e =
    let (issued, made, written) =
      >>=-eq-ok
        (issue_session (consume_handoff db issue grant) (mobile_session_input issue grant)
          issue.session)
        (record_material material issue grant.attempt) e in
    sym (ap (handoffs_of []) written)
    ∙ issue_session-handoffs (consume_handoff db issue grant) (mobile_session_input issue grant)
        issue.session issued made

pub create-handoffs :
    (db : Database) (input : CreateInput) (issue : CreateIssue) (out : Database × HandoffGrant)
    → create_handoff db input issue ≡ ok out
    → (row : HandoffRow) × (row.attempt_id ≡ input.attempt_id)
      × (out.0.handoffs
          ≡ map (consume_open input.attempt_id issue.consumed_at) db.handoffs ++ row ∷ [])
unfolding create_handoff grant_handoff
create-handoffs db input issue out e =
    let (attempt, allowed, written) =
      >>=-eq-ok (authorized_attempt db input issue) (grant_handoff db input issue) e in
    (
      record {
        id = issue.id;
        attempt_id = input.attempt_id;
        desktop_session_id = input.session.id;
        token_hash = issue.credential.hash;
        expires_at = min attempt.expires_at (issue.granted_at + input.ttl_ms);
        consumed_at = none;
      },
      refl,
      sym (ap (handoffs_of []) written),
    )

pub exchange-handoffs :
    (db : Database) (hash : Text) (material : PublicWrappingMaterial) (issue : ExchangeIssue)
    (out : Database × ExchangedHandoff)
    → exchange_handoff db hash material issue ≡ ok out
    → (grant : Redeemable) × (redeemable db hash issue ≡ ok grant)
      × (out.0.handoffs ≡ map (consume_row grant.handoff.id issue.now) db.handoffs)
unfolding exchange_handoff
exchange-handoffs db hash material issue out e = elim (Bool-cases (is_wrapping_material material)) [
  | inr malformed ↦ absurd (ground (arith, rw malformed at e))
  | inl accepted ↦
      let (grant, redeems, written) =
        >>=-eq-ok (redeemable db hash issue) (redeem db material issue) (rw accepted at e) in
      (grant, redeems, redeem-handoffs db material issue grant out written)
]

-- What can happen to the database: calls of the two functions, and whatever leaves the table of tokens as it is.
pub data Reaches : Database → Database → Type 0 where
  begin : {db : Database} → Reaches db db
  created :
      {db later : Database} (input : CreateInput) (issue : CreateIssue)
      (out : Database × HandoffGrant)
      → Reaches db later
      → create_handoff later input issue ≡ ok out
      → Reaches db out.0
  exchanged :
      {db later : Database} (hash : Text) (material : PublicWrappingMaterial)
      (issue : ExchangeIssue) (out : Database × ExchangedHandoff)
      → Reaches db later
      → exchange_handoff later hash material issue ≡ ok out
      → Reaches db out.0
  elsewhere :
      {db later : Database} (out : Database)
      → Reaches db later
      → out.handoffs ≡ later.handoffs
      → Reaches db out
