-- ===== src/Auth/Handoff/SingleUse.antt =====
-- A token that was exchanged is never exchanged again.
use understandproof.Base.{
  ℕ, ◌≡◌, refl, sym, ap, subst, ◌∙◌, inl, inr, Bool, true, false, not, ◌&&◌, List, [], ◌∷◌, ◌++◌,
  map, some, Text, text_eq, Outcome, ok, throw, throw_if, ◌>>◌, find, arith, Bool-cases,
  Option-cases, if◌then◌else◌, ◌==◌,
}
use mathlib.Core.Option.{some-injective}
use understandproof.Auth.{
  RevisionRow, AuthFailure, handoff_rejected, HandoffRow, SessionRow, Database, is_none, AttemptRow,
}
use understandproof.Auth.Handoff.{
  PublicWrappingMaterial, is_wrapping_material, CreateInput, CreateIssue, HandoffGrant,
  ExchangeIssue, ExchangedHandoff, consume_open, consume_row, create_handoff, Redeemable,
  check_handoff, has_hash, redeemable, exchange_handoff,
}
use understandproof.Auth.Handoff.Writes.{
  create-handoffs, exchange-handoffs, Reaches, begin, created, exchanged, elsewhere,
}

-- The first row with the hash is consumed.
abbrev spent : Text → List HandoffRow → Bool
spent hash [] = false
spent hash (row ∷ rest) =
    let later = spent hash rest in
    if has_hash hash row then not (is_none row.consumed_at) else later

-- Rows keep their hash, and stay consumed.
record IsKept (before after : HandoffRow) : Type 0 where
  same_hash : after.token_hash ≡ before.token_hash
  stays : is_none before.consumed_at ≡ false → is_none after.consumed_at ≡ false

consume_open-IsKept :
    (attempt_id : Text) (now : ℕ) (row : HandoffRow) → IsKept row (consume_open attempt_id now row)
consume_open-IsKept attempt_id now row =
    elim (Bool-cases (row.attempt_id == attempt_id && is_none row.consumed_at)) [
      | inl consumes ↦ rw consumes (record { same_hash = refl; stays = λ e. refl })
      | inr leaves ↦ rw leaves (record { same_hash = refl; stays = λ e. e })
    ]

consume_row-IsKept : (id : Text) (now : ℕ) (row : HandoffRow) → IsKept row (consume_row id now row)
consume_row-IsKept id now row = elim (Bool-cases (row.id == id)) [
  | inl consumes ↦ rw consumes (record { same_hash = refl; stays = λ e. refl })
  | inr leaves ↦ rw leaves (record { same_hash = refl; stays = λ e. e })
]

module _ (hash : Text) where
  map-spent :
      (change : HandoffRow → HandoffRow) (rows : List HandoffRow)
      → ((row : HandoffRow) → IsKept row (change row))
      → spent hash rows ≡ true
      → spent hash (map change rows) ≡ true
  map-spent change [] kept h = h
  map-spent change (row ∷ rest) kept h = elim (Bool-cases (row.token_hash == hash)) [
    | inl same ↦ rw ((kept row).same_hash, same) (ground (arith, (kept row).stays, rw same at h))
    | inr other ↦ rw ((kept row).same_hash, other) (map-spent change rest kept (rw other at h))
  ]

  append-spent :
      (rows more : List HandoffRow) → spent hash rows ≡ true → spent hash (rows ++ more) ≡ true
  append-spent [] more h = absurd (ground (arith, h))
  append-spent (row ∷ rest) more h = elim (Bool-cases (row.token_hash == hash)) [
    | inl same ↦ rw same (rw same at h)
    | inr other ↦ rw other (append-spent rest more (rw other at h))
  ]

  consumed-first :
      (rest : List HandoffRow) (row : HandoffRow) (now : ℕ)
      → (row.token_hash == hash) ≡ true
      → spent hash (map (consume_row row.id now) (row ∷ rest)) ≡ true
  consumed-first rest row now same =
      let self : (row.id == row.id) ≡ true = (text_eq.same_iff row.id row.id).1 refl in
      rw (self, same) refl

  consumed-spent :
      (rows : List HandoffRow) (row : HandoffRow) (now : ℕ)
      → find (has_hash hash) rows ≡ some row
      → spent hash (map (consume_row row.id now) rows) ≡ true
  consumed-spent [] row now e = absurd (ground (arith, e))
  consumed-spent (first ∷ rest) row now e = elim (Bool-cases (first.token_hash == hash)) [
    | inl same ↦
        subst (λ r. spent hash (map (consume_row r.id now) (first ∷ rest)) ≡ true)
          (some-injective first row (rw same at e)) (consumed-first rest first now same)
    | inr other ↦
        rw ((consume_row-IsKept row.id now first).same_hash, other)
          (consumed-spent rest row now (rw other at e))
  ]

  spent-find :
      (rows : List HandoffRow)
      → spent hash rows ≡ true
      → (row : HandoffRow) × (find (has_hash hash) rows ≡ some row)
        × (is_none row.consumed_at ≡ false)
  spent-find [] h = absurd (ground (arith, h))
  spent-find (first ∷ rest) h = elim (Bool-cases (first.token_hash == hash)) [
    | inl same ↦ (first, rw same refl, ground (arith, rw same at h))
    | inr other ↦ let (row, e, c) = spent-find rest (rw other at h) in (row, rw other e, c)
  ]

module _ (db : Database) (issue : ExchangeIssue) (row : HandoffRow) where
  check_handoff-refuses :
      is_none row.consumed_at ≡ false → check_handoff db issue row ≡ throw handoff_rejected
  unfolding check_handoff
  check_handoff-refuses h =
      elim (Option-cases (find (λ (a : AttemptRow). a.id == row.attempt_id) db.attempts)) [
        | inl missing ↦ rw missing refl
        | inr (attempt, f) ↦
            elim (Option-cases
              (find (λ (r : RevisionRow). r.id == attempt.revision_id) db.revisions)) [
                | inl missing ↦ rw (f, missing) refl
                | inr (revision, g) ↦
                    elim (Option-cases
                      (find (λ (s : SessionRow). s.id == row.desktop_session_id) db.sessions)) [
                        | inl missing ↦ rw (f, g, missing) refl
                        | inr (desktop, k) ↦ rw (f, g, k, h) refl
                      ]
              ]
      ]

  abbrev row_of : Outcome AuthFailure Redeemable → HandoffRow
  row_of (ok grant) = grant.handoff
  row_of (throw e) = row

  guarded-row :
      (refused : Bool) (attempt : AttemptRow)
      → row_of
          (throw_if refused handoff_rejected >> ok (record { handoff = row; attempt = attempt }))
        ≡ row
  guarded-row true attempt = refl
  guarded-row false attempt = refl

  check_handoff-row : row_of (check_handoff db issue row) ≡ row
  unfolding check_handoff
  check_handoff-row =
      elim (Option-cases (find (λ (a : AttemptRow). a.id == row.attempt_id) db.attempts)) [
        | inl missing ↦ rw missing refl
        | inr (attempt, f) ↦
            elim (Option-cases
              (find (λ (r : RevisionRow). r.id == attempt.revision_id) db.revisions)) [
                | inl missing ↦ rw (f, missing) refl
                | inr (revision, g) ↦
                    elim (Option-cases
                      (find (λ (s : SessionRow). s.id == row.desktop_session_id) db.sessions)) [
                        | inl missing ↦ rw (f, g, missing) refl
                        | inr (desktop, k) ↦ rw (f, g, k) (guarded-row _ attempt)
                      ]
              ]
      ]

  check_handoff-same :
      (grant : Redeemable) → check_handoff db issue row ≡ ok grant → grant.handoff ≡ row
  check_handoff-same grant e = sym (ap row_of e) ∙ check_handoff-row

redeemable-find :
    (db : Database) (hash : Text) (issue : ExchangeIssue) (grant : Redeemable)
    → redeemable db hash issue ≡ ok grant
    → find (has_hash hash) db.handoffs ≡ some grant.handoff
unfolding redeemable
redeemable-find db hash issue grant e = elim (Option-cases (find (has_hash hash) db.handoffs)) [
  | inl missing ↦ absurd (ground (arith, rw missing at e))
  | inr (row, f) ↦ f ∙ ap some (sym (check_handoff-same db issue row grant (rw f at e)))
]

exchange-spent :
    (db : Database) (hash : Text) (material : PublicWrappingMaterial) (issue : ExchangeIssue)
    (out : Database × ExchangedHandoff)
    → exchange_handoff db hash material issue ≡ ok out
    → spent hash out.0.handoffs ≡ true
exchange-spent db hash material issue out e =
    let (grant, redeems, rows) = exchange-handoffs db hash material issue out e in
    rw rows (
      consumed-spent hash db.handoffs grant.handoff issue.now
        (redeemable-find db hash issue grant redeems))

create-spent :
    (db : Database) (hash : Text) (input : CreateInput) (issue : CreateIssue)
    (out : Database × HandoffGrant)
    → create_handoff db input issue ≡ ok out
    → spent hash db.handoffs ≡ true
    → spent hash out.0.handoffs ≡ true
create-spent db hash input issue out e h =
    let (row, same, rows) = create-handoffs db input issue out e in
    rw rows (
      append-spent hash (map (consume_open input.attempt_id issue.consumed_at) db.handoffs)
        (row ∷ [])
        (map-spent hash (consume_open input.attempt_id issue.consumed_at) db.handoffs
          (consume_open-IsKept input.attempt_id issue.consumed_at) h))

exchange-kept :
    (db : Database) (hash other : Text) (material : PublicWrappingMaterial) (issue : ExchangeIssue)
    (out : Database × ExchangedHandoff)
    → exchange_handoff db other material issue ≡ ok out
    → spent hash db.handoffs ≡ true
    → spent hash out.0.handoffs ≡ true
exchange-kept db hash other material issue out e h =
    let (grant, redeems, rows) = exchange-handoffs db other material issue out e in
    rw rows (
      map-spent hash (consume_row grant.handoff.id issue.now) db.handoffs
        (consume_row-IsKept grant.handoff.id issue.now) h)

Reaches-spent :
    (hash : Text) {db later : Database}
    → Reaches db later
    → spent hash db.handoffs ≡ true
    → spent hash later.handoffs ≡ true
Reaches-spent hash begin h = h
Reaches-spent hash (created {later} input issue out before e) h =
    create-spent later hash input issue out e (Reaches-spent hash before h)
Reaches-spent hash (exchanged {later} other material issue out before e) h =
    exchange-kept later hash other material issue out e (Reaches-spent hash before h)
Reaches-spent hash (elsewhere out before same) h = rw same (Reaches-spent hash before h)

spent-refused :
    (db : Database) (hash : Text) (material : PublicWrappingMaterial) (issue : ExchangeIssue)
    → is_wrapping_material material ≡ true
    → spent hash db.handoffs ≡ true
    → exchange_handoff db hash material issue ≡ throw handoff_rejected
unfolding exchange_handoff redeemable
spent-refused db hash material issue accepted h =
    let (row, f, consumed) = spent-find hash db.handoffs h in
    rw (accepted, f, check_handoff-refuses db issue row consumed) refl

-- A token that exchangeHandoff has exchanged is rejected for ever: in each database that calls of createHandoff
-- and of exchangeHandoff, and code that leaves the table of tokens as it is, can lead to, with any material
-- that its schema accepts and at any time.
pub exchange_handoff-single_use :
    (db : Database) (hash : Text) (material : PublicWrappingMaterial) (issue : ExchangeIssue)
    (out : Database × ExchangedHandoff) (later : Database) (again : PublicWrappingMaterial)
    (later_issue : ExchangeIssue)
    → exchange_handoff db hash material issue ≡ ok out
    → Reaches out.0 later
    → is_wrapping_material again ≡ true
    → exchange_handoff later hash again later_issue ≡ throw handoff_rejected
exchange_handoff-single_use db hash material issue out later again later_issue e reaches accepted =
    spent-refused later hash again later_issue accepted
      (Reaches-spent hash reaches (exchange-spent db hash material issue out e))
