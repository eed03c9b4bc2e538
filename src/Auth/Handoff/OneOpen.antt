-- ===== src/Auth/Handoff/OneOpen.antt =====
-- An attempt has at most one token that can still be exchanged.
use understandproof.Base.{
  ℕ, suc, ◌+◌, ◌≤◌, ◌≡◌, refl, ap, subst, ◌∙◌, inl, inr, Bool, true, false, ◌&&◌, List, [], ◌∷◌,
  ◌++◌, map, Text, text_eq, ok, arith, Bool-cases, if◌then◌else◌, ◌==◌,
}
use understandproof.Auth.{HandoffRow, Database, is_none}
use understandproof.Auth.Handoff.{
  PublicWrappingMaterial, CreateInput, CreateIssue, HandoffGrant, ExchangeIssue, ExchangedHandoff,
  consume_open, consume_row, create_handoff, exchange_handoff,
}
use understandproof.Auth.Handoff.Writes.{
  create-handoffs, exchange-handoffs, Reaches, begin, created, exchanged, elsewhere,
}

abbrev is_open : Text → HandoffRow → Bool
is_open attempt_id row = row.attempt_id == attempt_id && is_none row.consumed_at

-- How many tokens of an attempt can still be exchanged.
unfoldable pub open_tokens : Text → List HandoffRow → ℕ
open_tokens attempt_id [] = 0
open_tokens attempt_id (row ∷ rest) =
    let later = open_tokens attempt_id rest in if is_open attempt_id row then suc later else later

-- The unique index on the open tokens of an attempt.
abbrev pub HasOneOpen : Database → Type 0
HasOneOpen db = (attempt_id : Text) → open_tokens attempt_id db.handoffs ≤ 1

and_false : (b : Bool) → (b && false) ≡ false
and_false true = refl
and_false false = refl

module _ (attempt_id : Text) where
  open_tokens-append :
      (left right : List HandoffRow)
      → open_tokens attempt_id (left ++ right)
        ≡ open_tokens attempt_id left + open_tokens attempt_id right
  unfolding open_tokens
  open_tokens-append [] right = omega arith
  open_tokens-append (row ∷ left) right = elim (Bool-cases (is_open attempt_id row)) [
    | inl counts ↦ rw counts (omega (arith, open_tokens-append left right))
    | inr passes ↦ rw passes (open_tokens-append left right)
  ]

  -- A change of the rows that opens none.
  open_tokens-map :
      (change : HandoffRow → HandoffRow) (rows : List HandoffRow)
      → ((row : HandoffRow)
          → is_open attempt_id row ≡ false
          → is_open attempt_id (change row) ≡ false)
      → open_tokens attempt_id (map change rows) ≤ open_tokens attempt_id rows
  unfolding open_tokens
  open_tokens-map change [] h = omega arith
  open_tokens-map change (row ∷ rest) h =
      let later = open_tokens-map change rest h in
      elim (Bool-cases (is_open attempt_id row)) [
        | inl counts ↦ elim (Bool-cases (is_open attempt_id (change row))) [
          | inl still ↦ rw (counts, still) (omega (arith, later))
          | inr closed ↦ rw (counts, closed) (omega (arith, later))
        ]
        | inr passes ↦ rw (passes, h row passes) later
      ]

  open_tokens-closed :
      (change : HandoffRow → HandoffRow) (rows : List HandoffRow)
      → ((row : HandoffRow) → is_open attempt_id (change row) ≡ false)
      → open_tokens attempt_id (map change rows) ≡ 0
  unfolding open_tokens
  open_tokens-closed change [] h = refl
  open_tokens-closed change (row ∷ rest) h = rw (h row) (open_tokens-closed change rest h)

  new_token : (row : HandoffRow) → open_tokens attempt_id (row ∷ []) ≤ 1
  unfolding open_tokens
  new_token row = elim (Bool-cases (is_open attempt_id row)) [
    | inl counts ↦ rw counts (omega arith)
    | inr passes ↦ rw passes (omega arith)
  ]

  other_token :
      (row : HandoffRow)
      → (row.attempt_id == attempt_id) ≡ false
      → open_tokens attempt_id (row ∷ []) ≡ 0
  unfolding open_tokens
  other_token row other = rw other refl

  consume_open-closes :
      (now : ℕ) (row : HandoffRow) → is_open attempt_id (consume_open attempt_id now row) ≡ false
  consume_open-closes now row = elim (Bool-cases (is_open attempt_id row)) [
    | inl consumes ↦ rw consumes (and_false _)
    | inr leaves ↦ rw leaves leaves
  ]

  consume_open-opens_none :
      (other : Text) (now : ℕ) (row : HandoffRow)
      → is_open attempt_id row ≡ false
      → is_open attempt_id (consume_open other now row) ≡ false
  consume_open-opens_none other now row h = elim (Bool-cases (is_open other row)) [
    | inl consumes ↦ rw consumes (and_false _)
    | inr leaves ↦ rw leaves h
  ]

  consume_row-opens_none :
      (id : Text) (now : ℕ) (row : HandoffRow)
      → is_open attempt_id row ≡ false
      → is_open attempt_id (consume_row id now row) ≡ false
  consume_row-opens_none id now row h = elim (Bool-cases (row.id == id)) [
    | inl consumes ↦ rw consumes (and_false _)
    | inr leaves ↦ rw leaves h
  ]

create_handoff-HasOneOpen :
    (db : Database) (input : CreateInput) (issue : CreateIssue) (out : Database × HandoffGrant)
    → create_handoff db input issue ≡ ok out
    → HasOneOpen db
    → HasOneOpen out.0
create_handoff-HasOneOpen db input issue out e h attempt_id =
    let (row, names, rows) = create-handoffs db input issue out e in
    let earlier = map (consume_open input.attempt_id issue.consumed_at) db.handoffs in
    let counts = open_tokens-append attempt_id earlier (row ∷ []) in
    rw rows (elim (Bool-cases (input.attempt_id == attempt_id)) [
      | inl same ↦
          let is_it = (text_eq.same_iff input.attempt_id attempt_id).0 same in
          omega (
            arith,
            counts,
            new_token attempt_id row,
            open_tokens-closed attempt_id (consume_open input.attempt_id issue.consumed_at)
                db.handoffs
                (subst
                  (λ id.
                    (r : HandoffRow)
                    → is_open id (consume_open input.attempt_id issue.consumed_at r) ≡ false)
                  is_it (consume_open-closes input.attempt_id issue.consumed_at)),
          )
      | inr other ↦ omega (
        arith,
        counts,
        h attempt_id,
        other_token attempt_id row (ap (λ id. id == attempt_id) names ∙ other),
        open_tokens-map attempt_id (consume_open input.attempt_id issue.consumed_at) db.handoffs
            (consume_open-opens_none attempt_id input.attempt_id issue.consumed_at),
      )
    ])

exchange_handoff-HasOneOpen :
    (db : Database) (hash : Text) (material : PublicWrappingMaterial) (issue : ExchangeIssue)
    (out : Database × ExchangedHandoff)
    → exchange_handoff db hash material issue ≡ ok out
    → HasOneOpen db
    → HasOneOpen out.0
exchange_handoff-HasOneOpen db hash material issue out e h attempt_id =
    let (grant, redeems, rows) = exchange-handoffs db hash material issue out e in
    rw rows (
      omega (
        arith,
        h attempt_id,
        open_tokens-map attempt_id (consume_row grant.handoff.id issue.now) db.handoffs
            (consume_row-opens_none attempt_id grant.handoff.id issue.now),
      ))

-- When each attempt has at most one token that can still be exchanged, that stays so, whatever calls of
-- createHandoff and exchangeHandoff follow, and whatever leaves the table of tokens as it is.
pub Reaches-HasOneOpen : {db later : Database} → Reaches db later → HasOneOpen db → HasOneOpen later
Reaches-HasOneOpen begin h = h
Reaches-HasOneOpen (created {later} input issue out before e) h =
    create_handoff-HasOneOpen later input issue out e (Reaches-HasOneOpen before h)
Reaches-HasOneOpen (exchanged {later} hash material issue out before e) h =
    exchange_handoff-HasOneOpen later hash material issue out e (Reaches-HasOneOpen before h)
Reaches-HasOneOpen (elsewhere out before same) h =
    λ attempt_id. rw same (Reaches-HasOneOpen before h attempt_id)
