-- ===== src/Analysis/Hunks/Anchors.antt =====
-- The anchors of a file: their numbers, and that the schema of an anchor accepts them.
use understandproof.Base.{
  ℕ, suc, ◌+◌, ◌≤◌, ◌≡◌, refl, subst, Bool, true, inl, inr, ◌&&◌, List, [], ◌∷◌, ◌++◌, Option, none,
  some, Text, arith, length, take, length-take, All, All-append, leb, nat_eqb, ok, throw,
  Bool-cases,
}
use understandproof.Questions.{DiffAnchor}
use understandproof.Questions.Planner.{is_anchor}
use understandproof.Analysis.{PatchFile}
use understandproof.Analysis.Hunks.{
  Match, read_hunk, split_lines, is_change, or_default, compact_evidence, Hunk, anchor_id,
  anchor_of, Parsing, flush, add_line, on_line, parse_lines, is_text, patch_anchors, parse_anchors,
}

-- The ids count up from a number.
unfoldable pub NumberedFrom : ℕ → List DiffAnchor → Type 0
NumberedFrom n [] = Unit
NumberedFrom n (a ∷ rest) = (a.id ≡ anchor_id n) × NumberedFrom (suc n) rest

pub NumberedFrom-append :
    (n : ℕ) (left right : List DiffAnchor)
    → NumberedFrom n left
    → NumberedFrom (n + length left) right
    → NumberedFrom n (left ++ right)
unfolding NumberedFrom
NumberedFrom-append n [] right h k =
    subst (λ m. NumberedFrom m right) {x = n + 0} {y = n} (omega arith) k
NumberedFrom-append n (a ∷ rest) right h k = (
  h.0,
  NumberedFrom-append (suc n) rest right h.1 (
      subst (λ m. NumberedFrom m right) {x = n + suc (length rest)} {y = suc n + length rest}
        (omega arith) k),
)

abbrev pub IsValid : DiffAnchor → Type 0
IsValid a = is_anchor a ≡ true

read_hunk_non_empty : (line : Text) (starts : ℕ × ℕ) → read_hunk line ≡ ok starts → 1 ≤ length line
unfolding read_hunk
read_hunk_non_empty [] starts e = absurd (ground (arith, e))
read_hunk_non_empty (c ∷ s) starts e = omega arith

or_default_non_empty : (s : Text) → 1 ≤ length (or_default s)
or_default_non_empty [] = omega arith
or_default_non_empty (c ∷ s) = omega arith

default-bounds :
    (s : Text) → (1 ≤ length (take 500 (or_default s))) × (length (take 500 (or_default s)) ≤ 500)
default-bounds s = (
  omega (arith, or_default_non_empty s, length-take 500 (or_default s)),
  omega (arith, length-take 500 (or_default s)),
)

compact_evidence-bounds :
    (lines : List Text)
    → (1 ≤ length (compact_evidence lines)) × (length (compact_evidence lines) ≤ 500)
unfolding compact_evidence
compact_evidence-bounds lines = default-bounds _

bounds→true : (least most n : ℕ) → (least ≤ n) × (n ≤ most) → (leb least n && leb n most) ≡ true
bounds→true least most n h = ground (arith, h)

some→true : (n : ℕ) → 1 ≤ n → leb 1 n ≡ true
some→true n h = ground (arith, h)

all_true : (a b c d : Bool) → a ≡ true → b ≡ true → c ≡ true → d ≡ true → (a && b && c && d) ≡ true
all_true a b c d p q r s = rw (p, q, r, s) refl

module _ (path : Text) (first : ℕ) where
  -- What holds of the hunk that is open.
  abbrev IsOpen : Option Hunk → Type 0
  IsOpen none = Unit
  IsOpen (some h) = 1 ≤ length h.header

  abbrev Listed : List DiffAnchor → Type 0
  Listed anchors = NumberedFrom first anchors × All IsValid anchors

  anchor_of-IsValid :
      (index : ℕ) (h : Hunk)
      → (1 ≤ length path) × (length path ≤ 1024)
      → 1 ≤ length h.header
      → 1 ≤ length h.changed
      → IsValid (anchor_of path index h)
  unfolding anchor_of is_anchor
  anchor_of-IsValid index h named titled changes =
      all_true _ _ _ _ (bounds→true 1 1024 (length path) named)
        (bounds→true 1 500 (length (take 500 h.header)) (
          omega (arith, titled, length-take 500 h.header),
          omega (arith, length-take 500 h.header),
        ))
        (some→true (length h.changed) changes)
        (bounds→true 1 500 (length (compact_evidence h.changed))
          (compact_evidence-bounds h.changed))

  anchor_of-numbered : (index : ℕ) (h : Hunk) → NumberedFrom index (anchor_of path index h ∷ [])
  unfolding NumberedFrom anchor_of
  anchor_of-numbered index h = (refl, tt)

  flush-Listed :
      (current : Option Hunk) (anchors : List DiffAnchor)
      → (1 ≤ length path) × (length path ≤ 1024)
      → IsOpen current
      → Listed anchors
      → Listed (flush path first current anchors)
  unfolding flush
  flush-Listed none anchors named h listed = listed
  flush-Listed (some hunk) anchors named h listed =
      elim (Bool-cases (nat_eqb (length hunk.changed) 0)) [
        | inl unchanged ↦ rw unchanged listed
        | inr changes ↦ rw changes (
          NumberedFrom-append first anchors _ listed.0
              (anchor_of-numbered (first + length anchors) hunk),
          All-append IsValid anchors _ listed.1 (
            anchor_of-IsValid (first + length anchors) hunk named h (ground (arith, changes)),
            tt,
          ),
        )
      ]

  add_line-IsOpen :
      (line : Text) (current : Option Hunk) → IsOpen current → IsOpen (add_line line current)
  add_line-IsOpen line none h = tt
  add_line-IsOpen line (some hunk) h = elim (Bool-cases (is_change line)) [
    | inl change ↦ rw change h
    | inr context ↦ rw context h
  ]

  on_line-kept :
      (line : Text) (found : Match (ℕ × ℕ)) (s : Parsing)
      → (1 ≤ length path) × (length path ≤ 1024)
      → read_hunk line ≡ found
      → IsOpen s.current
      → Listed s.anchors
      → IsOpen (on_line path first line found s).current
        × Listed (on_line path first line found s).anchors
  unfolding on_line
  on_line-kept line (ok starts) s named e h listed =
      (read_hunk_non_empty line starts e, flush-Listed s.current s.anchors named h listed)
  on_line-kept line (throw none_found) s named e h listed =
      (add_line-IsOpen line s.current h, listed)

  parse_lines-Listed :
      (lines : List Text) (s : Parsing)
      → (1 ≤ length path) × (length path ≤ 1024)
      → IsOpen s.current
      → Listed s.anchors
      → Listed (parse_lines path first lines s)
  unfolding parse_lines
  parse_lines-Listed [] s named h listed = flush-Listed s.current s.anchors named h listed
  parse_lines-Listed (line ∷ rest) s named h listed =
      let kept = on_line-kept line (read_hunk line) s named refl h listed in
      parse_lines-Listed rest (on_line path first line (read_hunk line) s) named kept.0 kept.1

  patch_anchors-Listed :
      (patch : Option Text)
      → (1 ≤ length path) × (length path ≤ 1024)
      → Listed (patch_anchors path first patch)
  unfolding NumberedFrom
  patch_anchors-Listed none named = (tt, tt)
  patch_anchors-Listed (some patch) named =
      parse_lines-Listed (split_lines patch) _ named tt (tt, tt)

pub parse_anchors-Listed :
    (file : PatchFile) (first : ℕ)
    → (1 ≤ length file.path) × (length file.path ≤ 1024)
    → NumberedFrom first (parse_anchors file first) × All IsValid (parse_anchors file first)
unfolding parse_anchors NumberedFrom
parse_anchors-Listed file first named = elim (Bool-cases (is_text file.kind)) [
  | inl text_like ↦ rw text_like (patch_anchors-Listed file.path first file.patch named)
  | inr metadata ↦ rw metadata (tt, tt)
]
