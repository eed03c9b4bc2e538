-- ===== src/Analysis/Hunks.antt =====
-- packages/analysis/src/analyze.ts: `parseAnchors`, which reads the hunks of a file's patch. The line numbers of
-- a hunk are exact, where the code has them as numbers of 53 bits.
pub mod Anchors
use understandproof.Base.{
  ℕ, zero, suc, ◌+◌, ◌-◌, ◌*◌, Bool, true, false, not, ◌&&◌, ◌||◌, List, [], ◌∷◌, ◌++◌, map, Option,
  none, some, Text, text_eq, text, trim, length, take, drop, every, leb, nat_eqb, ◌==◌, Outcome, ok,
  throw, throw_if, ◌>>=◌, ◌>>◌, if◌then◌else◌,
}
use understandproof.Media.Canonical.{decimal}
use understandproof.Questions.{DiffAnchor}
use understandproof.Analysis.{PatchFile, FileKind, text_file, binary, symlink}

abbrev pub Match : Type 0 → Type 0
Match A = Outcome (Unit {0}) A

abbrev is_digit : ℕ → Bool
is_digit c = leb 48 c && leb c 57

-- `.`, which matches no line terminator
abbrev is_dot : ℕ → Bool
is_dot c = not (nat_eqb c 10 || nat_eqb c 13 || nat_eqb c 8232 || nat_eqb c 8233)

-- The digits that a text begins with, and what follows them.
abbrev pub digits : Text → Text
digits [] = []
digits (c ∷ s) = let later = digits s in if is_digit c then c ∷ later else []

abbrev pub after_digits : Text → Text
after_digits [] = []
after_digits (c ∷ s) = let later = after_digits s in if is_digit c then later else c ∷ s

abbrev number_of : ℕ → Text → ℕ
number_of n [] = n
number_of n (c ∷ s) = number_of (10 * n + (c - 48)) s

abbrev pub expect : Text → Text → Match Text
expect [] s = ok s
expect (c ∷ expected) [] = throw tt
expect (c ∷ expected) (d ∷ s) =
    let later = expect expected s in if nat_eqb c d then later else throw tt

-- `(\d+)`: the number and what follows it
abbrev pub read_number : Text → Match (ℕ × Text)
read_number s =
    if nat_eqb (length (digits s)) 0 then throw tt else ok (number_of 0 (digits s), after_digits s)

-- `(?:,\d+)?`, where a blank has to follow
abbrev skip_count : Text → Match Text
skip_count [] = ok []
skip_count (c ∷ s) = if nat_eqb c 44 then (read_number s >>= λ m. ok m.1) else ok (c ∷ s)

-- `HUNK_PATTERN.exec(line)`: the numbers of the two starts
unfoldable pub read_hunk : Text → Match (ℕ × ℕ)
read_hunk line = do
  ranges ← expect (text "@@ -") line
  old ← read_number ranges
  blank ← skip_count old.1
  added ← expect (text " +") blank
  new ← read_number added
  closing ← skip_count new.1
  heading ← expect (text " @@") closing
  throw_if (not (every is_dot heading)) tt
  ok (old.0, new.0)

abbrev cons_first : ℕ → List Text → List Text
cons_first c [] = (c ∷ []) ∷ []
cons_first c (line ∷ rest) = (c ∷ line) ∷ rest

-- `patch.split("\n")`
unfoldable pub split_lines : Text → List Text
split_lines [] = [] ∷ []
split_lines (c ∷ s) =
    let rest = split_lines s in if nat_eqb c 10 then [] ∷ rest else cons_first c rest

abbrev starts_with : Text → Text → Bool
starts_with s prefix = take (length prefix) s == prefix

-- An added or a removed line.
unfoldable pub is_change : Text → Bool
is_change line =
    starts_with line (text "+") && not (starts_with line (text "+++"))
    || starts_with line (text "-") && not (starts_with line (text "---"))

-- `.filter(Boolean)`
abbrev non_empty : List Text → List Text
non_empty [] = []
non_empty ([] ∷ rest) = non_empty rest
non_empty ((c ∷ s) ∷ rest) = (c ∷ s) ∷ non_empty rest

abbrev join_bars : List Text → Text
join_bars [] = []
join_bars (item ∷ []) = item
join_bars (item ∷ next ∷ rest) = item ++ (text " | " ++ join_bars (next ∷ rest))

abbrev pub or_default : Text → Text
or_default [] = text "Changed lines in bounded patch hunk"
or_default (c ∷ s) = c ∷ s

unfoldable pub compact_evidence : List Text → Text
compact_evidence lines = take 500 (or_default (join_bars (take 3 (non_empty (map trim lines)))))

pub record Hunk : Type 0 where
  pub header : Text
  pub old_start : ℕ
  pub new_start : ℕ
  pub changed : List Text

abbrev pub anchor_id : ℕ → Text
anchor_id n = b'a' ∷ decimal n

unfoldable pub anchor_of : Text → ℕ → Hunk → DiffAnchor
anchor_of path index h = record {
  id = anchor_id index;
  file = path;
  hunk_header = take 500 h.header;
  old_start = h.old_start;
  new_start = h.new_start;
  changed_lines = length h.changed;
  evidence = compact_evidence h.changed;
}

pub record Parsing : Type 0 where
  pub current : Option Hunk
  pub anchors : List DiffAnchor

unfoldable pub flush : Text → ℕ → Option Hunk → List DiffAnchor → List DiffAnchor
flush path first none anchors = anchors
flush path first (some h) anchors =
    if nat_eqb (length h.changed) 0
    then anchors
    else anchors ++ anchor_of path (first + length anchors) h ∷ []

abbrev pub add_line : Text → Option Hunk → Option Hunk
add_line line none = none
add_line line (some h) =
    if is_change line then some (record h { changed = h.changed ++ drop 1 line ∷ [] }) else some h

unfoldable pub on_line : Text → ℕ → Text → Match (ℕ × ℕ) → Parsing → Parsing
on_line path first line (ok starts) s = record {
  current =
      some (record { header = line; old_start = starts.0; new_start = starts.1; changed = [] });
  anchors = flush path first s.current s.anchors;
}
on_line path first line (throw _) s = record {
  current = add_line line s.current;
  anchors = s.anchors;
}

unfoldable pub parse_lines : Text → ℕ → List Text → Parsing → List DiffAnchor
parse_lines path first [] s = flush path first s.current s.anchors
parse_lines path first (line ∷ rest) s =
    parse_lines path first rest (on_line path first line (read_hunk line) s)

abbrev pub is_text : FileKind → Bool
is_text text_file = true
is_text binary = false
is_text symlink = false

abbrev pub patch_anchors : Text → ℕ → Option Text → List DiffAnchor
patch_anchors path first none = []
patch_anchors path first (some patch) =
    parse_lines path first (split_lines patch) (record { current = none; anchors = [] })

unfoldable pub parse_anchors : PatchFile → ℕ → List DiffAnchor
parse_anchors file first =
    if is_text file.kind then patch_anchors file.path first file.patch else []
