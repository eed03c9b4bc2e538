-- ===== src/Analysis/Scan.antt =====
-- packages/analysis/src/analyze.ts: the part of `analyzePullRequestPatch` that reads the relevant files up to
-- its limits, and `classify`.
pub mod Within
pub mod Coverage
pub mod Turns
pub mod Bounded
use understandproof.Base.{
  ℕ, zero, suc, ◌+◌, Bool, true, false, not, ◌&&◌, ◌||◌, List, [], ◌∷◌, ◌++◌, Option, none, some,
  Text, length, take, includes, leb, ltb, nat_eqb, if◌then◌else◌,
}
use understandproof.Analysis.{PatchFile, AnalysisLimits}
use understandproof.Analysis.Hunks.{is_text, parse_anchors}
use understandproof.Questions.{RiskLevel, small, medium, high_risk, mega, RiskVector, DiffAnchor}

-- The length of `textEncoder.encode(s)`: a high and a low surrogate are four bytes together, and a
-- surrogate alone is replaced by a character of three.
abbrev is_low_first : Text → Bool
is_low_first [] = false
is_low_first (c ∷ s) = leb 56320 c && leb c 57343

unfoldable pub utf8_length : Text → ℕ
utf8_length [] = 0
utf8_length (c ∷ s) =
    let later = utf8_length s in
    if ltb c 128
    then 1 + later
    else if ltb c 2048
    then 2 + later
    else if leb 55296 c && leb c 56319 && is_low_first s
    then 1 + later
    else 3 + later

-- The limits that were hit, as the members of the set.
pub record LimitsHit : Type 0 where
  pub file_count : Bool
  pub file_patch_bytes : Bool
  pub total_patch_bytes : Bool
  pub changed_lines : Bool

pub record Scan : Type 0 where
  pub limits_hit : LimitsHit
  pub hard_limit_hit : Bool
  pub patch_bytes : ℕ
  pub changed_lines : ℕ
  pub anchor_index : ℕ
  pub anchors : List DiffAnchor
  pub analyzed_files : List PatchFile

-- What a turn of the loop ends with: `continue` and its end, or `break`.
pub data Turn : Type 0 where
  go_on : Scan → Turn
  stop : Scan → Turn

abbrev pub add_file : PatchFile → Scan → Scan
add_file file s = record s { analyzed_files = s.analyzed_files ++ file ∷ [] }

unfoldable pub accept_file : PatchFile → Text → Scan → Scan
accept_file file patch s =
    let file_anchors = parse_anchors file s.anchor_index in
    record {
      limits_hit = s.limits_hit;
      hard_limit_hit = s.hard_limit_hit;
      patch_bytes = s.patch_bytes + utf8_length patch;
      changed_lines = s.changed_lines + (file.additions + file.deletions);
      anchor_index = s.anchor_index + length file_anchors;
      anchors = s.anchors ++ file_anchors;
      analyzed_files = s.analyzed_files ++ file ∷ [];
    }

abbrev hit : LimitsHit → Scan → Scan
hit limits_hit s = record s { limits_hit = limits_hit; hard_limit_hit = true }

unfoldable pub scan_patch : AnalysisLimits → PatchFile → Option Text → Scan → Turn
scan_patch limits file none s = go_on (add_file file s)
scan_patch limits file (some patch) s =
    if ltb limits.maximum_file_patch_bytes (utf8_length patch)
    then go_on (hit (record s.limits_hit { file_patch_bytes = true }) s)
    else if ltb limits.maximum_patch_bytes (s.patch_bytes + utf8_length patch)
    then stop (hit (record s.limits_hit { total_patch_bytes = true }) s)
    else if ltb limits.maximum_changed_lines (s.changed_lines + (file.additions + file.deletions))
    then stop (hit (record s.limits_hit { changed_lines = true }) s)
    else go_on (accept_file file patch s)

unfoldable pub scan_file : AnalysisLimits → PatchFile → Scan → Turn
scan_file limits file s =
    if is_text file.kind then scan_patch limits file file.patch s else go_on (add_file file s)

abbrev pub after_turn : (Scan → Scan) → Turn → Scan
after_turn later (go_on s) = later s
after_turn later (stop s) = s

unfoldable pub scan_files : AnalysisLimits → List PatchFile → Scan → Scan
scan_files limits [] s = s
scan_files limits (file ∷ rest) s = after_turn (scan_files limits rest) (scan_file limits file s)

-- The state before the loop.
unfoldable pub start_scan : Bool → Scan
start_scan too_many = record {
  limits_hit = record {
    file_count = too_many;
    file_patch_bytes = false;
    total_patch_bytes = false;
    changed_lines = false;
  };
  hard_limit_hit = too_many;
  patch_bytes = 0;
  changed_lines = 0;
  anchor_index = 0;
  anchors = [];
  analyzed_files = [];
}

unfoldable pub scan_relevant : AnalysisLimits → List PatchFile → Scan
scan_relevant limits relevant =
    scan_files limits (take limits.maximum_files relevant)
      (start_scan (ltb limits.maximum_files (length relevant)))

unfoldable pub classify : RiskVector → ℕ → ℕ → Bool → RiskLevel
classify v files changed_lines hard_limit_hit =
    if hard_limit_hit || leb 80 files || leb 5000 changed_lines
    then mega
    else if leb 4 v.sensitive_surface || leb 4 v.migration || leb 4 v.concurrency
    then high_risk
    else if leb 2 files || leb 80 changed_lines || leb 5 v.total
    then medium
    else small

-- `riskLevel`, of the vector and what was scanned
unfoldable pub risk_level_of : AnalysisLimits → List PatchFile → RiskVector → RiskLevel
risk_level_of limits relevant v =
    let s = scan_relevant limits relevant in
    classify v (length relevant) s.changed_lines
      (s.hard_limit_hit || leb limits.mega_file_threshold (length relevant))
