-- ===== src/Analysis/Scan/Within.antt =====
-- What the analysis has read so far, and its limits.
use understandproof.Base.{
  ℕ, ◌+◌, ◌≤◌, ◌≡◌, refl, subst, true, false, List, [], ◌∷◌, ◌++◌, Option, none, some, Text, arith,
  length, length-append, All, All-append, if◌then◌else◌,
}
use understandproof.Analysis.{PatchFile, AnalysisLimits}
use understandproof.Analysis.Hunks.{is_text, parse_anchors}
use understandproof.Analysis.Hunks.Anchors.{
  NumberedFrom, NumberedFrom-append, IsValid, parse_anchors-Listed,
}
use understandproof.Analysis.Scan.{utf8_length, Scan, add_file, accept_file}
use understandproof.Questions.{DiffAnchor}

abbrev patch_length : Option Text → ℕ
patch_length none = 0
patch_length (some patch) = utf8_length patch

-- What a file that was read counts.
abbrev pub bytes_of : PatchFile → ℕ
bytes_of file = if is_text file.kind then patch_length file.patch else 0

abbrev pub lines_of : PatchFile → ℕ
lines_of file = if is_text file.kind then file.additions + file.deletions else 0

abbrev pub total : (PatchFile → ℕ) → List PatchFile → ℕ
total count [] = 0
total count (file ∷ rest) = count file + total count rest

total-append :
    (count : PatchFile → ℕ) (left : List PatchFile) (file : PatchFile)
    → total count (left ++ file ∷ []) ≡ total count left + count file
total-append count [] file = omega arith
total-append count (first ∷ left) file = omega (arith, total-append count left file)

module _ (limits : AnalysisLimits) where
  -- What was read so far stays within the limits.
  pub record IsWithin (bytes lines index : ℕ) (anchors : List DiffAnchor) (files : List PatchFile)
      : Type 0 where
    pub counts_bytes : bytes ≡ total bytes_of files
    pub bytes_bounded : bytes ≤ limits.maximum_patch_bytes
    pub each_bounded : All (λ f. bytes_of f ≤ limits.maximum_file_patch_bytes) files
    pub counts_lines : lines ≡ total lines_of files
    pub lines_bounded : lines ≤ limits.maximum_changed_lines
    pub counts_anchors : index ≡ length anchors
    pub numbered : NumberedFrom 0 anchors
    pub valid : All IsValid anchors

  abbrev pub Within : Scan → Type 0
  Within s = IsWithin s.patch_bytes s.changed_lines s.anchor_index s.anchors s.analyzed_files

  pub add_file-Within :
      (file : PatchFile) (s : Scan)
      → is_text file.kind ≡ false
      → Within s
      → Within (add_file file s)
  add_file-Within file s metadata h =
      let counts_nothing : bytes_of file ≡ 0 = rw metadata refl in
      let changes_nothing : lines_of file ≡ 0 = rw metadata refl in
      record {
        counts_bytes =
            omega
              (arith, h.counts_bytes, total-append bytes_of s.analyzed_files file, counts_nothing);
        bytes_bounded = h.bytes_bounded;
        each_bounded =
            All-append _ s.analyzed_files _ h.each_bounded (omega (arith, counts_nothing), tt);
        counts_lines =
            omega
              (arith, h.counts_lines, total-append lines_of s.analyzed_files file, changes_nothing);
        lines_bounded = h.lines_bounded;
        counts_anchors = h.counts_anchors;
        numbered = h.numbered;
        valid = h.valid;
      }

  pub accept_file-Within :
      (file : PatchFile) (patch : Text) (s : Scan)
      → is_text file.kind ≡ true
      → file.patch ≡ some patch
      → (1 ≤ length file.path) × (length file.path ≤ 1024)
      → utf8_length patch ≤ limits.maximum_file_patch_bytes
      → s.patch_bytes + utf8_length patch ≤ limits.maximum_patch_bytes
      → s.changed_lines + (file.additions + file.deletions) ≤ limits.maximum_changed_lines
      → Within s
      → Within (accept_file file patch s)
  unfolding accept_file
  accept_file-Within file patch s text_like given named fits bytes_fit lines_fit h =
      let counts : bytes_of file ≡ utf8_length patch = rw (text_like, given) refl in
      let changes : lines_of file ≡ file.additions + file.deletions = rw text_like refl in
      let listed = parse_anchors-Listed file s.anchor_index named in
      record {
        counts_bytes =
            omega (arith, h.counts_bytes, total-append bytes_of s.analyzed_files file, counts);
        bytes_bounded = bytes_fit;
        each_bounded =
            All-append _ s.analyzed_files _ h.each_bounded (omega (arith, counts, fits), tt);
        counts_lines =
            omega (arith, h.counts_lines, total-append lines_of s.analyzed_files file, changes);
        lines_bounded = lines_fit;
        counts_anchors =
            omega (
              arith,
              h.counts_anchors,
              length-append s.anchors (parse_anchors file s.anchor_index),
            );
        numbered = NumberedFrom-append 0 s.anchors (parse_anchors file s.anchor_index) h.numbered (
            subst (λ n. NumberedFrom n (parse_anchors file s.anchor_index)) {x = s.anchor_index}
              {y = 0 + length s.anchors} (omega (arith, h.counts_anchors)) listed.0);
        valid = All-append IsValid s.anchors _ h.valid listed.1;
      }
