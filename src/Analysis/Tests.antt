-- ===== src/Analysis/Tests.antt =====
-- A patch of two files that is analysed, and the theorem at it.
use understandproof.Base.{
  ℕ, Text, ◌≡◌, refl, true, List, [], ◌∷◌, ◌++◌, map, none, some, Text-discrete, text, trim, every,
}
use understandproof.Media.Canonical.{decimal}
use understandproof.Analysis.{PatchFile, AnalysisLimits, text_file, binary, is_patch_file}
use understandproof.Analysis.Hunks.{
  read_hunk, split_lines, is_change, compact_evidence, anchor_of, flush, on_line, parse_lines,
  parse_anchors,
}
use understandproof.Analysis.Scan.{
  utf8_length, accept_file, scan_patch, scan_file, scan_files, start_scan, scan_relevant,
}
use understandproof.Analysis.Scan.Bounded.{IsBoundedScan, scan_relevant-IsBoundedScan}

abbrev limits : AnalysisLimits
limits = record {
  maximum_files = 3;
  maximum_patch_bytes = 60;
  maximum_file_patch_bytes = 512;
  maximum_changed_lines = 10;
  mega_file_threshold = 10;
}

abbrev two_hunks : PatchFile
two_hunks = record {
  path = text "a.ts";
  kind = text_file;
  patch = some (
      text "@@ -1,2 +1 @@ f"
      ++ 10 ∷ text "+x"
      ++ 10 ∷ text "-y"
      ++ 10 ∷ text "@@ -9 +8 @@"
      ++ 10 ∷ text " same");
  additions = 1;
  deletions = 1;
}

abbrev image : PatchFile
image = record { path = text "a.png"; kind = binary; patch = none; additions = 0; deletions = 0 }

abbrev files : List PatchFile
files = two_hunks ∷ image ∷ two_hunks ∷ []

runs : Unit {0}
unfolding Text-discrete trim decimal is_patch_file read_hunk split_lines is_change compact_evidence
    anchor_of flush on_line parse_lines parse_anchors utf8_length accept_file scan_patch scan_file
    scan_files start_scan scan_relevant
runs = tt

-- The second hunk changes nothing, and has no anchor.
one_anchor :
    map {B = Text × ℕ} (λ a. (a.id, a.changed_lines)) (parse_anchors two_hunks 4)
    ≡ (text "a4", 2) ∷ []
unfolding runs
one_anchor = refl

-- The third file would exceed the bytes of all patches.
stops : (scan_relevant limits files).analyzed_files ≡ two_hunks ∷ image ∷ []
unfolding runs
stops = refl

accepts : every is_patch_file files ≡ true
unfolding runs
accepts = refl

scan_relevant-IsBoundedScan_example : IsBoundedScan limits files (scan_relevant limits files)
scan_relevant-IsBoundedScan_example = scan_relevant-IsBoundedScan limits files accepts
