-- ===== src/Analysis/Scan/Turns.antt =====
-- The turns of the loop over the files, and what they keep.
use understandproof.Base.{
  ◌+◌, ◌≤◌, ◌≡◌, inl, inr, refl, sym, subst, Bool, true, List, [], ◌∷◌, ◌++◌, append_assoc,
  append-nil, Option, none, some, Text, arith, length, All, ltb, Bool-cases,
}
use understandproof.Analysis.{
  FileKind, text_file, binary, symlink, has_patch, PatchFile, AnalysisLimits, is_patch_file,
}
use understandproof.Analysis.Hunks.{is_text}
use understandproof.Analysis.Hunks.Anchors.{NumberedFrom}
use understandproof.Analysis.Scan.{
  utf8_length, Scan, Turn, go_on, stop, accept_file, scan_patch, scan_file, after_turn, scan_files,
  start_scan,
}
use understandproof.Analysis.Scan.Within.{Within, add_file-Within, accept_file-Within}
use understandproof.Analysis.Scan.Coverage.{Covers, add-Covers, skip-Covers, stopped-Covers}

text_has_patch :
    (kind : FileKind) (given : Option Text)
    → has_patch kind given ≡ true
    → is_text kind ≡ true
    → (patch : Text) × (given ≡ some patch)
text_has_patch text_file (some patch) h text_like = (patch, refl)
text_has_patch text_file none h text_like = absurd (ground (arith, h))
text_has_patch binary given h text_like = absurd (ground (arith, text_like))
text_has_patch symlink given h text_like = absurd (ground (arith, text_like))

patch_of_text :
    (file : PatchFile)
    → is_patch_file file ≡ true
    → is_text file.kind ≡ true
    → (patch : Text) × (file.patch ≡ some patch)
unfolding is_patch_file
patch_of_text file accepted text_like =
    text_has_patch file.kind file.patch (ground (arith, accepted)) text_like

path-bounds :
    (file : PatchFile)
    → is_patch_file file ≡ true
    → (1 ≤ length file.path) × (length file.path ≤ 1024)
unfolding is_patch_file
path-bounds file accepted = (ground (arith, accepted), ground (arith, accepted))

module _ (limits : AnalysisLimits) (too_many : Bool) where
  -- What holds of a state when some files were looked at.
  abbrev pub Kept : List PatchFile → Scan → Type 0
  Kept seen s = Within limits s × Covers too_many s.hard_limit_hit s.analyzed_files seen

  abbrev TurnKept : List PatchFile → Turn → Type 0
  TurnKept seen (go_on s) = Kept seen s
  TurnKept seen (stop s) = Kept seen s × (s.hard_limit_hit ≡ true)

  scan_patch-TurnKept :
      (file : PatchFile) (patch : Text) (seen : List PatchFile) (s : Scan)
      → is_text file.kind ≡ true
      → file.patch ≡ some patch
      → (1 ≤ length file.path) × (length file.path ≤ 1024)
      → Kept seen s
      → TurnKept (seen ++ file ∷ []) (scan_patch limits file (some patch) s)
  unfolding scan_patch accept_file
  scan_patch-TurnKept file patch seen s text_like given named (h, c) =
      let bytes = utf8_length patch in
      let missed =
        skip-Covers too_many s.hard_limit_hit s.analyzed_files seen (file ∷ []) (omega arith) c in
      elim (Bool-cases (ltb limits.maximum_file_patch_bytes bytes)) [
        | inl too_long ↦ rw too_long (h, missed)
        | inr fits ↦ elim (Bool-cases (ltb limits.maximum_patch_bytes (s.patch_bytes + bytes))) [
          | inl too_much ↦ rw (fits, too_much) ((h, missed), refl)
          | inr bytes_fit ↦
              elim (Bool-cases (
                ltb limits.maximum_changed_lines
                  (s.changed_lines + (file.additions + file.deletions)))) [
                    | inl too_many_lines ↦ rw (fits, bytes_fit, too_many_lines) ((h, missed), refl)
                    | inr lines_fit ↦
                        rw (fits, bytes_fit, lines_fit)
                          (
                            accept_file-Within limits file patch s text_like given named
                                (ground (arith, fits)) (ground (arith, bytes_fit))
                                (ground (arith, lines_fit)) h,
                            add-Covers too_many s.hard_limit_hit s.analyzed_files seen file c,
                          )
                  ]
        ]
      ]

  scan_file-TurnKept :
      (file : PatchFile) (seen : List PatchFile) (s : Scan)
      → is_patch_file file ≡ true
      → Kept seen s
      → TurnKept (seen ++ file ∷ []) (scan_file limits file s)
  unfolding scan_file
  scan_file-TurnKept file seen s accepted (h, c) = elim (Bool-cases (is_text file.kind)) [
    | inr metadata ↦ rw metadata (
      add_file-Within limits file s metadata h,
      add-Covers too_many s.hard_limit_hit s.analyzed_files seen file c,
    )
    | inl text_like ↦
        let (patch, given) = patch_of_text file accepted text_like in
        rw text_like (
          subst (λ p. TurnKept (seen ++ file ∷ []) (scan_patch limits file p s)) (sym given)
            (scan_patch-TurnKept file patch seen s text_like given (path-bounds file accepted)
              (h, c)))
  ]

  after_turn-Kept :
      (later : Scan → Scan) (turn : Turn) (seen rest : List PatchFile)
      → ((s : Scan) → Kept seen s → Kept (seen ++ rest) (later s))
      → TurnKept seen turn
      → Kept (seen ++ rest) (after_turn later turn)
  after_turn-Kept later (go_on s) seen rest step kept = step s kept
  after_turn-Kept later (stop s) seen rest step ((h, c), stopped) =
      (h, stopped-Covers too_many s.hard_limit_hit s.analyzed_files seen rest stopped c)

  pub scan_files-Kept :
      (files seen : List PatchFile) (s : Scan)
      → All (λ f. is_patch_file f ≡ true) files
      → Kept seen s
      → Kept (seen ++ files) (scan_files limits files s)
  unfolding scan_files
  scan_files-Kept [] seen s accepted kept = subst (λ all. Kept all s) (sym (append-nil seen)) kept
  scan_files-Kept (file ∷ rest) seen s accepted kept =
      subst (λ all. Kept all (scan_files limits (file ∷ rest) s))
        (append_assoc seen (file ∷ []) rest)
        (after_turn-Kept (scan_files limits rest) (scan_file limits file s) (seen ++ file ∷ []) rest
          (λ t k. scan_files-Kept rest (seen ++ file ∷ []) t accepted.1 k)
          (scan_file-TurnKept file seen s accepted.0 kept))

  pub start_scan-Kept : Kept [] (start_scan too_many)
  unfolding start_scan NumberedFrom
  start_scan-Kept = (
    record {
      counts_bytes = refl;
      bytes_bounded = omega arith;
      each_bounded = tt;
      counts_lines = refl;
      lines_bounded = omega arith;
      counts_anchors = refl;
      numbered = tt;
      valid = tt;
    },
    record { all_read = λ e. refl; stays = λ e. e; missed = λ e. inl e; size = omega arith },
  )
