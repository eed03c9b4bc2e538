-- ===== src/Analysis/Scan/Bounded.antt =====
-- What the analysis has read when it is done: no more than its limits allow, and all of the relevant files if
-- it says that it met no limit.
use understandproof.Base.{
  ℕ, zero, suc, ◌≤◌, ◌≡◌, ◌↔◌, ◌⊎◌, inl, inr, refl, ap, ◌∙◌, true, false, List, [], ◌∷◌, arith,
  length, length-take, take, every, every→All, ltb, Bool-cases,
}
use understandproof.Analysis.{PatchFile, AnalysisLimits, is_patch_file}
use understandproof.Analysis.Scan.{Scan, start_scan, scan_relevant, classify, risk_level_of}
use understandproof.Questions.{mega, RiskVector}
use understandproof.Questions.Planner.Plans.{take-All}
use understandproof.Analysis.Scan.Within.{IsWithin}
use understandproof.Analysis.Scan.Coverage.{Covers}
use understandproof.Analysis.Scan.Turns.{Kept, scan_files-Kept, start_scan-Kept}

take_all : {A : Type 0} (n : ℕ) (xs : List A) → length xs ≤ n → take n xs ≡ xs
take_all zero [] h = refl
take_all zero (x ∷ xs) h = absurd (omega (arith, h))
take_all (suc n) [] h = refl
take_all (suc n) (x ∷ xs) h = ap (λ rest. x ∷ rest) (take_all n xs (omega (arith, h)))

-- What the analysis of the relevant files keeps to.
pub record IsBoundedScan (limits : AnalysisLimits) (relevant : List PatchFile) (s : Scan)
    : Type 0 where
  pub within :
      IsWithin limits s.patch_bytes s.changed_lines s.anchor_index s.anchors s.analyzed_files
  pub files_bounded : length s.analyzed_files ≤ limits.maximum_files
  pub complete : (s.hard_limit_hit ≡ false) ↔ (s.analyzed_files ≡ relevant)
  pub mega_unless_complete :
      (s.analyzed_files ≡ relevant) ⊎ ((v : RiskVector) → risk_level_of limits relevant v ≡ mega)

module _ (limits : AnalysisLimits) (relevant : List PatchFile) where
  Covers→complete :
      (s : Scan)
      → Covers
          (ltb limits.maximum_files (length relevant))
          s.hard_limit_hit
          s.analyzed_files
          (take limits.maximum_files relevant)
      → (s.hard_limit_hit ≡ false) ↔ (s.analyzed_files ≡ relevant)
  Covers→complete s c =
      let taken = length-take limits.maximum_files relevant in
      (
        λ e.
            c.all_read e
            ∙ take_all limits.maximum_files relevant
                (elim (Bool-cases (ltb limits.maximum_files (length relevant))) [
                  | inl excess ↦ absurd (ground (arith, c.stays excess, e))
                  | inr few ↦ ground (arith, few)
                ]),
        λ e. elim (Bool-cases s.hard_limit_hit) [
          | inr none_hit ↦ none_hit
          | inl some_hit ↦ elim (c.missed some_hit) [
            | inl excess ↦ absurd (ground (arith, excess, ap length e, c.size, taken))
            | inr fewer ↦ absurd (omega (arith, fewer, ap length e, taken))
          ]
        ],
      )

  hit-mega :
      (v : RiskVector)
      → (scan_relevant limits relevant).hard_limit_hit ≡ true
      → risk_level_of limits relevant v ≡ mega
  unfolding risk_level_of classify
  hit-mega v e = rw e refl

  scan_relevant-Kept :
      every is_patch_file relevant ≡ true
      → Kept limits
          (ltb limits.maximum_files (length relevant))
          (take limits.maximum_files relevant)
          (scan_relevant limits relevant)
  unfolding scan_relevant
  scan_relevant-Kept accepted =
      let too_many = ltb limits.maximum_files (length relevant) in
      scan_files-Kept limits too_many (take limits.maximum_files relevant) [] (start_scan too_many)
        (take-All _ limits.maximum_files relevant (every→All is_patch_file relevant accepted))
        (start_scan-Kept limits too_many)

  -- Of files that the schema accepts, the analysis reads at most as many as its limits allow, with at most as
  -- many bytes of patches, in all and in each file, and at most as many changed lines. The anchors are numbered
  -- from 0, and their schema accepts each. All of the files were read exactly if no hard limit was hit, and if
  -- not all were read, the change is classified as mega.
  pub scan_relevant-IsBoundedScan :
      every is_patch_file relevant ≡ true
      → IsBoundedScan limits relevant (scan_relevant limits relevant)
  scan_relevant-IsBoundedScan accepted =
      let too_many = ltb limits.maximum_files (length relevant) in
      let s = scan_relevant limits relevant in
      let kept = scan_relevant-Kept accepted in
      let complete = Covers→complete s kept.1 in
      record {
        within = kept.0;
        files_bounded = omega (arith, kept.1.size, length-take limits.maximum_files relevant);
        complete = complete;
        mega_unless_complete = elim (Bool-cases s.hard_limit_hit) [
          | inl some_hit ↦ inr (λ v. hit-mega v some_hit)
          | inr none_hit ↦ inl (complete.0 none_hit)
        ];
      }
