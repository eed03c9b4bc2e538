-- ===== src/Analysis/Scan/Coverage.antt =====
-- Which of the files that were looked at were read.
use understandproof.Base.{
  ◌≤◌, ◌<◌, ◌≡◌, ◌⊎◌, inl, inr, refl, ap, Bool, true, false, List, [], ◌∷◌, ◌++◌, arith, length,
  length-append,
}
use understandproof.Analysis.{PatchFile}

-- The files that were read are all of those that were looked at, unless a limit was hit.
pub record Covers (too_many hard_limit_hit : Bool) (files seen : List PatchFile) : Type 0 where
  pub all_read : hard_limit_hit ≡ false → files ≡ seen
  pub stays : too_many ≡ true → hard_limit_hit ≡ true
  pub missed : hard_limit_hit ≡ true → (too_many ≡ true) ⊎ (length files < length seen)
  pub size : length files ≤ length seen

module _ (too_many : Bool) where
  pub add-Covers :
      (hard : Bool) (files seen : List PatchFile) (file : PatchFile)
      → Covers too_many hard files seen
      → Covers too_many hard (files ++ file ∷ []) (seen ++ file ∷ [])
  add-Covers hard files seen file c =
      let left = length-append files (file ∷ []) in
      let right = length-append seen (file ∷ []) in
      record {
        all_read = λ e. ap (λ xs. xs ++ file ∷ []) (c.all_read e);
        stays = c.stays;
        missed = λ e. elim (c.missed e) [
          | inl excess ↦ inl excess
          | inr fewer ↦ inr (omega (arith, fewer, left, right))
        ];
        size = omega (arith, c.size, left, right);
      }

  pub skip-Covers :
      (hard : Bool) (files seen more : List PatchFile)
      → 1 ≤ length more
      → Covers too_many hard files seen
      → Covers too_many true files (seen ++ more)
  skip-Covers hard files seen more some_more c =
      let longer = length-append seen more in
      record {
        all_read = λ e. absurd (ground (arith, e));
        stays = λ e. refl;
        missed = λ e. inr (omega (arith, c.size, longer, some_more));
        size = omega (arith, c.size, longer);
      }

  pub stopped-Covers :
      (hard : Bool) (files seen rest : List PatchFile)
      → hard ≡ true
      → Covers too_many hard files seen
      → Covers too_many hard files (seen ++ rest)
  stopped-Covers hard files seen rest stopped c =
      let longer = length-append seen rest in
      record {
        all_read = λ e. absurd (ground (arith, stopped, e));
        stays = c.stays;
        missed = λ e. elim (c.missed e) [
          | inl excess ↦ inl excess
          | inr fewer ↦ inr (omega (arith, fewer, longer))
        ];
        size = omega (arith, c.size, longer);
      }
