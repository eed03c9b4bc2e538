-- ===== src/Analysis.antt =====
-- packages/analysis/src: the files of a pull request's patch and the limits of the analysis.
pub mod Hunks
pub mod Scan
mod Tests
use understandproof.Base.{
  ℕ, Bool, true, false, not, ◌&&◌, Option, none, some, Text, length, includes, leb, nat_eq,
}

pub data FileKind : Type 0 where
  text_file binary symlink : FileKind

-- `PatchFile`, without the previous path, which the analysis does not read
pub record PatchFile : Type 0 where
  pub path : Text
  pub kind : FileKind
  pub patch : Option Text
  pub additions : ℕ
  pub deletions : ℕ

pub record AnalysisLimits : Type 0 where
  pub maximum_files : ℕ
  pub maximum_patch_bytes : ℕ
  pub maximum_file_patch_bytes : ℕ
  pub maximum_changed_lines : ℕ
  pub mega_file_threshold : ℕ

abbrev is_missing {ℓ} : {A : Type ℓ} → Option A → Bool
is_missing none = true
is_missing (some a) = false

abbrev pub has_patch : FileKind → Option Text → Bool
has_patch text_file (some patch) = true
has_patch text_file none = false
has_patch binary patch = is_missing patch
has_patch symlink patch = is_missing patch

-- `PatchFileSchema`
unfoldable pub is_patch_file : PatchFile → Bool
is_patch_file f =
    leb 1 (length f.path)
    && leb (length f.path) 1024
    && not (includes f.path 0)
    && has_patch f.kind f.patch
