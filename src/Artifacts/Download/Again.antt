-- ===== src/Artifacts/Download/Again.antt =====
-- An artifact that is installed is not downloaded again.
use voxedge.Base.{All, ◌≡◌, refl, ◌∙◌, List, [], ◌∷◌, ◌++◌, map, append-nil, append_assoc}
use voxedge.Artifacts.Result.{ok}
use voxedge.Artifacts.Manifest.{ArtifactFile, rel_path}
use voxedge.Artifacts.Download.{
  Files, Host, ArtifactInstallResult, dest_of, Source, resolve_one, resolve_all,
}
use voxedge.Artifacts.Download.Installed.{IsInstalled}

module _ {P C : Type 0} (h : Host P C) where
  -- Where every file is there with its declared digest, resolving calls no downloader, changes no file,
  -- and records every path as skipped.
  pub resolve_all-again :
      (s : Source h) (items : List ArtifactFile) (r : ArtifactInstallResult P) (fs : Files P C)
      → All (IsInstalled h fs) items
      → resolve_all h s items r fs ≡ (
        ok (record r {
          files = r.files ++ map (dest_of h) items;
          skipped = r.skipped ++ map rel_path items;
        }),
        fs,
      )
  unfolding resolve_all resolve_one
  resolve_all-again s [] r fs a = rw (append-nil r.files, append-nil r.skipped) refl
  resolve_all-again s (item ∷ items) r fs a = rw a.0 (
      resolve_all-again s items _ fs a.1
      ∙ rw
          (
            append_assoc r.files (dest_of h item ∷ []) (map (dest_of h) items),
            append_assoc r.skipped (rel_path item ∷ []) (map rel_path items),
          )
          refl)
