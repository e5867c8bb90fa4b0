-- ===== src/Artifacts/Download/Resolved.antt =====
-- The files of an artifact that `resolve_artifact` finds.
use voxedge.Base.{ℕ, All, Bool, ◌≡◌, true, false, Option}
use voxedge.Text.Strip.{Text}
use voxedge.Artifacts.Result.{Result, ok}
use voxedge.Artifacts.Manifest.{ArtifactManifest, ArtifactSpec}
use voxedge.Artifacts.Download.{
  Files, DownloadFn, Host, dest_of, Hub, downloader, source_of, fresh_result, find_artifact,
  resolve_found, resolve_artifact,
}
use voxedge.Artifacts.Download.Installed.{Distinct, Resolved, resolve_all-Resolved}

module _ {P C : Type 0} (h : Host P C) where
  -- An artifact is found, the destinations of its files are different paths, and the downloader changes
  -- no other of them. Without an error every file is there with its declared digest; the paths are
  -- listed in order, and recorded as skipped where the file was right before and as installed where it
  -- was not. With an error every file before the one that the error is about is there with its declared
  -- digest, and a download with a wrong digest is removed.
  pub resolve_artifact-Resolved :
      (Own : P → Type 0) (blank : ℕ → Bool) (ref : Text) (given : Option ArtifactManifest)
      (loaded : Option (Result ArtifactManifest)) (hf_endpoint env : Option Text)
      (download_fn : Option (DownloadFn P C)) (hub : Option (Hub h)) (fs : Files P C)
      (m : ArtifactManifest) (spec : ArtifactSpec)
      → ((p : P) → h.same_path p p ≡ true)
      → ((repo revision source : Text) (dest : P) (endpoint : Text) (fs' : Files P C) (p : P)
          → Own p
          → h.same_path p dest ≡ false
          → (downloader h download_fn hub repo revision source dest endpoint fs').1 p ≡ fs' p)
      → find_artifact ref given loaded ≡ ok (m, spec)
      → All (λ b. Own (dest_of h b)) spec.file_list
      → Distinct h spec.file_list
      → Resolved h spec.file_list fs
          (fresh_result h ref)
          (resolve_artifact h blank ref given loaded hf_endpoint env download_fn hub fs)
  unfolding resolve_artifact resolve_found source_of
  resolve_artifact-Resolved Own blank ref given loaded hf_endpoint env download_fn hub fs m spec r k
        e o d =
      rw e (
        resolve_all-Resolved h Own
          (source_of h blank hf_endpoint env (downloader h download_fn hub) m spec) r k
          spec.file_list (fresh_result h ref) fs o d)
