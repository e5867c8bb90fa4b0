-- ===== src/Artifacts/Download.antt =====
-- artifacts/download.py. A file system is a function from paths to the contents of files; directories
-- are left out. The root of the installation is part of `join`.
pub mod Installed
pub mod Resolved
pub mod Again
mod Tests
use voxedge.Base.{
  ℕ, Bool, not, true, false, Option, none, some, List, [], ◌∷◌, ◌++◌, is_empty, ◌==◌, if◌then◌else◌,
}
use voxedge.Text.Strip.{Text, strip, rstrip}
use voxedge.Text.Equality.{same_text}
use voxedge.Artifacts.Result.{
  Error, no_manifest, absent, downloader_error, download_failed, not_written, sha256_mismatch,
  Result, ok, err, ◌>>=◌,
}
use voxedge.Artifacts.Json.{Json, Python}
use voxedge.Artifacts.Manifest.{
  ArtifactFile, ArtifactSpec, ArtifactManifest, is_slash, rel_path, source_rel, get, load_manifest,
  or_text,
}
use voxedge.Artifacts.Manifest.Keys.{main}

abbrev pub Files : Type 0 → Type 0 → Type 0
Files P C = P → Option C

-- How a downloader ends: it returns, or raises an ArtifactError or another exception.
pub data Fetched : Type 0 where
  done raised_artifact_error raised_other : Fetched

-- `DownloadFn`
abbrev pub DownloadFn : Type 0 → Type 0 → Type 0
DownloadFn P C = Text → Text → Text → P → Text → Files P C → Fetched × Files P C

-- `join` is `install_root / path`; `same_path` is `==` of paths; `sha256` is that of a file's content.
pub record Host (P C : Type 0) : Type 0 where
  pub join : Text → P
  pub same_path : P → P → Bool
  pub sha256 : C → Text

pub record ArtifactInstallResult (P : Type 0) : Type 0 where
  pub artifact_ref : Text
  pub installed : List Text
  pub skipped : List Text
  pub files : List P

-- "https://hf-mirror.com"
abbrev pub default_hf_endpoint : Text
default_hf_endpoint =
    104 ∷ 116 ∷ 116 ∷ 112 ∷ 115 ∷ 58 ∷ 47 ∷ 47 ∷ 104 ∷ 102 ∷ 45 ∷ 109 ∷ 105 ∷ 114 ∷ 114 ∷ 111 ∷ 114
    ∷ 46 ∷ 99 ∷ 111 ∷ 109 ∷ []

module _ (blank : ℕ → Bool) where
  abbrev pub normalized : Option Text → Text
  normalized none = rstrip is_slash (strip blank [])
  normalized (some t) = rstrip is_slash (strip blank t)

  -- The loop of `_select_hf_endpoint`
  unfoldable pub first_endpoint : List (Option Text) → Text
  first_endpoint [] = default_hf_endpoint
  first_endpoint (c ∷ cs) =
      let rest = first_endpoint cs in if is_empty (normalized c) then rest else normalized c

  -- `_select_hf_endpoint`; `env` is the environment's HF_ENDPOINT.
  unfoldable pub select_hf_endpoint : Option Text → Option Text → Option Text → Text
  select_hf_endpoint explicit env manifest_endpoint =
      first_endpoint (explicit ∷ env ∷ manifest_endpoint ∷ some default_hf_endpoint ∷ [])

-- The manifest that is given, or the one at the path that is given; `loaded` is what `load_manifest` makes of it.
unfoldable pub manifest_from :
    Option ArtifactManifest → Option (Result ArtifactManifest) → Result ArtifactManifest
manifest_from (some m) loaded = ok m
manifest_from none none = err no_manifest
manifest_from none (some loaded) = loaded

unfoldable pub find_artifact :
    Text
    → Option ArtifactManifest
    → Option (Result ArtifactManifest)
    → Result (ArtifactManifest × ArtifactSpec)
find_artifact ref given loaded = do m ← manifest_from given loaded; spec ← get ref m; ok (m, spec)

module _ {P C : Type 0} (h : Host P C) where
  -- `dest.unlink(missing_ok=True)`
  unfoldable pub unlink : P → Files P C → Files P C
  unlink dest fs p = if h.same_path p dest then none else fs p

  -- `shutil.copyfile`
  unfoldable pub write : P → C → Files P C → Files P C
  write dest c fs p = if h.same_path p dest then some c else fs p

  -- `hf_hub_download`, where it is installed, gives the path of a file.
  abbrev pub Hub : Type 0
  Hub = Text → Text → Text → Text → Files P C → Option P × Files P C

  abbrev pub copy_file : P → Option C → Files P C → Fetched × Files P C
  copy_file dest none fs = (raised_other, fs)
  copy_file dest (some c) fs = (done, write dest c fs)

  abbrev pub copied : P → Option P × Files P C → Fetched × Files P C
  copied dest (none, fs) = (raised_other, fs)
  copied dest (some src, fs) =
      if h.same_path src dest then (done, fs) else copy_file dest (fs src) fs

  -- `_hf_download`
  unfoldable pub hf_download : Option Hub → DownloadFn P C
  hf_download none repo revision source dest endpoint fs = (raised_artifact_error, fs)
  hf_download (some hub) repo revision source dest endpoint fs =
      copied dest
        (hub repo source (or_text revision main) (or_text endpoint default_hf_endpoint) fs)

  -- A file is there, and its digest is the declared one.
  abbrev pub is_correct : ArtifactFile → Option C → Bool
  is_correct item none = false
  is_correct item (some c) = same_text (h.sha256 c) item.sha256

  abbrev pub dest_of : ArtifactFile → P
  dest_of item = h.join (rel_path item)

  -- After a download that returned.
  unfoldable pub verify :
      ArtifactFile
      → ArtifactInstallResult P
      → Option C
      → Files P C
      → Result (ArtifactInstallResult P) × Files P C
  verify item result none fs = (err (not_written (rel_path item)), fs)
  verify item result (some c) fs =
      if same_text (h.sha256 c) item.sha256
      then (ok (record result { installed = result.installed ++ (rel_path item ∷ []) }), fs)
      else (err (sha256_mismatch (rel_path item)), unlink (dest_of item) fs)

  unfoldable pub downloaded :
      ArtifactFile
      → ArtifactInstallResult P
      → Fetched × Files P C
      → Result (ArtifactInstallResult P) × Files P C
  downloaded item result (raised_artifact_error, fs) = (err (downloader_error (rel_path item)), fs)
  downloaded item result (raised_other, fs) = (err (download_failed (rel_path item)), fs)
  downloaded item result (done, fs) = verify item result (fs (dest_of item)) fs

  -- The arguments of `_resolve_one` that are the same for every file of an artifact.
  pub record Source : Type 0 where
    pub repo_id : Text
    pub revision : Text
    pub endpoint : Text
    pub download_fn : DownloadFn P C

  unfoldable pub resolve_one :
      Source
      → ArtifactFile
      → ArtifactInstallResult P
      → Files P C
      → Result (ArtifactInstallResult P) × Files P C
  resolve_one s item result fs =
      let dest = dest_of item in
      let noted : ArtifactInstallResult P = record result { files = result.files ++ (dest ∷ []) } in
      if is_correct item (fs dest)
      then (ok (record noted { skipped = result.skipped ++ (rel_path item ∷ []) }), fs)
      else if is_empty s.repo_id
      then (err (absent (rel_path item)), fs)
      else downloaded item noted
          (s.download_fn s.repo_id s.revision (source_rel item) dest s.endpoint fs)

  abbrev pub and_then :
      {A B : Type 0}
      → (A → Files P C → Result B × Files P C)
      → Result A × Files P C
      → Result B × Files P C
  and_then f (ok r, fs) = f r fs
  and_then f (err e, fs) = (err e, fs)

  -- The loop of `resolve_artifact`
  unfoldable pub resolve_all :
      Source
      → List ArtifactFile
      → ArtifactInstallResult P
      → Files P C
      → Result (ArtifactInstallResult P) × Files P C
  resolve_all s [] result fs = (ok result, fs)
  resolve_all s (item ∷ items) result fs =
      and_then (λ r fs'. resolve_all s items r fs') (resolve_one s item result fs)

  abbrev pub fresh_result : Text → ArtifactInstallResult P
  fresh_result ref = record { artifact_ref = ref; installed = []; skipped = []; files = [] }

  abbrev pub downloader : Option (DownloadFn P C) → Option Hub → DownloadFn P C
  downloader none hub = hf_download hub
  downloader (some dl) hub = dl

  unfoldable pub source_of :
      (ℕ → Bool)
      → Option Text
      → Option Text
      → DownloadFn P C
      → ArtifactManifest
      → ArtifactSpec
      → Source
  source_of blank hf_endpoint env dl m spec = record {
    repo_id = spec.hf_repo;
    revision = or_text spec.revision main;
    endpoint = select_hf_endpoint blank hf_endpoint env (some m.hf_endpoint);
    download_fn = dl;
  }

  -- With the manifest and the specification that were found.
  unfoldable pub resolve_found :
      Text
      → (ArtifactManifest → ArtifactSpec → Source)
      → Result (ArtifactManifest × ArtifactSpec)
      → Files P C
      → Result (ArtifactInstallResult P) × Files P C
  resolve_found ref source (err e) fs = (err e, fs)
  resolve_found ref source (ok (m, spec)) fs =
      resolve_all (source m spec) spec.file_list (fresh_result ref) fs

  -- `env` is the environment's HF_ENDPOINT, and `hub` what `_hf_download` imports.
  unfoldable pub resolve_artifact :
      (ℕ → Bool)
      → Text
      → Option ArtifactManifest
      → Option (Result ArtifactManifest)
      → Option Text
      → Option Text
      → Option (DownloadFn P C)
      → Option Hub
      → Files P C
      → Result (ArtifactInstallResult P) × Files P C
  resolve_artifact blank ref given loaded hf_endpoint env download_fn hub fs =
      resolve_found ref (source_of blank hf_endpoint env (downloader download_fn hub))
        (find_artifact ref given loaded) fs
