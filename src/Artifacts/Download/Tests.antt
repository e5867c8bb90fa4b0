-- ===== src/Artifacts/Download/Tests.antt =====
-- Two files: one is there, and the other is downloaded. A path and a content are texts, and the digest
-- of a content is the content.
use voxedge.Base.{ℕ, ◌≡◌, refl, Bool, false, none, some, [], ◌∷◌, if◌then◌else◌, ◌==◌}
use voxedge.Text.Strip.{Text, lstrip}
use voxedge.Text.Equality.{same_text, same_text_refl}
use voxedge.Artifacts.Result.{ok}
use voxedge.Artifacts.Json.{null, number, end}
use voxedge.Artifacts.Manifest.{ArtifactFile, ArtifactSpec, ArtifactManifest, rel_path, get}
use voxedge.Artifacts.Download.{
  Files, done, DownloadFn, Host, write, find_artifact, manifest_from, fresh_result, dest_of,
  resolve_artifact,
}
use voxedge.Artifacts.Download.Installed.{Resolved}
use voxedge.Artifacts.Download.Resolved.{resolve_artifact-Resolved}

abbrev disk : Host Text Text
disk = record { join = λ t. t; same_path = same_text; sha256 = λ c. c }

abbrev engine : ArtifactFile
engine = record { path = 101 ∷ []; sha256 = 49 ∷ []; source_path = 101 ∷ []; size_bytes = null }

abbrev style : ArtifactFile
style = record { path = 115 ∷ []; sha256 = 50 ∷ []; source_path = 115 ∷ []; size_bytes = null }

abbrev pack : ArtifactSpec
pack = record {
  artifact_ref = 112 ∷ [];
  file_list = engine ∷ style ∷ [];
  backend_key = [];
  device = [];
  precision = [];
  hf_repo = 114 ∷ [];
  revision = [];
  sha256 = [];
  runtime_contract = end;
}

abbrev packs : ArtifactManifest
packs = record {
  schema_version = number (49 ∷ []);
  artifacts = (112 ∷ [], pack) ∷ [];
  hf_endpoint = [];
}

-- Every download gives the content "2".
abbrev fetch : DownloadFn Text Text
fetch repo revision source dest endpoint fs = (done, write disk dest (50 ∷ []) fs)

abbrev engine_only : Files Text Text
engine_only p = if same_text p (101 ∷ []) then some (49 ∷ []) else none

fetch_others :
    (repo revision source : Text) (dest : Text) (endpoint : Text) (fs : Files Text Text) (p : Text)
    → Unit {0}
    → same_text p dest ≡ false
    → (fetch repo revision source dest endpoint fs).1 p ≡ fs p
unfolding write
fetch_others repo revision source dest endpoint fs p o e = rw e refl

packs-found : find_artifact (112 ∷ []) (some packs) none ≡ ok (packs, pack)
unfolding find_artifact manifest_from get same_text
packs-found = refl

paths-distinct :
    (same_text (dest_of disk engine) (dest_of disk style) ≡ false)
    × (same_text (dest_of disk style) (dest_of disk engine) ≡ false)
unfolding rel_path lstrip same_text
paths-distinct = (refl, refl)

abbrev is_blank : ℕ → Bool
is_blank c = c == 32

resolve_artifact-Resolved_example :
    Resolved disk pack.file_list engine_only (fresh_result disk (112 ∷ [])) (
      resolve_artifact disk is_blank
        (112 ∷ [])
        (some packs)
        none
        none
        none
        (some fetch)
        none
        engine_only)
resolve_artifact-Resolved_example =
    resolve_artifact-Resolved disk (λ _. Unit {0}) is_blank (112 ∷ []) (some packs) none none none
      (some fetch) none engine_only packs pack same_text_refl fetch_others packs-found
      (tt, (tt, tt)) ((paths-distinct, tt), (tt, tt))
