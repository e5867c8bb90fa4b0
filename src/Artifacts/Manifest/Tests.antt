-- ===== src/Artifacts/Manifest/Tests.antt =====
-- A manifest of one artifact with one file.
use voxedge.Base.{◌≡◌, refl, ◌==◌, true, false, none, [], ◌∷◌}
use voxedge.Text.Strip.{lstrip, rstrip}
use voxedge.Artifacts.Result.{ok, Holds}
use voxedge.Artifacts.Json.{null, number, end, Python}
use voxedge.Artifacts.Manifest.Keys.{main}
use voxedge.Artifacts.Manifest.{ArtifactFile, ArtifactSpec, ArtifactManifest, parse_manifest}
use voxedge.Artifacts.Manifest.Validity.{IsValid, parse_manifest-IsValid}
use voxedge.Artifacts.Manifest.Printing.{manifest_json, parse_manifest-json}

abbrev python : Python
python = record {
  render = λ v. [];
  is_zero = λ n. false;
  is_one = λ n. true;
  as_dict = λ v. none;
  blank = λ c. c == 32;
}

abbrev voice : ArtifactFile
voice = record {
  path = 118 ∷ [];
  sha256 = 97 ∷ 98 ∷ [];
  source_path = 47 ∷ 118 ∷ [];
  size_bytes = null;
}

abbrev pack : ArtifactSpec
pack = record {
  artifact_ref = 112 ∷ [];
  file_list = voice ∷ [];
  backend_key = [];
  device = [];
  precision = [];
  hf_repo = 114 ∷ [];
  revision = main;
  sha256 = [];
  runtime_contract = end;
}

abbrev voices : ArtifactManifest
voices = record {
  schema_version = number (49 ∷ []);
  artifacts = (112 ∷ [], pack) ∷ [];
  hf_endpoint = [];
}

voices-IsValid : IsValid python voices
unfolding lstrip rstrip
voices-IsValid = (refl, refl, ((refl, refl, refl, (((refl, refl), (refl, refl), refl), tt)), tt))

parse_manifest-IsValid_example :
    Holds (IsValid python) (parse_manifest python (manifest_json voices))
parse_manifest-IsValid_example = parse_manifest-IsValid python (manifest_json voices)

parse_manifest-json_example : parse_manifest python (manifest_json voices) ≡ ok voices
parse_manifest-json_example = parse_manifest-json python voices voices-IsValid (refl, tt)
