-- ===== src/Artifacts/Manifest.antt =====
-- artifacts/manifest.py. Device, precision and the other texts of a specification are kept as they
-- are; `size_bytes` is null where it is missing.
pub mod Keys
pub mod Validity
pub mod Printing
mod Tests
use voxedge.Base.{
  ℕ, ◌==◌, Bool, not, ◌&&◌, Option, none, some, List, [], ◌∷◌, is_empty, if◌then◌else◌,
}
use voxedge.Text.Strip.{Text, strip, lstrip}
use voxedge.Text.Equality.{same_text}
use voxedge.Artifacts.Result.{manifest_error, other_error, Result, ok, err, ◌>>=◌, ◌>>◌, require}
use voxedge.Artifacts.Json.{
  Json, null, string, list, object, Items, nil, cons, Fields, end, field, Python, get_or, text_of,
  is_true, value_or, equals_one,
}
use voxedge.Artifacts.Manifest.Keys.{
  schema_version_key, artifacts_key, artifact_ref_key, backend_key_key, device_key, precision_key,
  hf_repo_key, revision_key, sha256_key, runtime_contract_key, file_list_key, path_key,
  source_path_key, size_bytes_key, hf_endpoint_key, main,
}

pub record ArtifactFile : Type 0 where
  pub path : Text
  pub sha256 : Text
  pub source_path : Text
  pub size_bytes : Json

pub record ArtifactSpec : Type 0 where
  pub artifact_ref : Text
  pub file_list : List ArtifactFile
  pub backend_key : Text
  pub device : Text
  pub precision : Text
  pub hf_repo : Text
  pub revision : Text
  pub sha256 : Text
  pub runtime_contract : Fields

pub record ArtifactManifest : Type 0 where
  pub schema_version : Json
  pub artifacts : List (Text × ArtifactSpec)
  pub hf_endpoint : Text

-- "/"
abbrev pub is_slash : ℕ → Bool
is_slash c = c == 47

unfoldable pub rel_path : ArtifactFile → Text
rel_path f = lstrip is_slash f.path

unfoldable pub source_rel : ArtifactFile → Text
source_rel f = lstrip is_slash f.source_path

abbrev pub or_text : Text → Text → Text
or_text [] d = d
or_text (c ∷ cs) d = c ∷ cs

abbrev find_spec : Text → List (Text × ArtifactSpec) → Option ArtifactSpec
find_spec ref [] = none
find_spec ref ((k, spec) ∷ specs) = if same_text k ref then some spec else find_spec ref specs

abbrev found : Option ArtifactSpec → Result ArtifactSpec
found none = err manifest_error
found (some spec) = ok spec

-- `ArtifactManifest.get`
unfoldable pub get : Text → ArtifactManifest → Result ArtifactSpec
get ref m = found (find_spec ref m.artifacts)

-- `str(raw.get(key, "") or "")`
abbrev pub text_or_empty : Python → Text → Fields → Text
text_or_empty py key raw = text_of py (value_or py (get_or (string []) key raw) (string []))

-- `raw.get("file_list")`, which has to be a list that is not empty.
unfoldable pub file_items : Json → Result Items
file_items (list (cons v vs)) = ok (cons v vs)
file_items _ = err manifest_error

-- `data.get("artifacts")`, which has to be a dict that is not empty.
unfoldable pub artifact_fields : Json → Result Fields
artifact_fields (object (field k v fs)) = ok (field k v fs)
artifact_fields _ = err manifest_error

-- `ArtifactSpec.__post_init__`
unfoldable pub make_spec : ArtifactSpec → Result ArtifactSpec
make_spec s = do require (not (is_empty s.artifact_ref)); require (not (is_empty s.file_list)); ok s

module _ (py : Python) where
  -- `ArtifactFile.__post_init__`
  unfoldable pub make_file : ArtifactFile → Result ArtifactFile
  make_file f = do
    require (not (is_empty f.path) && not (is_empty (strip py.blank f.path)))
    require (not (is_empty f.sha256) && not (is_empty (strip py.blank f.sha256)))
    ok (record f { source_path = or_text f.source_path f.path })

  unfoldable pub parse_file : Json → Result ArtifactFile
  parse_file (object raw) = make_file (record {
    path = text_of py (get_or (string []) path_key raw);
    sha256 = text_of py (get_or (string []) sha256_key raw);
    source_path = text_or_empty py source_path_key raw;
    size_bytes = get_or null size_bytes_key raw;
  })
  parse_file _ = err manifest_error

  unfoldable pub parse_files : Items → Result (List ArtifactFile)
  parse_files nil = ok []
  parse_files (cons v vs) = do f ← parse_file v; fs ← parse_files vs; ok (f ∷ fs)

  abbrev pub dict_or_raise : Option Fields → Result Fields
  dict_or_raise none = err other_error
  dict_or_raise (some fs) = ok fs

  -- `dict(v or {})`
  unfoldable pub dict_of : Json → Result Fields
  dict_of (object fs) = ok fs
  dict_of v = if is_true py v then dict_or_raise (py.as_dict v) else ok end

  unfoldable pub spec_of : Text → Fields → List ArtifactFile → Fields → ArtifactSpec
  spec_of ref raw files contract = record {
    artifact_ref = ref;
    file_list = files;
    backend_key = text_or_empty py backend_key_key raw;
    device = text_or_empty py device_key raw;
    precision = text_or_empty py precision_key raw;
    hf_repo = text_or_empty py hf_repo_key raw;
    revision = text_of py (value_or py (get_or (string []) revision_key raw) (string main));
    sha256 = text_or_empty py sha256_key raw;
    runtime_contract = contract;
  }

  unfoldable pub parse_spec : Text → Json → Result ArtifactSpec
  parse_spec ref (object raw) = do
    require (
        same_text (text_of py (value_or py (get_or (string []) artifact_ref_key raw) (string ref)))
          ref)
    items ← file_items (get_or null file_list_key raw)
    files ← parse_files items
    contract ← dict_of (get_or null runtime_contract_key raw)
    make_spec (spec_of ref raw files contract)
  parse_spec ref _ = err manifest_error

  unfoldable pub parse_specs : Fields → Result (List (Text × ArtifactSpec))
  parse_specs end = ok []
  parse_specs (field ref v fs) = do
    spec ← parse_spec ref v
    specs ← parse_specs fs
    ok ((ref, spec) ∷ specs)

  unfoldable pub parse_manifest : Json → Result ArtifactManifest
  parse_manifest (object raw) = do
    require (equals_one py (get_or null schema_version_key raw))
    fields ← artifact_fields (get_or null artifacts_key raw)
    specs ← parse_specs fields
    ok (record {
      schema_version = get_or null schema_version_key raw;
      artifacts = specs;
      hf_endpoint = text_or_empty py hf_endpoint_key raw;
    })
  parse_manifest _ = err manifest_error

  abbrev pub parse_json : Option Json → Result ArtifactManifest
  parse_json none = err manifest_error
  parse_json (some v) = parse_manifest v

  -- A file's text, where there is a file, and what `json.loads` makes of it.
  unfoldable pub load_manifest :
      {T : Type 0} → (T → Option Json) → Option T → Result ArtifactManifest
  load_manifest loads none = err manifest_error
  load_manifest loads (some t) = parse_json (loads t)
