-- ===== src/Artifacts/Manifest/Printing.antt =====
-- What a manifest says in JSON, read back.
use voxedge.Base.{sym, All, ◌≡◌, false, refl, arith}
use voxedge.Base.{List, [], ◌∷◌, is_empty}
use voxedge.Text.Strip.{Text}
use voxedge.Text.Equality.{same_text, same_text_refl}
use voxedge.Artifacts.Result.{ok}
use voxedge.Artifacts.Json.{
  Json, string, list, object, Items, nil, cons, Fields, end, field, Python, text_of, value_or,
}
use voxedge.Artifacts.Manifest.Keys.{
  schema_version_key, artifacts_key, artifact_ref_key, backend_key_key, device_key, precision_key,
  hf_repo_key, revision_key, sha256_key, runtime_contract_key, file_list_key, path_key,
  source_path_key, size_bytes_key, hf_endpoint_key, main,
}
use voxedge.Artifacts.Manifest.{
  ArtifactFile, ArtifactSpec, ArtifactManifest, or_text, make_file, parse_file, parse_files,
  file_items, dict_of, make_spec, spec_of, parse_spec, parse_specs, artifact_fields, parse_manifest,
}
use voxedge.Artifacts.Manifest.Validity.{IsValidFile, IsValidSpec, IsValid}

abbrev pub file_json : ArtifactFile → Json
file_json f = object (
    field path_key (string f.path) (
      field sha256_key (string f.sha256)
        (field source_path_key (string f.source_path) (field size_bytes_key f.size_bytes end))))

abbrev pub files_json : List ArtifactFile → Items
files_json [] = nil
files_json (f ∷ fs) = cons (file_json f) (files_json fs)

abbrev spec_fields : ArtifactSpec → Fields
spec_fields s = field artifact_ref_key (string s.artifact_ref) (
    field backend_key_key (string s.backend_key) (
      field device_key (string s.device) (
        field precision_key (string s.precision) (
          field hf_repo_key (string s.hf_repo) (
            field revision_key (string s.revision) (
              field sha256_key (string s.sha256) (
                field runtime_contract_key (object s.runtime_contract)
                  (field file_list_key (list (files_json s.file_list)) end))))))))

abbrev pub specs_json : List (Text × ArtifactSpec) → Fields
specs_json [] = end
specs_json ((ref, s) ∷ ss) = field ref (object (spec_fields s)) (specs_json ss)

abbrev pub manifest_json : ArtifactManifest → Json
manifest_json m = object (
    field schema_version_key m.schema_version (
      field artifacts_key (object (specs_json m.artifacts))
        (field hf_endpoint_key (string m.hf_endpoint) end)))

-- A revision is given: an empty one is read as "main".
abbrev pub HasRevision : Text × ArtifactSpec → Type 0
HasRevision (ref, s) = is_empty s.revision ≡ false

or_text_full : (s t : Text) → is_empty s ≡ false → or_text s t ≡ s
or_text_full [] t e = absurd (ground (arith, e))
or_text_full (c ∷ s) t e = refl

module _ (py : Python) where
  text_of-value_or : (t : Text) → text_of py (value_or py (string t) (string [])) ≡ t
  text_of-value_or [] = refl
  text_of-value_or (c ∷ t) = refl

  text_of-given :
      (t d : Text) → is_empty t ≡ false → text_of py (value_or py (string t) (string d)) ≡ t
  text_of-given [] d e = absurd (ground (arith, e))
  text_of-given (c ∷ t) d e = refl

  parse_file-file_json : (f : ArtifactFile) → IsValidFile py f → parse_file py (file_json f) ≡ ok f
  unfolding parse_file make_file same_text
  parse_file-file_json f h =
      rw
        (
          text_of-value_or f.source_path,
          h.0.0,
          h.0.1,
          h.1.0,
          h.1.1,
          or_text_full f.source_path f.path h.2,
        )
        refl

  parse_files-files_json :
      (fs : List ArtifactFile) → All (IsValidFile py) fs → parse_files py (files_json fs) ≡ ok fs
  unfolding parse_files
  parse_files-files_json [] h = refl
  parse_files-files_json (f ∷ fs) h =
      rw (parse_file-file_json f h.0, parse_files-files_json fs h.1) refl

  listed :
      (fs : List ArtifactFile)
      → is_empty fs ≡ false
      → file_items (list (files_json fs)) ≡ ok (files_json fs)
  unfolding file_items
  listed [] e = absurd (ground (arith, e))
  listed (f ∷ fs) e = refl

  parse_spec-json :
      (s : ArtifactSpec)
      → IsValidSpec py (s.artifact_ref, s)
      → is_empty s.revision ≡ false
      → parse_spec py s.artifact_ref (object (spec_fields s)) ≡ ok s
  unfolding parse_spec spec_of make_spec same_text dict_of
  parse_spec-json s h r =
      rw
        (
          text_of-given s.artifact_ref s.artifact_ref h.1,
          same_text_refl s.artifact_ref,
          listed s.file_list h.2,
          parse_files-files_json s.file_list h.3,
          h.1,
          h.2,
          text_of-value_or s.backend_key,
          text_of-value_or s.device,
          text_of-value_or s.precision,
          text_of-value_or s.hf_repo,
          text_of-given s.revision main r,
          text_of-value_or s.sha256,
        )
        refl

  parse_specs-specs_json :
      (ss : List (Text × ArtifactSpec))
      → All (IsValidSpec py) ss
      → All HasRevision ss
      → parse_specs py (specs_json ss) ≡ ok ss
  unfolding parse_specs
  parse_specs-specs_json [] h r = refl
  parse_specs-specs_json ((ref, s) ∷ ss) h r =
      rw
        (
          sym h.0.0,
          parse_spec-json s (refl, rw h.0.0 h.0.1, h.0.2, h.0.3) r.0,
          parse_specs-specs_json ss h.1 r.1,
        )
        refl

  declared :
      (ss : List (Text × ArtifactSpec))
      → is_empty ss ≡ false
      → artifact_fields (object (specs_json ss)) ≡ ok (specs_json ss)
  unfolding artifact_fields
  declared [] e = absurd (ground (arith, e))
  declared (s ∷ ss) e = refl

  -- A well-formed manifest whose revisions are given is the one that its JSON is parsed to.
  pub parse_manifest-json :
      (m : ArtifactManifest)
      → IsValid py m
      → All HasRevision m.artifacts
      → parse_manifest py (manifest_json m) ≡ ok m
  unfolding parse_manifest same_text
  parse_manifest-json m h r =
      rw
        (
          h.0,
          declared m.artifacts h.1,
          parse_specs-specs_json m.artifacts h.2 r,
          text_of-value_or m.hf_endpoint,
        )
        refl
