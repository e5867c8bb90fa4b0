-- ===== src/Artifacts/Manifest/Validity.antt =====
-- A manifest that is parsed is well formed.
use voxedge.Base.{All, ◌≡◌, true, false, refl, arith}
use voxedge.Base.{not, ◌&&◌, List, [], ◌∷◌, is_empty}
use voxedge.Text.Strip.{Text, strip}
use voxedge.Text.Equality.{same_text}
use voxedge.Artifacts.Result.{Result, ok, ◌>>=◌, ◌>>◌, require}
use voxedge.Artifacts.Json.{
  Json, null, bool, number, string, list, object, Items, nil, cons, Fields, end, field, Python,
  get_or, text_of, value_or, equals_one,
}
use voxedge.Artifacts.Manifest.Keys.{
  schema_version_key, artifacts_key, artifact_ref_key, runtime_contract_key, file_list_key,
  hf_endpoint_key,
}
use voxedge.Artifacts.Result.{Holds, anything, bind_intro, require_intro}
use voxedge.Artifacts.Manifest.{
  ArtifactFile, ArtifactSpec, ArtifactManifest, or_text, make_file, text_or_empty, parse_file,
  parse_files, file_items, dict_of, make_spec, spec_of, parse_spec, parse_specs, artifact_fields,
  parse_manifest,
}

or_text-left : (s t : Text) → is_empty t ≡ false → is_empty (or_text s t) ≡ false
or_text-left [] t e = e
or_text-left (c ∷ s) t e = refl

-- An object with a field.
abbrev IsFull : Fields → Type 0
IsFull end = ⊥
IsFull (field key v fs) = Unit

artifact_fields-full : (v : Json) → Holds IsFull (artifact_fields v)
unfolding artifact_fields
artifact_fields-full (object (field key v fs)) = tt
artifact_fields-full (object end) = tt
artifact_fields-full null = tt
artifact_fields-full (bool b) = tt
artifact_fields-full (number n) = tt
artifact_fields-full (string s) = tt
artifact_fields-full (list vs) = tt

module _ (py : Python) where
  abbrev pub IsWritten : Text → Type 0
  IsWritten t = (is_empty t ≡ false) × (is_empty (strip py.blank t) ≡ false)

  abbrev pub IsValidFile : ArtifactFile → Type 0
  IsValidFile f = IsWritten f.path × IsWritten f.sha256 × (is_empty f.source_path ≡ false)

  abbrev pub IsValidSpec : Text × ArtifactSpec → Type 0
  IsValidSpec (ref, s) =
      (s.artifact_ref ≡ ref)
      × (is_empty ref ≡ false)
      × (is_empty s.file_list ≡ false)
      × All IsValidFile s.file_list

  abbrev pub IsValid : ArtifactManifest → Type 0
  IsValid m =
      (equals_one py m.schema_version ≡ true)
      × (is_empty m.artifacts ≡ false)
      × All IsValidSpec m.artifacts

  make_file-IsValid : (f : ArtifactFile) → Holds IsValidFile (make_file py f)
  unfolding make_file
  make_file-IsValid f =
      let last : Result ArtifactFile =
        ok (record f { source_path = or_text f.source_path f.path }) in
      let digest = not (is_empty f.sha256) && not (is_empty (strip py.blank f.sha256)) in
      require_intro IsValidFile (not (is_empty f.path) && not (is_empty (strip py.blank f.path)))
        (require digest >> last)
        (λ a. require_intro IsValidFile digest last (λ b. (
          (ground (arith, a), ground (arith, a)),
          (ground (arith, b), ground (arith, b)),
          or_text-left f.source_path f.path (ground (arith, a)),
        )))

  parse_file-IsValid : (v : Json) → Holds IsValidFile (parse_file py v)
  unfolding parse_file
  parse_file-IsValid (object raw) = make_file-IsValid _
  parse_file-IsValid null = tt
  parse_file-IsValid (bool b) = tt
  parse_file-IsValid (number n) = tt
  parse_file-IsValid (string s) = tt
  parse_file-IsValid (list vs) = tt

  parse_files-IsValid : (vs : Items) → Holds (All IsValidFile) (parse_files py vs)
  unfolding parse_files
  parse_files-IsValid nil = tt
  parse_files-IsValid (cons v vs) =
      bind_intro IsValidFile (All IsValidFile) _ _ (parse_file-IsValid v) (λ f p.
        bind_intro (All IsValidFile) (All IsValidFile) _ _ (parse_files-IsValid vs)
          (λ fs q. (p, q)))

  make_spec-IsValid :
      (s : ArtifactSpec)
      → All IsValidFile s.file_list
      → Holds (λ r. IsValidSpec (s.artifact_ref, r)) (make_spec s)
  unfolding make_spec
  make_spec-IsValid s p =
      let S : ArtifactSpec → Type 0 = λ r. IsValidSpec (s.artifact_ref, r) in
      require_intro S (not (is_empty s.artifact_ref)) (require (not (is_empty s.file_list)) >> ok s)
        (λ a.
          require_intro S (not (is_empty s.file_list)) (ok s)
            (λ b. (refl, ground (arith, a), ground (arith, b), p)))

  parse_spec-IsValid :
      (ref : Text) (v : Json) → Holds (λ s. IsValidSpec (ref, s)) (parse_spec py ref v)
  unfolding parse_spec spec_of
  parse_spec-IsValid ref (object raw) =
      let S : ArtifactSpec → Type 0 = λ s. IsValidSpec (ref, s) in
      let listed = file_items (get_or null file_list_key raw) in
      let declared = dict_of py (get_or null runtime_contract_key raw) in
      let make : List ArtifactFile → Fields → Result ArtifactSpec =
        λ files contract. make_spec (spec_of py ref raw files contract) in
      let with_files : List ArtifactFile → Result ArtifactSpec = λ files. declared >>= make files in
      let with_items : Items → Result ArtifactSpec = λ items. parse_files py items >>= with_files in
      require_intro S
        (same_text (text_of py (value_or py (get_or (string []) artifact_ref_key raw) (string ref)))
          ref)
        (listed >>= with_items)
        (λ _.
          bind_intro (λ _. Unit {0}) S listed with_items (anything listed)
            (λ items _.
              bind_intro (All IsValidFile) S (parse_files py items) with_files
                (parse_files-IsValid items)
                (λ files p.
                  bind_intro (λ _. Unit {0}) S declared (make files) (anything declared)
                    (λ contract _. make_spec-IsValid (spec_of py ref raw files contract) p))))
  parse_spec-IsValid ref null = tt
  parse_spec-IsValid ref (bool b) = tt
  parse_spec-IsValid ref (number n) = tt
  parse_spec-IsValid ref (string s) = tt
  parse_spec-IsValid ref (list vs) = tt

  parse_specs-IsValid : (fs : Fields) → Holds (All IsValidSpec) (parse_specs py fs)
  unfolding parse_specs
  parse_specs-IsValid end = tt
  parse_specs-IsValid (field ref v fs) =
      bind_intro (λ s. IsValidSpec (ref, s)) (All IsValidSpec) _ _ (parse_spec-IsValid ref v)
        (λ s p.
          bind_intro (All IsValidSpec) (All IsValidSpec) _ _ (parse_specs-IsValid fs)
            (λ ss q. (p, q)))

  abbrev AreValid : List (Text × ArtifactSpec) → Type 0
  AreValid ss = (is_empty ss ≡ false) × All IsValidSpec ss

  parse_specs-AreValid : (fs : Fields) → IsFull fs → Holds AreValid (parse_specs py fs)
  unfolding parse_specs
  parse_specs-AreValid end f = absurd f
  parse_specs-AreValid (field key v fs) f =
      bind_intro (λ s. IsValidSpec (key, s)) AreValid _ _ (parse_spec-IsValid key v)
        (λ s p.
          bind_intro (All IsValidSpec) AreValid _ _ (parse_specs-IsValid fs)
            (λ ss q. (refl, (p, q))))

  -- A manifest that is parsed has a schema version that equals 1 and at least one artifact. The reference
  -- of each artifact is its key and is not empty; it has at least one file; each file has a path and a
  -- digest that are not blank, and a source path that is not empty.
  pub parse_manifest-IsValid : (v : Json) → Holds IsValid (parse_manifest py v)
  unfolding parse_manifest
  parse_manifest-IsValid (object raw) =
      let version = get_or null schema_version_key raw in
      let declared : Result Fields = artifact_fields (get_or null artifacts_key raw) in
      let make : List (Text × ArtifactSpec) → Result ArtifactManifest = λ specs. ok (record {
        schema_version = version;
        artifacts = specs;
        hf_endpoint = text_or_empty py hf_endpoint_key raw;
      }) in
      let with_fields : Fields → Result ArtifactManifest =
        λ fields. parse_specs py fields >>= make in
      require_intro IsValid (equals_one py version) (declared >>= with_fields) (λ e.
        bind_intro IsFull IsValid declared with_fields (artifact_fields-full _) (λ fields f.
          bind_intro AreValid IsValid (parse_specs py fields) make (parse_specs-AreValid fields f)
            (λ specs q. (e, q.0, q.1))))
  parse_manifest-IsValid null = tt
  parse_manifest-IsValid (bool b) = tt
  parse_manifest-IsValid (number n) = tt
  parse_manifest-IsValid (string s) = tt
  parse_manifest-IsValid (list vs) = tt
