-- ===== src/Artifacts/Manifest/Keys.antt =====
-- artifacts/manifest.py: the keys of a manifest.
use voxedge.Base.{[], ◌∷◌}
use voxedge.Text.Strip.{Text}

-- "schema_version"
abbrev pub schema_version_key : Text
schema_version_key =
    115 ∷ 99 ∷ 104 ∷ 101 ∷ 109 ∷ 97 ∷ 95 ∷ 118 ∷ 101 ∷ 114 ∷ 115 ∷ 105 ∷ 111 ∷ 110 ∷ []

-- "artifacts"
abbrev pub artifacts_key : Text
artifacts_key = 97 ∷ 114 ∷ 116 ∷ 105 ∷ 102 ∷ 97 ∷ 99 ∷ 116 ∷ 115 ∷ []

-- "artifact_ref"
abbrev pub artifact_ref_key : Text
artifact_ref_key = 97 ∷ 114 ∷ 116 ∷ 105 ∷ 102 ∷ 97 ∷ 99 ∷ 116 ∷ 95 ∷ 114 ∷ 101 ∷ 102 ∷ []

-- "backend_key"
abbrev pub backend_key_key : Text
backend_key_key = 98 ∷ 97 ∷ 99 ∷ 107 ∷ 101 ∷ 110 ∷ 100 ∷ 95 ∷ 107 ∷ 101 ∷ 121 ∷ []

-- "device"
abbrev pub device_key : Text
device_key = 100 ∷ 101 ∷ 118 ∷ 105 ∷ 99 ∷ 101 ∷ []

-- "precision"
abbrev pub precision_key : Text
precision_key = 112 ∷ 114 ∷ 101 ∷ 99 ∷ 105 ∷ 115 ∷ 105 ∷ 111 ∷ 110 ∷ []

-- "hf_repo"
abbrev pub hf_repo_key : Text
hf_repo_key = 104 ∷ 102 ∷ 95 ∷ 114 ∷ 101 ∷ 112 ∷ 111 ∷ []

-- "revision"
abbrev pub revision_key : Text
revision_key = 114 ∷ 101 ∷ 118 ∷ 105 ∷ 115 ∷ 105 ∷ 111 ∷ 110 ∷ []

-- "sha256"
abbrev pub sha256_key : Text
sha256_key = 115 ∷ 104 ∷ 97 ∷ 50 ∷ 53 ∷ 54 ∷ []

-- "runtime_contract"
abbrev pub runtime_contract_key : Text
runtime_contract_key =
    114 ∷ 117 ∷ 110 ∷ 116 ∷ 105 ∷ 109 ∷ 101 ∷ 95 ∷ 99 ∷ 111 ∷ 110 ∷ 116 ∷ 114 ∷ 97 ∷ 99 ∷ 116 ∷ []

-- "file_list"
abbrev pub file_list_key : Text
file_list_key = 102 ∷ 105 ∷ 108 ∷ 101 ∷ 95 ∷ 108 ∷ 105 ∷ 115 ∷ 116 ∷ []

-- "path"
abbrev pub path_key : Text
path_key = 112 ∷ 97 ∷ 116 ∷ 104 ∷ []

-- "source_path"
abbrev pub source_path_key : Text
source_path_key = 115 ∷ 111 ∷ 117 ∷ 114 ∷ 99 ∷ 101 ∷ 95 ∷ 112 ∷ 97 ∷ 116 ∷ 104 ∷ []

-- "size_bytes"
abbrev pub size_bytes_key : Text
size_bytes_key = 115 ∷ 105 ∷ 122 ∷ 101 ∷ 95 ∷ 98 ∷ 121 ∷ 116 ∷ 101 ∷ 115 ∷ []

-- "hf_endpoint"
abbrev pub hf_endpoint_key : Text
hf_endpoint_key = 104 ∷ 102 ∷ 95 ∷ 101 ∷ 110 ∷ 100 ∷ 112 ∷ 111 ∷ 105 ∷ 110 ∷ 116 ∷ []

-- "main"
abbrev pub main : Text
main = 109 ∷ 97 ∷ 105 ∷ 110 ∷ []
