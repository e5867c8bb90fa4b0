-- ===== src/Engine/ToolRegistry.antt =====
-- engine/tool_registry.py: the table of tools. What a tool is registered with besides its name, its
-- schema and its description (its function, time limit, texts and modes) is of a type `F`.
pub mod Schemas
mod Tests
use voxedge.Base.{
  ℕ, Bool, true, false, not, ◌&&◌, ◌||◌, Option, none, some, List, [], ◌∷◌, map, is_empty,
  if◌then◌else◌,
}
use voxedge.Text.Strip.{Text, strip}
use voxedge.Text.Equality.{same_text}
use voxedge.Artifacts.Json.{Json, string, object, Fields, end, field, Python, get_or, is_true}

-- "description"
abbrev pub description_key : Text
description_key = 100 ∷ 101 ∷ 115 ∷ 99 ∷ 114 ∷ 105 ∷ 112 ∷ 116 ∷ 105 ∷ 111 ∷ 110 ∷ []

-- "properties"
abbrev pub properties_key : Text
properties_key = 112 ∷ 114 ∷ 111 ∷ 112 ∷ 101 ∷ 114 ∷ 116 ∷ 105 ∷ 101 ∷ 115 ∷ []

-- "function"
abbrev pub function_key : Text
function_key = 102 ∷ 117 ∷ 110 ∷ 99 ∷ 116 ∷ 105 ∷ 111 ∷ 110 ∷ []

-- "parameters"
abbrev pub parameters_key : Text
parameters_key = 112 ∷ 97 ∷ 114 ∷ 97 ∷ 109 ∷ 101 ∷ 116 ∷ 101 ∷ 114 ∷ 115 ∷ []

-- "type"
abbrev pub type_key : Text
type_key = 116 ∷ 121 ∷ 112 ∷ 101 ∷ []

pub record Tool (F : Type 0) : Type 0 where
  pub name : Text
  pub description : Json
  pub parameters : Json
  pub rest : F

-- `_tools`, in the order of insertion
abbrev pub Registry : Type 0 → Type 0
Registry F = List (Text × Tool F)

abbrev pub has_key : Text → Fields → Bool
has_key key end = false
has_key key (field k v fs) = same_text k key || has_key key fs

unfoldable pub without_key : Text → Fields → Fields
without_key key end = end
without_key key (field k v fs) =
    let rest = without_key key fs in if same_text k key then rest else field k v rest

-- {"type": "object", "properties": {}}
abbrev pub empty_schema : Json
empty_schema = object (
    field type_key (string (111 ∷ 98 ∷ 106 ∷ 101 ∷ 99 ∷ 116 ∷ []))
      (field properties_key (object end) end))

-- The description is dropped from the root of the schema.
unfoldable pub stripped : Json → Json
stripped (object fs) = object (without_key description_key fs)
stripped v = v

module _ {F : Type 0} where
  unfoldable pub put : Text → Tool F → Registry F → Registry F
  put name t [] = (name, t) ∷ []
  put name t ((k, u) ∷ r) =
      let rest = put name t r in if same_text k name then (k, t) ∷ r else (k, u) ∷ rest

  unfoldable pub get : Text → Registry F → Option (Tool F)
  get name [] = none
  get name ((k, u) ∷ r) = let rest = get name r in if same_text k name then some u else rest

  -- `_tools.pop(name, None)`; `unregister` returns whether there was a tool.
  unfoldable pub pop : Text → Registry F → Registry F
  pop name [] = []
  pop name ((k, u) ∷ r) = let rest = pop name r in if same_text k name then r else (k, u) ∷ rest

  abbrev pub is_there : Option (Tool F) → Bool
  is_there none = false
  is_there (some t) = true

  unfoldable pub unregister : Text → Registry F → Registry F × Bool
  unregister name r = (pop name r, is_there (get name r))

  -- An entry of `list_openai_tools`: name, description and parameters.
  unfoldable pub list_openai_tools : (Text → Bool) → Registry F → List (Text × Json × Json)
  list_openai_tools allowed [] = []
  list_openai_tools allowed ((k, t) ∷ r) =
      let rest = list_openai_tools allowed r in
      if allowed k then (t.name, t.description, t.parameters) ∷ rest else rest

module _ (py : Python) where
  abbrev pub or_else : Json → Json → Json
  or_else v d = if is_true py v then v else d

  -- The description that is given, or the schema's, or the handler's docstring.
  unfoldable pub described : Json → Text → Text → Json
  described (object fs) doc [] =
      or_else (or_else (get_or (string []) description_key fs) (string []))
        (string (strip py.blank doc))
  described schema doc [] = string (strip py.blank doc)
  described schema doc (c ∷ cs) = string (c ∷ cs)

  -- The block of a function's wrapper, or a bare description.
  unfoldable pub unwrapped : Json → Json → Json × Json
  unwrapped (object block) d = (
    get_or empty_schema parameters_key block,
    or_else d (get_or (string []) description_key block),
  )
  unwrapped _ d = (empty_schema, d)

  -- The parameters and the description.
  unfoldable pub normalized : Json → Json → Json × Json
  normalized (object fs) d =
      if has_key properties_key fs
      then (object fs, d)
      else unwrapped (get_or Json.null function_key fs) d
  normalized schema d = (schema, d)

-- Calls of the registry, one after another.
pub data Change (F : Type 0) : Type 0 where
  registers : Text → Json → Text → Text → F → Change F
  unregisters : Text → Change F

module _ {F : Type 0} (py : Python) where
  unfoldable pub register : Text → Json → Text → Text → F → Registry F → Registry F
  register name schema doc description rest r =
      let n = normalized py schema (described py schema doc description) in
      put name (record { name = name; description = n.1; parameters = stripped n.0; rest = rest }) r

  unfoldable pub change : Change F → Registry F → Registry F
  change (registers name schema doc description rest) r =
      register name schema doc description rest r
  change (unregisters name) r = (unregister name r).0

  unfoldable pub changes : List (Change F) → Registry F → Registry F
  changes [] r = r
  changes (c ∷ cs) r = changes cs (change c r)
