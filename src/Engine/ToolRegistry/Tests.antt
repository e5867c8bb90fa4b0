-- ===== src/Engine/ToolRegistry/Tests.antt =====
-- A tool that is registered with a description in its schema, twice, and one that is unregistered.
use voxedge.Base.{ℕ, All, true, false, none, List, [], ◌∷◌, ◌==◌}
use voxedge.Artifacts.Json.{Json, string, object, end, field, Python}
use voxedge.Engine.ToolRegistry.{
  Registry, Change, registers, unregisters, changes, list_openai_tools, description_key,
  properties_key,
}
use voxedge.Engine.ToolRegistry.Schemas.{IsNamed, IsListed, changes-AreListed}

abbrev python : Python
python = record {
  render = λ v. [];
  is_zero = λ n. false;
  is_one = λ n. true;
  as_dict = λ v. none;
  blank = λ c. c == 32;
}

abbrev schema : Json
schema = object (field properties_key (object end) (field description_key (string (100 ∷ [])) end))

abbrev calls : List (Change ℕ)
calls =
    registers (97 ∷ []) schema [] [] 1
    ∷ registers (97 ∷ []) schema [] [] 2
    ∷ registers (98 ∷ []) schema [] [] 3
    ∷ unregisters (98 ∷ [])
    ∷ []

abbrev registry : Registry ℕ
registry = changes python calls []

changes-AreListed_example :
    All IsNamed (changes python calls [])
    × All IsListed (list_openai_tools (λ n. true) (changes python calls []))
changes-AreListed_example = changes-AreListed python calls (λ n. true)
