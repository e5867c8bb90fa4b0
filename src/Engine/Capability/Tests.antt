-- ===== src/Engine/Capability/Tests.antt =====
-- Two backends of four and two slots.
use Prim.Native.String.{String}
use voxedge.Base.{◌⊎◌, ◌≡◌, none, some}
use voxedge.Engine.Capability.{
  Declared, mapping, number, absent, concurrent, resolve, capability_of,
}
use voxedge.Engine.Capability.Resolution.{AtMost, resolve_ceiling}

abbrev four : Declared
four = mapping (number 4) absent (some concurrent)

abbrev two : Declared
two = mapping (number 2) absent none

lower : String → String
lower s = s

resolve_ceiling_example :
    let ceiling = (resolve lower (some four) (some two) none).ceiling in
    AtMost ceiling (some 4) × AtMost ceiling (some 2) × ((ceiling ≡ some 4) ⊎ (ceiling ≡ some 2))
unfolding capability_of lower
resolve_ceiling_example = resolve_ceiling lower (some four) (some two) none
