-- ===== src/Common/Words.antt =====
-- The words of a text, as Go's strings.Fields splits it around runs of spaces.
use Prim.Native.Char.{Char}
use Prim.Native.String.{String, [], ◌∷◌}
use mathlib.Core.List as L
use mathlib.Core.Bool.{Bool, true}
use o2ul_portal.Common.{if◌then◌else◌, is_space}

abbrev ends_here : String → Bool
ends_here [] = true
ends_here (c ∷ s) = is_space c

abbrev onto_first : Char → L.List String → L.List String
onto_first c L.[] = L.◌∷◌ (c ∷ "") L.[]
onto_first c (L.◌∷◌ word words) = L.◌∷◌ (c ∷ word) words

unfoldable pub fields : String → L.List String
fields [] = L.[]
fields (c ∷ s) =
    let rest = fields s in
    if is_space c then rest else if ends_here s then L.◌∷◌ (c ∷ "") rest else onto_first c rest
