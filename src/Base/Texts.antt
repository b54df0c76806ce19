-- ===== src/Base/Texts.antt =====
-- What the code uses of Go's package strings, on texts as lists of characters.
use Prim.Native.String.{String, compare, ◌++◌ as ◌&◌}
use Prim.Native.Nat.{Ordering}
use mathlib.Core.Bool.{Bool, true, false}
use mathlib.Core.List.{List, [], ◌∷◌}
use mathlib.Core.Option.{none, some}
use text.Mathlib.Text.{find?}
use ruptura.Base.Equality.{◌==◌, string_eq}
use ruptura.Base.Tests.{if◌then◌else◌}

-- `s < t`, by bytes
abbrev pub str_less : String → String → Bool
str_less s t = elim (compare s t) [ Ordering.lt ↦ true | _ ↦ false ]

-- strings.Contains(text, part)
abbrev pub contains : String → String → Bool
contains text part = elim (find? text part) [ none ↦ false | some _ ↦ true ]

-- strings.TrimSuffix(text, suffix)
abbrev pub trim_suffix : String → String → String
trim_suffix suffix String.[] = ""
trim_suffix suffix (String.◌∷◌ c s) =
    let rest = trim_suffix suffix s in if String.◌∷◌ c s == suffix then "" else String.◌∷◌ c rest

-- A part with one more character in front.
abbrev onto_first : String → List String → List String
onto_first c [] = c ∷ []
onto_first c (part ∷ parts) = (c & part) ∷ parts

-- strings.Split(text, sep) for a separator of one character
abbrev pub split : String → String → List String
split sep String.[] = "" ∷ []
split sep (String.◌∷◌ c s) =
    let rest = split sep s in
    let one = String.◌∷◌ c "" in if one == sep then "" ∷ rest else onto_first one rest
