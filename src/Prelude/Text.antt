-- ===== src/Prelude/Text.antt =====
-- Texts cut to a length, and dictionaries of JSON values.
use Prim.Native.Nat.{ℕ, zero, suc}
use Prim.Native.String.{String}
use mathlib.Core.Bool.{Bool, true, false}
use mathlib.Core.Option.{Option, none, some}
use mathlib.Core.List.{List, [], ◌∷◌}
use codex_bridge.Prelude.Tests.{◌==◌, string_eq, if◌then◌else◌}

-- `text[:n]`
unfoldable pub first_chars : ℕ → String → String
first_chars zero s = String.[]
first_chars (suc n) String.[] = String.[]
first_chars (suc n) (String.◌∷◌ c s) = String.◌∷◌ c (first_chars n s)

-- A value of a JSON object: the forms that the code tests, and any other value by its truth and
-- by its `str`.
pub data Json : Type 0 where
  null : Json
  flag : Bool → Json
  text : String → Json
  other : Bool → String → Json

-- `str(value or "")`
unfoldable pub text_or_empty : Json → String
text_or_empty null = ""
text_or_empty (flag true) = "True"
text_or_empty (flag false) = ""
text_or_empty (text s) = s
text_or_empty (other truthy printed) = if truthy then printed else ""

abbrev pub Object : Type 0
Object = List (String × Json)

unfoldable pub get : String → Object → Option Json
get k [] = none
get k ((j, v) ∷ d) = if j == k then some v else get k d

-- `d[k] = v`
unfoldable pub put : String → Json → Object → Object
put k v [] = (k, v) ∷ []
put k v ((j, w) ∷ d) = if j == k then (j, v) ∷ d else (j, w) ∷ put k v d

-- `d.update(changes)`
unfoldable pub merge : Object → Object → Object
unfolding put
merge d [] = d
merge d ((k, v) ∷ changes) = merge (put k v d) changes
