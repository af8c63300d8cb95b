-- ===== src/Common/Maps.antt =====
-- Go's `map[string]string`: an association list, in the order in which the literal writes it.
use Prim.Native.String.{String}
use mathlib.Core.Path.{◌≡◌, refl}
use mathlib.Core.Bool.{Bool, false}
use mathlib.Core.Option.{Option, none, some}
use mathlib.Core.List.{List, [], ◌∷◌}
use native.Mathlib.Omega.{arith}
use text.Mathlib.Text.{◌==◌}
use text.Mathlib.TextEquality.{eq_iff}
use kubeshark_operator.Common.Tests.{if◌then◌else◌, every}

abbrev pub StringMap : Type 0
StringMap = List (String × String)

-- `m[key]`, with `none` for a missing key.
abbrev pub lookup : String → StringMap → Option String
lookup key ((k, v) ∷ rest) = if k == key then some v else lookup key rest
lookup key [] = none

-- `m[key] = value`
abbrev pub insert : String → String → StringMap → StringMap
insert key value (entry ∷ rest) =
    if entry.0 == key then (key, value) ∷ rest else entry ∷ insert key value rest
insert key value [] = (key, value) ∷ []

pub lookup-insert :
    (key other value : String) (m : StringMap)
    → lookup other (insert key value m) ≡ (if key == other then some value else lookup other m)
lookup-insert key other value [] = refl
lookup-insert key other value ((k, v) ∷ rest) =
    ground
      (arith, lookup-insert key other value rest, eq_iff key other, eq_iff k other, eq_iff k key)

-- Writing what is there already changes nothing.
pub insert-present :
    (key value : String) (m : StringMap) → lookup key m ≡ some value → insert key value m ≡ m
insert-present key value [] h = cc
insert-present key value ((k, v) ∷ rest) h =
    ground (arith, insert-present key value rest, eq_iff k key, h)

abbrev has : StringMap → String × String → Bool
has m (k, v) = elim (lookup k m) [ none ↦ false | some w ↦ w == v ]

-- A label selector's `matchLabels` selects the objects that carry each of its labels.
abbrev pub selects : StringMap → StringMap → Bool
selects selector labels = every (has labels) selector
