-- ===== src/Common/Texts.antt =====
-- Texts that are built by appending, and when two of them differ.
use Prim.Native.String.{String, ◌++◌ as ◌<>◌}
use Prim.Native.Char.{Char, code}
use mathlib.Core.Path.{◌≡◌, sym, ap, ◌∙◌}
use mathlib.Core.Logic.{◌≢◌}
use mathlib.Core.Bool.{false}
use native.Mathlib.Omega.{arith}
use text.Mathlib.Text.{◌==◌}
use text.Mathlib.TextEquality.{eq_iff}
use text.Mathlib.TextLemmas.{append_cancel_left, append_cancel_right, nil-append, cons-append}

-- Two texts with one beginning and different ends differ.
pub append-ne : (s t u : String) → t ≢ u → (s <> t) ≢ (s <> u)
append-ne s t u differ same = differ (append_cancel_left s t u same)

pub eq-false_of_ne : (s t : String) → s ≢ t → (s == t) ≡ false
eq-false_of_ne s t differ = ground (arith, eq_iff s t)

-- The last character of a text, or the one given if there is none.
abbrev pub last : Char → String → Char
last d String.[] = d
last d (String.◌∷◌ c s) = last c s

last-append : (d c : Char) (s t : String) → last d (s <> String.◌∷◌ c t) ≡ last c t
last-append d c String.[] t = rw nil-append
last-append d c (String.◌∷◌ a s) t = rw cons-append (last-append a c s t)

-- Two names with suffixes that end in different characters differ, whatever they begin with.
pub suffix-ne :
    (s t u v : String)
    → code (last "-" u) ≢ code (last "-" v)
    → (s <> String.◌∷◌ "-" u) ≢ (t <> String.◌∷◌ "-" v)
suffix-ne s t u v differ same =
    differ
      (ap code (sym (last-append "-" "-" s u) ∙ (ap (last "-") same ∙ last-append "-" "-" t v)))

-- Two texts with one end and different beginnings differ.
pub append-ne_left : (s t u : String) → s ≢ t → (s <> u) ≢ (t <> u)
append-ne_left s t u differ same = differ (append_cancel_right s t u same)
