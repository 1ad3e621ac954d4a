-- ===== src/Inference/Routing/Strings.antt =====
-- The functions of package strings that internal/inference calls on bindings and paths.
use Prim.Native.Char.{code}
use Prim.Native.String.{String}
use mini_enclava_go.Common.{ℕ, ◌==◌, Option, none, some, List, [], ◌∷◌, if◌then◌else◌}

-- `strings.CutPrefix`, the prefix first.
unfoldable pub cut_prefix : String → String → Option String
cut_prefix String.[] s = some s
cut_prefix (String.◌∷◌ c p) String.[] = none
cut_prefix (String.◌∷◌ c p) (String.◌∷◌ d s) = if code c == code d then cut_prefix p s else none

-- `strings.Cut` at a character.
unfoldable pub cut : ℕ → String → Option (String × String)
cut sep String.[] = none
cut sep (String.◌∷◌ c s) = if code c == sep then some ("", s) else (elim (cut sep s) [
  | none ↦ none
  | some (before, after) ↦ some (String.◌∷◌ c before, after)
])

-- `strings.Split` at a character, on the codes of a text.
unfoldable pub split : ℕ → List ℕ → List (List ℕ)
split sep [] = [] ∷ []
split sep (c ∷ cs) =
    let rest = split sep cs in
    if c == sep
    then [] ∷ rest
    else (elim rest [ [] ↦ (c ∷ []) ∷ [] | seg ∷ segs ↦ (c ∷ seg) ∷ segs ])
