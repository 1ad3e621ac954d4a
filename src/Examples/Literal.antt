-- ===== src/Examples/Literal.antt =====
-- The array literals of the budgets' query at concrete texts.
use mini_enclava_go.Common.{ℕ, ◌≡◌, ◌≢◌, refl, List, [], ◌∷◌}
use mini_enclava_go.Billing.Literal.{escape, quoted, more_elements, str_array}
use mini_enclava_go.Billing.Literal.Injective.{str_array_injective}

-- One text with the separator of two elements in it, and the two texts.
abbrev joined : List (List ℕ)
joined = (b'a' ∷ b'"' ∷ b',' ∷ b'"' ∷ b'b' ∷ []) ∷ []

abbrev separate : List (List ℕ)
separate = (b'a' ∷ []) ∷ (b'b' ∷ []) ∷ []

str_array_injective_example : str_array joined ≢ str_array separate
str_array_injective_example = str_array_injective joined separate (λ e. cc e)

written :
    str_array ((b'a' ∷ b'"' ∷ []) ∷ [] ∷ [])
    ≡ b'{' ∷ b'"' ∷ b'a' ∷ b'\\' ∷ b'"' ∷ b'"' ∷ b',' ∷ b'"' ∷ b'"' ∷ b'}' ∷ []
unfolding escape quoted more_elements str_array
written = refl
