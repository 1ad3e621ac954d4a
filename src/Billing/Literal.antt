-- ===== src/Billing/Literal.antt =====
-- `strArray` of internal/store/postgres/billing_repo.go, the literal of a text[] that the budgets' query
-- unnests. A text is the list of its runes.
pub mod Injective
use mini_enclava_go.Common.{ℕ, ◌||◌, ◌==◌, List, [], ◌∷◌, ◌++◌, if◌then◌else◌}

-- The loop over the runes of an element.
unfoldable pub escape : List ℕ → List ℕ
escape [] = []
escape (r ∷ s) = if (r == b'"') || (r == b'\\') then b'\\' ∷ r ∷ escape s else r ∷ escape s

unfoldable pub quoted : List ℕ → List ℕ → List ℕ
quoted s rest = b'"' ∷ escape s ++ b'"' ∷ rest

-- The elements after the first, and the end.
unfoldable pub more_elements : List (List ℕ) → List ℕ
more_elements [] = b'}' ∷ []
more_elements (s ∷ elements) = b',' ∷ quoted s (more_elements elements)

unfoldable pub str_array : List (List ℕ) → List ℕ
str_array [] = b'{' ∷ b'}' ∷ []
str_array (s ∷ elements) = b'{' ∷ quoted s (more_elements elements)
