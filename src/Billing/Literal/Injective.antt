-- ===== src/Billing/Literal/Injective.antt =====
-- The array literals that `strArray` of internal/store/postgres/billing_repo.go writes tell the lists of
-- texts apart.
use mini_enclava_go.Common.{
  ℕ, ◌≡◌, ◌≢◌, refl, sym, ap, ◌∙◌, inl, inr, false, ◌||◌, ◌==◌, List, [], ◌∷◌, ◌++◌, Option, none,
  some, arith, Bool-cases, if◌then◌else◌,
}
use mini_enclava_go.Billing.Literal.{escape, quoted, more_elements, str_array}

abbrev put_rune : ℕ → Option (List ℕ × List ℕ) → Option (List ℕ × List ℕ)
put_rune r none = none
put_rune r (some (s, rest)) = some (r ∷ s, rest)

-- What stands before the first quote that no backslash precedes, and after it: an inverse of `quoted`.
unfoldable unquoted : List ℕ → Option (List ℕ × List ℕ)
unquoted [] = none
unquoted (c ∷ []) = if c == b'"' then some ([], []) else none
unquoted (c ∷ d ∷ cs) =
    let plain = unquoted (d ∷ cs) in
    let escaped = unquoted cs in
    if c == b'"'
    then some ([], d ∷ cs)
    else if c == b'\\'
    then put_rune d escaped
    else put_rune c plain

unquoted-plain :
    (r : ℕ) (cs s rest : List ℕ)
    → (r == b'"') || (r == b'\\') ≡ false
    → unquoted cs ≡ some (s, rest)
    → unquoted (r ∷ cs) ≡ some (r ∷ s, rest)
unfolding unquoted
unquoted-plain r [] s rest h e = cc e
unquoted-plain r (d ∷ cs) s rest h e =
    let open_quote : (r == b'"') ≡ false = ground (arith, h) in
    let slash : (r == b'\\') ≡ false = ground (arith, h) in rw (open_quote, slash, e) refl

unquoted-escape : (s rest : List ℕ) → unquoted (escape s ++ b'"' ∷ rest) ≡ some (s, rest)
unfolding unquoted escape
unquoted-escape [] [] = refl
unquoted-escape [] (c ∷ rest) = refl
unquoted-escape (r ∷ s) rest =
    let later = unquoted-escape s rest in
    elim (Bool-cases ((r == b'"') || (r == b'\\'))) [
      | inl special ↦ rw special (rw later refl)
      | inr plain ↦ rw plain (unquoted-plain r (escape s ++ b'"' ∷ rest) s rest plain later)
    ]

tail_of : List ℕ → List ℕ
tail_of [] = []
tail_of (c ∷ cs) = cs

-- A quoted text and what follows it are told apart.
quoted_injective :
    (s t rest rest' : List ℕ) → quoted s rest ≡ quoted t rest' → (s ≡ t) × (rest ≡ rest')
unfolding quoted tail_of
quoted_injective s t rest rest' e =
    let inner : escape s ++ b'"' ∷ rest ≡ escape t ++ b'"' ∷ rest' = ap tail_of e in
    let same =
      sym (unquoted-escape s rest) ∙ (ap (λ x. unquoted x) inner ∙ unquoted-escape t rest') in
    (cc same, cc same)

more_elements_injective : (xs ys : List (List ℕ)) → more_elements xs ≡ more_elements ys → xs ≡ ys
unfolding more_elements tail_of quoted
more_elements_injective [] [] e = refl
more_elements_injective [] (t ∷ ys) e = cc e
more_elements_injective (s ∷ xs) [] e = cc e
more_elements_injective (s ∷ xs) (t ∷ ys) e =
    let (same, rest) = quoted_injective s t (more_elements xs) (more_elements ys) (ap tail_of e) in
    let others = more_elements_injective xs ys rest in cc (same, others)

equal_texts : (xs ys : List (List ℕ)) → str_array xs ≡ str_array ys → xs ≡ ys
unfolding str_array tail_of quoted
equal_texts [] [] e = refl
equal_texts [] (t ∷ ys) e = cc e
equal_texts (s ∷ xs) [] e = cc e
equal_texts (s ∷ xs) (t ∷ ys) e =
    let (same, rest) = quoted_injective s t (more_elements xs) (more_elements ys) (ap tail_of e) in
    let others = more_elements_injective xs ys rest in cc (same, others)

-- `strArray` writes different lists of texts as different literals, whatever quotes, backslashes, commas
-- and braces are in them.
pub str_array_injective : (xs ys : List (List ℕ)) → xs ≢ ys → str_array xs ≢ str_array ys
str_array_injective xs ys apart e = apart (equal_texts xs ys e)
