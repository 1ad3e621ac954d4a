-- ===== src/Inference/Routing/Target/Shape.antt =====
-- The paths that `validateResponsesTarget` of internal/inference/policy.go lets through.
use mini_enclava_go.Common.{
  ℕ, ◌≡◌, refl, sym, ap, ◌∙◌, ◌⊎◌, inl, inr, Bool, true, false, not, ◌&&◌, ◌||◌, ◌==◌, String,
  str_eq, eq_iff, List, [], ◌∷◌, ◌++◌, ok, ◌>>◌, require, require_then, arith, Bool-cases, Each,
  if◌then◌else◌,
}
use mini_enclava_go.Inference.Payload.{denied, Result, codes, has_prefix}
use mini_enclava_go.Inference.Routing.Strings.{split}
use mini_enclava_go.Inference.Routing.Target.{
  is_responses_capability, is_segment, all_segments, valid_path_tail, contains_text, drop_prefix,
  is_method, is_target_path, validate_responses_target,
}

-- Segments, each after a separator.
unfoldable pub join : ℕ → List (List ℕ) → List ℕ
join sep [] = []
join sep (seg ∷ segs) = sep ∷ seg ++ join sep segs

join-separator :
    (sep c : ℕ) (segs : List (List ℕ)) (s : List ℕ)
    → join sep segs ≡ sep ∷ s
    → c ≡ sep
    → join sep ([] ∷ segs) ≡ sep ∷ c ∷ s
unfolding join
join-separator sep c segs s e same = rw (e, same) refl

split_and : (a b : Bool) → a && b ≡ true → (a ≡ true) × (b ≡ true)
split_and a b h = ground arith

false_of_not : (a : Bool) → not a ≡ true → a ≡ false
false_of_not a h = ground arith

join-grown :
    (sep c : ℕ) (s : List ℕ) (segs : List (List ℕ))
    → join sep segs ≡ sep ∷ s
    → join sep (elim segs [ [] ↦ (c ∷ []) ∷ [] | seg ∷ rest ↦ (c ∷ seg) ∷ rest ]) ≡ sep ∷ c ∷ s
unfolding join
join-grown sep c s [] e = cc e
join-grown sep c s (seg ∷ segs) e = let tail : seg ++ join sep segs ≡ s = cc e in rw tail refl

-- Splitting a text and joining the segments gives the text back, after a separator.
pub join-split : (sep : ℕ) (s : List ℕ) → join sep (split sep s) ≡ sep ∷ s
unfolding split
join-split sep [] = unfold join in refl
join-split sep (c ∷ s) =
    let rest = join-split sep s in
    elim (Bool-cases (c == sep)) [
      | inl here ↦
          let same : c ≡ sep = ground (arith, here) in
          rw here (join-separator sep c (split sep s) s rest same)
      | inr other ↦ rw other (join-grown sep c s (split sep s) rest)
    ]

has_prefix-drop_prefix : (p s : List ℕ) → has_prefix p s ≡ true → s ≡ p ++ drop_prefix p s
unfolding has_prefix drop_prefix
has_prefix-drop_prefix [] s h = refl
has_prefix-drop_prefix (c ∷ cs) [] h = cc h
has_prefix-drop_prefix (c ∷ cs) (d ∷ ds) h =
    let same : c ≡ d = ground (arith, h) in
    let rest : has_prefix cs ds ≡ true = ground (arith, h) in
    let tail = has_prefix-drop_prefix cs ds rest in rw same (ap (λ t. d ∷ t) tail)

all_segments-Each :
    (segs : List (List ℕ)) → all_segments segs ≡ true → Each (λ seg. is_segment seg ≡ true) segs
unfolding all_segments
all_segments-Each [] h = tt
all_segments-Each (seg ∷ segs) h = (ground arith, all_segments-Each segs (ground arith))

-- The segments of a path tail that is let through.
valid_path_tail-segments :
    (tail : List ℕ)
    → valid_path_tail tail ≡ true
    → (segs : List (List ℕ)) × (tail ≡ join b'/' segs) × Each (λ seg. is_segment seg ≡ true) segs
unfolding valid_path_tail
valid_path_tail-segments [] h = ([], unfold join in refl, tt)
valid_path_tail-segments (c ∷ cs) h =
    let slash : c ≡ b'/' = ground (arith, h) in
    let safe : all_segments (split b'/' cs) ≡ true = ground (arith, h) in
    (split b'/' cs, rw slash (sym (join-split b'/' cs)), all_segments-Each (split b'/' cs) safe)

-- A path with its shape: `/responses` and segments, each after a slash and not empty, of letters,
-- digits, dashes, underscores and dots, and no two dots together.
pub record IsTarget (path : List ℕ) : Type 0 where
  pub segments : List (List ℕ)
  pub shape : path ≡ codes "/responses" ++ join b'/' segments
  pub safe : Each (λ seg. is_segment seg ≡ true) segments
  pub inside : contains_text (codes "..") path ≡ false

is_target_path-IsTarget : (path : List ℕ) → is_target_path path ≡ true → IsTarget path
unfolding is_target_path
is_target_path-IsTarget path h =
    let (starts, rest) = split_and (has_prefix (codes "/responses") path) _ h in
    let (inside, rest') = split_and (not (contains_text (codes "..") path)) _ rest in
    let (single, rest'') = split_and (not (contains_text (codes "//") path)) _ rest' in
    let (plain, tail) =
      split_and (not (contains_text (codes "?") path || contains_text (codes "#") path)) _ rest'' in
    let (segs, joined, safe) =
      valid_path_tail-segments (drop_prefix (codes "/responses") path) tail in
    record {
      segments = segs;
      shape =
          has_prefix-drop_prefix (codes "/responses") path starts
          ∙ ap (λ t. codes "/responses" ++ t) joined;
      safe = safe;
      inside = false_of_not (contains_text (codes "..") path) inside;
    }

checked :
    (g : Bool) (next : Result (Unit {0}))
    → g ≡ true
    → (if not g then ok tt else next) ≡ ok tt
    → next ≡ ok tt
checked true next h e = e
checked false next h e = cc h

given_ok : (a b : Bool) → a ≡ false → (if a then ok tt else require b denied) ≡ ok tt → b ≡ true
given_ok a true g h = refl
given_ok a false g h = ground arith

-- A Responses request that is let through has one of the three methods or none, and its path is empty or
-- of the shape above, so it stays below `/responses`.
pub validate_responses_target-IsTarget :
    (to_upper : String → String) (capability method path : String)
    → is_responses_capability capability ≡ true
    → validate_responses_target to_upper capability method path ≡ ok tt
    → (is_method (to_upper method) ≡ true) × ((path ≡ "") ⊎ IsTarget (codes path))
unfolding validate_responses_target
validate_responses_target-IsTarget to_upper capability method path h e =
    let shown : (require (is_method (to_upper method)) denied
          >> (if str_eq path "" then ok tt else require (is_target_path (codes path)) denied))
        ≡ ok tt =
      checked (is_responses_capability capability) _ h e in
    let (allowed, e₁) = require_then denied (is_method (to_upper method)) _ shown in
    (
      allowed,
      elim (Bool-cases (str_eq path "")) [
        | inl none_given ↦ inl (ground (arith, eq_iff path "", none_given))
        | inr given ↦ inr (
            is_target_path-IsTarget (codes path)
              (given_ok (str_eq path "") (is_target_path (codes path)) given e₁))
      ],
    )
