-- ===== src/Inference/Routing/Target.antt =====
-- `validateResponsesTarget` and `validPathTail` of internal/inference/policy.go. A path is walked as the
-- codes of its characters; `strings.ToUpper` is an argument.
pub mod Shape
use mini_enclava_go.Common.{
  ℕ, Bool, true, false, not, ◌&&◌, ◌||◌, ◌==◌, String, str_eq, List, [], ◌∷◌, Option, none, some,
  ok, err, ◌>>=◌, ◌>>◌, require, leb, if◌then◌else◌,
}
use mini_enclava_go.Inference.Payload.{Error, denied, Result, codes, has_prefix}
use mini_enclava_go.Inference.Routing.Strings.{split}

abbrev pub is_responses_capability : String → Bool
is_responses_capability c = str_eq c "responses" || str_eq c "responses/compact"

abbrev pub is_segment_char : ℕ → Bool
is_segment_char c =
    (leb b'a' c && leb c b'z')
    || ((leb b'A' c && leb c b'Z')
        || ((leb b'0' c && leb c b'9') || ((c == b'-') || ((c == b'_') || (c == b'.')))))

unfoldable pub all_chars : List ℕ → Bool
all_chars [] = true
all_chars (c ∷ cs) = is_segment_char c && all_chars cs

abbrev pub is_segment : List ℕ → Bool
is_segment [] = false
is_segment (c ∷ cs) = all_chars (c ∷ cs)

unfoldable pub all_segments : List (List ℕ) → Bool
all_segments [] = true
all_segments (seg ∷ segs) = is_segment seg && all_segments segs

unfoldable pub valid_path_tail : List ℕ → Bool
valid_path_tail [] = true
valid_path_tail (c ∷ cs) = (c == b'/') && all_segments (split b'/' cs)

-- `strings.Contains`.
unfoldable pub contains_text : List ℕ → List ℕ → Bool
contains_text part [] = has_prefix part []
contains_text part (c ∷ cs) = has_prefix part (c ∷ cs) || contains_text part cs

-- `strings.TrimPrefix`, where the text has the prefix.
unfoldable pub drop_prefix : List ℕ → List ℕ → List ℕ
drop_prefix [] s = s
drop_prefix (c ∷ cs) [] = []
drop_prefix (c ∷ cs) (d ∷ ds) = drop_prefix cs ds

abbrev pub is_method : String → Bool
is_method m = str_eq m "" || (str_eq m "GET" || (str_eq m "POST" || str_eq m "DELETE"))

unfoldable pub is_target_path : List ℕ → Bool
is_target_path p =
    has_prefix (codes "/responses") p
    && (not (contains_text (codes "..") p)
        && (not (contains_text (codes "//") p)
            && (not (contains_text (codes "?") p || contains_text (codes "#") p)
                && valid_path_tail (drop_prefix (codes "/responses") p))))

unfoldable pub validate_responses_target :
    (String → String) → String → String → String → Result (Unit {0})
validate_responses_target to_upper capability method path =
    if not (is_responses_capability capability)
    then ok tt
    else (require (is_method (to_upper method)) denied
        >> (if str_eq path "" then ok tt else require (is_target_path (codes path)) denied))
