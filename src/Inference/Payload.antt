-- ===== src/Inference/Payload.antt =====
-- `walkPayload` of internal/inference/policy.go, on a decoded document. The fields of an object come
-- in the order in which Go's `range` meets them, which may be any. `strings.ToLower` and the range test
-- of `json.Number.Float64` are arguments.
pub mod Permitted
pub mod Iff
use Prim.Native.Char.{code}
use Prim.Native.String.{String}
use mini_enclava_go.Common.{
  ℕ, Bool, true, false, not, ◌&&◌, ◌||◌, str_eq, List, [], ◌∷◌, Option, none, some, Outcome, ok,
  err, ◌>>=◌, ◌>>◌, require, ◌==◌, if◌then◌else◌,
}

pub data Error : Type 0 where
  denied unsupported_capability no_route storage unbounded not_admitted billing : Error

abbrev pub Result : Type 0 → Type 0
Result A = Outcome Error A

-- A value of `encoding/json`; a number is its literal.
mutual
  pub data Json : Type 0 where
    null : Json
    boolean : Bool → Json
    number : String → Json
    text : String → Json
    array : Items → Json
    object : Fields → Json

  pub data Items : Type 0 where
    nil : Items
    item : Json → Items → Items

  pub data Fields : Type 0 where
    end : Fields
    field : String → Json → Fields → Fields

abbrev pub is_one_of : List String → String → Bool
is_one_of [] s = false
is_one_of (t ∷ ts) s = str_eq s t || is_one_of ts s

abbrev pub forbidden_payload_keys : List String
forbidden_payload_keys =
    "tenant_id" ∷ "owner" ∷ "owner_actor_id" ∷ "user_id" ∷ "actor_id" ∷ "billing_subject"
    ∷ "api_key" ∷ "api_base" ∷ "base_url" ∷ "endpoint" ∷ "credential_ref" ∷ "credential"
    ∷ "credentials" ∷ "authorization" ∷ "auth_token" ∷ "access_token" ∷ "secret" ∷ "client_secret"
    ∷ "conversation" ∷ "file_id" ∷ "container_id" ∷ "user" ∷ []

abbrev pub previous_response_id_key : String
previous_response_id_key = "previous_response_id"

abbrev pub forbidden_payload_truths : List String
forbidden_payload_truths = "store" ∷ "background" ∷ []

abbrev pub denied_nested_types : List String
denied_nested_types =
    "web_search" ∷ "web_search_preview" ∷ "file_search" ∷ "code_interpreter"
    ∷ "computer_use_preview" ∷ "shell" ∷ "custom" ∷ "hosted_tool" ∷ "remote_mcp" ∷ "mcp" ∷ []

abbrev pub allowed_nested_types : List String
allowed_nested_types =
    "function" ∷ "text" ∷ "input_text" ∷ "output_text" ∷ "refusal" ∷ "input_image" ∷ "image_url"
    ∷ "input_file" ∷ "file" ∷ "input_audio" ∷ "message" ∷ "tool_call" ∷ "tool_calls" ∷ "json_object"
    ∷ "json_schema" ∷ "item_reference" ∷ []

abbrev pub url_payload_keys : List String
url_payload_keys = "url" ∷ "image_url" ∷ "file_url" ∷ "audio_url" ∷ "href" ∷ "src" ∷ "uri" ∷ []

-- The keys that `discriminatorContexts` maps to true.
abbrev pub discriminator_contexts : List String
discriminator_contexts = "tools" ∷ "content" ∷ "input" ∷ "tool_calls" ∷ []

abbrev pub vision_types : List String
vision_types = "input_image" ∷ "image_url" ∷ "input_file" ∷ "file" ∷ []

abbrev pub codes : String → List ℕ
codes String.[] = []
codes (String.◌∷◌ c s) = code c ∷ codes s

-- `strings.HasPrefix`, the prefix first.
unfoldable pub has_prefix : List ℕ → List ℕ → Bool
has_prefix [] s = true
has_prefix (c ∷ cs) [] = false
has_prefix (c ∷ cs) (d ∷ ds) = (c == d) && has_prefix cs ds

unfoldable pub find_field : String → Fields → Option Json
find_field k end = none
find_field k (field j x fields) = if str_eq j k then some x else find_field k fields

abbrev pub is_true : Json → Bool
is_true (boolean b) = b
is_true _ = false

abbrev pub is_data_uri : String → Bool
is_data_uri s = str_eq s "" || has_prefix (codes "data:") (codes s)

-- What a field that bears a URL may hold.
abbrev pub is_inline : Json → Bool
is_inline null = true
is_inline (text s) = is_data_uri s
is_inline (object fields) = true
is_inline _ = false

-- The tests on a discriminator, and whether vision is needed after it.
unfoldable pub check_type : String → Json → Bool → Result Bool
check_type parent (text s) vision = do
  require (not (str_eq parent "tools" && not (str_eq s "function"))) unsupported_capability
  require (not (is_one_of denied_nested_types s)) unsupported_capability
  require (is_one_of allowed_nested_types s) denied
  ok (vision || is_one_of vision_types s)
check_type parent _ vision = err denied

unfoldable pub check_discriminator : String → Option Json → Bool → Result Bool
check_discriminator parent none vision = ok vision
check_discriminator parent (some t) vision =
    if is_one_of discriminator_contexts parent then check_type parent t vision else ok vision

module _ (to_lower : String → String) (in_range : String → Bool) where
  -- The tests of one field, before its value is walked.
  unfoldable pub check_field : String → Json → String → Result (Unit {0})
  check_field k x parent = do
    require (not (str_eq (to_lower k) previous_response_id_key && not (str_eq parent ""))) denied
    require (not (is_one_of forbidden_payload_keys (to_lower k))) denied
    require (not (is_one_of forbidden_payload_truths (to_lower k) && is_true x)) denied
    require (not (is_one_of url_payload_keys (to_lower k) && not (is_inline x))) denied

  unfoldable mutual
    pub walk_payload : Json → Bool → String → Result Bool
    walk_payload null vision parent = ok vision
    walk_payload (boolean b) vision parent = ok vision
    walk_payload (number n) vision parent = if in_range n then ok vision else err denied
    walk_payload (text s) vision parent = ok vision
    walk_payload (array items) vision parent = walk_items items vision parent
    walk_payload (object fields) vision parent =
        check_discriminator parent (find_field "type" fields) vision >>= λ vision'.
        walk_fields fields vision' parent

    pub walk_items : Items → Bool → String → Result Bool
    walk_items nil vision parent = ok vision
    walk_items (item x items) vision parent =
        walk_payload x vision parent >>= λ vision'. walk_items items vision' parent

    pub walk_fields : Fields → Bool → String → Result Bool
    walk_fields end vision parent = ok vision
    walk_fields (field k x fields) vision parent =
        check_field k x parent
        >> (walk_payload x vision (to_lower k) >>= λ vision'. walk_fields fields vision' parent)
