-- ===== src/Inference/Payload/Permitted.antt =====
-- What `walkPayload` of internal/inference/policy.go lets through, at any depth.
use Prim.Native.String.{String}
use mini_enclava_go.Common.{
  ◌≡◌, ◌≢◌, inl, inr, refl, sym, ◌∙◌, Bool, true, false, not, ◌&&◌, ◌||◌, str_eq, eq_iff, Option,
  none, some, ok, err, require_ok, require_then, arith, if◌then◌else◌, Bool-cases,
}
use mini_enclava_go.Inference.Payload.{
  denied, unsupported_capability, Json, null, boolean, number, text, array, object, Items, item,
  Fields, field, is_one_of, forbidden_payload_keys, forbidden_payload_truths, denied_nested_types,
  allowed_nested_types, url_payload_keys, discriminator_contexts, vision_types,
  previous_response_id_key, find_field, is_true, is_data_uri, is_inline, check_type,
  check_discriminator, check_field,
}

pub data IsItem : Json → Items → Type 0 where
  first_item : {x : Json} {items : Items} → IsItem x (item x items)
  later_item : {x y : Json} {items : Items} → IsItem x items → IsItem x (item y items)

pub data IsField : String → Json → Fields → Type 0 where
  first_field : {k : String} {x : Json} {fields : Fields} → IsField k x (field k x fields)
  later_field :
      {k j : String} {x y : Json} {fields : Fields}
      → IsField k x fields
      → IsField k x (field j y fields)

-- A discriminator of an object under `parent`.
pub record IsDiscriminator (parent : String) (t : Json) : Type 0 where
  pub name : String
  pub is_text : t ≡ text name
  pub in_tools : parent ≡ "tools" → name ≡ "function"
  pub not_denied : is_one_of denied_nested_types name ≡ false
  pub allowed : is_one_of allowed_nested_types name ≡ true

abbrev pub IsTyped : String → Option Json → Type 0
IsTyped parent none = Unit
IsTyped parent (some t) = is_one_of discriminator_contexts parent ≡ true → IsDiscriminator parent t

abbrev pub IsInline : Json → Type 0
IsInline null = Unit
IsInline (text s) = is_data_uri s ≡ true
IsInline (object fields) = Unit
IsInline _ = ⊥

pub in_range_ok :
    (b vision : Bool) {v : Bool} → (if b then ok vision else err denied) ≡ ok v → b ≡ true
in_range_ok true vision h = refl
in_range_ok false vision h = cc h

-- A guard against `a` without `b`.
with_ok : (a b : Bool) → not (a && not b) ≡ true → a ≡ true → b ≡ true
with_ok a b h g = ground arith

with_made : (a b : Bool) → (a ≡ true → b ≡ true) → not (a && not b) ≡ true
with_made true b h = rw (h refl) refl
with_made false b h = refl

not_both : (a b : Bool) → not (a && b) ≡ true → a ≡ true → b ≡ false
not_both a b h g = ground arith

neither : (a b : Bool) → (a ≡ true → b ≡ true → ⊥) → not (a && b) ≡ true
neither true true h = absurd (h refl refl)
neither true false h = refl
neither false b h = refl

false_of_not : (a : Bool) → not a ≡ true → a ≡ false
false_of_not a h = ground arith

equal_texts : (s t : String) → str_eq s t ≡ true → s ≡ t
equal_texts s t h = ground (arith, eq_iff s t)

str_eq_made : (s t : String) → s ≡ t → str_eq s t ≡ true
str_eq_made s t h = ground (arith, eq_iff s t)

module _ (to_lower : String → String) (in_range : String → Bool) where
  -- A node under a parent key, in a document under one: an item has the parent key of its array, a
  -- value of a field the key in lower case.
  pub data Within : Json → String → Json → String → Type 0 where
    here : {x : Json} {p : String} → Within x p x p
    in_array :
        {x node : Json} {items : Items} {p q : String}
        → IsItem x items
        → Within x p node q
        → Within (array items) p node q
    in_object :
        {k : String} {x node : Json} {fields : Fields} {p q : String}
        → IsField k x fields
        → Within x (to_lower k) node q
        → Within (object fields) p node q

  pub record IsPermittedField (parent k : String) (x : Json) : Type 0 where
    pub chained : to_lower k ≡ previous_response_id_key → parent ≡ ""
    pub known : is_one_of forbidden_payload_keys (to_lower k) ≡ false
    pub disabled : is_one_of forbidden_payload_truths (to_lower k) ≡ true → x ≢ boolean true
    pub inline : is_one_of url_payload_keys (to_lower k) ≡ true → IsInline x

  abbrev pub IsPermitted : Json → String → Type 0
  IsPermitted (number n) parent = in_range n ≡ true
  IsPermitted (object fields) parent =
      IsTyped parent (find_field "type" fields)
      × ((k : String) (x : Json) → IsField k x fields → IsPermittedField parent k x)
  IsPermitted _ parent = Unit

  is_true-boolean : (x : Json) → (is_true x ≡ true) → x ≡ boolean true
  is_true-boolean (boolean b) h = rw h refl
  is_true-boolean null h = cc h
  is_true-boolean (number n) h = cc h
  is_true-boolean (text s) h = cc h
  is_true-boolean (array items) h = cc h
  is_true-boolean (object fields) h = cc h

  is_inline-IsInline : (x : Json) → is_inline x ≡ true → IsInline x
  is_inline-IsInline null h = tt
  is_inline-IsInline (boolean b) h = cc h
  is_inline-IsInline (number n) h = cc h
  is_inline-IsInline (text s) h = h
  is_inline-IsInline (array items) h = cc h
  is_inline-IsInline (object fields) h = tt

  IsInline-is_inline : (x : Json) → IsInline x → is_inline x ≡ true
  IsInline-is_inline null h = refl
  IsInline-is_inline (boolean b) h = absurd h
  IsInline-is_inline (number n) h = absurd h
  IsInline-is_inline (text s) h = h
  IsInline-is_inline (array items) h = absurd h
  IsInline-is_inline (object fields) h = refl

  pub check_field-permits :
      (k : String) (x : Json) (parent : String)
      → check_field to_lower in_range k x parent ≡ ok tt
      → IsPermittedField parent k x
  unfolding check_field
  check_field-permits k x parent h =
      let (chained, h₁) =
        require_then denied
          (not (str_eq (to_lower k) previous_response_id_key && not (str_eq parent ""))) _ h in
      let (known, h₂) =
        require_then denied (not (is_one_of forbidden_payload_keys (to_lower k))) _ h₁ in
      let (disabled, h₃) =
        require_then denied (not (is_one_of forbidden_payload_truths (to_lower k) && is_true x)) _
          h₂ in
      let inline =
        require_ok denied (not (is_one_of url_payload_keys (to_lower k) && not (is_inline x))) h₃ in
      record {
        chained = λ e. equal_texts parent "" (
            with_ok (str_eq (to_lower k) previous_response_id_key) (str_eq parent "") chained
              (str_eq_made (to_lower k) previous_response_id_key e));
        known = false_of_not (is_one_of forbidden_payload_keys (to_lower k)) known;
        disabled = λ e b.
            let off =
              not_both (is_one_of forbidden_payload_truths (to_lower k)) (is_true x) disabled e in
            let on : is_true x ≡ true = rw b refl in cc (off, on);
        inline = λ e.
            is_inline-IsInline x
              (with_ok (is_one_of url_payload_keys (to_lower k)) (is_inline x) inline e);
      }

  pub check_field-accepts :
      (k : String) (x : Json) (parent : String)
      → IsPermittedField parent k x
      → check_field to_lower in_range k x parent ≡ ok tt
  unfolding check_field
  check_field-accepts k x parent p =
      let chained : not (str_eq (to_lower k) previous_response_id_key && not (str_eq parent ""))
          ≡ true =
        with_made (str_eq (to_lower k) previous_response_id_key) (str_eq parent "") (λ e.
          str_eq_made parent ""
            (p.chained (equal_texts (to_lower k) previous_response_id_key e))) in
      let disabled : not (is_one_of forbidden_payload_truths (to_lower k) && is_true x) ≡ true =
        neither (is_one_of forbidden_payload_truths (to_lower k)) (is_true x)
          (λ listed on. p.disabled listed (is_true-boolean x on)) in
      let inline : not (is_one_of url_payload_keys (to_lower k) && not (is_inline x)) ≡ true =
        with_made (is_one_of url_payload_keys (to_lower k)) (is_inline x)
          (λ listed. IsInline-is_inline x (p.inline listed)) in
      rw (chained, p.known, disabled, inline) refl

check_type-permits :
    (parent : String) (t : Json) (vision : Bool) {v : Bool}
    → check_type parent t vision ≡ ok v
    → IsDiscriminator parent t
unfolding check_type
check_type-permits parent (text s) vision h =
    let (tool, h₁) =
      require_then unsupported_capability (not (str_eq parent "tools" && not (str_eq s "function")))
        _ h in
    let (hosted, h₂) =
      require_then unsupported_capability (not (is_one_of denied_nested_types s)) _ h₁ in
    let (allowed, _) = require_then denied (is_one_of allowed_nested_types s) _ h₂ in
    record {
      name = s;
      is_text = refl;
      in_tools = λ e. equal_texts s "function" (
          with_ok (str_eq parent "tools") (str_eq s "function") tool
            (str_eq_made parent "tools" e));
      not_denied = false_of_not (is_one_of denied_nested_types s) hosted;
      allowed = allowed;
    }
check_type-permits parent null vision h = cc h
check_type-permits parent (boolean b) vision h = cc h
check_type-permits parent (number n) vision h = cc h
check_type-permits parent (array items) vision h = cc h
check_type-permits parent (object fields) vision h = cc h

check_type-accepts :
    (parent : String) (t : Json) (vision : Bool)
    → IsDiscriminator parent t
    → (v : Bool) × (check_type parent t vision ≡ ok v)
unfolding check_type
check_type-accepts parent t vision d =
    let tool : not (str_eq parent "tools" && not (str_eq d.name "function")) ≡ true =
      with_made (str_eq parent "tools") (str_eq d.name "function")
        (λ e. str_eq_made d.name "function" (d.in_tools (equal_texts parent "tools" e))) in
    (
      vision || is_one_of vision_types d.name,
      rw (d.is_text, check_type, tool, d.not_denied, d.allowed) refl,
    )

pub check_discriminator-permits :
    (parent : String) (t : Option Json) (vision : Bool) {v : Bool}
    → check_discriminator parent t vision ≡ ok v
    → IsTyped parent t
unfolding check_discriminator
check_discriminator-permits parent none vision h = tt
check_discriminator-permits parent (some t) vision h = λ listed.
    let done : check_discriminator parent (some t) vision ≡ check_type parent t vision =
      rw listed refl in
    check_type-permits parent t vision (sym done ∙ h)

pub check_discriminator-accepts :
    (parent : String) (t : Option Json) (vision : Bool)
    → IsTyped parent t
    → (v : Bool) × (check_discriminator parent t vision ≡ ok v)
unfolding check_discriminator
check_discriminator-accepts parent none vision h = (vision, refl)
check_discriminator-accepts parent (some t) vision h =
    elim (Bool-cases (is_one_of discriminator_contexts parent)) [
      | inl listed ↦
          let (v, done) = check_type-accepts parent t vision (h listed) in (v, rw listed done)
      | inr free ↦ (vision, rw free refl)
    ]
