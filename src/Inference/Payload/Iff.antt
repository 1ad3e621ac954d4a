-- ===== src/Inference/Payload/Iff.antt =====
-- `walkPayload` of internal/inference/policy.go accepts exactly the permitted documents.
use Prim.Native.String.{String}
use mini_enclava_go.Common.{◌≡◌, ◌↔◌, refl, Bool, true, ok, ok_of_bind, ok_of_then}
use mini_enclava_go.Inference.Payload.{
  Json, null, boolean, number, text, array, object, Items, nil, item, Fields, end, field,
  find_field, check_discriminator, check_field, walk_payload, walk_items, walk_fields,
}
use mini_enclava_go.Inference.Payload.Permitted.{
  IsItem, first_item, later_item, IsField, first_field, later_field, Within, here, in_array,
  in_object, IsPermitted, IsPermittedField, check_field-permits, check_field-accepts,
  check_discriminator-permits, check_discriminator-accepts, in_range_ok,
}

module _ (to_lower : String → String) (in_range : String → Bool) where
  mutual
    unfolding walk_payload

    walk-permits :
        (j : Json) (vision : Bool) (p : String) {v : Bool} {node : Json} {q : String}
        → walk_payload to_lower in_range j vision p ≡ ok v
        → Within to_lower in_range j p node q
        → IsPermitted to_lower in_range node q
    walk-permits null vision p h here = tt
    walk-permits (boolean b) vision p h here = tt
    walk-permits (text s) vision p h here = tt
    walk-permits (number n) vision p h here = in_range_ok (in_range n) vision h
    walk-permits (array items) vision p h here = tt
    walk-permits (array items) vision p h (in_array at w) = items-permit items vision p h at w
    walk-permits (object fields) vision p h here =
        let (v, typed, h₁) =
          ok_of_bind (check_discriminator p (find_field "type" fields) vision) _ h in
        (
          check_discriminator-permits p (find_field "type" fields) vision typed,
          λ k x at. (fields-permit fields v p h₁ at).0,
        )
    walk-permits (object fields) vision p h (in_object at w) =
        let (v, typed, h₁) =
          ok_of_bind (check_discriminator p (find_field "type" fields) vision) _ h in
        (fields-permit fields v p h₁ at).1 _ _ w

    items-permit :
        (items : Items) (vision : Bool) (p : String) {v : Bool} {x node : Json} {q : String}
        → walk_items to_lower in_range items vision p ≡ ok v
        → IsItem x items
        → Within to_lower in_range x p node q
        → IsPermitted to_lower in_range node q
    items-permit nil vision p h at w = elim at [ ]
    items-permit (item x items) vision p h first_item w =
        let (v, walked, rest) = ok_of_bind (walk_payload to_lower in_range x vision p) _ h in
        walk-permits x vision p walked w
    items-permit (item x items) vision p h (later_item at) w =
        let (v, walked, rest) = ok_of_bind (walk_payload to_lower in_range x vision p) _ h in
        items-permit items v p rest at w

    fields-permit :
        (fields : Fields) (vision : Bool) (p : String) {v : Bool} {k : String} {x : Json}
        → walk_fields to_lower in_range fields vision p ≡ ok v
        → IsField k x fields
        → IsPermittedField to_lower in_range p k x
          × ((node : Json) (q : String)
              → Within to_lower in_range x (to_lower k) node q
              → IsPermitted to_lower in_range node q)
    fields-permit end vision p h at = elim at [ ]
    fields-permit (field k x fields) vision p h first_field =
        let (checked, h₁) = ok_of_then (check_field to_lower in_range k x p) _ h in
        let (v, walked, rest) =
          ok_of_bind (walk_payload to_lower in_range x vision (to_lower k)) _ h₁ in
        (
          check_field-permits to_lower in_range k x p checked,
          λ node q w. walk-permits x vision (to_lower k) walked w,
        )
    fields-permit (field k x fields) vision p h (later_field at) =
        let (checked, h₁) = ok_of_then (check_field to_lower in_range k x p) _ h in
        let (v, walked, rest) =
          ok_of_bind (walk_payload to_lower in_range x vision (to_lower k)) _ h₁ in
        fields-permit fields v p rest at

  mutual
    unfolding walk_payload

    walk-accepts :
        (j : Json) (vision : Bool) (p : String)
        → ((node : Json) (q : String)
            → Within to_lower in_range j p node q
            → IsPermitted to_lower in_range node q)
        → (v : Bool) × (walk_payload to_lower in_range j vision p ≡ ok v)
    walk-accepts null vision p may = (vision, refl)
    walk-accepts (boolean b) vision p may = (vision, refl)
    walk-accepts (text s) vision p may = (vision, refl)
    walk-accepts (number n) vision p may =
        let fits : in_range n ≡ true = may (number n) p here in (vision, rw fits refl)
    walk-accepts (array items) vision p may =
        items-accept items vision p (λ x at node q w. may node q (in_array at w))
    walk-accepts (object fields) vision p may =
        let (typed, permitted) = may (object fields) p here in
        let (v, started) = check_discriminator-accepts p (find_field "type" fields) vision typed in
        let (v', walked) =
          fields-accept fields v p permitted (λ k x at node q w. may node q (in_object at w)) in
        (v', rw started walked)

    items-accept :
        (items : Items) (vision : Bool) (p : String)
        → ((x : Json)
            → IsItem x items
            → (node : Json) (q : String) → Within to_lower in_range x p node q
            → IsPermitted to_lower in_range node q)
        → (v : Bool) × (walk_items to_lower in_range items vision p ≡ ok v)
    items-accept nil vision p may = (vision, refl)
    items-accept (item x items) vision p may =
        let (v, walked) = walk-accepts x vision p (may x first_item) in
        let (v', rest) = items-accept items v p (λ y at. may y (later_item at)) in
        (v', rw walked rest)

    fields-accept :
        (fields : Fields) (vision : Bool) (p : String)
        → ((k : String) (x : Json) → IsField k x fields → IsPermittedField to_lower in_range p k x)
        → ((k : String) (x : Json)
            → IsField k x fields
            → (node : Json) (q : String) → Within to_lower in_range x (to_lower k) node q
            → IsPermitted to_lower in_range node q)
        → (v : Bool) × (walk_fields to_lower in_range fields vision p ≡ ok v)
    fields-accept end vision p permitted may = (vision, refl)
    fields-accept (field k x fields) vision p permitted may =
        let checked = check_field-accepts to_lower in_range k x p (permitted k x first_field) in
        let (v, walked) = walk-accepts x vision (to_lower k) (may k x first_field) in
        let (v', rest) =
          fields-accept fields v p (λ j y at. permitted j y (later_field at))
            (λ j y at. may j y (later_field at)) in
        (v', rw (checked, walked) rest)

  -- `walkPayload` accepts a document exactly if every value in it, at any depth and under the key of
  -- the object that encloses it, is permitted: each number is in range; an object under `tools`,
  -- `content`, `input` or `tool_calls` that names a type names an allowed one, `function` under
  -- `tools`; and no field has a forbidden key, enables `store` or `background`, bears a URL but a data
  -- URI, or chains a previous response, except where the enclosing key is empty, as at the root.
  pub walk_payload_iff :
      (root : Json) (vision : Bool) (parent : String)
      → ((v : Bool) × (walk_payload to_lower in_range root vision parent ≡ ok v)) ↔ (
          (node : Json) (q : String)
          → Within to_lower in_range root parent node q
          → IsPermitted to_lower in_range node q)
  walk_payload_iff root vision parent = (
    λ (v, walked) node q w. walk-permits root vision parent walked w,
    λ may. walk-accepts root vision parent may,
  )
