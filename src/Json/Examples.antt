-- ===== src/Json/Examples.antt =====
-- The theorem on canonical texts at an object with two fields.
use mima.Prelude.{◌≡◌, ◌≢◌, refl, [], ◌∷◌, arith}
use mima.Json.{
  Text, Fields, no_fields, field, undefined_field, json_object, json_null, json_string,
  canonical_json,
}
use mima.Json.Order.{same, swap, drop, canonical_json-Reordered}

abbrev plain_quote : Text → Text
plain_quote t = b'"' ∷ t

abbrev b_then_a : Fields
b_then_a =
    undefined_field (b'z' ∷ [])
      (field (b'b' ∷ []) json_null (field (b'a' ∷ []) (json_string (b'x' ∷ [])) no_fields))

abbrev a_then_b : Fields
a_then_b = field (b'a' ∷ []) (json_string (b'x' ∷ [])) (field (b'b' ∷ []) json_null no_fields)

canonical_a_b :
    canonical_json plain_quote (json_object b_then_a)
    ≡ b'{' ∷ b'"' ∷ b'a' ∷ b':' ∷ b'"' ∷ b'x' ∷ b',' ∷ b'"' ∷ b'b' ∷ b':' ∷ b'n' ∷ b'u' ∷ b'l'
      ∷ b'l' ∷ b'}' ∷ []
unfolding canonical_json
canonical_a_b = refl

keys_differ : ◌≢◌ {A = Text} (b'b' ∷ []) (b'a' ∷ [])
keys_differ = ground arith

canonical_json-Reordered_example :
    canonical_json plain_quote (json_object b_then_a)
    ≡ canonical_json plain_quote (json_object a_then_b)
canonical_json-Reordered_example =
    canonical_json-Reordered plain_quote b_then_a a_then_b (drop (swap keys_differ same))
